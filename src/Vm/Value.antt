-- ===== src/Vm/Value.antt =====
-- `JValue` of src/vm/value.rs. An int and a long are the 32 and 64 bits of their two's complement, a
-- float and a double those of their encoding, and a reference is an index of the arena.
use dexvm.Prelude.{ℕ, List, [], ◌∷◌, Bool, true, false, Option, none, some, ◌==◌, not}

pub data JValue : Type 0 where
  int : ℕ → JValue
  long : ℕ → JValue
  float : ℕ → JValue
  double : ℕ → JValue
  obj : ℕ → JValue
  null : JValue

unfoldable pub is_null : JValue → Bool
is_null JValue.null = true
is_null _ = false

unfoldable pub is_null_ref : JValue → Bool
is_null_ref JValue.null = true
is_null_ref (JValue.int v) = v == 0
is_null_ref _ = false

unfoldable pub is_wide : JValue → Bool
is_wide (JValue.long v) = true
is_wide (JValue.double v) = true
is_wide _ = false

unfoldable pub truthy : JValue → Bool
truthy (JValue.int v) = not (v == 0)
truthy _ = false

-- `as_int` and `as_long`, which panic where there is no value.
unfoldable pub as_int : JValue → Option ℕ
as_int (JValue.int v) = some v
as_int JValue.null = some 0
as_int _ = none

unfoldable pub as_long : JValue → Option ℕ
as_long (JValue.long v) = some v
as_long _ = none

-- The references among values, as the loops over `JValue::Obj` of src/vm/object.rs collect them.
unfoldable pub object_ids : List JValue → List ℕ
object_ids [] = []
object_ids (JValue.obj o ∷ vs) = o ∷ object_ids vs
object_ids (v ∷ vs) = object_ids vs
