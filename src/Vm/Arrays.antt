-- ===== src/Vm/Arrays.antt =====
-- `ArrayData` of src/vm/object.rs with its operations, and `array_get`, `array_put` and `fill_array` of
-- src/vm/interpret.rs. The child has the proofs.
pub mod Rules
use dexvm.Prelude.{
  ℕ, ◌+◌, ◌%◌, ◌^◌, List, [], ◌∷◌, map, Bool, true, false, Option, none, some, length, get_elem?,
}
use dexvm.Prelude.{set, replicate, ltb, leb, ◌||◌, ◌&&◌, ◌==◌, if◌then◌else◌}
use dexvm.Dex.Insn.{FillArray}
use dexvm.Vm.Value.{JValue, is_null_ref, truthy, as_int, as_long}
use dexvm.Vm.Machine.{is_negative, sign_extend}
use dexvm.Vm.Object.{ArrayData, Native, JObject, Arena}
use dexvm.Vm.Operators.{FloatOps}

-- The array of a descriptor of one letter: B, C, S, I, J, F, D or Z.
abbrev new_of_letter : ℕ → ℕ → ArrayData
new_of_letter c n =
    if c == 66
    then ArrayData.byte (replicate n 0)
    else if c == 67
    then ArrayData.char (replicate n 0)
    else if c == 83
    then ArrayData.short (replicate n 0)
    else if c == 73
    then ArrayData.int (replicate n 0)
    else if c == 74
    then ArrayData.long (replicate n 0)
    else if c == 70
    then ArrayData.float (replicate n 0)
    else if c == 68
    then ArrayData.double (replicate n 0)
    else if c == 90
    then ArrayData.bool (replicate n false)
    else ArrayData.obj (replicate n JValue.null)

-- `ArrayData::new`
unfoldable pub new_data : List ℕ → ℕ → ArrayData
new_data (c ∷ []) n = new_of_letter c n
new_data elem_desc n = ArrayData.obj (replicate n JValue.null)

unfoldable pub len : ArrayData → ℕ
len (ArrayData.byte v) = length v
len (ArrayData.char v) = length v
len (ArrayData.short v) = length v
len (ArrayData.int v) = length v
len (ArrayData.long v) = length v
len (ArrayData.float v) = length v
len (ArrayData.double v) = length v
len (ArrayData.bool v) = length v
len (ArrayData.obj v) = length v

-- `f(v[i])`; none where the index is out of range, at which the source panics.
abbrev pub view : {A : Type 0} → (A → JValue) → Option A → Option JValue
view f none = none
view f (some x) = some (f x)

abbrev pub bit : Bool → ℕ
bit true = 1
bit false = 0

unfoldable pub elem : ArrayData → ℕ → Option JValue
elem (ArrayData.byte v) i = view (λ x. JValue.int (sign_extend 8 32 x)) (get_elem? v i)
elem (ArrayData.char v) i = view JValue.int (get_elem? v i)
elem (ArrayData.short v) i = view (λ x. JValue.int (sign_extend 16 32 x)) (get_elem? v i)
elem (ArrayData.int v) i = view JValue.int (get_elem? v i)
elem (ArrayData.long v) i = view JValue.long (get_elem? v i)
elem (ArrayData.float v) i = view JValue.float (get_elem? v i)
elem (ArrayData.double v) i = view JValue.double (get_elem? v i)
elem (ArrayData.bool v) i = view (λ b. JValue.int (bit b)) (get_elem? v i)
elem (ArrayData.obj v) i = view (λ x. x) (get_elem? v i)

-- `d[i] = x`, where `x` is none if its conversion panics.
abbrev pub store : {A : Type 0} → (List A → ArrayData) → List A → ℕ → Option A → Option ArrayData
store k d i none = none
store k d i (some x) = if ltb i (length d) then some (k (set d i x)) else none

-- The low bits of an int.
abbrev pub low : ℕ → Option ℕ → Option ℕ
low w none = none
low w (some x) = some (x % 2 ^ w)

module _ (floats : FloatOps) where
  unfoldable pub as_float : JValue → Option ℕ
  as_float (JValue.float f) = some f
  as_float (JValue.int i) = some (floats.int_to_float i)
  as_float v = none

  unfoldable pub as_double : JValue → Option ℕ
  as_double (JValue.double f) = some f
  as_double (JValue.float f) = some (floats.float_to_double f)
  as_double (JValue.long l) = some (floats.long_to_double l)
  as_double (JValue.int i) = some (floats.int_to_double i)
  as_double v = none

  unfoldable pub set_elem : ArrayData → ℕ → JValue → Option ArrayData
  set_elem (ArrayData.byte d) i v = store ArrayData.byte d i (low 8 (as_int v))
  set_elem (ArrayData.char d) i v = store ArrayData.char d i (low 16 (as_int v))
  set_elem (ArrayData.short d) i v = store ArrayData.short d i (low 16 (as_int v))
  set_elem (ArrayData.int d) i v = store ArrayData.int d i (as_int v)
  set_elem (ArrayData.long d) i v = store ArrayData.long d i (as_long v)
  set_elem (ArrayData.float d) i v = store ArrayData.float d i (as_float v)
  set_elem (ArrayData.double d) i v = store ArrayData.double d i (as_double v)
  set_elem (ArrayData.bool d) i v = store ArrayData.bool d i (some (truthy v))
  set_elem (ArrayData.obj d) i v = store ArrayData.obj d i (some v)

-- What an array instruction does: a value, an exception of Java (with the index and the length), an error
-- of the machine, or a panic.
pub data Access (A : Type 0) : Type 0 where
  got : A → Access A
  null_pointer : Access A
  out_of_bounds : ℕ → ℕ → Access A
  not_an_array too_long : Access A
  panics : Access A

abbrev pub of_option : {A : Type 0} → Option A → Access A
of_option none = Access.panics
of_option (some a) = Access.got a

-- The test of the index, which is signed.
unfoldable pub in_range : ℕ → ℕ → Bool
in_range idx n = if is_negative 32 idx then false else ltb idx n

abbrev pub read_elem : Option Native → ℕ → Access JValue
read_elem (some (Native.array a)) idx =
    if in_range idx (len a) then of_option (elem a idx) else Access.out_of_bounds idx (len a)
read_elem _ idx = Access.null_pointer

abbrev pub read_object : Option JObject → ℕ → Access JValue
read_object none idx = Access.panics
read_object (some o) idx = read_elem o.native idx

abbrev pub read_index : Arena → ℕ → Option ℕ → Access JValue
read_index arena o none = Access.panics
read_index arena o (some idx) = read_object (get_elem? arena.objects o) idx

-- `array_get`, on the values of the two registers.
unfoldable pub array_get : Arena → JValue → JValue → Access JValue
array_get arena (JValue.obj o) idx = read_index arena o (as_int idx)
array_get arena _ idx = Access.null_pointer

-- What is stored in an array of objects: `Null` for any null reference.
unfoldable pub stored : ArrayData → JValue → JValue
stored (ArrayData.obj d) v = if is_null_ref v then JValue.null else v
stored a v = v

-- The arena with another array in the object `o`, whose id is `id`.
abbrev pub replaced : Arena → ℕ → JObject → Option ArrayData → Access Arena
replaced arena id o none = Access.panics
replaced arena id o (some a) =
    Access.got (record arena {
      objects = set arena.objects id (record o { native = some (Native.array a) });
    })

module _ (floats : FloatOps) where
  abbrev pub write_elem : Arena → ℕ → JObject → Option Native → ℕ → JValue → Access Arena
  write_elem arena id o (some (Native.array a)) idx v =
      if in_range idx (len a)
      then replaced arena id o (set_elem floats a idx (stored a v))
      else Access.out_of_bounds idx (len a)
  write_elem arena id o _ idx v = Access.null_pointer

  abbrev pub write_object : Arena → ℕ → Option JObject → ℕ → JValue → Access Arena
  write_object arena id none idx v = Access.panics
  write_object arena id (some o) idx v = write_elem arena id o o.native idx v

  abbrev pub write_index : Arena → ℕ → Option ℕ → JValue → Access Arena
  write_index arena id none v = Access.panics
  write_index arena id (some idx) v = write_object arena id (get_elem? arena.objects id) idx v

  -- `array_put`, on the values of the three registers.
  unfoldable pub array_put : Arena → JValue → JValue → JValue → Access Arena
  array_put arena v (JValue.obj o) idx = write_index arena o (as_int idx) v
  array_put arena v _ idx = Access.null_pointer

  -- The values of `fill_array`.
  unfoldable pub fill_values : FillArray → List JValue
  fill_values (FillArray.bytes raw) = map (λ x. JValue.int (sign_extend 8 32 x)) raw
  fill_values (FillArray.shorts v) = map JValue.int v
  fill_values (FillArray.chars v) = map JValue.int v
  fill_values (FillArray.ints v) = map JValue.int v
  fill_values (FillArray.wides v) = map JValue.long v

  -- The loop over the values, from the index `i` on.
  unfoldable pub fill_from : ArrayData → ℕ → List JValue → Option ArrayData
  fill_from a i [] = some a
  fill_from a i (v ∷ vs) = elim (set_elem floats a i v) [
    | none ↦ none
    | some b ↦ fill_from b (i + 1) vs
  ]

  abbrev pub fill_native : Arena → ℕ → JObject → Option Native → List JValue → Access Arena
  fill_native arena id o (some (Native.array a)) vs =
      if ltb (len a) (length vs) then Access.too_long else replaced arena id o (fill_from a 0 vs)
  fill_native arena id o _ vs = Access.not_an_array

  abbrev pub fill_object : Arena → ℕ → Option JObject → List JValue → Access Arena
  fill_object arena id none vs = Access.panics
  fill_object arena id (some o) vs = fill_native arena id o o.native vs

  unfoldable pub fill_array : Arena → ℕ → FillArray → Access Arena
  fill_array arena id d = fill_object arena id (get_elem? arena.objects id) (fill_values d)
