-- ===== src/Vm/Object.antt =====
-- Objects and the arena of src/vm/object.rs.
use dexvm.Prelude.{ℕ, ◌-◌, List, [], ◌∷◌, ◌++◌, Bool, Option, none, some, length, get_elem?, set}
use dexvm.Prelude.{leb, if◌then◌else◌}
use dexvm.Vm.Value.{JValue, object_ids}

-- The elements are bit patterns of their type's width.
pub data ArrayData : Type 0 where
  byte : List ℕ → ArrayData
  char : List ℕ → ArrayData
  short : List ℕ → ArrayData
  int : List ℕ → ArrayData
  long : List ℕ → ArrayData
  float : List ℕ → ArrayData
  double : List ℕ → ArrayData
  bool : List Bool → ArrayData
  obj : List JValue → ArrayData

-- The payload of an object: an array, or any other one, of which only the values are kept that its
-- arm of `collect_refs` reports.
pub data Native : Type 0 where
  array : ArrayData → Native
  other : List JValue → Native

pub record JObject : Type 0 where
  pub class : ℕ
  pub fields : List JValue
  pub native : Option Native

unfoldable pub native_refs : Native → List ℕ
native_refs (Native.array (ArrayData.obj v)) = object_ids v
native_refs (Native.array _) = []
native_refs (Native.other v) = object_ids v

-- `JObject::collect_refs`, on an empty vector.
abbrev pub payload_refs : Option Native → List ℕ
payload_refs none = []
payload_refs (some n) = native_refs n

unfoldable pub collect_refs : JObject → List ℕ
collect_refs o = object_ids o.fields ++ payload_refs o.native

-- `free` has the end of the vector first, where ids are pushed and popped.
pub record Arena : Type 0 where
  pub objects : List JObject
  pub free : List ℕ

-- `alloc` once an id was popped, or none was there. A popped id beyond the objects would panic; here it
-- changes no object.
abbrev pub alloc_at : Arena → JObject → List ℕ → ℕ × Arena
alloc_at a o [] = (length a.objects, record a { objects = a.objects ++ (o ∷ []) })
alloc_at a o (f ∷ free) = (f, record { objects = set a.objects f o; free = free })

unfoldable pub alloc : Arena → JObject → ℕ × Arena
alloc a o = alloc_at a o a.free

unfoldable pub get : Arena → ℕ → Option JObject
get a id = get_elem? a.objects id

unfoldable pub reclaim : Arena → ℕ → Arena
reclaim a id = record a { free = id ∷ a.free }

-- `live_count`; none where the subtraction goes below 0.
unfoldable pub live_count : Arena → Option ℕ
live_count a =
    if leb (length a.free) (length a.objects) then some (length a.objects - length a.free) else none
