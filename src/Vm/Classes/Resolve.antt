-- ===== src/Vm/Classes/Resolve.antt =====
-- `resolve_target` of src/vm/mod.rs up to the slot of the method: where the search starts, and the search.
pub mod Methods
use dexvm.Prelude.{ℕ, List, Bool, true, false, Option, none, some, get_elem?, if◌then◌else◌}
use dexvm.Dex.Insn.{InvokeKind}
use dexvm.Vm.Object.{JObject, Arena}
use dexvm.Vm.Classes.{Key, Class, lookup, Search, search_up, search_interfaces}

-- The slot of a class, the errors "null receiver", "missing class id" and "no method", or a panic; `stuck` is
-- no end of the program.
pub data Resolution : Type 0 where
  resolved : ℕ × ℕ → Resolution
  null_receiver missing_class no_method panics stuck : Resolution

abbrev pub class_of_object : Option JObject → Option ℕ
class_of_object none = none
class_of_object (some o) = some o.class

abbrev pub object_at : Arena → Option ℕ → Option JObject
object_at arena none = none
object_at arena (some o) = get_elem? arena.objects o

abbrev pub superclass_or : Option Class → ℕ → ℕ
superclass_or none object = object
superclass_or (some class) object = elim class.superclass [ none ↦ object | some s ↦ s ]

-- The class to search first. `object` and `declared` are the loaded classes of java.lang.Object and of the
-- reference.
unfoldable pub start_class : List Class → Arena → ℕ → ℕ → InvokeKind → Option ℕ → ℕ → Option ℕ
start_class classes arena object declared InvokeKind.virtual receiver current =
    class_of_object (object_at arena receiver)
start_class classes arena object declared InvokeKind.interface receiver current =
    class_of_object (object_at arena receiver)
start_class classes arena object declared InvokeKind.static receiver current = some declared
start_class classes arena object declared InvokeKind.direct receiver current = some declared
start_class classes arena object declared InvokeKind.super receiver current =
    some (superclass_or (get_elem? classes current) object)

-- An interface without a superclass goes on at java.lang.Object.
unfoldable pub parent : ℕ → Class → Option ℕ
parent object class = elim class.superclass [
  | some s ↦ some s
  | none ↦ if class.is_interface then some object else none
]

-- The class with its slot for the key.
abbrev pub tagged : ℕ → Option ℕ → Option (ℕ × ℕ)
tagged c none = none
tagged c (some s) = some (c, s)

abbrev pub slot_of : Key → ℕ → Class → Option (ℕ × ℕ)
slot_of key c class = tagged c (lookup class.dispatch key)

abbrev pub from_interfaces : Search (ℕ × ℕ) → Resolution
from_interfaces (Search.found p) = Resolution.resolved p
from_interfaces Search.missing = Resolution.no_method
from_interfaces Search.panics = Resolution.panics
from_interfaces Search.stuck = Resolution.stuck

-- What follows the loop: the interfaces of the class where it began, if it found nothing.
abbrev pub or_interfaces : Search (ℕ × ℕ) → Search (ℕ × ℕ) → Resolution
or_interfaces (Search.found p) rest = Resolution.resolved p
or_interfaces Search.missing rest = from_interfaces rest
or_interfaces Search.panics rest = Resolution.missing_class
or_interfaces Search.stuck rest = Resolution.stuck

unfoldable pub find_slot : List Class → ℕ → ℕ → ℕ → Key → Resolution
find_slot classes object fuel c0 key =
    or_interfaces (search_up classes (slot_of key) (parent object) fuel (some c0))
      (search_interfaces classes fuel c0 key)

unfoldable pub resolve_slot :
    List Class → Arena → ℕ → ℕ → ℕ → Key → InvokeKind → Option ℕ → ℕ → Resolution
resolve_slot classes arena object declared fuel key kind receiver current =
    elim (start_class classes arena object declared kind receiver current) [
      | none ↦ Resolution.null_receiver
      | some c0 ↦ find_slot classes object fuel c0 key
    ]
