-- ===== src/Vm/Classes.antt =====
-- Classes of src/vm/class.rs, and the searches of src/vm/mod.rs along superclasses and interfaces.
pub mod Worklist
pub mod Interfaces
pub mod Chain
pub mod Assignable
pub mod Resolve
pub mod Initialize
use dexvm.Prelude.{
  ℕ, zero, suc, List, [], ◌∷◌, ◌++◌, Bool, true, false, Option, none, some, get_elem?, ◌==◌, ◌&&◌,
  if◌then◌else◌,
}
use dexvm.Permission.Text.{contains}

-- A name and a signature, or a name and a type, as interned ids.
abbrev pub Key : Type 0
Key = ℕ × ℕ

-- The owning class of a static field and the offset there.
abbrev pub Owned : Type 0
Owned = ℕ × ℕ

-- The fields of `Class` that the searches read. A hash map is a list of entries, of which the first for a
-- key counts.
pub record Class : Type 0 where
  pub superclass : Option ℕ
  pub interfaces : List ℕ
  pub is_interface : Bool
  pub array_elem : Option (ℕ × ℕ)
  pub field_offsets : List (Key × ℕ)
  pub static_fields : List (Key × Owned)
  pub dispatch : List (Key × ℕ)

-- `HashMap::get`
unfoldable pub lookup : {A : Type 0} → List (Key × A) → Key → Option A
lookup [] key = none
lookup ((k, a) ∷ entries) key = if k.0 == key.0 && k.1 == key.1 then some a else lookup entries key

-- How a search ends: with what it found, with nothing, or in a panic, where an id is past the classes.
-- `stuck` is no end of the program: the model ran out of fuel.
pub data Search (A : Type 0) : Type 0 where
  found : A → Search A
  missing : Search A
  panics : Search A
  stuck : Search A

module _ (classes : List Class) where
  module _ {A : Type 0} (find : ℕ → Class → Option A) (next : Class → Option ℕ) where
    abbrev pub here_or : Option A → Search A → Search A
    here_or (some a) rest = Search.found a
    here_or none rest = rest

    -- `while let Some(cc) = c { ...; c = next; }`, on fuel.
    unfoldable pub search_up : ℕ → Option ℕ → Search A
    search_up fuel none = Search.missing
    search_up zero (some c) = Search.stuck
    search_up (suc fuel) (some c) = elim (get_elem? classes c) [
      | none ↦ Search.panics
      | some class ↦ here_or (find c class) (search_up fuel (next class))
    ]

  unfoldable pub field_offset : ℕ → ℕ → Key → Search ℕ
  field_offset fuel class_id key =
      search_up (λ c class. lookup class.field_offsets key) (λ class. class.superclass) fuel
        (some class_id)

  -- Where `missing` is the error "no static field".
  unfoldable pub static_field_owner : ℕ → ℕ → Key → Search Owned
  static_field_owner fuel start key =
      search_up (λ c class. lookup class.static_fields key) (λ class. class.superclass) fuel
        (some start)

  -- `Vec::extend` at the end at which `pop` takes; the queue is written from that end on.
  unfoldable pub extend : List ℕ → List ℕ → List ℕ
  extend [] queue = queue
  extend (i ∷ ids) queue = extend ids (i ∷ queue)

  -- The loop of `search_interfaces`, on fuel.
  unfoldable pub visit : ℕ → Key → List ℕ → List ℕ → Search (ℕ × ℕ)
  visit fuel key [] seen = Search.missing
  visit zero key (i ∷ queue) seen = Search.stuck
  visit (suc fuel) key (i ∷ queue) seen =
      if contains i seen then visit fuel key queue seen else elim (get_elem? classes i) [
        | none ↦ Search.panics
        | some c ↦ elim (lookup c.dispatch key) [
          | some s ↦ Search.found (i, s)
          | none ↦ visit fuel key (extend c.interfaces queue) (i ∷ seen)
        ]
      ]

  unfoldable pub search_interfaces : ℕ → ℕ → Key → Search (ℕ × ℕ)
  search_interfaces fuel class_id key = elim (get_elem? classes class_id) [
    | none ↦ Search.panics
    | some c ↦ visit fuel key (extend c.interfaces []) []
  ]
