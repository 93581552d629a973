-- ===== src/Vm/Classes/Resolve/Methods.antt =====
-- The method that `resolve_target` of src/vm/mod.rs finds.
use dexvm.Prelude.{
  ℕ, ◌≤◌, ◌<◌, ◌≡◌, refl, sym, ap, ◌∙◌, List, Option, none, some, true, false, get_elem?,
  Bool-cases, Option-cases,
}
use mathlib.Core.Path.{subst}
use mathlib.Core.Logic.{◌⊎◌, inl, inr}
use dexvm.Vm.Classes.{Key, Class, lookup, Search}
use dexvm.Vm.Classes.Interfaces.{
  Extends, Declares, Searches, enough_fuel, search_interfaces-Searches,
}
use dexvm.Vm.Classes.Chain.{Nearest, Nowhere, Dangling, Climbs, IsRanked, search_up-Climbs}
use dexvm.Vm.Classes.Resolve.{Resolution, parent, slot_of, or_interfaces, find_slot}

-- What follows a class in the search for a method: its superclass, or java.lang.Object above an interface that
-- has none.
pub data Follows (object : ℕ) (class : Class) : Option ℕ → Type 0 where
  superclass : {s : ℕ} → class.superclass ≡ some s → Follows object class (some s)
  object_above :
      class.superclass ≡ none → class.is_interface ≡ true → Follows object class (some object)
  ended : class.superclass ≡ none → class.is_interface ≡ false → Follows object class none

-- The class has the slot for the key.
abbrev pub Has : Key → ℕ → Class → ℕ × ℕ → Type 0
Has key c class p = (p.0 ≡ c) × (lookup class.dispatch key ≡ some p.1)

abbrev pub Lacks : Key → Class → Type 0
Lacks key class = lookup class.dispatch key ≡ none

parent-Follows : (object : ℕ) (class : Class) → Follows object class (parent object class)
unfolding parent
parent-Follows object class = elim (Option-cases class.superclass) [
  | inr (s, e) ↦
      (let p : parent object class ≡ some s = rw (parent, e) refl in
        subst (Follows object class) (sym p) (superclass e))
  | inl e ↦ elim (Bool-cases class.is_interface) [
    | inl i ↦
        (let p : parent object class ≡ some object = rw (parent, e, i) refl in
          subst (Follows object class) (sym p) (object_above e i))
    | inr i ↦
        (let p : parent object class ≡ none = rw (parent, e, i) refl in
          subst (Follows object class) (sym p) (ended e i))
  ]
]

slot_of-Has :
    (key : Key) (c : ℕ) (class : Class) (p : ℕ × ℕ)
    → slot_of key c class ≡ some p
    → Has key c class p
slot_of-Has key c class p h = elim (Option-cases (lookup class.dispatch key)) [
  | inl e ↦ (let no : none ≡ some p = rw e at h in absurd (cc))
  | inr (s, e) ↦
      (let same : some (c, s) ≡ some p = rw e at h in
        let q : (c, s) ≡ p = cc in (sym (ap (λ r. r.0) q), e ∙ ap (λ r. some r.1) q))
]

slot_of-Lacks : (key : Key) (c : ℕ) (class : Class) → slot_of key c class ≡ none → Lacks key class
slot_of-Lacks key c class h = elim (Option-cases (lookup class.dispatch key)) [
  | inl e ↦ e
  | inr (s, e) ↦ (let no : ◌≡◌ {A = Option (ℕ × ℕ)} (some (c, s)) none = rw e at h in absurd (cc))
]

module _ (classes : List Class) (object : ℕ) (key : Key) (c0 : ℕ) where
  -- The slot is that of the nearest class along the superclasses, or else of a superinterface; there is no
  -- method only where neither has one.
  abbrev pub Resolves : Resolution → Type 0
  Resolves (Resolution.resolved p) =
      Nearest classes (Has key) (Lacks key) (Follows object) (some c0) p
      ⊎ (Nowhere classes (Has key) (Lacks key) (Follows object) (some c0)
          × Extends classes c0 p.0
          × Declares classes key p.0 p.1)
  Resolves Resolution.no_method =
      Nowhere classes (Has key) (Lacks key) (Follows object) (some c0)
      × ((i s : ℕ) → Extends classes c0 i → ¬ Declares classes key i s)
  Resolves Resolution.missing_class =
      Dangling classes (Has key) (Lacks key) (Follows object) (some c0)
  Resolves Resolution.panics = (i : ℕ) × Extends classes c0 i × (get_elem? classes i ≡ none)
  Resolves Resolution.null_receiver = ⊥
  Resolves Resolution.stuck = ⊥

  or_interfaces-Resolves :
      (up across : Search (ℕ × ℕ))
      → Climbs classes (Has key) (Lacks key) (Follows object) (some c0) up
      → Searches classes c0 key across
      → Resolves (or_interfaces up across)
  or_interfaces-Resolves (Search.found p) across h k = inl h
  or_interfaces-Resolves Search.missing (Search.found p) h k = inr (h, k.0, k.1)
  or_interfaces-Resolves Search.missing Search.missing h k = (h, k)
  or_interfaces-Resolves Search.missing Search.panics h k = k
  or_interfaces-Resolves Search.missing Search.stuck h k = absurd k
  or_interfaces-Resolves Search.panics across h k = h
  or_interfaces-Resolves Search.stuck across h k = absurd h

-- Where the superclasses, with java.lang.Object above the interfaces, go down in rank, the search for a method
-- ends, and it finds the method of the nearest class along the superclasses of the class where it begins, or
-- else one of a superinterface of that class; it finds none only where neither has one.
pub find_slot-Resolves :
    (classes : List Class) (object : ℕ) (rank : ℕ → ℕ)
    → IsRanked classes (Follows object) rank
    → (c0 fuel : ℕ) (key : Key) (class : Class) → get_elem? classes c0 ≡ some class
    → rank c0 < fuel
    → enough_fuel classes class ≤ fuel
    → Resolves classes object key c0 (find_slot classes object fuel c0 key)
unfolding find_slot
find_slot-Resolves classes object rank ranked c0 fuel key class e up across =
    or_interfaces-Resolves classes object key c0 _ _
      (search_up-Climbs classes (Has key) (Lacks key) (Follows object) (slot_of key) (parent object)
        (slot_of-Has key) (slot_of-Lacks key) (parent-Follows object) rank ranked fuel (some c0)
        (λ c same. subst (λ n. rank n < fuel) (cc) up))
      (search_interfaces-Searches classes c0 fuel key class e across)
