-- ===== src/Examples/Hierarchy.antt =====
-- Searches in a small hierarchy.
use dexvm.Prelude.{
  ℕ, zero, suc, ◌<◌, ◌≡◌, refl, arith, List, [], ◌∷◌, Option, none, some, true, false,
}
use mathlib.Core.Path.{subst}
use dexvm.Vm.Classes.{Key, Class, lookup, Search, extend, visit, search_interfaces, search_up}
use dexvm.Vm.Classes.Interfaces.{Searches, search_interfaces-Searches}
use dexvm.Permission.Text.{Text}
use dexvm.Vm.Classes.Assignable.{is_assignable}
use dexvm.Vm.Classes.Assignable.Subtypes.{Judges}
use dexvm.Vm.Classes.Assignable.Verdicts.{is_assignable-Judges}
use dexvm.Vm.Classes.Resolve.{Resolution, parent, find_slot}
use dexvm.Vm.Classes.Resolve.Methods.{Follows, Resolves, find_slot-Resolves}
use dexvm.Vm.Classes.Chain.{IsRanked}

abbrev key : Key
key = (1, 2)

-- Class 0 has the field; class 1 extends it with the interfaces 2 and 3; 2 and 3 extend each other, and 3 has
-- the method.
abbrev classes : List Class
classes =
    record {
      superclass = none;
      interfaces = [];
      is_interface = false;
      array_elem = none;
      field_offsets = (key, 4) ∷ [];
      static_fields = [];
      dispatch = [];
    }
    ∷ record {
      superclass = some 0;
      interfaces = 2 ∷ [];
      is_interface = false;
      array_elem = none;
      field_offsets = [];
      static_fields = [];
      dispatch = [];
    }
    ∷ record {
      superclass = none;
      interfaces = 3 ∷ [];
      is_interface = true;
      array_elem = none;
      field_offsets = [];
      static_fields = [];
      dispatch = [];
    }
    ∷ record {
      superclass = none;
      interfaces = 2 ∷ [];
      is_interface = true;
      array_elem = none;
      field_offsets = [];
      static_fields = [];
      dispatch = (key, 5) ∷ [];
    }
    ∷ []

finds_method : search_interfaces classes 4 1 key ≡ Search.found (3, 5)
unfolding search_interfaces visit extend lookup
finds_method = refl

search_interfaces-Searches_example : Searches classes 1 key (search_interfaces classes 4 1 key)
search_interfaces-Searches_example = search_interfaces-Searches classes 1 4 key _ refl (omega arith)

abbrev level : ℕ → ℕ
level c = c

-- Whatever follows a class ranks lower than it does, for one entry of the list.
Lowers : ℕ → Class → Type 0
Lowers c class = (s : ℕ) → Follows 0 class (some s) → level s < level c

Follows-Lowers :
    (c : ℕ) (class : Class)
    → ((s : ℕ) → class.superclass ≡ some s → s < c)
    → (class.superclass ≡ none → class.is_interface ≡ true → 0 < c)
    → Lowers c class
unfolding Lowers
Follows-Lowers c class sup obj s (Follows.superclass e) = sup s e
Follows-Lowers c class sup obj s (Follows.object_above e i) = obj e i

of_entry : (c : ℕ) (d class : Class) → some d ≡ some class → Lowers c d → Lowers c class
of_entry c d class e h = let same : d ≡ class = cc in subst (Lowers c) same h

-- With class 0 above the interfaces.
classes-IsRanked : IsRanked classes (Follows 0) level
unfolding Lowers
classes-IsRanked zero class s e f =
    of_entry 0 _ class e (Follows-Lowers 0 _ (λ s h. cc) (λ h i. cc)) s f
classes-IsRanked (suc zero) class s e f =
    of_entry 1 _ class e (Follows-Lowers 1 _ (λ s h. ground arith) (λ h i. omega arith)) s f
classes-IsRanked (suc (suc zero)) class s e f =
    of_entry 2 _ class e (Follows-Lowers 2 _ (λ s h. cc) (λ h i. omega arith)) s f
classes-IsRanked (suc (suc (suc zero))) class s e f =
    of_entry 3 _ class e (Follows-Lowers 3 _ (λ s h. cc) (λ h i. omega arith)) s f
classes-IsRanked (suc (suc (suc (suc c)))) class s e f = absurd (cc)

-- The method of interface 3, for class 1.
finds_slot : find_slot classes 0 4 1 key ≡ Resolution.resolved (3, 5)
unfolding find_slot search_up parent search_interfaces visit extend lookup
finds_slot = refl

find_slot-Resolves_example : Resolves classes 0 key 1 (find_slot classes 0 4 1 key)
find_slot-Resolves_example =
    find_slot-Resolves classes 0 level classes-IsRanked 1 4 key _ refl (omega arith) (omega arith)

abbrev no_desc : ℕ → ℕ → Text
no_desc dex type_idx = []

abbrev no_class : ℕ → ℕ → Option ℕ
no_class dex type_idx = none

is_assignable-Judges_example :
    Judges classes no_desc no_class 1 0 (is_assignable classes no_desc no_class 1 0)
is_assignable-Judges_example = is_assignable-Judges classes no_desc no_class 1 0
