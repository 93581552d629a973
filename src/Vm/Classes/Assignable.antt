-- ===== src/Vm/Classes/Assignable.antt =====
-- `is_assignable` of src/vm/mod.rs. The descriptors of types and the classes of element types are those of the
-- dex files, once their classes are loaded.
pub mod Subtypes
pub mod Interfaces
pub mod Elements
pub mod Verdicts
use dexvm.Prelude.{
  ℕ, zero, suc, List, [], ◌∷◌, Bool, true, false, not, Option, none, some, length, get_elem?, ◌==◌,
  ◌&&◌, ◌||◌, if◌then◌else◌,
}
use dexvm.Permission.Text.{Text, same_text, contains}
use dexvm.Vm.Classes.{Class}

-- `Ok(true)`, `Ok(false)`, the errors of a hierarchy that is too deep and of a type that has no class, and
-- the panic of an id past the classes.
pub data Verdict : Type 0 where
  fits differs too_deep unresolved panics : Verdict

-- `starts_with('[')`
unfoldable pub is_array_desc : Text → Bool
is_array_desc [] = false
is_array_desc (c ∷ cs) = c == 91

module _ (classes : List Class) (descriptor : ℕ → ℕ → Text) (class_of : ℕ → ℕ → Option ℕ) where
  abbrev pub classes_fit : (ℕ → ℕ → Verdict) → Option ℕ → Option ℕ → Verdict
  classes_fit rec (some e) (some t) = rec e t
  classes_fit rec (some e) none = Verdict.unresolved
  classes_fit rec none t = Verdict.unresolved

  -- The element types of two arrays.
  unfoldable pub elements_fit : (ℕ → ℕ → Verdict) → ℕ × ℕ → ℕ × ℕ → Verdict
  elements_fit rec (edx, elem) (tdx, t_elem) =
      let e_desc = descriptor edx elem in
      let t_desc = descriptor tdx t_elem in
      if same_text e_desc t_desc
      then Verdict.fits
      else if not (is_array_desc e_desc) && length e_desc == 1 && is_array_desc t_desc
      then Verdict.differs
      else if length e_desc == 1 || length t_desc == 1
      then Verdict.differs
      else classes_fit rec (class_of edx elem) (class_of tdx t_elem)

  -- `differs` goes on, and any other verdict ends the search.
  abbrev pub or_next : Verdict → Verdict → Verdict
  or_next Verdict.differs rest = rest
  or_next v rest = v

  -- The loop over the interfaces.
  unfoldable pub any_interface : (ℕ → ℕ → Verdict) → ℕ → List ℕ → Verdict
  any_interface rec target [] = Verdict.differs
  any_interface rec target (i ∷ ids) =
      if i == target then Verdict.fits else or_next (rec i target) (any_interface rec target ids)

  -- A class that is an array: to an array by the elements, and else to its interfaces.
  abbrev pub array_fits : (ℕ → ℕ → Verdict) → ℕ → List ℕ → ℕ × ℕ → Option (ℕ × ℕ) → Verdict
  array_fits rec target interfaces elem (some t) = elements_fit rec elem t
  array_fits rec target interfaces elem none =
      if contains target interfaces then Verdict.fits else Verdict.differs

  abbrev pub class_fits :
      (ℕ → ℕ → Verdict) → ℕ → Option (ℕ × ℕ) → Class → Option (ℕ × ℕ) → Verdict → Verdict
  class_fits rec target target_elem class (some elem) rest =
      array_fits rec target class.interfaces elem target_elem
  class_fits rec target target_elem class none rest =
      or_next (any_interface rec target class.interfaces) rest

  -- The loop along the superclasses, with room for as many levels.
  unfoldable pub climb : (ℕ → ℕ → Verdict) → ℕ → Option (ℕ × ℕ) → ℕ → Option ℕ → Verdict
  climb rec target target_elem room none = Verdict.differs
  climb rec target target_elem zero (some c) = Verdict.too_deep
  climb rec target target_elem (suc room) (some c) = elim (get_elem? classes c) [
    | none ↦ Verdict.panics
    | some class ↦
        if c == target
        then Verdict.fits
        else class_fits rec target target_elem class class.array_elem
            (climb rec target target_elem room class.superclass)
  ]

  -- `is_assignable_inner` with room for as many depths; a loop has 65 levels.
  unfoldable pub assignable_inner : ℕ → ℕ → ℕ → Verdict
  assignable_inner zero obj_class target =
      if obj_class == target then Verdict.fits else Verdict.too_deep
  assignable_inner (suc room) obj_class target =
      if obj_class == target then Verdict.fits else elim (get_elem? classes target) [
        | none ↦ Verdict.panics
        | some t ↦ climb (assignable_inner room) target t.array_elem 65 (some obj_class)
      ]

  unfoldable pub is_assignable : ℕ → ℕ → Verdict
  is_assignable obj_class target = assignable_inner 65 obj_class target
