-- ===== src/Vm/Classes/Assignable/Elements.antt =====
-- Arrays in `is_assignable` of src/vm/mod.rs.
use dexvm.Prelude.{
  ℕ, ◌≡◌, refl, List, Bool, true, false, Option, none, some, length, get_elem?, ◌==◌, ◌&&◌, ◌||◌,
  not, if◌then◌else◌, Bool-cases, inl, inr,
}
use dexvm.Permission.Text.{Text, same_text, contains}
use dexvm.Vm.Classes.{Class}
use dexvm.Vm.Classes.Worklist.{contains_iff}
use dexvm.Vm.Classes.Assignable.{Verdict, is_array_desc, classes_fit, elements_fit, array_fits}
use dexvm.Vm.Classes.Assignable.Subtypes.{same, implements, same_elements, elements, Judges}

module _ (classes : List Class) (descriptor : ℕ → ℕ → Text) (class_of : ℕ → ℕ → Option ℕ)
    (rec : ℕ → ℕ → Verdict) (judges : (c d : ℕ) → Judges classes descriptor class_of c d (rec c d))
    (d : ℕ) (target : Class) (at_d : get_elem? classes d ≡ some target) where
  module _ (c : ℕ) (class : Class) (at_c : get_elem? classes c ≡ some class) where
    -- A verdict on an array promises nothing if there are no arrays.
    flat_differs :
        (elem : ℕ × ℕ)
        → class.array_elem ≡ some elem
        → Judges classes descriptor class_of c d Verdict.differs
    flat_differs elem arr =
        λ flat. absurd (let none_here : class.array_elem ≡ none = flat c class at_c in cc)

    rec_lem :
        (edx elem tdx t_elem e t : ℕ) (v : Verdict)
        → class.array_elem ≡ some (edx, elem)
        → target.array_elem ≡ some (tdx, t_elem)
        → class_of edx elem ≡ some e
        → class_of tdx t_elem ≡ some t
        → Judges classes descriptor class_of e t v
        → Judges classes descriptor class_of c d v
    rec_lem edx elem tdx t_elem e t Verdict.fits arr arr_t p q h =
        elements at_c arr at_d arr_t p q h
    rec_lem edx elem tdx t_elem e t Verdict.differs arr arr_t p q h = flat_differs (edx, elem) arr
    rec_lem edx elem tdx t_elem e t Verdict.too_deep arr arr_t p q h = tt
    rec_lem edx elem tdx t_elem e t Verdict.unresolved arr arr_t p q h = tt
    rec_lem edx elem tdx t_elem e t Verdict.panics arr arr_t p q h = tt

    classes_fit_lem :
        (edx elem tdx t_elem : ℕ) (oe ot : Option ℕ)
        → class.array_elem ≡ some (edx, elem)
        → target.array_elem ≡ some (tdx, t_elem)
        → class_of edx elem ≡ oe
        → class_of tdx t_elem ≡ ot
        → Judges classes descriptor class_of c d (classes_fit classes descriptor class_of rec oe ot)
    classes_fit_lem edx elem tdx t_elem none ot arr arr_t p q = tt
    classes_fit_lem edx elem tdx t_elem (some e) none arr arr_t p q = tt
    classes_fit_lem edx elem tdx t_elem (some e) (some t) arr arr_t p q =
        rec_lem edx elem tdx t_elem e t (rec e t) arr arr_t p q (judges e t)

    if_differs :
        (b : Bool) (v : Verdict) (elem : ℕ × ℕ)
        → class.array_elem ≡ some elem
        → Judges classes descriptor class_of c d v
        → Judges classes descriptor class_of c d (if b then Verdict.differs else v)
    if_differs true v elem arr h = flat_differs elem arr
    if_differs false v elem arr h = h

    -- The two tests of `elements_fit`, and what is behind the first.
    abbrev mixed : ℕ → ℕ → ℕ → ℕ → Bool
    mixed edx elem tdx t_elem =
        not (is_array_desc (descriptor edx elem))
        && length (descriptor edx elem) == 1
        && is_array_desc (descriptor tdx t_elem)

    abbrev primitive : ℕ → ℕ → ℕ → ℕ → Bool
    primitive edx elem tdx t_elem =
        length (descriptor edx elem) == 1 || length (descriptor tdx t_elem) == 1

    abbrev unless_primitive : ℕ → ℕ → ℕ → ℕ → Verdict
    unless_primitive edx elem tdx t_elem =
        if primitive edx elem tdx t_elem
        then Verdict.differs
        else classes_fit classes descriptor class_of rec (class_of edx elem) (class_of tdx t_elem)

    elements_fit_lem :
        (elem t : ℕ × ℕ)
        → class.array_elem ≡ some elem
        → target.array_elem ≡ some t
        → Judges classes descriptor class_of c d
            (elements_fit classes descriptor class_of rec elem t)
    unfolding elements_fit
    elements_fit_lem (edx, elem) (tdx, t_elem) arr arr_t =
        elim (Bool-cases (same_text (descriptor edx elem) (descriptor tdx t_elem))) [
          | inl equal ↦ rw (elements_fit, equal) (same_elements at_c arr at_d arr_t equal)
          | inr unequal ↦
              rw (elements_fit, unequal)
                (if_differs (mixed edx elem tdx t_elem) (unless_primitive edx elem tdx t_elem)
                  (edx, elem) arr
                  (if_differs (primitive edx elem tdx t_elem)
                    (classes_fit classes descriptor class_of rec (class_of edx elem)
                      (class_of tdx t_elem))
                    (edx, elem) arr (classes_fit_lem edx elem tdx t_elem _ _ arr arr_t refl refl)))
        ]

    pub array_fits_lem :
        (elem : ℕ × ℕ) (target_elem : Option (ℕ × ℕ))
        → class.array_elem ≡ some elem
        → target.array_elem ≡ target_elem
        → Judges classes descriptor class_of c d
            (array_fits classes descriptor class_of rec d class.interfaces elem target_elem)
    array_fits_lem elem (some t) arr arr_t = elements_fit_lem elem t arr arr_t
    array_fits_lem elem none arr arr_t = elim (Bool-cases (contains d class.interfaces)) [
      | inl there ↦
          rw there (implements at_c ((contains_iff d class.interfaces).0 there) (same refl))
      | inr missing ↦ rw missing (flat_differs elem arr)
    ]
