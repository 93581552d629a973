-- ===== src/Vm/Classes/Assignable/Verdicts.antt =====
-- `is_assignable` of src/vm/mod.rs decides the subtype relation, where it does.
use dexvm.Prelude.{
  ℕ, zero, suc, ◌≡◌, ◌≢◌, refl, arith, List, false, Option, none, some, get_elem?, ◌==◌, Bool-cases,
  Option-cases, inl, inr,
}
use mathlib.Core.Path.{subst}
use dexvm.Permission.Text.{Text, contains}
use dexvm.Vm.Classes.{Class}
use dexvm.Vm.Classes.Assignable.{
  Verdict, or_next, class_fits, climb, assignable_inner, is_assignable,
}
use dexvm.Vm.Classes.Assignable.Subtypes.{Subtype, same, super, implements, Judges}
use dexvm.Vm.Classes.Assignable.Interfaces.{
  InterfacesJudged, any_interface_lem, Climbed, not_subtype,
}
use dexvm.Vm.Classes.Assignable.Elements.{array_fits_lem}

module _ (classes : List Class) (descriptor : ℕ → ℕ → Text) (class_of : ℕ → ℕ → Option ℕ)
    (rec : ℕ → ℕ → Verdict) (judges : (c d : ℕ) → Judges classes descriptor class_of c d (rec c d))
    (d : ℕ) (target : Class) (at_d : get_elem? classes d ≡ some target) where
  module _ (c : ℕ) (class : Class) (at_c : get_elem? classes c ≡ some class) where
    plain_fits_lem :
        (v rest : Verdict)
        → (c == d) ≡ false
        → InterfacesJudged classes descriptor class_of rec judges d target at_d class.interfaces v
        → Climbed classes descriptor class_of rec judges d target at_d class.superclass rest
        → Judges classes descriptor class_of c d (or_next classes descriptor class_of v rest)
    plain_fits_lem Verdict.fits rest other (i, m, s) h = implements at_c m s
    plain_fits_lem Verdict.differs rest other none_here h = up class.superclass refl rest h
      where
        up :
            (o : Option ℕ)
            → class.superclass ≡ o
            → (r : Verdict) → Climbed classes descriptor class_of rec judges d target at_d o r
            → Judges classes descriptor class_of c d r
        up none e Verdict.fits k = absurd k
        up (some s) e Verdict.fits k = super at_c e k
        up none e Verdict.differs k = λ flat.
            not_subtype classes descriptor class_of rec judges d target at_d c class at_c other flat
              (none_here flat) (λ s p. absurd (cc))
        up (some s) e Verdict.differs k = λ flat.
            not_subtype classes descriptor class_of rec judges d target at_d c class at_c other flat
              (none_here flat)
              (λ r p. subst (λ x. ¬ Subtype classes descriptor class_of x d) (cc) (k flat))
        up o e Verdict.too_deep k = tt
        up o e Verdict.unresolved k = tt
        up o e Verdict.panics k = tt
    plain_fits_lem Verdict.too_deep rest other i h = tt
    plain_fits_lem Verdict.unresolved rest other i h = tt
    plain_fits_lem Verdict.panics rest other i h = tt

    class_fits_lem :
        (elem target_elem : Option (ℕ × ℕ)) (rest : Verdict)
        → class.array_elem ≡ elem
        → target.array_elem ≡ target_elem
        → (c == d) ≡ false
        → Climbed classes descriptor class_of rec judges d target at_d class.superclass rest
        → Judges classes descriptor class_of c d
            (class_fits classes descriptor class_of rec d target_elem class elem rest)
    class_fits_lem (some elem) target_elem rest arr arr_t other h =
        array_fits_lem classes descriptor class_of rec judges d target at_d c class at_c elem
          target_elem arr arr_t
    class_fits_lem none target_elem rest arr arr_t other h =
        plain_fits_lem _ rest other
          (any_interface_lem classes descriptor class_of rec judges d target at_d class.interfaces)
          h

  climb_lem :
      (room : ℕ) (start : Option ℕ)
      → Climbed classes descriptor class_of rec judges d target at_d start
          (climb classes descriptor class_of rec d target.array_elem room start)
  unfolding climb
  climb_lem room none = tt
  climb_lem zero (some c) = tt
  climb_lem (suc room) (some c) = elim (Option-cases (get_elem? classes c)) [
    | inl e ↦ rw (climb, e) tt
    | inr (class, e) ↦ elim (Bool-cases (c == d)) [
      | inl at ↦ rw (climb, e, at) (same (ground (arith, at)))
      | inr other ↦
          rw (climb, e, other)
            (class_fits_lem c class e class.array_elem target.array_elem
              (climb classes descriptor class_of rec d target.array_elem room class.superclass) refl
              refl other (climb_lem room class.superclass))
    ]
  ]

module _ (classes : List Class) (descriptor : ℕ → ℕ → Text) (class_of : ℕ → ℕ → Option ℕ) where
  assignable_inner-Judges :
      (room c d : ℕ)
      → Judges classes descriptor class_of c d
          (assignable_inner classes descriptor class_of room c d)
  unfolding assignable_inner
  assignable_inner-Judges zero c d = elim (Bool-cases (c == d)) [
    | inl e ↦ rw (assignable_inner, e) (same (ground (arith, e)))
    | inr other ↦ rw (assignable_inner, other) tt
  ]
  assignable_inner-Judges (suc room) c d = elim (Bool-cases (c == d)) [
    | inl e ↦ rw (assignable_inner, e) (same (ground (arith, e)))
    | inr other ↦ elim (Option-cases (get_elem? classes d)) [
      | inl e ↦ rw (assignable_inner, other, e) tt
      | inr (target, e) ↦
          rw (assignable_inner, other, e)
            (climb_lem classes descriptor class_of
              (assignable_inner classes descriptor class_of room) (assignable_inner-Judges room) d
              target e 65 (some c))
    ]
  ]

  -- Where `is_assignable` says yes, the class is a subtype of the target; where it says no and no class is
  -- an array, it is not a subtype.
  pub is_assignable-Judges :
      (c d : ℕ)
      → Judges classes descriptor class_of c d (is_assignable classes descriptor class_of c d)
  unfolding is_assignable
  is_assignable-Judges c d = assignable_inner-Judges 65 c d

  climb_array :
      (rec : ℕ → ℕ → Verdict) (room c d : ℕ) (class : Class) (elem : ℕ × ℕ)
      → get_elem? classes c ≡ some class
      → class.array_elem ≡ some elem
      → contains d class.interfaces ≡ false
      → (c == d) ≡ false
      → climb classes descriptor class_of rec d none (suc room) (some c) ≡ Verdict.differs
  unfolding climb
  climb_array rec room c d class elem at_c arr missing apart =
      rw (climb, at_c, apart, arr, missing) refl

  -- An array is not assignable to its superclass java.lang.Object, although it is a subtype: for a target
  -- that is no array the loop looks at the interfaces of the array and goes no further.
  is_assignable-array :
      (c d : ℕ) (class target : Class) (elem : ℕ × ℕ)
      → get_elem? classes c ≡ some class
      → class.array_elem ≡ some elem
      → class.superclass ≡ some d
      → contains d class.interfaces ≡ false
      → get_elem? classes d ≡ some target
      → target.array_elem ≡ none
      → c ≢ d
      → (is_assignable classes descriptor class_of c d ≡ Verdict.differs)
        × Subtype classes descriptor class_of c d
  unfolding is_assignable assignable_inner
  is_assignable-array c d class target elem at_c arr up missing at_d plain other =
      let apart : (c == d) ≡ false = ground (arith, other) in
      let stops =
        climb_array (assignable_inner classes descriptor class_of 64) 64 c d class elem at_c arr
          missing apart in
      (rw (apart, at_d, plain) stops, super at_c up (same refl))
