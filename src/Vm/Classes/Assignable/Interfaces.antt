-- ===== src/Vm/Classes/Assignable/Interfaces.antt =====
-- The loop over the interfaces in `is_assignable` of src/vm/mod.rs.
use dexvm.Prelude.{
  ℕ, ◌≡◌, refl, arith, List, [], ◌∷◌, false, Option, none, some, get_elem?, ◌==◌, Bool-cases, inl,
  inr, mem-cons,
}
use mathlib.Core.Path.{subst}
use mathlib.Core.List.{Memᴰ}
use mathlib.Core.List.Memᴰ
use dexvm.Permission.Text.{Text}
use dexvm.Vm.Classes.{Class}
use dexvm.Vm.Classes.Assignable.{Verdict, or_next, any_interface}
use dexvm.Vm.Classes.Assignable.Subtypes.{
  Subtype, same, super, implements, same_elements, elements, NoArrays, Judges,
}

module _ (classes : List Class) (descriptor : ℕ → ℕ → Text) (class_of : ℕ → ℕ → Option ℕ)
    (rec : ℕ → ℕ → Verdict) (judges : (c d : ℕ) → Judges classes descriptor class_of c d (rec c d))
    (d : ℕ) (target : Class) (at_d : get_elem? classes d ≡ some target) where
  -- What the loop over the interfaces promises.
  abbrev pub InterfacesJudged : List ℕ → Verdict → Type 0
  InterfacesJudged ids Verdict.fits = (i : ℕ) × Memᴰ i ids × Subtype classes descriptor class_of i d
  InterfacesJudged ids Verdict.differs =
      NoArrays classes descriptor class_of
      → (i : ℕ) → Memᴰ i ids
      → ¬ Subtype classes descriptor class_of i d
  InterfacesJudged ids v = Unit

  next_interface :
      (i : ℕ) (ids : List ℕ) (v rest : Verdict)
      → Judges classes descriptor class_of i d v
      → InterfacesJudged ids rest
      → InterfacesJudged (i ∷ ids) (or_next classes descriptor class_of v rest)
  next_interface i ids Verdict.fits rest h r = (i, Memᴰ.head refl, h)
  next_interface i ids Verdict.differs Verdict.fits h (j, m, s) = (j, Memᴰ.tail m, s)
  next_interface i ids Verdict.differs Verdict.differs h r = λ flat j m s.
      elim ((mem-cons j i ids).0 m) [
        | inl e ↦ h flat (subst (λ k. Subtype classes descriptor class_of k d) e s)
        | inr later ↦ r flat j later s
      ]
  next_interface i ids Verdict.differs Verdict.too_deep h r = tt
  next_interface i ids Verdict.differs Verdict.unresolved h r = tt
  next_interface i ids Verdict.differs Verdict.panics h r = tt
  next_interface i ids Verdict.too_deep rest h r = tt
  next_interface i ids Verdict.unresolved rest h r = tt
  next_interface i ids Verdict.panics rest h r = tt

  pub any_interface_lem :
      (ids : List ℕ) → InterfacesJudged ids (any_interface classes descriptor class_of rec d ids)
  unfolding any_interface
  any_interface_lem [] = λ flat i m s. Memᴰ.not-nil m
  any_interface_lem (i ∷ ids) = elim (Bool-cases (i == d)) [
    | inl e ↦ rw (any_interface, e) (i, Memᴰ.head refl, same (ground (arith, e)))
    | inr other ↦
        rw (any_interface, other)
          (next_interface i ids (rec i d) (any_interface classes descriptor class_of rec d ids)
            (judges i d) (any_interface_lem ids))
  ]

  -- The verdict of the loop along the superclasses, which may have come to an end.
  abbrev pub Climbed : Option ℕ → Verdict → Type 0
  Climbed none Verdict.fits = ⊥
  Climbed none v = Unit
  Climbed (some c) v = Judges classes descriptor class_of c d v

  pub not_subtype :
      (c : ℕ) (class : Class)
      → get_elem? classes c ≡ some class
      → (c == d) ≡ false
      → NoArrays classes descriptor class_of
      → ((i : ℕ) → Memᴰ i class.interfaces → ¬ Subtype classes descriptor class_of i d)
      → ((s : ℕ) → class.superclass ≡ some s → ¬ Subtype classes descriptor class_of s d)
      → ¬ Subtype classes descriptor class_of c d
  not_subtype c class at_c other flat no_interface no_super (same e) =
      absurd (ground (arith, e, other))
  not_subtype c class at_c other flat no_interface no_super
        (super {s = s} {class = k} at_k up sub) =
      let one : k ≡ class = cc in
      no_super s (subst (λ (x : Class). x.superclass ≡ some s) one up) sub
  not_subtype c class at_c other flat no_interface no_super
        (implements {i = i} {class = k} at_k m sub) =
      let one : k ≡ class = cc in
      no_interface i (subst (λ (x : Class). Memᴰ i x.interfaces) one m) sub
  not_subtype c class at_c other flat no_interface no_super
        (same_elements {class = k} at_k arr at_t arr_t e) =
      let none_here : k.array_elem ≡ none = flat c k at_k in cc
  not_subtype c class at_c other flat no_interface no_super
        (elements {class = k} at_k arr at_t arr_t e t sub) =
      let none_here : k.array_elem ≡ none = flat c k at_k in cc
