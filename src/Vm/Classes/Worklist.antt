-- ===== src/Vm/Classes/Worklist.antt =====
-- The measure of the loop of `search_interfaces` of src/vm/mod.rs: the queue and the interfaces of the classes
-- not seen yet.
use dexvm.Prelude.{
  ℕ, zero, suc, ◌+◌, ◌<◌, ◌≡◌, ◌↔◌, refl, ap, arith, List, [], ◌∷◌, true, false, some, length,
  get_elem?, ◌==◌, if◌then◌else◌, Bool-cases, inl, inr, ◌⊎◌,
}
use dexvm.Prelude.{mem-cons}
use mathlib.Core.Logic.{⊎_elim}
use mathlib.Core.List.{Memᴰ}
use mathlib.Core.List.Memᴰ
use dexvm.Permission.Text.{contains}
use dexvm.Vm.Classes.{Class, extend}

pub contains_iff : (i : ℕ) (seen : List ℕ) → (contains i seen ≡ true) ↔ Memᴰ i seen
contains_iff i [] = (λ e. absurd (cc), λ m. absurd (Memᴰ.not-nil m))
contains_iff i (x ∷ xs) = elim (Bool-cases (x == i)) [
  | inl e ↦ (λ c. Memᴰ.head (ground (arith, e)), λ m. rw e refl)
  | inr e ↦ (
    λ c. Memᴰ.tail ((contains_iff i xs).0 (rw e at c)),
    λ m. rw e (elim (Memᴰ.cases_cons m) [
      | inl same ↦ absurd (ground (arith, e, same))
      | inr later ↦ (contains_iff i xs).1 later
    ]),
  )
]

-- The interfaces of the classes from the id `i` on that are not seen.
abbrev pub unseen : ℕ → List Class → List ℕ → ℕ
unseen i [] seen = 0
unseen i (c ∷ cs) seen =
    (if contains i seen then 0 else length c.interfaces) + unseen (i + 1) cs seen

-- An id below those counted does not matter.
unseen-past :
    (i j : ℕ) (cs : List Class) (seen : List ℕ) → j < i → unseen i cs (j ∷ seen) ≡ unseen i cs seen
unseen-past i j [] seen less = refl
unseen-past i j (c ∷ cs) seen less =
    let other : (j == i) ≡ false = ground (arith, less) in
    rw (other, unseen-past (i + 1) j cs seen (omega (arith, less))) refl

unseen_at :
    (i j n : ℕ) (cs : List Class) (seen : List ℕ) {c : Class}
    → get_elem? cs j ≡ some c
    → n ≡ i + j
    → contains n seen ≡ false
    → unseen i cs (n ∷ seen) + length c.interfaces ≡ unseen i cs seen
unseen_at i j n [] seen e at new = absurd (cc)
unseen_at i zero n (d ∷ cs) seen {c = c} e at new =
    let same : (n == i) ≡ true = ground (arith, at) in
    let here : n ≡ i = omega (arith, at) in
    let fresh : contains i seen ≡ false = rw here at new in
    let one : d ≡ c = cc in
    let sizes : length d.interfaces ≡ length c.interfaces =
      ap (λ (k : Class). length k.interfaces) one in
    rw (same, fresh, unseen-past (i + 1) n cs seen (omega (arith, at))) (omega (arith, sizes))
unseen_at i (suc j) n (d ∷ cs) seen {c = c} e at new =
    let other : (n == i) ≡ false = ground (arith, at) in
    let rest : unseen (i + 1) cs (n ∷ seen) + length c.interfaces ≡ unseen (i + 1) cs seen =
      unseen_at (i + 1) j n cs seen e (omega (arith, at)) new in
    rw other (omega (arith, rest))

-- To see a class takes its interfaces off the measure.
pub unseen-seen :
    (classes : List Class) (i : ℕ) (seen : List ℕ) {c : Class}
    → get_elem? classes i ≡ some c
    → contains i seen ≡ false
    → unseen 0 classes (i ∷ seen) + length c.interfaces ≡ unseen 0 classes seen
unseen-seen classes i seen e new = unseen_at 0 i i classes seen e (omega arith) new

pub length-extend :
    (classes : List Class) (ids queue : List ℕ)
    → length (extend classes ids queue) ≡ length ids + length queue
unfolding extend
length-extend classes [] queue = omega arith
length-extend classes (i ∷ ids) queue = omega (arith, length-extend classes ids (i ∷ queue))

pub mem-extend :
    (classes : List Class) (ids queue : List ℕ) (j : ℕ)
    → Memᴰ j (extend classes ids queue) ↔ (Memᴰ j ids ⊎ Memᴰ j queue)
unfolding extend
mem-extend classes [] queue j = (λ m. inr m, ⊎_elim (λ m. absurd (Memᴰ.not-nil m)) (λ m. m))
mem-extend classes (i ∷ ids) queue j =
    let (out, into) = mem-extend classes ids (i ∷ queue) j in
    (
      λ m. elim (out m) [
        | inl among ↦ inl (Memᴰ.tail among)
        | inr rest ↦ elim ((mem-cons j i queue).0 rest) [
          | inl e ↦ inl (Memᴰ.head e)
          | inr old ↦ inr old
        ]
      ],
      ⊎_elim
          (λ m. elim ((mem-cons j i ids).0 m) [
            | inl e ↦ into (inr (Memᴰ.head e))
            | inr later ↦ into (inl later)
          ])
          (λ m. into (inr (Memᴰ.tail m))),
    )
