-- ===== src/Vm/Gc/Sweep.antt =====
-- The sweep of `Vm::gc` of src/vm/mod.rs.
use dexvm.Prelude.{ℕ, zero, suc, ◌+◌, ◌≤◌, ◌<◌, ◌≡◌, refl, arith, List, [], ◌∷◌, ◌++◌, Bool}
use dexvm.Prelude.{
  true, false, ap, ◌∙◌, ◌⊎◌, ◌↔◌, inl, inr, length, get_or, mem-append, Distinct, Distinct-concat,
}
use dexvm.Prelude.{length-append}
use mathlib.Core.List.{Memᴰ, append_assoc}
use mathlib.Core.List.Memᴰ
use dexvm.Vm.Object.{Arena, reclaim}
use dexvm.Vm.Gc.{sweep}

-- The arena once `dead` are pushed, and how many they are; and the count of one more.
abbrev pub swept_to : Arena → List ℕ → Arena × ℕ
swept_to a dead = (record a { free = dead ++ a.free }, length dead)

abbrev counted : Arena × ℕ → Arena × ℕ
counted r = (r.0, suc r.1)

-- What a sweep from the id `id` on pushes: each id without a mark, once.
pub record Swept (bs : List Bool) (id : ℕ) (a : Arena) : Type 0 where
  pub dead : List ℕ
  pub result : sweep bs id a ≡ swept_to a dead
  pub dead_iff : (j : ℕ) → Memᴰ (id + j) dead ↔ ((j < length bs) × (get_or bs j false ≡ false))
  pub above : (v : ℕ) → Memᴰ v dead → id ≤ v
  pub distinct : Distinct dead

pos_cases : (j : ℕ) → (j ≡ 0) ⊎ (0 < j)
pos_cases zero = inl refl
pos_cases (suc j) = inr (omega arith)

dead_cons :
    (b : Bool) (bs : List Bool) (id : ℕ) (dead : List ℕ)
    → ((j : ℕ) → Memᴰ (suc id + j) dead ↔ ((j < length bs) × (get_or bs j false ≡ false)))
    → ((v : ℕ) → Memᴰ v dead → suc id ≤ v)
    → (j : ℕ) → 0 < j
    → Memᴰ (id + j) dead ↔ ((j < length (b ∷ bs)) × (get_or (b ∷ bs) j false ≡ false))
dead_cons b bs id dead rest above zero h = absurd (omega arith)
dead_cons b bs id dead rest above (suc j) h =
    let e : id + suc j ≡ suc id + j = omega arith in rw e (ground (arith, rest j))

concat_result :
    (a : Arena) (id : ℕ) (dead : List ℕ)
    → counted (swept_to (reclaim a id) dead) ≡ swept_to a (dead ++ id ∷ [])
unfolding reclaim
concat_result a id dead =
    let one_more : length (dead ++ id ∷ []) ≡ suc (length dead) =
      omega (arith, length-append dead (id ∷ [])) in
    rw (one_more, append_assoc dead (id ∷ []) a.free) refl

pub sweep-Swept : (bs : List Bool) (id : ℕ) (a : Arena) → Swept bs id a
unfolding sweep reclaim
sweep-Swept [] id a = record {
  dead = [];
  result = refl;
  dead_iff = λ j. (λ m. absurd (Memᴰ.not-nil m), λ h. absurd (omega (arith, h.0)));
  above = λ v m. absurd (Memᴰ.not-nil m);
  distinct = tt;
}
sweep-Swept (true ∷ bs) id a =
    let rest = sweep-Swept bs (suc id) a in
    record {
      dead = rest.dead;
      result = rest.result;
      dead_iff = λ j. elim (pos_cases j) [
        | inl here ↦ rw here (λ m. absurd (omega (arith, rest.above (id + 0) m)), λ h. absurd (cc))
        | inr later ↦ dead_cons true bs id rest.dead rest.dead_iff rest.above j later
      ];
      above = λ v m. omega (arith, rest.above v m);
      distinct = rest.distinct;
    }
sweep-Swept (false ∷ bs) id a =
    let rest = sweep-Swept bs (suc id) (reclaim a id) in
    record {
      dead = rest.dead ++ id ∷ [];
      result = ap counted rest.result ∙ concat_result a id rest.dead;
      dead_iff = λ j. elim (pos_cases j) [
        | inl here ↦
            rw here
              (λ m. (omega arith, refl), λ h. Memᴰ.append_right rest.dead (Memᴰ.head (omega arith)))
        | inr later ↦ ground (
          arith,
          mem-append (id + j) rest.dead (id ∷ []),
          dead_cons false bs id rest.dead rest.dead_iff rest.above j later,
          λ (x : Memᴰ (id + j) (id ∷ [])). Memᴰ.eq_of_singleton x,
        )
      ];
      above = λ v m. ground (
        arith,
        rest.above v,
        mem-append v rest.dead (id ∷ []),
        λ (x : Memᴰ v (id ∷ [])). Memᴰ.eq_of_singleton x,
      );
      distinct =
          Distinct-concat rest.dead id rest.distinct (λ m. absurd (omega (arith, rest.above id m)));
    }
