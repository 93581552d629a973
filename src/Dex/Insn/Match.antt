-- ===== src/Dex/Insn/Match.antt =====
-- A `match` on a number, arm by arm, and its rule.
use dexvm.Prelude.{ℕ, ◌≤◌, arith, ◌&&◌, List, [], ◌∷◌, leb}
use dexvm.Prelude.{if◌then◌else◌, Bool-cases, inl, inr}

-- `lo ..= hi => a`
pub record Arm {ℓ} (A : Type ℓ) : Type ℓ where
  pub lo : ℕ
  pub hi : ℕ
  pub body : A

abbrev pub on {ℓ} : {A : Type ℓ} → ℕ → A → Arm A
on k a = record { lo = k; hi = k; body = a }

abbrev pub from_to {ℓ} : {A : Type ℓ} → ℕ → ℕ → A → Arm A
from_to lo hi a = record { lo = lo; hi = hi; body = a }

-- The first arm whose range holds `x`, or the last resort `d`.
unfoldable pub match_on {ℓ} : {A : Type ℓ} → ℕ → List (Arm A) → A → A
match_on x [] d = d
match_on x (arm ∷ arms) d = if leb arm.lo x && leb x arm.hi then arm.body else match_on x arms d

-- What each arm does in its own range.
abbrev pub Arms {ℓ κ} : {A : Type ℓ} → (ℕ → A → Type κ) → List (Arm A) → Type κ
Arms P [] = Unit
Arms P (arm ∷ arms) = ((x : ℕ) → arm.lo ≤ x → x ≤ arm.hi → P x arm.body) × Arms P arms

pub match_rule {ℓ κ} :
    {A : Type ℓ} (P : ℕ → A → Type κ) (x : ℕ) (arms : List (Arm A)) (d : A)
    → Arms P arms
    → P x d
    → P x (match_on x arms d)
unfolding match_on
match_rule P x [] d h last = last
match_rule P x (arm ∷ arms) d h last = elim (Bool-cases (leb arm.lo x && leb x arm.hi)) [
  | inl here ↦ rw here (h.0 x (ground arith) (ground arith))
  | inr later ↦ rw later (match_rule P x arms d h.1 last)
]

-- The cases of `Arms`, one after the other.
infixr 2 ◌&◌
abbrev pub ◌&◌ {ℓ κ} : {A : Type ℓ} {B : Type κ} → A → B → A × B
a & b = (a, b)
