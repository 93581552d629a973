-- ===== src/Dex/Ensures.antt =====
-- What a fallible computation ensures of its value. A computation of which this holds does not run
-- out of fuel.
use dexvm.Prelude.{ℕ, ◌<◌, ◌≡◌, refl, List, ok, err, stuck, length, get_elem?}
use dexvm.Prelude.{
  Option-cases, inl, inr, ◌≢◌, lt-length_of_get_elem?, Bool, true, false, if◌then◌else◌,
}
use dexvm.Dex.Error.{DexError, DexMsg, DexResult, ◌>>=◌}
use dexvm.Dex.Insn.Units.{unit_at}

pub data Ensures {ℓ κ} {A : Type ℓ} (P : A → Type κ) : DexResult A → Type (ℓ ⊔ κ) where
  returns : {a : A} → P a → Ensures P (ok a)
  fails : {e : DexError} → Ensures P (err e)

module _ {ℓ κ} {A : Type ℓ} {P : A → Type κ} where
  pub Ensures-ok : {a : A} → Ensures P (ok a) → P a
  Ensures-ok (returns h) = h

  pub Ensures-not_stuck : {r : DexResult A} → Ensures P r → r ≢ stuck
  Ensures-not_stuck (returns h) = λ e. cc
  Ensures-not_stuck fails = λ e. cc

  -- The value that is returned is the one of which this holds.
  pub Ensures-self : {r : DexResult A} → Ensures P r → Ensures (λ a. (r ≡ ok a) × P a) r
  Ensures-self (returns h) = returns (refl, h)
  Ensures-self fails = fails

  pub Ensures-mono {μ} :
      {Q : A → Type μ} {r : DexResult A} → Ensures P r → ((a : A) → P a → Q a) → Ensures Q r
  Ensures-mono (returns h) k = returns (k _ h)
  Ensures-mono fails k = fails

  pub Ensures-bind {μ ν} :
      {B : Type μ} {Q : B → Type ν} {m : DexResult A} {f : A → DexResult B}
      → Ensures P m
      → ((a : A) → P a → Ensures Q (f a))
      → Ensures Q (m >>= f)
  Ensures-bind (returns h) k = k _ h
  Ensures-bind fails k = fails

  pub Ensures-if :
      (b : Bool) {x y : DexResult A} → Ensures P x → Ensures P y → Ensures P (if b then x else y)
  Ensures-if true hx hy = hx
  Ensures-if false hx hy = hy

-- A unit that was read stands inside the code.
pub unit_at_lem :
    (insns : List ℕ) (i off : ℕ) (msg : DexMsg)
    → Ensures (λ u. i < length insns) (unit_at insns i off msg)
unit_at_lem insns i off msg = elim (Option-cases (get_elem? insns i)) [
  | inl e ↦ rw e fails
  | inr (u, e) ↦ rw e (returns (lt-length_of_get_elem? insns i e))
]
