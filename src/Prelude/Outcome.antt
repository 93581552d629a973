-- ===== src/Prelude/Outcome.antt =====
-- Results of fallible code. An error carries an offset and a message, as `DexError` does.

-- `stuck` is no value of the program: a loop of the model ran out of fuel. The theorems show that
-- it does not occur.
pub data Result {ℓ κ} (E : Type κ) (A : Type ℓ) : Type (ℓ ⊔ κ) where
  ok : A → Result E A
  err : E → Result E A
  stuck : Result E A
