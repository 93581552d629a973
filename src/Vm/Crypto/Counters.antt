-- ===== src/Vm/Crypto/Counters.antt =====
-- The loop of `seal` and `open` of src/vm/crypto.rs against counter mode with its counters written out.
use dexvm.Prelude.{ℕ, suc, ◌+◌, ◌*◌, ◌/◌, ◌%◌, ◌^◌, ◌≡◌, ◌↔◌, refl, ap, ◌∙◌, arith}
use dexvm.Prelude.{List, [], ◌∷◌, ◌++◌, length, take}
use dexvm.Vm.Crypto.{Gcm, inc32, block, xor_into, crypt}

-- The counter `n` steps behind `c`: the low 32 bits go round.
abbrev pub counter : ℕ → ℕ → ℕ
counter c n = c / 2 ^ 32 * 2 ^ 32 + (c % 2 ^ 32 + n) % 2 ^ 32

inc32-counter : (c n : ℕ) → inc32 (counter c n) ≡ counter c (suc n)
unfolding inc32
inc32-counter c n = omega arith

-- Counter mode: the chunk at place `n` is masked by the encryption of the counter `n` steps on.
pub masked_from : Gcm → ℕ → ℕ → List (List ℕ) → List ℕ
masked_from g c n [] = []
masked_from g c n (chunk ∷ rest) =
    take (length chunk) (xor_into (block g (counter c n)) chunk) ++ masked_from g c (suc n) rest

crypt-counter :
    (g : Gcm) (c n : ℕ) (chunks : List (List ℕ))
    → crypt g (counter c n) chunks ≡ masked_from g c (suc n) chunks
unfolding crypt masked_from
crypt-counter g c n [] = refl
crypt-counter g c n (chunk ∷ rest) = rw (inc32-counter c n) (
    ap
      (λ (later : List ℕ).
        take (length chunk) (xor_into (block g (counter c (suc n))) chunk) ++ later)
      (crypt-counter g c (suc n) rest))

-- The loop of `seal` and `open` masks chunk `i` by the encrypted counter `i + 1` steps behind the first
-- one, and two counters are the same exactly if their numbers of steps agree modulo 2 ^ 32: the
-- masks of a text of fewer than 2 ^ 32 blocks stand for different counters, the first one included.
pub crypt-IsCounterMode :
    (g : Gcm) (c : ℕ) (chunks : List (List ℕ))
    → (crypt g c chunks ≡ masked_from g c 1 chunks)
      × ((i j : ℕ) → (counter c i ≡ counter c j) ↔ (i % 2 ^ 32 ≡ j % 2 ^ 32))
crypt-IsCounterMode g c chunks = (
  ap (λ (first : ℕ). crypt g first chunks) (omega arith) ∙ crypt-counter g c 0 chunks,
  λ i j. (λ e. omega (arith, e), λ e. omega (arith, e)),
)
