-- ===== src/Prelude/Bits.antt =====
-- Laws of `|` on disjoint fields and of a table check over a byte. The libraries have no law of the
-- bit operations at variables but their definition by binary digits.
use Prim.Native.Nat.{ℕ, zero, suc, ◌+◌, ◌*◌, ◌/◌, ◌%◌, ◌^◌, ◌≤◌, ◌<◌, max}
use Prim.Native.Nat.{bit_and, bit_or, digits, bit_or-bitwise}
use mathlib.Core.Path.{◌≡◌, refl, ◌∙◌}
use mathlib.Core.Bool.{Bool, true, ◌&&◌}
use dexvm.Prelude.Tests.{◌==◌}
use native.Mathlib.Nat.{pow-suc}
use native.Mathlib.Omega.{arith}

-- The count of digits to go does not matter once it covers the first number.
pub digits_fuel :
    (z : ℕ → ℕ) (f : ℕ → ℕ → ℕ) (a b n m : ℕ) → a ≤ m → a ≤ n → digits z f m a b ≡ digits z f n a b
digits_fuel z f zero b zero zero p q = refl
digits_fuel z f zero b zero (suc m) p q = refl
digits_fuel z f (suc a) b n zero p q = absurd (omega arith)
digits_fuel z f zero b (suc n) zero p q = refl
digits_fuel z f (suc a) b zero (suc m) p q = absurd (omega arith)
digits_fuel z f zero b (suc n) (suc m) p q = refl
digits_fuel z f (suc a) b (suc n) (suc m) p q =
    omega (arith, digits_fuel z f (suc a / 2) (b / 2) n m (omega arith) (omega arith))

-- The lowest digit of a bitwise or, and the digits above it.
pub bit_or_low : (x y : ℕ) → bit_or x y ≡ max (x % 2) (y % 2) + 2 * bit_or (x / 2) (y / 2)
bit_or_low zero y = omega (arith, bit_or-bitwise 0 y, bit_or-bitwise 0 (y / 2))
bit_or_low (suc x) y =
    let half = suc x / 2 in
    omega (
      arith,
      bit_or-bitwise (suc x) y,
      bit_or-bitwise half (y / 2),
      digits_fuel (λ above. above) max half (y / 2) x half (omega arith) (omega arith),
    )

twice : (k q : ℕ) → 2 * (q * 2 ^ k) ≡ q * 2 ^ suc k
twice k q = let power = pow-suc 2 k in rw power (omega arith)

-- `r | (q << k)` is a sum where `r` has at most `k` bits.
pub bit_or-shift : (k r q : ℕ) → r < 2 ^ k → bit_or r (q * 2 ^ k) ≡ r + q * 2 ^ k
bit_or-shift zero zero q fits = bit_or-bitwise 0 (q * 1) ∙ omega arith
bit_or-shift zero (suc r) q fits = absurd (omega arith)
bit_or-shift (suc k) r q fits =
    ground (arith, bit_or-shift k (r / 2) q, twice k q, pow-suc 2 k, bit_or_low r (q * 2 ^ suc k))

-- Over a small range, two functions are compared by evaluation.
module _ (f g : ℕ → ℕ) where
  agree_below : ℕ → Bool
  agree_below zero = true
  agree_below (suc n) = f n == g n && agree_below n

  agree_below→eq : (n : ℕ) → agree_below n ≡ true → (i : ℕ) → i < n → f i ≡ g i
  unfolding agree_below
  agree_below→eq zero e i h = absurd (omega arith)
  agree_below→eq (suc n) e i h = ground (arith, agree_below→eq n (ground arith) i)

-- The three masks of a LEB128 byte.
pub bit_and_seven_bits : (b : ℕ) → b < 256 → bit_and b 0x7f ≡ b % 128
unfolding agree_below
bit_and_seven_bits = agree_below→eq _ _ 256 refl

pub bit_and_top_bit : (b : ℕ) → b < 256 → bit_and b 0x80 ≡ b / 128 * 128
unfolding agree_below
bit_and_top_bit = agree_below→eq _ _ 256 refl

pub bit_and_sign_bit : (b : ℕ) → b < 256 → bit_and b 0x40 ≡ b / 64 % 2 * 64
unfolding agree_below
bit_and_sign_bit = agree_below→eq _ _ 256 refl
