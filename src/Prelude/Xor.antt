-- ===== src/Prelude/Xor.antt =====
-- Laws of `^` (exclusive or) at variables, from its definition by binary digits.
use Prim.Native.Nat.{ℕ, zero, suc, ◌+◌, ◌*◌, ◌/◌, ◌%◌, ◌^◌, ◌≤◌, ◌<◌}
use Prim.Native.Nat.{bit_xor, differ, bit_xor-bitwise}
use mathlib.Core.Path.{◌≡◌, refl, ap, sym, ◌∙◌}
use native.Mathlib.Nat.{
  mod-one, mul-one, mul_assoc, mul_comm, div-add-mod', pow-suc, div-one, div-div-eq-div-mul,
}
use native.Mathlib.Omega.{arith}
use dexvm.Prelude.Bits.{digits_fuel}

differ_lem : (a b : ℕ) → a < 2 → b < 2 → differ a b ≡ (a + b) % 2
differ_lem zero b p q = omega arith
differ_lem (suc zero) zero p q = refl
differ_lem (suc zero) (suc zero) p q = refl
differ_lem (suc zero) (suc (suc b)) p q = absurd (omega arith)
differ_lem (suc (suc a)) b p q = absurd (omega arith)

pub zero-bit_xor : (b : ℕ) → bit_xor 0 b ≡ b
zero-bit_xor b = bit_xor-bitwise 0 b

bit_xor_step : (a b : ℕ) → bit_xor a b ≡ bit_xor (a / 2) (b / 2) * 2 + (a + b) % 2
bit_xor_step zero b = omega (arith, zero-bit_xor b, zero-bit_xor (b / 2))
bit_xor_step (suc a) b =
    let half = suc a / 2 in
    omega (
      arith,
      bit_xor-bitwise (suc a) b,
      bit_xor-bitwise half (b / 2),
      differ_lem (suc a % 2) (b % 2) (omega arith) (omega arith),
      digits_fuel (λ above. above) differ half (b / 2) a half (omega arith) (omega arith),
    )

-- The digits above the lowest, and the lowest digit.
pub bit_xor_half : (a b : ℕ) → bit_xor a b / 2 ≡ bit_xor (a / 2) (b / 2)
bit_xor_half a b = omega (arith, bit_xor_step a b)

pub bit_xor_low : (a b : ℕ) → bit_xor a b % 2 ≡ (a + b) % 2
bit_xor_low a b = omega (arith, bit_xor_step a b)

-- Numbers with the same digits are the same.
by_digits : (x y : ℕ) → x / 2 ≡ y / 2 → x % 2 ≡ y % 2 → x ≡ y
by_digits x y p q = omega arith

cancel_fuel : (n a b : ℕ) → a ≤ n → bit_xor a (bit_xor a b) ≡ b
cancel_fuel n zero b h = rw (zero-bit_xor (bit_xor 0 b)) (zero-bit_xor b)
cancel_fuel zero (suc a) b h = absurd (omega arith)
cancel_fuel (suc n) (suc a) b h =
    by_digits _ _
      (rw (bit_xor_half (suc a) (bit_xor (suc a) b), bit_xor_half (suc a) b)
        (cancel_fuel n (suc a / 2) (b / 2) (omega arith)))
      (omega (arith, bit_xor_low (suc a) (bit_xor (suc a) b), bit_xor_low (suc a) b))

-- A key that is applied twice is gone.
pub bit_xor_cancel : (a b : ℕ) → bit_xor a (bit_xor a b) ≡ b
bit_xor_cancel a b = cancel_fuel a a b (omega arith)

comm_fuel : (n a b : ℕ) → a + b ≤ n → bit_xor a b ≡ bit_xor b a
comm_fuel zero zero zero h = refl
comm_fuel zero zero (suc b) h = absurd (omega arith)
comm_fuel zero (suc a) b h = absurd (omega arith)
comm_fuel (suc n) a b h =
    by_digits _ _
      (rw (bit_xor_half a b, bit_xor_half b a) (comm_fuel n (a / 2) (b / 2) (omega arith)))
      (omega (arith, bit_xor_low a b, bit_xor_low b a))

assoc_fuel : (n a b c : ℕ) → a ≤ n → bit_xor (bit_xor a b) c ≡ bit_xor a (bit_xor b c)
assoc_fuel n zero b c h = rw (zero-bit_xor b, zero-bit_xor (bit_xor b c)) refl
assoc_fuel zero (suc a) b c h = absurd (omega arith)
assoc_fuel (suc n) (suc a) b c h =
    by_digits _ _
      (rw
        (
          bit_xor_half (bit_xor (suc a) b) c,
          bit_xor_half (suc a) b,
          bit_xor_half (suc a) (bit_xor b c),
          bit_xor_half b c,
        )
        (assoc_fuel n (suc a / 2) (b / 2) (c / 2) (omega arith)))
      (omega (
        arith,
        bit_xor_low (bit_xor (suc a) b) c,
        bit_xor_low (suc a) b,
        bit_xor_low (suc a) (bit_xor b c),
        bit_xor_low b c,
      ))

pub bit_xor_assoc : (a b c : ℕ) → bit_xor (bit_xor a b) c ≡ bit_xor a (bit_xor b c)
bit_xor_assoc a b c = assoc_fuel a a b c (omega arith)

pub bit_xor_comm : (a b : ℕ) → bit_xor a b ≡ bit_xor b a
bit_xor_comm a b = comm_fuel (a + b) a b (omega arith)

pub bit_xor-zero : (a : ℕ) → bit_xor a 0 ≡ a
bit_xor-zero a = rw (bit_xor_comm a 0) (zero-bit_xor a)

pub bit_xor_self : (a : ℕ) → bit_xor a a ≡ 0
bit_xor_self a = ap (bit_xor a) (sym (bit_xor-zero a)) ∙ bit_xor_cancel a 0

-- The sums of two pairs, paired the other way.
pub bit_xor_swap :
    (a b c d : ℕ) → bit_xor (bit_xor a b) (bit_xor c d) ≡ bit_xor (bit_xor a c) (bit_xor b d)
bit_xor_swap a b c d = rw (bit_xor_assoc a b (bit_xor c d)) (
    rw (← bit_xor_assoc b c d) (
      rw (bit_xor_comm b c) (rw (bit_xor_assoc c b d) (rw (bit_xor_assoc a c (bit_xor b d)) refl))))

-- A shift by one digit more.
pub div-pow_suc : (k a : ℕ) → a / 2 ^ suc k ≡ a / 2 / 2 ^ k
div-pow_suc k a =
    rw (div-div-eq-div-mul a 2 (2 ^ k)) (ap (λ (t : ℕ). a / t) (omega (arith, pow-suc 2 k)))

-- The digits of an exclusive or, at any place.
pub bit_xor_shift : (k a b : ℕ) → bit_xor a b / 2 ^ k ≡ bit_xor (a / 2 ^ k) (b / 2 ^ k)
bit_xor_shift zero a b = simp (div-one)
bit_xor_shift (suc k) a b =
    rw (div-pow_suc k (bit_xor a b), div-pow_suc k a, div-pow_suc k b, bit_xor_half a b)
      (bit_xor_shift k (a / 2) (b / 2))

mul_shift : (q m : ℕ) → q * (m * 2) ≡ q * m * 2
mul_shift q m = sym (mul_assoc q m 2)

low_step : (k a : ℕ) → a % 2 ^ suc k ≡ a / 2 % 2 ^ k * 2 + a % 2
low_step k a =
    let q = a / 2 / 2 ^ k in
    omega (
      arith,
      div-add-mod' a (2 ^ suc k),
      div-add-mod' (a / 2) (2 ^ k),
      ap (λ (t : ℕ). t * 2 ^ suc k) (div-pow_suc k a),
      pow-suc 2 k,
      mul_shift q (2 ^ k),
      ap (λ (t : ℕ). q * t) (pow-suc 2 k),
    )

low_half : (k a : ℕ) → a % 2 ^ suc k / 2 ≡ a / 2 % 2 ^ k
low_half k a = omega (arith, low_step k a)

mul-pow_suc : (k a : ℕ) → a * 2 ^ suc k ≡ a * 2 * 2 ^ k
mul-pow_suc k a = rw (pow-suc 2 k, mul_comm (2 ^ k) 2) (sym (mul_assoc a 2 (2 ^ k)))

mul-div : (a : ℕ) → a * 2 / 2 ≡ a
mul-div a = omega arith

bit_xor_double : (a b : ℕ) → bit_xor a b * 2 ≡ bit_xor (a * 2) (b * 2)
bit_xor_double a b = omega (
  arith,
  bit_xor_step (a * 2) (b * 2),
  ap (λ (t : ℕ). bit_xor t (b * 2 / 2)) (mul-div a),
  ap (λ (t : ℕ). bit_xor a t) (mul-div b),
)

-- The lower digits of an exclusive or.
pub bit_xor_mod : (k a b : ℕ) → bit_xor a b % 2 ^ k ≡ bit_xor (a % 2 ^ k) (b % 2 ^ k)
bit_xor_mod zero a b = simp (mod-one)
bit_xor_mod (suc k) a b =
    by_digits _ _
      (rw
        (
          bit_xor_half (a % 2 ^ suc k) (b % 2 ^ suc k),
          low_half k (bit_xor a b),
          low_half k a,
          low_half k b,
          bit_xor_half a b,
        )
        (bit_xor_mod k (a / 2) (b / 2)))
      (omega (
        arith,
        bit_xor_low a b,
        bit_xor_low (a % 2 ^ suc k) (b % 2 ^ suc k),
        low_step k a,
        low_step k b,
        low_step k (bit_xor a b),
      ))

-- A shift to the left.
pub bit_xor_shl : (k a b : ℕ) → bit_xor a b * 2 ^ k ≡ bit_xor (a * 2 ^ k) (b * 2 ^ k)
bit_xor_shl zero a b = rw (mul-one (bit_xor a b), mul-one a, mul-one b) refl
bit_xor_shl (suc k) a b =
    rw (mul-pow_suc k (bit_xor a b), mul-pow_suc k a, mul-pow_suc k b, bit_xor_double a b)
      (bit_xor_shl k (a * 2) (b * 2))
