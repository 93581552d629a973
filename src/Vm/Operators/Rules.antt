-- ===== src/Vm/Operators/Rules.antt =====
-- Integer division of src/vm/interpret.rs, and when `binop` throws.
use dexvm.Prelude.{
  ℕ, zero, suc, ◌+◌, ◌-◌, ◌*◌, ◌/◌, ◌%◌, ◌^◌, ◌≤◌, ◌<◌, ◌≡◌, refl, sym, arith, true, false,
}
use dexvm.Prelude.{◌⊎◌, ◌↔◌, inl, inr, ◌==◌, Bool-cases}
use native.Mathlib.Nat.{div-add-mod', div-le_self, mod-lt}
use dexvm.Dex.Insn.{Binop}
use dexvm.Vm.Value.{JValue}
use dexvm.Vm.Machine.{is_negative, magnitude, wrapping_div, wrapping_rem}
use dexvm.Vm.Operators.{FloatOps, ArithError, Computed, integer_binop, has_float_arm, binop}

split_left : (a q c n : ℕ) → a + q ≡ n → a * c + q * c ≡ n * c
split_left a q c n h = rw (sym h) (omega arith)

split_right : (q b c n : ℕ) → b + c ≡ n → q * b + q * c ≡ q * n
split_right q b c n h = rw (sym h) (omega arith)

-- The cases in which an operand is negative: `x` and `y` are the operands, `m` and `n` their magnitudes.
by_negative :
    (x y n : ℕ)
    → x < 2 ^ 31
    → y + n ≡ 2 ^ 32
    → n ≤ 2 ^ 31
    → (q r : ℕ) → q * n + r ≡ x
    → q ≤ x
    → ((2 ^ 32 - q) % 2 ^ 32 * y + r) % 2 ^ 32 ≡ x
by_negative x y n hx sum hn zero r e le = omega arith
by_negative x y n hx sum hn (suc q) r e le =
    let a : (2 ^ 32 - suc q) % 2 ^ 32 ≡ 2 ^ 32 - suc q = omega arith in
    rw a (
      omega (
        arith,
        split_right (2 ^ 32 - suc q) y n (2 ^ 32) sum,
        split_left (2 ^ 32 - suc q) (suc q) n (2 ^ 32) (omega arith),
      ))

of_negative :
    (x m y : ℕ)
    → x + m ≡ 2 ^ 32
    → 0 < m
    → m ≤ 2 ^ 31
    → (q r : ℕ) → q * y + r ≡ m
    → q ≤ m
    → r < y
    → ((2 ^ 32 - q) % 2 ^ 32 * y + (2 ^ 32 - r) % 2 ^ 32) % 2 ^ 32 ≡ x
of_negative x m y sum pos hm zero r e le below = omega arith
of_negative x m y sum pos hm (suc q) r e le below =
    let a : (2 ^ 32 - suc q) % 2 ^ 32 ≡ 2 ^ 32 - suc q = omega arith in
    rw a (omega (arith, split_left (2 ^ 32 - suc q) (suc q) y (2 ^ 32) (omega arith)))

both_negative :
    (x m y n : ℕ)
    → x + m ≡ 2 ^ 32
    → 0 < m
    → m ≤ 2 ^ 31
    → y + n ≡ 2 ^ 32
    → n ≤ 2 ^ 31
    → (q r : ℕ) → q * n + r ≡ m
    → r < n
    → (q * y + (2 ^ 32 - r) % 2 ^ 32) % 2 ^ 32 ≡ x
both_negative x m y n sx pos hm sy hn q r e below = omega (arith, split_right q y n (2 ^ 32) sy)

-- The quotient and the remainder of `x` by `y` make up `x`.
abbrev pub IsDivision : ℕ → ℕ → ℕ → ℕ → Type 0
IsDivision x y q r =
    ((q * y + r) % 2 ^ 32 ≡ x)
    × (magnitude 32 r < magnitude 32 y)
    × ((r ≡ 0) ⊎ (is_negative 32 r ≡ is_negative 32 x))

module _ (x y : ℕ) (hx : x < 2 ^ 32) (hy : y < 2 ^ 32) (pos : 0 < y) where
  abbrev big : ℕ
  big = magnitude 32 x

  abbrev by : ℕ
  by = magnitude 32 y

  by_positive : 0 < by
  by_positive = ground arith

  quotient_law : (wrapping_div 32 x y * y + wrapping_rem 32 x y) % 2 ^ 32 ≡ x
  quotient_law = elim (Bool-cases (is_negative 32 x)) [
    | inl nx ↦
        (let low : 2 ^ 31 ≤ x = ground (arith, nx) in
          let m : ℕ = 2 ^ 32 - x in
          elim (Bool-cases (is_negative 32 y)) [
            | inl ny ↦
                (let low_y : 2 ^ 31 ≤ y = ground (arith, ny) in
                  let n : ℕ = 2 ^ 32 - y in
                  rw (nx, ny)
                    (both_negative x m y n (omega arith) (omega arith) (omega arith) (omega arith)
                      (omega arith) (m / n) (m % n) (div-add-mod' m n) (mod-lt m (omega arith))))
            | inr py ↦
                rw (nx, py)
                  (of_negative x m y (omega arith) (omega arith) (omega arith) (m / y) (m % y)
                    (div-add-mod' m y) (div-le_self m y) (mod-lt m pos))
          ])
    | inr px ↦
        (let high : x < 2 ^ 31 = ground (arith, px) in
          elim (Bool-cases (is_negative 32 y)) [
            | inl ny ↦
                (let low_y : 2 ^ 31 ≤ y = ground (arith, ny) in
                  let n : ℕ = 2 ^ 32 - y in
                  rw (px, ny)
                    (by_negative x y n high (omega arith) (omega arith) (x / n) (x % n)
                      (div-add-mod' x n) (div-le_self x n)))
            | inr py ↦ rw (px, py) (omega (arith, div-add-mod' x y))
          ])
  ]

  remainder_law :
      (magnitude 32 (wrapping_rem 32 x y) < by)
      × ((wrapping_rem 32 x y ≡ 0) ⊎ (is_negative 32 (wrapping_rem 32 x y) ≡ is_negative 32 x))
  remainder_law = let below : big % by < by = mod-lt big by_positive in ground (arith)

module _ (floats : FloatOps) where
  -- For ints `x` and `y` of 32 bits with `y` not 0, `div` gives a quotient and `rem` a remainder that make
  -- up `x` in 32-bit arithmetic; the remainder is smaller in magnitude than `y`, and is 0 or has the sign
  -- of `x`.
  pub binop-IsDivision :
      (x y : ℕ)
      → x < 2 ^ 32
      → y < 2 ^ 32
      → 0 < y
      → (q : ℕ) × (r : ℕ) × (binop floats Binop.div (JValue.int x) (JValue.int y)
          ≡ Computed.value (JValue.int q))
        × (binop floats Binop.rem (JValue.int x) (JValue.int y) ≡ Computed.value (JValue.int r))
        × IsDivision x y q r
  unfolding binop integer_binop
  binop-IsDivision x y hx hy pos =
      let nonzero : (y == 0) ≡ false = ground arith in
      (
        wrapping_div 32 x y,
        wrapping_rem 32 x y,
        rw nonzero refl,
        rw nonzero refl,
        (let (small, sign) = remainder_law x y hx hy pos in
            (quotient_law x y hx hy pos, small, sign)),
      )

  -- The operands that the operators are defined on: two ints or two longs, or, where there is an arm for
  -- it, two floats or two doubles.
  abbrev pub HasArm : Binop → JValue → JValue → Type 0
  HasArm op (JValue.int x) (JValue.int y) = Unit
  HasArm op (JValue.long x) (JValue.long y) = Unit
  HasArm op (JValue.float x) (JValue.float y) = has_float_arm op ≡ true
  HasArm op (JValue.double x) (JValue.double y) = has_float_arm op ≡ true
  HasArm op a b = ⊥

  -- An integer division by zero.
  abbrev pub DividesByZero : Binop → JValue → JValue → Type 0
  DividesByZero Binop.div (JValue.int x) (JValue.int y) = y ≡ 0
  DividesByZero Binop.rem (JValue.int x) (JValue.int y) = y ≡ 0
  DividesByZero Binop.div (JValue.long x) (JValue.long y) = y ≡ 0
  DividesByZero Binop.rem (JValue.long x) (JValue.long y) = y ≡ 0
  DividesByZero op a b = ⊥

  -- `binop` throws the division exception exactly at an integer division by zero, and the exception of bad
  -- operands exactly where it has no arm for them. A long with an int beside it is such a case, also as
  -- the count of a shift.
  binop-throws :
      (op : Binop) (a b : JValue)
      → ((binop floats op a b ≡ Computed.throws ArithError.division_by_zero) ↔ DividesByZero op a b)
        × ((binop floats op a b ≡ Computed.throws ArithError.bad_operands) ↔ ¬ HasArm op a b)
  unfolding binop integer_binop
  binop-throws op a b = ground arith
