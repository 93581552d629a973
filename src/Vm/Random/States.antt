-- ===== src/Vm/Random/States.antt =====
-- The seeds of src/vm/native/java/util/random.rs.
use Prim.Native.Nat.{bit_xor}
use dexvm.Prelude.{ℕ, ◌*◌, ◌/◌, ◌%◌, ◌^◌, ◌<◌, ◌≡◌, ◌≢◌, ap, sym, ◌∙◌, arith}
use dexvm.Prelude.Xor.{
  bit_xor_self, bit_xor_cancel, bit_xor-zero, bit_xor_swap, bit_xor_shift, bit_xor_mod, bit_xor_shl,
}
use native.Mathlib.Nat.{mod-lt, mod-eq_of_lt}
use dexvm.Prelude.{◌↔◌}
use dexvm.Vm.Random.{xor_shr, xor_shl, next_seed, rand_next}

-- Numbers that are their own difference are the same.
eq_of_xor : (a b : ℕ) → bit_xor a b ≡ 0 → a ≡ b
eq_of_xor a b e = sym (bit_xor-zero a) ∙ ap (bit_xor a) (sym e) ∙ bit_xor_cancel a b

xor_shr-bit_xor : (k x y : ℕ) → xor_shr k (bit_xor x y) ≡ bit_xor (xor_shr k x) (xor_shr k y)
unfolding xor_shr
xor_shr-bit_xor k x y = rw (bit_xor_shift k x y) (bit_xor_swap x y (x / 2 ^ k) (y / 2 ^ k))

xor_shl-bit_xor : (k x y : ℕ) → xor_shl k (bit_xor x y) ≡ bit_xor (xor_shl k x) (xor_shl k y)
unfolding xor_shl
xor_shl-bit_xor k x y =
    rw (bit_xor_shl k x y, bit_xor_mod 64 (x * 2 ^ k) (y * 2 ^ k))
      (bit_xor_swap x y (x * 2 ^ k % 2 ^ 64) (y * 2 ^ k % 2 ^ 64))

shr12-zero : (x : ℕ) → xor_shr 12 x ≡ 0 → x ≡ 0
unfolding xor_shr
shr12-zero x e = omega (arith, eq_of_xor x (x / 2 ^ 12) e)

shr27-zero : (x : ℕ) → xor_shr 27 x ≡ 0 → x ≡ 0
unfolding xor_shr
shr27-zero x e = omega (arith, eq_of_xor x (x / 2 ^ 27) e)

shl25-zero : (x : ℕ) → xor_shl 25 x ≡ 0 → x ≡ 0
unfolding xor_shl
shl25-zero x e = let f = eq_of_xor x (x * 2 ^ 25 % 2 ^ 64) e in omega arith

bit_xor-lt : (k a b : ℕ) → 0 < 2 ^ k → a < 2 ^ k → b < 2 ^ k → bit_xor a b < 2 ^ k
bit_xor-lt k a b h p q =
    let same =
      bit_xor_mod k a b
      ∙ ap (bit_xor (a % 2 ^ k)) (mod-eq_of_lt q)
      ∙ ap (λ t. bit_xor t b) (mod-eq_of_lt p) in
    omega (arith, same, mod-lt (bit_xor a b) h)

-- What a step that distributes over `^` and takes only 0 to 0 does: it keeps numbers apart.
injective_of_kernel :
    (f : ℕ → ℕ)
    → ((x y : ℕ) → f (bit_xor x y) ≡ bit_xor (f x) (f y))
    → ((x : ℕ) → f x ≡ 0 → x ≡ 0)
    → (x y : ℕ) → f x ≡ f y
    → x ≡ y
injective_of_kernel f linear kernel x y e =
    eq_of_xor x y
      (kernel (bit_xor x y) (linear x y ∙ ap (bit_xor (f x)) (sym e) ∙ bit_xor_self (f x)))

shr12-injective : (x y : ℕ) → xor_shr 12 x ≡ xor_shr 12 y → x ≡ y
shr12-injective = injective_of_kernel (xor_shr 12) (xor_shr-bit_xor 12) shr12-zero

shr27-injective : (x y : ℕ) → xor_shr 27 x ≡ xor_shr 27 y → x ≡ y
shr27-injective = injective_of_kernel (xor_shr 27) (xor_shr-bit_xor 27) shr27-zero

shl25-injective : (x y : ℕ) → xor_shl 25 x ≡ xor_shl 25 y → x ≡ y
shl25-injective = injective_of_kernel (xor_shl 25) (xor_shl-bit_xor 25) shl25-zero

-- The three steps one after the other.
abbrev mixed : ℕ → ℕ
mixed x = xor_shr 27 (xor_shl 25 (xor_shr 12 x))

mixed-injective : (x y : ℕ) → mixed x ≡ mixed y → x ≡ y
mixed-injective x y e = shr12-injective _ _ (shl25-injective _ _ (shr27-injective _ _ e))

mixed-zero : (x : ℕ) → mixed x ≡ 0 → x ≡ 0
mixed-zero x e = shr12-zero _ (shl25-zero _ (shr27-zero _ e))

mixed-lt : (x : ℕ) → x < 2 ^ 64 → mixed x < 2 ^ 64
unfolding xor_shr xor_shl
mixed-lt x h =
    let a = bit_xor-lt 64 x (x / 2 ^ 12) (omega arith) h (omega arith) in
    let y = xor_shr 12 x in
    let b = bit_xor-lt 64 y (y * 2 ^ 25 % 2 ^ 64) (omega arith) a (omega arith) in
    let z = xor_shl 25 y in bit_xor-lt 64 z (z / 2 ^ 27) (omega arith) b (omega arith)

next_seed-mixed : (s : ℕ) → s ≢ 0 → next_seed s ≡ mixed s
unfolding next_seed
next_seed-mixed s h = ground arith

-- A 64-bit seed other than 0 is followed by a 64-bit seed other than 0, and two such seeds are followed
-- by the same one exactly if they are the same.
pub rand_next-injective :
    (s t : ℕ)
    → s < 2 ^ 64
    → s ≢ 0
    → t ≢ 0
    → ((rand_next s).0 < 2 ^ 64)
      × ((rand_next s).0 ≢ 0)
      × (((rand_next s).0 ≡ (rand_next t).0) ↔ (s ≡ t))
unfolding rand_next
rand_next-injective s t h p q =
    let e = next_seed-mixed s p in
    let f = next_seed-mixed t q in
    (
      omega (arith, e, mixed-lt s h),
      (λ z. p (mixed-zero s (sym e ∙ z))),
      ((λ g. mixed-injective s t (sym e ∙ g ∙ f)), (λ g. ap next_seed g)),
    )
