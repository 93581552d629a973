-- ===== src/Vm/Crypto/Field.antt =====
-- `mul` of src/vm/crypto.rs is a product: it distributes over `^` on both sides and has a unit.
use Prim.Native.Nat.{bit_xor}
use dexvm.Prelude.{ℕ, zero, suc, ◌*◌, ◌/◌, ◌%◌, ◌^◌, ◌≡◌, refl, ◌==◌, arith}
use dexvm.Prelude.{if◌then◌else◌}
use dexvm.Prelude.Xor.{
  bit_xor_self, bit_xor-zero, bit_xor_swap, bit_xor_half, bit_xor_low, bit_xor_shift, zero-bit_xor,
}
use dexvm.Vm.Crypto.{mul, mul_loop, halve}

-- What a round adds to the sum, by the parity of the digits that are next.
abbrev added : ℕ → ℕ → ℕ → ℕ
added p z v = if p % 2 == 1 then bit_xor z v else z

added_left :
    (p q z z' v : ℕ) → added (bit_xor p q) (bit_xor z z') v ≡ bit_xor (added p z v) (added q z' v)
added_left p q z z' v = ground (
  arith,
  bit_xor_low p q,
  bit_xor_swap z v z' v,
  bit_xor_self v,
  bit_xor-zero (bit_xor z z'),
  bit_xor_swap z v z' 0,
  bit_xor_swap z 0 z' v,
  bit_xor-zero z,
  bit_xor-zero z',
  bit_xor-zero v,
  zero-bit_xor v,
)

added_right :
    (p z z' v v' : ℕ)
    → added p (bit_xor z z') (bit_xor v v') ≡ bit_xor (added p z v) (added p z' v')
added_right p z z' v v' = ground (arith, bit_xor_swap z z' v v')

halve-bit_xor : (v v' : ℕ) → halve (bit_xor v v') ≡ bit_xor (halve v) (halve v')
unfolding halve
halve-bit_xor v v' =
    let poly : ℕ = 0xe1 * 2 ^ 120 in
    rw (bit_xor_half v v') (
      ground (
        arith,
        bit_xor_low v v',
        bit_xor_swap (v / 2) (v' / 2) poly 0,
        bit_xor_swap (v / 2) (v' / 2) 0 poly,
        bit_xor_swap (v / 2) (v' / 2) poly poly,
        bit_xor_self poly,
        bit_xor-zero (bit_xor (v / 2) (v' / 2)),
        bit_xor-zero (v / 2),
        bit_xor-zero (v' / 2),
        bit_xor-zero poly,
        zero-bit_xor poly,
      ))

mul_loop_left :
    (n x x' v z z' : ℕ)
    → mul_loop n (bit_xor x x') v (bit_xor z z') ≡ bit_xor (mul_loop n x v z) (mul_loop n x' v z')
unfolding mul_loop
mul_loop_left zero x x' v z z' = refl
mul_loop_left (suc i) x x' v z z' = rw (bit_xor_shift i x x') (
    rw (added_left (x / 2 ^ i) (x' / 2 ^ i) z z' v)
      (mul_loop_left i x x' (halve v) (added (x / 2 ^ i) z v) (added (x' / 2 ^ i) z' v)))

mul_loop_right :
    (n x v v' z z' : ℕ)
    → mul_loop n x (bit_xor v v') (bit_xor z z') ≡ bit_xor (mul_loop n x v z) (mul_loop n x v' z')
unfolding mul_loop
mul_loop_right zero x v v' z z' = refl
mul_loop_right (suc i) x v v' z z' =
    rw (added_right (x / 2 ^ i) z z' v v', halve-bit_xor v v')
      (mul_loop_right i x (halve v) (halve v') (added (x / 2 ^ i) z v) (added (x / 2 ^ i) z' v'))

-- The product distributes over `^` on both sides, and 2 ^ 127, the polynomial 1, is its unit.
mul-IsBilinear :
    (x x' y y' : ℕ)
    → (mul (bit_xor x x') y ≡ bit_xor (mul x y) (mul x' y))
      × (mul x (bit_xor y y') ≡ bit_xor (mul x y) (mul x y'))
      × (mul (2 ^ 127) y ≡ y)
unfolding mul mul_loop
mul-IsBilinear x x' y y' =
    (mul_loop_left 128 x x' y 0 0, mul_loop_right 128 x y y' 0 0, zero-bit_xor y)
