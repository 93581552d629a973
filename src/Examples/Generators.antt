-- ===== src/Examples/Generators.antt =====
-- Random numbers of src/vm/native/java/util/random.rs.
use dexvm.Prelude.{ℕ, ◌<◌, ◌≡◌, ◌≢◌, ◌↔◌, ◌^◌, refl, arith, List, [], ◌∷◌, length, some}
use dexvm.Vm.Random.{
  rand_next, next_seed, random, returned, iae, random_next_int_bound, random_next_bytes, xor_shr,
  xor_shl,
}
use dexvm.Vm.Random.States.{rand_next-injective}
use dexvm.Vm.Random.Bytes.{random_next_bytes_repeats}

first_seed : (rand_next 1).0 ≡ 33554433
unfolding rand_next next_seed xor_shr xor_shl
first_seed = refl

bad_bound : random_next_int_bound (some (random 1)) 0xffffffff ≡ iae
unfolding random_next_int_bound
bad_bound = refl

abbrev one : ℕ
one = 1

rand_next-injective_example :
    ((rand_next 1).0 < 2 ^ 64)
    × ((rand_next 1).0 ≢ 0)
    × (((rand_next 1).0 ≡ (rand_next 2).0) ↔ (one ≡ 2))
rand_next-injective_example =
    rand_next-injective 1 2 (omega arith) (λ e. omega (arith, e)) (λ e. omega (arith, e))

random_next_bytes_repeats_example :
    (out : List ℕ) × (next : ℕ) × (random_next_bytes (some (random 1)) (some (0 ∷ 0 ∷ []))
      ≡ returned out next)
    × (random_next_bytes (some (random next)) (some (7 ∷ 7 ∷ [])) ≡ returned out next)
    × (length out ≡ 2)
random_next_bytes_repeats_example = random_next_bytes_repeats 1 (0 ∷ 0 ∷ []) (7 ∷ 7 ∷ []) refl
