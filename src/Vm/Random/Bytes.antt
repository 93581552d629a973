-- ===== src/Vm/Random/Bytes.antt =====
-- `random_next_bytes` of src/vm/native/java/util/random.rs.
use dexvm.Prelude.{ℕ, zero, suc, ◌≡◌, refl, ap, sym, List, length, some, ◌/◌}
use dexvm.Vm.Random.{rand_next, random, returned, refill, fill_bytes, random_next_bytes}

length-fill_bytes : (n : ℕ) (word : ℕ × ℕ) → length (fill_bytes n word) ≡ n
unfolding fill_bytes
length-fill_bytes zero word = refl
length-fill_bytes (suc n) (seed, w) = ap suc (length-fill_bytes n (refill n (seed, w / 256)))

-- Two calls of nextBytes one after the other fill arrays of the same length with the same bytes: the first
-- call leaves the seed of the object as it was.
pub random_next_bytes_repeats :
    (s : ℕ) (bs cs : List ℕ)
    → length bs ≡ length cs
    → (out : List ℕ) × (next : ℕ) × (random_next_bytes (some (random s)) (some bs)
        ≡ returned out next)
      × (random_next_bytes (some (random next)) (some cs) ≡ returned out next)
      × (length out ≡ length bs)
unfolding random_next_bytes
random_next_bytes_repeats s bs cs e =
    let out = fill_bytes (length bs) (rand_next s) in
    (
      out,
      s,
      refl,
      ap (λ n. returned (fill_bytes n (rand_next s)) s) (sym e),
      length-fill_bytes (length bs) (rand_next s),
    )
