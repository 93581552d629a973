-- ===== src/Vm/Random.antt =====
-- java.util.Random of src/vm/native/java/util/random.rs: the generator and the shims that answer with
-- integers, booleans and bytes. A shim gets what `payload_mut` gives for the object, and gives back the seed that the object
-- holds afterwards. An int, a long and a byte are the bits of their two's complement.
use Prim.Native.Nat.{bit_xor}
use dexvm.Prelude.{ℕ, zero, suc, ◌*◌, ◌/◌, ◌%◌, ◌^◌, List, [], ◌∷◌, Option, none, some}
use dexvm.Prelude.{◌&&◌, ◌||◌, if◌then◌else◌, leb, ◌==◌, length}
use dexvm.Vm.Machine.{is_negative}
pub mod States
pub mod Bytes

-- The shifts of u64 to the right and to the left, with `^` by the word itself.
unfoldable pub xor_shr : ℕ → ℕ → ℕ
xor_shr k x = bit_xor x (x / 2 ^ k)

unfoldable pub xor_shl : ℕ → ℕ → ℕ
xor_shl k x = bit_xor x (x * 2 ^ k % 2 ^ 64)

-- The seed that follows, and the random word.
unfoldable pub next_seed : ℕ → ℕ
unfolding xor_shr xor_shl
next_seed seed =
    xor_shr 27 (xor_shl 25 (xor_shr 12 (if seed == 0 then 0x9e3779b97f4a7c15 else seed)))

unfoldable pub rand_next : ℕ → ℕ × ℕ
unfolding next_seed
rand_next seed = (next_seed seed, next_seed seed * 0x2545f4914f6cdd1d % 2 ^ 64)

-- A native payload: the seed of a Random, or another one.
pub data Payload : Type 0 where
  random : ℕ → Payload
  other : Payload

-- A result with the seed that the object keeps, or an exception: NullPointerException or
-- IllegalArgumentException.
pub data Shim (A : Type 0) : Type 0 where
  returned : A → ℕ → Shim A
  npe iae : Shim A

unfoldable pub with_seed : {A : Type 0} → Option Payload → (ℕ → Shim A) → Shim A
with_seed (some (random seed)) f = f seed
with_seed (some other) f = npe
with_seed none f = npe

unfoldable pub random_set_seed : Option Payload → ℕ → Shim Unit
unfolding with_seed
random_set_seed payload seed = with_seed payload (λ old. returned tt seed)

-- The answer that is a function of the next random word.
unfoldable pub answer : Option Payload → (ℕ → ℕ) → Shim ℕ
unfolding with_seed rand_next
answer payload f =
    with_seed payload (λ seed. let (next, word) = rand_next seed in returned (f word) next)

unfoldable pub random_next_int : Option Payload → Shim ℕ
unfolding answer
random_next_int payload = answer payload (λ word. word / 2 ^ 32)

unfoldable pub random_next_int_bound : Option Payload → ℕ → Shim ℕ
unfolding answer
random_next_int_bound payload bound =
    if bound == 0 || is_negative 32 bound
    then iae
    else answer payload (λ word. word / 2 ^ 32 % bound)

unfoldable pub random_next_long : Option Payload → Shim ℕ
unfolding answer
random_next_long payload = answer payload (λ word. word)

unfoldable pub random_next_boolean : Option Payload → Shim ℕ
unfolding answer
random_next_boolean payload = answer payload (λ word. if word / 2 ^ 63 == 0 then 0 else 1)

-- The word for the next byte: the shifted one, or a new one if that is 0 and `n`, the number of bytes to
-- come, is not.
unfoldable pub refill : ℕ → ℕ × ℕ → ℕ × ℕ
unfolding rand_next
refill n (seed, w) = if w == 0 && leb 1 n then rand_next seed else (seed, w)

unfoldable pub fill_bytes : ℕ → ℕ × ℕ → List ℕ
unfolding refill
fill_bytes zero word = []
fill_bytes (suc n) (seed, w) = w % 256 ∷ fill_bytes n (refill n (seed, w / 256))

-- The bytes of the array, if the second argument holds one of bytes. The seed that advances is a copy.
unfoldable pub random_next_bytes : Option Payload → Option (List ℕ) → Shim (List ℕ)
unfolding with_seed rand_next fill_bytes
random_next_bytes payload none = with_seed payload (λ seed. npe)
random_next_bytes payload (some bs) =
    with_seed payload (λ seed. returned (fill_bytes (length bs) (rand_next seed)) seed)
