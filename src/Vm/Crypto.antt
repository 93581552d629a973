-- ===== src/Vm/Crypto.antt =====
-- `Gcm` of src/vm/crypto.rs: AES-256-GCM with initial vectors of any length. The block cipher `Aes256`
-- of the aes crate is a parameter. A `u128` is a number, and bytes are lists of numbers.
pub mod Counters
pub mod Field
pub mod RoundTrip
use Prim.Native.Nat.{bit_xor}
use dexvm.Prelude.{ℕ, zero, suc, ◌+◌, ◌-◌, ◌*◌, ◌/◌, ◌%◌, ◌^◌, List, [], ◌∷◌, ◌++◌, ltb, ◌==◌}
use dexvm.Prelude.{if◌then◌else◌, Bool, true, false, ◌&&◌, length, take, drop, replicate}

-- `v >>= 1`, with the polynomial folded in where a one falls off.
unfoldable pub halve : ℕ → ℕ
halve v = if v % 2 == 1 then bit_xor (v / 2) (0xe1 * 2 ^ 120) else v / 2

-- The loop of `mul` with `i` rounds to go: the bit of `x` at `i - 1` is next.
unfoldable pub mul_loop : ℕ → ℕ → ℕ → ℕ → ℕ
unfolding halve
mul_loop zero x v z = z
mul_loop (suc i) x v z = mul_loop i x (halve v) (if x / 2 ^ i % 2 == 1 then bit_xor z v else z)

unfoldable pub mul : ℕ → ℕ → ℕ
unfolding mul_loop
mul x y = mul_loop 128 x y 0

-- `slice::chunks(16)`; each round takes one byte at least, so the length is enough fuel.
unfoldable pub chunks_fuel : ℕ → List ℕ → List (List ℕ)
chunks_fuel zero xs = []
chunks_fuel (suc fuel) [] = []
chunks_fuel (suc fuel) (x ∷ xs) = take 16 (x ∷ xs) ∷ chunks_fuel fuel (drop 16 (x ∷ xs))

unfoldable pub chunks : List ℕ → List (List ℕ)
unfolding chunks_fuel
chunks xs = chunks_fuel (length xs) xs

-- `u128::from_be_bytes`
unfoldable pub from_be : ℕ → List ℕ → ℕ
from_be acc [] = acc
from_be acc (b ∷ bs) = from_be (acc * 256 + b) bs

-- `to_be_bytes` of a number of `n` bytes
unfoldable pub to_be : ℕ → ℕ → List ℕ
to_be zero x = []
to_be (suc n) x = x / 256 ^ n % 256 ∷ to_be n x

-- A chunk that is copied into a block of zeros.
unfoldable pub padded : List ℕ → List ℕ
padded chunk = chunk ++ replicate (16 - length chunk) 0

unfoldable pub ghash_loop : ℕ → ℕ → List (List ℕ) → ℕ
unfolding mul from_be padded
ghash_loop h y [] = y
ghash_loop h y (chunk ∷ rest) = ghash_loop h (mul (bit_xor y (from_be 0 (padded chunk))) h) rest

unfoldable pub ghash : ℕ → List ℕ → ℕ
unfolding ghash_loop chunks
ghash h bytes = ghash_loop h 0 (chunks bytes)

-- `len_bits`: the product is of a `u64`.
unfoldable pub len_bits : ℕ → List ℕ
unfolding to_be
len_bits n = to_be 8 (n * 8 % 2 ^ 64)

-- `x & 0xffff_ffff` is the remainder by 2 ^ 32, and the other mask keeps the digits above.
unfoldable pub inc32 : ℕ → ℕ
inc32 j = j / 2 ^ 32 * 2 ^ 32 + (j % 2 ^ 32 + 1) % 2 ^ 32

-- `(16 - (len % 16)) % 16` zeros
unfoldable pub zeros_after : List ℕ → List ℕ
zeros_after xs = replicate ((16 - length xs % 16) % 16) 0

pub data GcmError : Type 0 where
  too_short tag_mismatch : GcmError

pub data Opened : Type 0 where
  plain : List ℕ → Opened
  refused : GcmError → Opened

-- `==` of byte slices
unfoldable pub same_bytes : List ℕ → List ℕ → Bool
same_bytes [] [] = true
same_bytes [] (y ∷ ys) = false
same_bytes (x ∷ xs) [] = false
same_bytes (x ∷ xs) (y ∷ ys) = x == y && same_bytes xs ys

-- The context: `encrypt_block` under the secret, and `h`, the encryption of zeros.
pub record Gcm : Type 0 where
  pub h : ℕ
  pub cipher : List ℕ → List ℕ

-- `ks[o] ^= p` for each byte of the chunk
unfoldable pub xor_into : List ℕ → List ℕ → List ℕ
xor_into ks [] = ks
xor_into [] (p ∷ ps) = []
xor_into (k ∷ ks) (p ∷ ps) = bit_xor k p ∷ xor_into ks ps

unfoldable pub new_gcm : (List ℕ → List ℕ) → Gcm
unfolding from_be
new_gcm encrypt_block = record {
  h = from_be 0 (encrypt_block (replicate 16 0));
  cipher = encrypt_block;
}

unfoldable pub j0 : Gcm → List ℕ → ℕ
unfolding from_be ghash len_bits zeros_after
j0 g iv =
    if length iv == 12
    then from_be 0 (iv ++ (0 ∷ 0 ∷ 0 ∷ 1 ∷ []))
    else ghash g.h (iv ++ (zeros_after iv ++ len_bits (length iv)))

unfoldable pub block : Gcm → ℕ → List ℕ
unfolding to_be
block g counter = g.cipher (to_be 16 counter)

-- What the tag authenticates.
unfoldable pub authenticated : List ℕ → List ℕ → List ℕ
unfolding zeros_after len_bits
authenticated aad ct =
    aad
    ++ (zeros_after aad
        ++ (ct ++ (zeros_after ct ++ (len_bits (length aad) ++ len_bits (length ct)))))

unfoldable pub tag : Gcm → List ℕ → List ℕ → List ℕ → List ℕ
unfolding to_be from_be ghash authenticated block j0
tag g iv aad ct =
    to_be 16 (bit_xor (ghash g.h (authenticated aad ct)) (from_be 0 (block g (j0 g iv))))

-- The loop over the chunks, in `seal` and again in `open`.
unfoldable pub crypt : Gcm → ℕ → List (List ℕ) → List ℕ
unfolding block inc32 xor_into
crypt g counter [] = []
crypt g counter (chunk ∷ rest) =
    take (length chunk) (xor_into (block g (inc32 counter)) chunk) ++ crypt g (inc32 counter) rest

unfoldable pub seal : Gcm → List ℕ → List ℕ → List ℕ → List ℕ
unfolding crypt chunks tag j0
seal g iv aad text = let out = crypt g (j0 g iv) (chunks text) in out ++ tag g iv aad out

unfoldable pub open_text : Gcm → List ℕ → List ℕ → List ℕ → List ℕ → Opened
unfolding crypt chunks tag j0 same_bytes
open_text g iv aad ct given =
    let out = crypt g (j0 g iv) (chunks ct) in
    if same_bytes (tag g iv aad ct) given then plain out else refused tag_mismatch

unfoldable pub open_sealed : Gcm → List ℕ → List ℕ → List ℕ → Opened
open_sealed g iv aad sealed =
    if ltb (length sealed) 16
    then refused too_short
    else (let n = length sealed - 16 in open_text g iv aad (take n sealed) (drop n sealed))
