-- ===== src/Vm/Proto/Varint.antt =====
-- `read_varint` of src/vm/native/proto.rs reads back what the protobuf format writes for a number.
use Prim.Native.Nat.{bit_and}
use dexvm.Prelude.{ℕ, zero, suc, ◌+◌, ◌-◌, ◌*◌, ◌/◌, ◌%◌, ◌^◌, ◌≤◌, ◌<◌, ◌≡◌, refl, ◌∙◌, arith}
use dexvm.Prelude.{
  List, [], ◌∷◌, none, some, length, get_elem?, Bool-cases, inl, inr, ltb, leb, ◌==◌,
}
use dexvm.Prelude.{if◌then◌else◌, Option-cases, lt-length_of_get_elem?}
use native.Mathlib.Nat.{pow-suc}
use dexvm.Prelude.Bits.{bit_or-shift, bit_and_seven_bits}
use dexvm.Dex.Cursor.Reads.{BytesAt}
use dexvm.Dex.Cursor.LebRead.{ends_byte, goes_on, split_group, group_below}
use dexvm.Vm.Proto.{add_group64, varint_loop, read_varint}

-- The groups of seven bits, lowest first, with the top bit set on all but the last; `k` bytes may follow
-- this one.
unfoldable pub varint_bytes : ℕ → ℕ → List ℕ
varint_bytes zero v = v ∷ []
varint_bytes (suc k) v =
    let rest = varint_bytes k (v / 128) in if ltb v 128 then v ∷ [] else (v % 128 + 128) ∷ rest

add_group64_fits :
    (result b shift : ℕ)
    → result < 2 ^ shift
    → b < 256
    → b % 128 * 2 ^ shift < 2 ^ 64
    → add_group64 result b shift ≡ result + b % 128 * 2 ^ shift
unfolding add_group64
add_group64_fits result b shift below is_byte fits =
    ground (arith, bit_and_seven_bits b is_byte, bit_or-shift shift result (b % 128) below)

-- One round on a byte that is there.
varint_round :
    (k : ℕ) (d : List ℕ) (i acc shift b : ℕ)
    → get_elem? d i ≡ some b
    → varint_loop (suc k) d i acc shift ≡ (
        if bit_and b 0x80 == 0
        then some (add_group64 acc b shift, i + 1)
        else if leb 70 (shift + 7)
        then none
        else varint_loop k d (i + 1) (add_group64 acc b shift) (shift + 7))
unfolding varint_loop
varint_round k d i acc shift b e = rw (e, varint_loop) refl

varint_loop-bytes :
    (k acc shift v : ℕ) (d : List ℕ) (i : ℕ)
    → shift + 7 * k ≡ 63
    → acc < 2 ^ shift
    → v < 128 ^ suc k
    → v * 2 ^ shift < 2 ^ 64
    → BytesAt d i (varint_bytes k v)
    → varint_loop (suc k) d i acc shift ≡ some (acc + v * 2 ^ shift, i + length (varint_bytes k v))
unfolding varint_bytes
varint_loop-bytes zero acc shift v d i e below fits high there =
    varint_round 0 d i acc shift v there.0
    ∙ ground (arith, ends_byte v, add_group64_fits acc v shift below)
varint_loop-bytes (suc k) acc shift v d i e below fits high there = elim (Bool-cases (ltb v 128)) [
  | inl small ↦
      let here = rw small at there in
      rw small (
        varint_round (suc k) d i acc shift v here.0
        ∙ ground (arith, ends_byte v, add_group64_fits acc v shift below))
  | inr large ↦
      let here = rw large at there in
      let g : v % 128 < 128 = omega arith in
      let split = split_group v shift in
      let later =
        varint_loop-bytes k (acc + v % 128 * 2 ^ shift) (shift + 7) (v / 128) d (i + 1)
          (omega arith) (group_below acc (v % 128) shift below g)
          (omega (arith, pow-suc 128 (suc k))) (omega (arith, split)) here.1 in
      rw large (
        varint_round (suc k) d i acc shift (v % 128 + 128) here.0
        ∙ ground (
          arith,
          goes_on (v % 128) g,
          add_group64_fits acc (v % 128 + 128) shift below,
          later,
          split,
        ))
]

-- A 64-bit number that stands at `i` in varint form is read back with the number of its bytes.
pub read_varint-varint_bytes :
    (d : List ℕ) (i v : ℕ)
    → v < 2 ^ 64
    → BytesAt d i (varint_bytes 9 v)
    → read_varint d i ≡ some (v, length (varint_bytes 9 v))
unfolding read_varint
read_varint-varint_bytes d i v fits there =
    let n = length (varint_bytes 9 v) in
    let back : i + n - i ≡ n = omega arith in
    rw
      (
        varint_loop-bytes 9 0 0 v d i refl (omega arith) (omega arith) (omega arith) there,
        read_varint,
      )
      (ground (arith, back))

-- A varint that is read is one byte long at least, and stands inside the buffer.
pub varint_loop-advances :
    (k : ℕ) (d : List ℕ) (i acc shift v j : ℕ)
    → varint_loop k d i acc shift ≡ some (v, j)
    → (i < j) × (j ≤ length d)
unfolding varint_loop
varint_loop-advances zero d i acc shift v j h = absurd (cc)
varint_loop-advances (suc k) d i acc shift v j h = elim (Option-cases (get_elem? d i)) [
  | inl gone ↦ absurd (ground (arith, gone))
  | inr (b, there) ↦
      let inside = lt-length_of_get_elem? d i there in
      ground (arith, varint_loop-advances k d (i + 1) (add_group64 acc b shift) (shift + 7) v j)
]

pub read_varint-advances :
    (d : List ℕ) (i : ℕ) {v n : ℕ} → read_varint d i ≡ some (v, n) → (0 < n) × (i + n ≤ length d)
unfolding read_varint
read_varint-advances d i h = elim (Option-cases (varint_loop 10 d i 0 0)) [
  | inl gone ↦ absurd (ground (arith, gone))
  | inr ((v, j), there) ↦ ground (arith, varint_loop-advances 10 d i 0 0 v j there)
]
