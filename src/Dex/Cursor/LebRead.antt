-- ===== src/Dex/Cursor/LebRead.antt =====
-- `uleb128` of src/dex/read.rs reads back what the DEX format writes for a number.
use Prim.Native.Nat.{bit_and}
use dexvm.Prelude.{ℕ, zero, suc, ◌+◌, ◌*◌, ◌/◌, ◌%◌, ◌^◌, ◌<◌, ◌≡◌, refl, arith}
use dexvm.Prelude.{
  some, List, [], ◌∷◌, ◌∙◌, ap, ok, length, ltb, if◌then◌else◌, Bool-cases, inl, inr,
}
use native.Mathlib.Nat.{div-add-mod}
use native.Mathlib.Numerals.{towards_suc}
use dexvm.Prelude.{get_elem?}
use dexvm.Prelude.Bits.{bit_and_top_bit}
use dexvm.Dex.Cursor.{Cursor, uleb128_loop, uleb128}
use dexvm.Dex.Cursor.Reads.{BytesAt, u8-BytesAt}
use dexvm.Dex.Cursor.Leb.{add_group_fits, uleb128_round}

-- The groups of seven bits, lowest first, with the top bit set on all but the last. `k` is how many
-- bytes may follow this one.
unfoldable pub uleb128_bytes : ℕ → ℕ → List ℕ
uleb128_bytes zero v = v ∷ []
uleb128_bytes (suc k) v =
    let rest = uleb128_bytes k (v / 128) in if ltb v 128 then v ∷ [] else (v % 128 + 128) ∷ rest

-- `c'` is `c` moved on by `n` bytes.
abbrev pub moved : Cursor → ℕ → Cursor
moved c n = record c { pos = c.pos + n }

-- A byte below 128 ends the number, and one from 128 on carries over to the rest.
pub ends_byte : (b : ℕ) → b < 128 → bit_and b 0x80 ≡ 0
ends_byte b h = omega (arith, bit_and_top_bit b (omega arith))

pub goes_on : (g : ℕ) → g < 128 → bit_and (g + 128) 0x80 ≡ 128
goes_on g h = omega (arith, bit_and_top_bit (g + 128) (omega arith))

module _ (k acc shift : ℕ) (c : Cursor) (below : acc < 2 ^ shift) where
  -- The last byte, below 128.
  uleb128_last :
      (v : ℕ)
      → get_elem? c.data_bytes c.pos ≡ some v
      → v < 128
      → v * 2 ^ shift < 2 ^ 32
      → uleb128_loop (suc k) acc shift c ≡ (ok (acc + v * 2 ^ shift), moved c 1)
  uleb128_last v there small fits =
      uleb128_round k acc shift c v (moved c 1) (u8-BytesAt c v there)
      ∙ ground (arith, ends_byte v small, add_group_fits acc v shift below (omega arith))

  -- A byte that carries the group `g` on.
  uleb128_inner :
      (g : ℕ)
      → get_elem? c.data_bytes c.pos ≡ some (g + 128)
      → g < 128
      → shift < 28
      → g * 2 ^ shift < 2 ^ 32
      → uleb128_loop (suc k) acc shift c
        ≡ uleb128_loop k (acc + g * 2 ^ shift) (shift + 7) (moved c 1)
  uleb128_inner g there small room fits =
      uleb128_round k acc shift c (g + 128) (moved c 1) (u8-BytesAt c (g + 128) there)
      ∙ ground (arith, goes_on g small, add_group_fits acc (g + 128) shift below (omega arith))

two-pow-shift : (s : ℕ) → 2 ^ (s + 7) ≡ 128 * 2 ^ s
two-pow-shift s = simp towards_suc (omega arith)

-- The lowest group of `v` and the rest, both at bit `s`.
pub split_group : (v s : ℕ) → v * 2 ^ s ≡ v % 128 * 2 ^ s + v / 128 * 2 ^ (s + 7)
split_group v s = omega (
  arith,
  ap (λ (t : ℕ). t * 2 ^ s) (div-add-mod v 128),
  ap (λ (t : ℕ). v / 128 * t) (two-pow-shift s),
)

pub group_below : (acc g s : ℕ) → acc < 2 ^ s → g < 128 → acc + g * 2 ^ s < 2 ^ (s + 7)
group_below acc g s h small = rw two-pow-shift (grind arith)

uleb128_loop-bytes :
    (k acc shift v : ℕ) (c : Cursor)
    → shift + 7 * k ≡ 28
    → acc < 2 ^ shift
    → v < 128 ^ suc k
    → v * 2 ^ shift < 2 ^ 32
    → BytesAt c.data_bytes c.pos (uleb128_bytes k v)
    → uleb128_loop (suc k) acc shift c
      ≡ (ok (acc + v * 2 ^ shift), moved c (length (uleb128_bytes k v)))
unfolding uleb128_bytes
uleb128_loop-bytes zero acc shift v c e below fits high there =
    uleb128_last 0 acc shift c below v there.0 (omega arith) high
uleb128_loop-bytes (suc k) acc shift v c e below fits high there = elim (Bool-cases (ltb v 128)) [
  | inl small ↦
      let here = rw small at there in
      rw small (uleb128_last (suc k) acc shift c below v here.0 (ground arith) high)
  | inr large ↦
      let here = rw large at there in
      let g : v % 128 < 128 = omega arith in
      let split = split_group v shift in
      rw large (
        uleb128_inner (suc k) acc shift c below (v % 128) here.0 g (omega arith) (omega arith)
        ∙ uleb128_loop-bytes k (acc + v % 128 * 2 ^ shift) (shift + 7) (v / 128) (moved c 1)
            (omega arith) (group_below acc (v % 128) shift below g) (omega arith) (omega arith)
            here.1
        ∙ ground (arith, split))
]

-- A 32-bit number that stands at the cursor in the ULEB128 form of the DEX format is read back, and
-- the cursor passes exactly its bytes.
pub uleb128-uleb128_bytes :
    (c : Cursor) (v : ℕ)
    → v < 2 ^ 32
    → BytesAt c.data_bytes c.pos (uleb128_bytes 4 v)
    → uleb128 c ≡ (ok v, moved c (length (uleb128_bytes 4 v)))
unfolding uleb128
uleb128-uleb128_bytes c v fits there =
    uleb128_loop-bytes 4 0 0 v c refl (omega arith) (omega arith) (omega arith) there ∙ ground arith
