-- ===== src/Dex/Cursor/Leb.antt =====
-- `uleb128` and `sleb128` of src/dex/read.rs on any input: they end within five bytes, stay inside the
-- buffer and return 32-bit values.
use native.Mathlib.Omega.{arith}
use Prim.Native.Nat.{bit_and}
use dexvm.Prelude.{ℕ, zero, suc, ◌+◌, ◌-◌, ◌*◌, ◌/◌, ◌%◌, ◌^◌, ◌≤◌, ◌<◌, ◌≡◌, ◌≢◌, refl}
use dexvm.Prelude.{◌⊎◌, ok, err, stuck, length, get_or, All, All-get, get_elem?-eq-get_or, inl, inr}
use dexvm.Prelude.{Bool, true, false, Bool-cases, leb, ◌==◌, if◌then◌else◌}
use dexvm.Prelude.Bits.{bit_or-shift, bit_and_seven_bits, bit_and_sign_bit}
use dexvm.Dex.Error.{DexError, DexMsg, DexResult, fail, uleb128_overflow, sleb128_overflow}
use dexvm.Dex.Cursor.{Cursor, at, u8, add_group, sign_extend, uleb128_loop, uleb128}
use dexvm.Dex.Cursor.{sleb128_loop, sleb128}
use dexvm.Dex.Cursor.Reads.{IsByte, IsInside}

-- A group that fits is added above the bits below `shift`.
pub add_group_fits :
    (result b shift : ℕ)
    → result < 2 ^ shift
    → b < 256
    → b % 128 * 2 ^ shift < 2 ^ 32
    → add_group result b shift ≡ result + b % 128 * 2 ^ shift
unfolding add_group
add_group_fits result b shift below is_byte fits =
    ground (arith, bit_and_seven_bits b is_byte, bit_or-shift shift result (b % 128) below)

-- Of the fifth group only the low four bits are kept.
pub add_group_last :
    (result b : ℕ) → result < 2 ^ 28 → b < 256 → add_group result b 28 ≡ result + b % 16 * 2 ^ 28
unfolding add_group
add_group_last result b below is_byte =
    ground (arith, bit_and_seven_bits b is_byte, bit_or-shift 28 result (b % 16) below)

-- The result of a round: below the next shift, or below 2 ^ 32 in the fifth. `k` rounds may follow.
pub add_group-lt :
    (result b k shift : ℕ)
    → shift + 7 * k ≡ 28
    → result < 2 ^ shift
    → b < 256
    → (add_group result b shift < 2 ^ 32) × ((0 < k) → add_group result b shift < 2 ^ (shift + 7))
add_group-lt result b zero shift e below is_byte =
    let q : shift ≡ 28 = omega arith in
    let small : result < 2 ^ 28 = rw q at below in
    rw q (omega (arith, add_group_last result b small is_byte))
add_group-lt result b (suc zero) shift e below is_byte =
    let q : shift ≡ 21 = omega arith in
    let small : result < 2 ^ 21 = rw q at below in
    rw q (omega (arith, add_group_fits result b 21 small is_byte (omega arith)))
add_group-lt result b (suc (suc zero)) shift e below is_byte =
    let q : shift ≡ 14 = omega arith in
    let small : result < 2 ^ 14 = rw q at below in
    rw q (omega (arith, add_group_fits result b 14 small is_byte (omega arith)))
add_group-lt result b (suc (suc (suc zero))) shift e below is_byte =
    let q : shift ≡ 7 = omega arith in
    let small : result < 2 ^ 7 = rw q at below in
    rw q (omega (arith, add_group_fits result b 7 small is_byte (omega arith)))
add_group-lt result b (suc (suc (suc (suc zero)))) shift e below is_byte =
    let q : shift ≡ 0 = omega arith in
    let small : result < 2 ^ 0 = rw q at below in
    rw q (omega (arith, add_group_fits result b 0 small is_byte (omega arith)))
add_group-lt result b (suc (suc (suc (suc (suc k))))) shift e below is_byte = absurd (omega arith)

-- What one byte read does, in the two cases.
pub u8_cases :
    (c : Cursor)
    → ((e : DexError) × (u8 c ≡ (err e, c)))
      ⊎ ((b : ℕ) × (u8 c ≡ (ok b, record c { pos = c.pos + 1 }))
          × (c.pos < length c.data_bytes)
          × (All IsByte c.data_bytes → b < 256))
unfolding u8
u8_cases c = elim (Bool-cases (leb (length c.data_bytes) c.pos)) [
  | inl past ↦ inl (at c.pos, rw past)
  | inr there ↦ inr (
    get_or c.data_bytes c.pos 0,
    rw there,
    ground arith,
    λ all.
        All-get IsByte c.data_bytes c.pos all
          (get_elem?-eq-get_or c.data_bytes c.pos 0 (ground arith)),
  )
]

-- What a LEB128 reader may do from `c` with `k` more bytes after this one: it does not run out of
-- rounds, it keeps the buffer, and a value is below 2 ^ 32 and took between 1 and `k + 1` bytes.
pub record LebBounds (c : Cursor) (k : ℕ) (out : DexResult ℕ × Cursor) : Type 0 where
  pub ends : out.0 ≢ stuck
  pub same : out.1.data_bytes ≡ c.data_bytes
  pub ahead : c.pos ≤ out.1.pos
  pub at_most : out.1.pos ≤ c.pos + k + 1
  pub inside : IsInside c → out.1.pos ≤ length c.data_bytes
  pub value : (v : ℕ) → out.0 ≡ ok v → (v < 2 ^ 32) × (c.pos < out.1.pos)

-- One round of each loop on a byte that was read, and the round that meets the end of the buffer.
module _ (k acc shift : ℕ) (c : Cursor) where
  pub uleb128_round :
      (b : ℕ) (c' : Cursor)
      → u8 c ≡ (ok b, c')
      → uleb128_loop (suc k) acc shift c ≡ (
          if bit_and b 0x80 == 0
          then (ok (add_group acc b shift), c')
          else if leb 35 (shift + 7)
          then (fail (c'.pos - 1) uleb128_overflow, c')
          else uleb128_loop k (add_group acc b shift) (shift + 7) c')
  unfolding uleb128_loop
  uleb128_round b c' r = rw r

  pub sleb128_round :
      (b : ℕ) (c' : Cursor)
      → u8 c ≡ (ok b, c')
      → sleb128_loop (suc k) acc shift c ≡ (
          if bit_and b 0x80 == 0
          then (ok (sign_extend (add_group acc b shift) b (shift + 7)), c')
          else if leb 35 (shift + 7)
          then (fail (c'.pos - 1) sleb128_overflow, c')
          else sleb128_loop k (add_group acc b shift) (shift + 7) c')
  unfolding sleb128_loop
  sleb128_round b c' r = rw r

  pub leb128_end :
      (e : DexError)
      → u8 c ≡ (err e, c)
      → (uleb128_loop (suc k) acc shift c ≡ (err e, c))
        × (sleb128_loop (suc k) acc shift c ≡ (err e, c))
  unfolding uleb128_loop sleb128_loop
  leb128_end e r = (rw r, rw r)

LebBounds-end : (c : Cursor) (k : ℕ) (e : DexError) → LebBounds c k (err e, c)
LebBounds-end c k e = record {
  ends = λ p. cc;
  same = refl;
  ahead = omega arith;
  at_most = omega arith;
  inside = λ h. h.within;
  value = λ v p. cc;
}

-- One round keeps the bounds: the three ways in which it goes on from the byte that it read.
LebBounds-round :
    (c : Cursor) (k v : ℕ) (last past : Bool) (msg : DexMsg) (more : DexResult ℕ × Cursor)
    → c.pos < length c.data_bytes
    → v < 2 ^ 32
    → let c' = record c { pos = c.pos + 1 } in
      ((last ≡ false) → (past ≡ false) → LebBounds c' k more)
      → LebBounds c
          (suc k)
          (if last then (ok v, c') else if past then (fail (c'.pos - 1) msg, c') else more)
LebBounds-round c k v true past msg more lt fits h = ground arith
LebBounds-round c k v false true msg more lt fits h = ground arith
LebBounds-round c k v false false msg more lt fits h =
    let b = h refl refl in
    record {
      ends = b.ends;
      same = b.same;
      ahead = omega (arith, b.ahead);
      at_most = omega (arith, b.at_most);
      inside = λ i. b.inside (record { within = omega arith });
      value = λ w e. omega (arith, b.value w e);
    }

uleb128_loop_bounds :
    (k acc shift : ℕ) (c : Cursor)
    → All IsByte c.data_bytes
    → shift + 7 * k ≡ 28
    → acc < 2 ^ shift
    → LebBounds c k (uleb128_loop (suc k) acc shift c)
uleb128_loop_bounds zero acc shift c all e below = elim (u8_cases c) [
  | inl (x, r) ↦ rw (leb128_end 0 acc shift c x r).0 (LebBounds-end c 0 x)
  | inr (b, r, lt, is_byte) ↦
      rw (uleb128_round 0 acc shift c b _ r)
        (ground (arith, add_group-lt acc b 0 shift e below (is_byte all)))
]
uleb128_loop_bounds (suc k) acc shift c all e below = elim (u8_cases c) [
  | inl (x, r) ↦ rw (leb128_end (suc k) acc shift c x r).0 (LebBounds-end c (suc k) x)
  | inr (b, r, lt, is_byte) ↦
      let (fits, next) = add_group-lt acc b (suc k) shift e below (is_byte all) in
      rw (uleb128_round (suc k) acc shift c b _ r) (
        LebBounds-round c k _ _ _ _ _ lt fits
          (λ _ _. uleb128_loop_bounds k _ _ _ all (omega arith) (next (omega arith))))
]

-- The sign fills the bits above `shift`, where there are any.
pub sign_extend_lem :
    (result b k shift : ℕ)
    → shift + 7 * k ≡ 35
    → 0 < k
    → 0 < shift
    → result < 2 ^ shift
    → b < 256
    → sign_extend result b shift
      ≡ (if b / 64 % 2 == 0 then result else result + (2 ^ 32 - 2 ^ shift))
unfolding sign_extend
sign_extend_lem result b zero shift e k_pos s_pos below is_byte = absurd (omega arith)
sign_extend_lem result b (suc zero) shift e k_pos s_pos below is_byte =
    let q : shift ≡ 28 = omega arith in
    let small : result < 2 ^ 28 = rw q at below in
    rw q (ground (arith, bit_and_sign_bit b is_byte, bit_or-shift 28 result 15 small))
sign_extend_lem result b (suc (suc zero)) shift e k_pos s_pos below is_byte =
    let q : shift ≡ 21 = omega arith in
    let small : result < 2 ^ 21 = rw q at below in
    rw q (ground (arith, bit_and_sign_bit b is_byte, bit_or-shift 21 result 2047 small))
sign_extend_lem result b (suc (suc (suc zero))) shift e k_pos s_pos below is_byte =
    let q : shift ≡ 14 = omega arith in
    let small : result < 2 ^ 14 = rw q at below in
    rw q (ground (arith, bit_and_sign_bit b is_byte, bit_or-shift 14 result 262143 small))
sign_extend_lem result b (suc (suc (suc (suc zero)))) shift e k_pos s_pos below is_byte =
    let q : shift ≡ 7 = omega arith in
    let small : result < 2 ^ 7 = rw q at below in
    rw q (ground (arith, bit_and_sign_bit b is_byte, bit_or-shift 7 result 33554431 small))
sign_extend_lem result b (suc (suc (suc (suc (suc k))))) shift e k_pos s_pos below is_byte =
    absurd (omega arith)

pub sign_extend_past : (result b shift : ℕ) → 32 ≤ shift → sign_extend result b shift ≡ result
unfolding sign_extend
sign_extend_past result b shift h = ground arith

sign_extend-lt :
    (result b k shift : ℕ)
    → shift + 7 * k ≡ 28
    → result < 2 ^ 32
    → ((0 < k) → result < 2 ^ (shift + 7))
    → b < 256
    → sign_extend result b (shift + 7) < 2 ^ 32
sign_extend-lt result b zero shift e fits below is_byte =
    rw (sign_extend_past result b (shift + 7) (omega arith)) fits
sign_extend-lt result b (suc k) shift e fits below is_byte =
    let small = below (omega arith) in
    rw
      (sign_extend_lem result b (suc k) (shift + 7) (omega arith) (omega arith) (omega arith) small
        is_byte)
      (ground arith)

sleb128_loop_bounds :
    (k acc shift : ℕ) (c : Cursor)
    → All IsByte c.data_bytes
    → shift + 7 * k ≡ 28
    → acc < 2 ^ shift
    → LebBounds c k (sleb128_loop (suc k) acc shift c)
sleb128_loop_bounds zero acc shift c all e below = elim (u8_cases c) [
  | inl (x, r) ↦ rw (leb128_end 0 acc shift c x r).1 (LebBounds-end c 0 x)
  | inr (b, r, lt, is_byte) ↦
      let (fits, next) = add_group-lt acc b 0 shift e below (is_byte all) in
      rw (sleb128_round 0 acc shift c b _ r)
        (ground (arith, sign_extend-lt (add_group acc b shift) b 0 shift e fits next (is_byte all)))
]
sleb128_loop_bounds (suc k) acc shift c all e below = elim (u8_cases c) [
  | inl (x, r) ↦ rw (leb128_end (suc k) acc shift c x r).1 (LebBounds-end c (suc k) x)
  | inr (b, r, lt, is_byte) ↦
      let (fits, next) = add_group-lt acc b (suc k) shift e below (is_byte all) in
      rw (sleb128_round (suc k) acc shift c b _ r) (
        LebBounds-round c k _ _ _ _ _ lt
          (sign_extend-lt (add_group acc b shift) b (suc k) shift e fits next (is_byte all))
          (λ _ _. sleb128_loop_bounds k _ _ _ all (omega arith) (next (omega arith))))
]

-- On every buffer of bytes and at every cursor, both readers end within five bytes, keep the buffer
-- and stay inside it, and a value that they return is below 2 ^ 32 and took at least one byte.
pub leb128-LebBounds :
    (c : Cursor) → All IsByte c.data_bytes → LebBounds c 4 (uleb128 c) × LebBounds c 4 (sleb128 c)
unfolding uleb128 sleb128
leb128-LebBounds c all = (
  uleb128_loop_bounds 4 0 0 c all refl (omega arith),
  sleb128_loop_bounds 4 0 0 c all refl (omega arith),
)
