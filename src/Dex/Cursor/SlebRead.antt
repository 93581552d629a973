-- ===== src/Dex/Cursor/SlebRead.antt =====
-- `sleb128` of src/dex/read.rs reads back what the DEX format writes for a signed number.
use dexvm.Prelude.{ℕ, zero, suc, ◌+◌, ◌-◌, ◌*◌, ◌/◌, ◌%◌, ◌^◌, ◌≤◌, ◌<◌, ◌≡◌, refl, arith}
use dexvm.Prelude.{some, List, [], ◌∷◌, ◌∙◌, ok, length, ltb, leb, ◌==◌, if◌then◌else◌, Bool-cases}
use dexvm.Prelude.{inl, inr, get_elem?}
use dexvm.Dex.Cursor.{Cursor, add_group, sleb128_loop, sleb128}
use dexvm.Dex.Cursor.Reads.{BytesAt, u8-BytesAt}
use dexvm.Dex.Cursor.Leb.{add_group_fits, add_group_last, sleb128_round}
use dexvm.Dex.Cursor.Leb.{sign_extend_lem, sign_extend_past}
use dexvm.Dex.Cursor.LebRead.{moved, ends_byte, goes_on, split_group, group_below}

-- The signed groups of seven bits of a two's complement pattern `v` of `7 * k + 4` bits: a number from
-- -64 to 63 ends in one byte, and the fifth byte holds four bits and their sign.
unfoldable pub sleb128_bytes : ℕ → ℕ → List ℕ
sleb128_bytes zero v = (if ltb v 8 then v else v + 112) ∷ []
sleb128_bytes (suc k) v =
    let rest = sleb128_bytes k (v / 128) in
    if ltb v 64
    then v ∷ []
    else if leb (2 ^ (7 * k + 11) - 64) v
    then (v % 128) ∷ []
    else (v % 128 + 128) ∷ rest

-- The pattern of a number from -64 to -1 is its low seven bits with all bits above them set.
negative_pattern :
    (k s v : ℕ)
    → s + 7 * k ≡ 21
    → v < 2 ^ (7 * k + 11)
    → 2 ^ (7 * k + 11) - 64 ≤ v
    → (v * 2 ^ s ≡ v % 128 * 2 ^ s + (2 ^ 32 - 2 ^ (s + 7))) × (v % 128 / 64 % 2 ≡ 1)
negative_pattern zero s v e lt le = let q : s ≡ 21 = omega arith in rw q (omega arith)
negative_pattern (suc zero) s v e lt le = let q : s ≡ 14 = omega arith in rw q (omega arith)
negative_pattern (suc (suc zero)) s v e lt le = let q : s ≡ 7 = omega arith in rw q (omega arith)
negative_pattern (suc (suc (suc zero))) s v e lt le =
    let q : s ≡ 0 = omega arith in rw q (omega arith)
negative_pattern (suc (suc (suc (suc k)))) s v e lt le = absurd (omega arith)

pattern_fits :
    (k s v : ℕ)
    → s + 7 * k ≡ 21
    → v < 2 ^ (7 * k + 11)
    → (v * 2 ^ s < 2 ^ 32) × (v / 128 < 2 ^ (7 * k + 4))
pattern_fits zero s v e lt = let q : s ≡ 21 = omega arith in rw q (omega arith)
pattern_fits (suc zero) s v e lt = let q : s ≡ 14 = omega arith in rw q (omega arith)
pattern_fits (suc (suc zero)) s v e lt = let q : s ≡ 7 = omega arith in rw q (omega arith)
pattern_fits (suc (suc (suc zero))) s v e lt = let q : s ≡ 0 = omega arith in rw q (omega arith)
pattern_fits (suc (suc (suc (suc k)))) s v e lt = absurd (omega arith)

module _ (k acc shift : ℕ) (c : Cursor) (below : acc < 2 ^ shift) where
  -- The last byte where sign bits are left to fill, and a byte that carries the group `g` on.
  sleb128_last :
      (b : ℕ)
      → shift + 7 * k ≡ 28
      → 0 < k
      → get_elem? c.data_bytes c.pos ≡ some b
      → b < 128
      → b * 2 ^ shift < 2 ^ 32
      → sleb128_loop (suc k) acc shift c ≡ (
        ok (
            if b / 64 % 2 == 0
            then acc + b * 2 ^ shift
            else acc + b * 2 ^ shift + (2 ^ 32 - 2 ^ (shift + 7))),
        moved c 1,
      )
  sleb128_last b e pos there small fits =
      let is_byte : b < 256 = omega arith in
      let low : b % 128 ≡ b = omega arith in
      let added : add_group acc b shift ≡ acc + b * 2 ^ shift =
        add_group_fits acc b shift below is_byte (rw low fits) ∙ rw low refl in
      sleb128_round k acc shift c b (moved c 1) (u8-BytesAt c b there)
      ∙ ground (
        arith,
        ends_byte b small,
        added,
        sign_extend_lem (acc + b * 2 ^ shift) b k (shift + 7) (omega arith) pos (omega arith)
            (group_below acc b shift below small) is_byte,
      )

  sleb128_inner :
      (g : ℕ)
      → get_elem? c.data_bytes c.pos ≡ some (g + 128)
      → g < 128
      → shift < 28
      → g * 2 ^ shift < 2 ^ 32
      → sleb128_loop (suc k) acc shift c
        ≡ sleb128_loop k (acc + g * 2 ^ shift) (shift + 7) (moved c 1)
  sleb128_inner g there small room fits =
      sleb128_round k acc shift c (g + 128) (moved c 1) (u8-BytesAt c (g + 128) there)
      ∙ ground (arith, goes_on g small, add_group_fits acc (g + 128) shift below (omega arith))

-- The fifth byte.
sleb128_fifth :
    (acc b : ℕ) (c : Cursor)
    → acc < 2 ^ 28
    → get_elem? c.data_bytes c.pos ≡ some b
    → b < 128
    → sleb128_loop 1 acc 28 c ≡ (ok (acc + b % 16 * 2 ^ 28), moved c 1)
sleb128_fifth acc b c below there small =
    sleb128_round 0 acc 28 c b (moved c 1) (u8-BytesAt c b there)
    ∙ ground (
      arith,
      ends_byte b small,
      add_group_last acc b below (omega arith),
      sign_extend_past (add_group acc b 28) b 35 (omega arith),
    )

sleb128_loop-bytes :
    (k acc shift v : ℕ) (c : Cursor)
    → shift + 7 * k ≡ 28
    → acc < 2 ^ shift
    → v < 2 ^ (7 * k + 4)
    → BytesAt c.data_bytes c.pos (sleb128_bytes k v)
    → sleb128_loop (suc k) acc shift c
      ≡ (ok (acc + v * 2 ^ shift), moved c (length (sleb128_bytes k v)))
unfolding sleb128_bytes
sleb128_loop-bytes zero acc shift v c e below fits there =
    let q : shift ≡ 28 = omega arith in
    rw q (
      sleb128_fifth acc (if ltb v 8 then v else v + 112) c (rw q at below) there.0 (ground arith)
      ∙ ground arith)
sleb128_loop-bytes (suc k) acc shift v c e below fits there =
    let width : 7 * suc k + 4 ≡ 7 * k + 11 = omega arith in
    let room : v < 2 ^ (7 * k + 11) = rw width at fits in
    let whole = pattern_fits k shift v (omega arith) room in
    let split = split_group v shift in
    elim (Bool-cases (ltb v 64)) [
      | inl small ↦
          let here = rw small at there in
          rw small (
            sleb128_last (suc k) acc shift c below v e (omega arith) here.0 (ground arith) whole.0
            ∙ ground arith)
      | inr large ↦ elim (Bool-cases (leb (2 ^ (7 * k + 11) - 64) v)) [
        | inl high ↦
            let here = rw (large, high) at there in
            let sign = negative_pattern k shift v (omega arith) room (ground arith) in
            rw (large, high)
              (sleb128_last (suc k) acc shift c below (v % 128) e (omega arith) here.0 (omega arith)
                  (omega arith)
                ∙ ground (arith, sign))
        | inr low ↦
            let here = rw (large, low) at there in
            let g : v % 128 < 128 = omega arith in
            rw (large, low)
              (sleb128_inner (suc k) acc shift c below (v % 128) here.0 g (omega arith)
                  (omega arith)
                ∙ sleb128_loop-bytes k (acc + v % 128 * 2 ^ shift) (shift + 7) (v / 128) (moved c 1)
                    (omega arith) (group_below acc (v % 128) shift below g) whole.1 here.1
                ∙ ground (arith, split))
      ]
    ]

-- A 32-bit two's complement pattern that stands at the cursor in the SLEB128 form of the DEX format is
-- read back, negative numbers included, and the cursor passes exactly its bytes.
pub sleb128-sleb128_bytes :
    (c : Cursor) (v : ℕ)
    → v < 2 ^ 32
    → BytesAt c.data_bytes c.pos (sleb128_bytes 4 v)
    → sleb128 c ≡ (ok v, moved c (length (sleb128_bytes 4 v)))
unfolding sleb128
sleb128-sleb128_bytes c v fits there =
    sleb128_loop-bytes 4 0 0 v c refl (omega arith) (omega arith) there ∙ ground arith
