-- ===== src/Dex/ClassData/Fields.antt =====
-- The fields of a class as the DEX format writes them, and `parse_class_data` of src/dex/mod.rs on them.
use dexvm.Prelude.{ℕ, ◌+◌, ◌-◌, ◌%◌, ◌^◌, ◌≤◌, ◌<◌, ◌≡◌, refl, arith, List, [], ◌∷◌, ◌++◌}
use native.Mathlib.Nat.{add-zero}
use dexvm.Prelude.{ok, length, length-append}
use dexvm.Dex.Cursor.{Cursor}
use dexvm.Dex.Cursor.Reads.{BytesAt, BytesAt-append}
use dexvm.Dex.Cursor.LebRead.{uleb128_bytes, uleb128-uleb128_bytes, moved}
use dexvm.Dex.ClassData.{EncodedField, read_fields}

abbrev encoded : ℕ → ℕ → EncodedField
encoded idx flags = record { field_idx = idx; access_flags = flags }

-- Each index is written as its distance from the one before.
unfoldable pub fields_bytes : ℕ → List EncodedField → List ℕ
unfolding uleb128_bytes
fields_bytes idx [] = []
fields_bytes idx (f ∷ fs) =
    uleb128_bytes 4 (f.field_idx - idx)
    ++ (uleb128_bytes 4 f.access_flags ++ fields_bytes f.field_idx fs)

-- Indexes that do not fall, from `idx` on, and words for the flags.
abbrev pub AreFields : ℕ → List EncodedField → Type 0
AreFields idx [] = Unit
AreFields idx (f ∷ fs) =
    (idx ≤ f.field_idx)
    × (f.field_idx < 2 ^ 32)
    × (f.access_flags < 2 ^ 32)
    × AreFields f.field_idx fs

-- The fields that stand at the cursor in the form of the DEX format are read back, and the cursor passes exactly
-- their bytes.
pub read_fields-fields_bytes :
    (c : Cursor) (idx : ℕ) (fs : List EncodedField)
    → AreFields idx fs
    → BytesAt c.data_bytes c.pos (fields_bytes idx fs)
    → read_fields (length fs) idx c ≡ (ok fs, moved c (length (fields_bytes idx fs)))
unfolding read_fields fields_bytes
read_fields-fields_bytes c idx [] h there = rw (add-zero c.pos) refl
read_fields-fields_bytes c idx (f ∷ fs) h there =
    let diff = uleb128_bytes 4 (f.field_idx - idx) in
    let flags = uleb128_bytes 4 f.access_flags in
    let rest = fields_bytes f.field_idx fs in
    let first = BytesAt-append c.data_bytes diff (flags ++ rest) c.pos there in
    let second = BytesAt-append c.data_bytes flags rest (c.pos + length diff) first.1 in
    let c1 = moved c (length diff) in
    let c2 = moved c1 (length flags) in
    let e1 = uleb128-uleb128_bytes c (f.field_idx - idx) (omega (arith, h)) first.0 in
    let e2 = uleb128-uleb128_bytes c1 f.access_flags h.2 second.0 in
    let sum : (idx + (f.field_idx - idx)) % 2 ^ 32 ≡ f.field_idx = omega (arith, h) in
    let later = read_fields-fields_bytes c2 f.field_idx fs h.3 second.1 in
    let sizes : c.pos + length diff + length flags + length rest
        ≡ c.pos + length (diff ++ (flags ++ rest)) =
      omega (arith, length-append diff (flags ++ rest), length-append flags rest) in
    rw e1 (rw e2 (rw sum (rw later (rw sizes refl))))
