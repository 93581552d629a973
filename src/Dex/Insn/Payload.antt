-- ===== src/Dex/Insn/Payload.antt =====
-- The data payloads of src/dex/insn.rs: switch tables and `fill-array-data`.
use dexvm.Prelude.{ℕ, zero, suc, ◌+◌, ◌*◌, ◌/◌, ◌%◌, ◌^◌, Bool, List, [], ◌∷◌, Option, none, some}
use dexvm.Prelude.{get_elem?, get_or, length, ok, ◌==◌, if◌then◌else◌}
use dexvm.Dex.Error.{DexResult, fail, ◌>>=◌}
use dexvm.Dex.Error.{switch_oob, fill_array_oob, bad_packed_switch, bad_sparse_switch}
use dexvm.Dex.Error.{bad_fill_array, bad_fill_array_width}
use dexvm.Dex.Cursor.{le16, le32}
use dexvm.Dex.Insn.{Insn, FillArray}
use dexvm.Dex.Insn.{packed_switch, sparse_switch, fill_array_data}
use dexvm.Dex.Insn.Match.{match_on, on}
use dexvm.Dex.Insn.Units.{unit_at, tgt, join16}

-- `insns.get(payload).copied() != Some(magic)`
abbrev pub has_magic : List ℕ → ℕ → ℕ → Bool
has_magic insns payload magic = elim (get_elem? insns payload) [
  | none ↦ Bool.false
  | some u ↦ u == magic
]

-- `size` elements of `width` bytes each, built from the raw bytes; `i` counts the elements.
unfoldable pub elements : (List ℕ → ℕ → ℕ) → ℕ → List ℕ → ℕ → ℕ → List ℕ
elements from_le width raw zero i = []
elements from_le width raw (suc n) i =
    from_le raw (i * width) ∷ elements from_le width raw n (i + 1)

abbrev pub raw_le16 : List ℕ → ℕ → ℕ
raw_le16 raw j = le16 (get_or raw j 0) (get_or raw (j + 1) 0)

abbrev pub raw_le32 : List ℕ → ℕ → ℕ
raw_le32 raw j =
    le32 (get_or raw j 0) (get_or raw (j + 1) 0) (get_or raw (j + 2) 0) (get_or raw (j + 3) 0)

abbrev pub raw_le64 : List ℕ → ℕ → ℕ
raw_le64 raw j = raw_le32 raw j + raw_le32 raw (j + 4) * 2 ^ 32

module _ (insns : List ℕ) (payload : ℕ) where
  -- A unit of the payload; every error is reported at its start.
  abbrev pub in_switch : ℕ → DexResult ℕ
  in_switch i = unit_at insns i (payload * 2) switch_oob

  -- Two units as a 32-bit word.
  abbrev pub switch_word : ℕ → DexResult ℕ
  switch_word i = do lo ← in_switch i; hi ← in_switch (i + 1); ok (join16 lo hi)

  module _ (pc : ℕ) where
    -- The loop over the targets of a packed switch: `n` entries are left, the next at unit `i`.
    unfoldable pub packed_targets : ℕ → ℕ → DexResult (List ℕ)
    packed_targets zero i = ok []
    packed_targets (suc n) i = do
      t ← switch_word i
      ts ← packed_targets n (i + 2)
      ok (tgt insns pc t ∷ ts)

    -- The loop over the keys and targets of a sparse switch; the targets lie `size * 2` units on.
    unfoldable pub sparse_entries : ℕ → ℕ → ℕ → DexResult (List ℕ × List ℕ)
    sparse_entries size zero i = ok ([], [])
    sparse_entries size (suc n) i = do
      k ← switch_word i
      t ← switch_word (i + size * 2)
      (ks, ts) ← sparse_entries size n (i + 2)
      ok (k ∷ ks, tgt insns pc t ∷ ts)

    -- `0x2b` and `0x2c` once the payload's place is known; `a8` is the register.
    unfoldable pub packed_table : ℕ → DexResult Insn
    packed_table a8 = do
      size ← in_switch (payload + 1)
      first_key ← switch_word (payload + 2)
      targets ← packed_targets size (payload + 4)
      ok (packed_switch a8 payload first_key targets)

    unfoldable pub decode_packed : ℕ → DexResult Insn
    decode_packed a8 =
        if has_magic insns payload 0x0100
        then packed_table a8
        else fail (payload * 2) bad_packed_switch

    unfoldable pub sparse_table : ℕ → DexResult Insn
    sparse_table a8 = do
      size ← in_switch (payload + 1)
      (keys, targets) ← sparse_entries size size (payload + 2)
      ok (sparse_switch a8 payload keys targets)

    unfoldable pub decode_sparse : ℕ → DexResult Insn
    decode_sparse a8 =
        if has_magic insns payload 0x0200
        then sparse_table a8
        else fail (payload * 2) bad_sparse_switch

  -- The loop over the bytes of an array: `n` are left, the next is byte `i` from unit `start` on.
  unfoldable pub raw_bytes : ℕ → ℕ → ℕ → DexResult (List ℕ)
  raw_bytes start zero i = ok []
  raw_bytes start (suc n) i = do
    u ← unit_at insns (start + i / 2) ((start + i / 2) * 2) fill_array_oob
    rest ← raw_bytes start n (i + 1)
    ok ((if i % 2 == 0 then u % 256 else u / 256) ∷ rest)

  -- The closing `match width`.
  unfoldable pub by_width : ℕ → ℕ → List ℕ → DexResult FillArray
  by_width width size raw =
      match_on width
        (on 1 (ok (FillArray.bytes raw))
          ∷ on 2 (ok (FillArray.shorts (elements raw_le16 2 raw size 0)))
          ∷ on 4 (ok (FillArray.ints (elements raw_le32 4 raw size 0)))
          ∷ on 8 (ok (FillArray.wides (elements raw_le64 8 raw size 0)))
          ∷ [])
        (fail (payload * 2) (bad_fill_array_width width))

  abbrev pub in_array : ℕ → DexResult ℕ
  in_array i = unit_at insns i (payload * 2) fill_array_oob

  unfoldable pub fill_array_body : DexResult FillArray
  fill_array_body = do
    width ← in_array (payload + 1)
    lo ← in_array (payload + 2)
    hi ← in_array (payload + 3)
    let size = join16 lo hi
    raw ← raw_bytes (payload + 4) (size * width) 0
    by_width width size raw

  unfoldable pub decode_fill_array_data : DexResult FillArray
  decode_fill_array_data =
      if has_magic insns payload 0x0300 then fill_array_body else fail (payload * 2) bad_fill_array

-- The units of a payload, from its start to its end: `decode_all` skips them.
unfoldable pub payload_words : FillArray → ℕ
payload_words (FillArray.bytes v) = (length v + 1) / 2
payload_words (FillArray.shorts v) = length v
payload_words (FillArray.chars v) = length v
payload_words (FillArray.ints v) = 2 * length v
payload_words (FillArray.wides v) = 4 * length v

unfoldable pub payload_span : Insn → Option (ℕ × ℕ)
payload_span (packed_switch r payload k targets) = some (payload, payload + 4 + 2 * length targets)
payload_span (sparse_switch r payload keys targets) = some (payload, payload + 2 + 4 * length keys)
payload_span (fill_array_data r payload d) = some (payload, payload + 4 + payload_words d)
payload_span i = none
