-- ===== src/Dex/Insn/Spans.antt =====
-- The payloads that src/dex/insn.rs decodes lie inside the code, with the span that `payload_span` says.
use dexvm.Prelude.{ℕ, zero, suc, ◌+◌, ◌-◌, ◌*◌, ◌/◌, ◌≤◌, ◌<◌, ◌≡◌, refl, arith, List, length}
use dexvm.Prelude.{Option, none, some}
use dexvm.Dex.Ensures.{Ensures, returns, fails, Ensures-bind, Ensures-mono, Ensures-if, unit_at_lem}
use dexvm.Dex.Insn.Match.{match_rule}
use dexvm.Dex.Insn.Payload.{switch_word, packed_targets, sparse_entries, packed_table}
use dexvm.Dex.Insn.Payload.{raw_le16, raw_le32, raw_le64}
use dexvm.Dex.Insn.Units.{join16}
use dexvm.Dex.Insn.Payload.{
  sparse_table, decode_packed, decode_sparse, raw_bytes, elements, by_width,
}
use dexvm.Dex.Insn.Payload.{fill_array_body, decode_fill_array_data, payload_words, payload_span}

-- A span is not empty and ends inside the code.
abbrev pub SpanFits : ℕ → Option (ℕ × ℕ) → Type 0
SpanFits n none = Unit
SpanFits n (some (start, end)) = (start < end) × (end ≤ n)

module _ (insns : List ℕ) (payload : ℕ) where
  switch_word_lem : (i : ℕ) → Ensures (λ t. i + 1 < length insns) (switch_word insns payload i)
  switch_word_lem i =
      Ensures-bind (unit_at_lem insns i _ _)
        (λ lo _. Ensures-bind (unit_at_lem insns (i + 1) _ _) (λ hi h. returns h))

  packed_targets_lem :
      (pc n i : ℕ)
      → Ensures
          (λ ts. (length ts ≡ n) × ((0 < n) → i + 2 * n ≤ length insns))
          (packed_targets insns payload pc n i)
  unfolding packed_targets
  packed_targets_lem pc zero i = returns (omega arith)
  packed_targets_lem pc (suc n) i =
      Ensures-bind (switch_word_lem i)
        (λ t h. Ensures-bind (packed_targets_lem pc n (i + 2)) (λ ts ih. returns (ground arith)))

  sparse_entries_lem :
      (pc size n i : ℕ)
      → Ensures
          (λ r. (length r.0 ≡ n) × ((0 < n) → i + 2 * n + 2 * size ≤ length insns))
          (sparse_entries insns payload pc size n i)
  unfolding sparse_entries
  sparse_entries_lem pc size zero i = returns (omega arith)
  sparse_entries_lem pc size (suc n) i = Ensures-bind (switch_word_lem i) (λ k _.
      Ensures-bind (switch_word_lem (i + size * 2)) (λ t h.
        Ensures-bind (sparse_entries_lem pc size n (i + 2)) (λ r ih. returns (ground arith))))

  pub decode_packed_lem :
      (pc a8 : ℕ)
      → Ensures (λ i. SpanFits (length insns) (payload_span i)) (decode_packed insns payload pc a8)
  unfolding decode_packed packed_table payload_span
  decode_packed_lem pc a8 =
      Ensures-if _
        (Ensures-bind (unit_at_lem insns (payload + 1) _ _) (λ size _.
          Ensures-bind (switch_word_lem (payload + 2)) (λ k header.
            Ensures-bind (packed_targets_lem pc size (payload + 4))
              (λ ts h. returns (ground arith)))))
        fails

  pub decode_sparse_lem :
      (pc a8 : ℕ)
      → Ensures (λ i. SpanFits (length insns) (payload_span i)) (decode_sparse insns payload pc a8)
  unfolding decode_sparse sparse_table payload_span
  decode_sparse_lem pc a8 =
      Ensures-if _
        (Ensures-bind (unit_at_lem insns (payload + 1) _ _) (λ size header.
          Ensures-bind (sparse_entries_lem pc size size (payload + 2))
            (λ r h. returns (ground arith))))
        fails

  raw_bytes_lem :
      (start n i : ℕ)
      → Ensures
          (λ raw. (length raw ≡ n) × ((0 < n) → start + (i + n - 1) / 2 < length insns))
          (raw_bytes insns payload start n i)
  unfolding raw_bytes
  raw_bytes_lem start zero i = returns (omega arith)
  raw_bytes_lem start (suc n) i =
      Ensures-bind (unit_at_lem insns (start + i / 2) _ _)
        (λ u h. Ensures-bind (raw_bytes_lem start n (i + 1)) (λ rest ih. returns (ground arith)))

length-elements :
    (from_le : List ℕ → ℕ → ℕ) (width : ℕ) (raw : List ℕ) (n i : ℕ)
    → length (elements from_le width raw n i) ≡ n
unfolding elements
length-elements from_le width raw zero i = refl
length-elements from_le width raw (suc n) i =
    omega (arith, length-elements from_le width raw n (i + 1))

-- The elements of an array take as many units as its bytes do, two bytes to a unit.
by_width_lem :
    (insns : List ℕ) (payload width size : ℕ) (raw : List ℕ)
    → length raw ≡ size * width
    → Ensures
        (λ d. payload_words d ≡ (size * width + 1) / 2)
        (by_width insns payload width size raw)
unfolding by_width payload_words
by_width_lem insns payload width size raw =
    match_rule
      (λ x r. length raw ≡ size * x → Ensures (λ d. payload_words d ≡ (size * x + 1) / 2) r) width _
      _
      (
        λ x lo hi h. returns (ground arith),
        (
          λ x lo hi h. returns (ground (arith, count raw_le16 2, two x)),
          (
            λ x lo hi h. returns (ground (arith, count raw_le32 4, four x)),
            (λ x lo hi h. returns (ground (arith, count raw_le64 8, eight x)), tt),
          ),
        ),
      )
      (λ h. fails)
  where
    count : (from_le : List ℕ → ℕ → ℕ) (k : ℕ) → length (elements from_le k raw size 0) ≡ size
    count from_le k = length-elements from_le k raw size 0

    two : (x : ℕ) → x ≡ 2 → (size * x + 1) / 2 ≡ size
    two x q = rw q (omega arith)

    four : (x : ℕ) → x ≡ 4 → (size * x + 1) / 2 ≡ 2 * size
    four x q = rw q (omega arith)

    eight : (x : ℕ) → x ≡ 8 → (size * x + 1) / 2 ≡ 4 * size
    eight x q = rw q (omega arith)

pub decode_fill_array_data_lem :
    (insns : List ℕ) (payload : ℕ)
    → Ensures
        (λ d. payload + 4 + payload_words d ≤ length insns)
        (decode_fill_array_data insns payload)
unfolding decode_fill_array_data fill_array_body
decode_fill_array_data_lem insns payload =
    Ensures-if _
      (Ensures-bind (unit_at_lem insns (payload + 1) _ _) (λ width _.
        Ensures-bind (unit_at_lem insns (payload + 2) _ _) (λ lo _.
          Ensures-bind (unit_at_lem insns (payload + 3) _ _) (λ hi header.
            Ensures-bind (raw_bytes_lem insns payload (payload + 4) (join16 lo hi * width) 0)
              (λ raw h.
                Ensures-mono (by_width_lem insns payload width (join16 lo hi) raw h.0)
                  (λ d e. ground (arith, h.1)))))))
      fails
