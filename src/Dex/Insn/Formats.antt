-- ===== src/Dex/Insn/Formats.antt =====
-- The widths that the DEX format gives the opcodes, and the reads of one, two and three units of
-- src/dex/insn.rs against them.
use dexvm.Prelude.{ℕ, ◌+◌, ◌≤◌, ◌<◌, ◌≡◌, refl, arith, List, length, none}
use dexvm.Dex.Ensures.{Ensures, returns, fails, Ensures-bind, unit_at_lem}
use dexvm.Dex.Insn.{Insn}
use dexvm.Prelude.{Bool, ◌&&◌, ◌||◌, leb, ◌==◌, if◌then◌else◌}
use dexvm.Dex.Insn.Units.{Decoding, w, op1, op2, op3, op3_rev}
use dexvm.Dex.Insn.Payload.{payload_span}
use dexvm.Dex.Insn.Basic.{unknown}
use dexvm.Dex.Insn.Spans.{SpanFits}

abbrev between : ℕ → ℕ → ℕ → Bool
between lo hi x = leb lo x && leb x hi

-- The units of an instruction: format 51l has five, the formats 20t to 23x two, 30t to 3rc three and
-- the others one.
unfoldable pub format_units : ℕ → ℕ
format_units op =
    if op == 0x18
    then 5
    else if op == 0x03 || op == 0x06 || op == 0x09 || op == 0x14 || op == 0x17 || op == 0x1b
    then 3
    else if between 0x24 0x26 op || between 0x2a 0x2c op || between 0x6e 0x78 op
    then 3
    else if between 0x00 0x01 op || op == 0x04 || op == 0x07 || between 0x0a 0x12 op
    then 1
    else if between 0x1d 0x1e op || op == 0x21 || between 0x27 0x28 op || between 0x7b 0x8f op
    then 1
    else if between 0xb0 0xcf op
    then 1
    else 2

-- An instruction of opcode `op` at `pc`: it has the width of its format and lies inside the code, and
-- so does the payload that it owns.
abbrev pub Decodes : List ℕ → ℕ → ℕ → Decoding → Type 0
Decodes insns pc op = Ensures (λ r.
    (r.1 ≡ pc + format_units op)
    × (r.1 ≤ length insns)
    × SpanFits (length insns) (payload_span r.0))

-- An arm of one opcode, whose width is found by evaluation.
at_one : (n k : ℕ) → format_units k ≡ n → (x : ℕ) → k ≤ x → x ≤ k → format_units x ≡ n
at_one n k e x p q = let same : x ≡ k = omega arith in rw same e

module _ (insns : List ℕ) (pc : ℕ) (inside : pc < length insns) where
  -- The rules for an arm: all opcodes of its range have the width that it reads.
  pub range1 :
      (lo hi : ℕ) (i : Insn)
      → ((x : ℕ) → lo ≤ x → x ≤ hi → format_units x ≡ 1)
      → payload_span i ≡ none
      → (x : ℕ) → lo ≤ x
      → x ≤ hi
      → Decodes insns pc x (op1 insns pc i)
  unfolding op1
  range1 lo hi i wide bare x p q = returns (rw (wide x p q, bare) (refl, omega arith, tt))

  pub range2 :
      (lo hi : ℕ) (f : ℕ → Insn)
      → ((x : ℕ) → lo ≤ x → x ≤ hi → format_units x ≡ 2)
      → ((u : ℕ) → payload_span (f u) ≡ none)
      → (x : ℕ) → lo ≤ x
      → x ≤ hi
      → Decodes insns pc x (op2 insns pc f)
  unfolding op2 w
  range2 lo hi f wide bare x p q =
      Ensures-bind (unit_at_lem insns (pc + 1) _ _)
        λ u h. returns (rw (wide x p q, bare u) (refl, omega arith, tt))

  pub range3 :
      (lo hi : ℕ) (f : ℕ → ℕ → Insn)
      → ((x : ℕ) → lo ≤ x → x ≤ hi → format_units x ≡ 3)
      → ((u v : ℕ) → payload_span (f u v) ≡ none)
      → (x : ℕ) → lo ≤ x
      → x ≤ hi
      → Decodes insns pc x (op3 insns pc f)
  unfolding op3 w
  range3 lo hi f wide bare x p q = Ensures-bind (unit_at_lem insns (pc + 1) _ _) λ u _.
      Ensures-bind (unit_at_lem insns (pc + 2) _ _)
        λ v h. returns (rw (wide x p q, bare u v) (refl, omega arith, tt))

  pub range3_rev :
      (lo hi : ℕ) (f : ℕ → ℕ → Insn)
      → ((x : ℕ) → lo ≤ x → x ≤ hi → format_units x ≡ 3)
      → ((u v : ℕ) → payload_span (f u v) ≡ none)
      → (x : ℕ) → lo ≤ x
      → x ≤ hi
      → Decodes insns pc x (op3_rev insns pc f)
  unfolding op3_rev w
  range3_rev lo hi f wide bare x p q = Ensures-bind (unit_at_lem insns (pc + 2) _ _) λ v h.
      Ensures-bind (unit_at_lem insns (pc + 1) _ _)
        λ u _. returns (rw (wide x p q, bare v u) (refl, omega arith, tt))

  pub arm1 :
      (k : ℕ) (i : Insn)
      → format_units k ≡ 1
      → payload_span i ≡ none
      → (x : ℕ) → k ≤ x
      → x ≤ k
      → Decodes insns pc x (op1 insns pc i)
  arm1 k i wide = range1 k k i (at_one 1 k wide)

  pub arm2 :
      (k : ℕ) (f : ℕ → Insn)
      → format_units k ≡ 2
      → ((u : ℕ) → payload_span (f u) ≡ none)
      → (x : ℕ) → k ≤ x
      → x ≤ k
      → Decodes insns pc x (op2 insns pc f)
  arm2 k f wide = range2 k k f (at_one 2 k wide)

  pub arm3 :
      (k : ℕ) (f : ℕ → ℕ → Insn)
      → format_units k ≡ 3
      → ((u v : ℕ) → payload_span (f u v) ≡ none)
      → (x : ℕ) → k ≤ x
      → x ≤ k
      → Decodes insns pc x (op3 insns pc f)
  arm3 k f wide = range3 k k f (at_one 3 k wide)

  pub arm3_rev :
      (k : ℕ) (f : ℕ → ℕ → Insn)
      → format_units k ≡ 3
      → ((u v : ℕ) → payload_span (f u v) ≡ none)
      → (x : ℕ) → k ≤ x
      → x ≤ k
      → Decodes insns pc x (op3_rev insns pc f)
  arm3_rev k f wide = range3_rev k k f (at_one 3 k wide)

-- No instruction is decoded where no arm takes the opcode.
pub unknown_lem : (insns : List ℕ) (pc word x : ℕ) → Decodes insns pc x (unknown pc word)
unfolding unknown
unknown_lem insns pc word x = fails
