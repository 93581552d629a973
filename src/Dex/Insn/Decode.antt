-- ===== src/Dex/Insn/Decode.antt =====
-- `decode` and `decode_all` of src/dex/insn.rs.
use dexvm.Prelude.{ℕ, zero, suc, ◌-◌, ◌*◌, List, [], ◌∷◌, ◌++◌, Option, none, some}
use dexvm.Prelude.{true, false, ok, stuck, length, ltb, ◌==◌, if◌then◌else◌}
use dexvm.Dex.Error.{DexResult, fail, ◌>>=◌, past_end_of_code}
use dexvm.Dex.Error.{polymorphic_not_supported, custom_not_supported}
use dexvm.Dex.Insn.{Insn}
use dexvm.Dex.Insn.Match.{match_on, on, from_to}
use dexvm.Dex.Insn.Units.{Decoding, unit_at, op2}
use dexvm.Dex.Insn.Basic.{op_of, a8, unknown}
use dexvm.Dex.Insn.Payload.{payload_span}
use dexvm.Dex.Insn.Control.{decode_moves, decode_consts, decode_objects, decode_branches}
use dexvm.Dex.Insn.Access.{decode_arrays, decode_fields, decode_invokes}
use dexvm.Dex.Insn.Arith.{decode_unops, decode_binops}

module _ (insns : List ℕ) (pc : ℕ) where
  -- 0xfb to 0xff
  unfoldable pub decode_last : ℕ → Decoding
  decode_last word =
      match_on (op_of word)
        (from_to 0xfb 0xfc (fail (pc * 2) polymorphic_not_supported)
          ∷ from_to 0xfd 0xfe (fail (pc * 2) custom_not_supported)
          ∷ on 0xff (op2 insns pc (λ u. Insn.const_method_handle (a8 word) u))
          ∷ [])
        (unknown pc word)

  -- `decode` once its first unit is read.
  unfoldable pub decode_word : ℕ → Decoding
  decode_word word =
      match_on (op_of word)
        (from_to 0x00 0x11 (decode_moves insns pc word)
          ∷ from_to 0x12 0x1c (decode_consts insns pc word)
          ∷ from_to 0x1d 0x27 (decode_objects insns pc word)
          ∷ from_to 0x28 0x3d (decode_branches insns pc word)
          ∷ from_to 0x44 0x51 (decode_arrays insns pc word)
          ∷ from_to 0x52 0x6d (decode_fields insns pc word)
          ∷ from_to 0x6e 0x78 (decode_invokes insns pc word)
          ∷ from_to 0x7b 0x8f (decode_unops insns pc word)
          ∷ from_to 0x90 0xe2 (decode_binops insns pc word)
          ∷ from_to 0xfb 0xff (decode_last word)
          ∷ [])
        (unknown pc word)

  unfoldable pub decode : Decoding
  decode = do word ← unit_at insns pc (pc * 2) past_end_of_code; decode_word word

pub record Decoded : Type 0 where
  pub insns : List Insn
  pub units : List ℕ
  pub sizes : List ℕ
  pub words : ℕ

-- `skips.iter().find(|(start, _)| *start == pc)`
unfoldable pub find_skip : ℕ → List (ℕ × ℕ) → Option ℕ
find_skip pc [] = none
find_skip pc ((start, end) ∷ skips) = if start == pc then some end else find_skip pc skips

-- `if let Some(span) = payload_span(&insn) { skips.push(span) }`
abbrev pub push_span : List (ℕ × ℕ) → Option (ℕ × ℕ) → List (ℕ × ℕ)
push_span skips none = skips
push_span skips (some span) = skips ++ (span ∷ [])

-- The vectors `v`, `u` and `s` of the loop.
pub record Scanned : Type 0 where
  pub v : List Insn
  pub u : List ℕ
  pub s : List ℕ

module _ (insns : List ℕ) where
  -- What is pushed for the instruction that `decode` gave at `pc`.
  unfoldable pub push : Scanned → ℕ → Insn → ℕ → Scanned
  push a pc insn next = record {
    v = a.v ++ (insn ∷ []);
    u = a.u ++ (pc ∷ []);
    s = a.s ++ ((next - pc) ∷ []);
  }

  -- The loop, with fuel: a round skips the payload that starts at `pc`, or decodes there.
  unfoldable pub scan_loop : ℕ → ℕ → List (ℕ × ℕ) → Scanned → DexResult Scanned
  scan_loop zero pc skips a = if ltb pc (length insns) then stuck else ok a
  scan_loop (suc fuel) pc skips a = elim (ltb pc (length insns)) [
    | false ↦ ok a
    | true ↦ elim (find_skip pc skips) [
      | some end ↦ scan_loop fuel end skips a
      | none ↦ do
        (insn, next) ← decode insns pc
        scan_loop fuel next (push_span skips (payload_span insn)) (push a pc insn next)
    ]
  ]

  unfoldable pub decode_all : DexResult Decoded
  decode_all = do
    a ← scan_loop (length insns) 0 [] (record { v = []; u = []; s = [] })
    ok (record { insns = a.v; units = a.u; sizes = a.s; words = length insns })
