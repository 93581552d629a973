-- ===== src/Dex/Insn/Bounds/Data.antt =====
-- `decode` of src/dex/insn.rs keeps inside the code: the arms for arrays, fields, invokes
-- and arithmetic, and the last opcodes.
use dexvm.Prelude.{ℕ, ◌<◌, refl, arith, List, length}
use dexvm.Dex.Ensures.{fails}
use dexvm.Dex.Insn.Match.{match_rule, ◌&◌}
use dexvm.Dex.Insn.Basic.{op_of}
use dexvm.Dex.Insn.Payload.{payload_span}
use dexvm.Dex.Insn.Formats.{format_units, Decodes, arm1, arm2, range1, range2, unknown_lem}
use dexvm.Dex.Insn.Formats.{range3, range3_rev}
use dexvm.Dex.Insn.Access.{decode_arrays, decode_fields, decode_invokes}
use dexvm.Dex.Insn.Arith.{decode_unops, decode_binops}
use dexvm.Dex.Insn.Decode.{decode_last}

module _ (insns : List ℕ) (pc : ℕ) (inside : pc < length insns) (word : ℕ) where
  pub decode_arrays_lem : Decodes insns pc (op_of word) (decode_arrays insns pc word)
  unfolding decode_arrays format_units payload_span
  decode_arrays_lem =
      match_rule (Decodes insns pc) _ _ _
        (arm2 insns pc inside 0x44 _ refl (λ u. refl)
          & arm2 insns pc inside 0x45 _ refl (λ u. refl)
          & arm2 insns pc inside 0x46 _ refl (λ u. refl)
          & arm2 insns pc inside 0x47 _ refl (λ u. refl)
          & arm2 insns pc inside 0x48 _ refl (λ u. refl)
          & arm2 insns pc inside 0x49 _ refl (λ u. refl)
          & arm2 insns pc inside 0x4a _ refl (λ u. refl)
          & arm2 insns pc inside 0x4b _ refl (λ u. refl)
          & arm2 insns pc inside 0x4c _ refl (λ u. refl)
          & arm2 insns pc inside 0x4d _ refl (λ u. refl)
          & arm2 insns pc inside 0x4e _ refl (λ u. refl)
          & arm2 insns pc inside 0x4f _ refl (λ u. refl)
          & arm2 insns pc inside 0x50 _ refl (λ u. refl)
          & arm2 insns pc inside 0x51 _ refl (λ u. refl)
          & tt)
        (unknown_lem insns pc word (op_of word))

  pub decode_fields_lem : Decodes insns pc (op_of word) (decode_fields insns pc word)
  unfolding decode_fields format_units payload_span
  decode_fields_lem =
      match_rule (Decodes insns pc) _ _ _
        (arm2 insns pc inside 0x52 _ refl (λ u. refl)
          & arm2 insns pc inside 0x53 _ refl (λ u. refl)
          & arm2 insns pc inside 0x54 _ refl (λ u. refl)
          & range2 insns pc inside 0x55 0x58 _ (λ x lo hi. ground arith) (λ u. refl)
          & arm2 insns pc inside 0x59 _ refl (λ u. refl)
          & arm2 insns pc inside 0x5a _ refl (λ u. refl)
          & arm2 insns pc inside 0x5b _ refl (λ u. refl)
          & range2 insns pc inside 0x5c 0x5f _ (λ x lo hi. ground arith) (λ u. refl)
          & arm2 insns pc inside 0x60 _ refl (λ u. refl)
          & arm2 insns pc inside 0x61 _ refl (λ u. refl)
          & arm2 insns pc inside 0x62 _ refl (λ u. refl)
          & range2 insns pc inside 0x63 0x66 _ (λ x lo hi. ground arith) (λ u. refl)
          & arm2 insns pc inside 0x67 _ refl (λ u. refl)
          & arm2 insns pc inside 0x68 _ refl (λ u. refl)
          & arm2 insns pc inside 0x69 _ refl (λ u. refl)
          & range2 insns pc inside 0x6a 0x6d _ (λ x lo hi. ground arith) (λ u. refl)
          & tt)
        (unknown_lem insns pc word (op_of word))

  pub decode_invokes_lem : Decodes insns pc (op_of word) (decode_invokes insns pc word)
  unfolding decode_invokes format_units payload_span
  decode_invokes_lem =
      match_rule (Decodes insns pc) _ _ _
        (range3 insns pc inside 0x6e 0x72 _ (λ x lo hi. ground arith) (λ u v. refl)
          & range3_rev insns pc inside 0x74 0x78 _ (λ x lo hi. ground arith) (λ u v. refl)
          & tt)
        (unknown_lem insns pc word (op_of word))

  pub decode_unops_lem : Decodes insns pc (op_of word) (decode_unops insns pc word)
  unfolding decode_unops format_units payload_span
  decode_unops_lem =
      match_rule (Decodes insns pc) _ _ _
        (arm1 insns pc inside 0x7b _ refl refl
          & arm1 insns pc inside 0x7c _ refl refl
          & arm1 insns pc inside 0x7d _ refl refl
          & arm1 insns pc inside 0x7e _ refl refl
          & arm1 insns pc inside 0x7f _ refl refl
          & arm1 insns pc inside 0x80 _ refl refl
          & arm1 insns pc inside 0x81 _ refl refl
          & arm1 insns pc inside 0x82 _ refl refl
          & arm1 insns pc inside 0x83 _ refl refl
          & arm1 insns pc inside 0x84 _ refl refl
          & arm1 insns pc inside 0x85 _ refl refl
          & arm1 insns pc inside 0x86 _ refl refl
          & arm1 insns pc inside 0x87 _ refl refl
          & arm1 insns pc inside 0x88 _ refl refl
          & arm1 insns pc inside 0x89 _ refl refl
          & arm1 insns pc inside 0x8a _ refl refl
          & arm1 insns pc inside 0x8b _ refl refl
          & arm1 insns pc inside 0x8c _ refl refl
          & arm1 insns pc inside 0x8d _ refl refl
          & arm1 insns pc inside 0x8e _ refl refl
          & arm1 insns pc inside 0x8f _ refl refl
          & tt)
        (unknown_lem insns pc word (op_of word))

  pub decode_binops_lem : Decodes insns pc (op_of word) (decode_binops insns pc word)
  unfolding decode_binops format_units payload_span
  decode_binops_lem =
      match_rule (Decodes insns pc) _ _ _
        (range2 insns pc inside 0x90 0xaf _ (λ x lo hi. ground arith) (λ u. refl)
          & range1 insns pc inside 0xb0 0xcf _ (λ x lo hi. ground arith) refl
          & range2 insns pc inside 0xd0 0xd7 _ (λ x lo hi. ground arith) (λ u. refl)
          & range2 insns pc inside 0xd8 0xe2 _ (λ x lo hi. ground arith) (λ u. refl)
          & tt)
        (unknown_lem insns pc word (op_of word))

  pub decode_last_lem : Decodes insns pc (op_of word) (decode_last insns pc word)
  unfolding decode_last format_units payload_span
  decode_last_lem =
      match_rule (Decodes insns pc) _ _ _
        ((λ x lo hi. fails)
          & (λ x lo hi. fails)
          & arm2 insns pc inside 0xff _ refl (λ u. refl)
          & tt)
        (unknown_lem insns pc word (op_of word))
