-- ===== src/Dex/Insn/Bounds/Control.antt =====
-- `decode` of src/dex/insn.rs keeps inside the code: the arms up to the branches.
use dexvm.Prelude.{ℕ, ◌+◌, ◌≤◌, ◌<◌, ◌≡◌, refl, arith, List, length}
use dexvm.Dex.Ensures.{Ensures, returns, Ensures-bind, unit_at_lem}
use dexvm.Dex.Insn.Match.{match_rule, ◌&◌}
use dexvm.Dex.Insn.Basic.{op_of}
use dexvm.Dex.Insn.Payload.{payload_span}
use dexvm.Dex.Insn.Spans.{decode_packed_lem, decode_sparse_lem, decode_fill_array_data_lem}
use dexvm.Dex.Insn.Units.{w, offset32}
use dexvm.Dex.Insn.Formats.{format_units, Decodes, arm1, arm2, arm3, arm3_rev, range2, unknown_lem}
use dexvm.Dex.Insn.Control.{decode_moves, decode_consts, decode_objects, decode_branches}
use dexvm.Dex.Insn.Control.{decode_const_wide, decode_fill_array, decode_packed_switch}
use dexvm.Dex.Insn.Control.{decode_sparse_switch}

module _ (insns : List ℕ) (pc : ℕ) (inside : pc < length insns) (word : ℕ) where
  offset32_lem : Ensures (λ off. pc + 2 < length insns) (offset32 insns pc)
  unfolding w
  offset32_lem =
      Ensures-bind (unit_at_lem insns (pc + 1) _ _)
        λ lo _. Ensures-bind (unit_at_lem insns (pc + 2) _ _) λ hi h. returns h

  decode_const_wide_lem :
      (x : ℕ) → 0x18 ≤ x → x ≤ 0x18 → Decodes insns pc x (decode_const_wide insns pc word)
  unfolding decode_const_wide w format_units payload_span
  decode_const_wide_lem x lo hi =
      let q : x ≡ 0x18 = omega arith in
      Ensures-bind (unit_at_lem insns (pc + 1) _ _) λ u1 _.
        Ensures-bind (unit_at_lem insns (pc + 2) _ _) λ u2 _.
          Ensures-bind (unit_at_lem insns (pc + 3) _ _) λ u3 _.
            Ensures-bind (unit_at_lem insns (pc + 4) _ _)
              λ u4 h. returns (rw q (refl, omega arith, tt))

  -- The instructions with a payload: the offset is read from two units, then the payload.
  decode_fill_array_lem :
      (x : ℕ) → 0x26 ≤ x → x ≤ 0x26 → Decodes insns pc x (decode_fill_array insns pc word)
  unfolding decode_fill_array w format_units payload_span
  decode_fill_array_lem x lo hi =
      let q : x ≡ 0x26 = omega arith in
      Ensures-bind offset32_lem λ off h.
        Ensures-bind (decode_fill_array_data_lem insns _)
          λ d span. returns (rw q (refl, omega arith, (omega arith, span)))

  decode_packed_switch_lem :
      (x : ℕ) → 0x2b ≤ x → x ≤ 0x2b → Decodes insns pc x (decode_packed_switch insns pc word)
  unfolding decode_packed_switch w format_units
  decode_packed_switch_lem x lo hi =
      let q : x ≡ 0x2b = omega arith in
      Ensures-bind offset32_lem λ off h.
        Ensures-bind (decode_packed_lem insns _ pc _)
          λ i span. returns (rw q (refl, omega arith, span))

  decode_sparse_switch_lem :
      (x : ℕ) → 0x2c ≤ x → x ≤ 0x2c → Decodes insns pc x (decode_sparse_switch insns pc word)
  unfolding decode_sparse_switch w format_units
  decode_sparse_switch_lem x lo hi =
      let q : x ≡ 0x2c = omega arith in
      Ensures-bind offset32_lem λ off h.
        Ensures-bind (decode_sparse_lem insns _ pc _)
          λ i span. returns (rw q (refl, omega arith, span))

  pub decode_moves_lem : Decodes insns pc (op_of word) (decode_moves insns pc word)
  unfolding decode_moves format_units payload_span
  decode_moves_lem =
      match_rule (Decodes insns pc) _ _ _
        (arm1 insns pc inside 0x00 _ refl refl
          & arm1 insns pc inside 0x01 _ refl refl
          & arm2 insns pc inside 0x02 _ refl (λ u. refl)
          & arm3_rev insns pc inside 0x03 _ refl (λ u v. refl)
          & arm1 insns pc inside 0x04 _ refl refl
          & arm2 insns pc inside 0x05 _ refl (λ u. refl)
          & arm3_rev insns pc inside 0x06 _ refl (λ u v. refl)
          & arm1 insns pc inside 0x07 _ refl refl
          & arm2 insns pc inside 0x08 _ refl (λ u. refl)
          & arm3_rev insns pc inside 0x09 _ refl (λ u v. refl)
          & arm1 insns pc inside 0x0a _ refl refl
          & arm1 insns pc inside 0x0b _ refl refl
          & arm1 insns pc inside 0x0c _ refl refl
          & arm1 insns pc inside 0x0d _ refl refl
          & arm1 insns pc inside 0x0e _ refl refl
          & arm1 insns pc inside 0x0f _ refl refl
          & arm1 insns pc inside 0x10 _ refl refl
          & arm1 insns pc inside 0x11 _ refl refl
          & tt)
        (unknown_lem insns pc word (op_of word))

  pub decode_consts_lem : Decodes insns pc (op_of word) (decode_consts insns pc word)
  unfolding decode_consts format_units payload_span
  decode_consts_lem =
      match_rule (Decodes insns pc) _ _ _
        (arm1 insns pc inside 0x12 _ refl refl
          & arm2 insns pc inside 0x13 _ refl (λ u. refl)
          & arm3 insns pc inside 0x14 _ refl (λ u v. refl)
          & arm2 insns pc inside 0x15 _ refl (λ u. refl)
          & arm2 insns pc inside 0x16 _ refl (λ u. refl)
          & arm3 insns pc inside 0x17 _ refl (λ u v. refl)
          & (λ x lo hi. decode_const_wide_lem x lo hi)
          & arm2 insns pc inside 0x19 _ refl (λ u. refl)
          & arm2 insns pc inside 0x1a _ refl (λ u. refl)
          & arm3 insns pc inside 0x1b _ refl (λ u v. refl)
          & arm2 insns pc inside 0x1c _ refl (λ u. refl)
          & tt)
        (unknown_lem insns pc word (op_of word))

  pub decode_objects_lem : Decodes insns pc (op_of word) (decode_objects insns pc word)
  unfolding decode_objects format_units payload_span
  decode_objects_lem =
      match_rule (Decodes insns pc) _ _ _
        (arm1 insns pc inside 0x1d _ refl refl
          & arm1 insns pc inside 0x1e _ refl refl
          & arm2 insns pc inside 0x1f _ refl (λ u. refl)
          & arm2 insns pc inside 0x20 _ refl (λ u. refl)
          & arm1 insns pc inside 0x21 _ refl refl
          & arm2 insns pc inside 0x22 _ refl (λ u. refl)
          & arm2 insns pc inside 0x23 _ refl (λ u. refl)
          & arm3 insns pc inside 0x24 _ refl (λ u v. refl)
          & arm3_rev insns pc inside 0x25 _ refl (λ u v. refl)
          & (λ x lo hi. decode_fill_array_lem x lo hi)
          & arm1 insns pc inside 0x27 _ refl refl
          & tt)
        (unknown_lem insns pc word (op_of word))

  pub decode_branches_lem : Decodes insns pc (op_of word) (decode_branches insns pc word)
  unfolding decode_branches format_units payload_span
  decode_branches_lem =
      match_rule (Decodes insns pc) _ _ _
        (arm1 insns pc inside 0x28 _ refl refl
          & arm2 insns pc inside 0x29 _ refl (λ u. refl)
          & arm3 insns pc inside 0x2a _ refl (λ u v. refl)
          & (λ x lo hi. decode_packed_switch_lem x lo hi)
          & (λ x lo hi. decode_sparse_switch_lem x lo hi)
          & range2 insns pc inside 0x2d 0x31 _ (λ x lo hi. ground arith) (λ u. refl)
          & range2 insns pc inside 0x32 0x37 _ (λ x lo hi. ground arith) (λ u. refl)
          & range2 insns pc inside 0x38 0x3d _ (λ x lo hi. ground arith) (λ u. refl)
          & tt)
        (unknown_lem insns pc word (op_of word))
