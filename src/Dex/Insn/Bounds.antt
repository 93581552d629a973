-- ===== src/Dex/Insn/Bounds.antt =====
-- `decode` of src/dex/insn.rs keeps inside the code.
mod Control
mod Data
use dexvm.Prelude.{
  ℕ, ◌+◌, ◌≤◌, ◌<◌, ◌≡◌, refl, arith, List, length, some, get_elem?, lt-length_of_get_elem?,
}
use dexvm.Dex.Ensures.{Ensures, returns, fails, Ensures-bind, Ensures-mono, unit_at_lem}
use dexvm.Dex.Insn.Match.{match_rule, ◌&◌}
use dexvm.Dex.Insn.Basic.{op_of, unknown}
use dexvm.Dex.Insn.Payload.{payload_span}
use dexvm.Dex.Insn.Spans.{decode_packed_lem, decode_sparse_lem, decode_fill_array_data_lem}
use dexvm.Dex.Insn.Units.{w, offset32}
use dexvm.Dex.Insn.Formats.{
  format_units, Decodes, arm1, arm2, arm3, arm3_rev, range1, range2, unknown_lem,
}
use dexvm.Dex.Insn.Formats.{range3, range3_rev}
use dexvm.Dex.Insn.Control.{decode_moves, decode_consts, decode_objects, decode_branches}
use dexvm.Dex.Insn.Control.{decode_const_wide, decode_fill_array, decode_packed_switch}
use dexvm.Dex.Insn.Control.{decode_sparse_switch}
use dexvm.Dex.Insn.Access.{decode_arrays, decode_fields, decode_invokes}
use dexvm.Dex.Insn.Arith.{decode_unops, decode_binops}
use dexvm.Dex.Insn.Decode.{decode_last, decode_word, decode}
use Control.{decode_moves_lem, decode_consts_lem, decode_objects_lem, decode_branches_lem}
use Data.{decode_arrays_lem, decode_fields_lem, decode_invokes_lem, decode_unops_lem}
use Data.{decode_binops_lem, decode_last_lem}

module _ (insns : List ℕ) (pc : ℕ) (inside : pc < length insns) (word : ℕ) where
  decode_word_lem : Decodes insns pc (op_of word) (decode_word insns pc word)
  unfolding decode_word
  decode_word_lem =
      match_rule (λ op r. op ≡ op_of word → Decodes insns pc (op_of word) r) _ _ _
        ((λ x lo hi e. decode_moves_lem insns pc inside word)
          & (λ x lo hi e. decode_consts_lem insns pc inside word)
          & (λ x lo hi e. decode_objects_lem insns pc inside word)
          & (λ x lo hi e. decode_branches_lem insns pc inside word)
          & (λ x lo hi e. decode_arrays_lem insns pc inside word)
          & (λ x lo hi e. decode_fields_lem insns pc inside word)
          & (λ x lo hi e. decode_invokes_lem insns pc inside word)
          & (λ x lo hi e. decode_unops_lem insns pc inside word)
          & (λ x lo hi e. decode_binops_lem insns pc inside word)
          & (λ x lo hi e. decode_last_lem insns pc inside word)
          & tt)
        (λ e. unknown_lem insns pc word (op_of word)) refl

-- At a place inside the code, `decode` gives an instruction or an error. An instruction has the width
-- that the DEX format gives its opcode, it lies inside the code with all its units, and so does the
-- payload of a switch or of an array, which is not empty.
pub decode-Decodes :
    (insns : List ℕ) (pc word : ℕ)
    → get_elem? insns pc ≡ some word
    → Decodes insns pc (op_of word) (decode insns pc)
unfolding decode
decode-Decodes insns pc word there =
    rw there (decode_word_lem insns pc (lt-length_of_get_elem? insns pc there) word)
