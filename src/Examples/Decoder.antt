-- ===== src/Examples/Decoder.antt =====
-- Runs of src/dex/read.rs and src/dex/insn.rs.
use dexvm.Prelude.{ℕ, ◌≡◌, refl, arith, List, [], ◌∷◌, ok}
use dexvm.Dex.Cursor.{Cursor, uleb128, sleb128}
use dexvm.Dex.Cursor.Leb.{LebBounds, leb128-LebBounds}
use dexvm.Dex.Cursor.LebRead.{uleb128_bytes, uleb128-uleb128_bytes, moved}
use dexvm.Dex.Cursor.SlebRead.{sleb128_bytes, sleb128-sleb128_bytes}
use dexvm.Dex.Insn.{Insn}
use dexvm.Dex.Insn.Match.{match_on}
use dexvm.Dex.Insn.Units.{w, tgt, op1, op2}
use dexvm.Dex.Insn.Payload.{decode_packed, packed_table, packed_targets, payload_span}
use dexvm.Dex.Insn.Basic.{op_of}
use dexvm.Dex.Insn.Control.{decode_consts, decode_branches, decode_moves, decode_packed_switch}
use dexvm.Dex.Insn.Decode.{decode, decode_word, decode_all, scan_loop, find_skip, push}
use dexvm.Dex.Insn.Formats.{Decodes}
use dexvm.Dex.Insn.Bounds.{decode-Decodes}
use dexvm.Dex.Insn.Tiling.{Tiles}
use dexvm.Dex.Insn.Tiling.Whole.{decode_all-Tiles}

-- const/4 v0, -1
decode-const4 : decode (0xf012 ∷ []) 0 ≡ ok (Insn.const4 0 255, 1)
unfolding decode decode_word match_on decode_consts op1
decode-const4 = refl

-- const/16 v0, 5; packed-switch v0 with one target; return-void; the table of the switch.
abbrev program : List ℕ
program = 0x0013 ∷ 5 ∷ 0x002b ∷ 4 ∷ 0 ∷ 0x0e ∷ 0x0100 ∷ 1 ∷ 7 ∷ 0 ∷ 3 ∷ 0 ∷ []

decode_all-program :
    decode_all program
    ≡ ok (record {
      insns = Insn.const16 0 5 ∷ Insn.packed_switch 0 6 7 (5 ∷ []) ∷ Insn.return_void ∷ [];
      units = 0 ∷ 2 ∷ 5 ∷ [];
      sizes = 2 ∷ 3 ∷ 1 ∷ [];
      words = 12;
    })
unfolding decode_all scan_loop decode decode_word match_on decode_consts decode_branches
    decode_moves decode_packed_switch decode_packed packed_table packed_targets op1 op2 w tgt
    find_skip push payload_span
decode_all-program = refl

-- packed-switch v0, whose table is cut off behind its header.
abbrev cut_program : List ℕ
cut_program = 0x0e ∷ 0x002b ∷ 3 ∷ 0 ∷ 0x0100 ∷ []

decode_all-Tiles_example :
    Tiles program (decode_all program) × Tiles cut_program (decode_all cut_program)
decode_all-Tiles_example = (decode_all-Tiles program, decode_all-Tiles cut_program)

decode-Decodes_example : Decodes program 2 (op_of 0x002b) (decode program 2)
decode-Decodes_example = decode-Decodes program 2 0x002b refl

abbrev cursor : List ℕ → Cursor
cursor buffer = record { data_bytes = buffer; pos = 0 }

leb128-LebBounds_example :
    LebBounds (cursor (0xff ∷ 0xff ∷ [])) 4 (uleb128 (cursor (0xff ∷ 0xff ∷ [])))
    × LebBounds (cursor (0xff ∷ 0xff ∷ [])) 4 (sleb128 (cursor (0xff ∷ 0xff ∷ [])))
leb128-LebBounds_example =
    leb128-LebBounds (cursor (0xff ∷ 0xff ∷ [])) (omega arith, (omega arith, tt))

uleb128-uleb128_bytes_example :
    uleb128 (cursor (0xac ∷ 0x02 ∷ [])) ≡ (ok 300, moved (cursor (0xac ∷ 0x02 ∷ [])) 2)
unfolding uleb128_bytes
uleb128-uleb128_bytes_example =
    uleb128-uleb128_bytes (cursor (0xac ∷ 0x02 ∷ [])) 300 (omega arith) (refl, (refl, tt))

sleb128-sleb128_bytes_example :
    sleb128 (cursor (0x7f ∷ [])) ≡ (ok 0xffffffff, moved (cursor (0x7f ∷ [])) 1)
unfolding sleb128_bytes
sleb128-sleb128_bytes_example =
    sleb128-sleb128_bytes (cursor (0x7f ∷ [])) 0xffffffff (omega arith) (refl, tt)
