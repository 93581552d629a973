-- ===== src/Dex/Insn/Control.antt =====
-- The arms of `decode` of src/dex/insn.rs up to the branches, in groups of consecutive opcodes. An arm
-- that reads `w1()?` twice reads the same unit.
use Prim.Native.Nat.{bit_or}
use dexvm.Prelude.{ℕ, ◌+◌, ◌*◌, ◌%◌, ◌^◌, List, [], ◌∷◌, ok}
use dexvm.Dex.Error.{◌>>=◌}
use dexvm.Dex.Insn.{Insn, CmpOp, IfOp}
use dexvm.Dex.Insn.Match.{match_on, on, from_to}
use dexvm.Dex.Insn.Basic.{op_of, a4, b4, a8, lo8, hi8, args_35c, args_range, unknown}
use dexvm.Dex.Insn.Units.{Decoding, sext, join16, w, tgt, offset32, op1, op2, op3, op3_rev}
use dexvm.Dex.Insn.Payload.{decode_packed, decode_sparse, decode_fill_array_data}

-- 64-bit literals from their units, lowest first: `i64::from(u) << 16 * i`, joined by `|`.
abbrev pub join32 : ℕ → ℕ → ℕ
join32 u0 u1 = bit_or u0 (u1 * 2 ^ 16)

abbrev pub join64 : ℕ → ℕ → ℕ → ℕ → ℕ
join64 u0 u1 u2 u3 = bit_or (bit_or (join32 u0 u1) (u2 * 2 ^ 32)) (u3 * 2 ^ 48)

-- The comparison of 0x2d to 0x31, and the tests of 0x32 to 0x3d.
unfoldable pub cmp_op : ℕ → CmpOp
cmp_op op =
    match_on op
      (on 0x2d CmpOp.cmpl_float
        ∷ on 0x2e CmpOp.cmpg_float
        ∷ on 0x2f CmpOp.cmpl_double
        ∷ on 0x30 CmpOp.cmpg_double
        ∷ [])
      CmpOp.cmp_long

unfoldable pub if_op : ℕ → IfOp
if_op op =
    match_on op
      (on 0x32 IfOp.eq ∷ on 0x33 IfOp.ne ∷ on 0x34 IfOp.lt ∷ on 0x35 IfOp.ge ∷ on 0x36 IfOp.gt ∷ [])
      IfOp.le

unfoldable pub if_z_op : ℕ → IfOp
if_z_op op =
    match_on op
      (on 0x38 IfOp.ez
        ∷ on 0x39 IfOp.nz
        ∷ on 0x3a IfOp.ltz
        ∷ on 0x3b IfOp.gez
        ∷ on 0x3c IfOp.gtz
        ∷ [])
      IfOp.lez

module _ (insns : List ℕ) (pc word : ℕ) where
  -- 0x00 to 0x11: moves and returns
  unfoldable pub decode_moves : Decoding
  decode_moves =
      match_on (op_of word)
        (on 0x00 (op1 insns pc Insn.nop)
          ∷ on 0x01 (op1 insns pc (Insn.move (a4 word) (b4 word)))
          ∷ on 0x02 (op2 insns pc (λ u. Insn.move (a8 word) u))
          ∷ on 0x03 (op3_rev insns pc (λ u2 u1. Insn.move (lo8 u2) u1))
          ∷ on 0x04 (op1 insns pc (Insn.move_wide (a4 word) (b4 word)))
          ∷ on 0x05 (op2 insns pc (λ u. Insn.move_wide (a8 word) u))
          ∷ on 0x06 (op3_rev insns pc (λ u2 u1. Insn.move_wide (lo8 u2) u1))
          ∷ on 0x07 (op1 insns pc (Insn.move (a4 word) (b4 word)))
          ∷ on 0x08 (op2 insns pc (λ u. Insn.move (a8 word) u))
          ∷ on 0x09 (op3_rev insns pc (λ u2 u1. Insn.move (lo8 u2) u1))
          ∷ on 0x0a (op1 insns pc (Insn.move_result (a8 word)))
          ∷ on 0x0b (op1 insns pc (Insn.move_result_wide (a8 word)))
          ∷ on 0x0c (op1 insns pc (Insn.move_result (a8 word)))
          ∷ on 0x0d (op1 insns pc (Insn.move_exception (a8 word)))
          ∷ on 0x0e (op1 insns pc Insn.return_void)
          ∷ on 0x0f (op1 insns pc (Insn.return (a8 word)))
          ∷ on 0x10 (op1 insns pc (Insn.return_wide (a8 word)))
          ∷ on 0x11 (op1 insns pc (Insn.return (a8 word)))
          ∷ [])
        (unknown pc word)

  -- 0x18: `const-wide`, five units
  unfoldable pub decode_const_wide : Decoding
  decode_const_wide = do
    u1 ← w insns pc 1
    u2 ← w insns pc 2
    u3 ← w insns pc 3
    u4 ← w insns pc 4
    ok (Insn.const_wide (a8 word) (join64 u1 u2 u3 u4), pc + 5)

  -- 0x12 to 0x1c: constants
  unfoldable pub decode_consts : Decoding
  decode_consts =
      match_on (op_of word)
        (on 0x12 (op1 insns pc (Insn.const4 (a4 word) (sext 4 8 (b4 word))))
          ∷ on 0x13 (op2 insns pc (λ u. Insn.const16 (a8 word) u))
          ∷ on 0x14 (op3 insns pc (λ u1 u2. Insn.const (a8 word) (join16 u1 u2)))
          ∷ on 0x15
              (op2 insns pc (λ u. Insn.const_high16 (a8 word) (sext 16 32 u * 2 ^ 16 % 2 ^ 32)))
          ∷ on 0x16 (op2 insns pc (λ u. Insn.const_wide16 (a8 word) (sext 16 64 u)))
          ∷ on 0x17 (op3 insns pc (λ u1 u2. Insn.const_wide32 (a8 word) (join32 u1 u2)))
          ∷ on 0x18 decode_const_wide
          ∷ on 0x19 (
              op2 insns pc (λ u. Insn.const_wide_high16 (a8 word) (sext 16 64 u * 2 ^ 48 % 2 ^ 64)))
          ∷ on 0x1a (op2 insns pc (λ u. Insn.const_string (a8 word) u))
          ∷ on 0x1b (op3 insns pc (λ u1 u2. Insn.const_string_jumbo (a8 word) (join16 u1 u2)))
          ∷ on 0x1c (op2 insns pc (λ u. Insn.const_class (a8 word) u))
          ∷ [])
        (unknown pc word)

  -- 0x26: the payload is read as the instruction is decoded.
  unfoldable pub decode_fill_array : Decoding
  decode_fill_array = do
    off ← offset32 insns pc
    data_read ← decode_fill_array_data insns (tgt insns pc off)
    ok (Insn.fill_array_data (a8 word) (tgt insns pc off) data_read, pc + 3)

  -- 0x1d to 0x27: monitors, casts, allocation, `throw`
  unfoldable pub decode_objects : Decoding
  decode_objects =
      match_on (op_of word)
        (on 0x1d (op1 insns pc (Insn.monitor_enter (a8 word)))
          ∷ on 0x1e (op1 insns pc (Insn.monitor_exit (a8 word)))
          ∷ on 0x1f (op2 insns pc (λ u. Insn.check_cast (a8 word) u))
          ∷ on 0x20 (op2 insns pc (λ u. Insn.instance_of (a4 word) (b4 word) (lo8 u)))
          ∷ on 0x21 (op1 insns pc (Insn.array_length (a4 word) (b4 word)))
          ∷ on 0x22 (op2 insns pc (λ u. Insn.new_instance (a8 word) u))
          ∷ on 0x23 (op2 insns pc (λ u. Insn.new_array (a4 word) (b4 word) u))
          ∷ on 0x24 (op3 insns pc (λ u1 u2. Insn.filled_new_array (args_35c word u2) u1))
          ∷ on 0x25 (op3_rev insns pc (λ u2 u1. Insn.filled_new_array (args_range word u2) u1))
          ∷ on 0x26 decode_fill_array
          ∷ on 0x27 (op1 insns pc (Insn.throw (a8 word)))
          ∷ [])
        (unknown pc word)

  -- 0x2b and 0x2c
  unfoldable pub decode_packed_switch : Decoding
  decode_packed_switch = do
    off ← offset32 insns pc
    i ← decode_packed insns (tgt insns pc off) pc (a8 word)
    ok (i, pc + 3)

  unfoldable pub decode_sparse_switch : Decoding
  decode_sparse_switch = do
    off ← offset32 insns pc
    i ← decode_sparse insns (tgt insns pc off) pc (a8 word)
    ok (i, pc + 3)

  -- 0x28 to 0x3d: jumps, switches, comparisons and branches
  unfoldable pub decode_branches : Decoding
  decode_branches =
      match_on (op_of word)
        (on 0x28 (op1 insns pc (Insn.goto (tgt insns pc (sext 8 32 (a8 word)))))
          ∷ on 0x29 (op2 insns pc (λ u. Insn.goto (tgt insns pc (sext 16 32 u))))
          ∷ on 0x2a (op3 insns pc (λ u1 u2. Insn.goto (tgt insns pc (join16 u1 u2))))
          ∷ on 0x2b decode_packed_switch
          ∷ on 0x2c decode_sparse_switch
          ∷ from_to 0x2d 0x31
              (op2 insns pc (λ u. Insn.cmp (cmp_op (op_of word)) (a8 word) (lo8 u) (hi8 u)))
          ∷ from_to 0x32 0x37 (
              op2 insns pc (λ u.
                Insn.if_two (if_op (op_of word)) (a4 word) (b4 word) (tgt insns pc (sext 16 32 u))))
          ∷ from_to 0x38 0x3d (
              op2 insns pc
                (λ u. Insn.if_z (if_z_op (op_of word)) (a8 word) (tgt insns pc (sext 16 32 u))))
          ∷ [])
        (unknown pc word)
