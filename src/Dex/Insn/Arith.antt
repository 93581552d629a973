-- ===== src/Dex/Insn/Arith.antt =====
-- The arms of `decode` of src/dex/insn.rs for arithmetic.
use dexvm.Prelude.{ℕ, List, [], ◌∷◌}
use dexvm.Dex.Insn.{Insn, Unop, Binop, LitOp}
use dexvm.Dex.Insn.Match.{match_on, on, from_to}
use dexvm.Dex.Insn.Basic.{op_of, a4, b4, a8, lo8, hi8, unknown}
use dexvm.Dex.Insn.Units.{Decoding, sext, op1, op2}

-- The operation of 0x90 to 0xaf, and of the forms with two addresses, 0xb0 to 0xcf.
unfoldable pub binop_23x : ℕ → Binop
binop_23x op =
    match_on op
      (on 0x90 Binop.add
        ∷ on 0x9b Binop.add
        ∷ on 0xa6 Binop.add
        ∷ on 0xab Binop.add
        ∷ on 0x91 Binop.sub
        ∷ on 0x9c Binop.sub
        ∷ on 0xa7 Binop.sub
        ∷ on 0xac Binop.sub
        ∷ on 0x92 Binop.mul
        ∷ on 0x9d Binop.mul
        ∷ on 0xa8 Binop.mul
        ∷ on 0xad Binop.mul
        ∷ on 0x93 Binop.div
        ∷ on 0x9e Binop.div
        ∷ on 0xa9 Binop.div
        ∷ on 0xae Binop.div
        ∷ on 0x94 Binop.rem
        ∷ on 0x9f Binop.rem
        ∷ on 0xaa Binop.rem
        ∷ on 0xaf Binop.rem
        ∷ on 0x95 Binop.and
        ∷ on 0xa0 Binop.and
        ∷ on 0x96 Binop.or
        ∷ on 0xa1 Binop.or
        ∷ on 0x97 Binop.xor
        ∷ on 0xa2 Binop.xor
        ∷ on 0x98 Binop.shl
        ∷ on 0xa3 Binop.shl
        ∷ on 0x99 Binop.shr
        ∷ on 0xa4 Binop.shr
        ∷ [])
      Binop.ushr

unfoldable pub binop_2addr : ℕ → Binop
binop_2addr op =
    match_on op
      (on 0xb0 Binop.add
        ∷ on 0xbb Binop.add
        ∷ on 0xc6 Binop.add
        ∷ on 0xcb Binop.add
        ∷ on 0xb1 Binop.sub
        ∷ on 0xbc Binop.sub
        ∷ on 0xc7 Binop.sub
        ∷ on 0xcc Binop.sub
        ∷ on 0xb2 Binop.mul
        ∷ on 0xbd Binop.mul
        ∷ on 0xc8 Binop.mul
        ∷ on 0xcd Binop.mul
        ∷ on 0xb3 Binop.div
        ∷ on 0xbe Binop.div
        ∷ on 0xc9 Binop.div
        ∷ on 0xce Binop.div
        ∷ on 0xb4 Binop.rem
        ∷ on 0xbf Binop.rem
        ∷ on 0xca Binop.rem
        ∷ on 0xcf Binop.rem
        ∷ on 0xb5 Binop.and
        ∷ on 0xc0 Binop.and
        ∷ on 0xb6 Binop.or
        ∷ on 0xc1 Binop.or
        ∷ on 0xb7 Binop.xor
        ∷ on 0xc2 Binop.xor
        ∷ on 0xb8 Binop.shl
        ∷ on 0xc3 Binop.shl
        ∷ on 0xb9 Binop.shr
        ∷ on 0xc4 Binop.shr
        ∷ [])
      Binop.ushr

-- The operation of 0xd0 to 0xd7, and of 0xd8 to 0xe2.
unfoldable pub lit16_op : ℕ → LitOp
lit16_op op =
    match_on op
      (on 0xd0 (LitOp.bin Binop.add)
        ∷ on 0xd1 LitOp.rsub
        ∷ on 0xd2 (LitOp.bin Binop.mul)
        ∷ on 0xd3 (LitOp.bin Binop.div)
        ∷ on 0xd4 (LitOp.bin Binop.rem)
        ∷ on 0xd5 (LitOp.bin Binop.and)
        ∷ on 0xd6 (LitOp.bin Binop.or)
        ∷ [])
      (LitOp.bin Binop.xor)

unfoldable pub lit8_op : ℕ → LitOp
lit8_op op =
    match_on op
      (on 0xd8 (LitOp.bin Binop.add)
        ∷ on 0xd9 LitOp.rsub
        ∷ on 0xda (LitOp.bin Binop.mul)
        ∷ on 0xdb (LitOp.bin Binop.div)
        ∷ on 0xdc (LitOp.bin Binop.rem)
        ∷ on 0xdd (LitOp.bin Binop.and)
        ∷ on 0xde (LitOp.bin Binop.or)
        ∷ on 0xdf (LitOp.bin Binop.xor)
        ∷ on 0xe0 (LitOp.bin Binop.shl)
        ∷ on 0xe1 (LitOp.bin Binop.shr)
        ∷ [])
      (LitOp.bin Binop.ushr)

module _ (insns : List ℕ) (pc word : ℕ) where
  -- 0x7b to 0x8f
  unfoldable pub decode_unops : Decoding
  decode_unops =
      match_on (op_of word)
        (on 0x7b (op1 insns pc (Insn.unop Unop.neg_int (a4 word) (b4 word)))
          ∷ on 0x7c (op1 insns pc (Insn.unop Unop.not_int (a4 word) (b4 word)))
          ∷ on 0x7d (op1 insns pc (Insn.unop Unop.neg_long (a4 word) (b4 word)))
          ∷ on 0x7e (op1 insns pc (Insn.unop Unop.not_long (a4 word) (b4 word)))
          ∷ on 0x7f (op1 insns pc (Insn.unop Unop.neg_float (a4 word) (b4 word)))
          ∷ on 0x80 (op1 insns pc (Insn.unop Unop.neg_double (a4 word) (b4 word)))
          ∷ on 0x81 (op1 insns pc (Insn.unop Unop.int_to_long (a4 word) (b4 word)))
          ∷ on 0x82 (op1 insns pc (Insn.unop Unop.int_to_float (a4 word) (b4 word)))
          ∷ on 0x83 (op1 insns pc (Insn.unop Unop.int_to_double (a4 word) (b4 word)))
          ∷ on 0x84 (op1 insns pc (Insn.unop Unop.long_to_int (a4 word) (b4 word)))
          ∷ on 0x85 (op1 insns pc (Insn.unop Unop.long_to_float (a4 word) (b4 word)))
          ∷ on 0x86 (op1 insns pc (Insn.unop Unop.long_to_double (a4 word) (b4 word)))
          ∷ on 0x87 (op1 insns pc (Insn.unop Unop.float_to_int (a4 word) (b4 word)))
          ∷ on 0x88 (op1 insns pc (Insn.unop Unop.float_to_long (a4 word) (b4 word)))
          ∷ on 0x89 (op1 insns pc (Insn.unop Unop.float_to_double (a4 word) (b4 word)))
          ∷ on 0x8a (op1 insns pc (Insn.unop Unop.double_to_int (a4 word) (b4 word)))
          ∷ on 0x8b (op1 insns pc (Insn.unop Unop.double_to_long (a4 word) (b4 word)))
          ∷ on 0x8c (op1 insns pc (Insn.unop Unop.double_to_float (a4 word) (b4 word)))
          ∷ on 0x8d (op1 insns pc (Insn.unop Unop.int_to_byte (a4 word) (b4 word)))
          ∷ on 0x8e (op1 insns pc (Insn.unop Unop.int_to_char (a4 word) (b4 word)))
          ∷ on 0x8f (op1 insns pc (Insn.unop Unop.int_to_short (a4 word) (b4 word)))
          ∷ [])
        (unknown pc word)

  -- 0x90 to 0xe2: operations on registers and on literals
  unfoldable pub decode_binops : Decoding
  decode_binops =
      match_on (op_of word)
        (from_to 0x90 0xaf
            (op2 insns pc (λ u. Insn.binop (binop_23x (op_of word)) (a8 word) (lo8 u) (hi8 u)))
          ∷ from_to 0xb0 0xcf
              (op1 insns pc (Insn.binop (binop_2addr (op_of word)) (a4 word) (a4 word) (b4 word)))
          ∷ from_to 0xd0 0xd7 (
              op2 insns pc
                (λ u. Insn.binop_lit (lit16_op (op_of word)) (a4 word) (b4 word) (sext 16 32 u)))
          ∷ from_to 0xd8 0xe2 (
              op2 insns pc
                (λ u. Insn.binop_lit (lit8_op (op_of word)) (a8 word) (lo8 u) (sext 8 32 (hi8 u))))
          ∷ [])
        (unknown pc word)
