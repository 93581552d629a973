-- ===== src/Dex/Insn/Access.antt =====
-- The arms of `decode` of src/dex/insn.rs for arrays, fields and invokes.
use dexvm.Prelude.{ℕ, List, [], ◌∷◌}
use dexvm.Dex.Insn.{Insn, ArrayElem, InvokeKind}
use dexvm.Dex.Insn.Match.{match_on, on, from_to}
use dexvm.Dex.Insn.Basic.{op_of, a4, b4, a8, lo8, hi8, args_35c, args_range, unknown}
use dexvm.Dex.Insn.Units.{Decoding, op2, op3, op3_rev}

-- The kind of 0x6e to 0x72, and of the range forms 0x74 to 0x78.
unfoldable pub invoke_kind : ℕ → InvokeKind
invoke_kind op =
    match_on op
      (on 0x6e InvokeKind.virtual
        ∷ on 0x6f InvokeKind.super
        ∷ on 0x70 InvokeKind.direct
        ∷ on 0x71 InvokeKind.static
        ∷ [])
      InvokeKind.interface

unfoldable pub invoke_range_kind : ℕ → InvokeKind
invoke_range_kind op =
    match_on op
      (on 0x74 InvokeKind.virtual
        ∷ on 0x75 InvokeKind.super
        ∷ on 0x76 InvokeKind.direct
        ∷ on 0x77 InvokeKind.static
        ∷ [])
      InvokeKind.interface

module _ (insns : List ℕ) (pc word : ℕ) where
  -- 0x44 to 0x51: `aget` and `aput`
  unfoldable pub decode_arrays : Decoding
  decode_arrays =
      match_on (op_of word)
        (on 0x44 (op2 insns pc (λ u. Insn.aget ArrayElem.int (a8 word) (lo8 u) (hi8 u)))
          ∷ on 0x45 (op2 insns pc (λ u. Insn.aget ArrayElem.wide (a8 word) (lo8 u) (hi8 u)))
          ∷ on 0x46 (op2 insns pc (λ u. Insn.aget ArrayElem.obj (a8 word) (lo8 u) (hi8 u)))
          ∷ on 0x47 (op2 insns pc (λ u. Insn.aget ArrayElem.bool (a8 word) (lo8 u) (hi8 u)))
          ∷ on 0x48 (op2 insns pc (λ u. Insn.aget ArrayElem.byte (a8 word) (lo8 u) (hi8 u)))
          ∷ on 0x49 (op2 insns pc (λ u. Insn.aget ArrayElem.char (a8 word) (lo8 u) (hi8 u)))
          ∷ on 0x4a (op2 insns pc (λ u. Insn.aget ArrayElem.short (a8 word) (lo8 u) (hi8 u)))
          ∷ on 0x4b (op2 insns pc (λ u. Insn.aput ArrayElem.int (a8 word) (lo8 u) (hi8 u)))
          ∷ on 0x4c (op2 insns pc (λ u. Insn.aput ArrayElem.wide (a8 word) (lo8 u) (hi8 u)))
          ∷ on 0x4d (op2 insns pc (λ u. Insn.aput ArrayElem.obj (a8 word) (lo8 u) (hi8 u)))
          ∷ on 0x4e (op2 insns pc (λ u. Insn.aput ArrayElem.bool (a8 word) (lo8 u) (hi8 u)))
          ∷ on 0x4f (op2 insns pc (λ u. Insn.aput ArrayElem.byte (a8 word) (lo8 u) (hi8 u)))
          ∷ on 0x50 (op2 insns pc (λ u. Insn.aput ArrayElem.char (a8 word) (lo8 u) (hi8 u)))
          ∷ on 0x51 (op2 insns pc (λ u. Insn.aput ArrayElem.short (a8 word) (lo8 u) (hi8 u)))
          ∷ [])
        (unknown pc word)

  -- 0x52 to 0x6d: instance and static fields
  unfoldable pub decode_fields : Decoding
  decode_fields =
      match_on (op_of word)
        (on 0x52 (op2 insns pc (λ u. Insn.iget (a4 word) (b4 word) u))
          ∷ on 0x53 (op2 insns pc (λ u. Insn.iget_wide (a4 word) (b4 word) u))
          ∷ on 0x54 (op2 insns pc (λ u. Insn.iget_obj (a4 word) (b4 word) u))
          ∷ from_to 0x55 0x58 (op2 insns pc (λ u. Insn.iget (a4 word) (b4 word) u))
          ∷ on 0x59 (op2 insns pc (λ u. Insn.iput (a4 word) (b4 word) u))
          ∷ on 0x5a (op2 insns pc (λ u. Insn.iput_wide (a4 word) (b4 word) u))
          ∷ on 0x5b (op2 insns pc (λ u. Insn.iput_obj (a4 word) (b4 word) u))
          ∷ from_to 0x5c 0x5f (op2 insns pc (λ u. Insn.iput (a4 word) (b4 word) u))
          ∷ on 0x60 (op2 insns pc (λ u. Insn.sget (a8 word) u))
          ∷ on 0x61 (op2 insns pc (λ u. Insn.sget_wide (a8 word) u))
          ∷ on 0x62 (op2 insns pc (λ u. Insn.sget_obj (a8 word) u))
          ∷ from_to 0x63 0x66 (op2 insns pc (λ u. Insn.sget (a8 word) u))
          ∷ on 0x67 (op2 insns pc (λ u. Insn.sput (a8 word) u))
          ∷ on 0x68 (op2 insns pc (λ u. Insn.sput_wide (a8 word) u))
          ∷ on 0x69 (op2 insns pc (λ u. Insn.sput_obj (a8 word) u))
          ∷ from_to 0x6a 0x6d (op2 insns pc (λ u. Insn.sput (a8 word) u))
          ∷ [])
        (unknown pc word)

  -- 0x6e to 0x72 and 0x74 to 0x78
  unfoldable pub decode_invokes : Decoding
  decode_invokes =
      match_on (op_of word)
        (from_to 0x6e 0x72
            (op3 insns pc (λ u1 u2. Insn.invoke (invoke_kind (op_of word)) u1 (args_35c word u2)))
          ∷ from_to 0x74 0x78 (
              op3_rev insns pc
                (λ u2 u1. Insn.invoke (invoke_range_kind (op_of word)) u1 (args_range word u2)))
          ∷ [])
        (unknown pc word)
