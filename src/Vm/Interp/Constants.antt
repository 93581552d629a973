-- ===== src/Vm/Interp/Constants.antt =====
-- const/high16 and const-wide/high16, from the code to the register: src/dex/insn.rs shifts the literal, and
-- src/vm/interpret.rs shifts it again.
use dexvm.Prelude.{ℕ, ◌+◌, ◌*◌, ◌%◌, ◌^◌, ◌≡◌, refl, ap, ◌∙◌, arith, List, some, ok, get_elem?, set}
use dexvm.Dex.Insn.Units.{sext, op2, w}
use dexvm.Dex.Insn.Match.{match_on}
use dexvm.Dex.Insn.{Insn}
use dexvm.Dex.Insn.Basic.{op_of, a8}
use dexvm.Dex.Insn.Decode.{decode, decode_word}
use dexvm.Dex.Insn.Control.{decode_consts}
use dexvm.Vm.Value.{JValue}
use dexvm.Vm.Machine.{wrapping_shl}
use dexvm.Vm.Operators.{FloatOps}
use dexvm.Vm.Interp.{Exit}
use dexvm.Vm.Interp.Linker.{Linker}
use dexvm.Vm.Interp.Registers.{Machine, ◌>>=◌, finish, frame_of, put_regs, set_reg}
use dexvm.Vm.Interp.Arms.{Flow}
use dexvm.Vm.Interp.Members.{give}
use dexvm.Vm.Interp.Step.{exec}

give_lem :
    {R : Type 0} (d : ℕ) (v old : JValue) (s : Machine R)
    → get_elem? s.frame.regs d ≡ some old
    → give d v s ≡ (
      Exit.done (Flow.next 0),
      record s { frame = record s.frame { regs = set s.frame.regs d v } },
    )
unfolding give set_reg ◌>>=◌ frame_of put_regs finish
give_lem d v old s e = rw e refl

shifted_twice : (x : ℕ) → wrapping_shl 32 (x * 2 ^ 16 % 2 ^ 32) 16 ≡ 0
shifted_twice x = omega arith

module _ {R : Type 0} (floats : FloatOps) (linker : Linker R) where
  -- The instruction that `decode` gives for const/high16 loads 0, whatever its literal is.
  pub high16-loads_zero :
      (insns : List ℕ) (pc word u : ℕ) (old : JValue) (s : Machine R)
      → get_elem? insns pc ≡ some word
      → op_of word ≡ 0x15
      → get_elem? insns (pc + 1) ≡ some u
      → get_elem? s.frame.regs (a8 word) ≡ some old
      → (insn : Insn) × (decode insns pc ≡ ok (insn, pc + 2))
        × (exec floats linker insn s ≡ (
          Exit.done (Flow.next 0),
          record s { frame = record s.frame { regs = set s.frame.regs (a8 word) (JValue.int 0) } },
        ))
  unfolding decode decode_word decode_consts exec match_on op2 w
  high16-loads_zero insns pc word u old s first op second there = (
    Insn.const_high16 (a8 word) (sext 16 32 u * 2 ^ 16 % 2 ^ 32),
    rw (first, op, second) refl,
    give_lem (a8 word) _ old s there
        ∙ ap
            (λ x. (
              Exit.done (Flow.next 0),
              record s {
                frame = record s.frame { regs = set s.frame.regs (a8 word) (JValue.int x) };
              },
            ))
            (shifted_twice (sext 16 32 u)),
  )
