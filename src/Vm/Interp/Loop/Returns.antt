-- ===== src/Vm/Interp/Loop/Returns.antt =====
-- Calls and returns of src/vm/interpret.rs.
use dexvm.Prelude.{ℕ, ◌≡◌, refl, List, ◌∷◌, Option, none, some, Bool-cases, inl, inr}
use mathlib.Core.Path.{subst}
use dexvm.Dex.Insn.{Args, InvokeKind}
use dexvm.Dex.Insn.Decode.{Decoded}
use dexvm.Vm.Value.{JValue}
use dexvm.Vm.Operators.{FloatOps}
use dexvm.Vm.Interp.{Frame, World, make_regs}
use dexvm.Vm.Interp.Linker.{Linker, MethodRef, Target, Code}
use dexvm.Vm.Interp.Arms.{Flow}
use dexvm.Vm.Interp.Call.{has_receiver}
use dexvm.Vm.Interp.Loop.{Thread, Round, jumped, enter, run_bytecode, follow_flow}

-- The callers that a round leaves, if it goes on.
abbrev Leaves : {R : Type 0} → List Frame → Round R → Type 0
Leaves frames (Round.goes_on t) = t.callers ≡ frames
Leaves frames (Round.ends e w) = Unit

module _ {R : Type 0} (floats : FloatOps) (linker : Linker R) where
  enter-Leaves :
      (class slot : ℕ) (decoded : Decoded) (tries : Code) (ret_pc : ℕ) (f : Frame)
      → (callers : List Frame) (w : World R) (regs : Option (List JValue))
      → Leaves
          (jumped f ret_pc ∷ callers)
          (enter floats linker class slot decoded tries ret_pc f callers w regs)
  enter-Leaves class slot decoded tries ret_pc f callers w none = tt
  enter-Leaves class slot decoded tries ret_pc f callers w (some regs) = refl

  run_bytecode-Leaves :
      (class slot : ℕ) (decoded : Decoded) (code : Option Code) (ins_size registers ret_pc : ℕ)
      → (f : Frame) (callers : List Frame) (w : World R) (vs : Option (List JValue))
      → Leaves (jumped f ret_pc ∷ callers) (
          run_bytecode floats linker class slot decoded code ins_size registers ret_pc f callers w
            vs)
  run_bytecode-Leaves class slot decoded code ins_size registers ret_pc f callers w none = tt
  run_bytecode-Leaves class slot decoded none ins_size registers ret_pc f callers w (some vs) = tt
  run_bytecode-Leaves class slot decoded (some tries) ins_size registers ret_pc f callers w
        (some vs) =
      enter-Leaves class slot decoded tries ret_pc f callers w (make_regs vs ins_size registers)

  -- A return of `v` from a frame that a call of bytecode put on top, whatever ran above the caller in
  -- between, goes on in the caller behind the call, with `v` as the result and all else of its frame as it
  -- was at the call.
  pub return-call :
      (kind : InvokeKind) (mref : MethodRef) (args : Args) (ret_pc : ℕ) (f : Frame)
      → (callers : List Frame) (w : World R)
      → (class slot : ℕ) (decoded : Decoded) (code : Option Code) (ins_size registers : ℕ)
      → (descs : List ℕ) (t : Thread R)
      → follow_flow floats linker
          (Flow.call kind mref
            (Target.bytecode class slot decoded code ins_size registers descs)
            args
            ret_pc)
          f
          callers
          w
        ≡ Round.goes_on t
      → (v : JValue) (g : Frame) (later : World R)
      → follow_flow floats linker (Flow.ret v) g t.callers later
        ≡ Round.goes_on (record {
          frame = record f { pc = ret_pc; result = v };
          callers = callers;
          world = later;
        })
  unfolding follow_flow
  return-call kind mref args ret_pc f callers w class slot decoded code ins_size registers descs t
        called v g later =
      let stack : t.callers ≡ jumped f ret_pc ∷ callers =
        subst (Leaves (jumped f ret_pc ∷ callers)) called
          (elim (Bool-cases (has_receiver kind f.regs args)) [
            | inl there ↦ rw there (
                run_bytecode-Leaves class slot decoded code ins_size registers ret_pc f callers w _)
            | inr missing ↦ rw missing tt
          ]) in
      rw stack refl
