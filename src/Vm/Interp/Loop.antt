-- ===== src/Vm/Interp/Loop.antt =====
-- `run_loop` of src/vm/interpret.rs: one instruction after the other, with calls, returns and exceptions.
pub mod Spending
pub mod Ends
pub mod Runs
pub mod Returns
use dexvm.Prelude.{
  ℕ, zero, suc, ◌-◌, List, [], ◌∷◌, Bool, true, false, Option, none, some, ◌==◌, if◌then◌else◌,
}
use dexvm.Dex.Insn.{Args, InvokeKind}
use dexvm.Dex.Insn.Decode.{Decoded}
use dexvm.Vm.Value.{JValue}
use dexvm.Vm.Operators.{FloatOps}
use dexvm.Vm.Interp.{Frame, World, Failure, JvmError, Exit, make_regs, entry_frame}
use dexvm.Vm.Interp.Linker.{Linker, MethodRef, Target, NativeKey, Code}
use dexvm.Vm.Interp.Registers.{Machine}
use dexvm.Vm.Interp.Arms.{Flow}
use dexvm.Vm.Interp.Step.{step}
use dexvm.Vm.Interp.Unwind.{Unwound, unwind}
use dexvm.Vm.Interp.Call.{call_args, widths_of, adopted, has_receiver}

-- The running frame, the frames of its callers, the nearest first, and the machine.
pub record Thread (R : Type 0) : Type 0 where
  pub frame : Frame
  pub callers : List Frame
  pub world : World R

-- How the loop ends: with the value of the last return, in an error, or in a panic. `stuck` is no end of
-- the program: the model ran out of fuel.
pub data Ended : Type 0 where
  returned : JValue → Ended
  failed : JvmError → Ended
  panicked : Ended
  stuck : Ended

-- One round goes on or ends.
pub data Round (R : Type 0) : Type 0 where
  goes_on : Thread R → Round R
  ends : Ended → World R → Round R

abbrev pub uncaught_id : JValue → ℕ
uncaught_id (JValue.obj o) = o
uncaught_id v = 0

-- `f.pc = pc`
abbrev pub jumped : Frame → ℕ → Frame
jumped f pc = record f { pc = pc }

module _ {R : Type 0} where
  -- A return: to the nearest caller, or out of the loop.
  abbrev pub return_to : List Frame → JValue → World R → Round R
  return_to [] v w = Round.ends (Ended.returned v) w
  return_to (top ∷ callers) v w =
      Round.goes_on (record { frame = record top { result = v }; callers = callers; world = w })

  -- The outcome of `unwind`; an exception that escapes is uncaught.
  abbrev pub after_unwind : JValue → Unwound → World R → Round R
  after_unwind exc (Unwound.caught (f ∷ callers)) w =
      Round.goes_on (record { frame = f; callers = callers; world = w })
  after_unwind exc (Unwound.caught []) w = Round.ends Ended.panicked w
  after_unwind exc Unwound.escaped w =
      Round.ends (Ended.failed (JvmError.uncaught (uncaught_id exc))) w
  after_unwind exc (Unwound.fails e) w = Round.ends (Ended.failed e) w
  after_unwind exc Unwound.panics w = Round.ends Ended.panicked w

module _ {R : Type 0} (floats : FloatOps) (linker : Linker R) where
  -- `f.pending_exc = Some(exc)`, `frames.push(f)` and `unwind()`.
  unfoldable pub raise : Frame → List Frame → JValue → World R → Round R
  raise f callers exc w =
      let (u, v) = unwind linker ((record f { pending_exc = some exc }) ∷ callers) w in
      after_unwind exc u v

  -- What a native gave.
  abbrev pub native_done :
      InvokeKind → MethodRef → Args → ℕ → Frame → List Frame → Exit JValue → World R → Round R
  native_done kind mref args ret_pc f callers (Exit.done v) w = Round.goes_on (record {
    frame = record f { result = v; pc = ret_pc };
    callers = callers;
    world = adopted linker kind mref args f.regs v w;
  })
  native_done kind mref args ret_pc f callers (Exit.throws exc) w =
      raise (jumped f ret_pc) callers exc w
  native_done kind mref args ret_pc f callers (Exit.fails e) w = Round.ends (Ended.failed e) w
  native_done kind mref args ret_pc f callers Exit.panics w = Round.ends Ended.panicked w

  abbrev pub run_native :
      InvokeKind
      → MethodRef
      → Args
      → ℕ
      → Frame
      → List Frame
      → World R
      → Option (List JValue → World R → Exit JValue × World R)
      → Option (List JValue)
      → Round R
  run_native kind mref args ret_pc f callers w none vs =
      Round.ends (Ended.failed (JvmError.failure Failure.no_native)) w
  run_native kind mref args ret_pc f callers w (some nf) none = Round.ends Ended.panicked w
  run_native kind mref args ret_pc f callers w (some nf) (some vs) =
      let (e, v) = nf vs w in native_done kind mref args ret_pc f callers e v

  -- A call of bytecode: the callee's frame with its registers, above the caller's.
  abbrev pub enter :
      ℕ → ℕ → Decoded → Code → ℕ → Frame → List Frame → World R → Option (List JValue) → Round R
  enter class slot decoded tries ret_pc f callers w none = Round.ends Ended.panicked w
  enter class slot decoded tries ret_pc f callers w (some regs) = Round.goes_on (record {
    frame = entry_frame class slot (linker.method_dex w.rest class slot) decoded tries regs;
    callers = jumped f ret_pc ∷ callers;
    world = w;
  })

  abbrev pub run_bytecode :
      ℕ
      → ℕ
      → Decoded
      → Option Code
      → ℕ
      → ℕ
      → ℕ
      → Frame
      → List Frame
      → World R
      → Option (List JValue)
      → Round R
  run_bytecode class slot decoded code ins_size registers ret_pc f callers w none =
      Round.ends Ended.panicked w
  run_bytecode class slot decoded none ins_size registers ret_pc f callers w (some vs) =
      Round.ends (Ended.failed (JvmError.failure Failure.no_code_item)) w
  run_bytecode class slot decoded (some tries) ins_size registers ret_pc f callers w (some vs) =
      enter class slot decoded tries ret_pc f callers w (make_regs vs ins_size registers)

  abbrev pub call_target :
      InvokeKind → MethodRef → Args → ℕ → Frame → List Frame → World R → Target → Round R
  call_target kind mref args ret_pc f callers w (Target.native key) =
      run_native kind mref args ret_pc f callers w (linker.natives w.rest key)
        (call_args false kind f.regs args (widths_of (linker.str_of w.rest) mref.args))
  call_target kind mref args ret_pc f callers w
        (Target.bytecode class slot decoded code ins_size registers descs) =
      run_bytecode class slot decoded code ins_size registers ret_pc f callers w
        (call_args true kind f.regs args (widths_of (linker.str_of w.rest) descs))

  -- The `match` on the flow of a step.
  unfoldable pub follow_flow : Flow → Frame → List Frame → World R → Round R
  follow_flow (Flow.next pc) f callers w =
      Round.goes_on (record { frame = jumped f pc; callers = callers; world = w })
  follow_flow (Flow.jump pc) f callers w =
      Round.goes_on (record { frame = jumped f pc; callers = callers; world = w })
  follow_flow (Flow.ret v) f callers w = return_to callers v w
  follow_flow (Flow.call kind mref target args ret_pc) f callers w =
      if has_receiver kind f.regs args
      then call_target kind mref args ret_pc f callers w target
      else Round.ends Ended.panicked w

  abbrev pub follow_step : Exit Flow → Frame → List Frame → World R → Round R
  follow_step (Exit.done flow) f callers w = follow_flow flow f callers w
  follow_step (Exit.throws exc) f callers w = raise f callers exc w
  follow_step (Exit.fails e) f callers w = Round.ends (Ended.failed e) w
  follow_step Exit.panics f callers w = Round.ends Ended.panicked w

  -- A round that has budget: one less, a step, and what follows from it.
  unfoldable pub spend : Thread R → Round R
  spend t =
      let (e, s) =
        step floats linker
          (record { frame = t.frame; world = record t.world { budget = t.world.budget - 1 } }) in
      follow_step e s.frame t.callers s.world

  unfoldable pub round : Thread R → Round R
  round t =
      if t.world.budget == 0
      then Round.ends (Ended.failed (JvmError.failure Failure.budget_exhausted)) t.world
      else spend t

  -- The next round, or the end.
  abbrev pub after_round : (Thread R → Ended × World R) → Round R → Ended × World R
  after_round rest (Round.goes_on t) = rest t
  after_round rest (Round.ends e w) = (e, w)

  -- The loop, on fuel.
  unfoldable pub run_loop : ℕ → Thread R → Ended × World R
  run_loop zero t = (Ended.stuck, t.world)
  run_loop (suc fuel) t = after_round (run_loop fuel) (round t)
