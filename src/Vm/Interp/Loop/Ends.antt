-- ===== src/Vm/Interp/Loop/Ends.antt =====
-- `run_loop` of src/vm/interpret.rs ends.
use dexvm.Prelude.{
  ℕ, zero, suc, ◌-◌, ◌≤◌, ◌<◌, ◌≡◌, ◌≢◌, refl, arith, List, [], ◌∷◌, false, Option, none, some,
  Bool-cases, inl, inr, ◌==◌,
}
use dexvm.Dex.Insn.{Args, InvokeKind}
use dexvm.Dex.Insn.Decode.{Decoded}
use dexvm.Vm.Value.{JValue}
use dexvm.Vm.Operators.{FloatOps}
use dexvm.Vm.Interp.{Frame, World, Exit, make_regs}
use dexvm.Vm.Interp.Linker.{Linker, MethodRef, Target, Code}
use dexvm.Vm.Interp.Registers.{Machine}
use dexvm.Vm.Interp.Arms.{Flow}
use dexvm.Vm.Interp.Step.{step}
use dexvm.Vm.Interp.Budget.{IsFrugal}
use dexvm.Vm.Interp.Keeps.Whole.{step-Keeps}
use dexvm.Vm.Interp.Unwind.{Unwound}
use dexvm.Vm.Interp.Call.{has_receiver, adopted}
use dexvm.Vm.Interp.Loop.{
  Thread, Ended, stuck, Round, jumped, return_to, after_unwind, raise, native_done, run_native,
  enter, run_bytecode, call_target, follow_flow, follow_step, spend, round, after_round, run_loop,
}
use dexvm.Vm.Interp.Loop.Spending.{unwind-budget}

-- A round that goes on has a budget of at most `n`, and one that ends is not stuck.
abbrev pub Within : {R : Type 0} → ℕ → Round R → Type 0
Within n (Round.goes_on t) = t.world.budget ≤ n
Within n (Round.ends e w) = e ≢ stuck

-- A round that goes on has a budget below `n`.
abbrev pub Descends : {R : Type 0} → ℕ → Round R → Type 0
Descends n (Round.goes_on t) = t.world.budget < n
Descends n (Round.ends e w) = e ≢ stuck

module _ {R : Type 0} where
  return_to-Within :
      (callers : List Frame) (v : JValue) (w : World R) → Within w.budget (return_to callers v w)
  return_to-Within [] v w = λ e. cc
  return_to-Within (top ∷ callers) v w = omega arith

  after_unwind-Within :
      (exc : JValue) (u : Unwound) (w : World R) (n : ℕ)
      → w.budget ≤ n
      → Within n (after_unwind exc u w)
  after_unwind-Within exc (Unwound.caught []) w n h = λ e. cc
  after_unwind-Within exc (Unwound.caught (f ∷ callers)) w n h = h
  after_unwind-Within exc Unwound.escaped w n h = λ e. cc
  after_unwind-Within exc (Unwound.fails e) w n h = λ e. cc
  after_unwind-Within exc Unwound.panics w n h = λ e. cc

  Within-mono : (m n : ℕ) (r : Round R) → m ≤ n → Within m r → Within n r
  Within-mono m n (Round.goes_on t) le h = omega (arith, le, h)
  Within-mono m n (Round.ends e w) le h = h

module _ {R : Type 0} (floats : FloatOps) (linker : Linker R) (frugal : IsFrugal linker) where
  raise-Within :
      (f : Frame) (callers : List Frame) (exc : JValue) (w : World R)
      → Within w.budget (raise floats linker f callers exc w)
  unfolding raise
  raise-Within f callers exc w =
      after_unwind-Within exc _ _ w.budget
        (unwind-budget linker frugal ((record f { pending_exc = some exc }) ∷ callers) w)

  adopted-budget :
      (kind : InvokeKind) (mref : MethodRef) (args : Args) (regs : List JValue) (v : JValue)
      → (w : World R) → (adopted linker kind mref args regs v w).budget ≤ w.budget
  adopted-budget InvokeKind.static mref args regs v w = omega arith
  adopted-budget InvokeKind.virtual mref args regs v w = omega arith
  adopted-budget InvokeKind.super mref args regs v w = omega arith
  adopted-budget InvokeKind.direct mref args regs v w = omega arith
  adopted-budget InvokeKind.interface mref args regs v w = omega arith

  module _ (kind : InvokeKind) (mref : MethodRef) (args : Args) (ret_pc : ℕ) (f : Frame)
      (callers : List Frame) where
    native_done-Within :
        (e : Exit JValue) (w : World R)
        → Within w.budget (native_done floats linker kind mref args ret_pc f callers e w)
    native_done-Within (Exit.done v) w = adopted-budget kind mref args f.regs v w
    native_done-Within (Exit.throws exc) w = raise-Within (jumped f ret_pc) callers exc w
    native_done-Within (Exit.fails e) w = λ p. cc
    native_done-Within Exit.panics w = λ p. cc

    run_native-Within :
        (w : World R) (nf : Option (List JValue → World R → Exit JValue × World R))
        → (vs : Option (List JValue))
        → ((g : List JValue → World R → Exit JValue × World R)
            → nf ≡ some g
            → (vals : List JValue) (v : World R) → (g vals v).1.budget ≤ v.budget)
        → Within w.budget (run_native floats linker kind mref args ret_pc f callers w nf vs)
    run_native-Within w none vs h = λ p. cc
    run_native-Within w (some g) none h = λ p. cc
    run_native-Within w (some g) (some vs) h =
        Within-mono _ _ _ (h g refl vs w) (native_done-Within (g vs w).0 (g vs w).1)

    enter-Within :
        (class slot : ℕ) (decoded : Decoded) (tries : Code) (w : World R) (regs : Option _)
        → Within w.budget (enter floats linker class slot decoded tries ret_pc f callers w regs)
    enter-Within class slot decoded tries w none = λ p. cc
    enter-Within class slot decoded tries w (some regs) = omega arith

    run_bytecode-Within :
        (class slot : ℕ) (decoded : Decoded) (code : Option Code) (ins_size registers : ℕ)
        → (w : World R) (vs : Option (List JValue))
        → Within w.budget (
            run_bytecode floats linker class slot decoded code ins_size registers ret_pc f callers w
              vs)
    run_bytecode-Within class slot decoded code ins_size registers w none = λ p. cc
    run_bytecode-Within class slot decoded none ins_size registers w (some vs) = λ p. cc
    run_bytecode-Within class slot decoded (some tries) ins_size registers w (some vs) =
        enter-Within class slot decoded tries w (make_regs vs ins_size registers)

    call_target-Within :
        (w : World R) (target : Target)
        → Within w.budget (call_target floats linker kind mref args ret_pc f callers w target)
    call_target-Within w (Target.native key) =
        run_native-Within w (linker.natives w.rest key) _
          λ g e vals v. frugal.natives w.rest key g e vals v
    call_target-Within w (Target.bytecode class slot decoded code ins_size registers descs) =
        run_bytecode-Within class slot decoded code ins_size registers w _

  follow_step-Within :
      (e : Exit Flow) (f : Frame) (callers : List Frame) (w : World R)
      → Within w.budget (follow_step floats linker e f callers w)
  unfolding follow_flow
  follow_step-Within (Exit.done (Flow.next pc)) f callers w = omega arith
  follow_step-Within (Exit.done (Flow.jump pc)) f callers w = omega arith
  follow_step-Within (Exit.done (Flow.ret v)) f callers w = return_to-Within callers v w
  follow_step-Within (Exit.done (Flow.call kind mref target args ret_pc)) f callers w =
      elim (Bool-cases (has_receiver kind f.regs args)) [
        | inl there ↦ rw there (call_target-Within kind mref args ret_pc f callers w target)
        | inr missing ↦ rw missing (λ p. cc)
      ]
  follow_step-Within (Exit.throws exc) f callers w = raise-Within f callers exc w
  follow_step-Within (Exit.fails e) f callers w = λ p. cc
  follow_step-Within Exit.panics f callers w = λ p. cc

  spend-Within : (t : Thread R) → Within (t.world.budget - 1) (spend floats linker t)
  unfolding spend
  spend-Within t =
      let s : Machine R = record {
        frame = t.frame;
        world = record t.world { budget = t.world.budget - 1 };
      } in
      let r = step floats linker s in
      Within-mono _ _ _ (step-Keeps floats linker frugal s).budget
        (follow_step-Within r.0 r.1.frame t.callers r.1.world)

  Descends-of_Within : (r : Round R) (n : ℕ) → (n == 0) ≡ false → Within (n - 1) r → Descends n r
  Descends-of_Within (Round.goes_on t) n positive h = ground (arith, positive, h)
  Descends-of_Within (Round.ends e w) n positive h = h

  round-Descends : (t : Thread R) → Descends t.world.budget (round floats linker t)
  unfolding round
  round-Descends t = elim (Bool-cases (t.world.budget == 0)) [
    | inl out ↦ rw (round, out) (λ p. cc)
    | inr left ↦
        rw (round, left)
          (Descends-of_Within (spend floats linker t) t.world.budget left (spend-Within t))
  ]

  after_round_lem :
      (rest : Thread R → Ended × World R) (r : Round R) (n : ℕ)
      → Descends n r
      → ((t : Thread R) → t.world.budget < n → (rest t).0 ≢ stuck)
      → (after_round floats linker rest r).0 ≢ stuck
  after_round_lem rest (Round.goes_on t) n h k = k t h
  after_round_lem rest (Round.ends e w) n h k = h

  -- If no operation of the linker and no native raises the budget, the loop ends: with more fuel than the
  -- budget it returns a value, fails or panics, whatever code it runs.
  pub run_loop-not_stuck :
      (t : Thread R) (fuel : ℕ) → t.world.budget < fuel → (run_loop floats linker fuel t).0 ≢ stuck
  unfolding run_loop
  run_loop-not_stuck t zero h = absurd (omega arith)
  run_loop-not_stuck t (suc fuel) h =
      after_round_lem (run_loop floats linker fuel) (round floats linker t) t.world.budget
        (round-Descends t) (λ u less. run_loop-not_stuck u fuel (omega arith))
