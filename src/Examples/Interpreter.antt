-- ===== src/Examples/Interpreter.antt =====
-- Runs of the interpreter with a small linker.
use dexvm.Prelude.{ℕ, ◌^◌, ◌<◌, ◌≡◌, refl, List, [], ◌∷◌, false, none, some, ok}
use mathlib.Core.List.{Memᴰ}
use dexvm.Dex.Ensures.{Ensures}
use dexvm.Dex.Insn.{Insn, Args, InvokeKind}
use dexvm.Dex.Insn.Decode.{Decoded, decode, decode_all}
use dexvm.Vm.Value.{JValue}
use dexvm.Vm.Interp.{World, Exit, entry_frame, make_regs, place_args, rank, locate, fetch}
use dexvm.Vm.Interp.Linker.{MethodRef, Target}
use dexvm.Vm.Interp.Registers.{Machine, ◌>>=◌, frame_of, finish, set_reg, put_regs, reg}
use dexvm.Vm.Interp.Members.{give}
use dexvm.Vm.Interp.Arms.{Flow}
use dexvm.Vm.Interp.Step.{step, exec, run_at, set_err_pc}
use dexvm.Vm.Interp.Effects.{Continues}
use dexvm.Vm.Interp.Fetch.{fetch-decode_all}
use dexvm.Vm.Interp.Constants.{high16-loads_zero}
use dexvm.Vm.Interp.Keeps.Whole.{step-Keeps}
use dexvm.Vm.Interp.Call.{call_args, argument_values, widths_of}
use dexvm.Vm.Interp.Loop.{Thread, Ended, Round, round, spend, run_loop, follow_flow}
use dexvm.Vm.Interp.Loop.Runs.{Runs, run_loop-Runs}
use dexvm.Vm.Interp.Loop.Returns.{return-call}
use dexvm.Examples.SmallLinker.{floats, linker, linker-IsFrugal}

-- const/4 v0, 5 and return v0
abbrev five : Decoded
five = record {
  insns = Insn.const4 0 5 ∷ Insn.return 0 ∷ [];
  units = 0 ∷ 1 ∷ [];
  sizes = 1 ∷ 1 ∷ [];
  words = 2;
}

abbrev pub world : World Unit
world = record {
  arena = record { objects = record { class = 7; fields = []; native = none } ∷ []; free = [] };
  monitors = [];
  budget = 5;
  rest = tt;
}

abbrev pub machine : Machine Unit
machine = record { frame = entry_frame 0 0 0 five [] (JValue.null ∷ []); world = world }

abbrev thread : Thread Unit
thread = record { frame = machine.frame; callers = []; world = world }

returns_five : (run_loop floats linker 3 thread).0 ≡ Ended.returned (JValue.int 5)
unfolding run_loop round spend step ◌>>=◌ frame_of run_at set_err_pc fetch locate rank finish exec
    give set_reg put_regs follow_flow reg
returns_five = refl

run_loop-Runs_example :
    (e : Ended) × (w : World Unit) × Runs floats linker thread e w
    × ((fuel : ℕ) → thread.world.budget < fuel → run_loop floats linker fuel thread ≡ (e, w))
run_loop-Runs_example = run_loop-Runs floats linker linker-IsFrugal thread

step-Keeps_example : Continues machine (step floats linker machine).1
step-Keeps_example = step-Keeps floats linker linker-IsFrugal machine

-- const/high16 v0, 0x4120
high16-loads_zero_example :
    (insn : Insn) × (decode (0x15 ∷ 0x4120 ∷ []) 0 ≡ ok (insn, 2))
    × (exec floats linker insn machine ≡ (
      Exit.done (Flow.next 0),
      record machine { frame = record machine.frame { regs = JValue.int 0 ∷ [] } },
    ))
high16-loads_zero_example =
    high16-loads_zero floats linker (0x15 ∷ 0x4120 ∷ []) 0 0x15 0x4120 JValue.null machine refl refl
      refl refl

-- const/4 v0, 5 and return v0, as code
fetch-decode_all_example :
    Ensures
      (λ d.
        (pc : ℕ)
        → Memᴰ pc d.units
        → pc < 2 ^ 32
        → (insn : Insn) × (next : ℕ) × (fetch d pc ≡ some (insn, next))
          × (decode (0x5012 ∷ 0x000f ∷ []) pc ≡ ok (insn, next)))
      (decode_all (0x5012 ∷ 0x000f ∷ []))
fetch-decode_all_example = fetch-decode_all (0x5012 ∷ 0x000f ∷ [])

abbrev monitors : List (ℕ × ℕ)
monitors = (7, 2) ∷ []

abbrev no_args : Args
no_args = record { count = 0; regs = []; range = false; base = 0 }

abbrev some_method : MethodRef
some_method = record { name = 0; sig = 0; ret = 0; args = []; class_desc = 0 }

-- A static call of a method without parameters and with one register.
abbrev callee : Thread Unit
callee = record {
  frame = entry_frame 0 1 0 five [] (JValue.null ∷ []);
  callers = (record machine.frame { pc = 3 }) ∷ [];
  world = world;
}

calls :
    follow_flow floats linker
      (Flow.call InvokeKind.static some_method
        (Target.bytecode 0 1 five (some []) 0 1 [])
        no_args
        3)
      machine.frame
      []
      world
    ≡ Round.goes_on callee
unfolding follow_flow call_args argument_values widths_of make_regs place_args
calls = refl

return-call_example :
    follow_flow floats linker (Flow.ret (JValue.int 5)) callee.frame callee.callers world
    ≡ Round.goes_on (record {
      frame = record machine.frame { pc = 3; result = JValue.int 5 };
      callers = [];
      world = world;
    })
return-call_example =
    return-call floats linker InvokeKind.static some_method no_args 3 machine.frame [] world 0 1
      five (some []) 0 1 [] callee calls (JValue.int 5) callee.frame world
