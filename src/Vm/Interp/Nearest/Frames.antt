-- ===== src/Vm/Interp/Nearest/Frames.antt =====
-- The search of src/vm/interpret.rs from frame to frame.
use dexvm.Prelude.{ℕ, List, Bool, Option}
use dexvm.Vm.Value.{JValue}
use dexvm.Vm.Interp.{Frame, World}
use dexvm.Vm.Interp.Linker.{Linker}
use dexvm.Vm.Interp.Unwind.{unwind_from}
use dexvm.Vm.Interp.Nearest.{Calls, Holds, Searched}

module _ (accepts : ℕ → ℕ → Bool) {R : Type 0} (linker : Linker R) (Good : World R → Type 0)
    (o class : ℕ) (holds : Holds Good o class) where
  abbrev exc : JValue
  exc = JValue.obj o

  -- The search from frames on ends so in every good world.
  abbrev Ends : Option JValue → List Frame → Type 0
  Ends carried frames =
      (w : World R) → Good w → Searched accepts exc frames (unwind_from linker carried frames w).0
