-- ===== src/Examples/Initializing.antt =====
-- Classes that are initialized.
use dexvm.Prelude.{ℕ, ◌≤◌, ◌≡◌, refl, arith, [], ◌∷◌, Option, some, length}
use dexvm.Vm.Classes.Initialize.{
  Loaded, Started, Ran, ensure_initialized, Initializes, ensure_initialized-Initializes,
}

-- Every class has an initializer, which returns.
abbrev clinit_slot : Unit {0} → ℕ → Option ℕ
clinit_slot u c = some 0

abbrev run : ℕ → ℕ → Loaded Unit → Ran × Loaded Unit
run c slot s = (Ran.returned, s)

abbrev loaded : Loaded Unit
loaded = record { states = 2 ∷ 0 ∷ []; rest = tt }

grows : (c slot : ℕ) (s : Loaded Unit) → length s.states ≤ length (run c slot s).1.states
grows c slot s = omega arith

initializes :
    ensure_initialized clinit_slot run 1 loaded
    ≡ (Started.initialized, record loaded { states = 2 ∷ 2 ∷ [] })
unfolding ensure_initialized
initializes = refl

ensure_initialized-Initializes_example :
    Initializes clinit_slot run 1 (ensure_initialized clinit_slot run 1 loaded)
ensure_initialized-Initializes_example =
    ensure_initialized-Initializes clinit_slot run grows 1 loaded (omega arith)
