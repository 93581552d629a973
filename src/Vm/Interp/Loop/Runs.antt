-- ===== src/Vm/Interp/Loop/Runs.antt =====
-- The runs of src/vm/interpret.rs without fuel: rounds up to the one that ends.
use dexvm.Prelude.{ℕ, zero, suc, ◌+◌, ◌<◌, ◌≡◌, ◌≢◌, refl, ap, ◌∙◌, arith}
use dexvm.Vm.Operators.{FloatOps}
use dexvm.Vm.Interp.{World}
use dexvm.Vm.Interp.Linker.{Linker}
use dexvm.Vm.Interp.Budget.{IsFrugal}
use dexvm.Vm.Interp.Loop.{Thread, Ended, stuck, Round, round, after_round, run_loop}
use dexvm.Vm.Interp.Loop.Ends.{run_loop-not_stuck}

module _ {R : Type 0} (floats : FloatOps) (linker : Linker R) where
  -- The thread runs to an end, and leaves the machine so.
  pub data Runs : Thread R → Ended → World R → Type 0 where
    last :
        {t : Thread R} {e : Ended} {w : World R}
        → round floats linker t ≡ Round.ends e w
        → Runs t e w
    then :
        {t u : Thread R} {e : Ended} {w : World R}
        → round floats linker t ≡ Round.goes_on u
        → Runs u e w
        → Runs t e w

  -- A run follows the rounds.
  Runs-of_round :
      (fuel : ℕ) (t : Thread R) (r : Round R)
      → round floats linker t ≡ r
      → ((u : Thread R)
          → (run_loop floats linker fuel u).0 ≢ stuck
          → Runs u (run_loop floats linker fuel u).0 (run_loop floats linker fuel u).1)
      → (after_round floats linker (run_loop floats linker fuel) r).0 ≢ stuck
      → Runs t
          (after_round floats linker (run_loop floats linker fuel) r).0
          (after_round floats linker (run_loop floats linker fuel) r).1
  Runs-of_round fuel t (Round.goes_on u) e k h = then e (k u h)
  Runs-of_round fuel t (Round.ends d w) e k h = last e

  Runs-of_run_loop :
      (fuel : ℕ) (t : Thread R)
      → (run_loop floats linker fuel t).0 ≢ stuck
      → Runs t (run_loop floats linker fuel t).0 (run_loop floats linker fuel t).1
  unfolding run_loop
  Runs-of_run_loop zero t h = absurd (h refl)
  Runs-of_run_loop (suc fuel) t h =
      Runs-of_round fuel t (round floats linker t) refl (Runs-of_run_loop fuel) h

  -- The run that a derivation describes is the one of the loop, with any fuel that is enough.
  run_loop-of_Runs :
      {t : Thread R} {e : Ended} {w : World R}
      → Runs t e w
      → (fuel : ℕ) → (run_loop floats linker fuel t).0 ≢ stuck
      → run_loop floats linker fuel t ≡ (e, w)
  unfolding run_loop
  run_loop-of_Runs {t = t} {e = e} {w = w} r zero h = absurd (h refl)
  run_loop-of_Runs {t = t} {e = e} {w = w} (last p) (suc fuel) h =
      ap (after_round floats linker (run_loop floats linker fuel)) p
  run_loop-of_Runs {t = t} {e = e} {w = w} (then {u = u} p r) (suc fuel) h =
      let step = ap (after_round floats linker (run_loop floats linker fuel)) p in
      step ∙ run_loop-of_Runs {t = u} {e = e} {w = w} r fuel (λ q. h (ap (λ x. x.0) step ∙ q))

  -- If no operation of the linker and no native raises the budget, every thread has exactly one end: it runs
  -- to one, and the loop with more fuel than the budget gives this end and no other.
  pub run_loop-Runs :
      IsFrugal linker
      → (t : Thread R)
      → (e : Ended) × (w : World R) × Runs t e w
        × ((fuel : ℕ) → t.world.budget < fuel → run_loop floats linker fuel t ≡ (e, w))
  run_loop-Runs frugal t =
      let enough : t.world.budget < t.world.budget + 1 = omega arith in
      let here = run_loop-not_stuck floats linker frugal t (t.world.budget + 1) enough in
      let r = Runs-of_run_loop (t.world.budget + 1) t here in
      (
        _,
        _,
        r,
        λ fuel more. run_loop-of_Runs r fuel (run_loop-not_stuck floats linker frugal t fuel more),
      )
