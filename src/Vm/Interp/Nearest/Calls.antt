-- ===== src/Vm/Interp/Nearest/Calls.antt =====
-- The operations of src/vm/mod.rs that the search of src/vm/interpret.rs calls, which may change the machine.
use dexvm.Prelude.{ℕ, ap, ◌∙◌, Bool}
use dexvm.Vm.Value.{JValue}
use dexvm.Vm.Interp.{World}
use dexvm.Vm.Interp.Linker.{Linker, Op}
use dexvm.Vm.Interp.Unwind.{follow, ◌>>=◌, value_fits, matches}
use dexvm.Vm.Interp.Nearest.{Calls, Holds, Typed}

module _ {R : Type 0} (Good : World R → Type 0) where
  pub Calls-bind :
      {A B : Type 0} (m : Op R A) (k : A → Op R B) (a : A) {b : B}
      → Calls Good m a
      → Calls Good (k a) b
      → Calls Good (m >>= k) b
  unfolding ◌>>=◌
  Calls-bind m k a first then' v good =
      let (u, run, good') = first v good in
      let (w, run', good'') = then' u good' in (w, ap (λ p. follow k p.0 p.1) run ∙ run', good'')

  pub Calls-matches :
      (accepts : ℕ → ℕ → Bool) (linker : Linker R) (o class dex : ℕ) (handler : ℕ × ℕ)
      → Holds Good o class
      → Typed accepts linker Good class dex handler
      → Calls Good (matches linker dex (JValue.obj o) handler.0) (accepts dex handler.0)
  unfolding matches value_fits
  Calls-matches accepts linker o class dex handler holds typed =
      Calls-bind _ (λ c. value_fits linker c (JValue.obj o)) typed.catch_class typed.loads
        λ v good.
          let (x, there, same) = holds v good in
          let (u, run, good') = typed.tests v good in (u, rw (there, same) run, good')
