-- ===== src/Vm/Interp/Loop/Spending.antt =====
-- The search for a handler in src/vm/interpret.rs does not raise the budget.
use dexvm.Prelude.{ℕ, ◌≤◌, arith, List, [], ◌∷◌, Bool, true, false, Option, none, some}
use dexvm.Prelude.{get_elem?, Bool-cases, Option-cases, inl, inr}
use dexvm.Vm.Value.{JValue}
use dexvm.Vm.Object.{JObject}
use dexvm.Vm.Interp.{TryItem, Frame, World}
use dexvm.Vm.Interp.Linker.{Linker, Answer, Op}
use dexvm.Vm.Interp.Effects.{Spends}
use dexvm.Vm.Interp.Budget.{IsFrugal}
use dexvm.Vm.Interp.Unwind.{
  Unwound, follow, ◌>>=◌, answer, instance_fits, value_fits, matches, find_handler, stop_or,
  encloses, or_catch_all, find_try, or_else, throw_addr, install_or_pop, unwind_from, unwind,
}

module _ {R : Type 0} where
  Spends-follow :
      {A B : Type 0} (k : A → Op R B) (a : Answer A)
      → ((x : A) → Spends (k x))
      → Spends (follow k a)
  Spends-follow k (Answer.answers a) h = h a
  Spends-follow k (Answer.refuses e) h = λ w. omega arith
  Spends-follow k Answer.panics h = λ w. omega arith

  Spends-bind :
      {A B : Type 0} (m : Op R A) (k : A → Op R B)
      → Spends m
      → ((x : A) → Spends (k x))
      → Spends (m >>= k)
  unfolding ◌>>=◌
  Spends-bind m k hm hk w = omega (arith, hm w, Spends-follow k (m w).0 hk (m w).1)

module _ {R : Type 0} (linker : Linker R) (frugal : IsFrugal linker) where
  instance_fits-Spends : (c : ℕ) (o : Option JObject) → Spends (instance_fits linker c o)
  instance_fits-Spends c none w = omega arith
  instance_fits-Spends c (some o) w = frugal.is_assignable o.class c w

  value_fits-Spends : (c : ℕ) (v : JValue) → Spends (value_fits linker c v)
  unfolding value_fits
  value_fits-Spends c (JValue.obj o) w = instance_fits-Spends c (get_elem? w.arena.objects o) w
  value_fits-Spends c (JValue.int v) w = omega arith
  value_fits-Spends c (JValue.long v) w = omega arith
  value_fits-Spends c (JValue.float v) w = omega arith
  value_fits-Spends c (JValue.double v) w = omega arith
  value_fits-Spends c JValue.null w = omega arith

  matches-Spends : (dex : ℕ) (exc : JValue) (i : ℕ) → Spends (matches linker dex exc i)
  unfolding matches
  matches-Spends dex exc i =
      Spends-bind _ _ (frugal.class_by_type dex i) λ c. value_fits-Spends c exc

  chosen-Spends :
      (b : Bool) (addr : ℕ) (rest : Op R (Option ℕ))
      → Spends rest
      → Spends (elim b [ true ↦ answer (some addr) | false ↦ rest ])
  chosen-Spends true addr rest h = λ w. omega arith
  chosen-Spends false addr rest h = h

  find_handler-Spends :
      (dex : ℕ) (exc : JValue) (handlers : List (ℕ × ℕ))
      → Spends (find_handler linker dex exc handlers)
  unfolding find_handler
  find_handler-Spends dex exc [] = λ w. omega arith
  find_handler-Spends dex exc ((i, addr) ∷ handlers) =
      Spends-bind _ _ (matches-Spends dex exc i)
        λ b. chosen-Spends b addr _ (find_handler-Spends dex exc handlers)

  stop_or-Spends :
      (found : Option ℕ) (rest : Op R (Option ℕ)) → Spends rest → Spends (stop_or linker found rest)
  stop_or-Spends none rest h = h
  stop_or-Spends (some addr) rest h = λ w. omega arith

  find_try-Spends :
      (dex : ℕ) (exc : JValue) (addr : ℕ) (tries : List TryItem)
      → Spends (find_try linker dex exc addr tries)
  unfolding find_try
  find_try-Spends dex exc addr [] = λ w. omega arith
  find_try-Spends dex exc addr (t ∷ tries) =
      let rest = find_try-Spends dex exc addr tries in
      elim (Bool-cases (encloses t addr)) [
        | inr outside ↦ rw (find_try, outside) rest
        | inl covered ↦
            rw (find_try, covered)
              (Spends-bind _ _ (find_handler-Spends dex exc t.handlers)
                λ found. stop_or-Spends (or_catch_all linker found t.catch_all) _ rest)
      ]

  install_or_pop-budget :
      (f : Frame) (frames : List Frame) (exc : JValue)
      → (rest : World R → Unwound × World R) → ((w : World R) → (rest w).1.budget ≤ w.budget)
      → (a : Answer (Option ℕ)) (w : World R)
      → (install_or_pop linker f frames exc rest a w).1.budget ≤ w.budget
  install_or_pop-budget f frames exc rest h (Answer.answers none) w = h w
  install_or_pop-budget f frames exc rest h (Answer.answers (some addr)) w = omega arith
  install_or_pop-budget f frames exc rest h (Answer.refuses e) w = omega arith
  install_or_pop-budget f frames exc rest h Answer.panics w = omega arith

  unwind_from-budget :
      (carried : Option JValue) (frames : List Frame) (w : World R)
      → (unwind_from linker carried frames w).1.budget ≤ w.budget
  unfolding unwind_from
  unwind_from-budget carried [] w = omega arith
  unwind_from-budget carried (f ∷ frames) w = elim (Option-cases (or_else f.pending_exc carried)) [
    | inl e ↦ rw (unwind_from, e) (omega arith)
    | inr (exc, e) ↦
        (let r = find_try linker f.dex exc (throw_addr f) f.tries w in
          let later : (install_or_pop linker f frames exc (unwind_from linker (some exc) frames) r.0
                r.1).1.budget
              ≤ r.1.budget =
            install_or_pop-budget f frames exc _ (unwind_from-budget (some exc) frames) r.0 r.1 in
          rw (unwind_from, e)
            (omega (arith, later, find_try-Spends f.dex exc (throw_addr f) f.tries w)))
  ]

  pub unwind-budget :
      (frames : List Frame) (w : World R) → (unwind linker frames w).1.budget ≤ w.budget
  unfolding unwind
  unwind-budget frames w = unwind_from-budget none frames w
