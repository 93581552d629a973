-- ===== src/Vm/Interp/Monitors.antt =====
-- The monitors of src/vm/interpret.rs: an exit takes back an enter.
use dexvm.Prelude.{
  ℕ, ◌+◌, ◌-◌, ◌<◌, ◌≡◌, refl, ap, arith, List, [], ◌∷◌, true, false, All, Bool-cases, inl, inr,
  ◌==◌,
}
use dexvm.Vm.Interp.Arms.{enter_monitor, exit_monitor}

-- Where every count is positive, as `exit_monitor` removes an entry at 0, `monitor-exit` behind
-- `monitor-enter` of the same object gives back the monitors, also where the object was entered before.
exit_monitor-enter_monitor :
    (ms : List (ℕ × ℕ)) (o : ℕ) → All (λ m. 0 < m.1) ms → exit_monitor (enter_monitor ms o) o ≡ ms
unfolding enter_monitor exit_monitor
exit_monitor-enter_monitor [] o h = let same : (o == o) ≡ true = ground arith in rw same refl
exit_monitor-enter_monitor ((p, n) ∷ ms) o (h, hs) = elim (Bool-cases (p == o)) [
  | inl e ↦
      (let back : n + 1 - 1 ≡ n = omega arith in
        let left : (n == 0) ≡ false = ground (arith, h) in
        rw (enter_monitor, e, exit_monitor, e, back, left) refl)
  | inr e ↦
      rw (enter_monitor, e, exit_monitor, e)
        (ap (λ xs. (p, n) ∷ xs) (exit_monitor-enter_monitor ms o hs))
]
