-- ===== src/Vm/Gc/Cycle.antt =====
-- `Vm::gc` of src/vm/mod.rs: what it returns to the free list.
use dexvm.Prelude.{ℕ, ◌<◌, ◌≡◌, refl, sym, arith, List, [], ◌++◌, true, ◌∙◌, ap}
use dexvm.Prelude.{◌↔◌, inl, inr, some, length, ◌==◌, Bool-cases, Distinct}
use dexvm.Prelude.{not-Distinct-append, All-of_mem}
use mathlib.Core.Path.{subst}
use mathlib.Core.List.{Memᴰ, append-nil}
use mathlib.Core.List.Memᴰ
use dexvm.Vm.Slots.{IsSound}
use dexvm.Vm.Gc.{Heap, Marks, marked, roots, collect, finish, start_marks, gc}
use dexvm.Vm.Gc.Marking.{Reaches, mark_loop-Reaches}
use dexvm.Vm.Gc.Sweep.{sweep-Swept}

-- The objects that the roots of a heap reach, and what a collection does to the arena.
abbrev pub IsLive : Heap → List ℕ → ℕ → Type 0
IsLive h extra = Reaches h.arena.objects (roots h extra)

pub record Collects (h : Heap) (extra : List ℕ) (t : Heap) (freed : ℕ) : Type 0 where
  pub dead : List ℕ
  pub arena : t.arena ≡ record h.arena { free = dead ++ h.arena.free }
  pub count : freed ≡ length dead
  pub dead_iff : (v : ℕ) → Memᴰ v dead ↔ ((v < length h.arena.objects) × ¬ IsLive h extra v)
  pub distinct : Distinct dead

collect-Collects :
    (h : Heap) (extra : List ℕ) (m : Marks)
    → length m.marks ≡ length h.arena.objects
    → ((v : ℕ) → (marked m v ≡ true) ↔ IsLive h extra v)
    → Collects h extra (collect h m).0 (collect h m).1
unfolding collect
collect-Collects h extra m size live =
    let swept = sweep-Swept m.marks 0 h.arena in
    record {
      dead = swept.dead;
      arena = ap (λ r. r.0) swept.result;
      count = ap (λ r. r.1) swept.result;
      dead_iff = λ v. ground (arith, swept.dead_iff v, live v, size);
      distinct = swept.distinct;
    }

none_dead : (h : Heap) (extra : List ℕ) → length h.arena.objects ≡ 0 → Collects h extra h 0
none_dead h extra empty = record {
  dead = [];
  arena = refl;
  count = refl;
  dead_iff = λ v. (λ m. absurd (Memᴰ.not-nil m), λ (inside, dead). absurd (omega arith));
  distinct = tt;
}

-- A collection ends, leaves the objects as they are, and puts in front of the free list, once each, the
-- objects that the roots do not reach; the number that it returns is theirs.
pub gc-Collects :
    (h : Heap) (extra : List ℕ)
    → (t : Heap) × (freed : ℕ) × (gc h extra ≡ some (t, freed)) × Collects h extra t freed
unfolding gc start_marks
gc-Collects h extra = elim (Bool-cases (length h.arena.objects == 0)) [
  | inl empty ↦ (h, 0, rw empty refl, none_dead h extra (ground (arith, empty)))
  | inr some_object ↦
      (let (m, ends, size, live) = mark_loop-Reaches h.arena.objects (roots h extra) in
        (
          (collect h m).0,
          (collect h m).1,
          rw some_object (ap (finish h) ends),
          collect-Collects h extra m size live,
        ))
]

Collects-of_gc :
    (h : Heap) (extra : List ℕ) (t : Heap) (freed : ℕ)
    → gc h extra ≡ some (t, freed)
    → Collects h extra t freed
Collects-of_gc h extra t freed run =
    let (u, n, ends, c) = gc-Collects h extra in
    let same : ◌≡◌ {A = Heap × ℕ} (u, n) (t, freed) = cc in
    subst (λ (r : Heap × ℕ). Collects h extra r.0 r.1) same c

-- A collection of an arena without free slots leaves a sound arena.
gc-IsSound :
    (h : Heap) (extra : List ℕ) (t : Heap) (freed : ℕ)
    → h.arena.free ≡ []
    → gc h extra ≡ some (t, freed)
    → IsSound t.arena
gc-IsSound h extra t freed empty run =
    let c = Collects-of_gc h extra t freed run in
    let only_dead : c.dead ++ h.arena.free ≡ c.dead =
      ap (λ (ids : List ℕ). c.dead ++ ids) empty ∙ append-nil c.dead in
    let result : t.arena ≡ record h.arena { free = c.dead } =
      c.arena ∙ ap (λ (ids : List ℕ). record h.arena { free = ids }) only_dead in
    subst IsSound (sym result) (record {
      distinct = c.distinct;
      inside = All-of_mem _ c.dead (λ v m. ((c.dead_iff v).0 m).0);
    })

-- A slot that is free already and that the roots do not reach stands in the free list twice after a
-- collection: the arena is no longer sound.
pub gc-not_IsSound :
    (h : Heap) (extra : List ℕ) (t : Heap) (freed v : ℕ)
    → Memᴰ v h.arena.free
    → v < length h.arena.objects
    → ¬ IsLive h extra v
    → gc h extra ≡ some (t, freed)
    → ¬ IsSound t.arena
gc-not_IsSound h extra t freed v free inside dead run sound =
    let c = Collects-of_gc h extra t freed run in
    let twice : Distinct (c.dead ++ h.arena.free) = (subst IsSound c.arena sound).distinct in
    not-Distinct-append c.dead h.arena.free ((c.dead_iff v).1 (inside, dead)) free twice
