-- ===== src/Examples/Memory.antt =====
-- Runs of the arena and of the collector.
use dexvm.Prelude.{ℕ, zero, suc, ◌≡◌, refl, arith, List, [], ◌∷◌, some, none, ◌≢◌}
use mathlib.Core.Path.{subst}
use mathlib.Core.List.{Memᴰ}
use mathlib.Core.List.Memᴰ
use dexvm.Vm.Value.{JValue, object_ids}
use dexvm.Vm.Object.{JObject, collect_refs, native_refs, reclaim, alloc}
use dexvm.Vm.Slots.{IsSound, Allocates, alloc-Allocates}
use dexvm.Vm.Gc.{Heap, seed, seed_all, roots, refs_of, mark_loop, sweep, collect, start_marks, gc}
use dexvm.Vm.Gc.Marking.{Reaches}
use dexvm.Vm.Gc.Cycle.{IsLive, Collects, gc-Collects, gc-not_IsSound}

-- Object 0 refers to object 1, and nothing to object 2.
abbrev objects : List JObject
objects =
    record { class = 0; fields = JValue.obj 1 ∷ JValue.int 2 ∷ []; native = none }
    ∷ record { class = 0; fields = []; native = none }
    ∷ record { class = 0; fields = []; native = none }
    ∷ []

-- A static field holds object 0.
abbrev heap : List ℕ → Heap
heap free = record {
  arena = record { objects = objects; free = free };
  string_objs = [];
  runtime_strings = [];
  statics = (JValue.obj 0 ∷ []) ∷ [];
  monitors = [];
}

-- The first collection frees object 2, and the second one frees it again.
first_collection : gc (heap []) [] ≡ some (heap (2 ∷ []), 1)
unfolding gc start_marks roots seed_all seed mark_loop refs_of collect_refs object_ids collect sweep
    reclaim native_refs
first_collection = refl

second_collection : gc (heap (2 ∷ [])) [] ≡ some (heap (2 ∷ 2 ∷ []), 1)
unfolding gc start_marks roots seed_all seed mark_loop refs_of collect_refs object_ids collect sweep
    reclaim native_refs
second_collection = refl

gc-Collects_example :
    (t : Heap) × (freed : ℕ) × (gc (heap []) [] ≡ some (t, freed)) × Collects (heap []) [] t freed
gc-Collects_example = gc-Collects (heap []) []

no_reference : (u : ℕ) → ¬ Memᴰ 2 (refs_of objects u)
unfolding refs_of collect_refs object_ids
no_reference zero m = absurd (cc (Memᴰ.eq_of_singleton m))
no_reference (suc zero) m = Memᴰ.not-nil m
no_reference (suc (suc zero)) m = Memᴰ.not-nil m
no_reference (suc (suc (suc u))) m = Memᴰ.not-nil m

not_reached : {v : ℕ} → IsLive (heap (2 ∷ [])) [] v → v ≢ 2
unfolding roots object_ids
not_reached (Reaches.root m h) e = absurd (omega (arith, Memᴰ.eq_of_singleton m, e))
not_reached (Reaches.follow {u = u} p m h) e =
    no_reference u (subst (λ v. Memᴰ v (refs_of objects u)) e m)

gc-not_IsSound_example : ¬ IsSound (heap (2 ∷ 2 ∷ [])).arena
gc-not_IsSound_example =
    gc-not_IsSound (heap (2 ∷ [])) [] (heap (2 ∷ 2 ∷ [])) 1 2 (Memᴰ.head refl) (omega arith)
      (λ live. not_reached live refl) second_collection

alloc-Allocates_example :
    Allocates
      (heap (2 ∷ [])).arena
      (record { class = 5; fields = []; native = none })
      (alloc (heap (2 ∷ [])).arena (record { class = 5; fields = []; native = none })).0
      (alloc (heap (2 ∷ [])).arena (record { class = 5; fields = []; native = none })).1
alloc-Allocates_example =
    alloc-Allocates (heap (2 ∷ [])).arena (record { class = 5; fields = []; native = none })
      (record { distinct = (Memᴰ.not-nil, tt); inside = (omega arith, tt) })
