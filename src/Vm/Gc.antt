-- ===== src/Vm/Gc.antt =====
-- `Vm::gc` of src/vm/mod.rs. A hash map is the list of its entries; the order of the roots does not
-- matter to what is proved. The children are the proofs.
pub mod Marking
pub mod Sweep
pub mod Cycle
use dexvm.Prelude.{ℕ, zero, suc, ◌+◌, List, [], ◌∷◌, ◌++◌, map, Bool, true, false, ◌&&◌, not}
use dexvm.Prelude.{
  Option, none, some, length, get_or, get_elem?, replicate, set, ltb, if◌then◌else◌, ◌==◌,
}
use dexvm.Vm.Value.{JValue, object_ids}
use dexvm.Vm.Object.{JObject, Arena, collect_refs, reclaim}

-- The part of `Vm` that the collector reads: the arena, the two tables of strings, the static fields of
-- each class, and the monitors with their counts.
pub record Heap : Type 0 where
  pub arena : Arena
  pub string_objs : List ((ℕ × ℕ) × ℕ)
  pub runtime_strings : List (List ℕ × ℕ)
  pub statics : List (List JValue)
  pub monitors : List (ℕ × ℕ)

-- The vectors `marks` and `stack` of the mark phase, the top of the stack first.
pub record Marks : Type 0 where
  pub marks : List Bool
  pub stack : List ℕ

abbrev pub marked : Marks → ℕ → Bool
marked m id = get_or m.marks id false

-- The closure `seed`.
unfoldable pub seed : Marks → ℕ → Marks
seed m id =
    if ltb id (length m.marks) && not (marked m id)
    then record { marks = set m.marks id true; stack = id ∷ m.stack }
    else m

unfoldable pub seed_all : Marks → List ℕ → Marks
seed_all m [] = m
seed_all m (id ∷ ids) = seed_all (seed m id) ids

abbrev static_ids : List (List JValue) → List ℕ
static_ids [] = []
static_ids (vs ∷ classes) = object_ids vs ++ static_ids classes

-- What is seeded before the loop.
unfoldable pub roots : Heap → List ℕ → List ℕ
roots h extra =
    map (λ e. e.1) h.string_objs
    ++ map (λ e. e.1) h.runtime_strings
    ++ static_ids h.statics
    ++ map (λ e. e.0) h.monitors
    ++ extra

-- The references of the object with an id. The source indexes the vector, whose length the ids on the
-- stack are below.
abbrev refs_at : Option JObject → List ℕ
refs_at none = []
refs_at (some o) = collect_refs o

unfoldable pub refs_of : List JObject → ℕ → List ℕ
refs_of objects id = refs_at (get_elem? objects id)

-- The loop over the stack, with fuel; `none` is no value of the program.
unfoldable pub mark_loop : List JObject → ℕ → Marks → Option Marks
mark_loop objects zero m = elim m.stack [ [] ↦ some m | _ ∷ _ ↦ none ]
mark_loop objects (suc fuel) m = elim m.stack [
  | [] ↦ some m
  | id ∷ stack ↦ mark_loop objects fuel (seed_all (record m { stack = stack }) (refs_of objects id))
]

-- The objects that are not marked, from the id `id` on, go to the free list.
unfoldable pub sweep : List Bool → ℕ → Arena → Arena × ℕ
sweep [] id a = (a, 0)
sweep (b ∷ bs) id a = elim b [
  | true ↦ sweep bs (suc id) a
  | false ↦ (let r = sweep bs (suc id) (reclaim a id) in (r.0, suc r.1))
]

-- `monitors.retain`
abbrev retain : List Bool → List (ℕ × ℕ) → List (ℕ × ℕ)
retain marks [] = []
retain marks (m ∷ ms) =
    let rest = retain marks ms in if get_or marks m.0 false then m ∷ rest else rest

unfoldable pub collect : Heap → Marks → Heap × ℕ
collect h m =
    let swept = sweep m.marks 0 h.arena in
    (record h { arena = swept.0; monitors = retain m.marks h.monitors }, swept.1)

unfoldable pub start_marks : Heap → List ℕ → Marks
start_marks h extra =
    seed_all (record { marks = replicate (length h.arena.objects) false; stack = [] })
      (roots h extra)

abbrev pub finish : Heap → Option Marks → Option (Heap × ℕ)
finish h none = none
finish h (some m) = some (collect h m)

-- Each object is pushed at most once, so as many rounds as there are objects are enough.
unfoldable pub gc : Heap → List ℕ → Option (Heap × ℕ)
gc h extra =
    let n = length h.arena.objects in
    if n == 0 then some (h, 0) else finish h (mark_loop h.arena.objects n (start_marks h extra))
