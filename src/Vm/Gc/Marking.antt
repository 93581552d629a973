-- ===== src/Vm/Gc/Marking.antt =====
-- The mark phase of `Vm::gc` of src/vm/mod.rs: it ends, and marks exactly what the roots reach.
use dexvm.Prelude.{
  ℕ, zero, suc, ◌+◌, ◌≤◌, ◌<◌, ◌≡◌, refl, arith, List, [], ◌∷◌, Bool, true, false, ap, ◌∙◌,
}
use dexvm.Prelude.{◌⊎◌, ◌↔◌, inl, inr, some, length, get_or, set, replicate}
use dexvm.Prelude.{
  length-set, length-replicate, get_or-set_same, get_or-set_other, get_or-replicate, List-cases,
  mem-cons, Bool-cases,
}
use mathlib.Core.List.{Memᴰ}
use mathlib.Core.List.Memᴰ
use mathlib.Core.Logic.{⊎_elim}
use dexvm.Vm.Object.{JObject}
use dexvm.Vm.Gc.{Marks, marked, seed, seed_all, refs_of, mark_loop}

-- The ids that the roots reach: the objects of the arena among the roots, and those that a reached object
-- refers to.
pub data Reaches (objects : List JObject) (roots : List ℕ) : ℕ → Type 0 where
  root : {v : ℕ} → Memᴰ v roots → v < length objects → Reaches objects roots v
  follow :
      {u v : ℕ}
      → Reaches objects roots u
      → Memᴰ v (refs_of objects u)
      → v < length objects
      → Reaches objects roots v

abbrev pub unmarked : List Bool → ℕ
unmarked [] = 0
unmarked (true ∷ bs) = unmarked bs
unmarked (false ∷ bs) = suc (unmarked bs)

unmarked-set :
    (flags : List Bool) (id : ℕ)
    → id < length flags
    → get_or flags id false ≡ false
    → unmarked flags ≡ suc (unmarked (set flags id true))
unmarked-set [] id inside clear = absurd (omega arith)
unmarked-set (false ∷ flags) zero inside clear = refl
unmarked-set (true ∷ flags) zero inside clear = absurd (cc)
unmarked-set (true ∷ flags) (suc id) inside clear = unmarked-set flags id (omega arith) clear
unmarked-set (false ∷ flags) (suc id) inside clear =
    ap suc (unmarked-set flags id (omega arith) clear)

-- A mark that is read at a set index, on both sides.
marked-set :
    (flags : List Bool) (id other : ℕ)
    → id < length flags
    → ((other ≡ id) ⊎ (get_or flags other false ≡ true))
      ↔ (get_or (set flags id true) other false ≡ true)
marked-set flags id other inside =
    ground (
      arith,
      get_or-set_other flags id other true false,
      get_or-set_same flags id true false inside,
    )

-- The rounds that a mark phase has left, at most.
abbrev pub work : Marks → ℕ
work m = unmarked m.marks + length m.stack

-- What seeding `ids` does to the marks `m`: it marks the ids below `n` and puts on the stack those that
-- it marked.
record Seeds (m : Marks) (ids : List ℕ) (after : Marks) : Type 0 where
  pub size : length after.marks ≡ length m.marks
  pub same_work : work after ≡ work m
  pub marks_iff :
      (v : ℕ)
      → (marked after v ≡ true) ↔ ((marked m v ≡ true) ⊎ (Memᴰ v ids × (v < length m.marks)))
  pub stack_iff :
      (v : ℕ)
      → Memᴰ v after.stack ↔ (Memᴰ v m.stack ⊎ ((marked after v ≡ true) × (marked m v ≡ false)))

seed_one : (m : Marks) (id : ℕ) → Seeds m (id ∷ []) (seed m id)
unfolding seed
seed_one m id = record {
  size = ground (arith, length-set m.marks id true);
  same_work = ground (arith, unmarked-set m.marks id);
  marks_iff = λ v.
      ground (arith, marked-set m.marks id v, mem-cons v id [], λ (x : Memᴰ v []). Memᴰ.not-nil x);
  stack_iff = λ v. ground (arith, marked-set m.marks id v, mem-cons v id m.stack);
}

Seeds-seed_all : (m : Marks) (ids : List ℕ) → Seeds m ids (seed_all m ids)
unfolding seed_all
Seeds-seed_all m [] = record {
  size = refl;
  same_work = refl;
  marks_iff = λ v. (inl, ⊎_elim (λ before. before) (λ none_new. absurd (Memᴰ.not-nil none_new.0)));
  stack_iff = λ v. (inl, ⊎_elim (λ before. before) (λ changed. absurd (cc)));
}
Seeds-seed_all m (id ∷ ids) =
    let one = seed_one m id in
    let rest = Seeds-seed_all (seed m id) ids in
    record {
      size = omega (arith, one.size, rest.size);
      same_work = omega (arith, one.same_work, rest.same_work);
      marks_iff = λ v. ground (
        arith,
        one.size,
        one.marks_iff v,
        rest.marks_iff v,
        mem-cons v id ids,
        mem-cons v id [],
        λ (x : Memᴰ v []). Memᴰ.not-nil x,
      );
      stack_iff =
          λ v. ground (arith, one.marks_iff v, one.stack_iff v, rest.stack_iff v, rest.marks_iff v);
    }

module _ (objects : List JObject) (ids : List ℕ) where
  -- The loop's invariant. Between rounds, what a marked object refers to is marked, unless the object
  -- still stands on the stack.
  record Marking (m : Marks) : Type 0 where
    pub sized : length m.marks ≡ length objects
    pub rooted : (v : ℕ) → Memᴰ v ids → v < length objects → marked m v ≡ true
    pub waiting : (v : ℕ) → Memᴰ v m.stack → marked m v ≡ true
    pub sound : (v : ℕ) → marked m v ≡ true → Reaches objects ids v
    pub closed :
        (u v : ℕ)
        → marked m u ≡ true
        → Memᴰ v (refs_of objects u)
        → v < length objects
        → Memᴰ u m.stack ⊎ (marked m v ≡ true)

  abbrev pub blank : Marks
  blank = record { marks = replicate (length objects) false; stack = [] }

  no_mark : (v : ℕ) → marked blank v ≡ false
  no_mark v = get_or-replicate (length objects) v false

  Marking-start : Marking (seed_all blank ids)
  Marking-start =
      let seeds = Seeds-seed_all blank ids in
      let all_blank : length blank.marks ≡ length objects =
        length-replicate (length objects) false in
      record {
        sized = omega (arith, seeds.size, all_blank);
        rooted = λ v listed inside. (seeds.marks_iff v).1 (inr (listed, omega (arith, all_blank)));
        waiting = λ v m. ground (arith, seeds.stack_iff v, λ (x : Memᴰ v []). Memᴰ.not-nil x);
        sound = λ v m. elim ((seeds.marks_iff v).0 m) [
          | inl before ↦ absurd (cc (no_mark v))
          | inr (listed, inside) ↦ root listed (omega (arith, all_blank))
        ];
        closed = λ u v m refers inside. inl ((seeds.stack_iff u).1 (inr (m, no_mark u)));
      }

  Marking-round :
      (m : Marks) (u : ℕ) (rest : List ℕ)
      → m.stack ≡ u ∷ rest
      → Marking m
      → Marking (seed_all (record m { stack = rest }) (refs_of objects u))
  Marking-round m u rest top h =
      let popped : Marks = record m { stack = rest } in
      let seeds = Seeds-seed_all popped (refs_of objects u) in
      let to_u : Reaches objects ids u = h.sound u (h.waiting u (rw top (Memᴰ.head refl))) in
      let split : (v : ℕ) → Memᴰ v m.stack → (v ≡ u) ⊎ Memᴰ v rest =
        λ v listed. (mem-cons v u rest).0 (rw top at listed) in
      record {
        sized = omega (arith, seeds.size, h.sized);
        rooted = λ v listed inside. (seeds.marks_iff v).1 (inl (h.rooted v listed inside));
        waiting = λ v on_stack. elim ((seeds.stack_iff v).0 on_stack) [
          | inl older ↦ (seeds.marks_iff v).1 (inl (h.waiting v (rw top (Memᴰ.tail older))))
          | inr (now, before) ↦ now
        ];
        sound = λ v now. elim ((seeds.marks_iff v).0 now) [
          | inl before ↦ h.sound v before
          | inr (refers, inside) ↦ follow to_u refers (omega (arith, h.sized))
        ];
        closed = λ x v now refers inside. elim (Bool-cases (marked m x)) [
          | inr new ↦ inl ((seeds.stack_iff x).1 (inr (now, new)))
          | inl before ↦ elim (h.closed x v before refers inside) [
            | inr m ↦ inr ((seeds.marks_iff v).1 (inl m))
            | inl on_stack ↦ elim (split x on_stack) [
              | inr older ↦ inl ((seeds.stack_iff x).1 (inl older))
              | inl same ↦
                  inr ((seeds.marks_iff v).1 (inr (rw same at refers, omega (arith, h.sized))))
            ]
          ]
        ];
      }

  mark_loop-pop :
      (fuel : ℕ) (m : Marks) (u : ℕ) (rest : List ℕ)
      → m.stack ≡ u ∷ rest
      → mark_loop objects (suc fuel) m
        ≡ mark_loop objects fuel (seed_all (record m { stack = rest }) (refs_of objects u))
  unfolding mark_loop
  mark_loop-pop fuel m u rest top = simp (top, mark_loop)

  mark_loop_lem :
      (fuel : ℕ) (m : Marks)
      → work m ≤ fuel
      → Marking m
      → (t : Marks) × (mark_loop objects fuel m ≡ some t) × Marking t × (t.stack ≡ [])
  unfolding mark_loop
  mark_loop_lem zero m enough h = elim (List-cases m.stack) [
    | inl empty ↦ (m, simp (empty, mark_loop), h, empty)
    | inr (u, rest, top) ↦ absurd (omega (arith, ap length top))
  ]
  mark_loop_lem (suc fuel) m enough h = elim (List-cases m.stack) [
    | inl empty ↦ (m, simp (empty, mark_loop), h, empty)
    | inr (u, rest, top) ↦
        (let seeds = Seeds-seed_all (record m { stack = rest }) (refs_of objects u) in
          let (t, ends, final, drained) =
            mark_loop_lem fuel (seed_all (record m { stack = rest }) (refs_of objects u))
              (omega (arith, seeds.same_work, ap length top)) (Marking-round m u rest top h) in
          (t, mark_loop-pop fuel m u rest top ∙ ends, final, drained))
  ]

  -- With an empty stack the marked objects are those that the roots reach.
  reached_marked :
      (t : Marks) → Marking t → t.stack ≡ [] → {v : ℕ} → Reaches objects ids v → marked t v ≡ true
  reached_marked t h empty (root listed inside) = h.rooted _ listed inside
  reached_marked t h empty (follow {u = u} {v = v} p refers inside) =
      elim (h.closed u v (reached_marked t h empty p) refers inside) [
        | inl on_stack ↦ absurd (Memᴰ.not-nil (rw empty at on_stack))
        | inr m ↦ m
      ]

  unmarked-replicate : (n : ℕ) → unmarked (replicate n false) ≡ n
  unmarked-replicate zero = refl
  unmarked-replicate (suc n) = ap suc (unmarked-replicate n)

  -- The mark phase ends after at most one round for each object of the arena; it has a flag for each
  -- object, and the flag is set exactly where the roots reach the object.
  pub mark_loop-Reaches :
      (t : Marks) × (mark_loop objects (length objects) (seed_all blank ids) ≡ some t)
      × (length t.marks ≡ length objects)
      × ((v : ℕ) → (marked t v ≡ true) ↔ Reaches objects ids v)
  mark_loop-Reaches =
      let seeds = Seeds-seed_all blank ids in
      let (t, ends, h, empty) =
        mark_loop_lem (length objects) (seed_all blank ids)
          (omega (arith, seeds.same_work, unmarked-replicate (length objects))) Marking-start in
      (t, ends, h.sized, λ v. (h.sound v, reached_marked t h empty))
