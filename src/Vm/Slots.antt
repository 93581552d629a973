-- ===== src/Vm/Slots.antt =====
-- The arena of src/vm/object.rs: an allocation takes a slot that no one holds.
use dexvm.Prelude.{ℕ, ◌+◌, ◌<◌, ◌≡◌, ◌≢◌, refl, sym, arith, List, [], ◌∷◌, ◌++◌, inl, inr, ◌⊎◌}
use dexvm.Prelude.{
  some, length, set, All, Distinct, All-mono, get_elem?-append_self, get_elem?-set_same,
  get_elem?-set_other, get_elem?-append_left, length-append, length-set,
}
use mathlib.Core.Path.{subst}
use mathlib.Core.List.{Memᴰ}
use mathlib.Core.List.Memᴰ
use dexvm.Vm.Object.{JObject, Arena, alloc, alloc_at, get}

-- The free list holds slots of the arena, each once.
pub record IsSound (a : Arena) : Type 0 where
  pub distinct : Distinct a.free
  pub inside : All (λ id. id < length a.objects) a.free

-- What an allocation of `o` in `a` promises of the id and the arena that it returns.
pub record Allocates (a : Arena) (o : JObject) (id : ℕ) (b : Arena) : Type 0 where
  pub sound : IsSound b
  pub holds : get b id ≡ some o
  pub taken : ¬ Memᴰ id b.free
  pub unused : Memᴰ id a.free ⊎ (id ≡ length a.objects)
  pub others : (v : ℕ) → v ≢ id → v < length a.objects → get b v ≡ get a v

alloc_at-Allocates :
    (a : Arena) (o : JObject) (free : List ℕ)
    → a.free ≡ free
    → IsSound a
    → Allocates a o (alloc_at a o free).0 (alloc_at a o free).1
unfolding get
alloc_at-Allocates a o [] empty h =
    let longer : length (a.objects ++ o ∷ []) ≡ length a.objects + 1 =
      length-append a.objects (o ∷ []) in
    record {
      sound = record {
        distinct = h.distinct;
        inside = All-mono _ _ a.free (λ id inside. omega (arith, longer)) h.inside;
      };
      holds = get_elem?-append_self a.objects o [];
      taken = λ m. Memᴰ.not-nil (rw empty at m);
      unused = inr refl;
      others = λ v other inside. get_elem?-append_left a.objects (o ∷ []) v inside;
    }
alloc_at-Allocates a o (f ∷ free) top h =
    let (new, distinct) : Distinct (f ∷ free) = subst Distinct top h.distinct in
    let (inside, rest) : All (λ id. id < length a.objects) (f ∷ free) =
      subst (All (λ id. id < length a.objects)) top h.inside in
    let same : length (set a.objects f o) ≡ length a.objects = length-set a.objects f o in
    record {
      sound = record {
        distinct = distinct;
        inside = All-mono _ _ free (λ id below. omega (arith, same)) rest;
      };
      holds = get_elem?-set_same a.objects f o inside;
      taken = new;
      unused = inl (rw top (Memᴰ.head refl));
      others = λ v other below. get_elem?-set_other a.objects f v o (λ e. other (sym e));
    }

-- In a sound arena `alloc` gives the object a slot that was free or is new, takes that slot off the free
-- list, leaves every other object as it is and keeps the arena sound.
pub alloc-Allocates :
    (a : Arena) (o : JObject) → IsSound a → Allocates a o (alloc a o).0 (alloc a o).1
unfolding alloc
alloc-Allocates a o h = alloc_at-Allocates a o a.free refl h
