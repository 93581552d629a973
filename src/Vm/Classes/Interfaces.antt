-- ===== src/Vm/Classes/Interfaces.antt =====
-- `search_interfaces` of src/vm/mod.rs finds a method of a superinterface where there is one.
use dexvm.Prelude.{
  ℕ, zero, suc, ◌+◌, ◌≤◌, ◌≡◌, refl, sym, arith, List, [], ◌∷◌, none, some, length, get_elem?,
  Bool-cases, Option-cases, inl, inr, ◌⊎◌, mem-cons,
}
use mathlib.Core.Logic.{⊎_elim}
use mathlib.Core.Path.{subst}
use mathlib.Core.List.{Memᴰ}
use mathlib.Core.List.Memᴰ
use dexvm.Permission.Text.{contains}
use dexvm.Vm.Classes.{Key, Class, lookup, Search, extend, visit, search_interfaces}
use dexvm.Vm.Classes.Worklist.{contains_iff, unseen, unseen-seen, length-extend, mem-extend}

module _ (classes : List Class) where
  -- `i` is a superinterface of the class `c`: one of its interfaces, or one of theirs.
  pub data Extends : ℕ → ℕ → Type 0 where
    near :
        {c i : ℕ} {class : Class}
        → get_elem? classes c ≡ some class
        → Memᴰ i class.interfaces
        → Extends c i
    far :
        {c i j : ℕ} {class : Class}
        → Extends c i
        → get_elem? classes i ≡ some class
        → Memᴰ j class.interfaces
        → Extends c j

  -- The class of this id has a method for the key, at this slot.
  abbrev pub Declares : Key → ℕ → ℕ → Type 0
  Declares key i s =
      (class : Class) × (get_elem? classes i ≡ some class) × (lookup class.dispatch key ≡ some s)

  -- What the search promises.
  abbrev pub Searches : ℕ → Key → Search (ℕ × ℕ) → Type 0
  Searches c key (Search.found p) = Extends c p.0 × Declares key p.0 p.1
  Searches c key Search.missing = (i s : ℕ) → Extends c i → ¬ Declares key i s
  Searches c key Search.panics = (i : ℕ) × Extends c i × (get_elem? classes i ≡ none)
  Searches c key Search.stuck = ⊥

  -- The interfaces of a class are in the queue or seen.
  abbrev Covered : Class → List ℕ → List ℕ → Type 0
  Covered class queue seen = (j : ℕ) → Memᴰ j class.interfaces → Memᴰ j queue ⊎ Memᴰ j seen

  -- The loop's invariant, for the class that it began with.
  record Visiting (c : ℕ) (key : Key) (queue seen : List ℕ) : Type 0 where
    queued : (i : ℕ) → Memᴰ i queue → Extends c i
    start : (class : Class) → get_elem? classes c ≡ some class → Covered class queue seen
    closed :
        (i : ℕ) (class : Class)
        → Memᴰ i seen
        → get_elem? classes i ≡ some class
        → Covered class queue seen
    without : (i s : ℕ) → Memᴰ i seen → ¬ Declares key i s

  module _ (c : ℕ) (key : Key) where
    -- With an empty queue every superinterface is seen.
    all_seen : (seen : List ℕ) {i : ℕ} → Visiting c key [] seen → Extends c i → Memᴰ i seen
    all_seen seen v (near e m) = elim (v.start _ e _ m) [
      | inl q ↦ absurd (Memᴰ.not-nil q)
      | inr s ↦ s
    ]
    all_seen seen v (far r e m) = elim (v.closed _ _ (all_seen seen v r) e _ m) [
      | inl q ↦ absurd (Memᴰ.not-nil q)
      | inr s ↦ s
    ]

    move :
        (i : ℕ) (queue seen more : List ℕ) (j : ℕ)
        → ((k : ℕ) → Memᴰ k queue → Memᴰ k more)
        → (Memᴰ i seen)
        → Memᴰ j (i ∷ queue) ⊎ Memᴰ j seen
        → Memᴰ j more ⊎ Memᴰ j seen
    move i queue seen more j keep at (inr s) = inr s
    move i queue seen more j keep at (inl q) = elim ((mem-cons j i queue).0 q) [
      | inl e ↦ inr (subst (λ k. Memᴰ k seen) (sym e) at)
      | inr rest ↦ inl (keep j rest)
    ]

    Visiting-skip :
        (i : ℕ) (queue seen : List ℕ)
        → Memᴰ i seen
        → Visiting c key (i ∷ queue) seen
        → Visiting c key queue seen
    Visiting-skip i queue seen at v = record {
      queued = λ j m. v.queued j (Memᴰ.tail m);
      start = λ class e j m. move i queue seen queue j (λ k q. q) at (v.start class e j m);
      closed =
          λ k class s e j m. move i queue seen queue j (λ k q. q) at (v.closed k class s e j m);
      without = v.without;
    }

    grow :
        (i : ℕ) (queue seen : List ℕ) (class : Class) (j : ℕ)
        → Memᴰ j (i ∷ queue) ⊎ Memᴰ j seen
        → Memᴰ j (extend classes class.interfaces queue) ⊎ Memᴰ j (i ∷ seen)
    grow i queue seen class j h =
        move i queue (i ∷ seen) (extend classes class.interfaces queue) j
          (λ k q. (mem-extend classes class.interfaces queue k).1 (inr q)) (Memᴰ.head refl)
          (⊎_elim inl (λ s. inr (Memᴰ.tail s)) h)

    Visiting-see :
        (i : ℕ) (queue seen : List ℕ) (class : Class)
        → get_elem? classes i ≡ some class
        → lookup class.dispatch key ≡ none
        → Visiting c key (i ∷ queue) seen
        → Visiting c key (extend classes class.interfaces queue) (i ∷ seen)
    Visiting-see i queue seen class e no_method v = record {
      queued = λ j m. elim ((mem-extend classes class.interfaces queue j).0 m) [
        | inl new ↦ far (v.queued i (Memᴰ.head refl)) e new
        | inr old ↦ v.queued j (Memᴰ.tail old)
      ];
      start = λ d at j m. grow i queue seen class j (v.start d at j m);
      closed = λ k d s at j m. elim ((mem-cons k i seen).0 s) [
        | inl same ↦
            (let one : class ≡ d = cc in
              inl ((mem-extend classes class.interfaces queue j).1 (inl (rw one m))))
        | inr before ↦ grow i queue seen class j (v.closed k d before at j m)
      ];
      without = λ k s m (d, at, has). elim ((mem-cons k i seen).0 m) [
        | inl same ↦ (let one : class ≡ d = cc in cc)
        | inr before ↦ v.without k s before (d, at, has)
      ];
    }

    visit_lem :
        (fuel : ℕ) (queue seen : List ℕ)
        → length queue + unseen 0 classes seen ≤ fuel
        → Visiting c key queue seen
        → Searches c key (visit classes fuel key queue seen)
    unfolding visit
    visit_lem fuel [] seen enough v = λ i s r. v.without i s (all_seen seen v r)
    visit_lem zero (i ∷ queue) seen enough v = absurd (omega arith)
    visit_lem (suc fuel) (i ∷ queue) seen enough v = elim (Bool-cases (contains i seen)) [
      | inl old ↦
          rw (visit, old)
            (visit_lem fuel queue seen (omega arith)
              (Visiting-skip i queue seen ((contains_iff i seen).0 old) v))
      | inr new ↦
          rw (visit, new)
            (elim (Option-cases (get_elem? classes i)) [
              | inl e ↦ rw (visit, e) (i, v.queued i (Memᴰ.head refl), e)
              | inr (class, e) ↦
                  rw (visit, e)
                    (elim (Option-cases (lookup class.dispatch key)) [
                      | inr (s, has) ↦
                          rw (visit, has) (v.queued i (Memᴰ.head refl), (class, e, has))
                      | inl no_method ↦
                          (let less : length (extend classes class.interfaces queue)
                                  + unseen 0 classes (i ∷ seen)
                                ≤ fuel =
                              omega (
                                arith,
                                unseen-seen classes i seen e new,
                                length-extend classes class.interfaces queue,
                              ) in
                            rw (visit, no_method)
                              (visit_lem fuel (extend classes class.interfaces queue) (i ∷ seen)
                                less (Visiting-see i queue seen class e no_method v)))
                    ])
            ])
    ]

  -- The fuel is one unit for each interface of a class, and for each of the class where the search begins.
  abbrev pub enough_fuel : Class → ℕ
  enough_fuel class = length class.interfaces + unseen 0 classes []

  -- `search_interfaces` ends, although the interfaces may extend each other in a circle. What it finds is a
  -- method for the key of a superinterface of the class; it finds nothing only where no superinterface has
  -- one, and it panics only where the id of a superinterface is past the classes.
  pub search_interfaces-Searches :
      (c fuel : ℕ) (key : Key) (class : Class)
      → get_elem? classes c ≡ some class
      → enough_fuel class ≤ fuel
      → Searches c key (search_interfaces classes fuel c key)
  unfolding search_interfaces
  search_interfaces-Searches c fuel key class e enough =
      rw (search_interfaces, e)
        (visit_lem c key fuel (extend classes class.interfaces []) []
          (omega (arith, length-extend classes class.interfaces []))
          record {
            queued = λ i m. elim ((mem-extend classes class.interfaces [] i).0 m) [
              | inl among ↦ near e among
              | inr none_there ↦ absurd (Memᴰ.not-nil none_there)
            ];
            start = λ d at j m.
                let one : d ≡ class = cc in
                inl (
                  (mem-extend classes class.interfaces [] j).1
                    (inl (subst (λ (k : Class). Memᴰ j k.interfaces) one m)));
            closed = λ k d s at j m. absurd (Memᴰ.not-nil s);
            without = λ k s m. absurd (Memᴰ.not-nil m);
          })
