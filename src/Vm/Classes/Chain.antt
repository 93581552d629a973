-- ===== src/Vm/Classes/Chain.antt =====
-- The searches of src/vm/mod.rs along the superclasses find the nearest declaration.
use dexvm.Prelude.{
  ℕ, zero, suc, ◌<◌, ◌≡◌, refl, arith, List, Option, none, some, get_elem?, inl, inr, Option-cases,
}
use mathlib.Core.Path.{subst}
use dexvm.Vm.Classes.{
  Key, Class, lookup, Search, here_or, search_up, field_offset, static_field_owner,
}

-- The class that follows each class ranks lower. `Follows class up` says what follows `class`.
abbrev pub IsRanked : List Class → (Class → Option ℕ → Type 0) → (ℕ → ℕ) → Type 0
IsRanked classes Follows rank =
    (c : ℕ) (class : Class) (s : ℕ)
    → get_elem? classes c ≡ some class
    → Follows class (some s)
    → rank s < rank c

-- `Has c class a` says that the class, whose id is `c`, has the value `a`, and `Lacks class` that it has none.
module _ (classes : List Class) {A : Type 0} (Has : ℕ → Class → A → Type 0) (Lacks : Class → Type 0)
    (Follows : Class → Option ℕ → Type 0) where
  -- From the class `start`, the first along the superclasses that has a value has `a`.
  pub data Nearest : Option ℕ → A → Type 0 where
    here :
        {c : ℕ} {class : Class} {a : A}
        → get_elem? classes c ≡ some class
        → Has c class a
        → Nearest (some c) a
    above :
        {c : ℕ} {class : Class} {up : Option ℕ} {a : A}
        → get_elem? classes c ≡ some class
        → Lacks class
        → Follows class up
        → Nearest up a
        → Nearest (some c) a

  -- No class along the superclasses has a value, and they come to an end.
  pub data Nowhere : Option ℕ → Type 0 where
    top : Nowhere none
    higher :
        {c : ℕ} {class : Class} {up : Option ℕ}
        → get_elem? classes c ≡ some class
        → Lacks class
        → Follows class up
        → Nowhere up
        → Nowhere (some c)

  -- The superclasses lead to an id past the classes, before any that has a value.
  pub data Dangling : Option ℕ → Type 0 where
    gone : {c : ℕ} → get_elem? classes c ≡ none → Dangling (some c)
    further :
        {c : ℕ} {class : Class} {up : Option ℕ}
        → get_elem? classes c ≡ some class
        → Lacks class
        → Follows class up
        → Dangling up
        → Dangling (some c)

  abbrev pub Climbs : Option ℕ → Search A → Type 0
  Climbs start (Search.found a) = Nearest start a
  Climbs start Search.missing = Nowhere start
  Climbs start Search.panics = Dangling start
  Climbs start Search.stuck = ⊥

  -- The searches of the code, by what their tests say.
  module _ (find : ℕ → Class → Option A) (next : Class → Option ℕ)
      (found : (c : ℕ) (class : Class) (a : A) → find c class ≡ some a → Has c class a)
      (lacking : (c : ℕ) (class : Class) → find c class ≡ none → Lacks class)
      (follows : (class : Class) → Follows class (next class)) where
    climb_on :
        (c : ℕ) (class : Class) (o : Option A) (rest : Search A)
        → get_elem? classes c ≡ some class
        → find c class ≡ o
        → Climbs (next class) rest
        → Climbs (some c) (here_or classes find next o rest)
    climb_on c class (some a) rest e has h = here e (found c class a has)
    climb_on c class none (Search.found a) e no_value h =
        above e (lacking c class no_value) (follows class) h
    climb_on c class none Search.missing e no_value h =
        higher e (lacking c class no_value) (follows class) h
    climb_on c class none Search.panics e no_value h =
        further e (lacking c class no_value) (follows class) h
    climb_on c class none Search.stuck e no_value h = absurd h

    module _ (rank : ℕ → ℕ) (ranked : IsRanked classes Follows rank) where
      pub search_up-Climbs :
          (fuel : ℕ) (start : Option ℕ)
          → ((c : ℕ) → start ≡ some c → rank c < fuel)
          → Climbs start (search_up classes find next fuel start)
      unfolding search_up
      search_up-Climbs fuel none h = top
      search_up-Climbs zero (some c) h = absurd (omega (arith, h c refl))
      search_up-Climbs (suc fuel) (some c) h = elim (Option-cases (get_elem? classes c)) [
        | inl e ↦ rw (search_up, e) (gone e)
        | inr (class, e) ↦
            rw (search_up, e)
              (climb_on c class (find c class) _ e refl (
                search_up-Climbs fuel (next class)
                  (λ s up. omega (arith, h c refl, lower s class e up))))
      ]
        where
          lower :
              (s : ℕ) (class : Class)
              → get_elem? classes c ≡ some class
              → next class ≡ some s
              → rank s < rank c
          lower s class e up = ranked c class s e (subst (Follows class) up (follows class))

-- What follows a class in the searches for fields.
abbrev pub Superclass : Class → Option ℕ → Type 0
Superclass class up = class.superclass ≡ up

-- Where the superclasses go down in rank, so that they come to an end, both searches for a field end within
-- the rank of their class, give the entry of the nearest class along the superclasses that has one, and
-- give nothing only where none of them has one. They panic only where the superclasses lead to an id past
-- the classes.
field_searches-Climbs :
    (classes : List Class) (rank : ℕ → ℕ)
    → IsRanked classes Superclass rank
    → (fuel start : ℕ) (key : Key) → rank start < fuel
    → Climbs classes
        (λ c class offset. lookup class.field_offsets key ≡ some offset)
        (λ class. lookup class.field_offsets key ≡ none)
        Superclass
        (some start)
        (field_offset classes fuel start key)
      × Climbs classes
          (λ c class value. lookup class.static_fields key ≡ some value)
          (λ class. lookup class.static_fields key ≡ none)
          Superclass
          (some start)
          (static_field_owner classes fuel start key)
unfolding field_offset static_field_owner
field_searches-Climbs classes rank ranked fuel start key enough =
    let below : (c : ℕ) → some start ≡ some c → rank c < fuel =
      λ c e. subst (λ n. rank n < fuel) (cc) enough in
    (
      search_up-Climbs classes _ _ Superclass (λ c class. lookup class.field_offsets key)
          (λ class. class.superclass) (λ c class a e. e) (λ c class e. e) (λ class. refl) rank
          ranked fuel (some start) below,
      search_up-Climbs classes _ _ Superclass (λ c class. lookup class.static_fields key)
          (λ class. class.superclass) (λ c class a e. e) (λ c class e. e) (λ class. refl) rank
          ranked fuel (some start) below,
    )
