-- ===== src/Vm/Classes/Initialize.antt =====
-- `ensure_class_initialized` of src/vm/mod.rs. The interpreter's `run` and the slot of <clinit> are parameters.
use dexvm.Prelude.{
  ℕ, ◌≤◌, ◌<◌, ◌≡◌, ◌≢◌, refl, arith, List, false, Option, none, some, length, set, get_elem?, ◌==◌,
  if◌then◌else◌, Bool-cases, Option-cases, inl, inr, get_elem?-set_same, length-set,
  get_elem?-eq-get_or, get_or,
}
use dexvm.Vm.Interp.{JvmError}

-- The `clinit_state` of each class (0 uninitialized, 1 initializing, 2 initialized), and the rest of the
-- machine.
pub record Loaded (R : Type 0) : Type 0 where
  pub states : List ℕ
  pub rest : R

-- `Ok(())`, an error, or the panic of an id past the classes.
pub data Started : Type 0 where
  initialized : Started
  failed : JvmError → Started
  panics : Started

-- What `run` gives.
pub data Ran : Type 0 where
  returned : Ran
  threw : JvmError → Ran

abbrev pub mark : {R : Type 0} → ℕ → ℕ → Loaded R → Loaded R
mark c state s = record s { states = set s.states c state }

module _ {R : Type 0} (clinit_slot : R → ℕ → Option ℕ)
    (run : ℕ → ℕ → Loaded R → Ran × Loaded R) where
  abbrev pub settle : ℕ → Ran → Loaded R → Started × Loaded R
  settle c Ran.returned s = (Started.initialized, mark c 2 s)
  settle c (Ran.threw e) s = (Started.failed e, mark c 0 s)

  abbrev pub begin : ℕ → Option ℕ → Loaded R → Started × Loaded R
  begin c none s = (Started.initialized, mark c 2 s)
  begin c (some slot) s = let (o, t) = run c slot (mark c 1 s) in settle c o t

  abbrev pub begin_at : ℕ → Option ℕ → Loaded R → Started × Loaded R
  begin_at c none s = (Started.panics, s)
  begin_at c (some state) s =
      if state == 0 then begin c (clinit_slot s.rest c) s else (Started.initialized, s)

  unfoldable pub ensure_initialized : ℕ → Loaded R → Started × Loaded R
  ensure_initialized c s = begin_at c (get_elem? s.states c) s

  -- A class that is initialized, or is being so, stays as it is when it is asked for again; one whose
  -- initializer failed is back at its start.
  abbrev pub Initializes : ℕ → Started × Loaded R → Type 0
  Initializes c (Started.initialized, t) =
      ((n : ℕ) × (get_elem? t.states c ≡ some n) × (n ≢ 0))
      × (ensure_initialized c t ≡ (Started.initialized, t))
  Initializes c (Started.failed e, t) = get_elem? t.states c ≡ some 0
  Initializes c (Started.panics, t) = ⊥

  again :
      (c n : ℕ) (t : Loaded R)
      → get_elem? t.states c ≡ some n
      → n ≢ 0
      → Initializes c (Started.initialized, t)
  unfolding ensure_initialized
  again c n t e positive =
      let started : (n == 0) ≡ false = ground (arith, positive) in
      ((n, e, positive), rw (e, started) refl)

  module _
      (grows : (c slot : ℕ) (s : Loaded R) → length s.states ≤ length (run c slot s).1.states) where
    settle-Initializes :
        (c : ℕ) (o : Ran) (t : Loaded R) → c < length t.states → Initializes c (settle c o t)
    settle-Initializes c Ran.returned t inside =
        again c 2 (mark c 2 t) (get_elem?-set_same t.states c 2 inside) (omega arith)
    settle-Initializes c (Ran.threw e) t inside = get_elem?-set_same t.states c 0 inside

    begin-Initializes :
        (c : ℕ) (slot : Option ℕ) (s : Loaded R)
        → c < length s.states
        → Initializes c (begin c slot s)
    begin-Initializes c none s inside =
        again c 2 (mark c 2 s) (get_elem?-set_same s.states c 2 inside) (omega arith)
    begin-Initializes c (some slot) s inside =
        settle-Initializes c (run c slot (mark c 1 s)).0 (run c slot (mark c 1 s)).1
          (omega (arith, inside, grows c slot (mark c 1 s), length-set s.states c 1))

    -- If `run` takes no class away, a loaded class that `ensure_class_initialized` answers for is initialized
    -- or being so, and asking again runs nothing and changes nothing; after an error the class is
    -- uninitialized again.
    pub ensure_initialized-Initializes :
        (c : ℕ) (s : Loaded R) → c < length s.states → Initializes c (ensure_initialized c s)
    unfolding ensure_initialized
    ensure_initialized-Initializes c s inside = elim (Option-cases (get_elem? s.states c)) [
      | inl e ↦
          (let there : get_elem? s.states c ≡ some (get_or s.states c 0) =
              get_elem?-eq-get_or s.states c 0 inside in
            absurd (cc))
      | inr (n, e) ↦ rw e (elim (Bool-cases (n == 0)) [
        | inl fresh ↦ rw fresh (begin-Initializes c (clinit_slot s.rest c) s inside)
        | inr started ↦ rw started (again c n s e (ground (arith, started)))
      ])
    ]
