-- ===== src/Vm/Interp/Nearest/Address.antt =====
-- The addresses that the search of src/vm/interpret.rs compares.
use dexvm.Prelude.{
  ℕ, suc, ◌%◌, ◌^◌, ◌≡◌, refl, arith, List, [], ◌∷◌, true, false, Option, none, some, get_elem?,
  get_or, ltb, ◌==◌, Bool-cases, inl, inr,
}
use dexvm.Vm.Interp.{TryItem, Frame, rank, located, locate}
use dexvm.Vm.Interp.Unwind.{throw_addr, encloses}
use dexvm.Vm.Interp.Nearest.{last_until, thrown_at, thrower, Covers}

located-suc : (o : Option ℕ) (pc i : ℕ) → located o pc (suc (suc i)) ≡ suc (located o pc (suc i))
located-suc none pc i = omega arith
located-suc (some u) pc i = elim (Bool-cases (u == pc)) [
  | inl e ↦ rw e refl
  | inr e ↦ rw e (omega arith)
]

-- Where the first instruction is at an address before `pc`.
last_until_lem :
    (u : ℕ) (us : List ℕ) (pc : ℕ)
    → get_or (u ∷ us) (located (get_elem? us (rank us pc)) pc (suc (rank us pc))) 0
      ≡ last_until u us pc
unfolding last_until rank
last_until_lem u [] pc = refl
last_until_lem u (v ∷ vs) pc = elim (Bool-cases (ltb v pc)) [
  | inl t ↦
      rw (t, rank)
        (rw (located-suc (get_elem? vs (rank vs pc)) pc (rank vs pc)) (last_until_lem v vs pc))
  | inr f ↦ elim (Bool-cases (v == pc)) [ inl e ↦ rw (f, e) refl | inr e ↦ rw (f, e) refl ]
]

thrown_at_lem : (us : List ℕ) (pc : ℕ) → get_or us (locate us pc) 0 ≡ thrown_at us pc
unfolding locate thrown_at rank
thrown_at_lem [] pc = refl
thrown_at_lem (u ∷ us) pc = elim (Bool-cases (ltb u pc)) [
  | inl t ↦ rw t (last_until_lem u us pc)
  | inr f ↦ elim (Bool-cases (u == pc)) [ inl e ↦ rw (f, e) refl | inr e ↦ rw (f, e) refl ]
]

-- The address of the search is that of the instruction that threw.
pub throw_addr-eq-thrower : (f : Frame) → throw_addr f ≡ thrower f
unfolding throw_addr
throw_addr-eq-thrower f = thrown_at_lem f.decoded.units (f.err_pc % 2 ^ 32)

pub encloses-Covers : (t : TryItem) (addr : ℕ) → encloses t addr ≡ true → Covers t addr
unfolding encloses
encloses-Covers t addr h = ground arith

pub not-Covers : (t : TryItem) (addr : ℕ) → encloses t addr ≡ false → ¬ Covers t addr
unfolding encloses
not-Covers t addr h c = ground arith
