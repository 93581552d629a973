-- ===== src/Vm/Interp/Fetch.antt =====
-- The instruction that a step of src/vm/interpret.rs finds at an address is the one that the decoder of
-- src/dex/insn.rs reads there.
use dexvm.Prelude.{
  ℕ, ◌+◌, ◌%◌, ◌^◌, ◌≤◌, ◌<◌, ◌≡◌, refl, ap, sym, arith, List, [], ◌∷◌, some, ok, true, false,
  get_elem?, ltb, ◌==◌, inl, inr,
}
use mathlib.Core.List.{Memᴰ}
use mathlib.Core.List.Memᴰ
use dexvm.Dex.Ensures.{Ensures, Ensures-mono}
use dexvm.Dex.Insn.{Insn}
use dexvm.Dex.Insn.Decode.{Decoded, decode, decode_all}
use dexvm.Dex.Insn.Scan.{IsScan, decode_all-IsScan}
use dexvm.Vm.Interp.{rank, locate, fetch}

-- The entry `i` of the three vectors is the instruction at `pc`.
record Found (insns : List ℕ) (vs : List Insn) (us ss : List ℕ) (pc i : ℕ) : Type 0 where
  insn : Insn
  size : ℕ
  unit_there : get_elem? us i ≡ some pc
  insn_there : get_elem? vs i ≡ some insn
  size_there : get_elem? ss i ≡ some size
  decoded : decode insns pc ≡ ok (insn, pc + size)

module _ (insns : List ℕ) where
  unit-above :
      (lo : ℕ) (vs : List Insn) (us ss : List ℕ) (hi : ℕ) {pc : ℕ}
      → IsScan insns lo vs us ss hi
      → Memᴰ pc us
      → lo ≤ pc
  unit-above lo [] [] [] hi h m = absurd (Memᴰ.not-nil m)
  unit-above lo (v ∷ vs) (u ∷ us) (s ∷ ss) hi (a, b, c, d) m = elim (Memᴰ.cases_cons m) [
    | inl e ↦ omega (arith, a, e)
    | inr later ↦ omega (arith, a, b, unit-above (u + s) vs us ss hi d later)
  ]
  unit-above lo vs us ss hi h m = absurd h

  rank-Found :
      (lo : ℕ) (vs : List Insn) (us ss : List ℕ) (hi pc : ℕ)
      → IsScan insns lo vs us ss hi
      → Memᴰ pc us
      → Found insns vs us ss pc (rank us pc)
  unfolding rank
  rank-Found lo [] [] [] hi pc h m = absurd (Memᴰ.not-nil m)
  rank-Found lo (v ∷ vs) (u ∷ us) (s ∷ ss) hi pc (a, b, c, d) m = elim (Memᴰ.cases_cons m) [
    | inl e ↦
        (let first : ltb u pc ≡ false = ground (arith, e) in
          rw (rank, first)
            record {
              insn = v;
              size = s;
              unit_there = ap some (sym e);
              insn_there = refl;
              size_there = refl;
              decoded = rw e c;
            })
    | inr later ↦
        (let above : u + s ≤ pc = unit-above (u + s) vs us ss hi d later in
          let next : ltb u pc ≡ true = ground (arith, above, b) in
          let r : Found insns vs us ss pc (rank us pc) =
            rank-Found (u + s) vs us ss hi pc d later in
          rw (rank, next)
            record {
              insn = r.insn;
              size = r.size;
              unit_there = r.unit_there;
              insn_there = r.insn_there;
              size_there = r.size_there;
              decoded = r.decoded;
            })
  ]
  rank-Found lo vs us ss hi pc h m = absurd h

  locate-rank :
      (us : List ℕ) (pc : ℕ) → get_elem? us (rank us pc) ≡ some pc → locate us pc ≡ rank us pc
  unfolding locate
  locate-rank us pc e = let same : (pc == pc) ≡ true = ground arith in rw (e, same) refl

  fetch_lem :
      (d : Decoded) (pc : ℕ)
      → IsScan insns 0 d.insns d.units d.sizes d.words
      → Memᴰ pc d.units
      → pc < 2 ^ 32
      → (insn : Insn) × (next : ℕ) × (fetch d pc ≡ some (insn, next))
        × (decode insns pc ≡ ok (insn, next))
  unfolding fetch
  fetch_lem d pc h m small =
      let r : Found insns d.insns d.units d.sizes pc (rank d.units pc) =
        rank-Found 0 d.insns d.units d.sizes d.words pc h m in
      let u32 : pc % 2 ^ 32 ≡ pc = omega arith in
      (
        r.insn,
        pc + r.size,
        rw (u32, locate-rank d.units pc r.unit_there, r.size_there, r.insn_there) refl,
        r.decoded,
      )

  -- In the code that `decode_all` gives, a step at an address below 2 ^ 32 that is the start of a recorded
  -- instruction runs the instruction that `decode` reads there, and goes on behind it.
  pub fetch-decode_all :
      Ensures
        (λ d.
          (pc : ℕ)
          → Memᴰ pc d.units
          → pc < 2 ^ 32
          → (insn : Insn) × (next : ℕ) × (fetch d pc ≡ some (insn, next))
            × (decode insns pc ≡ ok (insn, next)))
        (decode_all insns)
  fetch-decode_all =
      Ensures-mono (decode_all-IsScan insns) λ d (words, h) pc m small. fetch_lem d pc h m small
