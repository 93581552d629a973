-- ===== src/Dex/Cursor/Safe.antt =====
-- Readers of src/dex that stay inside the buffer and end: rules for the reads of src/dex/read.rs and for their
-- composition.
use dexvm.Prelude.{
  ℕ, suc, ◌+◌, ◌≤◌, ◌≡◌, ◌≢◌, refl, arith, List, Bool, true, false, Bool-cases, inl, inr, ◌∙◌,
}
use dexvm.Prelude.{ok, err, stuck, length, All, if◌then◌else◌, ltb, leb}
use dexvm.Dex.Error.{DexError, DexResult}
use dexvm.Dex.Cursor.{Cursor, M, and_then, ◌>>=◌, seek, u8, u16, u32, bytes, uleb128, sleb128}
use dexvm.Dex.Cursor.Reads.{IsByte}
use dexvm.Dex.Cursor.Leb.{LebBounds, leb128-LebBounds}

-- The cursor stands in the buffer `d`, at `p` or behind it.
pub record At (d : List ℕ) (p : ℕ) (c : Cursor) : Type 0 where
  pub same : c.data_bytes ≡ d
  pub behind : p ≤ c.pos
  pub inside : c.pos ≤ length d

-- The reader ended, with an error, or with a value and the cursor in the buffer, at `p` or behind it.
pub data Ended {A : Type 0} (d : List ℕ) (p : ℕ) : DexResult A × Cursor → Type 0 where
  returned : {a : A} {c : Cursor} → At d p c → Ended d p (ok a, c)
  failed : {e : DexError} {c : Cursor} → Ended d p (err e, c)

pub Ended-not_stuck :
    {A : Type 0} {d : List ℕ} {p : ℕ} {out : DexResult A × Cursor} → Ended d p out → out.0 ≢ stuck
Ended-not_stuck (returned at) = λ e. cc
Ended-not_stuck failed = λ e. cc

pub Ended-earlier :
    {A : Type 0} {d : List ℕ} {p : ℕ} {out : DexResult A × Cursor}
    → Ended d (suc p) out
    → Ended d p out
Ended-earlier (returned at) =
    returned (record { same = at.same; behind = omega (arith, at.behind); inside = at.inside })
Ended-earlier failed = failed

-- From everywhere at `p` or behind it the reader ends there.
abbrev pub Safe : {A : Type 0} → List ℕ → ℕ → M A → Type 0
Safe d p m = (c : Cursor) → At d p c → Ended d p (m c)

module _ {A B : Type 0} (d : List ℕ) (p : ℕ) where
  pub Ended-then :
      (f : A → M B) {r : DexResult A × Cursor}
      → Ended d p r
      → ((a : A) → Safe d p (f a))
      → Ended d p (and_then f r)
  Ended-then f (returned h) k = k _ _ h
  Ended-then f failed k = failed

  pub Safe-bind :
      (m : M A) (f : A → M B) → Safe d p m → ((a : A) → Safe d p (f a)) → Safe d p (m >>= f)
  Safe-bind m f h k c at = Ended-then f (h c at) k

pub Safe-if :
    {A : Type 0} (d : List ℕ) (p : ℕ) (b : Bool) (m n : M A)
    → Safe d p m
    → Safe d p n
    → Safe d p (λ c. (if b then m else n) c)
Safe-if d p true m n hm hn = hm
Safe-if d p false m n hm hn = hn

module _ (d : List ℕ) (p : ℕ) where
  -- The byte that is read lies behind.
  pub u8-next : (c : Cursor) → At d p c → Ended d (suc p) (u8 c)
  unfolding u8
  u8-next c at = elim (Bool-cases (leb (length c.data_bytes) c.pos)) [
    | inl past ↦ rw past failed
    | inr there ↦ rw there (
        returned (record {
          same = at.same;
          behind = omega (arith, at.behind);
          inside = ground (arith, at.same, at.inside);
        }))
  ]

  pub Safe-u8 : Safe d p u8
  Safe-u8 c at = Ended-earlier (u8-next c at)

  pub Safe-u16 : Safe d p u16
  unfolding u16
  Safe-u16 c at = elim (Bool-cases (ltb (length c.data_bytes) (c.pos + 2))) [
    | inl past ↦ rw past failed
    | inr there ↦ rw there (
        returned (record {
          same = at.same;
          behind = omega (arith, at.behind);
          inside = ground (arith, at.same);
        }))
  ]

  pub Safe-u32 : Safe d p u32
  unfolding u32
  Safe-u32 c at = elim (Bool-cases (ltb (length c.data_bytes) (c.pos + 4))) [
    | inl past ↦ rw past failed
    | inr there ↦ rw there (
        returned (record {
          same = at.same;
          behind = omega (arith, at.behind);
          inside = ground (arith, at.same);
        }))
  ]

  pub Safe-bytes : (n : ℕ) → Safe d p (bytes n)
  unfolding bytes
  Safe-bytes n c at = elim (Bool-cases (ltb (length c.data_bytes) (c.pos + n))) [
    | inl past ↦ rw past failed
    | inr there ↦ rw there (
        returned (record {
          same = at.same;
          behind = omega (arith, at.behind);
          inside = ground (arith, at.same);
        }))
  ]

  ended_of : (out : DexResult ℕ × Cursor) → out.0 ≢ stuck → At d p out.1 → Ended d p out
  ended_of (ok a, c') live at = returned at
  ended_of (err e, c') live at = failed
  ended_of (stuck, c') live at = absurd (live refl)

  LebBounds-At :
      (c : Cursor) (out : DexResult ℕ × Cursor) → At d p c → LebBounds c 4 out → Ended d p out
  LebBounds-At c out at b = ended_of out b.ends (record {
    same = b.same ∙ at.same;
    behind = omega (arith, at.behind, b.ahead);
    inside = rw at.same at (b.inside (record { within = rw at.same at.inside }));
  })

  pub Safe-uleb128 : All IsByte d → Safe d p uleb128
  Safe-uleb128 all c at = LebBounds-At c (uleb128 c) at (leb128-LebBounds c (rw at.same all)).0

  pub Safe-sleb128 : All IsByte d → Safe d p sleb128
  Safe-sleb128 all c at = LebBounds-At c (sleb128 c) at (leb128-LebBounds c (rw at.same all)).1

-- A jump inside the buffer.
pub Safe-seek : (d : List ℕ) (n : ℕ) → Safe d 0 (seek n)
Safe-seek d n c at = elim (Bool-cases (ltb (length c.data_bytes) n)) [
  | inl past ↦ rw past failed
  | inr there ↦
      rw there (
        returned
          (record { same = at.same; behind = omega arith; inside = ground (arith, at.same) }))
]
