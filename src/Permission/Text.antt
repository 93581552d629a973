-- ===== src/Permission/Text.antt =====
-- Strings as their bytes, with the string operations that src/permission.rs takes from Rust's library.
use dexvm.Prelude.{ℕ, ◌+◌, ◌≡◌, refl, arith, List, [], ◌∷◌, ◌++◌, map, Bool, true, false, ◌&&◌}
use dexvm.Prelude.{Option, none, some, leb, ◌==◌, if◌then◌else◌, Bool-cases, inl, inr}

abbrev pub Text : Type 0
Text = List ℕ

-- `==` on strings.
abbrev pub same_text : Text → Text → Bool
same_text [] [] = true
same_text (x ∷ xs) (y ∷ ys) = x == y && same_text xs ys
same_text _ _ = false

-- `str::strip_prefix`
abbrev pub strip_prefix : Text → Text → Option Text
strip_prefix [] ys = some ys
strip_prefix (x ∷ xs) [] = none
strip_prefix (x ∷ xs) (y ∷ ys) = if x == y then strip_prefix xs ys else none

abbrev pub all : (ℕ → Bool) → Text → Bool
all p [] = true
all p (x ∷ xs) = p x && all p xs

abbrev pub contains : ℕ → Text → Bool
contains c [] = false
contains c (x ∷ xs) = if x == c then true else contains c xs

-- `str::rsplit_once`: what stands before and after the last `c`.
abbrev pub rsplit_once : ℕ → Text → Option (Text × Text)
rsplit_once c [] = none
rsplit_once c (x ∷ xs) = elim (rsplit_once c xs) [
  | some (before, after) ↦ some (x ∷ before, after)
  | none ↦ if x == c then some ([], xs) else none
]

-- `char::is_ascii_digit`
abbrev pub is_ascii_digit : ℕ → Bool
is_ascii_digit c = leb 48 c && leb c 57

-- `str::to_ascii_lowercase`
abbrev pub to_ascii_lowercase : Text → Text
to_ascii_lowercase = map (λ c. if leb 65 c && leb c 90 then c + 32 else c)

pub same_text_self : (xs : Text) → same_text xs xs ≡ true
same_text_self [] = refl
same_text_self (x ∷ xs) = let e : (x == x) ≡ true = ground arith in rw (e, same_text_self xs) refl

pub same_text-true : (xs ys : Text) → same_text xs ys ≡ true → xs ≡ ys
same_text-true [] [] h = refl
same_text-true (x ∷ xs) (y ∷ ys) h = elim (Bool-cases (x == y)) [
  | inl e ↦
      (let head : x ≡ y = ground (arith, e) in
        let rest : same_text xs ys ≡ true = rw e at h in
        let tail : xs ≡ ys = same_text-true xs ys rest in cc)
  | inr e ↦ (let no : false ≡ true = rw e at h in absurd (cc))
]
same_text-true [] (y ∷ ys) h = absurd (cc)
same_text-true (x ∷ xs) [] h = absurd (cc)

-- Stripping a prefix leaves the rest of it.
pub strip_prefix-append : (xs rest : Text) → strip_prefix xs (xs ++ rest) ≡ some rest
strip_prefix-append [] rest = refl
strip_prefix-append (x ∷ xs) rest =
    let e : (x == x) ≡ true = ground arith in rw e (strip_prefix-append xs rest)

pub eq_append_of_strip_prefix :
    (xs ys rest : Text) → strip_prefix xs ys ≡ some rest → ys ≡ xs ++ rest
eq_append_of_strip_prefix [] ys rest h = cc
eq_append_of_strip_prefix (x ∷ xs) [] rest h = absurd (cc)
eq_append_of_strip_prefix (x ∷ xs) (y ∷ ys) rest h = elim (Bool-cases (x == y)) [
  | inl e ↦
      (let head : x ≡ y = ground (arith, e) in
        let found : strip_prefix xs ys ≡ some rest = rw e at h in
        let tail : ys ≡ xs ++ rest = eq_append_of_strip_prefix xs ys rest found in cc)
  | inr e ↦ (let no : none ≡ some rest = rw e at h in absurd (cc))
]
