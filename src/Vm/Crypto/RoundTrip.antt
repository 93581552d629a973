-- ===== src/Vm/Crypto/RoundTrip.antt =====
-- `seal` and `open` of src/vm/crypto.rs are inverse.
use dexvm.Prelude.{ℕ, zero, suc, ◌+◌, ◌-◌, ◌≤◌, ◌<◌, ◌≡◌, refl, ap, sym, ◌∙◌, ◌⊎◌, ◌↔◌, inl, inr}
use Prim.Native.Nat.{bit_xor}
use dexvm.Prelude.{List, [], ◌∷◌, ◌++◌, true, false, ltb, arith, length, take, drop}
use dexvm.Prelude.{length-append, length-take, length-drop}
use dexvm.Prelude.Xor.{bit_xor_cancel}
use mathlib.Core.Logic.{⊎_elim}
use native.Mathlib.Decide.{dec_lt}
use dexvm.Vm.Crypto.{
  Gcm, plain, refused, chunks_fuel, chunks, to_be, same_bytes, xor_into, block, crypt, tag, seal,
  ghash, from_be, authenticated, open_text, open_sealed, too_short, inc32, j0,
}

pub length-to_be : (n x : ℕ) → length (to_be n x) ≡ n
unfolding to_be
length-to_be zero x = refl
length-to_be (suc n) x = ap suc (length-to_be n x)

length-xor_into : (ks ps : List ℕ) → length (xor_into ks ps) ≡ length ks
unfolding xor_into
length-xor_into [] [] = refl
length-xor_into (k ∷ ks) [] = refl
length-xor_into [] (p ∷ ps) = refl
length-xor_into (k ∷ ks) (p ∷ ps) = ap suc (length-xor_into ks ps)

-- A key stream that is applied twice is gone.
xor_into-xor_into :
    (ks ps : List ℕ)
    → length ps ≤ length ks
    → (let once = take (length ps) (xor_into ks ps) in take (length once) (xor_into ks once)) ≡ ps
unfolding xor_into
xor_into-xor_into ks [] h = refl
xor_into-xor_into [] (p ∷ ps) h = absurd (omega arith)
xor_into-xor_into (k ∷ ks) (p ∷ ps) h =
    rw (bit_xor_cancel k p) (ap (◌∷◌ p) (xor_into-xor_into ks ps (omega arith)))

-- A first piece that is whole, or has nothing behind it, is cut off again.
take-first :
    (xs ys : List ℕ) (n : ℕ) → length xs ≤ n → (length xs ≡ n) ⊎ (ys ≡ []) → take n (xs ++ ys) ≡ xs
take-first [] ys zero h c = refl
take-first [] ys (suc n) h (inl e) = absurd (omega arith)
take-first [] ys (suc n) h (inr e) = rw e refl
take-first (x ∷ xs) ys zero h c = absurd (omega arith)
take-first (x ∷ xs) ys (suc n) h (inl e) =
    ap (◌∷◌ x) (take-first xs ys n (omega arith) (inl (omega arith)))
take-first (x ∷ xs) ys (suc n) h (inr e) = ap (◌∷◌ x) (take-first xs ys n (omega arith) (inr e))

drop-first :
    (xs ys : List ℕ) (n : ℕ) → length xs ≤ n → (length xs ≡ n) ⊎ (ys ≡ []) → drop n (xs ++ ys) ≡ ys
drop-first [] ys zero h c = refl
drop-first [] ys (suc n) h (inl e) = absurd (omega arith)
drop-first [] ys (suc n) h (inr e) = rw e refl
drop-first (x ∷ xs) ys zero h c = absurd (omega arith)
drop-first (x ∷ xs) ys (suc n) h (inl e) = drop-first xs ys n (omega arith) (inl (omega arith))
drop-first (x ∷ xs) ys (suc n) h (inr e) = drop-first xs ys n (omega arith) (inr e)

take-drop : (n : ℕ) (xs : List ℕ) → take n xs ++ drop n xs ≡ xs
take-drop zero xs = refl
take-drop (suc n) [] = refl
take-drop (suc n) (x ∷ xs) = ap (◌∷◌ x) (take-drop n xs)

nil_of_length : (xs : List ℕ) → length xs ≡ 0 → xs ≡ []
nil_of_length [] e = refl
nil_of_length (x ∷ xs) e = absurd (omega (arith, e))

chunks_first :
    (fuel : ℕ) (first rest : List ℕ)
    → 0 < length first
    → length first ≤ 16
    → (length first ≡ 16) ⊎ (rest ≡ [])
    → chunks_fuel (suc fuel) (first ++ rest) ≡ first ∷ chunks_fuel fuel rest
unfolding chunks_fuel
chunks_first fuel [] rest some_bytes fits cut = absurd (omega arith)
chunks_first fuel (x ∷ xs) rest some_bytes fits cut =
    cc (take-first (x ∷ xs) rest 16 fits cut, drop-first (x ∷ xs) rest 16 fits cut)

module _ (g : Gcm) (sixteen : (b : List ℕ) → length (g.cipher b) ≡ 16) where
  length-block : (c : ℕ) → length (block g c) ≡ 16
  unfolding block
  length-block c = sixteen (to_be 16 c)

  -- A chunk under the key stream, and the chunk back.
  abbrev masked : ℕ → List ℕ → List ℕ
  masked c chunk = take (length chunk) (xor_into (block g (inc32 c)) chunk)

  length-masked :
      (c : ℕ) (chunk : List ℕ) → length chunk ≤ 16 → length (masked c chunk) ≡ length chunk
  length-masked c chunk h =
      let key = block g (inc32 c) in
      omega (
        arith,
        length-take (length chunk) (xor_into key chunk),
        length-xor_into key chunk,
        length-block (inc32 c),
      )

  masked-masked : (c : ℕ) (chunk : List ℕ) → length chunk ≤ 16 → masked c (masked c chunk) ≡ chunk
  masked-masked c chunk h =
      xor_into-xor_into (block g (inc32 c)) chunk (omega (arith, length-block (inc32 c)))

  length-crypt :
      (fuel c : ℕ) (xs : List ℕ)
      → length xs ≤ fuel
      → length (crypt g c (chunks_fuel fuel xs)) ≡ length xs
  unfolding crypt chunks_fuel
  length-crypt zero c [] h = refl
  length-crypt zero c (x ∷ xs) h = absurd (omega arith)
  length-crypt (suc fuel) c [] h = refl
  length-crypt (suc fuel) c (x ∷ xs) h =
      let first = take 16 (x ∷ xs) in
      let rest = drop 16 (x ∷ xs) in
      omega (
        arith,
        length-append (masked c first) (crypt g (inc32 c) (chunks_fuel fuel rest)),
        length-masked c first (omega (arith, length-take 16 (x ∷ xs))),
        length-crypt fuel (inc32 c) rest (omega (arith, length-drop 16 (x ∷ xs))),
        length-take 16 (x ∷ xs),
        length-drop 16 (x ∷ xs),
      )

  -- The loop over a text that starts with a chunk.
  crypt_first :
      (fuel c : ℕ) (first rest : List ℕ)
      → 0 < length first
      → length first ≤ 16
      → (length first ≡ 16) ⊎ (rest ≡ [])
      → crypt g c (chunks_fuel (suc fuel) (first ++ rest))
        ≡ masked c first ++ crypt g (inc32 c) (chunks_fuel fuel rest)
  unfolding crypt
  crypt_first fuel c [] rest some_bytes fits cut = absurd (omega arith)
  crypt_first fuel c (x ∷ xs) rest some_bytes fits cut =
      ap (crypt g c) (chunks_first fuel (x ∷ xs) rest some_bytes fits cut)

  -- A cut off chunk is whole, or the last.
  last_or_whole :
      (fuel c : ℕ) (xs : List ℕ)
      → length xs ≤ fuel + 16
      → (length (take 16 xs) ≡ 16) ⊎ (crypt g c (chunks_fuel fuel (drop 16 xs)) ≡ [])
  last_or_whole fuel c xs h = elim (dec_lt (length xs) 16) [
    | no p ↦ inl (omega (arith, length-take 16 xs, p))
    | yes p ↦ inr (
        nil_of_length _ (
          omega (
            arith,
            length-crypt fuel c (drop 16 xs) (omega (arith, length-drop 16 xs)),
            length-drop 16 xs,
          )))
  ]

  crypt-crypt :
      (fuel c : ℕ) (xs : List ℕ)
      → length xs ≤ fuel
      → crypt g c (chunks_fuel fuel (crypt g c (chunks_fuel fuel xs))) ≡ xs
  crypt-crypt zero c [] h = unfold crypt chunks_fuel in refl
  crypt-crypt zero c (x ∷ xs) h = absurd (omega arith)
  crypt-crypt (suc fuel) c [] h = unfold crypt chunks_fuel in refl
  crypt-crypt (suc fuel) c (x ∷ xs) h =
      let first = take 16 (x ∷ xs) in
      let rest = drop 16 (x ∷ xs) in
      let fits : length first ≤ 16 = omega (arith, length-take 16 (x ∷ xs)) in
      let sizes = length-masked c first fits in
      let there : crypt g c (chunks_fuel (suc fuel) (x ∷ xs))
          ≡ masked c first ++ crypt g (inc32 c) (chunks_fuel fuel rest) =
        unfold crypt chunks_fuel in refl in
      rw there (
        crypt_first fuel c (masked c first) (crypt g (inc32 c) (chunks_fuel fuel rest))
          (omega (arith, sizes)) (omega (arith, sizes, fits))
          (⊎_elim (λ e. inl (sizes ∙ e)) inr (last_or_whole fuel (inc32 c) (x ∷ xs) (omega arith)))
        ∙ (rw (masked-masked c first fits) (
            rw (crypt-crypt fuel (inc32 c) rest (omega (arith, length-drop 16 (x ∷ xs))))
              (take-drop 16 (x ∷ xs)))))

  crypt-chunks : (c : ℕ) (xs : List ℕ) → crypt g c (chunks (crypt g c (chunks xs))) ≡ xs
  unfolding chunks
  crypt-chunks c xs =
      rw (length-crypt (length xs) c xs (omega arith)) (crypt-crypt (length xs) c xs (omega arith))

-- Byte slices are compared byte by byte.
same_bytes_iff : (xs ys : List ℕ) → (same_bytes xs ys ≡ true) ↔ (xs ≡ ys)
unfolding same_bytes
same_bytes_iff [] [] = (λ e. refl, λ e. refl)
same_bytes_iff [] (y ∷ ys) = (λ e. cc, λ e. cc)
same_bytes_iff (x ∷ xs) [] = (λ e. cc, λ e. cc)
same_bytes_iff (x ∷ xs) (y ∷ ys) = ground (arith, same_bytes_iff xs ys)

length-tag : (g : Gcm) (iv aad ct : List ℕ) → length (tag g iv aad ct) ≡ 16
unfolding tag
length-tag g iv aad ct =
    length-to_be 16 (bit_xor (ghash g.h (authenticated aad ct)) (from_be 0 (block g (j0 g iv))))

open_text_iff :
    (g : Gcm) (iv aad ct given text : List ℕ)
    → (open_text g iv aad ct given ≡ plain text)
      ↔ ((tag g iv aad ct ≡ given) × (crypt g (j0 g iv) (chunks ct) ≡ text))
unfolding open_text
open_text_iff g iv aad ct given text = ground (arith, same_bytes_iff (tag g iv aad ct) given)

-- The two ways of `open`, and `seal` in its parts.
open_short :
    (g : Gcm) (iv aad sealed : List ℕ)
    → length sealed < 16
    → open_sealed g iv aad sealed ≡ refused too_short
unfolding open_sealed
open_short g iv aad sealed h = ground arith

long_enough : (n : ℕ) → 16 ≤ n → ltb n 16 ≡ false
long_enough n h = ground arith

open_long :
    (g : Gcm) (iv aad ct given : List ℕ)
    → length given ≡ 16
    → open_sealed g iv aad (ct ++ given) ≡ open_text g iv aad ct given
unfolding open_sealed
open_long g iv aad ct given h =
    let sizes = length-append ct given in
    let n : ℕ = length (ct ++ given) - 16 in
    let at_end : n ≡ length ct = omega (arith, sizes, h) in
    let left : take n (ct ++ given) ≡ ct =
      rw at_end (take-first ct given (length ct) (omega arith) (inl refl)) in
    let right : drop n (ct ++ given) ≡ given =
      rw at_end (drop-first ct given (length ct) (omega arith) (inl refl)) in
    rw (long_enough (length (ct ++ given)) (omega (arith, sizes, h))) (rw left (rw right refl))

seal_parts :
    (g : Gcm) (iv aad text : List ℕ)
    → (let out = crypt g (j0 g iv) (chunks text) in seal g iv aad text ≡ out ++ tag g iv aad out)
unfolding seal
seal_parts g iv aad text = refl

module _ (g : Gcm) (iv aad : List ℕ) (sixteen : (b : List ℕ) → length (g.cipher b) ≡ 16) where
  seal_of_open_text :
      (ct given text : List ℕ)
      → open_text g iv aad ct given ≡ plain text
      → ct ++ given ≡ seal g iv aad text
  seal_of_open_text ct given text h =
      let parts = (open_text_iff g iv aad ct given text).0 h in
      rw (seal_parts g iv aad text) (
        rw (← parts.1)
          (rw (crypt-chunks g sixteen (j0 g iv) ct) (ap (λ (t : List ℕ). ct ++ t) (sym parts.0))))

  opened :
      (sealed text : List ℕ)
      → open_sealed g iv aad sealed ≡ plain text
      → sealed ≡ seal g iv aad text
  opened sealed text h = elim (dec_lt (length sealed) 16) [
    | yes short ↦ absurd (cc (open_short g iv aad sealed short))
    | no long ↦
        (let n : ℕ = length sealed - 16 in
          let ct = take n sealed in
          let given = drop n sealed in
          let whole = take-drop n sealed in
          let as_text = open_long g iv aad ct given (omega (arith, length-drop n sealed, long)) in
          sym whole
          ∙ seal_of_open_text ct given text (sym as_text ∙ ap (open_sealed g iv aad) whole ∙ h))
  ]

  reopened : (text : List ℕ) → open_sealed g iv aad (seal g iv aad text) ≡ plain text
  reopened text =
      let ct = crypt g (j0 g iv) (chunks text) in
      rw (seal_parts g iv aad text) (
        open_long g iv aad ct (tag g iv aad ct) (length-tag g iv aad ct)
        ∙ (open_text_iff g iv aad ct (tag g iv aad ct) text).1
            (refl, crypt-chunks g sixteen (j0 g iv) text))

  -- If the cipher encrypts to blocks of sixteen bytes, then `open` accepts exactly what `seal` makes of
  -- a text, under the same vector and additional data, and gives the text back.
  pub open-seal_iff :
      (sealed text : List ℕ)
      → (open_sealed g iv aad sealed ≡ plain text) ↔ (sealed ≡ seal g iv aad text)
  open-seal_iff sealed text = (opened sealed text, λ e. rw e (reopened text))
