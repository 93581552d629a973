-- ===== src/Dex/Mutf8/RoundTrip.antt =====
-- `decode_mutf8` of src/dex/read.rs turns modified UTF-8 into UTF-8.
use dexvm.Prelude.{
  ℕ, zero, suc, ◌+◌, ◌/◌, ◌%◌, ◌≤◌, ◌<◌, ◌≡◌, refl, ap, sym, ◌∙◌, arith, List, [], ◌∷◌, ◌++◌, All,
  true, false, ok, length, drop, ltb, ◌==◌, if◌then◌else◌, drop-append, length-append, Bool-cases,
  inl, inr,
}
use dexvm.Dex.Mutf8.{Chunk, chunk_of, mutf8_loop, decode_mutf8}

-- The bytes of a character of up to 16 bits other than 0, the same in both encodings.
abbrev pub utf8_bytes : ℕ → List ℕ
utf8_bytes c =
    if ltb c 0x80
    then c ∷ []
    else if ltb c 0x800
    then (0xc0 + c / 64) ∷ (0x80 + c % 64) ∷ []
    else (0xe0 + c / 4096) ∷ (0x80 + c / 64 % 64) ∷ (0x80 + c % 64) ∷ []

-- Modified UTF-8 writes 0 in two bytes.
abbrev pub mutf8_bytes : ℕ → List ℕ
mutf8_bytes c = if c == 0 then 0xc0 ∷ 0x80 ∷ [] else utf8_bytes c

abbrev pub encode : (ℕ → List ℕ) → List ℕ → List ℕ
encode bytes [] = []
encode bytes (c ∷ cs) = bytes c ++ encode bytes cs

-- A round at a lead byte of each width.
one_byte :
    (a : ℕ) (rest : List ℕ) → 0 < a → a < 0x80 → chunk_of (a ∷ rest) ≡ Chunk.pushes 1 (a ∷ [])
unfolding chunk_of
one_byte a rest pos small =
    let nonzero : (a == 0) ≡ false = ground (arith, pos) in
    let plain : (a == 0xc0) ≡ false = ground (arith, small) in
    let ascii : ltb a 0x80 ≡ true = ground (arith, small) in rw (nonzero, plain, ascii) refl

two_bytes :
    (a b : ℕ) (rest : List ℕ)
    → 0xc0 < a
    → a < 0xe0
    → chunk_of (a ∷ b ∷ rest) ≡ Chunk.pushes 2 (a ∷ b ∷ [])
unfolding chunk_of
two_bytes a b rest low high =
    let nonzero : (a == 0) ≡ false = ground (arith, low) in
    let plain : (a == 0xc0) ≡ false = ground (arith, low) in
    let ascii : ltb a 0x80 ≡ false = ground (arith, low) in
    let two : ltb a 0xe0 ≡ true = ground (arith, high) in
    let there : ltb (suc (suc (length rest))) 2 ≡ false = ground arith in
    rw (nonzero, plain, ascii, two, there) refl

three_bytes :
    (a b c : ℕ) (rest : List ℕ)
    → 0xe0 ≤ a
    → a < 0xf0
    → chunk_of (a ∷ b ∷ c ∷ rest) ≡ Chunk.pushes 3 (a ∷ b ∷ c ∷ [])
unfolding chunk_of
three_bytes a b c rest low high =
    let nonzero : (a == 0) ≡ false = ground (arith, low) in
    let plain : (a == 0xc0) ≡ false = ground (arith, low) in
    let ascii : ltb a 0x80 ≡ false = ground (arith, low) in
    let two : ltb a 0xe0 ≡ false = ground (arith, low) in
    let three : ltb a 0xf0 ≡ true = ground (arith, high) in
    let there : ltb (suc (suc (suc (length rest)))) 3 ≡ false = ground arith in
    rw (nonzero, plain, ascii, two, three, there) refl

null_bytes : (rest : List ℕ) → chunk_of (0xc0 ∷ 0x80 ∷ rest) ≡ Chunk.pushes 2 (0 ∷ [])
unfolding chunk_of
null_bytes rest = refl

-- What one round reads of a character.
chunk_of-mutf8 :
    (c : ℕ) (rest : List ℕ)
    → c < 0x10000
    → chunk_of (mutf8_bytes c ++ rest) ≡ Chunk.pushes (length (mutf8_bytes c)) (utf8_bytes c)
chunk_of-mutf8 c rest small = elim (Bool-cases (c == 0)) [
  | inl e ↦ (let zero_here : c ≡ 0 = ground (arith, e) in rw zero_here (null_bytes rest))
  | inr e ↦ rw e (elim (Bool-cases (ltb c 0x80)) [
    | inl one ↦ rw one (one_byte c rest (ground (arith, e)) (ground (arith, one)))
    | inr more ↦ rw more (elim (Bool-cases (ltb c 0x800)) [
      | inl two ↦
          (let low : 0x80 ≤ c = ground (arith, more) in
            let high : c < 0x800 = ground (arith, two) in
            rw two (
              two_bytes (0xc0 + c / 64) (0x80 + c % 64) rest (omega (arith, low))
                (omega (arith, high))))
      | inr three ↦ rw three (
          three_bytes (0xe0 + c / 4096) (0x80 + c / 64 % 64) (0x80 + c % 64) rest (omega arith)
            (omega (arith, small)))
    ])
  ])
]

-- The bytes behind the characters: a byte 0 and what follows it, or nothing.
abbrev pub IsEnd : List ℕ → Type 0
IsEnd [] = Unit
IsEnd (b ∷ bytes) = b ≡ 0

end_lem :
    (fuel i : ℕ) (bytes out : List ℕ)
    → length bytes ≤ fuel
    → IsEnd bytes
    → mutf8_loop fuel i bytes out ≡ ok out
unfolding mutf8_loop chunk_of
end_lem fuel i [] out enough h = refl
end_lem zero i (b ∷ bytes) out enough h = absurd (omega arith)
end_lem (suc fuel) i (b ∷ bytes) out enough h = rw h refl

append-nil : (xs : List ℕ) → xs ++ [] ≡ xs
append-nil [] = refl
append-nil (x ∷ xs) = ap (λ l. x ∷ l) (append-nil xs)

append_assoc : (xs ys zs : List ℕ) → (xs ++ ys) ++ zs ≡ xs ++ (ys ++ zs)
append_assoc [] ys zs = refl
append_assoc (x ∷ xs) ys zs = ap (λ l. x ∷ l) (append_assoc xs ys zs)

-- A round that pushes goes on behind its bytes.
push_lem :
    (fuel i n : ℕ) (bytes pushed out : List ℕ)
    → 0 < length bytes
    → chunk_of bytes ≡ Chunk.pushes n pushed
    → mutf8_loop (suc fuel) i bytes out ≡ mutf8_loop fuel (i + n) (drop n bytes) (out ++ pushed)
unfolding mutf8_loop
push_lem fuel i n [] pushed out some_there e = absurd (omega arith)
push_lem fuel i n (b ∷ bytes) pushed out some_there e = rw (mutf8_loop, e) refl

mutf8_bytes-length : (c : ℕ) → 0 < length (mutf8_bytes c)
mutf8_bytes-length c = elim (Bool-cases (c == 0)) [
  | inl e ↦ rw e (omega arith)
  | inr e ↦ rw e (elim (Bool-cases (ltb c 0x80)) [
    | inl one ↦ rw one (omega arith)
    | inr more ↦ rw more (elim (Bool-cases (ltb c 0x800)) [
      | inl two ↦ rw two (omega arith)
      | inr three ↦ rw three (omega arith)
    ])
  ])
]

loop_lem :
    (fuel i : ℕ) (cs rest out : List ℕ)
    → All (λ c. c < 0x10000) cs
    → IsEnd rest
    → length (encode mutf8_bytes cs ++ rest) ≤ fuel
    → mutf8_loop fuel i (encode mutf8_bytes cs ++ rest) out ≡ ok (out ++ encode utf8_bytes cs)
loop_lem fuel i [] rest out h e enough =
    end_lem fuel i rest out enough e ∙ ap ok (sym (append-nil out))
loop_lem zero i (c ∷ cs) rest out h e enough = absurd (
    omega (
      arith,
      mutf8_bytes-length c,
      length-append (mutf8_bytes c ++ encode mutf8_bytes cs) rest,
      length-append (mutf8_bytes c) (encode mutf8_bytes cs),
    ))
loop_lem (suc fuel) i (c ∷ cs) rest out (h, hs) e enough =
    let tail = encode mutf8_bytes cs ++ rest in
    let split = append_assoc (mutf8_bytes c) (encode mutf8_bytes cs) rest in
    let size : length (mutf8_bytes c ++ tail) ≡ length (mutf8_bytes c) + length tail =
      length-append (mutf8_bytes c) tail in
    let positive : 0 < length (mutf8_bytes c) = mutf8_bytes-length c in
    let all : length (mutf8_bytes c ++ tail) ≤ suc fuel = rw split at enough in
    ap (λ l. mutf8_loop (suc fuel) i l out) split
    ∙ push_lem fuel i (length (mutf8_bytes c)) (mutf8_bytes c ++ tail) (utf8_bytes c) out
        (omega (arith, size, positive)) (chunk_of-mutf8 c tail h)
    ∙ ap (λ l. mutf8_loop fuel (i + length (mutf8_bytes c)) l (out ++ utf8_bytes c))
        (drop-append (mutf8_bytes c) tail)
    ∙ loop_lem fuel (i + length (mutf8_bytes c)) cs rest (out ++ utf8_bytes c) hs e
        (omega (arith, all, size, positive))
    ∙ ap ok (append_assoc out (utf8_bytes c) (encode utf8_bytes cs))

-- Characters of up to 16 bits in modified UTF-8, up to a byte 0 or the end of the bytes, are given to the
-- library as the same characters in UTF-8, a character 0 included.
pub decode_mutf8-encode :
    {S : Type 0} (from_utf8_lossy : List ℕ → S) (cs rest : List ℕ)
    → All (λ c. c < 0x10000) cs
    → IsEnd rest
    → decode_mutf8 from_utf8_lossy (encode mutf8_bytes cs ++ rest)
      ≡ ok (from_utf8_lossy (encode utf8_bytes cs))
unfolding decode_mutf8
decode_mutf8-encode from_utf8_lossy cs rest h e =
    rw (loop_lem (length (encode mutf8_bytes cs ++ rest)) 0 cs rest [] h e (omega arith)) refl
