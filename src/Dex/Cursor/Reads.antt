-- ===== src/Dex/Cursor/Reads.antt =====
-- The reads of src/dex/read.rs: bounds, what they leave, and the two ways to read one word.
use native.Mathlib.Nat.{zero-add, add-zero}
use mathlib.Core.Path.{subst}
use dexvm.Prelude.{ℕ, zero, suc, ◌+◌, ◌/◌, ◌%◌, ◌^◌, ◌≤◌, ◌<◌, ◌≡◌, refl, ap, ◌*◌, ◌∙◌, arith}
use dexvm.Prelude.{List, [], ◌∷◌, ◌++◌, some, ok, err, length, get_elem?, get_or, take, drop}
use dexvm.Prelude.{get_elem?-eq-get_or, lt-length_of_get_elem?, get_elem?-past}
use dexvm.Dex.Cursor.{Cursor, at, u8, u16, u32, bytes}
use dexvm.Dex.Cursor.{byte_at, u16_at, u32_at, slice_at}

abbrev pub IsByte : ℕ → Type 0
IsByte b = b < 256

-- `bs` stands in the buffer from offset `p` on.
abbrev pub BytesAt : List ℕ → ℕ → List ℕ → Type 0
BytesAt d p [] = Unit
BytesAt d p (b ∷ bs) = (get_elem? d p ≡ some b) × BytesAt d (p + 1) bs

pub BytesAt-append :
    (d xs ys : List ℕ) (i : ℕ)
    → BytesAt d i (xs ++ ys)
    → BytesAt d i xs × BytesAt d (i + length xs) ys
BytesAt-append d [] ys i h = (tt, rw (add-zero i) h)
BytesAt-append d (x ∷ xs) ys i h =
    let later = BytesAt-append d xs ys (i + 1) h.1 in
    let e : i + 1 + length xs ≡ i + suc (length xs) = omega arith in
    ((h.0, later.0), subst (λ (p : ℕ). BytesAt d p ys) e later.1)

-- The cursor stands inside the buffer or at its end.
pub record IsInside (c : Cursor) : Type 0 where
  pub within : c.pos ≤ length c.data_bytes

-- `c'` is `c` moved on within the same buffer.
pub record Advances (c c' : Cursor) : Type 0 where
  pub same : c'.data_bytes ≡ c.data_bytes
  pub ahead : c.pos ≤ c'.pos
  pub inside : c'.pos ≤ length c.data_bytes

get_or-drop : (p i : ℕ) (d : List ℕ) → get_or (drop p d) i 0 ≡ get_or d (p + i) 0
get_or-drop zero i d = rw zero-add refl
get_or-drop (suc p) i [] = refl
get_or-drop (suc p) i (b ∷ d) =
    let e : suc p + i ≡ suc (p + i) = omega arith in rw e (get_or-drop p i d)

get_or-take : (n i : ℕ) (d : List ℕ) → i < n → get_or (take n d) i 0 ≡ get_or d i 0
get_or-take zero i d h = absurd (omega arith)
get_or-take (suc n) i [] h = refl
get_or-take (suc n) zero (b ∷ d) h = refl
get_or-take (suc n) (suc i) (b ∷ d) h = get_or-take n i d (omega arith)

get_or-slice :
    (n p i : ℕ) (d : List ℕ) → i < n → get_or (take n (drop p d)) i 0 ≡ get_or d (p + i) 0
get_or-slice n p i d h = get_or-take n i (drop p d) h ∙ get_or-drop p i d

-- The reads at the cursor and the reads at an offset give the same bytes and the same errors.
cursor_reads_agree :
    (c : Cursor) (n : ℕ)
    → ((u8 c).0 ≡ byte_at c c.pos)
      × ((u16 c).0 ≡ u16_at c c.pos)
      × ((u32 c).0 ≡ u32_at c c.pos)
      × ((bytes n c).0 ≡ slice_at c c.pos n)
unfolding u8 u16 u32 bytes byte_at u16_at u32_at slice_at
cursor_reads_agree c n = (
  ground (arith, get_elem?-eq-get_or c.data_bytes c.pos 0, get_elem?-past c.data_bytes c.pos),
  ground (arith, slice 2 0, slice 2 1),
  ground (arith, slice 4 0, slice 4 1, slice 4 2, slice 4 3),
  ground arith,
)
  where
    slice :
        (k i : ℕ)
        → i < k
        → get_or (take k (drop c.pos c.data_bytes)) i 0 ≡ get_or c.data_bytes (c.pos + i) 0
    slice k i = get_or-slice k c.pos i c.data_bytes

-- From a cursor inside the buffer, each of the four reads keeps the buffer, does not move back, and
-- leaves the cursor inside it, also where it fails.
fixed_reads-Advances :
    (c : Cursor) (n : ℕ)
    → IsInside c
    → Advances c (u8 c).1 × Advances c (u16 c).1 × Advances c (u32 c).1 × Advances c (bytes n c).1
unfolding u8 u16 u32 bytes
fixed_reads-Advances c n h = (ground arith, ground arith, ground arith, ground arith)

-- A read of bytes that are not all there fails with the offset of the cursor, and moves nothing.
pub fixed_reads_fail :
    (c : Cursor) (n : ℕ)
    → ((length c.data_bytes < c.pos + 1) → u8 c ≡ (err (at c.pos), c))
      × ((length c.data_bytes < c.pos + 2) → u16 c ≡ (err (at c.pos), c))
      × ((length c.data_bytes < c.pos + 4) → u32 c ≡ (err (at c.pos), c))
      × ((length c.data_bytes < c.pos + n) → bytes n c ≡ (err (at c.pos), c))
unfolding u8 u16 u32 bytes
fixed_reads_fail c n = (λ h. ground arith, λ h. ground arith, λ h. ground arith, λ h. ground arith)

-- The four bytes of a 32-bit word, lowest first.
abbrev pub le_bytes32 : ℕ → List ℕ
le_bytes32 v = v % 256 ∷ v / 256 % 256 ∷ v / 65536 % 256 ∷ v / 16777216 % 256 ∷ []

get_or_of_get_elem? : (d : List ℕ) (p : ℕ) {b : ℕ} → get_elem? d p ≡ some b → get_or d p 0 ≡ b
get_or_of_get_elem? [] p h = cc
get_or_of_get_elem? (x ∷ d) zero h = cc
get_or_of_get_elem? (x ∷ d) (suc p) h = get_or_of_get_elem? d p h

pub u8-BytesAt :
    (c : Cursor) (b : ℕ)
    → get_elem? c.data_bytes c.pos ≡ some b
    → u8 c ≡ (ok b, record c { pos = c.pos + 1 })
unfolding u8
u8-BytesAt c b h =
    ground
      (arith, get_or_of_get_elem? c.data_bytes c.pos h, lt-length_of_get_elem? c.data_bytes c.pos h)

-- `u32` reads back a word that stands in the buffer in little-endian order, and passes it.
pub u32-le_bytes32 :
    (c : Cursor) (v : ℕ)
    → v < 2 ^ 32
    → BytesAt c.data_bytes c.pos (le_bytes32 v)
    → u32 c ≡ (ok v, record c { pos = c.pos + 4 })
unfolding u32
u32-le_bytes32 c v fits (b0, (b1, (b2, (b3, _)))) =
    let two : c.pos + 1 + 1 ≡ c.pos + 2 = omega arith in
    let three : c.pos + 1 + 1 + 1 ≡ c.pos + 3 = omega arith in
    ground (
      arith,
      read c.pos b0,
      read (c.pos + 1) b1,
      read (c.pos + 2) (subst (λ p. get_elem? c.data_bytes p ≡ some (v / 65536 % 256)) two b2),
      read (c.pos + 3) (subst (λ p. get_elem? c.data_bytes p ≡ some (v / 16777216 % 256)) three b3),
      lt-length_of_get_elem? c.data_bytes (c.pos + 1 + 1 + 1) b3,
    )
  where
    read : (p : ℕ) {b : ℕ} → get_elem? c.data_bytes p ≡ some b → get_or c.data_bytes p 0 ≡ b
    read = get_or_of_get_elem? c.data_bytes

-- The two bytes of a 16-bit word, lowest first.
abbrev pub le_bytes16 : ℕ → List ℕ
le_bytes16 v = v % 256 ∷ v / 256 % 256 ∷ []

pub u16-le_bytes16 :
    (c : Cursor) (v : ℕ)
    → v < 2 ^ 16
    → BytesAt c.data_bytes c.pos (le_bytes16 v)
    → u16 c ≡ (ok v, record c { pos = c.pos + 2 })
unfolding u16
u16-le_bytes16 c v fits (b0, (b1, _)) = ground (
  arith,
  get_or_of_get_elem? c.data_bytes c.pos b0,
  get_or_of_get_elem? c.data_bytes (c.pos + 1) b1,
  lt-length_of_get_elem? c.data_bytes (c.pos + 1) b1,
)

pub BytesAt-lt : (d : List ℕ) (p : ℕ) (bs : List ℕ) → 0 < length bs → BytesAt d p bs → p < length d
BytesAt-lt d p [] h there = absurd (omega arith)
BytesAt-lt d p (b ∷ bs) h there = lt-length_of_get_elem? d p there.0

-- A read of two bytes that are there gives a word.
pub u16-some :
    (c : Cursor)
    → c.pos + 2 ≤ length c.data_bytes
    → (v : ℕ) × (u16 c ≡ (ok v, record c { pos = c.pos + 2 }))
unfolding u16
u16-some c h = (get_or c.data_bytes c.pos 0 + get_or c.data_bytes (c.pos + 1) 0 * 256, ground arith)

drop-get_elem? : (d : List ℕ) (p b : ℕ) → get_elem? d p ≡ some b → drop p d ≡ b ∷ drop (suc p) d
drop-get_elem? [] p b h = absurd (cc)
drop-get_elem? (x ∷ d) zero b h = cc
drop-get_elem? (x ∷ d) (suc p) b h = drop-get_elem? d p b h

take-drop-BytesAt :
    (d : List ℕ) (p : ℕ) (bs : List ℕ) → BytesAt d p bs → take (length bs) (drop p d) ≡ bs
take-drop-BytesAt d p [] h = refl
take-drop-BytesAt d p (b ∷ bs) (h, hs) =
    let e : suc p ≡ p + 1 = omega arith in
    rw (drop-get_elem? d p b h, e) (ap (λ r. b ∷ r) (take-drop-BytesAt d (p + 1) bs hs))

-- `bytes` reads back what stands in the buffer, and passes it.
pub bytes-BytesAt :
    (c : Cursor) (n : ℕ) (bs : List ℕ)
    → length bs ≡ n
    → c.pos + n ≤ length c.data_bytes
    → BytesAt c.data_bytes c.pos bs
    → bytes n c ≡ (ok bs, record c { pos = c.pos + n })
unfolding bytes
bytes-BytesAt c n bs e room there =
    let same : take n (drop c.pos c.data_bytes) ≡ bs =
      subst (λ (k : ℕ). take k (drop c.pos c.data_bytes) ≡ bs) e
        (take-drop-BytesAt c.data_bytes c.pos bs there) in
    ground (arith, same)
