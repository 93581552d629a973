-- ===== src/Vm/Proto/Ends.antt =====
-- `parse_wire` of src/vm/native/proto.rs on any input: it ends, and what it does with a length that
-- overflows.
use dexvm.Prelude.{
  ℕ, zero, suc, ◌+◌, ◌-◌, ◌*◌, ◌/◌, ◌%◌, ◌^◌, ◌≤◌, ◌<◌, ◌≡◌, ◌≢◌, refl, ◌∙◌, ap, arith,
}
use dexvm.Prelude.{
  List, [], ◌∷◌, ◌++◌, length, All, length-append, ltb, leb, ◌==◌, Bool, true, false, inl, inr,
  if◌then◌else◌, Option-cases,
}
use dexvm.Dex.Cursor.Reads.{BytesAt, BytesAt-append}
use dexvm.Vm.Proto.{
  WireValue, Wire, WireError, ok, err, panicked, stuck, ◌>>=◌, ok_or, read_varint, varint_value,
  fixed64_value, fixed32_value, bytes_at, bytes_value, parse_field, parse_loop, parse_wire,
  value_of_type, field_value,
}
use dexvm.Vm.Proto.Varint.{varint_bytes, read_varint-varint_bytes, read_varint-advances}
use dexvm.Vm.Proto.Message.{
  IsField, message_bytes, parse_loop-message, count_le, BytesAt-behind, varint_bytes-pos,
}

-- A computation that does not run out of fuel, and of whose value `P` holds.
pub data Settles {A : Type 0} (P : A → Type 0) : Wire A → Type 0 where
  settles : {a : A} → P a → Settles P (ok a)
  fails : {e : WireError} → Settles P (err e)
  panics : Settles P panicked

module _ {A : Type 0} {P : A → Type 0} where
  Settles-bind :
      {B : Type 0} {Q : B → Type 0} {m : Wire A} {f : A → Wire B}
      → Settles P m
      → ((a : A) → P a → Settles Q (f a))
      → Settles Q (m >>= f)
  Settles-bind (settles h) k = k _ h
  Settles-bind fails k = fails
  Settles-bind panics k = panics

  Settles-if :
      (b : Bool) {x y : Wire A}
      → Settles P x
      → (b ≡ false → Settles P y)
      → Settles P (if b then x else y)
  Settles-if true hx hy = hx
  Settles-if false hx hy = hy refl

  Settles-not_stuck : {m : Wire A} → Settles P m → m ≢ stuck
  Settles-not_stuck (settles h) = λ e. cc
  Settles-not_stuck fails = λ e. cc
  Settles-not_stuck panics = λ e. cc

  Settles-ok : {a : A} → Settles P (ok a) → P a
  Settles-ok (settles h) = h

-- A value that was read ends behind its start, inside the buffer.
abbrev Within : {A : Type 0} → List ℕ → ℕ → A × ℕ → Type 0
Within d i r = (i ≤ r.1) × (r.1 ≤ length d)

-- A varint that is read ends behind its start.
abbrev Read : List ℕ → ℕ → ℕ × ℕ → Type 0
Read d i r = (0 < r.1) × (i + r.1 ≤ length d)

leb_lem : (a b : ℕ) → a ≤ b → leb a b ≡ true
leb_lem a b h = ground arith

All-concat {ℓ κ} :
    {A : Type ℓ} (P : A → Type κ) (xs : List A) (x : A) → All P xs → P x → All P (xs ++ (x ∷ []))
All-concat P [] x h p = (p, tt)
All-concat P (y ∷ ys) x h p = (h.0, All-concat P ys x h.1 p)

module _ (d : List ℕ) (i : ℕ) where
  read_varint-Settles : (e : WireError) → Settles (Read d i) (ok_or (read_varint d i) e)
  read_varint-Settles e = elim (Option-cases (read_varint d i)) [
    | inl gone ↦ rw gone fails
    | inr ((v, n), there) ↦ rw there (settles (read_varint-advances d i there))
  ]

  varint_value-Settles : Settles (Within d i) (varint_value d i)
  unfolding varint_value
  varint_value-Settles =
      Settles-bind (read_varint-Settles _) (λ (v, n) h. settles (omega (arith, h.0, h.1)))

  fixed64_value-Settles : Settles (Within d i) (fixed64_value d i)
  unfolding fixed64_value
  fixed64_value-Settles = Settles-if (ltb (length d) (i + 8)) fails (λ e. settles (ground arith))

  fixed32_value-Settles : Settles (Within d i) (fixed32_value d i)
  unfolding fixed32_value
  fixed32_value-Settles = Settles-if (ltb (length d) (i + 4)) fails (λ e. settles (ground arith))

  bytes_at-Settles : (len : ℕ) → Settles (Within d i) (bytes_at d i len)
  unfolding bytes_at
  bytes_at-Settles len =
      Settles-if (leb (2 ^ 64) (i + len)) panics
        (λ _. Settles-if (ltb (length d) (i + len)) fails (λ e. settles (ground arith)))

-- A later start.
Within-later :
    {A : Type 0} (d : List ℕ) (i n : ℕ) {m : Wire (A × ℕ)}
    → Settles (Within d (i + n)) m
    → Settles (Within d i) m
Within-later d i n (settles h) = settles (omega (arith, h.0), h.1)
Within-later d i n fails = fails
Within-later d i n panics = panics

bytes_value-Settles : (d : List ℕ) (i : ℕ) → Settles (Within d i) (bytes_value d i)
unfolding bytes_value
bytes_value-Settles d i =
    Settles-bind (read_varint-Settles d i _)
      (λ (len, n) h. Within-later d i n (bytes_at-Settles d (i + n) len))

value_of_type-Settles :
    (wtype : ℕ) (d : List ℕ) (i : ℕ) → Settles (Within d i) (value_of_type wtype d i)
unfolding value_of_type
value_of_type-Settles wtype d i = Settles-if (wtype == 0) (varint_value-Settles d i) (λ _.
    Settles-if (wtype == 1) (fixed64_value-Settles d i) (λ _.
      Settles-if (wtype == 2) (bytes_value-Settles d i)
        (λ _. Settles-if (wtype == 5) (fixed32_value-Settles d i) (λ _. fails))))

-- A field that was read has a number that is not 0, and stands in front of the index.
abbrev IsParsed : List ℕ → ℕ → (ℕ × WireValue) × ℕ → Type 0
IsParsed d i r = (0 < r.0.0) × (r.0.0 < 2 ^ 32) × (i < r.1) × (r.1 ≤ length d)

field_value-Settles :
    (tag n : ℕ) (d : List ℕ) (i : ℕ) → 0 < n → Settles (IsParsed d i) (field_value tag d (i + n))
unfolding field_value
field_value-Settles tag n d i h = Settles-if (tag / 8 % 2 ^ 32 == 0) fails (λ e.
    Settles-bind (value_of_type-Settles (tag % 8) d (i + n))
      (λ (value, j) w. settles (ground arith, omega arith, omega (arith, w.0, h), w.1)))

parse_field-Settles : (d : List ℕ) (i : ℕ) → Settles (IsParsed d i) (parse_field d i)
unfolding parse_field
parse_field-Settles d i =
    Settles-bind (read_varint-Settles d i _) (λ (tag, n) h. field_value-Settles tag n d i h.0)

-- A field number of the format.
abbrev pub HasNumber : ℕ × WireValue → Type 0
HasNumber f = (0 < f.0) × (f.0 < 2 ^ 32)

parse_loop-Settles :
    (fuel : ℕ) (d : List ℕ) (i : ℕ) (out : List (ℕ × WireValue))
    → length d ≤ i + fuel
    → All HasNumber out
    → Settles (All HasNumber) (parse_loop fuel d i out)
unfolding parse_loop
parse_loop-Settles zero d i out enough valid =
    rw (leb_lem (length d) i (omega arith)) (settles valid)
parse_loop-Settles (suc fuel) d i out enough valid =
    Settles-if (leb (length d) i) (settles valid) (λ _.
      Settles-bind (parse_field-Settles d i) (λ (f, j) h.
        parse_loop-Settles fuel d j (out ++ (f ∷ [])) (omega (arith, h.2))
          (All-concat HasNumber out f valid (h.0, h.1))))

-- `parse_wire` ends on every input, with an error, a panic or fields; the numbers of the fields are from 1
-- to 2 ^ 32 - 1.
pub parse_wire-Settles : (d : List ℕ) → Settles (All HasNumber) (parse_wire d)
unfolding parse_wire
parse_wire-Settles d = parse_loop-Settles (length d) d 0 [] (omega arith) tt

-- The front of a field of bytes: its tag and its length.
abbrev pub length_prefix : ℕ → ℕ → List ℕ
length_prefix field len = varint_bytes 9 (field * 8 + 2) ++ varint_bytes 9 len

prefix-panics :
    (d : List ℕ) (i field len : ℕ)
    → (0 < field) × (field < 2 ^ 32)
    → len < 2 ^ 64
    → BytesAt d i (length_prefix field len)
    → 2 ^ 64 ≤ i + length (length_prefix field len) + len
    → parse_field d i ≡ panicked
unfolding parse_field field_value value_of_type bytes_value bytes_at
prefix-panics d i field len is_field small there over =
    let tag = varint_bytes 9 (field * 8 + 2) in
    let at_end = BytesAt-append d tag (varint_bytes 9 len) i there in
    let number : (field * 8 + 2) / 8 % 2 ^ 32 ≡ field = omega arith in
    let kind : (field * 8 + 2) % 8 ≡ 2 = omega arith in
    ground (
      arith,
      read_varint-varint_bytes d i (field * 8 + 2) (omega arith) at_end.0,
      read_varint-varint_bytes d (i + length tag) len small at_end.1,
      length-append tag (varint_bytes 9 len),
      number,
      kind,
    )

panic_round :
    (fuel : ℕ) (d : List ℕ) (i : ℕ) (out : List (ℕ × WireValue))
    → i < length d
    → parse_field d i ≡ panicked
    → parse_loop (suc fuel) d i out ≡ panicked
unfolding parse_loop
panic_round fuel d i out inside e = ground (arith, e)

-- Where behind whole fields a length follows that leads past 2 ^ 64, `parse_wire` panics, whatever stands
-- behind it, and does not report a truncated field.
pub parse_wire-panics :
    (fs : List (ℕ × WireValue)) (field len : ℕ) (rest : List ℕ)
    → All IsField fs
    → (0 < field) × (field < 2 ^ 32)
    → len < 2 ^ 64
    → length (message_bytes fs ++ (length_prefix field len ++ rest)) < 2 ^ 64
    → 2 ^ 64 ≤ length (message_bytes fs) + length (length_prefix field len) + len
    → parse_wire (message_bytes fs ++ (length_prefix field len ++ rest)) ≡ panicked
unfolding parse_wire
parse_wire-panics fs field len rest valid is_field small room over =
    let front = message_bytes fs in
    let prefix = length_prefix field len in
    let d = front ++ (prefix ++ rest) in
    let i = length front in
    let sizes : length d ≡ i + (length prefix + length rest) =
      omega (arith, length-append front (prefix ++ rest), length-append prefix rest) in
    let some_bytes : 0 < length prefix = omega (
      arith,
      length-append (varint_bytes 9 (field * 8 + 2)) (varint_bytes 9 len),
      varint_bytes-pos 9 len,
    ) in
    let left = length d - length fs - 1 in
    let fuel : length d ≡ length fs + suc left = omega (arith, sizes, count_le fs) in
    let at_front = BytesAt-append d front (prefix ++ rest) 0 (BytesAt-behind [] d) in
    let at_prefix = BytesAt-append d prefix rest (0 + i) at_front.1 in
    ap (λ (n : ℕ). parse_loop n d 0 []) fuel
    ∙ parse_loop-message (suc left) d 0 fs [] room (omega (arith, sizes)) valid at_front.0
    ∙ panic_round left d (0 + i) fs (omega (arith, sizes))
        (prefix-panics d (0 + i) field len is_field small at_prefix.0 (omega arith))
