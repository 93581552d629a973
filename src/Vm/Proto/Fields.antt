-- ===== src/Vm/Proto/Fields.antt =====
-- The fields of a protobuf message as the format writes them, and `parse_field` of
-- src/vm/native/proto.rs on them.
use dexvm.Prelude.{ℕ, zero, suc, ◌+◌, ◌*◌, ◌/◌, ◌%◌, ◌^◌, ◌≤◌, ◌<◌, ◌≡◌, refl, ◌∙◌, ap, arith}
use dexvm.Prelude.{List, [], ◌∷◌, ◌++◌, some, length, get_elem?, take, drop, length-append}
use native.Mathlib.Nat.{pow-suc}
use dexvm.Prelude.{lt-length_of_get_elem?}
use dexvm.Dex.Cursor.Reads.{BytesAt, BytesAt-append}
use dexvm.Vm.Proto.{WireValue, varint, fixed64, fixed32, bytes, ok, from_le}
use dexvm.Vm.Proto.{
  varint_value, fixed64_value, fixed32_value, bytes_at, bytes_value, value_of_type, field_value,
  parse_field,
}
use dexvm.Vm.Proto.Varint.{varint_bytes, read_varint-varint_bytes}

-- The `n` bytes of a number, lowest first.
unfoldable pub le_bytes : ℕ → ℕ → List ℕ
le_bytes zero v = []
le_bytes (suc n) v = v % 256 ∷ le_bytes n (v / 256)

abbrev pub type_of : WireValue → ℕ
type_of (varint v) = 0
type_of (fixed64 v) = 1
type_of (fixed32 v) = 5
type_of (bytes bs) = 2

unfoldable pub value_bytes : WireValue → List ℕ
unfolding le_bytes varint_bytes
value_bytes (varint v) = varint_bytes 9 v
value_bytes (fixed64 v) = le_bytes 8 v
value_bytes (fixed32 v) = le_bytes 4 v
value_bytes (bytes bs) = varint_bytes 9 (length bs) ++ bs

-- A value of the format: numbers of their width.
abbrev pub IsValue : WireValue → Type 0
IsValue (varint v) = v < 2 ^ 64
IsValue (fixed64 v) = v < 2 ^ 64
IsValue (fixed32 v) = v < 2 ^ 32
IsValue (bytes bs) = length bs < 2 ^ 64

unfoldable pub field_bytes : ℕ × WireValue → List ℕ
unfolding value_bytes varint_bytes
field_bytes (field, value) = varint_bytes 9 (field * 8 + type_of value) ++ value_bytes value

from_le-le_bytes : (n v : ℕ) → v < 256 ^ n → from_le (le_bytes n v) ≡ v
unfolding from_le le_bytes
from_le-le_bytes zero v h = omega arith
from_le-le_bytes (suc n) v h =
    omega (arith, from_le-le_bytes n (v / 256) (omega (arith, pow-suc 256 n)))

length-le_bytes : (n v : ℕ) → length (le_bytes n v) ≡ n
unfolding le_bytes
length-le_bytes zero v = refl
length-le_bytes (suc n) v = ap suc (length-le_bytes n (v / 256))

drop-get : (d : List ℕ) (i : ℕ) {b : ℕ} → get_elem? d i ≡ some b → drop i d ≡ b ∷ drop (i + 1) d
drop-get [] i h = absurd (cc)
drop-get (x ∷ d) zero h = cc
drop-get (x ∷ d) (suc i) h = let e : suc i + 1 ≡ suc (i + 1) = omega arith in rw e (drop-get d i h)

slice-BytesAt : (d xs : List ℕ) (i : ℕ) → BytesAt d i xs → take (length xs) (drop i d) ≡ xs
slice-BytesAt d [] i h = refl
slice-BytesAt d (x ∷ xs) i h = rw (drop-get d i h.0) (ap (◌∷◌ x) (slice-BytesAt d xs (i + 1) h.1))

BytesAt-within : (d xs : List ℕ) (i : ℕ) → i ≤ length d → BytesAt d i xs → i + length xs ≤ length d
BytesAt-within d [] i h there = omega arith
BytesAt-within d (x ∷ xs) i h there =
    omega (
      arith,
      BytesAt-within d xs (i + 1) (omega (arith, lt-length_of_get_elem? d i there.0)) there.1,
    )

-- What stands at `i` in `n` bytes.
fixed_read :
    (n : ℕ) (d : List ℕ) (i v : ℕ)
    → i ≤ length d
    → v < 256 ^ n
    → BytesAt d i (le_bytes n v)
    → (i + n ≤ length d) × (from_le (take n (drop i d)) ≡ v)
fixed_read n d i v within small there =
    let size = length-le_bytes n v in
    let slice : take n (drop i d) ≡ le_bytes n v =
      rw size at (slice-BytesAt d (le_bytes n v) i there) in
    (
      omega (arith, BytesAt-within d (le_bytes n v) i within there, size),
      ap from_le slice ∙ from_le-le_bytes n v small,
    )

varint_lem :
    (d : List ℕ) (i v : ℕ)
    → v < 2 ^ 64
    → BytesAt d i (value_bytes (varint v))
    → value_of_type 0 d i ≡ ok (varint v, i + length (value_bytes (varint v)))
unfolding value_of_type varint_value value_bytes
varint_lem d i v small there = rw (read_varint-varint_bytes d i v small there, varint_value) refl

fixed64_lem :
    (d : List ℕ) (i v : ℕ)
    → i ≤ length d
    → v < 2 ^ 64
    → BytesAt d i (value_bytes (fixed64 v))
    → value_of_type 1 d i ≡ ok (fixed64 v, i + length (value_bytes (fixed64 v)))
unfolding value_of_type fixed64_value value_bytes
fixed64_lem d i v within small there =
    let read = fixed_read 8 d i v within (omega arith) there in ground (arith, read.0, read.1)

fixed32_lem :
    (d : List ℕ) (i v : ℕ)
    → i ≤ length d
    → v < 2 ^ 32
    → BytesAt d i (value_bytes (fixed32 v))
    → value_of_type 5 d i ≡ ok (fixed32 v, i + length (value_bytes (fixed32 v)))
unfolding value_of_type fixed32_value value_bytes
fixed32_lem d i v within small there =
    let read = fixed_read 4 d i v within (omega arith) there in ground (arith, read.0, read.1)

content_lem :
    (d : List ℕ) (i : ℕ) (bs : List ℕ)
    → length d < 2 ^ 64
    → i ≤ length d
    → BytesAt d i bs
    → bytes_at d i (length bs) ≡ ok (bytes bs, i + length bs)
unfolding bytes_at
content_lem d i bs room within there =
    ground (arith, BytesAt-within d bs i within there, slice-BytesAt d bs i there)

bytes_lem :
    (d : List ℕ) (i : ℕ) (bs : List ℕ)
    → length d < 2 ^ 64
    → i ≤ length d
    → length bs < 2 ^ 64
    → BytesAt d i (value_bytes (bytes bs))
    → value_of_type 2 d i ≡ ok (bytes bs, i + length (value_bytes (bytes bs)))
unfolding value_of_type bytes_value value_bytes
bytes_lem d i bs room within small there =
    let at_end = BytesAt-append d (varint_bytes 9 (length bs)) bs i there in
    let n = length (varint_bytes 9 (length bs)) in
    let read = read_varint-varint_bytes d i (length bs) small at_end.0 in
    let start_in : i + n ≤ length d =
      BytesAt-within d (varint_bytes 9 (length bs)) i within at_end.0 in
    rw (read, bytes_value)
      (content_lem d (i + n) bs room start_in at_end.1
        ∙ ap (λ (j : ℕ). ok (bytes bs, j))
            (omega (arith, length-append (varint_bytes 9 (length bs)) bs)))

-- A value of the format that stands at `i` is read back, up to the index behind it.
value-bytes :
    (d : List ℕ) (i : ℕ) (value : WireValue)
    → length d < 2 ^ 64
    → i ≤ length d
    → IsValue value
    → BytesAt d i (value_bytes value)
    → value_of_type (type_of value) d i ≡ ok (value, i + length (value_bytes value))
value-bytes d i (varint v) room within is_value there = varint_lem d i v is_value there
value-bytes d i (fixed64 v) room within is_value there = fixed64_lem d i v within is_value there
value-bytes d i (fixed32 v) room within is_value there = fixed32_lem d i v within is_value there
value-bytes d i (bytes bs) room within is_value there = bytes_lem d i bs room within is_value there

type_of-lt : (value : WireValue) → type_of value < 8
type_of-lt (varint v) = omega arith
type_of-lt (fixed64 v) = omega arith
type_of-lt (fixed32 v) = omega arith
type_of-lt (bytes bs) = omega arith

field_lem :
    (d : List ℕ) (i field : ℕ) (value : WireValue)
    → length d < 2 ^ 64
    → i ≤ length d
    → (0 < field) × (field < 2 ^ 32)
    → IsValue value
    → BytesAt d i (value_bytes value)
    → field_value (field * 8 + type_of value) d i
      ≡ ok ((field, value), i + length (value_bytes value))
unfolding field_value
field_lem d i field value room within is_field is_value there =
    let number : (field * 8 + type_of value) / 8 % 2 ^ 32 ≡ field =
      omega (arith, type_of-lt value) in
    let kind : (field * 8 + type_of value) % 8 ≡ type_of value = omega (arith, type_of-lt value) in
    rw number (rw kind (ground (arith, value-bytes d i value room within is_value there)))

pub parse_field-field_bytes :
    (d : List ℕ) (i field : ℕ) (value : WireValue)
    → length d < 2 ^ 64
    → i ≤ length d
    → (0 < field) × (field < 2 ^ 32)
    → IsValue value
    → BytesAt d i (field_bytes (field, value))
    → parse_field d i ≡ ok ((field, value), i + length (field_bytes (field, value)))
unfolding parse_field field_bytes
parse_field-field_bytes d i field value room within is_field is_value there =
    let tag = field * 8 + type_of value in
    let at_end = BytesAt-append d (varint_bytes 9 tag) (value_bytes value) i there in
    let n = length (varint_bytes 9 tag) in
    let kind = type_of-lt value in
    let start_in : i + n ≤ length d = BytesAt-within d (varint_bytes 9 tag) i within at_end.0 in
    rw (read_varint-varint_bytes d i tag (omega arith) at_end.0, parse_field)
      (field_lem d (i + n) field value room start_in is_field is_value at_end.1
        ∙ ap (λ (j : ℕ). ok ((field, value), j))
            (omega (arith, length-append (varint_bytes 9 tag) (value_bytes value))))
