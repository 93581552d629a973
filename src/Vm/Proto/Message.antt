-- ===== src/Vm/Proto/Message.antt =====
-- `parse_wire` of src/vm/native/proto.rs: whole messages, any input, and lengths that overflow.
use mathlib.Core.List.{append-nil, append_assoc}
use native.Mathlib.Nat.{add-zero, zero-add}
use dexvm.Prelude.{ℕ, zero, suc, ◌+◌, ◌-◌, ◌*◌, ◌^◌, ◌≤◌, ◌<◌, ◌≡◌, refl, ◌∙◌, ap, arith}
use dexvm.Prelude.{List, [], ◌∷◌, ◌++◌, length, get_elem?-append_self, All, length-append}
use dexvm.Dex.Cursor.Reads.{BytesAt, BytesAt-append}
use dexvm.Vm.Proto.{WireValue, ok, parse_field, parse_loop, parse_wire}
use dexvm.Vm.Proto.Varint.{varint_bytes}
use dexvm.Vm.Proto.Fields.{IsValue, type_of, value_bytes, field_bytes, parse_field-field_bytes}

abbrev pub IsField : ℕ × WireValue → Type 0
IsField f = (0 < f.0) × (f.0 < 2 ^ 32) × IsValue f.1

unfoldable pub message_bytes : List (ℕ × WireValue) → List ℕ
unfolding field_bytes
message_bytes [] = []
message_bytes (f ∷ fs) = field_bytes f ++ message_bytes fs

pub varint_bytes-pos : (k v : ℕ) → 0 < length (varint_bytes k v)
unfolding varint_bytes
varint_bytes-pos zero v = omega arith
varint_bytes-pos (suc k) v = ground arith

field_bytes-pos : (f : ℕ × WireValue) → 0 < length (field_bytes f)
unfolding field_bytes
field_bytes-pos (field, value) =
    let tag = varint_bytes 9 (field * 8 + type_of value) in
    omega
      (arith, length-append tag (value_bytes value), varint_bytes-pos 9 (field * 8 + type_of value))

pub count_le : (fs : List (ℕ × WireValue)) → length fs ≤ length (message_bytes fs)
unfolding message_bytes
count_le [] = omega arith
count_le (f ∷ fs) =
    omega (arith, count_le fs, field_bytes-pos f, length-append (field_bytes f) (message_bytes fs))

parse_round :
    (fuel : ℕ) (d : List ℕ) (i : ℕ) (out : List (ℕ × WireValue)) (f : ℕ × WireValue) (j : ℕ)
    → i < length d
    → parse_field d i ≡ ok (f, j)
    → parse_loop (suc fuel) d i out ≡ parse_loop fuel d j (out ++ (f ∷ []))
unfolding parse_loop
parse_round fuel d i out f j start_in read = ground (arith, read)

-- The loop passes the fields that stand at `i`.
pub parse_loop-message :
    (fuel : ℕ) (d : List ℕ) (i : ℕ) (fs out : List (ℕ × WireValue))
    → length d < 2 ^ 64
    → i + length (message_bytes fs) ≤ length d
    → All IsField fs
    → BytesAt d i (message_bytes fs)
    → parse_loop (length fs + fuel) d i out
      ≡ parse_loop fuel d (i + length (message_bytes fs)) (out ++ fs)
unfolding message_bytes
parse_loop-message fuel d i [] out room within valid there =
    rw zero-add (rw (add-zero i) (rw (append-nil out) refl))
parse_loop-message fuel d i (f ∷ fs) out room within valid there =
    let size = length-append (field_bytes f) (message_bytes fs) in
    let start_in : i < length d = omega (arith, size, field_bytes-pos f) in
    let at_end = BytesAt-append d (field_bytes f) (message_bytes fs) i there in
    let j = i + length (field_bytes f) in
    let read =
      parse_field-field_bytes d i f.0 f.1 room (omega arith) (valid.0.0, valid.0.1) valid.0.2
        at_end.0 in
    let next =
      parse_loop-message fuel d j fs (out ++ (f ∷ [])) room (omega (arith, size)) valid.1
        at_end.1 in
    let e : length (f ∷ fs) + fuel ≡ suc (length fs + fuel) = omega arith in
    let behind : j + length (message_bytes fs) ≡ i + length (message_bytes (f ∷ fs)) =
      omega (arith, size) in
    rw e (
      parse_round (length fs + fuel) d i out f j start_in read
      ∙ next
      ∙ rw behind (rw (append_assoc out (f ∷ []) fs) refl))

pub BytesAt-behind : (xs ys : List ℕ) → BytesAt (xs ++ ys) (length xs) ys
BytesAt-behind xs [] = tt
BytesAt-behind xs (y ∷ ys) =
    let e : length (xs ++ (y ∷ [])) ≡ length xs + 1 = omega (arith, length-append xs (y ∷ [])) in
    let later = rw (append_assoc xs (y ∷ []) ys) at (BytesAt-behind (xs ++ (y ∷ [])) ys) in
    (get_elem?-append_self xs y ys, rw e at later)

-- Past the end the loop returns what it has.
parse_loop-end :
    (fuel : ℕ) (d : List ℕ) (i : ℕ) (out : List (ℕ × WireValue))
    → length d ≤ i
    → parse_loop fuel d i out ≡ ok out
unfolding parse_loop
parse_loop-end zero d i out h = ground arith
parse_loop-end (suc fuel) d i out h = ground arith

-- `parse_wire` gives back the fields of a message that is written in the protobuf format, in their order,
-- if it is shorter than 2 ^ 64 bytes and its field numbers are from 1 to 2 ^ 32 - 1.
pub parse_wire-message_bytes :
    (fs : List (ℕ × WireValue))
    → length (message_bytes fs) < 2 ^ 64
    → All IsField fs
    → parse_wire (message_bytes fs) ≡ ok fs
unfolding parse_wire
parse_wire-message_bytes fs room valid =
    let d = message_bytes fs in
    let rest = length d - length fs in
    let e : length d ≡ length fs + rest = omega (arith, count_le fs) in
    ap (λ (n : ℕ). parse_loop n d 0 []) e
    ∙ parse_loop-message rest d 0 fs [] room (omega arith) valid (BytesAt-behind [] d)
    ∙ parse_loop-end rest d (0 + length d) fs (omega arith)
