-- ===== src/Vm/Proto.antt =====
-- The wire format of src/vm/native/proto.rs: `read_varint` and `parse_wire` over the bytes of a message.
-- Integers are their bit patterns.
pub mod Varint
pub mod Ends
pub mod Fields
pub mod Message
use Prim.Native.Nat.{bit_and, bit_or}
use dexvm.Prelude.{
  ℕ, zero, suc, ◌+◌, ◌-◌, ◌*◌, ◌/◌, ◌%◌, ◌^◌, List, [], ◌∷◌, ◌++◌, Option, none, some,
}
use dexvm.Prelude.{if◌then◌else◌, ltb, leb, ◌==◌, length, get_elem?, take, drop}

pub data WireValue : Type 0 where
  varint fixed64 fixed32 : ℕ → WireValue
  bytes : List ℕ → WireValue

-- The texts of the errors.
pub data WireError : Type 0 where
  truncated_tag truncated_varint truncated_fixed64 truncated_length : WireError
  truncated_data truncated_fixed32 invalid_field : WireError
  unsupported_type : ℕ → WireError

-- `panicked`: an overflow, or a slice whose end is before its start. `stuck`: the model's loop ran out of
-- fuel, which the theorems exclude.
pub data Wire (A : Type 0) : Type 0 where
  ok : A → Wire A
  err : WireError → Wire A
  panicked stuck : Wire A

infixl 5 ◌>>=◌
abbrev pub ◌>>=◌ : {A B : Type 0} → Wire A → (A → Wire B) → Wire B
ok a >>= f = f a
err e >>= f = err e
panicked >>= f = panicked
stuck >>= f = stuck

abbrev pub ok_or : {A : Type 0} → Option A → WireError → Wire A
ok_or none e = err e
ok_or (some a) e = ok a

-- `result | ((b & 0x7f) as u64) << shift`
unfoldable pub add_group64 : ℕ → ℕ → ℕ → ℕ
add_group64 result b shift = bit_or result (bit_and b 0x7f * 2 ^ shift % 2 ^ 64)

-- The loop of `read_varint`: its result and the index behind it. The tenth round ends with `shift` at 70,
-- so no eleventh is asked for.
unfoldable pub varint_loop : ℕ → List ℕ → ℕ → ℕ → ℕ → Option (ℕ × ℕ)
unfolding add_group64
varint_loop zero d i result shift = none
varint_loop (suc rounds) d i result shift = elim (get_elem? d i) [
  | none ↦ none
  | some b ↦
      (let result' = add_group64 result b shift in
        let more = varint_loop rounds d (i + 1) result' (shift + 7) in
        if bit_and b 0x80 == 0
        then some (result', i + 1)
        else if leb 70 (shift + 7)
        then none
        else more)
]

-- The value and the number of bytes that were read.
unfoldable pub read_varint : List ℕ → ℕ → Option (ℕ × ℕ)
unfolding varint_loop
read_varint d start = elim (varint_loop 10 d start 0 0) [
  | none ↦ none
  | some (v, i) ↦ some (v, i - start)
]

-- `from_le_bytes`
unfoldable pub from_le : List ℕ → ℕ
from_le [] = 0
from_le (b ∷ bs) = b + 256 * from_le bs

unfoldable pub varint_value : List ℕ → ℕ → Wire (WireValue × ℕ)
unfolding read_varint
varint_value d i = do (v, n) ← ok_or (read_varint d i) truncated_varint; ok (varint v, i + n)

unfoldable pub fixed64_value : List ℕ → ℕ → Wire (WireValue × ℕ)
unfolding from_le
fixed64_value d i =
    if ltb (length d) (i + 8)
    then err truncated_fixed64
    else ok (fixed64 (from_le (take 8 (drop i d))), i + 8)

unfoldable pub fixed32_value : List ℕ → ℕ → Wire (WireValue × ℕ)
unfolding from_le
fixed32_value d i =
    if ltb (length d) (i + 4)
    then err truncated_fixed32
    else ok (fixed32 (from_le (take 4 (drop i d))), i + 4)

-- `i + len` of `usize`: where it overflows, a checked build panics at the sum, and another one takes the
-- bytes from `i` to a smaller index, which panics too.
unfoldable pub bytes_at : List ℕ → ℕ → ℕ → Wire (WireValue × ℕ)
bytes_at d i len =
    if leb (2 ^ 64) (i + len)
    then panicked
    else if ltb (length d) (i + len)
    then err truncated_data
    else ok (bytes (take len (drop i d)), i + len)

unfoldable pub bytes_value : List ℕ → ℕ → Wire (WireValue × ℕ)
unfolding read_varint bytes_at
bytes_value d i = do (len, n) ← ok_or (read_varint d i) truncated_length; bytes_at d (i + n) len

unfoldable pub value_of_type : ℕ → List ℕ → ℕ → Wire (WireValue × ℕ)
unfolding varint_value fixed64_value bytes_value fixed32_value
value_of_type wtype d i =
    if wtype == 0
    then varint_value d i
    else if wtype == 1
    then fixed64_value d i
    else if wtype == 2
    then bytes_value d i
    else if wtype == 5
    then fixed32_value d i
    else err (unsupported_type wtype)

-- The field number and the value that stand at `i`, and the index behind them.
unfoldable pub field_value : ℕ → List ℕ → ℕ → Wire ((ℕ × WireValue) × ℕ)
unfolding value_of_type
field_value tag d i =
    let field = tag / 8 % 2 ^ 32 in
    if field == 0
    then err invalid_field
    else (do (value, j) ← value_of_type (tag % 8) d i; ok ((field, value), j))

unfoldable pub parse_field : List ℕ → ℕ → Wire ((ℕ × WireValue) × ℕ)
unfolding read_varint field_value
parse_field d i = do (tag, n) ← ok_or (read_varint d i) truncated_tag; field_value tag d (i + n)

-- A round takes one byte at least, so the length is enough fuel.
unfoldable pub parse_loop : ℕ → List ℕ → ℕ → List (ℕ × WireValue) → Wire (List (ℕ × WireValue))
unfolding parse_field
parse_loop zero d i out = if leb (length d) i then ok out else stuck
parse_loop (suc fuel) d i out =
    let more : Wire (List (ℕ × WireValue)) = do
      (field, j) ← parse_field d i
      parse_loop fuel d j (out ++ (field ∷ []))
    in if leb (length d) i then ok out else more

unfoldable pub parse_wire : List ℕ → Wire (List (ℕ × WireValue))
unfolding parse_loop
parse_wire d = parse_loop (length d) d 0 []
