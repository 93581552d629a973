-- ===== src/Dex/Values.antt =====
-- `EncodedValue` of src/dex/mod.rs and its `decode`. Numbers are their bit patterns, those of floats too.
-- The space that is reserved before the elements are read is left out.
pub mod Ends
use Prim.Native.Nat.{bit_or}
use dexvm.Prelude.{ℕ, zero, suc, ◌+◌, ◌-◌, ◌*◌, ◌/◌, ◌%◌, ◌^◌, Bool, true, false, not, ◌&&◌, ◌||◌}
use dexvm.Prelude.{ok, err, stuck, ltb, leb, ◌==◌, if◌then◌else◌, length}
use dexvm.Dex.Error.{DexError, DexMsg, fail, invalid_value_arg, unknown_value_type}
use dexvm.Dex.Cursor.{Cursor, M, ◌>>=◌, ret, u8, uleb128}

-- The lists of values and of named elements are types of their own.
mutual
  pub data EncodedValue : Type 0 where
    byte short char int long float double : ℕ → EncodedValue
    method_type method_handle string type field method enum : ℕ → EncodedValue
    array : Values → EncodedValue
    annotation : ℕ → Elements → EncodedValue
    null : EncodedValue
    bool : Bool → EncodedValue

  pub data Values : Type 0 where
    no_values : Values
    value : EncodedValue → Values → Values

  pub data Elements : Type 0 where
    no_elements : Elements
    element : ℕ → EncodedValue → Elements → Elements

-- `v |= b << (8 * i)` for each of `n` bytes, from byte `i` on
unfoldable pub read_bytes : ℕ → ℕ → ℕ → M ℕ
read_bytes zero i v = ret v
read_bytes (suc n) i v = do b ← u8; read_bytes n (i + 1) (bit_or v (b * 2 ^ (8 * i)))

-- `((v << shift) as i64) >> shift`
unfoldable pub extend_sign : ℕ → ℕ → ℕ
extend_sign shift v =
    let x = v * 2 ^ shift % 2 ^ 64 in
    x / 2 ^ shift + (if ltb x (2 ^ 63) then 0 else 2 ^ 64 - 2 ^ (64 - shift))

unfoldable pub read_signed : ℕ → M ℕ
unfolding extend_sign
read_signed n = do v ← read_bytes n 0 0; ret (extend_sign (64 - 8 * n) v)

unfoldable pub read_unsigned : ℕ → M ℕ
read_unsigned n = read_bytes n 0 0

unfoldable pub invalid_arg : ℕ → ℕ → M EncodedValue
invalid_arg arg kind c = (fail (c.pos - 1) (invalid_value_arg arg kind), c)

unfoldable pub unknown_type : ℕ → M EncodedValue
unknown_type kind c = (fail (c.pos - 1) (unknown_value_type kind), c)

unfoldable pub index_value : ℕ → ℕ → EncodedValue
index_value kind index =
    if kind == 0x15
    then method_type index
    else if kind == 0x16
    then method_handle index
    else if kind == 0x17
    then string index
    else if kind == 0x18
    then type index
    else if kind == 0x19
    then field index
    else if kind == 0x1a
    then method index
    else enum index

-- The loop over the elements of an array; `one` decodes an element.
unfoldable pub decode_values : M EncodedValue → ℕ → M Values
decode_values one zero = ret no_values
decode_values one (suc n) = do v ← one; vs ← decode_values one n; ret (value v vs)

unfoldable pub decode_elements : M EncodedValue → ℕ → M Elements
decode_elements one zero = ret no_elements
decode_elements one (suc n) = do
  name ← uleb128
  v ← one
  es ← decode_elements one n
  ret (element name v es)

unfoldable pub decode_array : M EncodedValue → M EncodedValue
unfolding decode_values
decode_array one = do n ← uleb128; vs ← decode_values one n; ret (array vs)

unfoldable pub decode_annotation : M EncodedValue → M EncodedValue
unfolding decode_elements
decode_annotation one = do
  kind ← uleb128
  n ← uleb128
  es ← decode_elements one n
  ret (annotation kind es)

-- The kinds with another `value_arg` than their arms take.
abbrev is_kind : ℕ → Bool
is_kind kind =
    (kind == 0x00)
    || (leb 0x02 kind && leb kind 0x04)
    || (kind == 0x06)
    || (leb 0x10 kind && leb kind 0x11)
    || (leb 0x15 kind && leb kind 0x1f)

abbrev decode_other : ℕ → ℕ → M EncodedValue
decode_other kind arg = if is_kind kind then invalid_arg arg kind else unknown_type kind

-- The kinds from 0x10 on.
unfoldable pub decode_upper : M EncodedValue → ℕ → ℕ → M EncodedValue
unfolding read_unsigned decode_array decode_annotation
decode_upper one kind arg =
    if kind == 0x10 && leb arg 3
    then (do
      v ← read_bytes (arg + 1) 0 0
      ret (float (v * 2 ^ (32 - 8 * (arg + 1)) % 2 ^ 64 % 2 ^ 32)))
    else if kind == 0x11 && leb arg 7
    then (do v ← read_bytes (arg + 1) 0 0; ret (double (v * 2 ^ (64 - 8 * (arg + 1)) % 2 ^ 64)))
    else if leb 0x15 kind && leb kind 0x1b && leb arg 3
    then (do index ← read_unsigned (arg + 1); ret (index_value kind index))
    else if kind == 0x1c && arg == 0
    then decode_array one
    else if kind == 0x1d && arg == 0
    then decode_annotation one
    else if kind == 0x1e && arg == 0
    then ret null
    else if kind == 0x1f && leb arg 1
    then ret (bool (not (arg == 0)))
    else decode_other kind arg

-- The arms of `decode`, with `one` for its calls of itself.
unfoldable pub decode_kind : M EncodedValue → ℕ → ℕ → M EncodedValue
unfolding read_signed decode_upper
decode_kind one kind arg =
    if kind == 0x00 && arg == 0
    then (do v ← read_signed (arg + 1); ret (byte (v % 2 ^ 8)))
    else if kind == 0x02 && leb arg 1
    then (do v ← read_signed (arg + 1); ret (short (v % 2 ^ 16)))
    else if kind == 0x03
    then (if ltb 1 arg
        then invalid_arg arg kind
        else (do v ← read_bytes (arg + 1) 0 0; ret (char (v % 2 ^ 16))))
    else if kind == 0x04 && leb arg 3
    then (do v ← read_signed (arg + 1); ret (int (v % 2 ^ 32)))
    else if kind == 0x06 && leb arg 7
    then (do v ← read_signed (arg + 1); ret (long v))
    else decode_upper one kind arg

-- The calls of `decode` in each other read a byte each, so one more than the bytes that are left is enough
-- fuel.
unfoldable pub decode_fuel : ℕ → M EncodedValue
unfolding decode_kind
decode_fuel zero c = (stuck, c)
decode_fuel (suc fuel) c = ((do b ← u8; decode_kind (decode_fuel fuel) (b % 32) (b / 32)) c)

unfoldable pub decode_value : M EncodedValue
unfolding decode_fuel
decode_value c = decode_fuel (length c.data_bytes - c.pos + 1) c
