-- ===== src/Dex/Cursor.antt =====
-- `Cursor` of src/dex/read.rs: bounds-checked reads over the raw bytes.
-- A method that takes `&mut self` is a function from the cursor to its result and the cursor that it
-- leaves. Machine integers are their bit patterns: an `i32` is a number below 2 ^ 32. Offsets are
-- `usize`, and the buffers are far shorter than 2 ^ 64, so `pos + n` does not wrap.
pub mod Reads
pub mod Leb
pub mod LebRead
pub mod SlebRead
pub mod Safe
use Prim.Native.Nat.{bit_and, bit_or}
use dexvm.Prelude.{ℕ, zero, suc, ◌+◌, ◌-◌, ◌*◌, ◌%◌, ◌^◌, Bool, not, ◌&&◌, List, Option, none, some}
use dexvm.Prelude.{Result, ok, err, stuck, ltb, leb, ◌==◌, if◌then◌else◌, length, get_elem?, get_or}
use dexvm.Prelude.{take, drop}
use dexvm.Dex.Error.{DexError, dex_error, DexResult, fail, out_of_bounds_read}
use dexvm.Dex.Error.{uleb128_overflow, sleb128_overflow}

pub record Cursor : Type 0 where
  pub data_bytes : List ℕ
  pub pos : ℕ

abbrev pub M : Type 0 → Type 0
M A = Cursor → DexResult A × Cursor

-- The `?` operator: an error is returned at once, with the cursor where it is.
abbrev pub and_then : {A B : Type 0} → (A → M B) → DexResult A × Cursor → DexResult B × Cursor
and_then f (ok a, c) = f a c
and_then f (err e, c) = (err e, c)
and_then f (stuck, c) = (stuck, c)

infixl 5 ◌>>=◌
abbrev pub ◌>>=◌ : {A B : Type 0} → M A → (A → M B) → M B
◌>>=◌ m f c = and_then f (m c)

abbrev pub ret : {A : Type 0} → A → M A
ret a c = (ok a, c)

abbrev pub start : List ℕ → Cursor
start bytes = record { data_bytes = bytes; pos = 0 }

-- `u16::from_le_bytes` and `u32::from_le_bytes`
abbrev pub le16 : ℕ → ℕ → ℕ
le16 a b = a + b * 256

abbrev pub le32 : ℕ → ℕ → ℕ → ℕ → ℕ
le32 a b c d = a + b * 256 + c * 65536 + d * 16777216

-- `Cursor::at`
abbrev at : ℕ → DexError
at pos = dex_error pos out_of_bounds_read

-- `self.data[i]`, behind a test that it is in range.
abbrev byte : Cursor → ℕ → ℕ
byte c i = get_or c.data_bytes i 0

abbrev pub seek : ℕ → M (Unit {0})
seek p c = if ltb (length c.data_bytes) p then (err (at p), c) else (ok tt, record c { pos = p })

pub u8 : M ℕ
u8 c =
    if leb (length c.data_bytes) c.pos
    then (err (at c.pos), c)
    else (ok (byte c c.pos), record c { pos = c.pos + 1 })

pub u16 : M ℕ
u16 c =
    if ltb (length c.data_bytes) (c.pos + 2)
    then (err (at c.pos), c)
    else (ok (le16 (byte c c.pos) (byte c (c.pos + 1))), record c { pos = c.pos + 2 })

pub u32 : M ℕ
u32 c = if ltb (length c.data_bytes) (c.pos + 4) then (err (at c.pos), c) else (
  ok (le32 (byte c c.pos) (byte c (c.pos + 1)) (byte c (c.pos + 2)) (byte c (c.pos + 3))),
  record c { pos = c.pos + 4 },
)

-- The cast `as i32` keeps the bits.
abbrev pub i32 : M ℕ
i32 = u32

pub bytes : ℕ → M (List ℕ)
bytes n c =
    if ltb (length c.data_bytes) (c.pos + n)
    then (err (at c.pos), c)
    else (ok (take n (drop c.pos c.data_bytes)), record c { pos = c.pos + n })

-- `data.get(pos..pos + n)`
abbrev range : List ℕ → ℕ → ℕ → Option (List ℕ)
range d p n = if leb (p + n) (length d) then some (take n (drop p d)) else none

pub byte_at : Cursor → ℕ → DexResult ℕ
byte_at c p = elim (get_elem? c.data_bytes p) [ none ↦ err (at p) | some b ↦ ok b ]

pub u16_at : Cursor → ℕ → DexResult ℕ
u16_at c p = elim (range c.data_bytes p 2) [
  | none ↦ err (at p)
  | some d ↦ ok (le16 (get_or d 0 0) (get_or d 1 0))
]

pub u32_at : Cursor → ℕ → DexResult ℕ
u32_at c p = elim (range c.data_bytes p 4) [
  | none ↦ err (at p)
  | some d ↦ ok (le32 (get_or d 0 0) (get_or d 1 0) (get_or d 2 0) (get_or d 3 0))
]

pub slice_at : Cursor → ℕ → ℕ → DexResult (List ℕ)
slice_at c p n = elim (range c.data_bytes p n) [ none ↦ err (at p) | some d ↦ ok d ]

-- `saturating_sub` is the subtraction of ℕ.
abbrev pub remaining : Cursor → ℕ
remaining c = length c.data_bytes - c.pos

-- `x << shift` on 32 bits
abbrev pub shl32 : ℕ → ℕ → ℕ
shl32 x shift = x * 2 ^ shift % 2 ^ 32

-- `result | (u32::from(b & 0x7f) << shift)`
pub add_group : ℕ → ℕ → ℕ → ℕ
add_group result b shift = bit_or result (shl32 (bit_and b 0x7f) shift)

-- The loop of `uleb128`, with fuel for its rounds.
pub uleb128_loop : ℕ → ℕ → ℕ → M ℕ
uleb128_loop zero result shift = λ c. (stuck, c)
uleb128_loop (suc fuel) result shift = do
  b ← u8
  λ c.
      let result' = add_group result b shift in
      let more = uleb128_loop fuel result' (shift + 7) c in
      if bit_and b 0x80 == 0
      then (ok result', c)
      else if leb 35 (shift + 7)
      then (fail (c.pos - 1) uleb128_overflow, c)
      else more

-- Five rounds: the fifth ends with `shift` at 35.
pub uleb128 : M ℕ
uleb128 = uleb128_loop 5 0 0

-- `-1i32 << shift`
abbrev sign_fill : ℕ → ℕ
sign_fill shift = shl32 (2 ^ 32 - 1) shift

-- What is returned at the last byte `b`: the sign is filled in where bits are left.
pub sign_extend : ℕ → ℕ → ℕ → ℕ
sign_extend result b shift =
    if ltb shift 32 && not (bit_and b 0x40 == 0) then bit_or result (sign_fill shift) else result

pub sleb128_loop : ℕ → ℕ → ℕ → M ℕ
sleb128_loop zero result shift = λ c. (stuck, c)
sleb128_loop (suc fuel) result shift = do
  b ← u8
  λ c.
      let result' = add_group result b shift in
      let more = sleb128_loop fuel result' (shift + 7) c in
      if bit_and b 0x80 == 0
      then (ok (sign_extend result' b (shift + 7)), c)
      else if leb 35 (shift + 7)
      then (fail (c.pos - 1) sleb128_overflow, c)
      else more

pub sleb128 : M ℕ
sleb128 = sleb128_loop 5 0 0
