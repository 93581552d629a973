-- ===== src/Dex/Insn/Units.antt =====
-- Reading code units, as src/dex/insn.rs does in `decode`, and the fields of a unit.
use Prim.Native.Nat.{bit_or}
use dexvm.Prelude.{ℕ, ◌+◌, ◌-◌, ◌*◌, ◌%◌, ◌^◌, List, get_elem?, ltb, if◌then◌else◌, ok}
use dexvm.Dex.Error.{DexMsg, DexResult, dex_error, ok_or, ◌>>=◌}
use dexvm.Dex.Error.{short_instruction}
use dexvm.Dex.Insn.{Insn}

-- Sign extension from `w` bits to `w'`: the cast of a signed integer to a wider one.
abbrev pub sext : ℕ → ℕ → ℕ → ℕ
sext w w' x = if ltb x (2 ^ (w - 1)) then x else x + 2 ^ w' - 2 ^ w

-- `lo | (hi << 16)` in 32 bits
abbrev pub join16 : ℕ → ℕ → ℕ
join16 lo hi = bit_or lo (hi * 2 ^ 16 % 2 ^ 32)

-- What `decode` returns: the instruction and the unit after it.
abbrev pub Decoding : Type 0
Decoding = DexResult (Insn × ℕ)

-- A unit at `i`, or an error at the byte offset `off`.
abbrev pub unit_at : List ℕ → ℕ → ℕ → DexMsg → DexResult ℕ
unit_at insns i off msg = ok_or (get_elem? insns i) (dex_error off msg)

module _ (insns : List ℕ) (pc : ℕ) where
  -- `w1`, `w2`, `w3` and `w4`
  unfoldable pub w : ℕ → DexResult ℕ
  w n = unit_at insns (pc + n) ((pc + n) * 2) short_instruction

  -- The offset is a 32-bit pattern: `(pc as i64 + i64::from(off)) as u32`.
  unfoldable pub tgt : ℕ → ℕ
  tgt off = (pc + off) % 2 ^ 32

  -- `i32::from(w1()?) | (i32::from(w2()?) << 16)`
  abbrev pub offset32 : DexResult ℕ
  offset32 = do lo ← w 1; hi ← w 2; ok (join16 lo hi)

  -- `Ok((insn, pc + 1))`, and the same where the instruction is built from the units behind it.
  unfoldable pub op1 : Insn → Decoding
  op1 i = ok (i, pc + 1)

  unfoldable pub op2 : (ℕ → Insn) → Decoding
  op2 f = do a ← w 1; ok (f a, pc + 2)

  unfoldable pub op3 : (ℕ → ℕ → Insn) → Decoding
  op3 f = do a ← w 1; b ← w 2; ok (f a b, pc + 3)

  -- The same, with the second unit read first.
  unfoldable pub op3_rev : (ℕ → ℕ → Insn) → Decoding
  op3_rev f = do b ← w 2; a ← w 1; ok (f b a, pc + 3)
