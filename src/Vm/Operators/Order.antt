-- ===== src/Vm/Operators/Order.antt =====
-- The comparisons of src/vm/interpret.rs order the integers as signed numbers.
use dexvm.Prelude.{ℕ, ◌+◌, ◌%◌, ◌^◌, ◌≤◌, ◌<◌, ◌≡◌, ◌↔◌, arith, true, false}
use dexvm.Dex.Insn.{CmpOp, IfOp}
use dexvm.Vm.Value.{JValue}
use dexvm.Vm.Operators.{FloatOps, jval_eq, long_cmp, cmp, if_condition}

-- The bits of a signed number plus 2 ^ (w - 1): unsigned numbers in the order of the signed ones.
abbrev pub excess32 : ℕ → ℕ
excess32 x = (x + 2 ^ 31) % 2 ^ 32

abbrev pub excess64 : ℕ → ℕ
excess64 x = (x + 2 ^ 63) % 2 ^ 64

module _ (floats : FloatOps) where
  -- For two ints of 32 bits the six conditions of `If` hold exactly where the signed numbers stand in that
  -- relation.
  if_condition-signed :
      (x y : ℕ)
      → x < 2 ^ 32
      → y < 2 ^ 32
      → ((if_condition floats IfOp.eq (JValue.int x) (JValue.int y) ≡ true) ↔ (x ≡ y))
        × ((if_condition floats IfOp.ne (JValue.int x) (JValue.int y) ≡ false) ↔ (x ≡ y))
        × ((if_condition floats IfOp.lt (JValue.int x) (JValue.int y) ≡ true)
            ↔ (excess32 x < excess32 y))
        × ((if_condition floats IfOp.ge (JValue.int x) (JValue.int y) ≡ true)
            ↔ (excess32 y ≤ excess32 x))
        × ((if_condition floats IfOp.gt (JValue.int x) (JValue.int y) ≡ true)
            ↔ (excess32 y < excess32 x))
        × ((if_condition floats IfOp.le (JValue.int x) (JValue.int y) ≡ true)
            ↔ (excess32 x ≤ excess32 y))
  unfolding if_condition jval_eq
  if_condition-signed x y hx hy =
      (ground arith, ground arith, ground arith, ground arith, ground arith, ground arith)

  -- `cmp-long` of two longs of 64 bits is 0 exactly where they are equal, -1 exactly where the first one is
  -- less as a signed number, and 1 exactly where it is greater.
  cmp_long-signed :
      (x y : ℕ)
      → x < 2 ^ 64
      → y < 2 ^ 64
      → ((cmp floats CmpOp.cmp_long (JValue.long x) (JValue.long y) ≡ 0) ↔ (x ≡ y))
        × ((cmp floats CmpOp.cmp_long (JValue.long x) (JValue.long y) ≡ 0xffffffff)
            ↔ (excess64 x < excess64 y))
        × ((cmp floats CmpOp.cmp_long (JValue.long x) (JValue.long y) ≡ 1)
            ↔ (excess64 y < excess64 x))
  unfolding cmp long_cmp
  cmp_long-signed x y hx hy = (ground arith, ground arith, ground arith)
