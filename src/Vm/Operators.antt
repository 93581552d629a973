-- ===== src/Vm/Operators.antt =====
-- The arithmetic of src/vm/interpret.rs: `binop`, the arms `Unop`, `Cmp`, `If` and `IfZ` of the step, and
-- the helpers `fcmp`, `jval_eq`, `f2i` and `f2l`. The arithmetic of floats is a parameter.
pub mod Rules
pub mod Order
use Prim.Native.Nat.{bit_and, bit_or, bit_xor}
use dexvm.Prelude.{ℕ, ◌-◌, ◌%◌, ◌^◌, Bool, true, false, not, ltb, ◌==◌, if◌then◌else◌, ◌||◌}
use dexvm.Dex.Insn.{Binop, Unop, CmpOp, IfOp, LitOp, to_binop}
use dexvm.Vm.Value.{JValue}
use dexvm.Vm.Machine.{
  wrapping_neg, wrapping_add, wrapping_sub, wrapping_mul, wrapping_div, wrapping_rem, wrapping_shl,
  wrapping_ushr, wrapping_shr, signed_lt, sign_extend,
}

-- What Rust gives for f32 and f64, on their encodings.
pub record FloatOps : Type 0 where
  pub float_op : Binop → ℕ → ℕ → ℕ
  pub double_op : Binop → ℕ → ℕ → ℕ
  pub float_lt : ℕ → ℕ → Bool
  pub float_eq : ℕ → ℕ → Bool
  pub double_lt : ℕ → ℕ → Bool
  pub double_eq : ℕ → ℕ → Bool
  pub float_neg : ℕ → ℕ
  pub double_neg : ℕ → ℕ
  pub float_to_double : ℕ → ℕ
  pub double_to_float : ℕ → ℕ
  pub int_to_float : ℕ → ℕ
  pub int_to_double : ℕ → ℕ
  pub long_to_float : ℕ → ℕ
  pub long_to_double : ℕ → ℕ
  pub double_to_int : ℕ → ℕ
  pub double_to_long : ℕ → ℕ

-- The messages of the exceptions that `binop` throws.
pub data ArithError : Type 0 where
  division_by_zero bad_operands : ArithError

pub data Computed : Type 0 where
  value : JValue → Computed
  throws : ArithError → Computed

-- The arms of `binop` for two ints and for two longs, with the constructor and the width.
unfoldable pub integer_binop : (ℕ → JValue) → ℕ → Binop → ℕ → ℕ → Computed
integer_binop k w Binop.add x y = Computed.value (k (wrapping_add w x y))
integer_binop k w Binop.sub x y = Computed.value (k (wrapping_sub w x y))
integer_binop k w Binop.mul x y = Computed.value (k (wrapping_mul w x y))
integer_binop k w Binop.div x y =
    if y == 0
    then Computed.throws ArithError.division_by_zero
    else Computed.value (k (wrapping_div w x y))
integer_binop k w Binop.rem x y =
    if y == 0
    then Computed.throws ArithError.division_by_zero
    else Computed.value (k (wrapping_rem w x y))
integer_binop k w Binop.and x y = Computed.value (k (bit_and x y))
integer_binop k w Binop.or x y = Computed.value (k (bit_or x y))
integer_binop k w Binop.xor x y = Computed.value (k (bit_xor x y))
integer_binop k w Binop.shl x y = Computed.value (k (wrapping_shl w x (y % w)))
integer_binop k w Binop.shr x y = Computed.value (k (wrapping_shr w x (y % w)))
integer_binop k w Binop.ushr x y = Computed.value (k (wrapping_ushr x (y % w)))

-- The operators that the arms for floats and doubles have.
abbrev pub has_float_arm : Binop → Bool
has_float_arm Binop.add = true
has_float_arm Binop.sub = true
has_float_arm Binop.mul = true
has_float_arm Binop.div = true
has_float_arm Binop.rem = true
has_float_arm _ = false

module _ (floats : FloatOps) where
  unfoldable pub binop : Binop → JValue → JValue → Computed
  binop op (JValue.int x) (JValue.int y) = integer_binop JValue.int 32 op x y
  binop op (JValue.long x) (JValue.long y) = integer_binop JValue.long 64 op x y
  binop op (JValue.float x) (JValue.float y) =
      if has_float_arm op
      then Computed.value (JValue.float (floats.float_op op x y))
      else Computed.throws ArithError.bad_operands
  binop op (JValue.double x) (JValue.double y) =
      if has_float_arm op
      then Computed.value (JValue.double (floats.double_op op x y))
      else Computed.throws ArithError.bad_operands
  binop op _ _ = Computed.throws ArithError.bad_operands

  -- The arm `BinopLit`: `rsub` takes the literal first.
  unfoldable pub binop_lit : LitOp → JValue → ℕ → Computed
  binop_lit LitOp.rsub v lit = binop (to_binop LitOp.rsub) (JValue.int lit) v
  binop_lit (LitOp.bin op) v lit = binop (to_binop (LitOp.bin op)) v (JValue.int lit)

  -- `x >= y` and `is_nan` of Rust.
  abbrev double_ge : ℕ → ℕ → Bool
  double_ge x y = floats.double_lt y x || floats.double_eq x y

  abbrev is_nan : ℕ → Bool
  is_nan x = not (floats.double_eq x x)

  -- The bounds are 2 ^ 31, - 2 ^ 31, 2 ^ 63 and - 2 ^ 63 as doubles.
  unfoldable pub f2i : ℕ → ℕ
  f2i x =
      if is_nan x
      then 0
      else if double_ge x 0x41e0000000000000
      then 0x7fffffff
      else if floats.double_lt x 0xc1e0000000000000
      then 0x80000000
      else floats.double_to_int x

  unfoldable pub f2l : ℕ → ℕ
  f2l x =
      if is_nan x
      then 0
      else if double_ge x 0x43e0000000000000
      then 0x7fffffffffffffff
      else if floats.double_lt x 0xc3e0000000000000
      then 0x8000000000000000
      else floats.double_to_long x

  unfoldable pub unop : Unop → JValue → JValue
  unop Unop.neg_int (JValue.int x) = JValue.int (wrapping_neg 32 x)
  unop Unop.not_int (JValue.int x) = JValue.int (2 ^ 32 - 1 - x)
  unop Unop.neg_long (JValue.long x) = JValue.long (wrapping_neg 64 x)
  unop Unop.not_long (JValue.long x) = JValue.long (2 ^ 64 - 1 - x)
  unop Unop.neg_float (JValue.float x) = JValue.float (floats.float_neg x)
  unop Unop.neg_double (JValue.double x) = JValue.double (floats.double_neg x)
  unop Unop.int_to_long (JValue.int x) = JValue.long (sign_extend 32 64 x)
  unop Unop.int_to_float (JValue.int x) = JValue.float (floats.int_to_float x)
  unop Unop.int_to_double (JValue.int x) = JValue.double (floats.int_to_double x)
  unop Unop.long_to_int (JValue.long x) = JValue.int (x % 2 ^ 32)
  unop Unop.long_to_float (JValue.long x) = JValue.float (floats.long_to_float x)
  unop Unop.long_to_double (JValue.long x) = JValue.double (floats.long_to_double x)
  unop Unop.float_to_int (JValue.float x) = JValue.int (f2i (floats.float_to_double x))
  unop Unop.float_to_long (JValue.float x) = JValue.long (f2l (floats.float_to_double x))
  unop Unop.float_to_double (JValue.float x) = JValue.double (floats.float_to_double x)
  unop Unop.double_to_int (JValue.double x) = JValue.int (f2i x)
  unop Unop.double_to_long (JValue.double x) = JValue.long (f2l x)
  unop Unop.double_to_float (JValue.double x) = JValue.float (floats.double_to_float x)
  unop Unop.int_to_byte (JValue.int x) = JValue.int (sign_extend 8 32 x)
  unop Unop.int_to_char (JValue.int x) = JValue.int (x % 2 ^ 16)
  unop Unop.int_to_short (JValue.int x) = JValue.int (sign_extend 16 32 x)
  unop _ _ = JValue.int 0

-- `jval_eq`: equality of the bits of two values of one kind.
unfoldable pub jval_eq : JValue → JValue → Bool
jval_eq (JValue.int x) (JValue.int y) = x == y
jval_eq (JValue.long x) (JValue.long y) = x == y
jval_eq (JValue.float x) (JValue.float y) = x == y
jval_eq (JValue.double x) (JValue.double y) = x == y
jval_eq (JValue.obj x) (JValue.obj y) = x == y
jval_eq JValue.null JValue.null = true
jval_eq _ _ = false

-- `fcmp`, on the two comparisons that it makes.
unfoldable pub fcmp : (ℕ → ℕ → Bool) → (ℕ → ℕ → Bool) → ℕ → ℕ → Bool → ℕ
fcmp lt eq a b nan_is_gt =
    if lt a b
    then 0xffffffff
    else if lt b a
    then 1
    else if eq a b
    then 0
    else if nan_is_gt
    then 1
    else 0xffffffff

-- `x.cmp(&y) as i32` of longs.
unfoldable pub long_cmp : ℕ → ℕ → ℕ
long_cmp x y = if signed_lt 64 x y then 0xffffffff else if signed_lt 64 y x then 1 else 0

module _ (floats : FloatOps) where
  unfoldable pub cmp : CmpOp → JValue → JValue → ℕ
  cmp CmpOp.cmp_long (JValue.long x) (JValue.long y) = long_cmp x y
  cmp CmpOp.cmpg_float (JValue.float x) (JValue.float y) =
      fcmp floats.float_lt floats.float_eq x y true
  cmp CmpOp.cmpl_float (JValue.float x) (JValue.float y) =
      fcmp floats.float_lt floats.float_eq x y false
  cmp CmpOp.cmpg_double (JValue.double x) (JValue.double y) =
      fcmp floats.double_lt floats.double_eq x y true
  cmp CmpOp.cmpl_double (JValue.double x) (JValue.double y) =
      fcmp floats.double_lt floats.double_eq x y false
  cmp op _ _ = 0

  -- `is_zero` of src/vm/value.rs; the literal `0.0` is the encoding 0.
  unfoldable pub is_zero : JValue → Bool
  is_zero (JValue.int v) = v == 0
  is_zero (JValue.long v) = v == 0
  is_zero (JValue.float v) = floats.float_eq v 0
  is_zero (JValue.double v) = floats.double_eq v 0
  is_zero JValue.null = true
  is_zero (JValue.obj o) = false

  -- The four tests of order on two values of one kind; `<` and `==` are those of the kind.
  abbrev ordered : IfOp → (ℕ → ℕ → Bool) → (ℕ → ℕ → Bool) → ℕ → ℕ → Bool
  ordered IfOp.lt lt eq x y = lt x y
  ordered IfOp.ge lt eq x y = lt y x || eq x y
  ordered IfOp.gt lt eq x y = lt y x
  ordered IfOp.le lt eq x y = lt x y || eq x y
  ordered op lt eq x y = false

  -- The condition of the arm `If`.
  unfoldable pub if_condition : IfOp → JValue → JValue → Bool
  if_condition IfOp.eq a b = jval_eq a b
  if_condition IfOp.ne a b = not (jval_eq a b)
  if_condition op (JValue.int x) (JValue.int y) = ordered op (signed_lt 32) (λ a b. a == b) x y
  if_condition op (JValue.float x) (JValue.float y) = ordered op floats.float_lt floats.float_eq x y
  if_condition op (JValue.double x) (JValue.double y) =
      ordered op floats.double_lt floats.double_eq x y
  if_condition op a b = false

  -- The test against zero that a condition of `IfZ` makes.
  abbrev against_zero : IfOp → (IfOp → ℕ → ℕ → Bool) → ℕ → Bool
  against_zero IfOp.ltz test x = test IfOp.lt x 0
  against_zero IfOp.gez test x = test IfOp.ge x 0
  against_zero IfOp.gtz test x = test IfOp.gt x 0
  against_zero IfOp.lez test x = test IfOp.le x 0
  against_zero op test x = false

  -- The condition of the arm `IfZ`.
  unfoldable pub if_z_condition : IfOp → JValue → Bool
  if_z_condition IfOp.ez a = is_zero a
  if_z_condition IfOp.nz a = not (is_zero a)
  if_z_condition op (JValue.int x) =
      against_zero op (λ test. ordered test (signed_lt 32) (λ a b. a == b)) x
  if_z_condition op (JValue.float x) =
      against_zero op (λ test. ordered test floats.float_lt floats.float_eq) x
  if_z_condition op (JValue.double x) =
      against_zero op (λ test. ordered test floats.double_lt floats.double_eq) x
  if_z_condition op a = false
