-- ===== src/Examples/Arithmetic.antt =====
-- Runs of the arithmetic, the comparisons and the arrays of src/vm/interpret.rs.
use dexvm.Prelude.{ℕ, ◌≡◌, ◌≢◌, refl, arith, List, [], ◌∷◌, some, true, false}
use dexvm.Dex.Insn.{Binop}
use dexvm.Vm.Value.{JValue, as_int}
use dexvm.Vm.Object.{ArrayData, Native, Arena}
use dexvm.Vm.Operators.{FloatOps, Computed, integer_binop, binop}
use dexvm.Vm.Operators.Rules.{IsDivision, binop-IsDivision}
use dexvm.Vm.Arrays.{Access, len, set_elem, stored, in_range, array_get, array_put}
use dexvm.Vm.Arrays.Rules.{kept, array_get-array_put}

-- Any operations will do where no float is computed.
abbrev no_floats : FloatOps
no_floats = record {
  float_op = λ op x y. x;
  double_op = λ op x y. x;
  float_lt = λ x y. false;
  float_eq = λ x y. true;
  double_lt = λ x y. false;
  double_eq = λ x y. true;
  float_neg = λ x. x;
  double_neg = λ x. x;
  float_to_double = λ x. x;
  double_to_float = λ x. x;
  int_to_float = λ x. x;
  int_to_double = λ x. x;
  long_to_float = λ x. x;
  long_to_double = λ x. x;
  double_to_int = λ x. x;
  double_to_long = λ x. x;
}

-- -7 / 2 is -3.
binop-minus_seven :
    binop no_floats Binop.div (JValue.int 0xfffffff9) (JValue.int 2)
    ≡ Computed.value (JValue.int 0xfffffffd)
unfolding binop integer_binop
binop-minus_seven = refl

binop-IsDivision_example :
    (q : ℕ) × (r : ℕ) × (binop no_floats Binop.div (JValue.int 0xfffffff9) (JValue.int 2)
      ≡ Computed.value (JValue.int q))
    × (binop no_floats Binop.rem (JValue.int 0xfffffff9) (JValue.int 2)
        ≡ Computed.value (JValue.int r))
    × IsDivision 0xfffffff9 2 q r
binop-IsDivision_example =
    binop-IsDivision no_floats 0xfffffff9 2 (omega arith) (omega arith) (omega arith)

-- A byte array in object 0; 511 is stored as -1.
abbrev holder : List ℕ → Arena
holder elems = record {
  objects =
      record { class = 3; fields = []; native = some (Native.array (ArrayData.byte elems)) } ∷ [];
  free = [];
}

put_511 :
    array_put no_floats (holder (1 ∷ 2 ∷ [])) (JValue.int 511) (JValue.obj 0) (JValue.int 1)
    ≡ Access.got (holder (1 ∷ 255 ∷ []))
unfolding array_put as_int in_range len set_elem stored
put_511 = refl

array_get-array_put_example :
    (array_get (holder (1 ∷ 255 ∷ [])) (JValue.obj 0) (JValue.int 1)
      ≡ Access.got (JValue.int 0xffffffff))
    × ((j : ℕ)
        → j ≢ 1
        → array_get (holder (1 ∷ 255 ∷ [])) (JValue.obj 0) (JValue.int j)
          ≡ array_get (holder (1 ∷ 2 ∷ [])) (JValue.obj 0) (JValue.int j))
unfolding kept
array_get-array_put_example =
    array_get-array_put no_floats (holder (1 ∷ 2 ∷ [])) (holder (1 ∷ 255 ∷ [])) 0 3 1 []
      (ArrayData.byte (1 ∷ 2 ∷ [])) (JValue.int 511) refl put_511
