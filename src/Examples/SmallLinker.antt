-- ===== src/Examples/SmallLinker.antt =====
-- A small linker for runs of the interpreter.
use dexvm.Prelude.{arith, [], false, none, ◌==◌}
use dexvm.Vm.Value.{JValue}
use dexvm.Vm.Operators.{FloatOps}
use dexvm.Vm.Interp.Linker.{Linker, Answer}
use dexvm.Vm.Interp.Budget.{IsFrugal}

abbrev pub floats : FloatOps
floats = record {
  float_op = λ op x y. x;
  double_op = λ op x y. x;
  float_lt = λ x y. false;
  float_eq = λ x y. x == y;
  double_lt = λ x y. false;
  double_eq = λ x y. x == y;
  float_neg = λ x. x;
  double_neg = λ x. x;
  float_to_double = λ x. x;
  double_to_float = λ x. x;
  int_to_float = λ x. x;
  int_to_double = λ x. x;
  long_to_float = λ x. x;
  long_to_double = λ x. x;
  double_to_int = λ x. x;
  double_to_long = λ x. x;
}

-- Type indices are classes, each assignable to itself alone; there are no fields, methods or natives.
abbrev pub linker : Linker Unit
linker = record {
  class_by_type = λ dex t w. (Answer.answers t, w);
  is_assignable = λ c d w. (Answer.answers (c == d), w);
  class_obj = λ c w. (Answer.answers JValue.null, w);
  string_obj = λ dex i w. (Answer.answers JValue.null, w);
  field_ref = λ dex i w. (Answer.panics, w);
  static_field_get = λ fr w. (Answer.answers JValue.null, w);
  static_field_put = λ fr v w. (Answer.answers tt, w);
  offset_of_field = λ r c n t. none;
  field_count = λ r c. 0;
  type_descriptor = λ r dex t. [];
  type_id_of = λ r dex t. none;
  array_class = λ dex t w. (Answer.answers t, w);
  str_of = λ r i. [];
  throwable = λ exc w. (Answer.answers 0, w);
  boxed = λ b w. (Answer.answers JValue.null, w);
  method_ref = λ dex i w. (Answer.panics, w);
  resolve_target = λ kind mref o c w. (Answer.panics, w);
  ensure_class_initialized = λ c w. (Answer.answers tt, w);
  natives = λ r key. none;
  method_dex = λ r c s. 0;
}

pub linker-IsFrugal : IsFrugal linker
linker-IsFrugal = record {
  class_by_type = λ dex t w. omega arith;
  is_assignable = λ c d w. omega arith;
  class_obj = λ c w. omega arith;
  string_obj = λ dex i w. omega arith;
  field_ref = λ dex i w. omega arith;
  static_field_get = λ fr w. omega arith;
  static_field_put = λ fr v w. omega arith;
  array_class = λ dex t w. omega arith;
  throwable = λ exc w. omega arith;
  boxed = λ b w. omega arith;
  method_ref = λ dex i w. omega arith;
  resolve_target = λ kind mref o c w. omega arith;
  ensure_class_initialized = λ c w. omega arith;
  natives = λ r key f e args w. absurd (cc);
}
