-- ===== src/Dex/Insn.antt =====
-- The decoded instructions of src/dex/insn.rs. Registers and indices are numbers; a signed literal of
-- width w is its two's complement pattern, a number below 2 ^ w.
pub mod Match
pub mod Units
pub mod Payload
pub mod Basic
pub mod Control
pub mod Access
pub mod Arith
pub mod Decode
pub mod Spans
pub mod Formats
pub mod Bounds
pub mod Scan
pub mod Tiling
use dexvm.Prelude.{ℕ, ◌+◌, ◌%◌, ◌^◌, Bool, List, [], ◌∷◌, get_or, if◌then◌else◌}

pub record Args : Type 0 where
  pub count : ℕ
  pub regs : List ℕ
  pub range : Bool
  pub base : ℕ

-- `self.base + i` is a `u16` sum, and `regs` has five elements; an index past them would panic.
abbrev pub reg_at : Args → ℕ → ℕ
reg_at a i = if a.range then (a.base + i) % 2 ^ 16 else get_or a.regs i 0

pub data InvokeKind : Type 0 where
  virtual super direct static interface : InvokeKind

pub data ArrayElem : Type 0 where
  int wide obj bool byte char short : ArrayElem

pub data CmpOp : Type 0 where
  cmpl_float cmpg_float cmpl_double cmpg_double cmp_long : CmpOp

pub data IfOp : Type 0 where
  eq ne lt ge gt le ez nz ltz gez gtz lez : IfOp

pub data Unop : Type 0 where
  neg_int not_int neg_long not_long neg_float neg_double : Unop
  int_to_long int_to_float int_to_double : Unop
  long_to_int long_to_float long_to_double : Unop
  float_to_int float_to_long float_to_double : Unop
  double_to_int double_to_long double_to_float : Unop
  int_to_byte int_to_char int_to_short : Unop

pub data Binop : Type 0 where
  add sub mul div rem and or xor shl shr ushr : Binop

pub data LitOp : Type 0 where
  bin : Binop → LitOp
  rsub : LitOp

abbrev pub to_binop : LitOp → Binop
to_binop (LitOp.bin b) = b
to_binop LitOp.rsub = Binop.sub

pub data FillArray : Type 0 where
  bytes shorts chars ints wides : List ℕ → FillArray

pub data Insn : Type 0 where
  nop : Insn
  move move_wide : ℕ → ℕ → Insn
  move_result move_result_wide move_exception : ℕ → Insn
  return_void : Insn
  return return_wide : ℕ → Insn
  const4 const16 const const_high16 : ℕ → ℕ → Insn
  const_wide16 const_wide32 const_wide const_wide_high16 : ℕ → ℕ → Insn
  const_string const_string_jumbo const_class : ℕ → ℕ → Insn
  const_method_handle const_method_type : ℕ → ℕ → Insn
  monitor_enter monitor_exit : ℕ → Insn
  check_cast : ℕ → ℕ → Insn
  instance_of : ℕ → ℕ → ℕ → Insn
  array_length : ℕ → ℕ → Insn
  new_instance : ℕ → ℕ → Insn
  new_array : ℕ → ℕ → ℕ → Insn
  filled_new_array : Args → ℕ → Insn
  fill_array_data : ℕ → ℕ → FillArray → Insn
  throw : ℕ → Insn
  goto : ℕ → Insn
  packed_switch : ℕ → ℕ → ℕ → List ℕ → Insn
  sparse_switch : ℕ → ℕ → List ℕ → List ℕ → Insn
  cmp : CmpOp → ℕ → ℕ → ℕ → Insn
  if_two : IfOp → ℕ → ℕ → ℕ → Insn
  if_z : IfOp → ℕ → ℕ → Insn
  aget aput : ArrayElem → ℕ → ℕ → ℕ → Insn
  iget iget_wide iget_obj iput iput_wide iput_obj : ℕ → ℕ → ℕ → Insn
  sget sget_wide sget_obj sput sput_wide sput_obj : ℕ → ℕ → Insn
  invoke : InvokeKind → ℕ → Args → Insn
  unop : Unop → ℕ → ℕ → Insn
  binop : Binop → ℕ → ℕ → ℕ → Insn
  binop_lit : LitOp → ℕ → ℕ → ℕ → Insn
