-- ===== src/Vm/Interp/Linker.antt =====
-- What src/vm/interpret.rs asks of the rest of the machine: the operations of src/vm/mod.rs on classes,
-- fields, methods, strings and exceptions, and the natives.
use dexvm.Prelude.{ℕ, List, Option, Bool}
use dexvm.Dex.Insn.{InvokeKind}
use dexvm.Dex.Insn.Decode.{Decoded}
use dexvm.Permission.Text.{Text}
use dexvm.Vm.Value.{JValue}
use dexvm.Vm.Operators.{ArithError}
use dexvm.Vm.Interp.{World, TryItem, JvmError, Exit}

-- `FieldRef` and `MethodRef`: interned names and descriptors.
pub record FieldRef : Type 0 where
  pub name : ℕ
  pub ty : ℕ
  pub class_desc : ℕ

pub record MethodRef : Type 0 where
  pub name : ℕ
  pub sig : ℕ
  pub ret : ℕ
  pub args : List ℕ
  pub class_desc : ℕ

-- What the interpreter takes of a `CodeItem`: its tries.
abbrev pub Code : Type 0
Code = List TryItem

abbrev pub NativeKey : Type 0
NativeKey = (ℕ × ℕ) × ℕ

-- `Target`, without the fields that the interpreter does not read.
pub data Target : Type 0 where
  native : NativeKey → Target
  bytecode : ℕ → ℕ → Decoded → Option Code → ℕ → ℕ → List ℕ → Target

-- The exceptions that the interpreter makes, with what their message tells.
pub data Thrown : Type 0 where
  null_pointer negative_array_size : Thrown
  out_of_bounds : ℕ → ℕ → Thrown
  class_cast : ℕ → ℕ → ℕ → Thrown
  arithmetic : ArithError → Thrown

-- The payloads of `Native` that a field of a box type is given.
pub data Boxed : Type 0 where
  int_box long_box float_box double_box char_box byte_box short_box : ℕ → Boxed
  bool_box : Bool → Boxed

-- The result of an operation that is not a native: `Result<A, JvmError>`, or a panic.
pub data Answer (A : Type 0) : Type 0 where
  answers : A → Answer A
  refuses : JvmError → Answer A
  panics : Answer A

abbrev pub to_exit : {A : Type 0} → Answer A → Exit A
to_exit (Answer.answers a) = Exit.done a
to_exit (Answer.refuses e) = Exit.fails e
to_exit Answer.panics = Exit.panics

-- An operation on the whole machine.
abbrev pub Op : Type 0 → Type 0 → Type 0
Op R A = World R → Answer A × World R

pub record Linker (R : Type 0) : Type 0 where
  -- `ensure_class_by_type`, of a dex file and a type index
  pub class_by_type : ℕ → ℕ → Op R ℕ
  pub is_assignable : ℕ → ℕ → Op R Bool
  pub class_obj : ℕ → Op R JValue
  -- `alloc_string` of `strings[i]` of a dex file
  pub string_obj : ℕ → ℕ → Op R JValue
  pub field_ref : ℕ → ℕ → Op R FieldRef
  pub static_field_get : FieldRef → Op R JValue
  pub static_field_put : FieldRef → JValue → Op R Unit
  pub offset_of_field : R → ℕ → ℕ → ℕ → Option ℕ
  -- the length of `field_offsets` of a class
  pub field_count : R → ℕ → ℕ
  pub type_descriptor : R → ℕ → ℕ → Text
  pub type_id_of : R → ℕ → Text → Option ℕ
  pub array_class : ℕ → ℕ → Op R ℕ
  pub str_of : R → ℕ → Text
  -- `throwable_of`
  pub throwable : Thrown → Op R ℕ
  pub boxed : Boxed → Op R JValue
  pub method_ref : ℕ → ℕ → Op R MethodRef
  pub resolve_target : InvokeKind → MethodRef → Option ℕ → ℕ → Op R Target
  pub ensure_class_initialized : ℕ → Op R Unit
  -- the entry of `natives` and the native itself, which throws an object of the arena
  pub natives : R → NativeKey → Option (List JValue → World R → Exit JValue × World R)
  -- `dex_idx` of a method
  pub method_dex : R → ℕ → ℕ → ℕ
