-- ===== src/Vm/Interp/Members.antt =====
-- The arms of `step` of src/vm/interpret.rs that ask for classes, fields and methods.
use dexvm.Prelude.{
  ℕ, Bool, true, false, Option, none, some, set, get_elem?, replicate, if◌then◌else◌,
}
use dexvm.Dex.Insn.{Args, reg_at, InvokeKind}
use dexvm.Vm.Value.{JValue, is_null_ref}
use dexvm.Vm.Operators.{FloatOps}
use dexvm.Vm.Arrays.{bit}
use dexvm.Vm.Interp.{Failure, Exit}
use dexvm.Vm.Interp.Linker.{Linker, FieldRef, Target, Thrown, Boxed}
use dexvm.Vm.Interp.Registers.{
  Action, ◌>>=◌, ◌>>◌, finish, pure, fail, expect, frame_of, world_of, set_arena, reg, set_reg,
  object, new_object, ask, throw_new, object_reg,
}
use dexvm.Vm.Interp.Arms.{Flow, check_cast, instance_of, boxed_for}

abbrev pub is_static : InvokeKind → Bool
is_static InvokeKind.static = true
is_static kind = false

-- Write a register and go on.
unfoldable pub give : {R : Type 0} → ℕ → JValue → Action R Flow
give d v = do set_reg d v; pure (Flow.next 0)

module _ {R : Type 0} (floats : FloatOps) (linker : Linker R) where
  unfoldable pub const_class : ℕ → ℕ → Action R Flow
  const_class d type_idx = do
    f ← frame_of
    c ← ask (linker.class_by_type f.dex type_idx)
    v ← ask (linker.class_obj c)
    give d v

  unfoldable pub cast : ℕ → ℕ → Action R Flow
  cast d type_idx = do
    f ← frame_of
    target ← ask (linker.class_by_type f.dex type_idx)
    v ← reg d
    check_cast floats linker f.dex target type_idx v

  unfoldable pub test_instance : ℕ → ℕ → ℕ → Action R Flow
  test_instance d src type_idx = do
    f ← frame_of
    target ← ask (linker.class_by_type f.dex type_idx)
    v ← reg src
    b ← instance_of floats linker target v
    give d (JValue.int (bit b))

  unfoldable pub new_instance : ℕ → ℕ → Action R Flow
  new_instance d type_idx = do
    f ← frame_of
    c ← ask (linker.class_by_type f.dex type_idx)
    w ← world_of
    v ← new_object (record {
      class = c;
      fields = replicate (linker.field_count w.rest c) JValue.null;
      native = none;
    })
    give d v

  unfoldable pub throw_value : ℕ → Action R Flow
  throw_value d = do
    v ← reg d
    (if is_null_ref v then throw_new linker Thrown.null_pointer else finish (Exit.throws v))

  unfoldable pub static_get : ℕ → ℕ → Action R Flow
  static_get d field_idx = do
    f ← frame_of
    fr ← ask (linker.field_ref f.dex field_idx)
    v ← ask (linker.static_field_get fr)
    give d v

  unfoldable pub static_put : ℕ → ℕ → Action R Flow
  static_put src field_idx = do
    f ← frame_of
    fr ← ask (linker.field_ref f.dex field_idx)
    v ← reg src
    ask (linker.static_field_put fr v)
    pure (Flow.next 0)

  abbrev pub offset_or_fail : Option ℕ → Action R ℕ
  offset_or_fail none = fail Failure.no_field
  offset_or_fail (some off) = pure off

  -- The object of a field access, the field and its offset.
  unfoldable pub field_of : ℕ → ℕ → Action R (ℕ × FieldRef × ℕ)
  field_of r field_idx = do
    o ← object_reg linker r
    obj ← object o
    f ← frame_of
    fr ← ask (linker.field_ref f.dex field_idx)
    w ← world_of
    off ← offset_or_fail (linker.offset_of_field w.rest obj.class fr.name fr.ty)
    pure (o, fr, off)

  unfoldable pub instance_get : ℕ → ℕ → ℕ → Action R Flow
  instance_get d r field_idx = do
    (o, fr, off) ← field_of r field_idx
    obj ← object o
    v ← expect (get_elem? obj.fields off)
    give d v

  -- What `IPutObj` stores: null for a null reference, and a box for a bare number in a box's field.
  abbrev pub box_or_keep : Option Boxed → JValue → Action R JValue
  box_or_keep none v = pure v
  box_or_keep (some b) v = ask (linker.boxed b)

  abbrev pub box_in_field : FieldRef → JValue → Action R JValue
  box_in_field fr v = do
    w ← world_of
    box_or_keep (boxed_for floats (linker.str_of w.rest fr.ty) v) v

  unfoldable pub stored_in : Bool → FieldRef → JValue → Action R JValue
  stored_in false fr v = pure v
  stored_in true fr v = if is_null_ref v then pure JValue.null else box_in_field fr v

  unfoldable pub instance_put : Bool → ℕ → ℕ → ℕ → Action R Flow
  instance_put is_obj src r field_idx = do
    (o, fr, off) ← field_of r field_idx
    v ← reg src
    s ← stored_in is_obj fr v
    obj ← object o
    expect (get_elem? obj.fields off)
    w ← world_of
    set_arena (record w.arena {
      objects = set w.arena.objects o (record obj { fields = set obj.fields off s });
    })
    pure (Flow.next 0)

  -- The receiver of an invocation, on the value in its register: `as_obj` panics on other values.
  abbrev pub receiver_of : JValue → Action R ℕ
  receiver_of (JValue.obj o) = pure o
  receiver_of v = if is_null_ref v then throw_new linker Thrown.null_pointer else finish Exit.panics

  abbrev pub receiver_in : ℕ → Action R (Option ℕ)
  receiver_in r = do v ← reg r; o ← receiver_of v; pure (some o)

  unfoldable pub receiver : InvokeKind → Args → Action R (Option ℕ)
  receiver kind args = if is_static kind then pure none else receiver_in (reg_at args 0)

  abbrev pub initialize : InvokeKind → Target → Action R Unit
  initialize InvokeKind.static (Target.bytecode c slot decoded code ins_size registers args) =
      ask (linker.ensure_class_initialized c)
  initialize kind target = pure tt

  unfoldable pub invoke : InvokeKind → ℕ → Args → Action R Flow
  invoke kind method_idx args = do
    f ← frame_of
    mref ← ask (linker.method_ref f.dex method_idx)
    o ← receiver kind args
    target ← ask (linker.resolve_target kind mref o f.class)
    initialize kind target
    pure (Flow.call kind mref target args 0)
