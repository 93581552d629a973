-- ===== src/Vm/Interp/Keeps/Members.antt =====
-- The arms of `step` of src/vm/interpret.rs that ask for classes, fields and methods keep the method, the
-- address and the number of registers.
use dexvm.Prelude.{ℕ, Bool, true, false, Option, none, some}
use dexvm.Dex.Insn.{Args, InvokeKind}
use dexvm.Vm.Value.{JValue}
use dexvm.Vm.Operators.{FloatOps}
use dexvm.Vm.Interp.Linker.{Linker, FieldRef, Target, Boxed}
use dexvm.Vm.Interp.Effects.{
  Keeps, bind-Keeps, ask-Keeps, finish-Keeps, expect-Keeps, frame_of-Keeps, world_of-Keeps,
  set_arena-Keeps, reg-Keeps, object-Keeps, new_object-Keeps, if-Keeps,
}
use dexvm.Vm.Interp.Budget.{IsFrugal, throw_new-Keeps, object_reg-Keeps}
use dexvm.Vm.Interp.Keeps.{give-Keeps, check_cast-Keeps, instance_of-Keeps}
use dexvm.Vm.Interp.Members.{
  const_class, cast, test_instance, new_instance, throw_value, static_get, static_put,
  offset_or_fail, field_of, instance_get, box_or_keep, stored_in, instance_put, receiver_of,
  receiver, initialize, invoke,
}
use dexvm.Vm.Interp.Step.{}

module _ {R : Type 0} (floats : FloatOps) (linker : Linker R) (frugal : IsFrugal linker) where
  pub const_class-Keeps : (d i : ℕ) → Keeps (const_class floats linker d i)
  unfolding const_class
  const_class-Keeps d i = bind-Keeps _ _ frame_of-Keeps λ f.
      bind-Keeps _ _ (ask-Keeps _ (frugal.class_by_type f.dex i))
        λ c. bind-Keeps _ _ (ask-Keeps _ (frugal.class_obj c)) λ v. give-Keeps d v

  pub cast-Keeps : (d i : ℕ) → Keeps (cast floats linker d i)
  unfolding cast
  cast-Keeps d i = bind-Keeps _ _ frame_of-Keeps λ f.
      bind-Keeps _ _ (ask-Keeps _ (frugal.class_by_type f.dex i))
        λ c. bind-Keeps _ _ (reg-Keeps d) λ v. check_cast-Keeps floats linker frugal f.dex c i v

  pub test_instance-Keeps : (d s i : ℕ) → Keeps (test_instance floats linker d s i)
  unfolding test_instance
  test_instance-Keeps d s i = bind-Keeps _ _ frame_of-Keeps λ f.
      bind-Keeps _ _ (ask-Keeps _ (frugal.class_by_type f.dex i)) λ c.
        bind-Keeps _ _ (reg-Keeps s)
          λ v. bind-Keeps _ _ (instance_of-Keeps floats linker frugal c v) λ b. give-Keeps d _

  pub new_instance-Keeps : (d i : ℕ) → Keeps (new_instance floats linker d i)
  unfolding new_instance
  new_instance-Keeps d i = bind-Keeps _ _ frame_of-Keeps λ f.
      bind-Keeps _ _ (ask-Keeps _ (frugal.class_by_type f.dex i)) λ c.
        bind-Keeps _ _ world_of-Keeps λ w. bind-Keeps _ _ (new_object-Keeps _) λ v. give-Keeps d v

  pub throw_value-Keeps : (d : ℕ) → Keeps (throw_value floats linker d)
  unfolding throw_value
  throw_value-Keeps d =
      bind-Keeps _ _ (reg-Keeps d)
        λ v. if-Keeps _ _ _ (throw_new-Keeps linker frugal _ _) (finish-Keeps _)

  pub static_get-Keeps : (d i : ℕ) → Keeps (static_get floats linker d i)
  unfolding static_get
  static_get-Keeps d i = bind-Keeps _ _ frame_of-Keeps λ f.
      bind-Keeps _ _ (ask-Keeps _ (frugal.field_ref f.dex i))
        λ fr. bind-Keeps _ _ (ask-Keeps _ (frugal.static_field_get fr)) λ v. give-Keeps d v

  pub static_put-Keeps : (s i : ℕ) → Keeps (static_put floats linker s i)
  unfolding static_put
  static_put-Keeps s i = bind-Keeps _ _ frame_of-Keeps λ f.
      bind-Keeps _ _ (ask-Keeps _ (frugal.field_ref f.dex i)) λ fr.
        bind-Keeps _ _ (reg-Keeps s)
          λ v. bind-Keeps _ _ (ask-Keeps _ (frugal.static_field_put fr v)) λ u. finish-Keeps _

  offset_or_fail-Keeps : (o : Option ℕ) → Keeps (offset_or_fail floats linker o)
  offset_or_fail-Keeps none = finish-Keeps _
  offset_or_fail-Keeps (some off) = finish-Keeps _

  field_of-Keeps : (r i : ℕ) → Keeps (field_of floats linker r i)
  unfolding field_of
  field_of-Keeps r i = bind-Keeps _ _ (object_reg-Keeps linker frugal r) λ o.
      bind-Keeps _ _ (object-Keeps o) λ obj. bind-Keeps _ _ frame_of-Keeps λ f.
        bind-Keeps _ _ (ask-Keeps _ (frugal.field_ref f.dex i)) λ fr.
          bind-Keeps _ _ world_of-Keeps
            λ w. bind-Keeps _ _ (offset_or_fail-Keeps _) λ off. finish-Keeps _

  pub instance_get-Keeps : (d r i : ℕ) → Keeps (instance_get floats linker d r i)
  unfolding instance_get
  instance_get-Keeps d r i = bind-Keeps _ _ (field_of-Keeps r i) λ (o, fr, off).
      bind-Keeps _ _ (object-Keeps o) λ obj. bind-Keeps _ _ (expect-Keeps _) λ v. give-Keeps d v

  box_or_keep-Keeps : (b : Option Boxed) (v : JValue) → Keeps (box_or_keep floats linker b v)
  box_or_keep-Keeps none v = finish-Keeps _
  box_or_keep-Keeps (some b) v = ask-Keeps _ (frugal.boxed b)

  stored_in-Keeps : (b : Bool) (fr : FieldRef) (v : JValue) → Keeps (stored_in floats linker b fr v)
  unfolding stored_in
  stored_in-Keeps false fr v = finish-Keeps _
  stored_in-Keeps true fr v =
      if-Keeps _ _ _ (finish-Keeps _) (bind-Keeps _ _ world_of-Keeps λ w. box_or_keep-Keeps _ v)

  pub instance_put-Keeps : (b : Bool) (s r i : ℕ) → Keeps (instance_put floats linker b s r i)
  unfolding instance_put
  instance_put-Keeps b s r i = bind-Keeps _ _ (field_of-Keeps r i) λ (o, fr, off).
      bind-Keeps _ _ (reg-Keeps s) λ v. bind-Keeps _ _ (stored_in-Keeps b fr v) λ x.
        bind-Keeps _ _ (object-Keeps o) λ obj. bind-Keeps _ _ (expect-Keeps _) λ old.
          bind-Keeps _ _ world_of-Keeps λ w. bind-Keeps _ _ (set_arena-Keeps _) λ u. finish-Keeps _

  receiver_of-Keeps : (v : JValue) → Keeps (receiver_of floats linker v)
  receiver_of-Keeps (JValue.obj o) = finish-Keeps _
  receiver_of-Keeps (JValue.int v) =
      if-Keeps _ _ _ (throw_new-Keeps linker frugal _ _) (finish-Keeps _)
  receiver_of-Keeps (JValue.long v) =
      if-Keeps _ _ _ (throw_new-Keeps linker frugal _ _) (finish-Keeps _)
  receiver_of-Keeps (JValue.float v) =
      if-Keeps _ _ _ (throw_new-Keeps linker frugal _ _) (finish-Keeps _)
  receiver_of-Keeps (JValue.double v) =
      if-Keeps _ _ _ (throw_new-Keeps linker frugal _ _) (finish-Keeps _)
  receiver_of-Keeps JValue.null =
      if-Keeps _ _ _ (throw_new-Keeps linker frugal _ _) (finish-Keeps _)

  receiver-Keeps : (kind : InvokeKind) (args : Args) → Keeps (receiver floats linker kind args)
  unfolding receiver
  receiver-Keeps kind args =
      if-Keeps _ _ _ (finish-Keeps _)
        (bind-Keeps _ _ (reg-Keeps _) λ v. bind-Keeps _ _ (receiver_of-Keeps v) λ o. finish-Keeps _)

  initialize-Keeps : (kind : InvokeKind) (t : Target) → Keeps (initialize floats linker kind t)
  initialize-Keeps InvokeKind.static (Target.bytecode c slot decoded code ins regs args) =
      ask-Keeps _ (frugal.ensure_class_initialized c)
  initialize-Keeps InvokeKind.static (Target.native key) = finish-Keeps _
  initialize-Keeps InvokeKind.virtual t = finish-Keeps _
  initialize-Keeps InvokeKind.super t = finish-Keeps _
  initialize-Keeps InvokeKind.direct t = finish-Keeps _
  initialize-Keeps InvokeKind.interface t = finish-Keeps _

  pub invoke-Keeps :
      (kind : InvokeKind) (i : ℕ) (args : Args) → Keeps (invoke floats linker kind i args)
  unfolding invoke
  invoke-Keeps kind i args = bind-Keeps _ _ frame_of-Keeps λ f.
      bind-Keeps _ _ (ask-Keeps _ (frugal.method_ref f.dex i)) λ mref.
        bind-Keeps _ _ (receiver-Keeps kind args) λ o.
          bind-Keeps _ _ (ask-Keeps _ (frugal.resolve_target kind mref o f.class))
            λ target. bind-Keeps _ _ (initialize-Keeps kind target) λ u. finish-Keeps _
