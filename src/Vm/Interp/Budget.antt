-- ===== src/Vm/Interp/Budget.antt =====
-- What src/vm/interpret.rs relies on for its budget: no operation of the rest of the machine raises it,
-- as only `Vm::new` of src/vm/mod.rs sets it.
use dexvm.Prelude.{ℕ, ◌≤◌, ◌≡◌, List, Option, some}
use dexvm.Dex.Insn.{InvokeKind}
use dexvm.Vm.Value.{JValue}
use dexvm.Vm.Arrays.{Access}
use dexvm.Vm.Operators.{Computed}
use dexvm.Vm.Interp.{World, Exit}
use dexvm.Vm.Interp.Linker.{Linker, FieldRef, MethodRef, NativeKey, Thrown, Boxed}
use dexvm.Vm.Interp.Registers.{object_or_throw, object_reg, accessed, computed, throw_new}
use dexvm.Vm.Interp.Effects.{Keeps, Spends, bind-Keeps, ask-Keeps, finish-Keeps, reg-Keeps}

pub record IsFrugal {R : Type 0} (linker : Linker R) : Type 0 where
  pub class_by_type : (dex t : ℕ) → Spends (linker.class_by_type dex t)
  pub is_assignable : (c d : ℕ) → Spends (linker.is_assignable c d)
  pub class_obj : (c : ℕ) → Spends (linker.class_obj c)
  pub string_obj : (dex i : ℕ) → Spends (linker.string_obj dex i)
  pub field_ref : (dex i : ℕ) → Spends (linker.field_ref dex i)
  pub static_field_get : (fr : FieldRef) → Spends (linker.static_field_get fr)
  pub static_field_put : (fr : FieldRef) (v : JValue) → Spends (linker.static_field_put fr v)
  pub array_class : (dex t : ℕ) → Spends (linker.array_class dex t)
  pub throwable : (exc : Thrown) → Spends (linker.throwable exc)
  pub boxed : (b : Boxed) → Spends (linker.boxed b)
  pub method_ref : (dex i : ℕ) → Spends (linker.method_ref dex i)
  pub resolve_target :
      (kind : InvokeKind) (mref : MethodRef) (o : Option ℕ) (c : ℕ)
      → Spends (linker.resolve_target kind mref o c)
  pub ensure_class_initialized : (c : ℕ) → Spends (linker.ensure_class_initialized c)
  pub natives :
      (r : R) (key : NativeKey) (f : List JValue → World R → Exit JValue × World R)
      → linker.natives r key ≡ some f
      → (args : List JValue) (w : World R) → (f args w).1.budget ≤ w.budget

module _ {R : Type 0} (linker : Linker R) (frugal : IsFrugal linker) where
  pub throw_new-Keeps : (A : Type 0) (exc : Thrown) → Keeps (throw_new linker {A = A} exc)
  unfolding throw_new
  throw_new-Keeps A exc = bind-Keeps _ _ (ask-Keeps _ (frugal.throwable exc)) λ o. finish-Keeps _

  object_or_throw-Keeps : (v : JValue) → Keeps (object_or_throw linker v)
  object_or_throw-Keeps (JValue.obj o) = finish-Keeps _
  object_or_throw-Keeps (JValue.int v) = throw_new-Keeps _ _
  object_or_throw-Keeps (JValue.long v) = throw_new-Keeps _ _
  object_or_throw-Keeps (JValue.float v) = throw_new-Keeps _ _
  object_or_throw-Keeps (JValue.double v) = throw_new-Keeps _ _
  object_or_throw-Keeps JValue.null = throw_new-Keeps _ _

  pub object_reg-Keeps : (r : ℕ) → Keeps (object_reg linker r)
  unfolding object_reg
  object_reg-Keeps r = bind-Keeps _ _ (reg-Keeps r) λ v. object_or_throw-Keeps v

  pub accessed-Keeps : {A : Type 0} (a : Access A) → Keeps (accessed linker a)
  accessed-Keeps (Access.got a) = finish-Keeps _
  accessed-Keeps Access.null_pointer = throw_new-Keeps _ _
  accessed-Keeps (Access.out_of_bounds i n) = throw_new-Keeps _ _
  accessed-Keeps Access.not_an_array = finish-Keeps _
  accessed-Keeps Access.too_long = finish-Keeps _
  accessed-Keeps Access.panics = finish-Keeps _

  pub computed-Keeps : (c : Computed) → Keeps (computed linker c)
  computed-Keeps (Computed.value v) = finish-Keeps _
  computed-Keeps (Computed.throws e) = throw_new-Keeps _ _
