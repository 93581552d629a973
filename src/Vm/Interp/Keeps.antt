-- ===== src/Vm/Interp/Keeps.antt =====
-- The arms of `step` of src/vm/interpret.rs keep the method, the address and the number of registers.
pub mod Members
pub mod Whole
use dexvm.Prelude.{ℕ, zero, suc, Bool, true, false, Option, none, some, List}
use dexvm.Permission.Text.{Text, strip_prefix}
use dexvm.Dex.Insn.{Args, InvokeKind, FillArray}
use dexvm.Vm.Value.{JValue}
use dexvm.Vm.Object.{Native, ArrayData}
use dexvm.Vm.Operators.{FloatOps}
use dexvm.Vm.Interp.Linker.{Linker, FieldRef, Target, Boxed}
use dexvm.Vm.Interp.Registers.{Action, ◌>>=◌, finish}
use dexvm.Vm.Interp.Effects.{
  Keeps, bind-Keeps, ask-Keeps, finish-Keeps, expect-Keeps, frame_of-Keeps, world_of-Keeps,
  set_result-Keeps, set_pending-Keeps, set_arena-Keeps, set_monitors-Keeps, reg-Keeps,
  int_reg-Keeps, set_reg-Keeps, object-Keeps, new_object-Keeps, if-Keeps,
}
use dexvm.Vm.Interp.Budget.{
  IsFrugal, throw_new-Keeps, object_reg-Keeps, accessed-Keeps, computed-Keeps,
}
use dexvm.Vm.Interp.Arms.{
  monitor, check_cast, instance_of, array_length, array_len, make_array, new_array, fill_new,
  filled_new_array, fill_array_data, aget, aput,
}
use dexvm.Vm.Interp.Members.{give}

pub give-Keeps : {R : Type 0} (d : ℕ) (v : JValue) → Keeps {R = R} (give d v)
unfolding give
give-Keeps d v = bind-Keeps _ _ (set_reg-Keeps d v) λ u. finish-Keeps _

module _ {R : Type 0} (floats : FloatOps) (linker : Linker R) (frugal : IsFrugal linker) where
  pub monitor-Keeps : (d : ℕ) (b : Bool) → Keeps (monitor floats linker d b)
  unfolding monitor
  monitor-Keeps d b = bind-Keeps _ _ (object_reg-Keeps linker frugal d) λ o.
      bind-Keeps _ _ world_of-Keeps λ w. bind-Keeps _ _ (set_monitors-Keeps _) λ u. finish-Keeps _

  check_cast-Keeps : (dex t i : ℕ) (v : JValue) → Keeps (check_cast floats linker dex t i v)
  unfolding check_cast
  check_cast-Keeps dex t i (JValue.obj o) = bind-Keeps _ _ (object-Keeps o) λ obj.
      bind-Keeps _ _ (ask-Keeps _ (frugal.is_assignable obj.class t))
        λ b. if-Keeps b _ _ (finish-Keeps _) (throw_new-Keeps linker frugal _ _)
  check_cast-Keeps dex t i (JValue.int v) = finish-Keeps _
  check_cast-Keeps dex t i (JValue.long v) = finish-Keeps _
  check_cast-Keeps dex t i (JValue.float v) = finish-Keeps _
  check_cast-Keeps dex t i (JValue.double v) = finish-Keeps _
  check_cast-Keeps dex t i JValue.null = finish-Keeps _

  instance_of-Keeps : (t : ℕ) (v : JValue) → Keeps (instance_of floats linker t v)
  unfolding instance_of
  instance_of-Keeps t (JValue.obj o) =
      bind-Keeps _ _ (object-Keeps o) λ obj. ask-Keeps _ (frugal.is_assignable obj.class t)
  instance_of-Keeps t (JValue.int v) = finish-Keeps _
  instance_of-Keeps t (JValue.long v) = finish-Keeps _
  instance_of-Keeps t (JValue.float v) = finish-Keeps _
  instance_of-Keeps t (JValue.double v) = finish-Keeps _
  instance_of-Keeps t JValue.null = finish-Keeps _

  array_len-Keeps : (n : Option Native) → Keeps (array_len floats linker n)
  array_len-Keeps none = finish-Keeps _
  array_len-Keeps (some (Native.array a)) = finish-Keeps _
  array_len-Keeps (some (Native.other vs)) = finish-Keeps _

  pub array_length-Keeps : (d src : ℕ) → Keeps (array_length floats linker d src)
  unfolding array_length
  array_length-Keeps d src = bind-Keeps _ _ (object_reg-Keeps linker frugal src) λ o.
      bind-Keeps _ _ (object-Keeps o) λ obj.
        bind-Keeps _ _ (array_len-Keeps obj.native)
          λ n. bind-Keeps _ _ (set_reg-Keeps d _) λ u. finish-Keeps _

  pub new_array-Keeps : (d n i : ℕ) → Keeps (new_array floats linker d n i)
  unfolding new_array make_array
  new_array-Keeps d size_reg i = bind-Keeps _ _ frame_of-Keeps λ f.
      bind-Keeps _ _ (int_reg-Keeps size_reg) λ n.
        if-Keeps _ _ _ (throw_new-Keeps linker frugal _ _) (
          bind-Keeps _ _ world_of-Keeps λ w.
            bind-Keeps _ _ (ask-Keeps _ (frugal.array_class f.dex _)) λ c.
              bind-Keeps _ _ world_of-Keeps λ v.
                bind-Keeps _ _ (new_object-Keeps _)
                  λ o. bind-Keeps _ _ (set_reg-Keeps d o) λ u. finish-Keeps _)

  fill_new-Keeps :
      (args : Args) (wide : Bool) (n i ri : ℕ) (a : ArrayData)
      → Keeps (fill_new floats linker args wide n i ri a)
  unfolding fill_new
  fill_new-Keeps args wide zero i ri a = finish-Keeps _
  fill_new-Keeps args wide (suc n) i ri a =
      bind-Keeps _ _ (reg-Keeps _)
        λ v. bind-Keeps _ _ (expect-Keeps _) λ b. fill_new-Keeps args wide n _ _ b

  pub filled_new_array-Keeps : (args : Args) (i : ℕ) → Keeps (filled_new_array floats linker args i)
  unfolding filled_new_array
  filled_new_array-Keeps args i = bind-Keeps _ _ frame_of-Keeps λ f.
      bind-Keeps _ _ world_of-Keeps λ w.
        bind-Keeps _ _ (fill_new-Keeps args _ args.count 0 0 _) λ a.
          bind-Keeps _ _ (ask-Keeps _ (frugal.array_class f.dex _)) λ c.
            bind-Keeps _ _ (new_object-Keeps _)
              λ v. bind-Keeps _ _ (set_result-Keeps v) λ u. finish-Keeps _

  pub fill_array_data-Keeps :
      (d : ℕ) (values : FillArray) → Keeps (fill_array_data floats linker d values)
  unfolding fill_array_data
  fill_array_data-Keeps d values = bind-Keeps _ _ (object_reg-Keeps linker frugal d) λ o.
      bind-Keeps _ _ world_of-Keeps λ w.
        bind-Keeps _ _ (accessed-Keeps linker frugal _)
          λ arena. bind-Keeps _ _ (set_arena-Keeps arena) λ u. finish-Keeps _

  pub aget-Keeps : (d arr i : ℕ) → Keeps (aget floats linker d arr i)
  unfolding aget
  aget-Keeps d arr i = bind-Keeps _ _ (object_reg-Keeps linker frugal arr) λ o.
      bind-Keeps _ _ (reg-Keeps i) λ idx. bind-Keeps _ _ world_of-Keeps λ w.
        bind-Keeps _ _ (accessed-Keeps linker frugal _)
          λ v. bind-Keeps _ _ (set_reg-Keeps d v) λ u. finish-Keeps _

  pub aput-Keeps : (src arr i : ℕ) → Keeps (aput floats linker src arr i)
  unfolding aput
  aput-Keeps src arr i = bind-Keeps _ _ (object_reg-Keeps linker frugal arr) λ o.
      bind-Keeps _ _ (reg-Keeps i) λ idx. bind-Keeps _ _ (reg-Keeps src) λ v.
        bind-Keeps _ _ world_of-Keeps λ w.
          bind-Keeps _ _ (accessed-Keeps linker frugal _)
            λ arena. bind-Keeps _ _ (set_arena-Keeps arena) λ u. finish-Keeps _
