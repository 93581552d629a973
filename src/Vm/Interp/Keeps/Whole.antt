-- ===== src/Vm/Interp/Keeps/Whole.antt =====
-- Every instruction of `step` of src/vm/interpret.rs keeps the method, the address and the number of
-- registers of its frame.
use dexvm.Prelude.{refl, ℕ, Option, none, some, List, get_elem?}
use dexvm.Dex.Insn.{Insn}
use dexvm.Vm.Operators.{FloatOps}
use dexvm.Vm.Interp.Linker.{Linker}
use dexvm.Vm.Interp.Registers.{Machine, ◌>>=◌, pure, expect}
use dexvm.Vm.Interp.Arms.{Flow}
use dexvm.Vm.Interp.Effects.{
  Keeps, Continues, Continues-frame, bind-Keeps, ask-Keeps, finish-Keeps, expect-Keeps,
  frame_of-Keeps, set_pending-Keeps, reg-Keeps, int_reg-Keeps, set_reg-Keeps, if-Keeps,
}
use dexvm.Vm.Interp.Budget.{IsFrugal, computed-Keeps}
use dexvm.Vm.Interp.Keeps.{
  give-Keeps, monitor-Keeps, array_length-Keeps, new_array-Keeps, filled_new_array-Keeps,
  fill_array_data-Keeps, aget-Keeps, aput-Keeps,
}
use dexvm.Vm.Interp.Members.{}
use dexvm.Vm.Interp.Step.{
  move_wide, move_result, move_exception, packed_switch, position, sparse_switch, branch, exec,
  set_err_pc, run_at, step,
}
use dexvm.Vm.Interp.Keeps.Members.{
  const_class-Keeps, cast-Keeps, test_instance-Keeps, new_instance-Keeps, throw_value-Keeps,
  static_get-Keeps, static_put-Keeps, instance_get-Keeps, instance_put-Keeps, invoke-Keeps,
}

module _ {R : Type 0} where
  move_wide-Keeps : (d s : ℕ) → Keeps {R = R} (move_wide d s)
  unfolding move_wide
  move_wide-Keeps d s = bind-Keeps _ _ (reg-Keeps s) λ low.
      bind-Keeps _ _ (set_reg-Keeps d low)
        λ u. bind-Keeps _ _ (reg-Keeps _) λ high. give-Keeps _ high

  move_result-Keeps : (d : ℕ) → Keeps {R = R} (move_result d)
  unfolding move_result
  move_result-Keeps d = bind-Keeps _ _ frame_of-Keeps λ f. give-Keeps d _

  move_exception-Keeps : (d : ℕ) → Keeps {R = R} (move_exception d)
  unfolding move_exception
  move_exception-Keeps d =
      bind-Keeps _ _ frame_of-Keeps λ f. bind-Keeps _ _ (set_pending-Keeps none) λ u. give-Keeps d _

  packed_switch-Keeps : (d first : ℕ) (ts : List ℕ) → Keeps {R = R} (packed_switch d first ts)
  unfolding packed_switch
  packed_switch-Keeps d first ts = bind-Keeps _ _ (int_reg-Keeps d) λ v. finish-Keeps _

  jump_to-Keeps :
      (ts : List ℕ) (i : Option ℕ)
      → Keeps {R = R} (elim i [
        | none ↦ pure (Flow.next 0)
        | some j ↦ (do t ← expect (get_elem? ts j); pure (Flow.jump t))
      ])
  jump_to-Keeps ts none = finish-Keeps _
  jump_to-Keeps ts (some i) = bind-Keeps _ _ (expect-Keeps _) λ t. finish-Keeps _

  sparse_switch-Keeps : (d : ℕ) (ks ts : List ℕ) → Keeps {R = R} (sparse_switch d ks ts)
  unfolding sparse_switch
  sparse_switch-Keeps d ks ts =
      bind-Keeps _ _ (int_reg-Keeps d) λ v. jump_to-Keeps ts (position ks v)

module _ {R : Type 0} (floats : FloatOps) (linker : Linker R) (frugal : IsFrugal linker) where
  exec-Keeps : (insn : Insn) → Keeps (exec floats linker insn)
  unfolding exec branch
  exec-Keeps Insn.nop = finish-Keeps _
  exec-Keeps (Insn.move d s) = bind-Keeps _ _ (reg-Keeps _) λ v. give-Keeps _ _
  exec-Keeps (Insn.move_wide d s) = move_wide-Keeps _ _
  exec-Keeps (Insn.const4 d lit) = give-Keeps _ _
  exec-Keeps (Insn.const16 d lit) = give-Keeps _ _
  exec-Keeps (Insn.const d lit) = give-Keeps _ _
  exec-Keeps (Insn.const_high16 d lit) = give-Keeps _ _
  exec-Keeps (Insn.const_wide16 d lit) = give-Keeps _ _
  exec-Keeps (Insn.const_wide32 d lit) = give-Keeps _ _
  exec-Keeps (Insn.const_wide d lit) = give-Keeps _ _
  exec-Keeps (Insn.const_wide_high16 d lit) = give-Keeps _ _
  exec-Keeps (Insn.const_string d i) =
      bind-Keeps _ _ frame_of-Keeps
        λ f. bind-Keeps _ _ (ask-Keeps _ (frugal.string_obj _ _)) λ v. give-Keeps _ _
  exec-Keeps (Insn.const_string_jumbo d i) =
      bind-Keeps _ _ frame_of-Keeps
        λ f. bind-Keeps _ _ (ask-Keeps _ (frugal.string_obj _ _)) λ v. give-Keeps _ _
  exec-Keeps (Insn.const_class d i) = const_class-Keeps floats linker frugal _ _
  exec-Keeps (Insn.move_result d) = move_result-Keeps _
  exec-Keeps (Insn.move_result_wide d) = move_result-Keeps _
  exec-Keeps (Insn.move_exception d) = move_exception-Keeps _
  exec-Keeps (Insn.const_method_handle d i) = finish-Keeps _
  exec-Keeps (Insn.const_method_type d i) = finish-Keeps _
  exec-Keeps (Insn.monitor_enter d) = monitor-Keeps floats linker frugal _ _
  exec-Keeps (Insn.monitor_exit d) = monitor-Keeps floats linker frugal _ _
  exec-Keeps (Insn.check_cast d i) = cast-Keeps floats linker frugal _ _
  exec-Keeps (Insn.instance_of d s i) = test_instance-Keeps floats linker frugal _ _ _
  exec-Keeps (Insn.array_length d s) = array_length-Keeps floats linker frugal _ _
  exec-Keeps (Insn.new_instance d i) = new_instance-Keeps floats linker frugal _ _
  exec-Keeps (Insn.new_array d n i) = new_array-Keeps floats linker frugal _ _ _
  exec-Keeps (Insn.filled_new_array args i) = filled_new_array-Keeps floats linker frugal _ _
  exec-Keeps (Insn.fill_array_data d payload values) =
      fill_array_data-Keeps floats linker frugal _ _
  exec-Keeps (Insn.throw d) = throw_value-Keeps floats linker frugal _
  exec-Keeps (Insn.goto t) = finish-Keeps _
  exec-Keeps (Insn.packed_switch d payload first targets) = packed_switch-Keeps _ _ _
  exec-Keeps (Insn.sparse_switch d payload keys targets) = sparse_switch-Keeps _ _ _
  exec-Keeps (Insn.cmp op d a b) =
      bind-Keeps _ _ (reg-Keeps _) λ x. bind-Keeps _ _ (reg-Keeps _) λ y. give-Keeps _ _
  exec-Keeps (Insn.if_two op a b t) =
      bind-Keeps _ _ (reg-Keeps _) λ x. bind-Keeps _ _ (reg-Keeps _) λ y. finish-Keeps _
  exec-Keeps (Insn.if_z op a t) = bind-Keeps _ _ (reg-Keeps _) λ x. finish-Keeps _
  exec-Keeps (Insn.aget elem d arr i) = aget-Keeps floats linker frugal _ _ _
  exec-Keeps (Insn.aput elem s arr i) = aput-Keeps floats linker frugal _ _ _
  exec-Keeps (Insn.sget d i) = static_get-Keeps floats linker frugal _ _
  exec-Keeps (Insn.sget_wide d i) = static_get-Keeps floats linker frugal _ _
  exec-Keeps (Insn.sget_obj d i) = static_get-Keeps floats linker frugal _ _
  exec-Keeps (Insn.sput s i) = static_put-Keeps floats linker frugal _ _
  exec-Keeps (Insn.sput_wide s i) = static_put-Keeps floats linker frugal _ _
  exec-Keeps (Insn.sput_obj s i) = static_put-Keeps floats linker frugal _ _
  exec-Keeps (Insn.iget d o i) = instance_get-Keeps floats linker frugal _ _ _
  exec-Keeps (Insn.iget_wide d o i) = instance_get-Keeps floats linker frugal _ _ _
  exec-Keeps (Insn.iget_obj d o i) = instance_get-Keeps floats linker frugal _ _ _
  exec-Keeps (Insn.iput s o i) = instance_put-Keeps floats linker frugal _ _ _ _
  exec-Keeps (Insn.iput_wide s o i) = instance_put-Keeps floats linker frugal _ _ _ _
  exec-Keeps (Insn.iput_obj s o i) = instance_put-Keeps floats linker frugal _ _ _ _
  exec-Keeps (Insn.invoke kind i args) = invoke-Keeps floats linker frugal _ _ _
  exec-Keeps (Insn.unop op d s) = bind-Keeps _ _ (reg-Keeps _) λ v. give-Keeps _ _
  exec-Keeps (Insn.binop op d a b) = bind-Keeps _ _ (reg-Keeps _) λ x.
      bind-Keeps _ _ (reg-Keeps _)
        λ y. bind-Keeps _ _ (computed-Keeps linker frugal _) λ v. give-Keeps _ _
  exec-Keeps (Insn.binop_lit op d a lit) =
      bind-Keeps _ _ (reg-Keeps _)
        λ x. bind-Keeps _ _ (computed-Keeps linker frugal _) λ v. give-Keeps _ _
  exec-Keeps (Insn.return v) = bind-Keeps _ _ (reg-Keeps _) λ x. finish-Keeps _
  exec-Keeps (Insn.return_wide v) = bind-Keeps _ _ (reg-Keeps _) λ x. finish-Keeps _
  exec-Keeps Insn.return_void = finish-Keeps _

  set_err_pc-Keeps : (pc : ℕ) → Keeps (set_err_pc floats linker pc)
  unfolding set_err_pc
  set_err_pc-Keeps pc s = Continues-frame s _ (refl, refl, refl) (refl, refl, refl) refl

  -- However a step ends, the frame still runs the same method at the same address with as many registers,
  -- and the budget has not grown, if no operation of the linker raises it.
  pub step-Keeps : (s : Machine R) → Continues s (step floats linker s).1
  unfolding step run_at
  step-Keeps = bind-Keeps _ _ frame_of-Keeps λ f. if-Keeps _ _ _ (finish-Keeps _) (
      bind-Keeps _ _ (set_err_pc-Keeps f.pc) λ u.
        bind-Keeps _ _ (expect-Keeps _)
          λ (insn, next_pc). bind-Keeps _ _ (exec-Keeps insn) λ flow. finish-Keeps _)
