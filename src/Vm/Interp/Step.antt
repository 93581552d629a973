-- ===== src/Vm/Interp/Step.antt =====
-- `step` of src/vm/interpret.rs: one instruction of the running frame.
use dexvm.Prelude.{
  ℕ, ◌+◌, ◌%◌, ◌^◌, List, [], ◌∷◌, Bool, true, false, Option, none, some, get_elem?, leb, ◌==◌,
  if◌then◌else◌, length,
}
use dexvm.Dex.Insn.{Insn}
use dexvm.Vm.Value.{JValue}
use dexvm.Vm.Machine.{sign_extend, wrapping_sub, wrapping_shl}
use dexvm.Vm.Operators.{FloatOps, binop, binop_lit, unop, cmp, if_condition, if_z_condition}
use dexvm.Vm.Arrays.{in_range}
use dexvm.Vm.Interp.{Frame, Failure, Exit, fetch}
use dexvm.Vm.Interp.Linker.{Linker}
use dexvm.Vm.Interp.Registers.{
  Action, ◌>>=◌, ◌>>◌, pure, fail, expect, frame_of, reg, set_reg, int_reg, ask, computed,
  set_pending,
}
use dexvm.Vm.Interp.Arms.{
  Flow, monitor, array_length, new_array, filled_new_array, fill_array_data, aget, aput,
}
use dexvm.Vm.Interp.Members.{
  give, const_class, cast, test_instance, new_instance, throw_value, static_get, static_put,
  instance_get, instance_put, invoke,
}

-- `keys.binary_search(&v)`, the keys being in increasing order.
unfoldable pub position : List ℕ → ℕ → Option ℕ
position [] v = none
position (k ∷ ks) v =
    if k == v then some 0 else elim (position ks v) [ none ↦ none | some i ↦ some (i + 1) ]

abbrev jump_or_next : Option ℕ → Flow
jump_or_next none = Flow.next 0
jump_or_next (some t) = Flow.jump t

unfoldable pub move_wide : {R : Type 0} → ℕ → ℕ → Action R Flow
move_wide d s = do low ← reg s; set_reg d low; high ← reg (s + 1); give (d + 1) high

unfoldable pub move_result : {R : Type 0} → ℕ → Action R Flow
move_result d = do f ← frame_of; give d f.result

-- `pending_exc.take().unwrap_or(Null)`
unfoldable pub move_exception : {R : Type 0} → ℕ → Action R Flow
move_exception d = do
  f ← frame_of
  set_pending none
  give d (elim f.pending_exc [ none ↦ JValue.null | some v ↦ v ])

unfoldable pub packed_switch : {R : Type 0} → ℕ → ℕ → List ℕ → Action R Flow
packed_switch d first targets = do
  v ← int_reg d
  let idx = wrapping_sub 32 v first
  pure (if in_range idx (length targets) then jump_or_next (get_elem? targets idx) else Flow.next 0)

unfoldable pub sparse_switch : {R : Type 0} → ℕ → List ℕ → List ℕ → Action R Flow
sparse_switch d keys targets = do
  v ← int_reg d
  elim (position keys v) [
    | none ↦ pure (Flow.next 0)
    | some i ↦ do t ← expect (get_elem? targets i); pure (Flow.jump t)
  ]

module _ {R : Type 0} (floats : FloatOps) (linker : Linker R) where
  unfoldable pub branch : Bool → ℕ → Action R Flow
  branch cond t = pure (if cond then Flow.jump t else Flow.next 0)

  -- The arms of the `match` on the instruction.
  unfoldable pub exec : Insn → Action R Flow
  exec Insn.nop = pure (Flow.next 0)
  exec (Insn.move d s) = do v ← reg s; give d v
  exec (Insn.move_wide d s) = move_wide d s
  exec (Insn.const4 d lit) = give d (JValue.int (sign_extend 8 32 lit))
  exec (Insn.const16 d lit) = give d (JValue.int (sign_extend 16 32 lit))
  exec (Insn.const d lit) = give d (JValue.int lit)
  exec (Insn.const_high16 d lit) = give d (JValue.int (wrapping_shl 32 lit 16))
  exec (Insn.const_wide16 d lit) = give d (JValue.long lit)
  exec (Insn.const_wide32 d lit) = give d (JValue.long lit)
  exec (Insn.const_wide d lit) = give d (JValue.long lit)
  exec (Insn.const_wide_high16 d lit) =
      give d (JValue.long (wrapping_shl 64 (wrapping_shl 64 lit 16 % 2 ^ 32) 32))
  exec (Insn.const_string d i) = do f ← frame_of; v ← ask (linker.string_obj f.dex i); give d v
  exec (Insn.const_string_jumbo d i) = do
    f ← frame_of
    v ← ask (linker.string_obj f.dex i)
    give d v
  exec (Insn.const_class d i) = const_class floats linker d i
  exec (Insn.move_result d) = move_result d
  exec (Insn.move_result_wide d) = move_result d
  exec (Insn.move_exception d) = move_exception d
  exec (Insn.const_method_handle d i) = fail Failure.unsupported_handle
  exec (Insn.const_method_type d i) = fail Failure.unsupported_handle
  exec (Insn.monitor_enter d) = monitor floats linker d true
  exec (Insn.monitor_exit d) = monitor floats linker d false
  exec (Insn.check_cast d i) = cast floats linker d i
  exec (Insn.instance_of d s i) = test_instance floats linker d s i
  exec (Insn.array_length d s) = array_length floats linker d s
  exec (Insn.new_instance d i) = new_instance floats linker d i
  exec (Insn.new_array d n i) = new_array floats linker d n i
  exec (Insn.filled_new_array args i) = filled_new_array floats linker args i
  exec (Insn.fill_array_data d payload values) = fill_array_data floats linker d values
  exec (Insn.throw d) = throw_value floats linker d
  exec (Insn.goto t) = pure (Flow.jump t)
  exec (Insn.packed_switch d payload first targets) = packed_switch d first targets
  exec (Insn.sparse_switch d payload keys targets) = sparse_switch d keys targets
  exec (Insn.cmp op d a b) = do x ← reg a; y ← reg b; give d (JValue.int (cmp floats op x y))
  exec (Insn.if_two op a b t) = do x ← reg a; y ← reg b; branch (if_condition floats op x y) t
  exec (Insn.if_z op a t) = do x ← reg a; branch (if_z_condition floats op x) t
  exec (Insn.aget elem d arr i) = aget floats linker d arr i
  exec (Insn.aput elem s arr i) = aput floats linker s arr i
  exec (Insn.sget d i) = static_get floats linker d i
  exec (Insn.sget_wide d i) = static_get floats linker d i
  exec (Insn.sget_obj d i) = static_get floats linker d i
  exec (Insn.sput s i) = static_put floats linker s i
  exec (Insn.sput_wide s i) = static_put floats linker s i
  exec (Insn.sput_obj s i) = static_put floats linker s i
  exec (Insn.iget d o i) = instance_get floats linker d o i
  exec (Insn.iget_wide d o i) = instance_get floats linker d o i
  exec (Insn.iget_obj d o i) = instance_get floats linker d o i
  exec (Insn.iput s o i) = instance_put floats linker false s o i
  exec (Insn.iput_wide s o i) = instance_put floats linker false s o i
  exec (Insn.iput_obj s o i) = instance_put floats linker true s o i
  exec (Insn.invoke kind i args) = invoke floats linker kind i args
  exec (Insn.unop op d s) = do v ← reg s; give d (unop floats op v)
  exec (Insn.binop op d a b) = do
    x ← reg a
    y ← reg b
    v ← computed linker (binop floats op x y)
    give d v
  exec (Insn.binop_lit op d a lit) = do
    x ← reg a
    v ← computed linker (binop_lit floats op x lit)
    give d v
  exec (Insn.return v) = do x ← reg v; pure (Flow.ret x)
  exec (Insn.return_wide v) = do x ← reg v; pure (Flow.ret x)
  exec Insn.return_void = pure (Flow.ret JValue.null)

  -- The last `match` of the step: the address behind the instruction.
  abbrev pub continue_at : ℕ → Flow → Flow
  continue_at next_pc (Flow.next t) = Flow.next next_pc
  continue_at next_pc (Flow.call kind mref target args t) = Flow.call kind mref target args next_pc
  continue_at next_pc flow = flow

  unfoldable pub set_err_pc : ℕ → Action R Unit
  set_err_pc pc s = (Exit.done tt, record s { frame = record s.frame { err_pc = pc } })

  unfoldable pub run_at : Frame → Action R Flow
  run_at f = do
    set_err_pc f.pc
    (insn, next_pc) ← expect (fetch f.decoded f.pc)
    flow ← exec insn
    pure (continue_at next_pc flow)

  unfoldable pub step : Action R Flow
  step = do
    f ← frame_of
    (if leb f.decoded.words f.pc then fail Failure.past_end_of_method else run_at f)
