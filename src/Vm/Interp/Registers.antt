-- ===== src/Vm/Interp/Registers.antt =====
-- The effects of one step of src/vm/interpret.rs: it reads and writes the registers and the other fields of
-- the running frame, asks the linker, and ends early by an exception, an error or a panic.
use dexvm.Prelude.{ℕ, List, Option, none, some, get_elem?, set}
use dexvm.Vm.Value.{JValue, as_int}
use dexvm.Vm.Object.{JObject, Arena, alloc}
use dexvm.Vm.Arrays.{Access}
use dexvm.Vm.Operators.{Computed}
use dexvm.Vm.Interp.{Frame, World, Failure, JvmError, Exit}
use dexvm.Vm.Interp.Linker.{Linker, Thrown, to_exit, Op}

-- The running frame and the machine around it.
pub record Machine (R : Type 0) : Type 0 where
  pub frame : Frame
  pub world : World R

abbrev pub Action : Type 0 → Type 0 → Type 0
Action R A = Machine R → Exit A × Machine R

-- What follows a part of a step that ended so.
abbrev pub after : {R A B : Type 0} → (A → Action R B) → Exit A → Action R B
after k (Exit.done a) s = k a s
after k (Exit.throws v) s = (Exit.throws v, s)
after k (Exit.fails e) s = (Exit.fails e, s)
after k Exit.panics s = (Exit.panics, s)

infixl 5 ◌>>=◌
unfoldable pub ◌>>=◌ : {R A B : Type 0} → Action R A → (A → Action R B) → Action R B
(m >>= k) s = let (e, t) = m s in after k e t

infixl 5 ◌>>◌
abbrev pub ◌>>◌ : {R A B : Type 0} → Action R A → Action R B → Action R B
m >> n = m >>= λ a. n

unfoldable pub finish : {R A : Type 0} → Exit A → Action R A
finish e s = (e, s)

abbrev pub pure : {R A : Type 0} → A → Action R A
pure a = finish (Exit.done a)

abbrev pub fail : {R A : Type 0} → Failure → Action R A
fail why = finish (Exit.fails (JvmError.failure why))

-- The value, or a panic.
abbrev pub expect : {R A : Type 0} → Option A → Action R A
expect none = finish Exit.panics
expect (some a) = finish (Exit.done a)

unfoldable pub frame_of : {R : Type 0} → Action R Frame
frame_of s = (Exit.done s.frame, s)

unfoldable pub world_of : {R : Type 0} → Action R (World R)
world_of s = (Exit.done s.world, s)

-- Writes of the frame other than to its registers: the result of a call, and the exception it holds.
unfoldable pub set_result : {R : Type 0} → JValue → Action R Unit
set_result v s = (Exit.done tt, record s { frame = record s.frame { result = v } })

unfoldable pub set_pending : {R : Type 0} → Option JValue → Action R Unit
set_pending v s = (Exit.done tt, record s { frame = record s.frame { pending_exc = v } })

unfoldable pub set_arena : {R : Type 0} → Arena → Action R Unit
set_arena a s = (Exit.done tt, record s { world = record s.world { arena = a } })

unfoldable pub set_monitors : {R : Type 0} → List (ℕ × ℕ) → Action R Unit
set_monitors ms s = (Exit.done tt, record s { world = record s.world { monitors = ms } })

unfoldable pub put_regs : {R : Type 0} → List JValue → Action R Unit
put_regs regs s = (Exit.done tt, record s { frame = record s.frame { regs = regs } })

-- `f.regs[r]`, which panics past the registers.
unfoldable pub reg : {R : Type 0} → ℕ → Action R JValue
reg r = do f ← frame_of; expect (get_elem? f.regs r)

-- `f.regs[r] = v`
unfoldable pub set_reg : {R : Type 0} → ℕ → JValue → Action R Unit
set_reg r v = do f ← frame_of; expect (get_elem? f.regs r); put_regs (set f.regs r v)

unfoldable pub int_reg : {R : Type 0} → ℕ → Action R ℕ
int_reg r = do v ← reg r; expect (as_int v)

-- `arena.objects[o]`
unfoldable pub object : {R : Type 0} → ℕ → Action R JObject
object o = do w ← world_of; expect (get_elem? w.arena.objects o)

unfoldable pub new_object : {R : Type 0} → JObject → Action R JValue
new_object o = do
  w ← world_of
  let (id, arena) = alloc w.arena o
  set_arena arena
  pure (JValue.obj id)

unfoldable pub ask : {R A : Type 0} → Op R A → Action R A
ask op s = let (a, w) = op s.world in (to_exit a, record s { world = w })

module _ {R : Type 0} (linker : Linker R) where
  -- `return Ok(StepOutcome::Throw(JValue::Obj(self.err_...())))`
  unfoldable pub throw_new : {A : Type 0} → Thrown → Action R A
  throw_new exc = do o ← ask (linker.throwable exc); finish (Exit.throws (JValue.obj o))

  -- The object in a register; any other value throws.
  abbrev pub object_or_throw : JValue → Action R ℕ
  object_or_throw (JValue.obj o) = pure o
  object_or_throw v = throw_new Thrown.null_pointer

  unfoldable pub object_reg : ℕ → Action R ℕ
  object_reg r = do v ← reg r; object_or_throw v

  -- An access of an array, with the failure of `fill_array`.
  abbrev pub accessed : {A : Type 0} → Access A → Action R A
  accessed (Access.got a) = pure a
  accessed Access.null_pointer = throw_new Thrown.null_pointer
  accessed (Access.out_of_bounds i n) = throw_new (Thrown.out_of_bounds i n)
  accessed Access.not_an_array = fail Failure.fill_array_on_non_array
  accessed Access.too_long = fail Failure.fill_array_too_long
  accessed Access.panics = finish Exit.panics

  -- A value computed by `binop`.
  abbrev pub computed : Computed → Action R JValue
  computed (Computed.value v) = pure v
  computed (Computed.throws e) = throw_new (Thrown.arithmetic e)
