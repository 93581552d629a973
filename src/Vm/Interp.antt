-- ===== src/Vm/Interp.antt =====
-- The state of src/vm/interpret.rs: frames, the machine of one step, the interpreter's results, and
-- how a frame finds its instruction. The children have the linking interface, the step, the unwinding
-- and the loop.
pub mod Linker
pub mod Registers
pub mod Arms
pub mod Members
pub mod Step
pub mod Fetch
pub mod Entry
pub mod Monitors
pub mod Constants
pub mod Unwind
pub mod Nearest
pub mod Call
pub mod Loop
pub mod Keeps
pub mod Effects
pub mod Budget
pub use dexvm.Dex.ClassData.{TryItem}
use dexvm.Prelude.{
  ℕ, zero, suc, ◌+◌, ◌-◌, ◌%◌, ◌^◌, List, [], ◌∷◌, Bool, Option, none, some, replicate, set,
  get_elem?, ltb, ◌==◌, if◌then◌else◌,
}
use dexvm.Dex.Insn.{Insn}
use dexvm.Dex.Insn.Decode.{Decoded}
use dexvm.Vm.Value.{JValue}
use dexvm.Vm.Object.{Arena}

pub record Frame : Type 0 where
  pub class : ℕ
  pub slot : ℕ
  pub dex : ℕ
  pub decoded : Decoded
  pub tries : List TryItem
  pub regs : List JValue
  pub pc : ℕ
  pub err_pc : ℕ
  pub result : JValue
  pub pending_exc : Option JValue

-- The fields of `Vm` that the interpreter reads or writes itself, and `rest`, all the others, which it
-- reaches only through the operations of `Linker`.
pub record World (R : Type 0) : Type 0 where
  pub arena : Arena
  pub monitors : List (ℕ × ℕ)
  pub budget : ℕ
  pub rest : R

-- The texts of `JvmError` that the interpreter makes, and `other` for those of the rest of the machine.
pub data Failure : Type 0 where
  past_end_of_method unsupported_handle array_length_on_non_array : Failure
  fill_array_on_non_array fill_array_too_long budget_exhausted no_pending_exception : Failure
  no_native no_code_item no_field : Failure
  other : ℕ → Failure

-- `JvmError` of src/vm/error.rs, as far as the interpreter tells its variants apart.
pub data JvmError : Type 0 where
  uncaught : ℕ → JvmError
  failure : Failure → JvmError

-- How a step or a part of one ends: with a value, with a Java exception (`StepOutcome::Throw`), with an
-- error of the machine, or in a panic.
pub data Exit (A : Type 0) : Type 0 where
  done : A → Exit A
  throws : JValue → Exit A
  fails : JvmError → Exit A
  panics : Exit A

-- The loop of `make_regs` over the arguments from the index `i` on.
unfoldable pub place_args : List JValue → ℕ → ℕ → ℕ → List JValue → List JValue
place_args regs base ins_size i [] = regs
place_args regs base ins_size i (a ∷ args) =
    place_args (if ltb i ins_size then set regs (base + i) a else regs) base ins_size (i + 1) args

-- `Frame::make_regs`; none where `registers - ins_size` goes below 0, at which it panics.
unfoldable pub make_regs : List JValue → ℕ → ℕ → Option (List JValue)
make_regs args ins_size registers =
    if ltb registers ins_size
    then none
    else some (place_args (replicate registers JValue.null) (registers - ins_size) ins_size 0 args)

-- A frame at the start of a method, with its registers.
abbrev pub entry_frame : ℕ → ℕ → ℕ → Decoded → List TryItem → List JValue → Frame
entry_frame class slot dex decoded tries regs = record {
  class = class;
  slot = slot;
  dex = dex;
  decoded = decoded;
  tries = tries;
  regs = regs;
  pc = 0;
  err_pc = 0;
  result = JValue.null;
  pending_exc = none;
}

-- The number of units below `pc`: where `binary_search` finds `pc` or would insert it, the units being
-- in increasing order.
unfoldable pub rank : List ℕ → ℕ → ℕ
rank [] pc = 0
rank (u ∷ us) pc = if ltb u pc then suc (rank us pc) else 0

abbrev pub located : Option ℕ → ℕ → ℕ → ℕ
located none pc i = i - 1
located (some u) pc i = if u == pc then i else i - 1

-- `units.binary_search(&pc).unwrap_or_else(|i| i.saturating_sub(1))`
unfoldable pub locate : List ℕ → ℕ → ℕ
locate units pc = located (get_elem? units (rank units pc)) pc (rank units pc)

abbrev pub fetched : ℕ → Option ℕ → Option Insn → Option (Insn × ℕ)
fetched pc (some size) (some insn) = some (insn, pc + size)
fetched pc size insn = none

-- The instruction that the step at `pc` runs and the address behind it; none where an index is out of
-- range, at which it panics.
unfoldable pub fetch : Decoded → ℕ → Option (Insn × ℕ)
fetch d pc =
    let i = locate d.units (pc % 2 ^ 32) in fetched pc (get_elem? d.sizes i) (get_elem? d.insns i)
