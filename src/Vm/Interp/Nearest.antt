-- ===== src/Vm/Interp/Nearest.antt =====
-- Where an exception is caught, against the search of src/vm/interpret.rs.
pub mod Address
pub mod Calls
pub mod Search
pub mod Frames
use dexvm.Prelude.{
  ℕ, zero, suc, ◌+◌, ◌%◌, ◌^◌, ◌≤◌, ◌<◌, ◌≡◌, List, [], ◌∷◌, ◌++◌, Bool, true, false, Option, none,
  some, get_elem?, All, ltb, ◌==◌, if◌then◌else◌, ◌⊎◌,
}
use dexvm.Vm.Value.{JValue}
use dexvm.Vm.Object.{JObject}
use dexvm.Vm.Interp.{TryItem, Frame, World}
use dexvm.Vm.Interp.Linker.{Linker, Answer, Op}
use dexvm.Vm.Interp.Unwind.{Unwound}

-- The address of the instruction that holds `pc`: of the addresses that lead up to it the last, or the first of
-- all where none does, and 0 where there is none.
unfoldable pub last_until : ℕ → List ℕ → ℕ → ℕ
last_until u [] pc = u
last_until u (v ∷ vs) pc = if ltb v pc then last_until v vs pc else if v == pc then v else u

unfoldable pub thrown_at : List ℕ → ℕ → ℕ
thrown_at [] pc = 0
thrown_at (u ∷ us) pc = if ltb u pc then last_until u us pc else u

-- The address of the instruction that threw in a frame.
abbrev pub thrower : Frame → ℕ
thrower f = thrown_at f.decoded.units (f.err_pc % 2 ^ 32)

-- The range of an item, with an end of 32 bits that it does not contain.
abbrev pub Covers : TryItem → ℕ → Type 0
Covers t addr = (t.start_addr ≤ addr) × (addr < (t.start_addr + t.insn_count) % 2 ^ 32)

-- From each good world the operation answers `a`, in a good world again.
abbrev pub Calls : {R A : Type 0} → (World R → Type 0) → Op R A → A → Type 0
Calls {R} Good m a = (v : World R) → Good v → (u : World R) × (m v ≡ (Answer.answers a, u)) × Good u

-- The thrown object, of that class, is in the arena.
abbrev pub Holds : {R : Type 0} → (World R → Type 0) → ℕ → ℕ → Type 0
Holds {R} Good o class =
    (v : World R)
    → Good v
    → (x : JObject) × (get_elem? v.arena.objects o ≡ some x) × (x.class ≡ class)

-- `accepts dex type_idx` says whether an exception is an instance of a handler's type.
module _ (accepts : ℕ → ℕ → Bool) where
  -- The type of a handler names a class, and the test against the class of the exception has that outcome; both
  -- may change the machine.
  pub record Typed {R : Type 0} (linker : Linker R) (Good : World R → Type 0) (class dex : ℕ)
      (handler : ℕ × ℕ) : Type 0 where
    pub catch_class : ℕ
    pub loads : Calls Good (linker.class_by_type dex handler.0) catch_class
    pub tests : Calls Good (linker.is_assignable class catch_class) (accepts dex handler.0)

  -- The types of all handlers of the frame do.
  abbrev pub Settled : {R : Type 0} → Linker R → (World R → Type 0) → ℕ → Frame → Type 0
  Settled linker Good class f = All (λ t. All (Typed linker Good class f.dex) t.handlers) f.tries

  abbrev pub Rejected : ℕ → ℕ × ℕ → Type 0
  Rejected dex (type_idx, addr) = accepts dex type_idx ≡ false

  -- The item has no handler for an exception thrown at `addr`.
  abbrev pub Ignores : ℕ → ℕ → TryItem → Type 0
  Ignores dex addr t = Covers t addr → All (Rejected dex) t.handlers × (t.catch_all ≡ none)

  -- The first handler whose type accepts is at `target`.
  pub record Selects (dex : ℕ) (handlers : List (ℕ × ℕ)) (target : ℕ) : Type 0 where
    pub before : List (ℕ × ℕ)
    pub type_idx : ℕ
    pub behind : List (ℕ × ℕ)
    pub split : handlers ≡ before ++ (type_idx, target) ∷ behind
    pub rejected : All (Rejected dex) before
    pub accepted : accepts dex type_idx ≡ true

  -- The handler of an item that handles the exception: the first that accepts it, or else the catch-all.
  abbrev pub Handles : ℕ → TryItem → ℕ → Type 0
  Handles dex t target =
      Selects dex t.handlers target ⊎ (All (Rejected dex) t.handlers × (t.catch_all ≡ some target))

  -- The first item that covers `addr` and handles the exception goes to `target`.
  pub record Catches (dex addr : ℕ) (tries : List TryItem) (target : ℕ) : Type 0 where
    pub before : List TryItem
    pub item : TryItem
    pub behind : List TryItem
    pub split : tries ≡ before ++ item ∷ behind
    pub ignored : All (Ignores dex addr) before
    pub covered : Covers item addr
    pub handles : Handles dex item target

  -- The frame lets the exception pass.
  abbrev pub Passes : Frame → Type 0
  Passes f = All (Ignores f.dex (thrower f)) f.tries

  -- The nearest frame that catches the exception stays on top and goes to its handler with it.
  pub record Lands (exc : JValue) (frames stay : List Frame) : Type 0 where
    pub inner : List Frame
    pub frame : Frame
    pub outer : List Frame
    pub target : ℕ
    pub split : frames ≡ inner ++ frame ∷ outer
    pub passed : All Passes inner
    pub catches : Catches frame.dex (thrower frame) frame.tries target
    pub lands : stay ≡ (record frame { pc = target; pending_exc = some exc }) ∷ outer

  -- The two ends of the search for an exception.
  abbrev pub Searched : JValue → List Frame → Unwound → Type 0
  Searched exc frames u =
      ((stay : List Frame) × (u ≡ Unwound.caught stay) × Lands exc frames stay)
      ⊎ ((u ≡ Unwound.escaped) × All Passes frames)
