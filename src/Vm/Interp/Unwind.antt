-- ===== src/Vm/Interp/Unwind.antt =====
-- `unwind` of src/vm/interpret.rs: the search for the handler of an exception.
use dexvm.Prelude.{
  ℕ, ◌+◌, ◌%◌, ◌^◌, List, [], ◌∷◌, Bool, true, false, Option, none, some, get_elem?, get_or, ltb,
  leb, ◌&&◌,
}
use dexvm.Vm.Value.{JValue}
use dexvm.Vm.Object.{JObject}
use dexvm.Vm.Interp.{TryItem, Frame, World, Failure, JvmError, locate}
use dexvm.Vm.Interp.Linker.{Linker, Answer, Op}

-- How the search ends: with the frames that stay, the catching one first; with no frame left; or in an
-- error or a panic.
pub data Unwound : Type 0 where
  caught : List Frame → Unwound
  escaped : Unwound
  fails : JvmError → Unwound
  panics : Unwound

-- `units.get(idx).unwrap_or(0)` at the instruction of `err_pc`.
unfoldable pub throw_addr : Frame → ℕ
throw_addr f = get_or f.decoded.units (locate f.decoded.units (f.err_pc % 2 ^ 32)) 0

-- Whether the range of the item has the address; the sum is one of `u32`.
unfoldable pub encloses : TryItem → ℕ → Bool
encloses t addr = leb t.start_addr addr && ltb addr ((t.start_addr + t.insn_count) % 2 ^ 32)

-- `f.pending_exc.take().or_else(|| carried.take())`
abbrev pub or_else : Option JValue → Option JValue → Option JValue
or_else none carried = carried
or_else (some v) carried = some v

-- What follows an operation that answered so.
abbrev pub follow : {R A B : Type 0} → (A → Op R B) → Answer A → Op R B
follow k (Answer.answers a) w = k a w
follow k (Answer.refuses e) w = (Answer.refuses e, w)
follow k Answer.panics w = (Answer.panics, w)

infixl 5 ◌>>=◌
unfoldable pub ◌>>=◌ : {R A B : Type 0} → Op R A → (A → Op R B) → Op R B
(m >>= k) w = let (a, v) = m w in follow k a v

abbrev pub answer : {R A : Type 0} → A → Op R A
answer a w = (Answer.answers a, w)

module _ {R : Type 0} (linker : Linker R) where
  -- The class of the exception, and whether it is assignable to the one of the handler.
  abbrev pub instance_fits : ℕ → Option JObject → Op R Bool
  instance_fits catch_class none w = (Answer.panics, w)
  instance_fits catch_class (some o) w = linker.is_assignable o.class catch_class w

  unfoldable pub value_fits : ℕ → JValue → Op R Bool
  value_fits catch_class (JValue.obj o) w =
      instance_fits catch_class (get_elem? w.arena.objects o) w
  value_fits catch_class v w = (Answer.answers false, w)

  unfoldable pub matches : ℕ → JValue → ℕ → Op R Bool
  matches dex exc type_idx = do c ← linker.class_by_type dex type_idx; value_fits c exc

  unfoldable pub find_handler : ℕ → JValue → List (ℕ × ℕ) → Op R (Option ℕ)
  find_handler dex exc [] = answer none
  find_handler dex exc ((type_idx, addr) ∷ handlers) = do
    b ← matches dex exc type_idx
    elim b [ true ↦ answer (some addr) | false ↦ find_handler dex exc handlers ]

  -- `found`, or `catch_all` if it is none.
  abbrev pub or_catch_all : Option ℕ → Option ℕ → Option ℕ
  or_catch_all none catch_all = catch_all
  or_catch_all (some addr) catch_all = some addr

  -- `if found.is_some() { break; }`
  abbrev pub stop_or : Option ℕ → Op R (Option ℕ) → Op R (Option ℕ)
  stop_or none rest = rest
  stop_or (some addr) rest = answer (some addr)

  unfoldable pub find_try : ℕ → JValue → ℕ → List TryItem → Op R (Option ℕ)
  find_try dex exc addr [] = answer none
  find_try dex exc addr (t ∷ tries) = elim (encloses t addr) [
    | false ↦ find_try dex exc addr tries
    | true ↦ do
      found ← find_handler dex exc t.handlers
      stop_or (or_catch_all found t.catch_all) (find_try dex exc addr tries)
  ]

  -- The `match` on the address that was found in the top frame.
  abbrev pub install_or_pop :
      Frame
      → List Frame
      → JValue
      → (World R → Unwound × World R)
      → Answer (Option ℕ)
      → World R
      → Unwound × World R
  install_or_pop f frames exc rest (Answer.answers (some addr)) w =
      (Unwound.caught ((record f { pc = addr; pending_exc = some exc }) ∷ frames), w)
  install_or_pop f frames exc rest (Answer.answers none) w = rest w
  install_or_pop f frames exc rest (Answer.refuses e) w = (Unwound.fails e, w)
  install_or_pop f frames exc rest Answer.panics w = (Unwound.panics, w)

  -- The loop over the frames, the top one first.
  unfoldable pub unwind_from : Option JValue → List Frame → World R → Unwound × World R
  unwind_from carried [] w = (Unwound.escaped, w)
  unwind_from carried (f ∷ frames) w = elim (or_else f.pending_exc carried) [
    | none ↦ (Unwound.fails (JvmError.failure Failure.no_pending_exception), w)
    | some exc ↦
        (let (a, v) = find_try f.dex exc (throw_addr f) f.tries w in
          install_or_pop f frames exc (unwind_from (some exc) frames) a v)
  ]

  unfoldable pub unwind : List Frame → World R → Unwound × World R
  unwind frames w = unwind_from none frames w
