-- ===== src/Examples/Unwinding.antt =====
-- Exceptions that are caught, and one that is lost.
use dexvm.Prelude.{ℕ, ◌+◌, ◌≡◌, [], ◌∷◌, Bool, some, none, ltb, ◌==◌, if◌then◌else◌}
use dexvm.Dex.Insn.Decode.{Decoded}
use dexvm.Vm.Value.{JValue}
use dexvm.Vm.Object.{Arena}
use dexvm.Vm.Interp.{Frame, World, entry_frame}
use dexvm.Vm.Interp.Linker.{Linker, Answer}

-- A linker that counts the classes that it loads, and panics at a dex index other than 0 and at a type index
-- of 20 or more.
abbrev loading : Linker ℕ
loading = record {
  class_by_type = λ dex t w.
      if dex == 0
      then (if ltb t 20
          then (Answer.answers t, record w { rest = w.rest + 1 })
          else (Answer.panics, w))
      else (Answer.panics, w);
  is_assignable = λ c d w. (Answer.answers (c == d), w);
  class_obj = λ c w. (Answer.answers JValue.null, w);
  string_obj = λ dex i w. (Answer.answers JValue.null, w);
  field_ref = λ dex i w. (Answer.panics, w);
  static_field_get = λ fr w. (Answer.answers JValue.null, w);
  static_field_put = λ fr v w. (Answer.answers tt, w);
  offset_of_field = λ r c n t. none;
  field_count = λ r c. 0;
  type_descriptor = λ r dex t. [];
  type_id_of = λ r dex t. none;
  array_class = λ dex t w. (Answer.answers t, w);
  str_of = λ r i. [];
  throwable = λ exc w. (Answer.answers 0, w);
  boxed = λ b w. (Answer.answers JValue.null, w);
  method_ref = λ dex i w. (Answer.panics, w);
  resolve_target = λ kind mref o c w. (Answer.panics, w);
  ensure_class_initialized = λ c w. (Answer.answers tt, w);
  natives = λ r key. none;
  method_dex = λ r c s. 0;
}

-- Object 0 is of class 7.
abbrev arena : Arena
arena = record { objects = record { class = 7; fields = []; native = none } ∷ []; free = [] }

abbrev world : World ℕ
world = record { arena = arena; monitors = []; budget = 5; rest = 0 }

-- However many classes are loaded, the arena is this one.
abbrev Good : World ℕ → Type 0
Good w = w.arena ≡ arena

abbrev accepts : ℕ → ℕ → Bool
accepts dex type_idx = 7 == type_idx

abbrev code : Decoded
code = record { insns = []; units = 0 ∷ []; sizes = 1 ∷ []; words = 1 }

-- A frame at address 0 with one handler there, for the class.
abbrev catching : ℕ → Frame
catching class =
    entry_frame 0 0 0 code
      (record { start_addr = 0; insn_count = 1; handlers = (class, 9) ∷ []; catch_all = none } ∷ [])
      []

abbrev throwing : Frame
throwing = record (catching 8) { pending_exc = some (JValue.obj 0) }

-- The caller holds an exception of another object, that is not there.
abbrev stale : Frame
stale = record (catching 7) { pending_exc = some (JValue.int 1) }
