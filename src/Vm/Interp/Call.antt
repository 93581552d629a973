-- ===== src/Vm/Interp/Call.antt =====
-- `Flow::Call` of the loop of src/vm/interpret.rs: the arguments of a call, and the natives.
use dexvm.Prelude.{
  ℕ, ◌+◌, ◌%◌, ◌^◌, List, [], ◌∷◌, Bool, true, false, Option, none, some, get_elem?, set,
  if◌then◌else◌,
}
use dexvm.Permission.Text.{Text, same_text}
use dexvm.Dex.Insn.{Args, reg_at, InvokeKind}
use dexvm.Vm.Value.{JValue}
use dexvm.Vm.Object.{JObject, Native, Arena}
use dexvm.Vm.Interp.{World}
use dexvm.Vm.Interp.Linker.{Linker, MethodRef}
use dexvm.Vm.Interp.Arms.{is_wide_desc}
use dexvm.Vm.Interp.Members.{is_static}

-- A prepended value, if both are there.
abbrev pub push_front : Option JValue → Option (List JValue) → Option (List JValue)
push_front (some v) (some vs) = some (v ∷ vs)
push_front v vs = none

-- The registers of the arguments behind the receiver, for the descriptors' widths: `duplicate` says whether
-- a wide argument is pushed twice. `ri` is a `u8`. None where a register is out of range, at which it
-- panics.
unfoldable pub argument_values : Bool → List JValue → Args → ℕ → List Bool → Option (List JValue)
argument_values duplicate regs args ri [] = some []
argument_values duplicate regs args ri (wide ∷ widths) =
    let a = get_elem? regs (reg_at args ri) in
    let rest =
      argument_values duplicate regs args ((ri + (if wide then 2 else 1)) % 2 ^ 8) widths in
    if wide
    then (if duplicate then push_front a (push_front a rest) else push_front a rest)
    else push_front a rest

-- `is_wide_desc` of the descriptors.
unfoldable pub widths_of : (ℕ → Text) → List ℕ → List Bool
widths_of str_of [] = []
widths_of str_of (d ∷ ds) = is_wide_desc (str_of d) ∷ widths_of str_of ds

-- The receiver first, unless the call is static, and then the arguments.
unfoldable pub call_args : Bool → InvokeKind → List JValue → Args → List Bool → Option (List JValue)
call_args duplicate kind regs args widths =
    if is_static kind
    then argument_values duplicate regs args 0 widths
    else push_front (get_elem? regs (reg_at args 0)) (argument_values duplicate regs args 1 widths)

-- `f.regs[args.reg_at(0)]` is there, unless the call is static.
abbrev pub has_receiver : InvokeKind → List JValue → Args → Bool
has_receiver kind regs args =
    if is_static kind
    then true
    else elim (get_elem? regs (reg_at args 0)) [ none ↦ false | some v ↦ true ]

-- "<init>"
abbrev init_name : Text
init_name = 60 ∷ 105 ∷ 110 ∷ 105 ∷ 116 ∷ 62 ∷ []

abbrev pub payload_of : Option JObject → Option Native
payload_of none = none
payload_of (some o) = o.native

-- `o.native = payload` in the object of the receiver, if there is a payload and an object.
abbrev pub carry_payload : Arena → ℕ → Option Native → Option JObject → Arena
carry_payload arena r (some n) (some o) = record arena {
  objects = set arena.objects r (record o { native = some n });
}
carry_payload arena r n o = arena

-- What a native `<init>` returned is a fresh object, whose payload goes to the receiver.
unfoldable pub adopt : Bool → Arena → Option JValue → JValue → Arena
adopt true arena (some (JValue.obj r)) (JValue.obj res) =
    carry_payload arena r (payload_of (get_elem? arena.objects res)) (get_elem? arena.objects r)
adopt is_init arena receiver v = arena

module _ {R : Type 0} (linker : Linker R) where
  abbrev pub is_init : World R → MethodRef → Bool
  is_init w mref = same_text (linker.str_of w.rest mref.name) init_name

  abbrev pub adopted : InvokeKind → MethodRef → Args → List JValue → JValue → World R → World R
  adopted kind mref args regs v w =
      if is_static kind
      then w
      else record w { arena = adopt (is_init w mref) w.arena (get_elem? regs (reg_at args 0)) v }
