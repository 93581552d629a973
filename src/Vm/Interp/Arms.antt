-- ===== src/Vm/Interp/Arms.antt =====
-- The longer arms of `step` of src/vm/interpret.rs: monitors, casts, arrays, fields and invocations.
use dexvm.Prelude.{
  ℕ, zero, suc, ◌+◌, ◌-◌, ◌%◌, ◌^◌, List, [], ◌∷◌, Bool, true, false, Option, none, some, ◌==◌,
  if◌then◌else◌, not, ◌++◌,
}
use dexvm.Permission.Text.{Text, same_text, strip_prefix}
use dexvm.Dex.Insn.{Args, reg_at, InvokeKind, FillArray}
use dexvm.Vm.Value.{JValue}
use dexvm.Vm.Machine.{is_negative}
use dexvm.Vm.Object.{Native, ArrayData}
use dexvm.Vm.Operators.{FloatOps}
use dexvm.Vm.Arrays.{new_data, len, set_elem, array_get, array_put, fill_array}
use dexvm.Vm.Interp.{World, Failure}
use dexvm.Vm.Interp.Linker.{Linker, MethodRef, Target, Thrown, Boxed}
use dexvm.Vm.Interp.Registers.{
  Action, ◌>>=◌, ◌>>◌, pure, fail, expect, frame_of, world_of, set_arena, set_monitors, reg,
  set_reg, int_reg, object, new_object, ask, throw_new, object_reg, accessed, set_result,
}

-- `enum Flow`
pub data Flow : Type 0 where
  next jump : ℕ → Flow
  ret : JValue → Flow
  call : InvokeKind → MethodRef → Target → Args → ℕ → Flow

-- `monitors.entry(o).or_insert(0) += 1`
unfoldable pub enter_monitor : List (ℕ × ℕ) → ℕ → List (ℕ × ℕ)
enter_monitor [] o = (o, 1) ∷ []
enter_monitor ((p, n) ∷ ms) o = if p == o then (p, n + 1) ∷ ms else (p, n) ∷ enter_monitor ms o

-- One less, but not below 0, and the entry is removed at 0. A missing entry is inserted and removed.
unfoldable pub exit_monitor : List (ℕ × ℕ) → ℕ → List (ℕ × ℕ)
exit_monitor [] o = []
exit_monitor ((p, n) ∷ ms) o =
    if p == o then (if n - 1 == 0 then ms else (p, n - 1) ∷ ms) else (p, n) ∷ exit_monitor ms o

-- `is_wide_desc`: "J" or "D".
unfoldable pub is_wide_desc : Text → Bool
is_wide_desc (c ∷ []) = if c == 74 then true else c == 68
is_wide_desc d = false

-- `strip_prefix('[')`, and what follows it or the whole.
abbrev pub element_desc : Text → Text
element_desc d = elim (strip_prefix (91 ∷ []) d) [ some inner ↦ inner | none ↦ d ]

-- "Ljava/lang/" and ";" around a name.
abbrev java_lang : Text → Text
java_lang name = 76 ∷ 106 ∷ 97 ∷ 118 ∷ 97 ∷ 47 ∷ 108 ∷ 97 ∷ 110 ∷ 103 ∷ 47 ∷ (name ++ 59 ∷ [])

abbrev integer_desc : Text
integer_desc = java_lang (73 ∷ 110 ∷ 116 ∷ 101 ∷ 103 ∷ 101 ∷ 114 ∷ [])

abbrev long_desc : Text
long_desc = java_lang (76 ∷ 111 ∷ 110 ∷ 103 ∷ [])

abbrev float_desc : Text
float_desc = java_lang (70 ∷ 108 ∷ 111 ∷ 97 ∷ 116 ∷ [])

abbrev double_desc : Text
double_desc = java_lang (68 ∷ 111 ∷ 117 ∷ 98 ∷ 108 ∷ 101 ∷ [])

abbrev boolean_desc : Text
boolean_desc = java_lang (66 ∷ 111 ∷ 111 ∷ 108 ∷ 101 ∷ 97 ∷ 110 ∷ [])

abbrev character_desc : Text
character_desc = java_lang (67 ∷ 104 ∷ 97 ∷ 114 ∷ 97 ∷ 99 ∷ 116 ∷ 101 ∷ 114 ∷ [])

abbrev byte_desc : Text
byte_desc = java_lang (66 ∷ 121 ∷ 116 ∷ 101 ∷ [])

abbrev short_desc : Text
short_desc = java_lang (83 ∷ 104 ∷ 111 ∷ 114 ∷ 116 ∷ [])

-- The table of `IPutObj`: the payload of the box that a bare number in a field of a box type becomes.
unfoldable pub boxed_for : FloatOps → Text → JValue → Option Boxed
boxed_for floats ty (JValue.int v) =
    if same_text ty integer_desc
    then some (Boxed.int_box v)
    else if same_text ty boolean_desc
    then some (Boxed.bool_box (not (v == 0)))
    else if same_text ty character_desc
    then some (Boxed.char_box (v % 2 ^ 16))
    else if same_text ty byte_desc
    then some (Boxed.byte_box (v % 2 ^ 8))
    else if same_text ty short_desc
    then some (Boxed.short_box (v % 2 ^ 16))
    else none
boxed_for floats ty (JValue.long v) =
    if same_text ty long_desc then some (Boxed.long_box v) else none
boxed_for floats ty (JValue.float v) =
    if same_text ty float_desc
    then some (Boxed.float_box v)
    else if same_text ty double_desc
    then some (Boxed.double_box (floats.float_to_double v))
    else none
boxed_for floats ty v = none

module _ {R : Type 0} (floats : FloatOps) (linker : Linker R) where
  unfoldable pub monitor : ℕ → Bool → Action R Flow
  monitor d is_enter = do
    o ← object_reg linker d
    w ← world_of
    set_monitors (if is_enter then enter_monitor w.monitors o else exit_monitor w.monitors o)
    pure (Flow.next 0)

  -- `CheckCast`, on the value in the register.
  unfoldable pub check_cast : ℕ → ℕ → ℕ → JValue → Action R Flow
  check_cast dex target type_idx (JValue.obj o) = do
    obj ← object o
    fits ← ask (linker.is_assignable obj.class target)
    (if fits
        then pure (Flow.next 0)
        else throw_new linker (Thrown.class_cast obj.class dex type_idx))
  check_cast dex target type_idx v = pure (Flow.next 0)

  -- `InstanceOf`, on the value in the register.
  unfoldable pub instance_of : ℕ → JValue → Action R Bool
  instance_of target (JValue.obj o) = do obj ← object o; ask (linker.is_assignable obj.class target)
  instance_of target v = pure false

  abbrev pub array_len : Option Native → Action R ℕ
  array_len (some (Native.array a)) = pure (len a)
  array_len n = fail Failure.array_length_on_non_array

  unfoldable pub array_length : ℕ → ℕ → Action R Flow
  array_length d src = do
    o ← object_reg linker src
    obj ← object o
    n ← array_len obj.native
    set_reg d (JValue.int (n % 2 ^ 32))
    pure (Flow.next 0)

  -- `strip_prefix('[').and_then(type_id_of).unwrap_or(type_idx)`
  abbrev inner_type : World R → ℕ → ℕ → ℕ
  inner_type w dex type_idx =
      elim (strip_prefix (91 ∷ []) (linker.type_descriptor w.rest dex type_idx)) [
        | none ↦ type_idx
        | some inner ↦ elim (linker.type_id_of w.rest dex inner) [ none ↦ type_idx | some i ↦ i ]
      ]

  unfoldable pub make_array : ℕ → ℕ → ℕ → ℕ → Action R Flow
  make_array dex d n type_idx = do
    w ← world_of
    c ← ask (linker.array_class dex (inner_type w dex type_idx))
    w' ← world_of
    let desc = element_desc (linker.type_descriptor w'.rest dex type_idx)
    v ←
        new_object
          (record { class = c; fields = []; native = some (Native.array (new_data desc n)) })
    set_reg d v
    pure (Flow.next 0)

  unfoldable pub new_array : ℕ → ℕ → ℕ → Action R Flow
  new_array d size_reg type_idx = do
    f ← frame_of
    n ← int_reg size_reg
    (if is_negative 32 n
        then throw_new linker Thrown.negative_array_size
        else make_array f.dex d n type_idx)

  -- The loop of `FilledNewArray` over the indices from `i` on; `ri` is a `u8`.
  unfoldable pub fill_new : Args → Bool → ℕ → ℕ → ℕ → ArrayData → Action R ArrayData
  fill_new args wide zero i ri a = pure a
  fill_new args wide (suc n) i ri a = do
    v ← reg (reg_at args ri)
    b ← expect (set_elem floats a i v)
    fill_new args wide n (i + 1) ((ri + (if wide then 2 else 1)) % 2 ^ 8) b

  unfoldable pub filled_new_array : Args → ℕ → Action R Flow
  filled_new_array args type_idx = do
    f ← frame_of
    w ← world_of
    let desc = element_desc (linker.type_descriptor w.rest f.dex type_idx)
    a ← fill_new args (is_wide_desc desc) args.count 0 0 (new_data desc args.count)
    c ← ask (linker.array_class f.dex (inner_type w f.dex type_idx))
    v ← new_object (record { class = c; fields = []; native = some (Native.array a) })
    set_result v
    pure (Flow.next 0)

  unfoldable pub fill_array_data : ℕ → FillArray → Action R Flow
  fill_array_data d values = do
    o ← object_reg linker d
    w ← world_of
    arena ← accessed linker (fill_array floats w.arena o values)
    set_arena arena
    pure (Flow.next 0)

  unfoldable pub aget : ℕ → ℕ → ℕ → Action R Flow
  aget d arr idx = do
    o ← object_reg linker arr
    i ← reg idx
    w ← world_of
    v ← accessed linker (array_get w.arena (JValue.obj o) i)
    set_reg d v
    pure (Flow.next 0)

  unfoldable pub aput : ℕ → ℕ → ℕ → Action R Flow
  aput src arr idx = do
    o ← object_reg linker arr
    i ← reg idx
    v ← reg src
    w ← world_of
    arena ← accessed linker (array_put floats w.arena v (JValue.obj o) i)
    set_arena arena
    pure (Flow.next 0)
