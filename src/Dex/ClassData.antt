-- ===== src/Dex/ClassData.antt =====
-- `parse_class_data` and `parse_code_item` of src/dex/mod.rs, the fields, methods and code of a class. The space
-- that is reserved for the lists is left out.
pub mod Fields
pub mod Tries
pub mod Items
pub mod Ends
use dexvm.Prelude.{
  ℕ, zero, suc, ◌+◌, ◌-◌, ◌*◌, ◌/◌, ◌%◌, ◌^◌, Bool, ◌&&◌, List, [], ◌∷◌, ◌++◌, Option, none, some,
}
use dexvm.Prelude.{ok, err, stuck, ltb, ◌==◌, if◌then◌else◌}
use dexvm.Dex.Error.{DexResult}
use dexvm.Dex.Cursor.{Cursor, M, ◌>>=◌, ret, seek, start, u16, u32, bytes, uleb128, sleb128, le16}

pub record EncodedField : Type 0 where
  pub field_idx : ℕ
  pub access_flags : ℕ

pub record TryItem : Type 0 where
  pub start_addr : ℕ
  pub insn_count : ℕ
  pub handlers : List (ℕ × ℕ)
  pub catch_all : Option ℕ

pub record CodeItem : Type 0 where
  pub registers_size : ℕ
  pub ins_size : ℕ
  pub outs_size : ℕ
  pub insns : List ℕ
  pub tries : List TryItem

pub record EncodedMethod : Type 0 where
  pub method_idx : ℕ
  pub method_flags : ℕ
  pub code : Option CodeItem

pub record ClassData : Type 0 where
  pub static_fields : List EncodedField
  pub instance_fields : List EncodedField
  pub direct_methods : List EncodedMethod
  pub virtual_methods : List EncodedMethod

-- `u16::from_le_bytes` of each pair of bytes
unfoldable pub units : List ℕ → List ℕ
units [] = []
units (a ∷ []) = []
units (a ∷ b ∷ rest) = le16 a b ∷ units rest

-- The pairs of a handler list: a type and an address.
unfoldable pub read_handlers : ℕ → M (List (ℕ × ℕ))
read_handlers zero = ret []
read_handlers (suc n) = do
  type_idx ← uleb128
  addr ← uleb128
  rest ← read_handlers n
  ret ((type_idx, addr) ∷ rest)

-- `-n` of an `i32`. The least one is its own negation where sums are not checked, and no range leads up to it.
abbrev negated : ℕ → ℕ
negated n = if n == 2 ^ 31 then 0 else (2 ^ 32 - n) % 2 ^ 32

-- A count above 0 is that of the pairs; any other is negated, and a handler for all types follows.
unfoldable pub read_counted : ℕ → M (List (ℕ × ℕ) × Option ℕ)
unfolding read_handlers
read_counted n =
    if ltb 0 n && ltb n (2 ^ 31)
    then (do handlers ← read_handlers n; ret (handlers, none))
    else (do handlers ← read_handlers (negated n); all ← uleb128; ret (handlers, some all))

-- The handlers that stand at `list_pos`; the cursor goes back to `saved`.
unfoldable pub handlers_at : ℕ → ℕ → M (List (ℕ × ℕ) × Option ℕ)
unfolding read_counted
handlers_at list_pos saved = do
  _ ← seek list_pos
  n ← sleb128
  found ← read_counted n
  _ ← seek saved
  ret found

abbrev cursor_pos : M ℕ
cursor_pos c = (ok c.pos, c)

-- A try item, whose handlers stand at an offset from `handlers_start`.
unfoldable pub read_try : ℕ → M TryItem
unfolding handlers_at
read_try handlers_start = do
  start_addr ← u32
  insn_count ← u16
  handler_off ← u16
  saved ← cursor_pos
  found ← handlers_at (handlers_start + handler_off) saved
  ret (record {
    start_addr = start_addr;
    insn_count = insn_count;
    handlers = found.0;
    catch_all = found.1;
  })

unfoldable pub read_tries : ℕ → ℕ → M (List TryItem)
unfolding read_try
read_tries zero handlers_start = ret []
read_tries (suc n) handlers_start = do
  item ← read_try handlers_start
  rest ← read_tries n handlers_start
  ret (item ∷ rest)

-- The padding in front of the tries
unfoldable pub align_tries : ℕ → ℕ → M (Unit {0})
align_tries tries_size insns_size =
    if ltb 0 tries_size && (insns_size % 2 == 1) then (do _ ← u16; ret tt) else ret tt

unfoldable pub read_code_item : M CodeItem
unfolding units align_tries read_tries
read_code_item = do
  registers_size ← u16
  ins_size ← u16
  outs_size ← u16
  tries_size ← u16
  _ ← u32
  insns_size ← u32
  insns_bytes ← bytes (insns_size * 2)
  _ ← align_tries tries_size insns_size
  tries_start ← cursor_pos
  tries ← read_tries tries_size (tries_start + tries_size * 8)
  ret (record {
    registers_size = registers_size;
    ins_size = ins_size;
    outs_size = outs_size;
    insns = units insns_bytes;
    tries = tries;
  })

unfoldable pub parse_code_item : List ℕ → ℕ → DexResult CodeItem
unfolding read_code_item
parse_code_item d off = ((do _ ← seek off; read_code_item) (start d)).0

-- The loops over the fields; `idx` is the last index. The sum of a `u32` wraps, where it is not checked.
unfoldable pub read_fields : ℕ → ℕ → M (List EncodedField)
read_fields zero idx = ret []
read_fields (suc n) idx = do
  diff ← uleb128
  access_flags ← uleb128
  let idx' = (idx + diff) % 2 ^ 32
  rest ← read_fields n idx'
  ret (record { field_idx = idx'; access_flags = access_flags } ∷ rest)

-- The `?` behind a code item, which is read by a cursor of its own.
unfoldable pub with_code : DexResult CodeItem → M (Option CodeItem)
with_code (ok item) c = (ok (some item), c)
with_code (err e) c = (err e, c)
with_code stuck c = (stuck, c)

-- The code of a method, where it has one.
unfoldable pub read_code : List ℕ → ℕ → M (Option CodeItem)
unfolding parse_code_item with_code
read_code d code_off = if code_off == 0 then ret none else with_code (parse_code_item d code_off)

unfoldable pub read_methods : List ℕ → ℕ → ℕ → M (List EncodedMethod)
unfolding read_code
read_methods d zero idx = ret []
read_methods d (suc n) idx = do
  diff ← uleb128
  access_flags ← uleb128
  code_off ← uleb128
  let idx' = (idx + diff) % 2 ^ 32
  code ← read_code d code_off
  rest ← read_methods d n idx'
  ret (record { method_idx = idx'; method_flags = access_flags; code = code } ∷ rest)

unfoldable pub read_class_data : List ℕ → M ClassData
unfolding read_fields read_methods
read_class_data d = do
  static_fields_size ← uleb128
  instance_fields_size ← uleb128
  direct_methods_size ← uleb128
  virtual_methods_size ← uleb128
  static_fields ← read_fields static_fields_size 0
  instance_fields ← read_fields instance_fields_size 0
  direct_methods ← read_methods d direct_methods_size 0
  virtual_methods ← read_methods d virtual_methods_size 0
  ret (record {
    static_fields = static_fields;
    instance_fields = instance_fields;
    direct_methods = direct_methods;
    virtual_methods = virtual_methods;
  })

unfoldable pub parse_class_data : List ℕ → ℕ → DexResult ClassData
unfolding read_class_data
parse_class_data d off = ((do _ ← seek off; read_class_data d) (start d)).0
