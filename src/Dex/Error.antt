-- ===== src/Dex/Error.antt =====
-- `DexError` of src/dex/read.rs: an offset and a message. The messages are the constructors below,
-- one for each text that the reader and the decoder use.
use dexvm.Prelude.{ℕ, Result, ok, err, stuck, Option, none, some}

pub data DexMsg : Type 0 where
  out_of_bounds_read uleb128_overflow sleb128_overflow truncated_utf8 : DexMsg
  past_end_of_code short_instruction switch_oob fill_array_oob : DexMsg
  bad_packed_switch bad_sparse_switch bad_fill_array : DexMsg
  bad_fill_array_width unknown_opcode : ℕ → DexMsg
  invalid_value_arg : ℕ → ℕ → DexMsg
  unknown_value_type : ℕ → DexMsg
  polymorphic_not_supported custom_not_supported : DexMsg

pub record DexError : Type 0 where
  pub off : ℕ
  pub msg : DexMsg

-- `DexError::new`
abbrev pub dex_error : ℕ → DexMsg → DexError
dex_error off msg = record { off = off; msg = msg }

-- `Result<A, DexError>`
abbrev pub DexResult {ℓ} : Type ℓ → Type ℓ
DexResult A = Result DexError A

abbrev pub fail {ℓ} : {A : Type ℓ} → ℕ → DexMsg → DexResult A
fail off msg = err (dex_error off msg)

infixl 5 ◌>>=◌
abbrev pub ◌>>=◌ {ℓ κ} : {A : Type ℓ} {B : Type κ} → DexResult A → (A → DexResult B) → DexResult B
ok a >>= f = f a
err e >>= f = err e
stuck >>= f = stuck

-- `Option::ok_or_else`
abbrev pub ok_or {ℓ} : {A : Type ℓ} → Option A → DexError → DexResult A
ok_or none e = err e
ok_or (some a) e = ok a
