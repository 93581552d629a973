-- ===== src/Dex/Insn/Basic.antt =====
-- The fields of a code unit and the argument lists of invokes, of src/dex/insn.rs.
use dexvm.Prelude.{ℕ, ◌*◌, ◌/◌, ◌%◌, true, false, List, [], ◌∷◌}
use dexvm.Dex.Error.{fail, unknown_opcode}
use dexvm.Dex.Insn.{Args}
use dexvm.Dex.Insn.Units.{Decoding}

-- The fields of the first unit: the opcode, and A and B of four bits or A of eight.
abbrev pub op_of : ℕ → ℕ
op_of word = word % 256

abbrev pub a4 : ℕ → ℕ
a4 word = word / 256 % 16

abbrev pub b4 : ℕ → ℕ
b4 word = word / 4096 % 16

abbrev pub a8 : ℕ → ℕ
a8 word = word / 256 % 256

abbrev pub lo8 : ℕ → ℕ
lo8 u = u % 256

abbrev pub hi8 : ℕ → ℕ
hi8 u = u / 256

abbrev no_regs : List ℕ
no_regs = 0 ∷ 0 ∷ 0 ∷ 0 ∷ 0 ∷ []

-- `args_35c`: the count is in the top four bits, and the fifth register in the four below.
unfoldable pub args_35c : ℕ → ℕ → Args
args_35c word w2 = record {
  count = word / 4096 % 16;
  regs = w2 % 16 ∷ w2 / 16 % 16 ∷ w2 / 256 % 16 ∷ w2 / 4096 % 16 ∷ word / 256 % 16 ∷ [];
  range = false;
  base = 0;
}

-- Format 3rc: `count` registers from `base` on.
unfoldable pub args_range : ℕ → ℕ → Args
args_range word base = record { count = a8 word; regs = no_regs; range = true; base = base }

-- An opcode that no arm takes.
unfoldable pub unknown : ℕ → ℕ → Decoding
unknown pc word = fail (pc * 2) (unknown_opcode (op_of word))
