-- ===== src/Dex/Insn/Tiling.antt =====
-- How the instructions and the payloads of a method tile its code, for `decode_all` of src/dex/insn.rs.
pub mod Payloads
pub mod Whole
use dexvm.Prelude.{ℕ, ◌+◌, ◌*◌, ◌/◌, ◌<◌, ◌≡◌, List, [], ◌∷◌, ◌++◌, ok, err, stuck, length}
use mathlib.Core.List.{Memᴰ}
use dexvm.Dex.Error.{DexError, DexResult}
use dexvm.Dex.Insn.{Insn, FillArray}
use dexvm.Dex.Insn.Decode.{Decoded, decode}

-- The units that the elements of an array take, two bytes to a unit.
unfoldable pub element_units : FillArray → ℕ
element_units (FillArray.bytes v) = (length v + 1) / 2
element_units (FillArray.shorts v) = length v
element_units (FillArray.chars v) = length v
element_units (FillArray.ints v) = 2 * length v
element_units (FillArray.wides v) = 4 * length v

-- The instruction has a payload from `start` to `end`: its header, and 4 units for each case of a sparse
-- switch, 2 for each of a packed one, or the elements of an array.
unfoldable pub PayloadAt : Insn → ℕ → ℕ → Type 0
PayloadAt (Insn.packed_switch r at k targets) start end =
    (start ≡ at) × (end ≡ at + 4 + 2 * length targets)
PayloadAt (Insn.sparse_switch r at keys targets) start end =
    (start ≡ at) × (end ≡ at + 2 + 4 * length keys)
PayloadAt (Insn.fill_array_data r at d) start end = (start ≡ at) × (end ≡ at + 4 + element_units d)
PayloadAt i start end = ⊥

-- From `lo` to `hi` there are payloads of the instructions before, one behind the other.
pub data Skipped (before : List Insn) (lo : ℕ) : ℕ → Type 0 where
  none_there : {hi : ℕ} → lo ≡ hi → Skipped before lo hi
  payload :
      {mid hi : ℕ} (i : Insn)
      → Skipped before lo mid
      → Memᴰ i before
      → PayloadAt i mid hi
      → Skipped before lo hi

-- No payload of the instructions before starts at `pc`.
abbrev pub IsCode : List Insn → ℕ → Type 0
IsCode before pc = (i : Insn) (end : ℕ) → Memᴰ i before → ¬ PayloadAt i pc end

-- The three vectors list the instructions from `lo` to `hi`, where `before` are those in front of `lo`: each was
-- decoded at its unit, at which no earlier payload starts, with its size, which is not 0, and there is
-- nothing but payloads of earlier instructions between one and the next, before the first and after the last.
abbrev pub IsTiling : List ℕ → List Insn → ℕ → List Insn → List ℕ → List ℕ → ℕ → Type 0
IsTiling insns before lo [] [] [] hi = Skipped before lo hi
IsTiling insns before lo (v ∷ vs) (u ∷ us) (s ∷ ss) hi =
    Skipped before lo u
    × IsCode before u
    × (u < length insns)
    × (0 < s)
    × (decode insns u ≡ ok (v, u + s))
    × IsTiling insns (before ++ v ∷ []) (u + s) vs us ss hi
IsTiling insns before lo vs us ss hi = ⊥

-- The code cannot be decoded at an address that such a list leads up to.
pub record IsRefused (insns : List ℕ) (e : DexError) : Type 0 where
  pub insns_before : List Insn
  pub units : List ℕ
  pub sizes : List ℕ
  pub pc : ℕ
  pub tiled : IsTiling insns [] 0 insns_before units sizes pc
  pub is_code : IsCode insns_before pc
  pub inside : pc < length insns
  pub refused : decode insns pc ≡ err e

-- The list is that of the whole code, or ends where the code cannot be decoded.
abbrev pub Tiles : List ℕ → DexResult Decoded → Type 0
Tiles insns (ok d) =
    (d.words ≡ length insns) × IsTiling insns [] 0 d.insns d.units d.sizes (length insns)
Tiles insns (err e) = IsRefused insns e
Tiles insns stuck = ⊥
