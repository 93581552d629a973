-- ===== src/Dex/ClassData/Items.antt =====
-- A code item as the DEX format writes it, and `parse_code_item` of src/dex/mod.rs on it.
use dexvm.Prelude.{
  ℕ, ◌+◌, ◌*◌, ◌/◌, ◌%◌, ◌^◌, ◌≤◌, ◌<◌, ◌≡◌, refl, sym, arith, List, [], ◌∷◌, ◌++◌, ok, All, false,
  ltb, ◌==◌, ◌&&◌, length, if◌then◌else◌, Bool-cases, inl, inr,
}
use mathlib.Core.Path.{subst}
use native.Mathlib.Nat.{add-zero}
use dexvm.Dex.Cursor.{Cursor}
use dexvm.Dex.Cursor.Reads.{
  BytesAt, u16-some, bytes-BytesAt, le_bytes16, le_bytes32, u16-le_bytes16, u32-le_bytes32,
}
use dexvm.Dex.Cursor.LebRead.{moved}
use dexvm.Dex.ClassData.{CodeItem, units, align_tries, read_code_item, parse_code_item}
use dexvm.Dex.ClassData.Tries.{AreItems, read_tries-AreItems}

-- The code units, lowest byte first.
unfoldable pub units_bytes : List ℕ → List ℕ
units_bytes [] = []
units_bytes (u ∷ us) = le_bytes16 u ++ units_bytes us

-- The two bytes in front of the tries where the code has an odd number of units.
abbrev pub padding : ℕ → ℕ → ℕ
padding tries_size insns_size = if ltb 0 tries_size && (insns_size % 2 == 1) then 2 else 0

-- The item stands at `pos`: four words of 16 bits, an offset and the number of units, the units, the padding and
-- the try items, and the handlers behind them.
pub record IsCodeItem (d : List ℕ) (pos : ℕ) (item : CodeItem) : Type 0 where
  pub debug_info_off : ℕ
  pub registers_fit : item.registers_size < 2 ^ 16
  pub ins_fit : item.ins_size < 2 ^ 16
  pub outs_fit : item.outs_size < 2 ^ 16
  pub tries_fit : length item.tries < 2 ^ 16
  pub debug_fits : debug_info_off < 2 ^ 32
  pub insns_fit : length item.insns < 2 ^ 32
  pub are_units : All (λ u. u < 2 ^ 16) item.insns
  pub registers_there : BytesAt d pos (le_bytes16 item.registers_size)
  pub ins_there : BytesAt d (pos + 2) (le_bytes16 item.ins_size)
  pub outs_there : BytesAt d (pos + 2 + 2) (le_bytes16 item.outs_size)
  pub tries_size_there : BytesAt d (pos + 2 + 2 + 2) (le_bytes16 (length item.tries))
  pub debug_there : BytesAt d (pos + 2 + 2 + 2 + 2) (le_bytes32 debug_info_off)
  pub insns_size_there : BytesAt d (pos + 2 + 2 + 2 + 2 + 4) (le_bytes32 (length item.insns))
  pub insns_there : BytesAt d (pos + 2 + 2 + 2 + 2 + 4 + 4) (units_bytes item.insns)
  pub whole :
      pos + 16 + length item.insns * 2 + padding (length item.tries) (length item.insns) ≤ length d
  pub tries_there :
      (let tries_start =
          pos + 16 + length item.insns * 2 + padding (length item.tries) (length item.insns) in
        AreItems d tries_start (tries_start + length item.tries * 8) item.tries)

length-units_bytes : (us : List ℕ) → length (units_bytes us) ≡ length us * 2
unfolding units_bytes
length-units_bytes [] = refl
length-units_bytes (u ∷ us) = omega (arith, length-units_bytes us)

units-units_bytes : (us : List ℕ) → All (λ u. u < 2 ^ 16) us → units (units_bytes us) ≡ us
unfolding units units_bytes
units-units_bytes [] h = refl
units-units_bytes (u ∷ us) (h, hs) =
    let e : u % 256 + u / 256 % 256 * 256 ≡ u = omega arith in rw (e, units-units_bytes us hs) refl

align_tries_lem :
    (c : Cursor) (tries_size insns_size : ℕ)
    → c.pos + padding tries_size insns_size ≤ length c.data_bytes
    → align_tries tries_size insns_size c ≡ (ok tt, moved c (padding tries_size insns_size))
unfolding align_tries
align_tries_lem c tries_size insns_size room =
    elim (Bool-cases (ltb 0 tries_size && (insns_size % 2 == 1))) [
      | inl t ↦
          (let room' : c.pos + 2 ≤ length c.data_bytes = rw t at room in
            let (v, run) = u16-some c room' in rw t (rw run refl))
      | inr f ↦ rw f (rw (add-zero c.pos) refl)
    ]

read_code_item-IsCodeItem :
    (c : Cursor) (item : CodeItem)
    → IsCodeItem c.data_bytes c.pos item
    → (c' : Cursor) × (read_code_item c ≡ (ok item, c'))
unfolding read_code_item
read_code_item-IsCodeItem c item i =
    let d = c.data_bytes in
    let c1 = moved c 2 in
    let c2 = moved c1 2 in
    let c3 = moved c2 2 in
    let c4 = moved c3 2 in
    let c5 = moved c4 4 in
    let c6 = moved c5 4 in
    let c7 = moved c6 (length item.insns * 2) in
    let pad = padding (length item.tries) (length item.insns) in
    let c8 = moved c7 pad in
    let at : c8.pos ≡ c.pos + 16 + length item.insns * 2 + pad = omega arith in
    let size = length-units_bytes item.insns in
    let e7 =
      bytes-BytesAt c6 (length item.insns * 2) (units_bytes item.insns) size
        (omega (arith, i.whole)) i.insns_there in
    let e8 = align_tries_lem c7 (length item.tries) (length item.insns) (omega (arith, i.whole)) in
    let items : AreItems d c8.pos (c8.pos + length item.tries * 8) item.tries =
      subst (λ (p : ℕ). AreItems d p (p + length item.tries * 8) item.tries) (sym at)
        i.tries_there in
    (
      moved c8 (8 * length item.tries),
      rw (u16-le_bytes16 c item.registers_size i.registers_fit i.registers_there) (
          rw (u16-le_bytes16 c1 item.ins_size i.ins_fit i.ins_there) (
            rw (u16-le_bytes16 c2 item.outs_size i.outs_fit i.outs_there) (
              rw (u16-le_bytes16 c3 (length item.tries) i.tries_fit i.tries_size_there) (
                rw (u32-le_bytes32 c4 i.debug_info_off i.debug_fits i.debug_there) (
                  rw (u32-le_bytes32 c5 (length item.insns) i.insns_fit i.insns_size_there) (
                    rw e7 (
                      rw e8 (
                        rw
                          (read_tries-AreItems c8 (c8.pos + length item.tries * 8) item.tries items)
                          (rw (units-units_bytes item.insns i.are_units) refl))))))))),
    )

-- A code item that stands at an offset of the file in the form of the DEX format is read back: its words, its
-- code units, and its try items with their handlers, which stand behind the items in any order and may be
-- shared.
pub parse_code_item-IsCodeItem :
    (d : List ℕ) (off : ℕ) (item : CodeItem)
    → IsCodeItem d off item
    → parse_code_item d off ≡ ok item
unfolding parse_code_item
parse_code_item-IsCodeItem d off item i =
    let inside : ltb (length d) off ≡ false = ground (arith, i.whole) in
    let (c', run) = read_code_item-IsCodeItem (record { data_bytes = d; pos = off }) item i in
    rw (inside, parse_code_item) (rw run refl)
