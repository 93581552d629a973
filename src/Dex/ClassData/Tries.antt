-- ===== src/Dex/ClassData/Tries.antt =====
-- The try items of a method with their handlers as the DEX format writes them, and `parse_code_item` of
-- src/dex/mod.rs on them.
use native.Mathlib.Nat.{add-zero}
use dexvm.Prelude.{
  ℕ, suc, ◌+◌, ◌-◌, ◌*◌, ◌/◌, ◌%◌, ◌^◌, ◌≤◌, ◌<◌, ◌≡◌, refl, arith, List, [], ◌∷◌, ◌++◌, Option,
  none, some, ok, All, true, false, ltb, ◌&&◌, length, length-append,
}
use dexvm.Dex.Cursor.{Cursor, seek}
use dexvm.Dex.Cursor.Reads.{
  BytesAt, BytesAt-append, BytesAt-lt, le_bytes16, le_bytes32, u16-le_bytes16, u32-le_bytes32,
}
use dexvm.Dex.Cursor.LebRead.{uleb128_bytes, uleb128-uleb128_bytes, moved}
use dexvm.Dex.Cursor.SlebRead.{sleb128_bytes, sleb128-sleb128_bytes}
use dexvm.Dex.ClassData.{
  TryItem, read_handlers, negated, read_counted, handlers_at, read_try, read_tries,
}

-- A type and an address for each handler.
unfoldable pub handlers_bytes : List (ℕ × ℕ) → List ℕ
unfolding uleb128_bytes
handlers_bytes [] = []
handlers_bytes ((type_idx, addr) ∷ hs) =
    uleb128_bytes 4 type_idx ++ (uleb128_bytes 4 addr ++ handlers_bytes hs)

-- The number of handlers stands before them, negated where a handler for all types follows.
unfoldable pub list_bytes : List (ℕ × ℕ) → Option ℕ → List ℕ
unfolding handlers_bytes sleb128_bytes
list_bytes hs none = sleb128_bytes 4 (length hs) ++ handlers_bytes hs
list_bytes hs (some addr) =
    sleb128_bytes 4 ((2 ^ 32 - length hs) % 2 ^ 32) ++ (handlers_bytes hs ++ uleb128_bytes 4 addr)

abbrev pub AreWords : List (ℕ × ℕ) → Type 0
AreWords = All (λ h. (h.0 < 2 ^ 32) × (h.1 < 2 ^ 32))

-- A list without a handler for all types is not empty.
abbrev pub CatchAllFits : List (ℕ × ℕ) → Option ℕ → Type 0
CatchAllFits hs none = 0 < length hs
CatchAllFits hs (some addr) = addr < 2 ^ 32

-- The item stands at `pos`, and its handlers stand at an offset from `handlers_start`.
pub record IsItem (d : List ℕ) (pos handlers_start : ℕ) (t : TryItem) : Type 0 where
  pub off : ℕ
  pub start_fits : t.start_addr < 2 ^ 32
  pub count_fits : t.insn_count < 2 ^ 16
  pub off_fits : off < 2 ^ 16
  pub few : length t.handlers < 2 ^ 31
  pub words : AreWords t.handlers
  pub catch_all_fits : CatchAllFits t.handlers t.catch_all
  pub there : BytesAt d pos (le_bytes32 t.start_addr ++ (le_bytes16 t.insn_count ++ le_bytes16 off))
  pub list_there : BytesAt d (handlers_start + off) (list_bytes t.handlers t.catch_all)

-- The items stand one behind the other.
abbrev pub AreItems : List ℕ → ℕ → ℕ → List TryItem → Type 0
AreItems d pos handlers_start [] = Unit
AreItems d pos handlers_start (t ∷ ts) =
    IsItem d pos handlers_start t × AreItems d (pos + 8) handlers_start ts

read_handlers-handlers_bytes :
    (c : Cursor) (hs : List (ℕ × ℕ))
    → AreWords hs
    → BytesAt c.data_bytes c.pos (handlers_bytes hs)
    → read_handlers (length hs) c ≡ (ok hs, moved c (length (handlers_bytes hs)))
unfolding read_handlers handlers_bytes
read_handlers-handlers_bytes c [] h there = rw (add-zero c.pos) refl
read_handlers-handlers_bytes c ((type_idx, addr) ∷ hs) (h, hs_fit) there =
    let first = uleb128_bytes 4 type_idx in
    let second = uleb128_bytes 4 addr in
    let rest = handlers_bytes hs in
    let s1 = BytesAt-append c.data_bytes first (second ++ rest) c.pos there in
    let s2 = BytesAt-append c.data_bytes second rest (c.pos + length first) s1.1 in
    let c1 = moved c (length first) in
    let c2 = moved c1 (length second) in
    let e1 = uleb128-uleb128_bytes c type_idx h.0 s1.0 in
    let e2 = uleb128-uleb128_bytes c1 addr h.1 s2.0 in
    let later = read_handlers-handlers_bytes c2 hs hs_fit s2.1 in
    let sizes : c.pos + length first + length second + length rest
        ≡ c.pos + length (first ++ (second ++ rest)) =
      omega (arith, length-append first (second ++ rest), length-append second rest) in
    rw e1 (rw e2 (rw later (rw sizes refl)))

sleb128_bytes-filled : (v : ℕ) → 0 < length (sleb128_bytes 4 v)
unfolding sleb128_bytes
sleb128_bytes-filled v = ground arith

-- The count that was negated is the number of handlers again.
negated_lem :
    (k : ℕ)
    → k < 2 ^ 31
    → let n = (2 ^ 32 - k) % 2 ^ 32 in ((ltb 0 n && ltb n (2 ^ 31)) ≡ false) × (negated n ≡ k)
negated_lem k h = (ground arith, ground arith)

seek_lem : (c : Cursor) (p : ℕ) → p ≤ length c.data_bytes → seek p c ≡ (ok tt, record c { pos = p })
seek_lem c p h = ground arith

handlers_at-list_bytes :
    (c : Cursor) (list_pos saved : ℕ) (hs : List (ℕ × ℕ)) (catch_all : Option ℕ)
    → length hs < 2 ^ 31
    → AreWords hs
    → CatchAllFits hs catch_all
    → saved ≤ length c.data_bytes
    → BytesAt c.data_bytes list_pos (list_bytes hs catch_all)
    → handlers_at list_pos saved c ≡ (ok (hs, catch_all), record c { pos = saved })
unfolding handlers_at read_counted list_bytes
handlers_at-list_bytes c list_pos saved hs none few words fits back there =
    let count = sleb128_bytes 4 (length hs) in
    let s = BytesAt-append c.data_bytes count (handlers_bytes hs) list_pos there in
    let at = BytesAt-lt c.data_bytes list_pos count (sleb128_bytes-filled (length hs)) s.0 in
    let c0 = record c { pos = list_pos } in
    let c1 = moved c0 (length count) in
    let c2 = moved c1 (length (handlers_bytes hs)) in
    let test : (ltb 0 (length hs) && ltb (length hs) (2 ^ 31)) ≡ true = ground (arith, fits) in
    rw (seek_lem c list_pos (omega arith)) (
      rw (sleb128-sleb128_bytes c0 (length hs) (omega arith) s.0) (
        rw test
          (rw (read_handlers-handlers_bytes c1 hs words s.1) (rw (seek_lem c2 saved back) refl))))
handlers_at-list_bytes c list_pos saved hs (some addr) few words fits back there =
    let n = (2 ^ 32 - length hs) % 2 ^ 32 in
    let count = sleb128_bytes 4 n in
    let all = uleb128_bytes 4 addr in
    let s = BytesAt-append c.data_bytes count (handlers_bytes hs ++ all) list_pos there in
    let t = BytesAt-append c.data_bytes (handlers_bytes hs) all (list_pos + length count) s.1 in
    let at = BytesAt-lt c.data_bytes list_pos count (sleb128_bytes-filled n) s.0 in
    let c0 = record c { pos = list_pos } in
    let c1 = moved c0 (length count) in
    let c2 = moved c1 (length (handlers_bytes hs)) in
    let c3 = moved c2 (length all) in
    let (test, same) = negated_lem (length hs) few in
    rw (seek_lem c list_pos (omega arith)) (
      rw (sleb128-sleb128_bytes c0 n (omega arith) s.0) (
        rw test (
          rw same (
            rw (read_handlers-handlers_bytes c1 hs words t.0)
              (rw (uleb128-uleb128_bytes c2 addr fits t.1) (rw (seek_lem c3 saved back) refl))))))

read_try-IsItem :
    (c : Cursor) (handlers_start : ℕ) (t : TryItem)
    → IsItem c.data_bytes c.pos handlers_start t
    → read_try handlers_start c ≡ (ok t, moved c 8)
unfolding read_try
read_try-IsItem c handlers_start t i =
    let d = c.data_bytes in
    let starts = le_bytes32 t.start_addr in
    let counts = le_bytes16 t.insn_count in
    let offs = le_bytes16 i.off in
    let s1 = BytesAt-append d starts (counts ++ offs) c.pos i.there in
    let s2 = BytesAt-append d counts offs (c.pos + 4) s1.1 in
    let c1 = moved c 4 in
    let c2 = moved c1 2 in
    let c3 = moved c2 2 in
    let last = BytesAt-append d (i.off % 256 ∷ []) (i.off / 256 % 256 ∷ []) c2.pos s2.1 in
    let end = BytesAt-lt d (c2.pos + 1) (i.off / 256 % 256 ∷ []) (omega arith) last.1 in
    let sum : c.pos + 4 + 2 + 2 ≡ c.pos + 8 = omega arith in
    rw (u32-le_bytes32 c t.start_addr i.start_fits s1.0) (
      rw (u16-le_bytes16 c1 t.insn_count i.count_fits s2.0) (
        rw (u16-le_bytes16 c2 i.off i.off_fits s2.1) (
          rw
            (handlers_at-list_bytes c3 (handlers_start + i.off) c3.pos t.handlers t.catch_all i.few
              i.words i.catch_all_fits (omega arith) i.list_there)
            (rw sum refl))))

-- The try items of a method that stand at the cursor in the form of the DEX format, with their handlers at
-- their offsets, in any order and even shared, are read back, and the cursor passes exactly the items.
pub read_tries-AreItems :
    (c : Cursor) (handlers_start : ℕ) (ts : List TryItem)
    → AreItems c.data_bytes c.pos handlers_start ts
    → read_tries (length ts) handlers_start c ≡ (ok ts, moved c (8 * length ts))
unfolding read_tries
read_tries-AreItems c handlers_start [] h = rw (add-zero c.pos) refl
read_tries-AreItems c handlers_start (t ∷ ts) (h, hs) =
    let later = read_tries-AreItems (moved c 8) handlers_start ts hs in
    let sum : c.pos + 8 + 8 * length ts ≡ c.pos + 8 * suc (length ts) = omega arith in
    rw (read_try-IsItem c handlers_start t h) (rw later (rw sum refl))
