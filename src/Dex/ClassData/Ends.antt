-- ===== src/Dex/ClassData/Ends.antt =====
-- `parse_class_data` and `parse_code_item` of src/dex/mod.rs end on every file.
use dexvm.Prelude.{ℕ, zero, suc, ◌+◌, ◌*◌, ◌%◌, ◌^◌, ◌≢◌, refl, arith, List, ◌&&◌}
use dexvm.Prelude.{ok, err, stuck, All, ltb, ◌==◌, none}
use dexvm.Dex.Error.{DexResult}
use dexvm.Dex.Cursor.{ret, seek, start, u16, u32, bytes, uleb128, sleb128}
use dexvm.Dex.Cursor.Reads.{IsByte}
use dexvm.Dex.Cursor.Safe.{
  At, returned, failed, Ended-not_stuck, Safe, Safe-bind, Safe-if, Safe-u16, Safe-u32, Safe-bytes,
  Safe-uleb128, Safe-sleb128, Safe-seek,
}
use dexvm.Dex.ClassData.{
  CodeItem, read_handlers, negated, read_counted, handlers_at, cursor_pos, read_try, read_tries,
  align_tries, read_code_item, parse_code_item, read_fields, with_code, read_code, read_methods,
  read_class_data, parse_class_data,
}

module _ (d : List ℕ) (all : All IsByte d) where
  Safe-ret : {A : Type 0} (a : A) → Safe d 0 (ret a)
  Safe-ret a c at = returned at

  uleb : Safe d 0 uleb128
  uleb = Safe-uleb128 d 0 all

  Safe-cursor_pos : Safe d 0 cursor_pos
  Safe-cursor_pos c at = returned at

  Safe-read_handlers : (n : ℕ) → Safe d 0 (read_handlers n)
  unfolding read_handlers
  Safe-read_handlers zero = Safe-ret _
  Safe-read_handlers (suc n) = Safe-bind d 0 uleb128 _ uleb (λ type_idx.
      Safe-bind d 0 uleb128 _ uleb
        (λ addr. Safe-bind d 0 (read_handlers n) _ (Safe-read_handlers n) (λ rest. Safe-ret _)))

  Safe-read_counted : (n : ℕ) → Safe d 0 (read_counted n)
  unfolding read_counted
  Safe-read_counted n =
      Safe-if d 0 (ltb 0 n && ltb n (2 ^ 31)) _ _
        (Safe-bind d 0 (read_handlers n) _ (Safe-read_handlers n) (λ handlers. Safe-ret _))
        (Safe-bind d 0 (read_handlers (negated n)) _ (Safe-read_handlers (negated n))
          (λ handlers. Safe-bind d 0 uleb128 _ uleb (λ every. Safe-ret _)))

  Safe-handlers_at : (list_pos saved : ℕ) → Safe d 0 (handlers_at list_pos saved)
  unfolding handlers_at
  Safe-handlers_at list_pos saved = Safe-bind d 0 (seek list_pos) _ (Safe-seek d list_pos) (λ _.
      Safe-bind d 0 sleb128 _ (Safe-sleb128 d 0 all) (λ n.
        Safe-bind d 0 (read_counted n) _ (Safe-read_counted n)
          (λ found. Safe-bind d 0 (seek saved) _ (Safe-seek d saved) (λ _. Safe-ret found))))

  Safe-read_try : (n : ℕ) → Safe d 0 (read_try n)
  unfolding read_try
  Safe-read_try n = Safe-bind d 0 u32 _ (Safe-u32 d 0) (λ start_addr.
      Safe-bind d 0 u16 _ (Safe-u16 d 0) (λ insn_count. Safe-bind d 0 u16 _ (Safe-u16 d 0) (λ off.
        Safe-bind d 0 cursor_pos _ Safe-cursor_pos (λ saved.
          Safe-bind d 0 (handlers_at (n + off) saved) _ (Safe-handlers_at (n + off) saved)
            (λ found. Safe-ret _)))))

  Safe-read_tries : (n at : ℕ) → Safe d 0 (read_tries n at)
  unfolding read_tries
  Safe-read_tries zero at = Safe-ret _
  Safe-read_tries (suc n) at =
      Safe-bind d 0 (read_try at) _ (Safe-read_try at)
        (λ item. Safe-bind d 0 (read_tries n at) _ (Safe-read_tries n at) (λ rest. Safe-ret _))

  Safe-align_tries : (n k : ℕ) → Safe d 0 (align_tries n k)
  unfolding align_tries
  Safe-align_tries n k =
      Safe-if d 0 (ltb 0 n && (k % 2 == 1)) _ _
        (Safe-bind d 0 u16 _ (Safe-u16 d 0) (λ _. Safe-ret tt)) (Safe-ret tt)

  Safe-read_code_item : Safe d 0 read_code_item
  unfolding read_code_item
  Safe-read_code_item = Safe-bind d 0 u16 _ (Safe-u16 d 0) (λ registers_size.
      Safe-bind d 0 u16 _ (Safe-u16 d 0) (λ ins_size.
        Safe-bind d 0 u16 _ (Safe-u16 d 0) (λ outs_size. Safe-bind d 0 u16 _ (Safe-u16 d 0) (λ n.
          Safe-bind d 0 u32 _ (Safe-u32 d 0) (λ _. Safe-bind d 0 u32 _ (Safe-u32 d 0) (λ k.
            Safe-bind d 0 (bytes (k * 2)) _ (Safe-bytes d 0 (k * 2)) (λ bs.
              Safe-bind d 0 (align_tries n k) _ (Safe-align_tries n k) (λ _.
                Safe-bind d 0 cursor_pos _ Safe-cursor_pos (λ at.
                  Safe-bind d 0 (read_tries n (at + n * 8)) _ (Safe-read_tries n (at + n * 8))
                    (λ tries. Safe-ret _))))))))))

  At-start : At d 0 (start d)
  At-start = record { same = refl; behind = omega arith; inside = omega arith }

  parse_code_item-not_stuck : (off : ℕ) → parse_code_item d off ≢ stuck
  unfolding parse_code_item
  parse_code_item-not_stuck off =
      Ended-not_stuck
        (Safe-bind d 0 (seek off) _ (Safe-seek d off) (λ _. Safe-read_code_item) (start d) At-start)

  Safe-read_fields : (n idx : ℕ) → Safe d 0 (read_fields n idx)
  unfolding read_fields
  Safe-read_fields zero idx = Safe-ret _
  Safe-read_fields (suc n) idx = Safe-bind d 0 uleb128 _ uleb (λ diff.
      Safe-bind d 0 uleb128 _ uleb (λ flags.
        Safe-bind d 0 (read_fields n ((idx + diff) % 2 ^ 32)) _
          (Safe-read_fields n ((idx + diff) % 2 ^ 32)) (λ rest. Safe-ret _)))

  Safe-with_code : (r : DexResult CodeItem) → r ≢ stuck → Safe d 0 (with_code r)
  unfolding with_code
  Safe-with_code (ok item) live c at = returned at
  Safe-with_code (err e) live c at = failed
  Safe-with_code stuck live c at = absurd (live refl)

  Safe-read_code : (off : ℕ) → Safe d 0 (read_code d off)
  unfolding read_code
  Safe-read_code off =
      Safe-if d 0 (off == 0) _ _ (Safe-ret none)
        (Safe-with_code (parse_code_item d off) (parse_code_item-not_stuck off))

  Safe-read_methods : (n idx : ℕ) → Safe d 0 (read_methods d n idx)
  unfolding read_methods
  Safe-read_methods zero idx = Safe-ret _
  Safe-read_methods (suc n) idx = Safe-bind d 0 uleb128 _ uleb (λ diff.
      Safe-bind d 0 uleb128 _ uleb (λ flags. Safe-bind d 0 uleb128 _ uleb (λ off.
        Safe-bind d 0 (read_code d off) _ (Safe-read_code off) (λ code.
          Safe-bind d 0 (read_methods d n ((idx + diff) % 2 ^ 32)) _
            (Safe-read_methods n ((idx + diff) % 2 ^ 32)) (λ rest. Safe-ret _)))))

  Safe-read_class_data : Safe d 0 (read_class_data d)
  unfolding read_class_data
  Safe-read_class_data = Safe-bind d 0 uleb128 _ uleb (λ a. Safe-bind d 0 uleb128 _ uleb (λ b.
      Safe-bind d 0 uleb128 _ uleb (λ m. Safe-bind d 0 uleb128 _ uleb (λ n.
        Safe-bind d 0 (read_fields a 0) _ (Safe-read_fields a 0) (λ static_fields.
          Safe-bind d 0 (read_fields b 0) _ (Safe-read_fields b 0) (λ instance_fields.
            Safe-bind d 0 (read_methods d m 0) _ (Safe-read_methods m 0) (λ direct_methods.
              Safe-bind d 0 (read_methods d n 0) _ (Safe-read_methods n 0)
                (λ virtual_methods. Safe-ret _))))))))

-- On every buffer of bytes and from every offset, the parsers of class data, with its fields, methods and
-- their code, and of code items, with their try items, end with a value or an error.
parse_class_data_ends :
    (d : List ℕ) (off : ℕ)
    → All IsByte d
    → (parse_class_data d off ≢ stuck) × (parse_code_item d off ≢ stuck)
unfolding parse_class_data
parse_class_data_ends d off all = (
  Ended-not_stuck (
      Safe-bind d 0 (seek off) _ (Safe-seek d off) (λ _. Safe-read_class_data d all) (start d)
        (At-start d all)),
  parse_code_item-not_stuck d all off,
)
