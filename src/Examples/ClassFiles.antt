-- ===== src/Examples/ClassFiles.antt =====
-- Encoded values and class data of src/dex/mod.rs.
use dexvm.Prelude.{ℕ, ◌≡◌, refl, arith, List, [], ◌∷◌, some, ok, length}
use dexvm.Dex.Cursor.{start}
use dexvm.Dex.Cursor.Safe.{Ended}
use dexvm.Dex.Cursor.LebRead.{moved}
use dexvm.Dex.Values.{decode_value}
use dexvm.Dex.Values.Ends.{decode_value-Ended}
use dexvm.Dex.ClassData.{EncodedField, TryItem, CodeItem, read_fields, parse_code_item}
use dexvm.Dex.ClassData.Fields.{fields_bytes, read_fields-fields_bytes}
use dexvm.Dex.ClassData.Tries.{handlers_bytes, list_bytes}
use dexvm.Dex.ClassData.Items.{units_bytes, IsCodeItem, parse_code_item-IsCodeItem}

-- An array of a byte and of a value that is cut off.
abbrev cut_array : List ℕ
cut_array = 0x1c ∷ 2 ∷ 0x00 ∷ 0xfe ∷ 0x24 ∷ 0x34 ∷ []

decode_value-Ended_example : Ended cut_array 0 (decode_value (start cut_array))
decode_value-Ended_example = decode_value-Ended (start cut_array) (omega arith) (omega arith)

abbrev two_fields : List EncodedField
two_fields =
    record { field_idx = 3; access_flags = 0x19 }
    ∷ record { field_idx = 200; access_flags = 1 }
    ∷ []

read_fields-fields_bytes_example :
    (let c = start (fields_bytes 0 two_fields) in
      read_fields 2 0 c ≡ (ok two_fields, moved c (length (fields_bytes 0 two_fields))))
unfolding fields_bytes
read_fields-fields_bytes_example =
    read_fields-fields_bytes (start (fields_bytes 0 two_fields)) 0 two_fields (omega arith)
      (refl, (refl, (refl, (refl, (refl, tt)))))

-- One instruction, return-void, under a handler for the type 3 and one for all types.
abbrev guarded : TryItem
guarded = record { start_addr = 0; insn_count = 1; handlers = (3, 0) ∷ []; catch_all = some 5 }

abbrev item : CodeItem
item = record {
  registers_size = 2;
  ins_size = 1;
  outs_size = 0;
  insns = 0x0e ∷ [];
  tries = guarded ∷ [];
}

-- The item from offset 1 on: its words, the instruction, the padding, the try item, and the list of handlers,
-- behind the number of such lists.
abbrev item_file : List ℕ
item_file =
    0xaa ∷ 2 ∷ 0 ∷ 1 ∷ 0 ∷ 0 ∷ 0 ∷ 1 ∷ 0 ∷ 7 ∷ 0 ∷ 0 ∷ 0 ∷ 1 ∷ 0 ∷ 0 ∷ 0 ∷ 0x0e ∷ 0 ∷ 0 ∷ 0 ∷ 0 ∷ 0
    ∷ 0 ∷ 0 ∷ 1 ∷ 0 ∷ 1 ∷ 0 ∷ 1 ∷ 0x7f ∷ 3 ∷ 0 ∷ 5 ∷ []

item-IsCodeItem : IsCodeItem item_file 1 item
unfolding units_bytes list_bytes handlers_bytes
item-IsCodeItem = record {
  debug_info_off = 7;
  registers_fit = omega arith;
  ins_fit = omega arith;
  outs_fit = omega arith;
  tries_fit = omega arith;
  debug_fits = omega arith;
  insns_fit = omega arith;
  are_units = (omega arith, tt);
  registers_there = (refl, (refl, tt));
  ins_there = (refl, (refl, tt));
  outs_there = (refl, (refl, tt));
  tries_size_there = (refl, (refl, tt));
  debug_there = (refl, (refl, (refl, (refl, tt))));
  insns_size_there = (refl, (refl, (refl, (refl, tt))));
  insns_there = (refl, (refl, tt));
  whole = omega arith;
  tries_there = (
    record {
      off = 1;
      start_fits = omega arith;
      count_fits = omega arith;
      off_fits = omega arith;
      few = omega arith;
      words = ((omega arith, omega arith), tt);
      catch_all_fits = omega arith;
      there = (refl, (refl, (refl, (refl, (refl, (refl, (refl, (refl, tt))))))));
      list_there = (refl, (refl, (refl, (refl, tt))));
    },
    tt,
  );
}

parse_code_item-IsCodeItem_example : parse_code_item item_file 1 ≡ ok item
parse_code_item-IsCodeItem_example = parse_code_item-IsCodeItem item_file 1 item item-IsCodeItem
