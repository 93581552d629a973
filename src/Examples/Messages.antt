-- ===== src/Examples/Messages.antt =====
-- Protobuf messages of src/vm/native/proto.rs.
use dexvm.Prelude.{ℕ, ◌-◌, ◌^◌, ◌≡◌, refl, arith, List, [], ◌∷◌, ◌++◌, All, some}
use dexvm.Vm.Proto.{
  WireValue, varint, fixed32, bytes, ok, err, panicked, invalid_field, read_varint, parse_wire,
}
use dexvm.Vm.Proto.Message.{message_bytes, parse_wire-message_bytes}
use dexvm.Vm.Proto.Ends.{Settles, HasNumber, length_prefix, parse_wire-Settles, parse_wire-panics}

abbrev small_message : List (ℕ × WireValue)
small_message = (1, varint 300) ∷ (2, bytes (104 ∷ 105 ∷ [])) ∷ (16, fixed32 7) ∷ []

-- 300 takes two bytes.
two_bytes : read_varint (0xac ∷ 0x02 ∷ []) 0 ≡ some (300, 2)
unfolding read_varint
two_bytes = refl

-- A tag with the field number 0.
zero_field : parse_wire (0 ∷ 0 ∷ []) ≡ err invalid_field
unfolding parse_wire
zero_field = refl

parse_wire-message_bytes_example : parse_wire (message_bytes small_message) ≡ ok small_message
unfolding message_bytes
parse_wire-message_bytes_example =
    parse_wire-message_bytes small_message (omega arith) (omega arith)

parse_wire-Settles_example : Settles (All HasNumber) (parse_wire (8 ∷ 0xac ∷ 0x02 ∷ 0xff ∷ []))
parse_wire-Settles_example = parse_wire-Settles (8 ∷ 0xac ∷ 0x02 ∷ 0xff ∷ [])

-- A length of 2 ^ 64 - 1 behind a field.
parse_wire-panics_example :
    parse_wire (message_bytes ((1, varint 1) ∷ []) ++ (length_prefix 2 (2 ^ 64 - 1) ++ (5 ∷ [])))
    ≡ panicked
unfolding message_bytes
parse_wire-panics_example =
    parse_wire-panics ((1, varint 1) ∷ []) 2 (2 ^ 64 - 1) (5 ∷ []) (omega arith) (omega arith)
      (omega arith) (omega arith) (omega arith)
