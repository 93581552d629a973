-- ===== src/Examples/Strings.antt =====
-- Strings of a DEX file.
use dexvm.Prelude.{ℕ, ◌≡◌, refl, arith, List, [], ◌∷◌, ok, err}
use dexvm.Dex.Error.{dex_error, truncated_utf8}
use dexvm.Dex.Mutf8.{chunk_of, mutf8_loop, decode_mutf8}
use dexvm.Dex.Mutf8.RoundTrip.{decode_mutf8-encode}

abbrev as_bytes : List ℕ → List ℕ
as_bytes bytes = bytes

-- A lead byte at the end.
cut_off : decode_mutf8 as_bytes (0x41 ∷ 0xc3 ∷ []) ≡ err (dex_error 1 truncated_utf8)
unfolding decode_mutf8 mutf8_loop chunk_of
cut_off = refl

-- A character 0, A, é and €, and a byte 0 before another byte.
decode_mutf8-encode_example :
    decode_mutf8 as_bytes (0xc0 ∷ 0x80 ∷ 0x41 ∷ 0xc3 ∷ 0xa9 ∷ 0xe2 ∷ 0x82 ∷ 0xac ∷ 0 ∷ 0x42 ∷ [])
    ≡ ok (0 ∷ 0x41 ∷ 0xc3 ∷ 0xa9 ∷ 0xe2 ∷ 0x82 ∷ 0xac ∷ [])
decode_mutf8-encode_example =
    decode_mutf8-encode as_bytes (0 ∷ 0x41 ∷ 0xe9 ∷ 0x20ac ∷ []) (0 ∷ 0x42 ∷ [])
      (omega arith, (omega arith, (omega arith, (omega arith, tt)))) refl
