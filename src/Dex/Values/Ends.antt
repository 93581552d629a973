-- ===== src/Dex/Values/Ends.antt =====
-- `EncodedValue::decode` of src/dex/mod.rs ends on every buffer.
use Prim.Native.Nat.{bit_or}
use dexvm.Prelude.{ℕ, zero, suc, ◌+◌, ◌-◌, ◌*◌, ◌/◌, ◌%◌, ◌^◌, ◌≤◌, ◌<◌, refl, arith, List, ◌&&◌}
use dexvm.Prelude.{length, All, ltb, leb, ◌==◌}
use dexvm.Dex.Cursor.{Cursor, M, ◌>>=◌, ret, u8, uleb128}
use dexvm.Dex.Cursor.Reads.{IsByte}
use dexvm.Dex.Cursor.Safe.{
  Ended, returned, failed, Safe, Safe-bind, Safe-if, Safe-u8, Safe-uleb128, Ended-then,
  Ended-earlier, u8-next,
}
use dexvm.Dex.Values.{
  EncodedValue, read_bytes, read_signed, read_unsigned, invalid_arg, unknown_type, decode_values,
  decode_elements, decode_array, decode_annotation, decode_upper, decode_kind, decode_fuel,
  decode_value, is_kind, decode_other, extend_sign,
}

module _ (d : List ℕ) (p : ℕ) where
  Safe-ret : {A : Type 0} (a : A) → Safe d p (ret a)
  Safe-ret a c at = returned at

  Safe-read_bytes : (n i v : ℕ) → Safe d p (read_bytes n i v)
  unfolding read_bytes
  Safe-read_bytes zero i v = Safe-ret v
  Safe-read_bytes (suc n) i v =
      Safe-bind d p u8 _ (Safe-u8 d p) (λ b. Safe-read_bytes n (i + 1) (bit_or v (b * 2 ^ (8 * i))))

  -- A reader of bytes whose number is made a value.
  Safe-number : {A : Type 0} (n : ℕ) (f : ℕ → A) → Safe d p (read_bytes n 0 0 >>= λ v. ret (f v))
  Safe-number n f = Safe-bind d p (read_bytes n 0 0) _ (Safe-read_bytes n 0 0) (λ v. Safe-ret (f v))

  Safe-signed : {A : Type 0} (n : ℕ) (f : ℕ → A) → Safe d p (read_signed n >>= λ v. ret (f v))
  unfolding read_signed
  Safe-signed n f =
      Safe-bind d p (read_signed n) _ (Safe-number n (extend_sign (64 - 8 * n)))
        (λ v. Safe-ret (f v))

  Safe-decode_other : (kind arg : ℕ) → Safe d p (decode_other kind arg)
  unfolding invalid_arg unknown_type
  Safe-decode_other kind arg c at =
      Safe-if d p (is_kind kind) (invalid_arg arg kind) (unknown_type kind) (λ c' at'. failed)
        (λ c' at'. failed) c at

  Safe-invalid_arg : (arg kind : ℕ) → Safe d p (invalid_arg arg kind)
  unfolding invalid_arg
  Safe-invalid_arg arg kind c at = failed

  module _ (one : M EncodedValue) (all : All IsByte d) (safe : Safe d p one) where
    Safe-decode_values : (n : ℕ) → Safe d p (decode_values one n)
    unfolding decode_values
    Safe-decode_values zero = Safe-ret _
    Safe-decode_values (suc n) =
        Safe-bind d p one _ safe
          (λ v. Safe-bind d p (decode_values one n) _ (Safe-decode_values n) (λ vs. Safe-ret _))

    Safe-decode_elements : (n : ℕ) → Safe d p (decode_elements one n)
    unfolding decode_elements
    Safe-decode_elements zero = Safe-ret _
    Safe-decode_elements (suc n) = Safe-bind d p uleb128 _ (Safe-uleb128 d p all) (λ name.
        Safe-bind d p one _ safe (λ v.
          Safe-bind d p (decode_elements one n) _ (Safe-decode_elements n) (λ es. Safe-ret _)))

    Safe-decode_array : Safe d p (decode_array one)
    unfolding decode_array
    Safe-decode_array =
        Safe-bind d p uleb128 _ (Safe-uleb128 d p all)
          (λ n. Safe-bind d p (decode_values one n) _ (Safe-decode_values n) (λ vs. Safe-ret _))

    Safe-decode_annotation : Safe d p (decode_annotation one)
    unfolding decode_annotation
    Safe-decode_annotation = Safe-bind d p uleb128 _ (Safe-uleb128 d p all) (λ kind.
        Safe-bind d p uleb128 _ (Safe-uleb128 d p all) (λ n.
          Safe-bind d p (decode_elements one n) _ (Safe-decode_elements n) (λ es. Safe-ret _)))

    Safe-decode_upper : (kind arg : ℕ) → Safe d p (decode_upper one kind arg)
    unfolding decode_upper read_unsigned
    Safe-decode_upper kind arg =
        Safe-if d p (kind == 0x10 && leb arg 3) _ _ (Safe-number (arg + 1) _) (
          Safe-if d p (kind == 0x11 && leb arg 7) _ _ (Safe-number (arg + 1) _) (
            Safe-if d p (leb 0x15 kind && leb kind 0x1b && leb arg 3) _ _ (Safe-number (arg + 1) _)
              (Safe-if d p (kind == 0x1c && arg == 0) _ _ Safe-decode_array (
                Safe-if d p (kind == 0x1d && arg == 0) _ _ Safe-decode_annotation (
                  Safe-if d p (kind == 0x1e && arg == 0) _ _ (Safe-ret _) (
                    Safe-if d p (kind == 0x1f && leb arg 1) _ _ (Safe-ret _)
                      (Safe-decode_other kind arg)))))))

    Safe-decode_kind : (kind arg : ℕ) → Safe d p (decode_kind one kind arg)
    unfolding decode_kind
    Safe-decode_kind kind arg =
        Safe-if d p (kind == 0x00 && arg == 0) _ _ (Safe-signed (arg + 1) _) (
          Safe-if d p (kind == 0x02 && leb arg 1) _ _ (Safe-signed (arg + 1) _) (
            Safe-if d p (kind == 0x03) _ _
              (Safe-if d p (ltb 1 arg) _ _ (Safe-invalid_arg arg kind) (Safe-number (arg + 1) _))
              (Safe-if d p (kind == 0x04 && leb arg 3) _ _ (Safe-signed (arg + 1) _) (
                Safe-if d p (kind == 0x06 && leb arg 7) _ _ (Safe-signed (arg + 1) _)
                  (Safe-decode_upper kind arg)))))

-- One more than the bytes behind `p` is enough fuel.
Safe-decode_fuel :
    (fuel : ℕ) (d : List ℕ) (p : ℕ)
    → All IsByte d
    → length d < fuel + p
    → Safe d p (decode_fuel fuel)
unfolding decode_fuel
Safe-decode_fuel zero d p all enough c at = absurd (omega (arith, at.behind, at.inside, enough))
Safe-decode_fuel (suc fuel) d p all enough c at = Ended-earlier (
    Ended-then d (suc p) (λ b. decode_kind (decode_fuel fuel) (b % 32) (b / 32)) (u8-next d p c at)
      (λ b.
        Safe-decode_kind d (suc p) (decode_fuel fuel) all
          (Safe-decode_fuel fuel d (suc p) all (omega (arith, enough))) (b % 32) (b / 32)))

-- On every buffer of bytes `EncodedValue::decode` ends: with an error, or with a value and the cursor in the buffer, not
-- before the place where it started.
pub decode_value-Ended :
    (c : Cursor)
    → All IsByte c.data_bytes
    → c.pos ≤ length c.data_bytes
    → Ended c.data_bytes c.pos (decode_value c)
unfolding decode_value
decode_value-Ended c all inside =
    Safe-decode_fuel (length c.data_bytes - c.pos + 1) c.data_bytes c.pos all (omega arith) c
      (record { same = refl; behind = omega arith; inside = inside })
