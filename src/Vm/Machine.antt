-- ===== src/Vm/Machine.antt =====
-- The wrapping integer operations of Rust's i32 and i64 that src/vm/interpret.rs uses, on the bits of
-- two's complement at a width `w`.
use dexvm.Prelude.{ℕ, ◌+◌, ◌-◌, ◌*◌, ◌/◌, ◌%◌, ◌^◌, Bool, true, false, leb, ltb, if◌then◌else◌}

abbrev pub is_negative : ℕ → ℕ → Bool
is_negative w x = leb (2 ^ (w - 1)) x

-- `wrapping_neg`, and the absolute value as an unsigned number.
abbrev pub wrapping_neg : ℕ → ℕ → ℕ
wrapping_neg w x = (2 ^ w - x) % 2 ^ w

abbrev pub magnitude : ℕ → ℕ → ℕ
magnitude w x = if is_negative w x then 2 ^ w - x else x

abbrev pub wrapping_add : ℕ → ℕ → ℕ → ℕ
wrapping_add w x y = (x + y) % 2 ^ w

abbrev pub wrapping_sub : ℕ → ℕ → ℕ → ℕ
wrapping_sub w x y = (x + (2 ^ w - y)) % 2 ^ w

abbrev pub wrapping_mul : ℕ → ℕ → ℕ → ℕ
wrapping_mul w x y = (x * y) % 2 ^ w

-- Division rounds to zero, and the remainder has the sign of the dividend.
abbrev pub wrapping_div : ℕ → ℕ → ℕ → ℕ
wrapping_div w x y =
    if is_negative w x
    then (if is_negative w y
        then magnitude w x / magnitude w y
        else wrapping_neg w (magnitude w x / magnitude w y))
    else if is_negative w y
    then wrapping_neg w (magnitude w x / magnitude w y)
    else magnitude w x / magnitude w y

abbrev pub wrapping_rem : ℕ → ℕ → ℕ → ℕ
wrapping_rem w x y =
    if is_negative w x
    then wrapping_neg w (magnitude w x % magnitude w y)
    else magnitude w x % magnitude w y

-- The shifts, whose count the callers mask to `w` bits.
abbrev pub wrapping_shl : ℕ → ℕ → ℕ → ℕ
wrapping_shl w x k = (x * 2 ^ k) % 2 ^ w

abbrev pub wrapping_ushr : ℕ → ℕ → ℕ
wrapping_ushr x k = x / 2 ^ k

-- The arithmetic shift repeats the sign.
abbrev pub wrapping_shr : ℕ → ℕ → ℕ → ℕ
wrapping_shr w x k = if is_negative w x then 2 ^ w - 1 - (2 ^ w - 1 - x) / 2 ^ k else x / 2 ^ k

-- `<` of signed integers.
abbrev pub signed_lt : ℕ → ℕ → ℕ → Bool
signed_lt w x y =
    if is_negative w x
    then (if is_negative w y then ltb x y else true)
    else if is_negative w y
    then false
    else ltb x y

-- A cast to `w` signed bits and back to `v` of them.
abbrev pub sign_extend : ℕ → ℕ → ℕ → ℕ
sign_extend w v x = if is_negative w (x % 2 ^ w) then x % 2 ^ w + (2 ^ v - 2 ^ w) else x % 2 ^ w
