-- ===== src/Vm/Interp/Entry.antt =====
-- The registers of a method at its start, in src/vm/interpret.rs.
use dexvm.Prelude.{
  ℕ, zero, suc, ◌+◌, ◌-◌, ◌≤◌, ◌≡◌, refl, ap, sym, ◌∙◌, arith, List, [], ◌∷◌, ◌++◌, true, false,
  some, length, take, set, replicate, length-replicate, ltb,
}
use dexvm.Vm.Value.{JValue}
use dexvm.Vm.Interp.{place_args, make_regs}

-- A write behind a prefix.
set_behind :
    (before : List JValue) (x : JValue) (behind : List JValue) (i : ℕ) (v : JValue)
    → i ≡ length before
    → set (before ++ x ∷ behind) i v ≡ before ++ v ∷ behind
set_behind [] x behind zero v e = refl
set_behind [] x behind (suc i) v e = absurd (omega (arith, e))
set_behind (y ∷ before) x behind zero v e = absurd (omega (arith, e))
set_behind (y ∷ before) x behind (suc i) v e =
    ap (λ xs. y ∷ xs) (set_behind before x behind i v (omega (arith, e)))

append_step :
    (before : List JValue) (v : JValue) (behind : List JValue)
    → before ++ v ∷ behind ≡ (before ++ v ∷ []) ++ behind
append_step [] v behind = refl
append_step (y ∷ before) v behind = ap (λ xs. y ∷ xs) (append_step before v behind)

length_step : (before : List JValue) (v : JValue) → length (before ++ v ∷ []) ≡ length before + 1
length_step [] v = refl
length_step (y ∷ before) v = omega (arith, length_step before v)

-- Arguments beyond `ins_size` change nothing.
past :
    (before : List JValue) (base ins_size i : ℕ) (args : List JValue)
    → ins_size ≤ i
    → place_args (before ++ []) base ins_size i args ≡ before ++ []
unfolding place_args
past before base ins_size i [] le = refl
past before base ins_size i (a ∷ args) le =
    let no_more : ltb i ins_size ≡ false = ground (arith, le) in
    rw (place_args, no_more) (past before base ins_size (i + 1) args (omega (arith, le)))

-- From the argument `i` on, the arguments replace `n` registers that are left.
place_args_lem :
    (before : List JValue) (base ins_size i n : ℕ) (args : List JValue)
    → length before ≡ base + i
    → ins_size ≡ i + n
    → place_args (before ++ replicate n JValue.null) base ins_size i args
      ≡ before ++ (take n args ++ replicate (n - length args) JValue.null)
unfolding place_args
place_args_lem before base ins_size i zero [] e f = refl
place_args_lem before base ins_size i zero (a ∷ args) e f =
    let no_more : ltb i ins_size ≡ false = ground (arith, f) in
    let skip : place_args (before ++ []) base ins_size (i + 1) args ≡ before ++ [] =
      past before base ins_size (i + 1) args (omega (arith, f)) in
    let none_left : 0 - suc (length args) ≡ 0 = omega arith in
    rw (place_args, no_more, none_left) skip
place_args_lem before base ins_size i (suc n) [] e f =
    let all_left : suc n - 0 ≡ suc n = omega arith in rw all_left refl
place_args_lem before base ins_size i (suc n) (a ∷ args) e f =
    let more : ltb i ins_size ≡ true = ground (arith, f) in
    let here : base + i ≡ length before = omega (arith, e) in
    let one_less : suc n - suc (length args) ≡ n - length args = omega arith in
    rw
      (
        place_args,
        more,
        one_less,
        set_behind before JValue.null (replicate n JValue.null) (base + i) a here,
        append_step before a (replicate n JValue.null),
      )
      (place_args_lem (before ++ a ∷ []) base ins_size (i + 1) n args
          (omega (arith, e, length_step before a)) (omega (arith, f))
        ∙ sym (append_step before a (take n args ++ replicate (n - length args) JValue.null)))

replicate_split :
    (a b n : ℕ)
    → n ≡ a + b
    → replicate n JValue.null ≡ replicate a JValue.null ++ replicate b JValue.null
replicate_split zero b n e = ap (λ m. replicate m JValue.null) (omega (arith, e))
replicate_split (suc a) b zero e = absurd (omega (arith, e))
replicate_split (suc a) b (suc n) e =
    ap (λ xs. JValue.null ∷ xs) (replicate_split a b n (omega (arith, e)))

-- Registers of nulls, then the arguments in the last `ins_size` registers, cut off or filled up with nulls.
make_regs_lem :
    (args : List JValue) (ins_size registers : ℕ)
    → ins_size ≤ registers
    → make_regs args ins_size registers
      ≡ some (
          replicate (registers - ins_size) JValue.null
          ++ (take ins_size args ++ replicate (ins_size - length args) JValue.null))
unfolding make_regs
make_regs_lem args ins_size registers h =
    let fits : ltb registers ins_size ≡ false = ground (arith, h) in
    let nulls : replicate registers JValue.null
        ≡ replicate (registers - ins_size) JValue.null ++ replicate ins_size JValue.null =
      replicate_split (registers - ins_size) ins_size registers (omega (arith, h)) in
    rw (fits, nulls)
      (ap some (
        place_args_lem (replicate (registers - ins_size) JValue.null) (registers - ins_size)
          ins_size 0 ins_size args
          (omega (arith, length-replicate (registers - ins_size) JValue.null)) (omega arith)))
