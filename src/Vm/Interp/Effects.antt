-- ===== src/Vm/Interp/Effects.antt =====
-- What every part of a step of src/vm/interpret.rs leaves as it is.
use dexvm.Prelude.{ℕ, ◌≤◌, ◌≡◌, refl, ◌∙◌, arith, List, Option, none, some, length, get_elem?, set}
use dexvm.Prelude.{length-set, Bool, true, false, if◌then◌else◌}
use dexvm.Vm.Value.{JValue}
use dexvm.Vm.Object.{JObject, Arena}
use dexvm.Vm.Interp.{Frame, World, Exit}
use dexvm.Vm.Interp.Linker.{Op}
use dexvm.Vm.Interp.Registers.{
  Machine, Action, after, ◌>>=◌, finish, expect, frame_of, world_of, set_result, set_pending,
  set_arena, set_monitors, put_regs, reg, set_reg, int_reg, object, new_object, ask,
}

-- The frame still runs the same method at the same address with as many registers, and the budget has
-- not grown.
pub record Continues {R : Type 0} (s t : Machine R) : Type 0 where
  pub class : t.frame.class ≡ s.frame.class
  pub slot : t.frame.slot ≡ s.frame.slot
  pub dex : t.frame.dex ≡ s.frame.dex
  pub decoded : t.frame.decoded ≡ s.frame.decoded
  pub tries : t.frame.tries ≡ s.frame.tries
  pub pc : t.frame.pc ≡ s.frame.pc
  pub regs : length t.frame.regs ≡ length s.frame.regs
  pub budget : t.world.budget ≤ s.world.budget

-- However it ends.
abbrev pub Keeps : {R A : Type 0} → Action R A → Type 0
Keeps {R = R} m = (s : Machine R) → Continues s (m s).1

-- An operation that does not raise the budget.
abbrev pub Spends : {R A : Type 0} → Op R A → Type 0
Spends {R = R} op = (w : World R) → (op w).1.budget ≤ w.budget

module _ {R : Type 0} where
  pub Continues-refl : (s : Machine R) → Continues s s
  Continues-refl s = record {
    class = refl;
    slot = refl;
    dex = refl;
    decoded = refl;
    tries = refl;
    pc = refl;
    regs = refl;
    budget = omega arith;
  }

  pub Continues-trans : {s t u : Machine R} → Continues s t → Continues t u → Continues s u
  Continues-trans a b = record {
    class = b.class ∙ a.class;
    slot = b.slot ∙ a.slot;
    dex = b.dex ∙ a.dex;
    decoded = b.decoded ∙ a.decoded;
    tries = b.tries ∙ a.tries;
    pc = b.pc ∙ a.pc;
    regs = b.regs ∙ a.regs;
    budget = omega (arith, a.budget, b.budget);
  }

  -- Another result, exception or `err_pc` of the frame, and another arena or other monitors.
  pub Continues-frame :
      (s : Machine R) (f : Frame)
      → (f.class ≡ s.frame.class) × (f.slot ≡ s.frame.slot) × (f.dex ≡ s.frame.dex)
      → (f.decoded ≡ s.frame.decoded) × (f.tries ≡ s.frame.tries) × (f.pc ≡ s.frame.pc)
      → length f.regs ≡ length s.frame.regs
      → Continues s (record s { frame = f })
  Continues-frame s f (class, slot, dex) (decoded, tries, pc) regs = record {
    class = class;
    slot = slot;
    dex = dex;
    decoded = decoded;
    tries = tries;
    pc = pc;
    regs = regs;
    budget = omega arith;
  }

  pub Continues-world :
      (s : Machine R) (w : World R)
      → w.budget ≤ s.world.budget
      → Continues s (record s { world = w })
  Continues-world s w le = record {
    class = refl;
    slot = refl;
    dex = refl;
    decoded = refl;
    tries = refl;
    pc = refl;
    regs = refl;
    budget = le;
  }

  module _ {A : Type 0} where
    pub finish-Keeps : (e : Exit A) → Keeps {R = R} (finish e)
    unfolding finish
    finish-Keeps e s = Continues-refl s

    pub expect-Keeps : (o : Option A) → Keeps {R = R} (expect o)
    expect-Keeps none = finish-Keeps _
    expect-Keeps (some a) = finish-Keeps _

    pub ask-Keeps : (op : Op R A) → Spends op → Keeps (ask op)
    unfolding ask
    ask-Keeps op h s = Continues-world s (op s.world).1 (h s.world)

    after-Continues :
        {B : Type 0} (k : A → Action R B)
        → ((a : A) → Keeps (k a))
        → (e : Exit A) (t : Machine R) → Continues t (after k e t).1
    after-Continues k h (Exit.done a) t = h a t
    after-Continues k h (Exit.throws v) t = Continues-refl t
    after-Continues k h (Exit.fails e) t = Continues-refl t
    after-Continues k h Exit.panics t = Continues-refl t

    pub bind-Keeps :
        {B : Type 0} (m : Action R A) (k : A → Action R B)
        → Keeps m
        → ((a : A) → Keeps (k a))
        → Keeps (m >>= k)
    unfolding ◌>>=◌
    bind-Keeps m k hm hk s = Continues-trans (hm s) (after-Continues k hk (m s).0 (m s).1)

    pub if-Keeps : (b : Bool) (m n : Action R A) → Keeps m → Keeps n → Keeps (if b then m else n)
    if-Keeps true m n hm hn = hm
    if-Keeps false m n hm hn = hn

  pub frame_of-Keeps : Keeps {R = R} frame_of
  unfolding frame_of
  frame_of-Keeps s = Continues-refl s

  pub world_of-Keeps : Keeps {R = R} world_of
  unfolding world_of
  world_of-Keeps s = Continues-refl s

  pub set_result-Keeps : (v : JValue) → Keeps {R = R} (set_result v)
  unfolding set_result
  set_result-Keeps v s = Continues-frame s _ (refl, refl, refl) (refl, refl, refl) refl

  pub set_pending-Keeps : (v : Option JValue) → Keeps {R = R} (set_pending v)
  unfolding set_pending
  set_pending-Keeps v s = Continues-frame s _ (refl, refl, refl) (refl, refl, refl) refl

  pub set_arena-Keeps : (a : Arena) → Keeps {R = R} (set_arena a)
  unfolding set_arena
  set_arena-Keeps a s = Continues-world s _ (omega arith)

  pub set_monitors-Keeps : (ms : List (ℕ × ℕ)) → Keeps {R = R} (set_monitors ms)
  unfolding set_monitors
  set_monitors-Keeps ms s = Continues-world s _ (omega arith)

  pub reg-Keeps : (r : ℕ) → Keeps {R = R} (reg r)
  unfolding reg
  reg-Keeps r = bind-Keeps _ _ frame_of-Keeps λ f. expect-Keeps _

  pub int_reg-Keeps : (r : ℕ) → Keeps {R = R} (int_reg r)
  unfolding int_reg
  int_reg-Keeps r = bind-Keeps _ _ (reg-Keeps r) λ v. expect-Keeps _

  -- `put_regs` alone does not keep the number of registers, but `set_reg` does.
  set_reg-Continues :
      (r : ℕ) (v : JValue) (o : Option JValue) (s : Machine R)
      → Continues s ((expect o >>= λ u. put_regs (set s.frame.regs r v)) s).1
  unfolding ◌>>=◌ finish put_regs
  set_reg-Continues r v none s = Continues-refl s
  set_reg-Continues r v (some u) s =
      Continues-frame s _ (refl, refl, refl) (refl, refl, refl) (length-set s.frame.regs r v)

  pub set_reg-Keeps : (r : ℕ) (v : JValue) → Keeps {R = R} (set_reg r v)
  unfolding set_reg frame_of ◌>>=◌
  set_reg-Keeps r v s = set_reg-Continues r v (get_elem? s.frame.regs r) s

  pub object-Keeps : (o : ℕ) → Keeps {R = R} (object o)
  unfolding object
  object-Keeps o = bind-Keeps _ _ world_of-Keeps λ w. expect-Keeps _

  pub new_object-Keeps : (o : JObject) → Keeps {R = R} (new_object o)
  unfolding new_object
  new_object-Keeps o =
      bind-Keeps _ _ world_of-Keeps λ w. bind-Keeps _ _ (set_arena-Keeps _) λ u. finish-Keeps _
