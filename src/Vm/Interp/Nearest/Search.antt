-- ===== src/Vm/Interp/Nearest/Search.antt =====
-- The search of src/vm/interpret.rs among the handlers of one frame.
use dexvm.Prelude.{
  ℕ, ◌≡◌, refl, ap, List, [], ◌∷◌, Bool, Option, none, some, All, inl, inr, Bool-cases,
}
use dexvm.Vm.Value.{JValue}
use dexvm.Vm.Interp.{TryItem, World}
use dexvm.Vm.Interp.Linker.{Linker}
use dexvm.Vm.Interp.Unwind.{encloses, find_handler, or_catch_all, stop_or, find_try}
use dexvm.Vm.Interp.Nearest.{
  Covers, Calls, Holds, Typed, Rejected, Ignores, Selects, Handles, Catches,
}
use dexvm.Vm.Interp.Nearest.Address.{encloses-Covers, not-Covers}
use dexvm.Vm.Interp.Nearest.Calls.{Calls-bind, Calls-matches}

module _ (accepts : ℕ → ℕ → Bool) {R : Type 0} (linker : Linker R) (Good : World R → Type 0)
    (o class : ℕ) (holds : Holds Good o class) where
  -- The result of the search among handlers, described.
  abbrev HandlerFound : ℕ → List (ℕ × ℕ) → Option ℕ → Type 0
  HandlerFound dex handlers none = All (Rejected accepts dex) handlers
  HandlerFound dex handlers (some target) = Selects accepts dex handlers target

  HandlerFound-later :
      (dex : ℕ) (h : ℕ × ℕ) (handlers : List (ℕ × ℕ)) (found : Option ℕ)
      → Rejected accepts dex h
      → HandlerFound dex handlers found
      → HandlerFound dex (h ∷ handlers) found
  HandlerFound-later dex h handlers none away rest = (away, rest)
  HandlerFound-later dex h handlers (some target) away s = record {
    before = h ∷ s.before;
    type_idx = s.type_idx;
    behind = s.behind;
    split = ap (λ hs. h ∷ hs) s.split;
    rejected = (away, s.rejected);
    accepted = s.accepted;
  }

  find_handler_lem :
      (dex : ℕ) (handlers : List (ℕ × ℕ))
      → All (Typed accepts linker Good class dex) handlers
      → (found : Option ℕ) × Calls Good (find_handler linker dex (JValue.obj o) handlers) found
        × HandlerFound dex handlers found
  unfolding find_handler
  find_handler_lem dex [] h = (none, λ v good. (v, refl, good), tt)
  find_handler_lem dex ((type_idx, addr) ∷ handlers) (h, hs) =
      elim (Bool-cases (accepts dex type_idx)) [
        | inl yes' ↦ (
          some addr,
          Calls-bind Good _ _ _ (Calls-matches Good accepts linker o class dex _ holds h)
              (rw yes' (λ v good. (v, refl, good))),
          record {
            before = [];
            type_idx = type_idx;
            behind = handlers;
            split = refl;
            rejected = tt;
            accepted = yes';
          },
        )
        | inr no' ↦
            (let (found, run, is) = find_handler_lem dex handlers hs in
              (
                found,
                Calls-bind Good _ _ _ (Calls-matches Good accepts linker o class dex _ holds h)
                    (rw no' run),
                HandlerFound-later dex (type_idx, addr) handlers found no' is,
              ))
      ]

  -- The result of the search among items, described.
  abbrev pub TryFound : ℕ → ℕ → List TryItem → Option ℕ → Type 0
  TryFound dex addr tries none = All (Ignores accepts dex addr) tries
  TryFound dex addr tries (some target) = Catches accepts dex addr tries target

  TryFound-later :
      (dex addr : ℕ) (t : TryItem) (tries : List TryItem) (found : Option ℕ)
      → Ignores accepts dex addr t
      → TryFound dex addr tries found
      → TryFound dex addr (t ∷ tries) found
  TryFound-later dex addr t tries none away rest = (away, rest)
  TryFound-later dex addr t tries (some target) away c = record {
    before = t ∷ c.before;
    item = c.item;
    behind = c.behind;
    split = ap (λ ts. t ∷ ts) c.split;
    ignored = (away, c.ignored);
    covered = c.covered;
    handles = c.handles;
  }

  -- What an item that encloses the address adds to the search.
  abbrev ItemFound : ℕ → TryItem → Option ℕ → Type 0
  ItemFound dex t none = All (Rejected accepts dex) t.handlers × (t.catch_all ≡ none)
  ItemFound dex t (some target) = Handles accepts dex t target

  or_catch_all-ItemFound :
      (dex : ℕ) (t : TryItem) (found catch_all : Option ℕ)
      → t.catch_all ≡ catch_all
      → HandlerFound dex t.handlers found
      → ItemFound dex t (or_catch_all linker found catch_all)
  or_catch_all-ItemFound dex t none none e h = (h, e)
  or_catch_all-ItemFound dex t none (some target) e h = inr (h, e)
  or_catch_all-ItemFound dex t (some target) catch_all e h = inl h

  item_lem :
      (dex addr : ℕ) (t : TryItem) (tries : List TryItem) (found : Option ℕ)
      → Covers t addr
      → ItemFound dex t found
      → (rest : Option ℕ) × Calls Good (find_try linker dex (JValue.obj o) addr tries) rest
        × TryFound dex addr tries rest
      → (all : Option ℕ) × Calls Good
          (stop_or linker found (find_try linker dex (JValue.obj o) addr tries))
          all
        × TryFound dex addr (t ∷ tries) all
  item_lem dex addr t tries none covered h (rest, run, is) =
      (rest, run, TryFound-later dex addr t tries rest (λ c. h) is)
  item_lem dex addr t tries (some target) covered h r = (
    some target,
    λ v good. (v, refl, good),
    record {
      before = [];
      item = t;
      behind = tries;
      split = refl;
      ignored = tt;
      covered = covered;
      handles = h;
    },
  )

  pub find_try_lem :
      (dex addr : ℕ) (tries : List TryItem)
      → All (λ t. All (Typed accepts linker Good class dex) t.handlers) tries
      → (found : Option ℕ) × Calls Good (find_try linker dex (JValue.obj o) addr tries) found
        × TryFound dex addr tries found
  unfolding find_try
  find_try_lem dex addr [] h = (none, λ v good. (v, refl, good), tt)
  find_try_lem dex addr (t ∷ tries) (h, hs) =
      let rest = find_try_lem dex addr tries hs in
      elim (Bool-cases (encloses t addr)) [
        | inr outside ↦ (
          rest.0,
          rw (find_try, outside) rest.1,
          TryFound-later dex addr t tries rest.0 (λ c. absurd (not-Covers t addr outside c)) rest.2,
        )
        | inl covered ↦
            (let (found, run, is) = find_handler_lem dex t.handlers h in
              let (all, whole, means) =
                item_lem dex addr t tries (or_catch_all linker found t.catch_all)
                  (encloses-Covers t addr covered)
                  (or_catch_all-ItemFound dex t found t.catch_all refl is) rest in
              (all, rw (find_try, covered) (Calls-bind Good _ _ _ run whole), means))
      ]
