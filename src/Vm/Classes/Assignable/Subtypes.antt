-- ===== src/Vm/Classes/Assignable/Subtypes.antt =====
-- `is_assignable` of src/vm/mod.rs against the subtype relation.
use dexvm.Prelude.{ℕ, ◌≡◌, List, true, Option, none, some, get_elem?}
use mathlib.Core.List.{Memᴰ}
use dexvm.Permission.Text.{Text, same_text}
use dexvm.Vm.Classes.{Class}
use dexvm.Vm.Classes.Assignable.{Verdict}

module _ (classes : List Class) (descriptor : ℕ → ℕ → Text) (class_of : ℕ → ℕ → Option ℕ) where
  -- A class is a subtype of itself, of the supertypes of its superclass and of its interfaces, and an array
  -- of those whose element type has the same descriptor or is a supertype.
  pub data Subtype : ℕ → ℕ → Type 0 where
    same : {c d : ℕ} → c ≡ d → Subtype c d
    super :
        {c s d : ℕ} {class : Class}
        → get_elem? classes c ≡ some class
        → class.superclass ≡ some s
        → Subtype s d
        → Subtype c d
    implements :
        {c i d : ℕ} {class : Class}
        → get_elem? classes c ≡ some class
        → Memᴰ i class.interfaces
        → Subtype i d
        → Subtype c d
    same_elements :
        {c d edx elem tdx t_elem : ℕ} {class target : Class}
        → get_elem? classes c ≡ some class
        → class.array_elem ≡ some (edx, elem)
        → get_elem? classes d ≡ some target
        → target.array_elem ≡ some (tdx, t_elem)
        → same_text (descriptor edx elem) (descriptor tdx t_elem) ≡ true
        → Subtype c d
    elements :
        {c d edx elem tdx t_elem e t : ℕ} {class target : Class}
        → get_elem? classes c ≡ some class
        → class.array_elem ≡ some (edx, elem)
        → get_elem? classes d ≡ some target
        → target.array_elem ≡ some (tdx, t_elem)
        → class_of edx elem ≡ some e
        → class_of tdx t_elem ≡ some t
        → Subtype e t
        → Subtype c d

  -- No class is an array.
  abbrev pub NoArrays : Type 0
  NoArrays = (c : ℕ) (class : Class) → get_elem? classes c ≡ some class → class.array_elem ≡ none

  -- What a verdict promises.
  abbrev pub Judges : ℕ → ℕ → Verdict → Type 0
  Judges c d Verdict.fits = Subtype c d
  Judges c d Verdict.differs = NoArrays → ¬ Subtype c d
  Judges c d v = Unit
