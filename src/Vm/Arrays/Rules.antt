-- ===== src/Vm/Arrays/Rules.antt =====
-- What the array instructions of src/vm/interpret.rs leave in an array.
use dexvm.Prelude.{
  ℕ, zero, suc, ◌%◌, ◌==◌, ◌<◌, ◌≡◌, ◌≢◌, refl, sym, ap, ◌∙◌, arith, List, true, false, Option,
  none, some,
}
use dexvm.Prelude.{length, get_elem?, set, ltb, Bool-cases, Option-cases, inl, inr, length-set}
use dexvm.Prelude.{get_elem?-set_same, get_elem?-set_other, lt-length_of_get_elem?}
use dexvm.Vm.Value.{JValue, is_null_ref, truthy, as_int, as_long}
use dexvm.Vm.Machine.{sign_extend}
use dexvm.Vm.Object.{ArrayData, Native, JObject, Arena}
use dexvm.Vm.Operators.{FloatOps}
use dexvm.Vm.Arrays.{
  view, bit, elem, len, store, low, as_float, as_double, set_elem, stored, Access, of_option,
  array_get, array_put, in_range, read_elem,
}

-- A store that succeeds was in range.
store-cases :
    {A : Type 0} (k : List A → ArrayData) (d : List A) (i : ℕ) (x : Option A) {b : ArrayData}
    → store k d i x ≡ some b
    → (y : A) × (x ≡ some y) × (i < length d) × (b ≡ k (set d i y))
store-cases k d i none h = absurd (cc)
store-cases k d i (some y) {b = b} h = elim (Bool-cases (ltb i (length d))) [
  | inl t ↦
      (let same : some (k (set d i y)) ≡ some b = rw t at h in (y, refl, ground (arith, t), cc))
  | inr f ↦ (let no : none ≡ some b = rw f at h in absurd (cc))
]

module _ (floats : FloatOps) where
  -- The value that an element of an array has once `v` was stored in it: the bits that the element type
  -- keeps, widened again.
  unfoldable pub narrowed : ArrayData → JValue → Option JValue
  narrowed (ArrayData.byte d) v = view (λ x. JValue.int (sign_extend 8 32 x)) (low 8 (as_int v))
  narrowed (ArrayData.char d) v = view JValue.int (low 16 (as_int v))
  narrowed (ArrayData.short d) v = view (λ x. JValue.int (sign_extend 16 32 x)) (low 16 (as_int v))
  narrowed (ArrayData.int d) v = view JValue.int (as_int v)
  narrowed (ArrayData.long d) v = view JValue.long (as_long v)
  narrowed (ArrayData.float d) v = view JValue.float (as_float floats v)
  narrowed (ArrayData.double d) v = view JValue.double (as_double floats v)
  narrowed (ArrayData.bool d) v = some (JValue.int (bit (truthy v)))
  narrowed (ArrayData.obj d) v = some v

  -- What storing `v` at `i` makes of the array `a`.
  pub record Stores (a : ArrayData) (i : ℕ) (v : JValue) (b : ArrayData) : Type 0 where
    pub here : elem b i ≡ narrowed a v
    pub others : (j : ℕ) → j ≢ i → elem b j ≡ elem a j
    pub size : len b ≡ len a
    pub inside : i < len a

  -- One kind of array, by what its elements are.
  of_store :
      {A : Type 0} (k : List A → ArrayData) (f : A → JValue) (d : List A) (i : ℕ) (x : Option A)
      (v : JValue) (b : ArrayData)
      → ((e : List A) (j : ℕ) → elem (k e) j ≡ view f (get_elem? e j))
      → ((e : List A) → len (k e) ≡ length e)
      → narrowed (k d) v ≡ view f x
      → store k d i x ≡ some b
      → Stores (k d) i v b
  of_store k f d i x v b elems size narrow h =
      let (y, e, inside, result) = store-cases k d i x h in
      let kept : length (set d i y) ≡ length d = length-set d i y in
      rw result (record {
        here =
            elems (set d i y) i
            ∙ ap (view f) (get_elem?-set_same d i y inside ∙ sym e)
            ∙ sym narrow;
        others = λ j other.
            elems (set d i y) j
            ∙ ap (view f) (get_elem?-set_other d i j y (λ same. other (sym same)))
            ∙ sym (elems d j);
        size = size (set d i y) ∙ kept ∙ sym (size d);
        inside = omega (arith, size d);
      })

  set_elem-Stores :
      (a : ArrayData) (i : ℕ) (v : JValue) (b : ArrayData)
      → set_elem floats a i v ≡ some b
      → Stores a i v b
  unfolding set_elem elem len narrowed
  set_elem-Stores (ArrayData.byte d) i v b h =
      of_store ArrayData.byte (λ x. JValue.int (sign_extend 8 32 x)) d i _ v b (λ e j. refl)
        (λ e. refl) refl h
  set_elem-Stores (ArrayData.char d) i v b h =
      of_store ArrayData.char JValue.int d i _ v b (λ e j. refl) (λ e. refl) refl h
  set_elem-Stores (ArrayData.short d) i v b h =
      of_store ArrayData.short (λ x. JValue.int (sign_extend 16 32 x)) d i _ v b (λ e j. refl)
        (λ e. refl) refl h
  set_elem-Stores (ArrayData.int d) i v b h =
      of_store ArrayData.int JValue.int d i _ v b (λ e j. refl) (λ e. refl) refl h
  set_elem-Stores (ArrayData.long d) i v b h =
      of_store ArrayData.long JValue.long d i _ v b (λ e j. refl) (λ e. refl) refl h
  set_elem-Stores (ArrayData.float d) i v b h =
      of_store ArrayData.float JValue.float d i _ v b (λ e j. refl) (λ e. refl) refl h
  set_elem-Stores (ArrayData.double d) i v b h =
      of_store ArrayData.double JValue.double d i _ v b (λ e j. refl) (λ e. refl) refl h
  set_elem-Stores (ArrayData.bool d) i v b h =
      of_store ArrayData.bool (λ x. JValue.int (bit x)) d i (some (truthy v)) v b (λ e j. refl)
        (λ e. refl) refl h
  set_elem-Stores (ArrayData.obj d) i v b h =
      of_store ArrayData.obj (λ x. x) d i (some v) v b (λ e j. refl) (λ e. refl) refl h

  -- What reading gives back of a value that was put in an array: of an int the low bits that the element type
  -- holds, widened again, of a bool whether it is not zero, and in an array of objects the value itself, with
  -- the null reference for the int zero. An array keeps no value of a kind that does not fit it.
  unfoldable pub kept : ArrayData → JValue → Option JValue
  kept (ArrayData.byte d) (JValue.int n) = some (JValue.int (sign_extend 8 32 (n % 256)))
  kept (ArrayData.byte d) JValue.null = some (JValue.int 0)
  kept (ArrayData.byte d) v = none
  kept (ArrayData.char d) (JValue.int n) = some (JValue.int (n % 65536))
  kept (ArrayData.char d) JValue.null = some (JValue.int 0)
  kept (ArrayData.char d) v = none
  kept (ArrayData.short d) (JValue.int n) = some (JValue.int (sign_extend 16 32 (n % 65536)))
  kept (ArrayData.short d) JValue.null = some (JValue.int 0)
  kept (ArrayData.short d) v = none
  kept (ArrayData.int d) (JValue.int n) = some (JValue.int (n))
  kept (ArrayData.int d) JValue.null = some (JValue.int 0)
  kept (ArrayData.int d) v = none
  kept (ArrayData.long d) (JValue.long n) = some (JValue.long n)
  kept (ArrayData.long d) v = none
  kept (ArrayData.float d) (JValue.float n) = some (JValue.float n)
  kept (ArrayData.float d) (JValue.int n) = some (JValue.float (floats.int_to_float n))
  kept (ArrayData.float d) v = none
  kept (ArrayData.double d) (JValue.double n) = some (JValue.double n)
  kept (ArrayData.double d) (JValue.float n) = some (JValue.double (floats.float_to_double n))
  kept (ArrayData.double d) (JValue.long n) = some (JValue.double (floats.long_to_double n))
  kept (ArrayData.double d) (JValue.int n) = some (JValue.double (floats.int_to_double n))
  kept (ArrayData.double d) v = none
  kept (ArrayData.bool d) (JValue.int (suc n)) = some (JValue.int 1)
  kept (ArrayData.bool d) v = some (JValue.int 0)
  kept (ArrayData.obj d) (JValue.int zero) = some JValue.null
  kept (ArrayData.obj d) v = some v

  narrowed-stored : (a : ArrayData) (v : JValue) → narrowed a (stored a v) ≡ kept a v
  unfolding kept narrowed stored is_null_ref truthy as_int as_long as_float as_double
  narrowed-stored (ArrayData.obj d) (JValue.int zero) = refl
  narrowed-stored (ArrayData.obj d) (JValue.int (suc n)) =
      let e : (suc n == 0) ≡ false = ground arith in rw e refl
  narrowed-stored (ArrayData.bool d) (JValue.int zero) = refl
  narrowed-stored (ArrayData.bool d) (JValue.int (suc n)) =
      let e : (suc n == 0) ≡ false = ground arith in rw e refl
  narrowed-stored (ArrayData.byte d) (JValue.int n) = refl
  narrowed-stored (ArrayData.char d) (JValue.int n) = refl
  narrowed-stored (ArrayData.short d) (JValue.int n) = refl
  narrowed-stored (ArrayData.int d) (JValue.int n) = refl
  narrowed-stored (ArrayData.long d) (JValue.int n) = refl
  narrowed-stored (ArrayData.float d) (JValue.int n) = refl
  narrowed-stored (ArrayData.double d) (JValue.int n) = refl
  narrowed-stored a v = refl

  -- Reading the array that a store made.
  read_stored :
      (a b : ArrayData) (i : ℕ) (v : JValue)
      → Stores a i v b
      → in_range i (len a) ≡ true
      → (read_elem (some (Native.array b)) i ≡ of_option (narrowed a v))
        × ((j : ℕ)
            → j ≢ i
            → read_elem (some (Native.array b)) j ≡ read_elem (some (Native.array a)) j)
  read_stored a b i v s inside =
      (rw (s.size, inside, s.here) refl, λ j other. rw (s.size, s.others j other) refl)

  -- In an arena whose object `o` is an array `a`, a store at the index `idx` that succeeds is read back by
  -- `array_get` as what the array keeps of it: of an int the low bits that the element type holds, widened
  -- again, of a bool whether it is not zero, and in an array of objects the value itself, with the null
  -- reference for the int zero. At every other index `array_get` gives what it gave before.
  pub array_get-array_put :
      (arena after : Arena) (o class idx : ℕ) (fields : List JValue) (a : ArrayData) (v : JValue)
      → get_elem? arena.objects o
        ≡ some (record { class = class; fields = fields; native = some (Native.array a) })
      → array_put floats arena v (JValue.obj o) (JValue.int idx) ≡ Access.got after
      → (array_get after (JValue.obj o) (JValue.int idx) ≡ of_option (kept a v))
        × ((j : ℕ)
            → j ≢ idx
            → array_get after (JValue.obj o) (JValue.int j)
              ≡ array_get arena (JValue.obj o) (JValue.int j))
  unfolding array_put array_get as_int
  array_get-array_put arena after o class idx fields a v there run =
      let put = rw there at run in
      let room : o < length arena.objects = lt-length_of_get_elem? arena.objects o there in
      elim (Bool-cases (in_range idx (len a))) [
        | inr out ↦
            (let no : Access.out_of_bounds idx (len a) ≡ Access.got after = rw out at put in
              absurd (cc))
        | inl inside ↦ elim (Option-cases (set_elem floats a idx (stored a v))) [
          | inl bad ↦
              (let no : ◌≡◌ {A = Access Arena} Access.panics (Access.got after) =
                  rw (inside, bad) at put in
                absurd (cc))
          | inr (b, good) ↦
              (let ob : JObject = record {
                class = class;
                fields = fields;
                native = some (Native.array b);
              } in
                let done : ◌≡◌ {A = Access Arena}
                    (Access.got (record arena { objects = set arena.objects o ob }))
                    (Access.got after) =
                  rw (inside, good) at put in
                let result : ◌≡◌ {A = Arena} (record arena { objects = set arena.objects o ob })
                    after =
                  cc in
                let (same, others) =
                  read_stored a b idx (stored a v) (set_elem-Stores a idx (stored a v) b good)
                    inside in
                rw⁻¹ result (
                  rw (get_elem?-set_same arena.objects o ob room, there)
                    (same ∙ ap of_option (narrowed-stored a v), others)))
        ]
      ]
