-- ===== src/Dex/Insn/Tiling/Payloads.antt =====
-- The payloads that `decode_all` of src/dex/insn.rs keeps to skip.
use dexvm.Prelude.{
  ℕ, ◌≡◌, refl, sym, ap, ◌∙◌, arith, List, [], ◌∷◌, ◌++◌, none, some, true, ◌==◌, Bool-cases,
  Option-cases, inl, inr, mem-append,
}
use mathlib.Core.List.{Memᴰ}
use mathlib.Core.List.Memᴰ
use dexvm.Dex.Insn.{Insn, FillArray}
use dexvm.Dex.Insn.Payload.{payload_words, payload_span}
use dexvm.Dex.Insn.Decode.{find_skip, push_span}
use dexvm.Dex.Insn.Tiling.{element_units, PayloadAt}

payload_words-eq-element_units : (d : FillArray) → payload_words d ≡ element_units d
unfolding payload_words element_units
payload_words-eq-element_units (FillArray.bytes v) = refl
payload_words-eq-element_units d = refl

payload_span-PayloadAt :
    (i : Insn) (start end : ℕ) → PayloadAt i start end → payload_span i ≡ some (start, end)
unfolding PayloadAt payload_span
payload_span-PayloadAt (Insn.packed_switch r at k targets) start end (p, q) = rw (p, q) refl
payload_span-PayloadAt (Insn.sparse_switch r at keys targets) start end (p, q) = rw (p, q) refl
payload_span-PayloadAt (Insn.fill_array_data r at d) start end (p, q) =
    rw (p, q, payload_words-eq-element_units d) refl
payload_span-PayloadAt i start end h = absurd h

PayloadAt-payload_span :
    (i : Insn) (start end : ℕ) → payload_span i ≡ some (start, end) → PayloadAt i start end
unfolding PayloadAt payload_span
PayloadAt-payload_span (Insn.packed_switch r at k targets) start end h = (cc, cc)
PayloadAt-payload_span (Insn.sparse_switch r at keys targets) start end h = (cc, cc)
PayloadAt-payload_span (Insn.fill_array_data r at d) start end h =
    (cc, cc (payload_words-eq-element_units d))
PayloadAt-payload_span i start end h = cc

pub mem-find_skip :
    (pc : ℕ) (skips : List (ℕ × ℕ)) (end : ℕ) → find_skip pc skips ≡ some end → Memᴰ (pc, end) skips
unfolding find_skip
mem-find_skip pc [] end h = absurd (cc)
mem-find_skip pc ((start, stop) ∷ skips) end h = elim (Bool-cases (start == pc)) [
  | inl t ↦
      (let q : some stop ≡ some end = rw t at h in
        let same : start ≡ pc = ground (arith, t) in Memᴰ.head (cc))
  | inr f ↦
      (let q : find_skip pc skips ≡ some end = rw f at h in
        Memᴰ.tail (mem-find_skip pc skips end q))
]

pub not-mem_of_find_skip :
    (pc : ℕ) (skips : List (ℕ × ℕ)) (end : ℕ) → find_skip pc skips ≡ none → ¬ Memᴰ (pc, end) skips
unfolding find_skip
not-mem_of_find_skip pc [] end h m = Memᴰ.not-nil m
not-mem_of_find_skip pc ((start, stop) ∷ skips) end h m = elim (Bool-cases (start == pc)) [
  | inl t ↦ (let q : some stop ≡ none = rw t at h in absurd (cc))
  | inr f ↦
      (let q : find_skip pc skips ≡ none = rw f at h in
        elim (Memᴰ.cases_cons m) [
          | inl e ↦
              (let same : pc ≡ start = ap (λ p. p.0) e in
                let yes' : (start == pc) ≡ true = ground (arith, same) in absurd (cc))
          | inr later ↦ not-mem_of_find_skip pc skips end q later
        ])
]

-- The spans to skip are those of the payloads of the instructions so far.
pub record AreSpans (insns_before : List Insn) (skips : List (ℕ × ℕ)) : Type 0 where
  pub sound :
      (start end : ℕ)
      → Memᴰ (start, end) skips
      → (i : Insn) × Memᴰ i insns_before × PayloadAt i start end
  pub complete :
      (i : Insn) (start end : ℕ)
      → Memᴰ i insns_before
      → PayloadAt i start end
      → Memᴰ (start, end) skips

pub AreSpans-push :
    (vs : List Insn) (skips : List (ℕ × ℕ)) (insn : Insn)
    → AreSpans vs skips
    → AreSpans (vs ++ insn ∷ []) (push_span skips (payload_span insn))
AreSpans-push vs skips insn spans = elim (Option-cases (payload_span insn)) [
  | inl e ↦ rw e (record {
    sound = λ start end m.
        let (i, there, at) = spans.sound start end m in (i, Memᴰ.append_left _ there, at);
    complete = λ i start end m at. elim ((mem-append i vs (insn ∷ [])).0 m) [
      | inl old ↦ spans.complete i start end old at
      | inr last ↦
          (let same : i ≡ insn = Memᴰ.eq_of_singleton last in
            let span : payload_span i ≡ some (start, end) = payload_span-PayloadAt i start end at in
            let no : none ≡ some (start, end) = sym e ∙ ap payload_span (sym same) ∙ span in
            absurd (cc))
    ];
  })
  | inr (span, e) ↦ rw e (record {
    sound = λ start end m. elim ((mem-append (start, end) skips (span ∷ [])).0 m) [
      | inl old ↦
          (let (i, there, at) = spans.sound start end old in (i, Memᴰ.append_left _ there, at))
      | inr last ↦
          (let same : (start, end) ≡ span = Memᴰ.eq_of_singleton last in
            (
              insn,
              Memᴰ.append_right vs (Memᴰ.head refl),
              PayloadAt-payload_span insn start end (e ∙ ap some (sym same)),
            ))
    ];
    complete = λ i start end m at. elim ((mem-append i vs (insn ∷ [])).0 m) [
      | inl old ↦ Memᴰ.append_left _ (spans.complete i start end old at)
      | inr last ↦
          (let same : i ≡ insn = Memᴰ.eq_of_singleton last in
            let found : some (start, end) ≡ some span =
              sym (payload_span-PayloadAt i start end at) ∙ ap payload_span same ∙ e in
            Memᴰ.append_right skips (Memᴰ.head (cc)))
    ];
  })
]
