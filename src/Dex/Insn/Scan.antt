-- ===== src/Dex/Insn/Scan.antt =====
-- `decode_all` of src/dex/insn.rs: the instructions that it records stand in their order.
use dexvm.Prelude.{ℕ, zero, suc, ◌+◌, ◌-◌, ◌≤◌, ◌<◌, ◌≡◌, refl, arith, List, [], ◌∷◌, ◌++◌}
use dexvm.Prelude.{Option, none, some, false, ok, length, All, get_or}
use dexvm.Prelude.{sym, ltb, Bool-cases, Option-cases, inl, inr, get_elem?-eq-get_or, ◌==◌}
use mathlib.Core.Path.{subst}
use dexvm.Dex.Ensures.{Ensures, returns, Ensures-bind, Ensures-mono, Ensures-self}
use dexvm.Dex.Insn.{Insn}
use dexvm.Dex.Insn.Payload.{payload_span}
use dexvm.Dex.Insn.Spans.{SpanFits}
use dexvm.Dex.Insn.Formats.{format_units}
use dexvm.Dex.Insn.Basic.{op_of}
use dexvm.Dex.Insn.Bounds.{decode-Decodes}
use dexvm.Dex.Insn.Decode.{decode, Scanned, find_skip, push_span, push, scan_loop, decode_all}

-- The three vectors describe instructions of the code from `lo` to `hi`: each was decoded at its unit
-- with its size, takes at least one unit, and ends before the next begins.
abbrev pub IsScan : List ℕ → ℕ → List Insn → List ℕ → List ℕ → ℕ → Type 0
IsScan insns lo [] [] [] hi = lo ≤ hi
IsScan insns lo (v ∷ vs) (u ∷ us) (s ∷ ss) hi =
    (lo ≤ u) × (0 < s) × (decode insns u ≡ ok (v, u + s)) × IsScan insns (u + s) vs us ss hi
IsScan insns lo vs us ss hi = ⊥

module _ (insns : List ℕ) where
  IsScan-mono :
      (lo : ℕ) (vs : List Insn) (us ss : List ℕ) (h h' : ℕ)
      → h ≤ h'
      → IsScan insns lo vs us ss h
      → IsScan insns lo vs us ss h'
  IsScan-mono lo [] [] [] h h' le p = omega arith
  IsScan-mono lo (v ∷ vs) (u ∷ us) (s ∷ ss) h h' le (a, b, c, d) =
      (a, b, c, IsScan-mono (u + s) vs us ss h h' le d)
  IsScan-mono lo vs us ss h h' le p = absurd p

  IsScan-push :
      (lo : ℕ) (vs : List Insn) (us ss : List ℕ) (pc n : ℕ) (insn : Insn)
      → IsScan insns lo vs us ss pc
      → 0 < n
      → decode insns pc ≡ ok (insn, pc + n)
      → IsScan insns lo (vs ++ insn ∷ []) (us ++ pc ∷ []) (ss ++ n ∷ []) (pc + n)
  IsScan-push lo [] [] [] pc n insn p pos e = (p, pos, e, omega arith)
  IsScan-push lo (v ∷ vs) (u ∷ us) (s ∷ ss) pc n insn (a, b, c, d) pos e =
      (a, b, c, IsScan-push (u + s) vs us ss pc n insn d pos e)
  IsScan-push lo vs us ss pc n insn p pos e = absurd p

  -- The payloads to skip are not empty and lie inside the code.
  abbrev pub Fits : List (ℕ × ℕ) → Type 0
  Fits skips = All (λ span. SpanFits (length insns) (some span)) skips

  pub find_skip_lem :
      (pc : ℕ) (skips : List (ℕ × ℕ)) {end : ℕ}
      → Fits skips
      → find_skip pc skips ≡ some end
      → (pc < end) × (end ≤ length insns)
  unfolding find_skip
  find_skip_lem pc [] h e = absurd (cc)
  find_skip_lem pc ((start, stop) ∷ skips) {end = end} (h, hs) e = elim (Bool-cases (start == pc)) [
    | inl t ↦ (let q : some stop ≡ some end = rw t at e in ground (arith, q, h))
    | inr f ↦ (let q : find_skip pc skips ≡ some end = rw f at e in find_skip_lem pc skips hs q)
  ]

  pub Fits-push_span :
      (skips : List (ℕ × ℕ)) (span : Option (ℕ × ℕ))
      → Fits skips
      → SpanFits (length insns) span
      → Fits (push_span skips span)
  Fits-push_span skips none h s = h
  Fits-push_span [] (some span) h s = (s, tt)
  Fits-push_span (x ∷ skips) (some span) h s = (h.0, Fits-push_span skips (some span) h.1 s)

  format_units-positive : (op : ℕ) → 0 < format_units op
  unfolding format_units
  format_units-positive op = ground arith

  -- An instruction inside the code takes some units of it, and `decode` says which.
  pub decode_lem :
      (pc : ℕ)
      → pc < length insns
      → Ensures
          (λ r.
            (decode insns pc ≡ ok r)
            × (pc < r.1)
            × (r.1 ≤ length insns)
            × SpanFits (length insns) (payload_span r.0))
          (decode insns pc)
  decode_lem pc h =
      Ensures-mono (Ensures-self (decode-Decodes insns pc _ (get_elem?-eq-get_or insns pc 0 h)))
        λ r (e, (wide, inside, span)).
          (e, omega (arith, wide, format_units-positive (op_of (get_or insns pc 0))), inside, span)

  scan_loop_lem :
      (fuel pc : ℕ) (skips : List (ℕ × ℕ)) (a : Scanned)
      → pc ≤ length insns
      → length insns ≤ pc + fuel
      → Fits skips
      → IsScan insns 0 a.v a.u a.s pc
      → Ensures (λ b. IsScan insns 0 b.v b.u b.s (length insns)) (scan_loop insns fuel pc skips a)
  unfolding scan_loop push
  scan_loop_lem zero pc skips a inside enough fits so_far =
      let done : ltb pc (length insns) ≡ false = ground arith in
      rw (done, scan_loop) (returns (IsScan-mono 0 a.v a.u a.s pc (length insns) inside so_far))
  scan_loop_lem (suc fuel) pc skips a inside enough fits so_far =
      elim (Bool-cases (ltb pc (length insns))) [
        | inl more ↦
            (let h : pc < length insns = ground (arith, more) in
              rw (more, scan_loop)
                (elim (Option-cases (find_skip pc skips)) [
                  | inr (end, e) ↦
                      (let jump : (pc < end) × (end ≤ length insns) =
                          find_skip_lem pc skips fits e in
                        rw (e, scan_loop)
                          (scan_loop_lem fuel end skips a jump.1 (omega (arith, jump.0)) fits
                            (IsScan-mono 0 a.v a.u a.s pc end (omega (arith, jump.0)) so_far)))
                  | inl e ↦
                      rw (e, scan_loop)
                        (Ensures-bind (decode_lem pc h)
                          (λ (insn, next) (same, after, inside', span).
                            let n : next ≡ pc + (next - pc) = omega arith in
                            scan_loop_lem fuel next (push_span skips (payload_span insn))
                              (push insns a pc insn next) inside' (omega arith)
                              (Fits-push_span skips (payload_span insn) fits span)
                              (subst
                                (IsScan insns 0 (a.v ++ insn ∷ []) (a.u ++ pc ∷ [])
                                  (a.s ++ (next - pc) ∷ []))
                                (sym n)
                                (IsScan-push 0 a.v a.u a.s pc (next - pc) insn so_far (omega arith)
                                  (rw (sym n) same)))))
                ]))
        | inr done ↦
            rw (done, scan_loop)
              (returns (IsScan-mono 0 a.v a.u a.s pc (length insns) inside so_far))
      ]

-- What `decode_all` returns lists instructions in their order, each decoded at its unit, with its size, and ended
-- before the next.
pub decode_all-IsScan :
    (insns : List ℕ)
    → Ensures
        (λ d. (d.words ≡ length insns) × IsScan insns 0 d.insns d.units d.sizes d.words)
        (decode_all insns)
unfolding decode_all
decode_all-IsScan insns =
    Ensures-bind
      (scan_loop_lem insns (length insns) 0 [] _ (omega arith) (omega arith) tt (omega arith))
      λ a h. returns (refl, h)
