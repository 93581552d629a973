-- ===== src/Dex/Insn/Tiling/Whole.antt =====
-- `decode_all` of src/dex/insn.rs: it ends, and what it records tiles the code.
use dexvm.Prelude.{
  ℕ, zero, suc, ◌+◌, ◌-◌, ◌≤◌, ◌<◌, ◌≡◌, refl, sym, arith, List, [], ◌∷◌, ◌++◌, false, ok, err,
  stuck, length, ltb, Bool-cases, Option-cases, ◌⊎◌, inl, inr, mem-append,
}
use mathlib.Core.Path.{subst}
use mathlib.Core.List.{Memᴰ}
use mathlib.Core.List.Memᴰ
use dexvm.Dex.Error.{DexResult, ◌>>=◌}
use dexvm.Dex.Ensures.{Ensures, returns, fails}
use dexvm.Dex.Insn.{Insn}
use dexvm.Dex.Insn.Payload.{payload_span}
use dexvm.Dex.Insn.Spans.{SpanFits}
use dexvm.Dex.Insn.Scan.{Fits, find_skip_lem, Fits-push_span, decode_lem}
use dexvm.Dex.Insn.Decode.{decode, Scanned, find_skip, push_span, push, scan_loop, decode_all}
use dexvm.Dex.Insn.Tiling.{PayloadAt, none_there, payload, IsCode, IsTiling, IsRefused, Tiles}
use dexvm.Dex.Insn.Tiling.Payloads.{mem-find_skip, not-mem_of_find_skip, AreSpans, AreSpans-push}

-- An instruction behind `v` in front of the others, or among them.
shifted :
    (before vs : List Insn) (v i : Insn)
    → Memᴰ i (before ++ v ∷ []) ⊎ Memᴰ i vs
    → Memᴰ i before ⊎ Memᴰ i (v ∷ vs)
shifted before vs v i (inr m) = inr (Memᴰ.tail m)
shifted before vs v i (inl m) = elim ((mem-append i before (v ∷ [])).0 m) [
  | inl old ↦ inl old
  | inr last ↦ inr (Memᴰ.head (Memᴰ.eq_of_singleton last))
]

shifted_back :
    (before vs : List Insn) (v i : Insn)
    → Memᴰ i before ⊎ Memᴰ i (v ∷ vs)
    → Memᴰ i (before ++ v ∷ []) ⊎ Memᴰ i vs
shifted_back before vs v i (inl m) = inl (Memᴰ.append_left _ m)
shifted_back before vs v i (inr m) = elim (Memᴰ.cases_cons m) [
  | inl e ↦ inl (Memᴰ.append_right before (Memᴰ.head e))
  | inr later ↦ inr later
]

module _ (insns : List ℕ) where
  IsTiling-push :
      (before : List Insn) (lo : ℕ) (vs : List Insn) (us ss : List ℕ) (pc n : ℕ) (insn : Insn)
      → IsTiling insns before lo vs us ss pc
      → ((i : Insn) (end : ℕ) → Memᴰ i before ⊎ Memᴰ i vs → ¬ PayloadAt i pc end)
      → pc < length insns
      → 0 < n
      → decode insns pc ≡ ok (insn, pc + n)
      → IsTiling insns before lo (vs ++ insn ∷ []) (us ++ pc ∷ []) (ss ++ n ∷ []) (pc + n)
  IsTiling-push before lo [] [] [] pc n insn p code inside pos e =
      (p, (λ i end m. code i end (inl m)), inside, pos, e, none_there refl)
  IsTiling-push before lo (v ∷ vs) (u ∷ us) (s ∷ ss) pc n insn (a, b, c, d, f, rest) code inside pos
        e =
      (
        a,
        b,
        c,
        d,
        f,
        IsTiling-push (before ++ v ∷ []) (u + s) vs us ss pc n insn rest
            (λ i end m. code i end (shifted before vs v i m)) inside pos e,
      )
  IsTiling-push before lo vs us ss pc n insn p code inside pos e = absurd p

  IsTiling-skip :
      (before : List Insn) (lo : ℕ) (vs : List Insn) (us ss : List ℕ) (pc end : ℕ) (i : Insn)
      → IsTiling insns before lo vs us ss pc
      → Memᴰ i before ⊎ Memᴰ i vs
      → PayloadAt i pc end
      → IsTiling insns before lo vs us ss end
  IsTiling-skip before lo [] [] [] pc end i p (inl m) at = payload i p m at
  IsTiling-skip before lo [] [] [] pc end i p (inr m) at = absurd (Memᴰ.not-nil m)
  IsTiling-skip before lo (v ∷ vs) (u ∷ us) (s ∷ ss) pc end i (a, b, c, d, f, rest) m at = (
    a,
    b,
    c,
    d,
    f,
    IsTiling-skip (before ++ v ∷ []) (u + s) vs us ss pc end i rest (shifted_back before vs v i m)
        at,
  )
  IsTiling-skip before lo vs us ss pc end i p m at = absurd p

  -- How the loop ends.
  abbrev Ends : DexResult Scanned → Type 0
  Ends (ok a) = IsTiling insns [] 0 a.v a.u a.s (length insns)
  Ends (err e) = IsRefused insns e
  Ends stuck = ⊥

  -- What holds in each round.
  record IsLoop (pc : ℕ) (skips : List (ℕ × ℕ)) (a : Scanned) : Type 0 where
    inside : pc ≤ length insns
    fits : Fits insns skips
    spans : AreSpans a.v skips
    tiled : IsTiling insns [] 0 a.v a.u a.s pc

  abbrev Decodes : ℕ → Insn × ℕ → Type 0
  Decodes pc r =
      (decode insns pc ≡ ok r)
      × (pc < r.1)
      × (r.1 ≤ length insns)
      × SpanFits (length insns) (payload_span r.0)

  Ends-decode :
      (pc : ℕ) (a : Scanned) (r : DexResult (Insn × ℕ)) (k : Insn × ℕ → DexResult Scanned)
      → decode insns pc ≡ r
      → Ensures (Decodes pc) r
      → IsTiling insns [] 0 a.v a.u a.s pc
      → IsCode a.v pc
      → pc < length insns
      → ((p : Insn × ℕ) → Decodes pc p → Ends (k p))
      → Ends (r >>= k)
  Ends-decode pc a (ok p) k e (returns h) tiled code inside next = next p h
  Ends-decode pc a (err x) k e fails tiled code inside next = record {
    insns_before = a.v;
    units = a.u;
    sizes = a.s;
    pc = pc;
    tiled = tiled;
    is_code = code;
    inside = inside;
    refused = e;
  }
  Ends-decode pc a stuck k e ends tiled code inside next = elim ends [ ]

  IsLoop-push :
      (pc : ℕ) (skips : List (ℕ × ℕ)) (a : Scanned) (p : Insn × ℕ)
      → IsLoop pc skips a
      → IsCode a.v pc
      → pc < length insns
      → Decodes pc p
      → IsLoop p.1 (push_span skips (payload_span p.0)) (push insns a pc p.0 p.1)
  unfolding push
  IsLoop-push pc skips a (insn, next) l code h (same, after, inside', span) =
      let n : next ≡ pc + (next - pc) = omega arith in
      record {
        inside = inside';
        fits = Fits-push_span insns skips (payload_span insn) l.fits span;
        spans = AreSpans-push a.v skips insn l.spans;
        tiled =
            subst
              (IsTiling insns [] 0 (a.v ++ insn ∷ []) (a.u ++ pc ∷ []) (a.s ++ (next - pc) ∷ []))
              (sym n)
              (IsTiling-push [] 0 a.v a.u a.s pc (next - pc) insn l.tiled
                (λ i end m at. elim m [
                  | inl none' ↦ absurd (Memᴰ.not-nil none')
                  | inr there ↦ code i end there at
                ])
                h (omega arith) (rw (sym n) same));
      }

  scan_loop_lem :
      (fuel pc : ℕ) (skips : List (ℕ × ℕ)) (a : Scanned)
      → IsLoop pc skips a
      → length insns ≤ pc + fuel
      → Ends (scan_loop insns fuel pc skips a)
  unfolding scan_loop
  scan_loop_lem zero pc skips a l enough =
      let done : ltb pc (length insns) ≡ false = ground (arith, l.inside) in
      let whole : pc ≡ length insns = omega (arith, l.inside) in
      rw (done, scan_loop) (subst (IsTiling insns [] 0 a.v a.u a.s) whole l.tiled)
  scan_loop_lem (suc fuel) pc skips a l enough = elim (Bool-cases (ltb pc (length insns))) [
    | inr done ↦
        (let whole : pc ≡ length insns = ground (arith, done, l.inside) in
          rw (done, scan_loop) (subst (IsTiling insns [] 0 a.v a.u a.s) whole l.tiled))
    | inl more ↦
        (let h : pc < length insns = ground (arith, more) in
          rw (more, scan_loop)
            (elim (Option-cases (find_skip pc skips)) [
              | inr (end, e) ↦
                  (let jump : (pc < end) × (end ≤ length insns) =
                      find_skip_lem insns pc skips l.fits e in
                    let (i, there, at) = l.spans.sound pc end (mem-find_skip pc skips end e) in
                    rw (e, scan_loop)
                      (scan_loop_lem fuel end skips a
                        (record {
                          inside = jump.1;
                          fits = l.fits;
                          spans = l.spans;
                          tiled = IsTiling-skip [] 0 a.v a.u a.s pc end i l.tiled (inr there) at;
                        })
                        (omega (arith, jump.0))))
              | inl e ↦
                  (let code : IsCode a.v pc = λ i end m at.
                      not-mem_of_find_skip pc skips end e (l.spans.complete i pc end m at) in
                    rw (e, scan_loop)
                      (Ends-decode pc a (decode insns pc) _ refl (decode_lem insns pc h) l.tiled
                        code h
                        (λ p d.
                          scan_loop_lem fuel p.1 (push_span skips (payload_span p.0))
                            (push insns a pc p.0 p.1) (IsLoop-push pc skips a p l code h d)
                            (omega (arith, d)))))
            ]))
  ]

  Ends-Tiles :
      (r : DexResult Scanned)
      → Ends r
      → Tiles insns
          (r >>= λ a. ok (record { insns = a.v; units = a.u; sizes = a.s; words = length insns }))
  Ends-Tiles (ok a) h = (refl, h)
  Ends-Tiles (err e) h = h
  Ends-Tiles stuck h = absurd h

-- `decode_all` ends on every code. What it returns tiles the code: its vectors list instructions that were
-- decoded at their units, inside the code and at no start of an earlier instruction's payload, with sizes
-- above 0, and all units of the code that belong to none of them are payloads of earlier instructions. It
-- gives an error only where such a list leads up to a unit at which `decode` gives that error.
pub decode_all-Tiles : (insns : List ℕ) → Tiles insns (decode_all insns)
unfolding decode_all
decode_all-Tiles insns = Ends-Tiles insns _ (
    scan_loop_lem insns (length insns) 0 [] (record { v = []; u = []; s = [] })
      (record {
        inside = omega arith;
        fits = tt;
        spans = record {
          sound = λ start end m. absurd (Memᴰ.not-nil m);
          complete = λ i start end m at. absurd (Memᴰ.not-nil m);
        };
        tiled = none_there refl;
      })
      (omega arith))
