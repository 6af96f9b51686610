-- ===== src/Restore/Parser/Chunks/Succeeds.antt =====
-- Scans of a part of the input, against a scan of the whole.
use dbgate_mysql_dumper.Base.{
  ℕ, zero, suc, ◌≤◌, ◌<◌, [], ◌∷◌, ◌++◌, ◌≡◌, ◌⊎◌, Bytes, length, refl, sym, ap, ◌∙◌, subst, arith,
  inl, inr, Bool, true, false,
}
use dbgate_mysql_dumper.Restore.Parser.State.{ParseError, Result, ok}
use dbgate_mysql_dumper.Restore.Parser.Step.{Scan, Step, advance, hold, fail, step}
use dbgate_mysql_dumper.Restore.Parser.Scan.{scan_loop, stop, resume}
use dbgate_mysql_dumper.Restore.Parser.Chunks.Prefix.{Safe}
use dbgate_mysql_dumper.Restore.Parser.Chunks.Stable.{step-Stable}
use dbgate_mysql_dumper.Restore.Parser.Chunks.StableCases.{Stable}
use dbgate_mysql_dumper.Restore.Parser.Chunks.Holding.{step-hold}
use dbgate_mysql_dumper.Restore.Parser.Invariant.{Good}
use dbgate_mysql_dumper.Restore.Parser.Invariant.Rounds.{step-Good}
use dbgate_mysql_dumper.Restore.Parser.Chunks.Scans.{
  Scans, ends, goes, waits, Sound, Sound-Counts, step-Sound,
}
use dbgate_mysql_dumper.Restore.Parser.Chunks.Runs.{advance-injective}
use dbgate_mysql_dumper.Restore.Parser.Chunks.Overflow.{Scans-Over, stop-succeeds}

Step-cases :
    (t : Step)
    → ((s : Scan) × (rest : Bytes) × (t ≡ advance s rest))
      ⊎ (((s : Scan) × (t ≡ hold s)) ⊎ ((e : ParseError) × (t ≡ fail e)))
Step-cases (advance s rest) = inl (s, rest, refl)
Step-cases (hold s) = inr (inl (s, refl))
Step-cases (fail e) = inr (inr (e, refl))

hold_is_no_advance : (a b : Scan) (rest : Bytes) → hold a ≡ advance b rest → ⊥
hold_is_no_advance a b rest e = ground (arith, e)

hold_is_no_fail : (a : Scan) (x : ParseError) → hold a ≡ fail x → ⊥
hold_is_no_fail a x e = ground (arith, e)

advance_is_no_fail : (a : Scan) (rest : Bytes) (x : ParseError) → advance a rest ≡ fail x → ⊥
advance_is_no_fail a rest x e = ground (arith, e)

-- The scan goes on as the step says.
pub Scans-advance :
    (at_end : Bool) (s s' t : Scan) (c : ℕ) (r rest : Bytes)
    → Scans at_end s (c ∷ r) t
    → step s c r at_end ≡ advance s' rest
    → Scans at_end s' rest t
Scans-advance at_end s s' t c r rest (goes a x e d) k =
    let (same, rests) = advance-injective a s' x rest (sym e ∙ k) in
    subst (λ z. Scans at_end s' z t) rests (subst (λ z. Scans at_end z x t) same d)
Scans-advance at_end s s' t c r rest (waits a e d) k =
    absurd (hold_is_no_advance a s' rest (sym e ∙ k))

Scans-fail :
    (at_end : Bool) (s t : Scan) (c : ℕ) (r : Bytes) (x : ParseError)
    → Scans at_end s (c ∷ r) t
    → step s c r at_end ≡ fail x
    → ⊥
Scans-fail at_end s t c r x (goes a y e d) k = advance_is_no_fail a y x (sym e ∙ k)
Scans-fail at_end s t c r x (waits a e d) k = hold_is_no_fail a x (sym e ∙ k)

shorter :
    (s s' : Scan) (c : ℕ) (r rest : Bytes) (at_end : Bool)
    → Sound s
    → step s c r at_end ≡ advance s' rest
    → length rest ≤ length r
shorter s s' c r rest at_end h e =
    (subst (Good h.index h.line r) e (step-Good s c r at_end h.inv)).1

resume-eq :
    (loop : Scan → Bytes → Result Scan) (text : Bytes) (t t' : Step)
    → t ≡ t'
    → resume loop text t ≡ resume loop text t'
resume-eq loop text t t' e = ap (resume loop text) e

-- A part of an input that is scanned with no error is scanned with no error.
pub scan_loop-succeeds :
    (fuel : ℕ) (s j : Scan) (text more : Bytes)
    → Scans true s (text ++ more) j
    → Sound s
    → Safe text
    → length text < fuel
    → (t : Scan) × (scan_loop fuel s text false ≡ ok t)
unfolding scan_loop resume
scan_loop-succeeds zero s j text more d h safe n = absurd (omega arith)
scan_loop-succeeds (suc fuel) s j [] more d h safe n =
    stop-succeeds s [] (Scans-Over true s j more d h).0 (Sound-Counts s h)
scan_loop-succeeds (suc fuel) s j (c ∷ r) more d h safe n =
    let loop : Scan → Bytes → Result Scan = λ x y. scan_loop fuel x y false in
    let stable = step-Stable s c r more true safe in
    elim (Step-cases (step s c r false)) [
      | inl (s', rest, e) ↦
          let (whole, safe') = subst (λ x. Stable more x (step s c (r ++ more) true)) e stable in
          let d' = Scans-advance true s s' j c (r ++ more) (rest ++ more) d whole in
          let (t, k) =
            scan_loop-succeeds fuel s' j rest more d' (step-Sound s s' c r rest false h e) safe'
              (omega (arith, shorter s s' c r rest false h e)) in
          (t, ap (resume loop (c ∷ r)) e ∙ k)
      | inr (inl (s', e)) ↦
          let (t, k) =
            stop-succeeds s (c ∷ r) (Scans-Over true s j (c ∷ r ++ more) d h).0
              (Sound-Counts s h) in
          (
            t,
            ap (resume loop (c ∷ r)) e
                ∙ (ap (λ x. stop x (c ∷ r)) (step-hold s s' c r false h.tidy e) ∙ k),
          )
      | inr (inr (x, e)) ↦
          let whole = subst (λ x. Stable more x (step s c (r ++ more) true)) e stable in
          absurd (Scans-fail true s j c (r ++ more) x d whole)
    ]

-- The scan of the whole input ends as the relation says.
pub scan_loop-completes :
    (fuel : ℕ) (s j : Scan) (text : Bytes)
    → Scans true s text j
    → Sound s
    → length text < fuel
    → scan_loop fuel s text true ≡ ok j
unfolding scan_loop resume
scan_loop-completes zero s j text d h n = absurd (omega arith)
scan_loop-completes (suc fuel) s j [] (ends e) h n = e
scan_loop-completes (suc fuel) s j (c ∷ r) (goes s' rest e d) h n =
    ap (resume (λ x y. scan_loop fuel x y true) (c ∷ r)) e
    ∙ scan_loop-completes fuel s' j rest d (step-Sound s s' c r rest true h e)
        (omega (arith, shorter s s' c r rest true h e))
scan_loop-completes (suc fuel) s j (c ∷ r) (waits s' e k) h n =
    ap (resume (λ x y. scan_loop fuel x y true) (c ∷ r)) e ∙ k
