-- ===== src/Restore/Parser/Chunks/Calls.antt =====
-- The calls of a run that succeed, as scans.
use dbgate_mysql_dumper.Base.{
  [], ◌∷◌, ◌++◌, List, ◌≡◌, ◌≢◌, ◌⊎◌, Bytes, length, refl, sym, ap, arith, inl, inr, Bool, true,
  false, eq_nil_of_length, ◌==◌, ==_iff, if◌then◌else◌,
}
use dbgate_mysql_dumper.Restore.Parser.State.{ParseError, Result, ok, err, Parser, ParsedStatement}
use dbgate_mysql_dumper.Restore.Parser.Step.{Scan, flush_statement}
use dbgate_mysql_dumper.Restore.Parser.Scan.{
  scan, start, push, finish, finish_scanned, must_close, output, counted, Output,
}
use dbgate_mysql_dumper.Restore.Parser.Chunks.{view, forget_all}
use dbgate_mysql_dumper.Restore.Parser.Chunks.Appending.{flush_statement-view}
use dbgate_mysql_dumper.Restore.Parser.Chunks.Scans.{
  Scans, ends, goes, waits, scan_loop-Scans, Sound, step-Sound, stop-Stopped, bind-ok, ok_injective,
  view_result-ok,
}
use dbgate_mysql_dumper.Restore.Parser.Chunks.Runs.{hold-Sound}
use dbgate_mysql_dumper.Restore.Parser.Invariant.Streams.{line_of}

pub Scans-Sound :
    (at_end : Bool) (s t : Scan) (text : Bytes)
    → Scans at_end s text t
    → Sound s
    → Sound t × (t.pending ≡ [])
Scans-Sound at_end s t [] (ends e) h =
    let final = stop-Stopped s t [] h e in (final.sound, final.pending)
Scans-Sound at_end s t (c ∷ r) (goes s' rest e d) h =
    Scans-Sound at_end s' t rest d (step-Sound s s' c r rest at_end h e)
Scans-Sound at_end s t (c ∷ r) (waits s' e k) h =
    let final = stop-Stopped s' t (c ∷ r) (hold-Sound s s' c r at_end h e) k in
    (final.sound, final.pending)

-- The next call starts with the parser that this one leaves.
pub start-Sound : (s : Scan) → Sound s → Sound (start s.parser)
start-Sound s h = record {
  index = s.parser.next_statement_index;
  line = line_of s.parser;
  inv = ground (arith, h.inv);
  tidy = (inr refl, h.tidy.1);
}

pub output-ok :
    (m : Result Scan) (p : Parser) (statements : List ParsedStatement)
    → output m ≡ ok (statements, p)
    → (s : Scan) × (m ≡ ok s) × (s.emitted ≡ statements) × (s.parser ≡ p)
output-ok (ok s) p statements e =
    let same = ok_injective e in (s, refl, ap (λ x. x.0) same, ap (λ x. x.1) same)
output-ok (err x) p statements e = cc

pub guarded-ok {ℓ} :
    {A : Type ℓ} (test : Bool) (x : ParseError) (m : Result A) {a : A}
    → (if test then err x else m) ≡ ok a
    → (test ≡ false) × (m ≡ ok a)
guarded-ok true x m e = cc
guarded-ok false x m e = (refl, e)

-- The call in which a chunk is scanned, or is empty.
abbrev Pushed : Parser → Bytes → List ParsedStatement → Parser → Type 0
Pushed p chunk first p' =
    ((chunk ≡ []) × (first ≡ []) × (p' ≡ p))
    ⊎ ((s : Scan) × Scans false (start (counted p chunk)) (p.carry ++ chunk) s
        × (s.emitted ≡ first)
        × (s.parser ≡ p')
        × (chunk ≢ []))

push_unless_empty-Pushed :
    (p p' : Parser) (chunk : Bytes) (first : List ParsedStatement) (empty : Bool)
    → (length chunk == 0) ≡ empty
    → (if empty then ok ([], p) else output (scan (counted p chunk) (p.carry ++ chunk) false))
      ≡ ok (first, p')
    → Pushed p chunk first p'
unfolding scan
push_unless_empty-Pushed p p' chunk first true h e =
    let same = ok_injective e in
    inl (
      eq_nil_of_length chunk ((==_iff (length chunk) 0).0 h),
      sym (ap (λ x. x.0) same),
      sym (ap (λ x. x.1) same),
    )
push_unless_empty-Pushed p p' chunk first false h e =
    let (s, scanned, statements, parser) =
      output-ok (scan (counted p chunk) (p.carry ++ chunk) false) p' first e in
    inr (
      s,
      scan_loop-Scans _ (start (counted p chunk)) _ false scanned,
      statements,
      parser,
      (λ n. ground (arith, n, h)),
    )

pub push-Pushed :
    (p p' : Parser) (chunk : Bytes) (first : List ParsedStatement)
    → push p chunk ≡ ok (first, p')
    → Pushed p chunk first p'
unfolding push
push-Pushed p p' chunk first e =
    push_unless_empty-Pushed p p' chunk first (length chunk == 0) refl
      (guarded-ok p.finished _ _ e).1

pub finish-Scans :
    (p p' : Parser) (statements : List ParsedStatement)
    → finish p ≡ ok (statements, p')
    → (s : Scan) × Scans true (start (record p { finished = true })) p.carry s
      × (finish_scanned s ≡ ok (statements, p'))
unfolding finish scan
finish-Scans p p' statements e =
    let last = record p { finished = true } in
    let (_, e') = guarded-ok p.finished _ _ e in
    let (s, scanned, finished) = bind-ok (scan last p.carry true) finish_scanned e' in
    (s, scan_loop-Scans _ (start last) p.carry true scanned, finished)

-- The statements that a scan of the whole input ends with.
abbrev pub outcome : Result Output → Result (List ParsedStatement)
outcome (ok (statements, p)) = ok (forget_all statements)
outcome (err e) = err e

pub finish_scanned-outcome :
    (earlier : List ParsedStatement) (s j : Scan) (p : Parser) (statements : List ParsedStatement)
    → view earlier s ≡ view [] j
    → s.pending ≡ []
    → j.pending ≡ []
    → finish_scanned s ≡ ok (statements, p)
    → outcome (finish_scanned j) ≡ ok (forget_all (earlier ++ statements))
unfolding finish_scanned
finish_scanned-outcome earlier s j p statements h k l e =
    let s0 = record s { parser = record s.parser { carry = [] } } in
    let j0 = record j { parser = record j.parser { carry = [] } } in
    let states : s.parser.state ≡ j.parser.state = ap (λ (x : Scan). x.parser.state) h in
    let (closed, e') = guarded-ok (must_close s.parser.state) _ _ e in
    let (f, flushed, emitted, _) = output-ok (flush_statement s0) p statements e' in
    let (g, flushed', same) =
      view_result-ok earlier [] f (flush_statement j0)
        (rw flushed at (flush_statement-view earlier [] s0 j0 h k l)) in
    let all : forget_all (earlier ++ f.emitted) ≡ forget_all g.emitted =
      ap (λ (x : Scan). x.emitted) same in
    ground (arith, states, closed, flushed', emitted, all)
