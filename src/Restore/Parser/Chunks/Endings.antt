-- ===== src/Restore/Parser/Chunks/Endings.antt =====
-- How the last call of a run ends, when the rest of the input is scanned as a whole.
use dbgate_mysql_dumper.Base.{
  suc, [], ◌∷◌, ◌++◌, List, ◌≡◌, Bytes, length, refl, sym, ap, subst, arith, true, false,
}
use dbgate_mysql_dumper.Restore.Parser.State.{Result, ok, err, Parser, ParsedStatement}
use dbgate_mysql_dumper.Restore.Parser.Step.{Scan, advance, step, flush_statement}
use dbgate_mysql_dumper.Restore.Parser.Scan.{
  scan, start, stop, finish, stream_from, finish_scanned, must_close, Output,
}
use dbgate_mysql_dumper.Restore.Parser.Chunks.{view}
use dbgate_mysql_dumper.Restore.Parser.Chunks.Appending.{flush_statement-view}
use dbgate_mysql_dumper.Restore.Parser.Chunks.Prefix.{Safe}
use dbgate_mysql_dumper.Restore.Parser.Chunks.Stable.{step-Stable}
use dbgate_mysql_dumper.Restore.Parser.Chunks.StableCases.{Stable}
use dbgate_mysql_dumper.Restore.Parser.Chunks.Holding.{step-hold}
use dbgate_mysql_dumper.Restore.Parser.Chunks.Scans.{
  Scans, ends, goes, waits, Sound, step-Sound, view_result-ok,
}
use dbgate_mysql_dumper.Restore.Parser.Chunks.Runs.{Scans-view}
use dbgate_mysql_dumper.Restore.Parser.Chunks.Succeeds.{Scans-advance, scan_loop-completes}
use dbgate_mysql_dumper.Restore.Parser.Chunks.Calls.{Scans-Sound, outcome, output-ok, guarded-ok}

-- The rest of a scan of the whole input, from where the scan of its first part stops.
pub Scans-rest :
    (s t u : Scan) (text more : Bytes)
    → Scans false s text t
    → Scans true s (text ++ more) u
    → Sound s
    → Safe text
    → (reached : Scan) × (rest : Bytes) × Sound reached
      × (stop reached rest ≡ ok t)
      × Scans true reached (rest ++ more) u
Scans-rest s t u [] more (ends e) w h safe = (s, [], h, e, w)
Scans-rest s t u (c ∷ r) more (goes s' rest e d) w h safe =
    let stable : Stable more (advance s' rest) (step s c (r ++ more) true) =
      subst (λ x. Stable more x (step s c (r ++ more) true)) e (step-Stable s c r more true safe) in
    Scans-rest s' t u rest more d
      (Scans-advance true s s' u c (r ++ more) (rest ++ more) w stable.0)
      (step-Sound s s' c r rest false h e) stable.1
Scans-rest s t u (c ∷ r) more (waits s' e k) w h safe =
    (s, c ∷ r, h, subst (λ x. stop x (c ∷ r) ≡ ok t) (step-hold s s' c r false h.tidy e) k, w)

outcome-ok :
    (m : Result Output) (all : List ParsedStatement)
    → outcome m ≡ ok all
    → (x : Output) × (m ≡ ok x)
outcome-ok (ok x) all e = (x, refl)
outcome-ok (err x) all e = cc

finish_scanned-succeeds :
    (earlier : List ParsedStatement) (s j : Scan) (x : Output)
    → view [] j ≡ view earlier s
    → j.pending ≡ []
    → s.pending ≡ []
    → finish_scanned j ≡ ok x
    → (y : Output) × (finish_scanned s ≡ ok y)
unfolding finish_scanned
finish_scanned-succeeds earlier s j (statements, p) h k l e =
    let s0 = record s { parser = record s.parser { carry = [] } } in
    let j0 = record j { parser = record j.parser { carry = [] } } in
    let states : j.parser.state ≡ s.parser.state = ap (λ (x : Scan). x.parser.state) h in
    let (closed, e') = guarded-ok (must_close j.parser.state) _ _ e in
    let (f, flushed, _, _) = output-ok (flush_statement j0) p statements e' in
    let (g, flushed', _) =
      view_result-ok [] earlier f (flush_statement s0)
        (rw flushed at (flush_statement-view [] earlier j0 s0 h k l)) in
    ((g.emitted, g.parser), ground (arith, states, closed, flushed'))

-- A run over the rest of an input that is scanned with no error as a whole.
abbrev pub Runs : Parser → List Bytes → Type 0
Runs p chunks = (statements : List ParsedStatement) × (stream_from p chunks ≡ ok statements)

pub finish-Runs :
    (earlier : List ParsedStatement) (p : Parser) (i j : Scan) (all : List ParsedStatement)
    → Sound (start p)
    → Sound i
    → p.finished ≡ false
    → view earlier (start p) ≡ view [] i
    → Scans true i p.carry j
    → outcome (finish_scanned j) ≡ ok all
    → Runs p []
unfolding stream_from finish scan
finish-Runs earlier p i j all h k unfinished same d e =
    let last = record p { finished = true } in
    let sound : Sound (start last) = record {
      index = h.index;
      line = h.line;
      inv = ground (arith, h.inv);
      tidy = h.tidy;
    } in
    let (s, d', views, _) =
      Scans-view [] earlier true i (start last) j p.carry d k sound (sym same) in
    let (x, finished) = outcome-ok (finish_scanned j) all e in
    let ((statements, p'), finished') =
      finish_scanned-succeeds earlier s j x views (Scans-Sound true i j p.carry d k).1
        (Scans-Sound true (start last) s p.carry d' sound).1 finished in
    let scanned =
      scan_loop-completes (suc (length p.carry)) (start last) s p.carry d' sound (omega arith) in
    (statements, ground (arith, unfinished, scanned, finished'))
