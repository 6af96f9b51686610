-- ===== src/Restore/Parser/Chunks/Cuts.antt =====
-- How runs of the parser on two cuts of one input into chunks compare.
use dbgate_mysql_dumper.Base.{
  suc, [], ◌∷◌, ◌++◌, List, ◌≡◌, ◌≢◌, Bytes, length, join, refl, sym, ◌∙◌, subst, arith, some, true,
  false, append_assoc, append-nil,
}
use dbgate_mysql_dumper.Restore.Parser.State.{
  ok, Parser, ParsedStatement, SqlStatementParserOptions, new_parser,
}
use dbgate_mysql_dumper.Restore.Parser.Step.{Scan}
use dbgate_mysql_dumper.Restore.Parser.Scan.{
  scan, start, push, stream_from, stream_sql_statements, finish_scanned, counted, Output,
}
use dbgate_mysql_dumper.Restore.Parser.Chunks.{view, forget_all}
use dbgate_mysql_dumper.Restore.Parser.Chunks.Prefix.{Safe, Safe-append}
use dbgate_mysql_dumper.Restore.Parser.Chunks.Scans.{Scans, scan_loop-Scans, Sound, stop-Stopped}
use dbgate_mysql_dumper.Restore.Parser.Chunks.Runs.{Scans-view}
use dbgate_mysql_dumper.Restore.Parser.Chunks.Succeeds.{scan_loop-succeeds}
use dbgate_mysql_dumper.Restore.Parser.Chunks.Overflow.{Scans-Over}
use dbgate_mysql_dumper.Restore.Parser.Chunks.Calls.{Scans-Sound, start-Sound, outcome}
use dbgate_mysql_dumper.Restore.Parser.Chunks.Streams.{
  AllSafe, run-Whole, new_parser-Sound, counted-Sound, restarted-view, RunsWhole,
  stream_sql_statements-join,
}
use dbgate_mysql_dumper.Restore.Parser.Chunks.Endings.{Scans-rest, Runs, finish-Runs}

-- What is known of a parser in the middle of a run: where the scan of the whole input stands.
record Underway (p : Parser) (text : Bytes) (all : List ParsedStatement) : Type 0 where
  earlier : List ParsedStatement
  ideal : Scan
  final : Scan
  sound : Sound (start p)
  ideal_sound : Sound ideal
  unfinished : p.finished ≡ false
  same_view : view earlier (start p) ≡ view [] ideal
  scans : Scans true ideal (p.carry ++ text) final
  ends_with : outcome (finish_scanned final) ≡ ok all

-- A chunk that is not empty is scanned, and the run is underway behind it.
scan-Underway :
    (p : Parser) (chunk more : Bytes) (all : List ParsedStatement)
    → Safe chunk
    → chunk ≢ []
    → Underway p (chunk ++ more) all
    → (t : Scan) × (scan (counted p chunk) (p.carry ++ chunk) false ≡ ok t)
      × Underway t.parser more all
unfolding scan
scan-Underway p chunk more all safe given h =
    let text = p.carry ++ chunk in
    let begun = start (counted p chunk) in
    let sound : Sound begun = counted-Sound p chunk h.sound in
    let safe_text = Safe-append p.carry chunk given safe in
    let whole : Scans true h.ideal (text ++ more) h.final =
      subst (λ t. Scans true h.ideal t h.final) (sym (append_assoc p.carry chunk more)) h.scans in
    let (last, whole', _, _) =
      Scans-view [] h.earlier true h.ideal begun h.final (text ++ more) whole h.ideal_sound sound
        (sym h.same_view) in
    let (t, scanned) =
      scan_loop-succeeds (suc (length text)) begun last text more whole' sound safe_text
        (omega arith) in
    let d = scan_loop-Scans (suc (length text)) begun text false scanned in
    let (j, d', views, carry) =
      Scans-view h.earlier [] false begun h.ideal t text d sound h.ideal_sound h.same_view in
    let (reached, rest, reached_sound, stopped, rest_scans) =
      Scans-rest h.ideal j h.final text more d' whole h.ideal_sound safe_text in
    let end = stop-Stopped reached j rest reached_sound stopped in
    let (after, idle) = Scans-Sound false begun t text d sound in
    let rests : rest ≡ t.parser.carry = sym (carry ∙ end.carry) in
    (
      t,
      scanned,
      record {
        earlier = h.earlier ++ t.emitted;
        ideal = reached;
        final = h.final;
        sound = start-Sound t after;
        ideal_sound = reached_sound;
        unfinished = (Scans-Over false begun t text d sound).1 ∙ h.unfinished;
        same_view = restarted-view h.earlier t idle ∙ (views ∙ end.same_view []);
        scans = subst (λ r. Scans true reached (r ++ more) h.final) rests rest_scans;
        ends_with = h.ends_with;
      },
    )

push-Underway :
    (p : Parser) (chunk more : Bytes) (all : List ParsedStatement)
    → Safe chunk
    → Underway p (chunk ++ more) all
    → (x : Output) × (push p chunk ≡ ok x) × Underway x.1 more all
unfolding push
push-Underway p [] more all safe h = (([], p), ground (arith, h.unfinished), h)
push-Underway p (c ∷ r) more all safe h =
    let (t, scanned, next) = scan-Underway p (c ∷ r) more all safe (λ e. cc) h in
    ((t.emitted, t.parser), ground (arith, h.unfinished, scanned), next)

Underway-Runs :
    (p : Parser) (chunks : List Bytes) (all : List ParsedStatement)
    → AllSafe chunks
    → Underway p (join chunks) all
    → Runs p chunks
unfolding stream_from
Underway-Runs p [] all safe h =
    finish-Runs h.earlier p h.ideal h.final all h.sound h.ideal_sound h.unfinished h.same_view
      (subst (λ t. Scans true h.ideal t h.final) (append-nil p.carry) h.scans) h.ends_with
Underway-Runs p (chunk ∷ chunks) all (safe, all_safe) h =
    let ((first, p'), pushed, next) = push-Underway p chunk (join chunks) all safe h in
    let (later, run) = Underway-Runs p' chunks all all_safe next in
    (first ++ later, ground (arith, pushed, run))

-- A run that succeeds with one cut of its input into chunks succeeds with any other cut, and delivers
-- the same statements but for the count of the bytes consumed. No chunk may end in a backslash, and the
-- initial delimiter may not be empty.
pub stream_sql_statements_cut :
    (chunks chunks' : List Bytes) (options : SqlStatementParserOptions)
    {statements : List ParsedStatement}
    → options.initial_delimiter ≢ some []
    → AllSafe chunks
    → AllSafe chunks'
    → join chunks ≡ join chunks'
    → stream_sql_statements chunks options ≡ ok statements
    → (statements' : List ParsedStatement) × (stream_sql_statements chunks' options
        ≡ ok statements')
      × (forget_all statements ≡ forget_all statements')
unfolding stream_sql_statements RunsWhole new_parser
stream_sql_statements_cut chunks chunks' options {statements} h safe safe' same e =
    let p = new_parser options in
    let sound = new_parser-Sound options h in
    let (j, d, ends_with) = run-Whole p chunks statements safe e [] (start p) sound sound refl in
    let (statements', e') = Underway-Runs p chunks' (forget_all statements) safe' (record {
      earlier = [];
      ideal = start p;
      final = j;
      sound = sound;
      ideal_sound = sound;
      unfinished = refl;
      same_view = refl;
      scans = subst (λ t. Scans true (start p) (p.carry ++ t) j) same d;
      ends_with = ends_with;
    }) in
    (statements', e', stream_sql_statements-join chunks chunks' options h safe safe' same e e')
