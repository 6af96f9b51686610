-- ===== src/Restore/Parser/Chunks/Streams.antt =====
-- A whole run depends on its input, not on the cut of the input into chunks.
use dbgate_mysql_dumper.Base.{
  [], ◌∷◌, ◌++◌, List, ◌≡◌, ◌≢◌, Bytes, join, refl, sym, ap, ◌∙◌, subst, arith, some, inl, inr,
  true, false, append_assoc, append-nil,
}
use dbgate_mysql_dumper.Restore.Parser.State.{
  ok, ◌>>=◌, Parser, ParsedStatement, SqlStatementParserOptions, new_parser,
}
use dbgate_mysql_dumper.Restore.Parser.Step.{Scan}
use dbgate_mysql_dumper.Restore.Parser.Scan.{
  start, push, finish, stream_from, stream_sql_statements, finish_scanned, counted,
}
use dbgate_mysql_dumper.Restore.Parser.Chunks.{view, forget_all}
use dbgate_mysql_dumper.Restore.Parser.Chunks.Prefix.{Safe, Safe-append}
use dbgate_mysql_dumper.Restore.Parser.Chunks.Scans.{
  Scans, Sound, stop-Stopped, bind-ok, ok_injective,
}
use dbgate_mysql_dumper.Restore.Parser.Chunks.Runs.{Scans-view, Scans-Passes, Scans-unique}
use dbgate_mysql_dumper.Restore.Parser.Invariant.Streams.{line_of, new_parser-Ready, Inv-start}
use dbgate_mysql_dumper.Restore.Parser.Chunks.Calls.{
  Scans-Sound, start-Sound, push-Pushed, finish-Scans, outcome, finish_scanned-outcome,
}

-- No chunk ends in a backslash.
abbrev pub AllSafe : List Bytes → Type 0
AllSafe [] = Unit
AllSafe (chunk ∷ chunks) = Safe chunk × AllSafe chunks

-- A scan of all the input, begun at `i`, ends with these statements.
abbrev pub Whole : Scan → Bytes → List ParsedStatement → Type 0
Whole i text statements =
    (j : Scan) × Scans true i text j × (outcome (finish_scanned j) ≡ ok (forget_all statements))

finished-Whole :
    (earlier : List ParsedStatement) (p : Parser) (i : Scan) (statements : List ParsedStatement)
    → Sound (start p)
    → Sound i
    → view earlier (start p) ≡ view [] i
    → stream_from p [] ≡ ok statements
    → Whole i p.carry (earlier ++ statements)
unfolding stream_from
finished-Whole earlier p i statements h k same e =
    let last = record p { finished = true } in
    let ((all, p'), called, returned) = bind-ok (finish p) (λ x. ok x.0) e in
    let (s, scans, done) = finish-Scans p p' all called in
    let sound : Sound (start last) = record {
      index = h.index;
      line = h.line;
      inv = ground (arith, h.inv);
      tidy = h.tidy;
    } in
    let (j, scans', views, _) =
      Scans-view earlier [] true (start last) i s p.carry scans sound k same in
    let outcome_eq =
      finish_scanned-outcome earlier s j p' all views
        (Scans-Sound true (start last) s p.carry scans sound).1
        (Scans-Sound true i j p.carry scans' k).1 done in
    (j, scans', outcome_eq ∙ ap (λ x. ok (forget_all (earlier ++ x))) (ok_injective returned))

-- A run over a parser's chunks, from what holds of the rest of the run.
unfoldable pub RunsWhole : Parser → List Bytes → List ParsedStatement → Type 0
RunsWhole p chunks statements =
    (earlier : List ParsedStatement) (i : Scan)
    → Sound (start p)
    → Sound i
    → view earlier (start p) ≡ view [] i
    → Whole i (p.carry ++ join chunks) (earlier ++ statements)

empty-Whole :
    (p p' : Parser) (chunk : Bytes) (chunks : List Bytes) (first later : List ParsedStatement)
    → (chunk ≡ []) × (first ≡ []) × (p' ≡ p)
    → RunsWhole p' chunks later
    → RunsWhole p (chunk ∷ chunks) (first ++ later)
unfolding RunsWhole
empty-Whole p p' chunk chunks first later (none_given, none_read, same) k =
    rw none_given (rw none_read (subst (λ q. RunsWhole q chunks later) same k))

pub counted-Sound : (p : Parser) (chunk : Bytes) → Sound (start p) → Sound (start (counted p chunk))
counted-Sound p chunk h = record {
  index = h.index;
  line = h.line;
  inv = ground (arith, h.inv);
  tidy = h.tidy;
}

-- The next call begins with the view that this one ends with.
pub restarted-view :
    (earlier : List ParsedStatement) (s : Scan)
    → s.pending ≡ []
    → view (earlier ++ s.emitted) (start s.parser) ≡ view earlier s
restarted-view earlier s idle =
    ground (arith, append-nil (earlier ++ s.emitted), append-nil (join s.parser.statement_parts))

scanned-Whole :
    (p : Parser) (chunk : Bytes) (chunks : List Bytes) (later : List ParsedStatement) (s : Scan)
    → Safe chunk
    → chunk ≢ []
    → Scans false (start (counted p chunk)) (p.carry ++ chunk) s
    → RunsWhole s.parser chunks later
    → RunsWhole p (chunk ∷ chunks) (s.emitted ++ later)
unfolding RunsWhole
scanned-Whole p chunk chunks later s safe given scans k earlier i h l same =
    let text = p.carry ++ chunk in
    let begun = start (counted p chunk) in
    let sound : Sound begun = counted-Sound p chunk h in
    let (j, scans', views, carry) = Scans-view earlier [] false begun i s text scans sound l same in
    let pass = Scans-Passes i j text scans' l (Safe-append p.carry chunk given safe) in
    let stopped = stop-Stopped pass.reached j pass.rest pass.sound pass.stopped in
    let (after, idle) = Scans-Sound false begun s text scans sound in
    let (u, d, out) =
      k (earlier ++ s.emitted) pass.reached (start-Sound s after) pass.sound
        (restarted-view earlier s idle ∙ (views ∙ stopped.same_view [])) in
    let rests : s.parser.carry ≡ pass.rest = carry ∙ stopped.carry in
    (
      u,
      subst (λ t. Scans true i t u) (append_assoc p.carry chunk (join chunks))
          (pass.goes_on (join chunks) true u
            (subst (λ rest. Scans true pass.reached (rest ++ join chunks) u) rests d)),
      out ∙ ap (λ x. ok (forget_all x)) (append_assoc earlier s.emitted later),
    )

pub run-Whole :
    (p : Parser) (chunks : List Bytes) (statements : List ParsedStatement)
    → AllSafe chunks
    → stream_from p chunks ≡ ok statements
    → RunsWhole p chunks statements
unfolding RunsWhole stream_from
run-Whole p [] statements safe e = λ earlier i h k same.
    subst (λ text. Whole i text (earlier ++ statements)) (sym (append-nil p.carry))
      (finished-Whole earlier p i statements h k same e)
run-Whole p (chunk ∷ chunks) statements (safe, all_safe) e =
    let ((first, p'), called, e') =
      bind-ok (push p chunk) (λ x. stream_from x.1 chunks >>= λ later. ok (x.0 ++ later)) e in
    let (later, called', returned) =
      bind-ok (stream_from p' chunks) (λ later. ok (first ++ later)) e' in
    let rest = run-Whole p' chunks later all_safe called' in
    subst (RunsWhole p (chunk ∷ chunks)) (ok_injective returned)
      (elim (push-Pushed p p' chunk first called) [
        | inl none_given ↦ empty-Whole p p' chunk chunks first later none_given rest
        | inr (s, scans, emitted, parser, given) ↦
            subst (λ f. RunsWhole p (chunk ∷ chunks) (f ++ later)) emitted
              (scanned-Whole p chunk chunks later s safe given scans
                (subst (λ q. RunsWhole q chunks later) (sym parser) rest))
      ])

pub new_parser-Sound :
    (options : SqlStatementParserOptions)
    → options.initial_delimiter ≢ some []
    → Sound (start (new_parser options))
unfolding new_parser
new_parser-Sound options h = record {
  index = 0;
  line = line_of (new_parser options);
  inv = Inv-start (new_parser options) (new_parser-Ready options h);
  tidy = (inr refl, (λ e. cc));
}

same_outcome :
    (i : Scan) (text : Bytes) (xs ys : List ParsedStatement)
    → Whole i text xs
    → Whole i text ys
    → forget_all xs ≡ forget_all ys
same_outcome i text xs ys (j, d, e) (k, f, g) =
    ok_injective
      (sym e ∙ (ap (λ x. outcome (finish_scanned x)) (Scans-unique true i j k text d f) ∙ g))

-- Two runs on one input, whatever the cuts into chunks of either, that both succeed deliver the same
-- statements but for the count of the bytes consumed. No chunk may end in a backslash, and the initial
-- delimiter may not be empty.
pub stream_sql_statements-join :
    (chunks chunks' : List Bytes) (options : SqlStatementParserOptions)
    {statements statements' : List ParsedStatement}
    → options.initial_delimiter ≢ some []
    → AllSafe chunks
    → AllSafe chunks'
    → join chunks ≡ join chunks'
    → stream_sql_statements chunks options ≡ ok statements
    → stream_sql_statements chunks' options ≡ ok statements'
    → forget_all statements ≡ forget_all statements'
unfolding stream_sql_statements RunsWhole
stream_sql_statements-join chunks chunks' options {statements} {statements'} h safe safe' same e
      e' =
    let p = new_parser options in
    let sound = new_parser-Sound options h in
    let whole = run-Whole p chunks statements safe e [] (start p) sound sound refl in
    let whole' = run-Whole p chunks' statements' safe' e' [] (start p) sound sound refl in
    same_outcome (start p) (p.carry ++ join chunks) statements statements' whole
      (subst (λ t. Whole (start p) (p.carry ++ t) statements') (sym same) whole')
