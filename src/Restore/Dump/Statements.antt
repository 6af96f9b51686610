-- ===== src/Restore/Dump/Statements.antt =====
-- The loop over the statements of src/restore/restoreSqlDump.ts.
use dbgate_mysql_dumper.Restore.Dump.State.{
  then_go, Failure, done, failed, Server, RestoreOptions, definer_rewritten, Restore, Retried,
  retried, not_retried, aborted, Flow, on, stop, throw, cancelled_error, is_definer_error,
  is_best_effort, answer_to, send,
}
use dbgate_mysql_dumper.Base.{
  same, ℕ, suc, ◌+◌, [], ◌∷◌, ◌++◌, List, Bytes, Option, none, some, Bool, true, false, ◌||◌, not,
  if◌then◌else◌,
}
use dbgate_mysql_dumper.Restore.Parser.State.{ParsedStatement}
use dbgate_mysql_dumper.Renderer.Definer.{
  DefinerPolicy, preserve, strip, apply_definer_policy, has_definer_clause,
}
use dbgate_mysql_dumper.Restore.Session.{observe}
use dbgate_mysql_dumper.Planning.Archive.Model.{or_default}

unfoldable pub executed : ℕ → Bytes → Restore → Restore
unfolding observe
executed affected_rows sql s = record s {
  rows_restored = s.rows_restored + affected_rows;
  statements_executed = s.statements_executed + 1;
  changed = observe sql s.changed;
}

unfoldable pub note_error : ParsedStatement → Failure → Restore → Restore
note_error statement failure s = record s {
  statements_failed = s.statements_failed + 1;
  errors =
      s.errors
      ++ record {
        statement_index = statement.statement_index;
        delimiter = statement.delimiter;
        errno = failure.errno;
      }
        ∷ [];
}

unfoldable pub warn_rewritten : ℕ → Restore → Restore
warn_rewritten index s = record s { warnings = s.warnings ++ definer_rewritten index ∷ [] }

unfoldable pub failed_statement :
    RestoreOptions → ParsedStatement → Failure → Restore × Retried → Flow
unfolding executed warn_rewritten note_error
failed_statement options statement failure (s, retried n sql) =
    on (warn_rewritten statement.statement_index (executed n sql s))
failed_statement options statement failure (s, aborted f) = throw f s
failed_statement options statement failure (s, not_retried) =
    if or_default options.stop_on_error true
    then stop (note_error statement failure s)
    else on (note_error statement failure s)

-- The stream of the statements ends, or throws.
unfoldable pub end_stream : Option Failure → Restore → Flow
end_stream none s = on s
end_stream (some failure) s = throw failure s

-- The counters and the warning that are set before the statement `sql` is sent for `statement`.
unfoldable pub ready_for : Bytes → ParsedStatement → Restore → Restore
unfolding same warn_rewritten
ready_for sql statement s =
    let counted = record s { bytes_consumed = statement.bytes_consumed } in
    if same sql statement.sql then counted else warn_rewritten statement.statement_index counted

module _ (server : Server) where
  -- `maybeRetryWithoutDefiner`
  unfoldable pub maybe_retry_without_definer :
      Bytes → DefinerPolicy → Failure → Restore → Restore × Retried
  unfolding has_definer_clause is_best_effort is_definer_error apply_definer_policy send same
  maybe_retry_without_definer sql policy failure s =
      let without_definer = apply_definer_policy sql strip in
      if not (is_best_effort policy)
        || not (has_definer_clause sql)
        || not (is_definer_error failure.errno)
        || same without_definer sql
      then (s, not_retried)
      else (
        send server without_definer s,
        elim (answer_to server s without_definer) [
          | done n ↦ retried n without_definer
          | failed f ↦ if f.is_abort then aborted f else not_retried
        ],
      )

  -- One round of the loop over the statements, behind `throwIfAborted`.
  unfoldable pub run_statement : RestoreOptions → ParsedStatement → Restore → Flow
  run_statement options statement s =
      let policy = or_default options.definer_policy preserve in
      let sql = apply_definer_policy statement.sql policy in
      let ready = ready_for sql statement s in
      elim (answer_to server ready sql) [
        | done n ↦ on (executed n sql (send server sql ready))
        | failed f ↦
            if f.is_abort
            then throw f (send server sql ready)
            else failed_statement options statement f
                (maybe_retry_without_definer sql policy f (send server sql ready))
      ]

  -- The loop. `is_aborted` says whether the signal is set when a statement is met, by its place in the
  -- stream; `ending` is the error that ends the stream.
  unfoldable pub run_statements :
      RestoreOptions → (ℕ → Bool) → Option Failure → ℕ → List ParsedStatement → Restore → Flow
  unfolding cancelled_error run_statement end_stream
  run_statements options is_aborted ending place [] s = end_stream ending s
  run_statements options is_aborted ending place (statement ∷ statements) s =
      elim (is_aborted place) [
        | true ↦ throw cancelled_error s
        | false ↦
            then_go (run_statement options statement s)
              (λ s'. run_statements options is_aborted ending (suc place) statements s')
      ]
