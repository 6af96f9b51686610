-- ===== src/Restore/Dump/Tests.antt =====
-- Runs of the restore against small servers.
use dbgate_mysql_dumper.Base.{zero, suc}
use dbgate_mysql_dumper.Restore.Dump.Run.{restore_sql_dump}
use dbgate_mysql_dumper.Restore.Dump.Undone.{texts, finalize-texts}
use dbgate_mysql_dumper.Restore.Dump.Sent.{Sends}
use dbgate_mysql_dumper.Base.{
  refl, arith, ◌≢◌, length, any, ◌||◌, Option, starts_with, if◌then◌else◌, [], ◌∷◌, true, Bytes,
  ◌≡◌, some, codes, List, none, false, ℕ,
}
use dbgate_mysql_dumper.Security.Identifiers.{quote_identifier}
use dbgate_mysql_dumper.Restore.Dump.State.{
  Restore, Server, returned, Failure, done, failed, RestoreOptions, begun,
}
use dbgate_mysql_dumper.Restore.Dump.Success.{restore_sql_dump-succeeds}
use dbgate_mysql_dumper.Restore.Dump.Counts.{Counts, run_statements-Counts}
use dbgate_mysql_dumper.Restore.Session.{foreign_key_checks, table_locks, has_code}
use dbgate_mysql_dumper.Restore.Dump.Finalize.{finalize}
use dbgate_mysql_dumper.Restore.Parser.State.{ParsedStatement}
use dbgate_mysql_dumper.Renderer.Definer.{preserve, best_effort}
use dbgate_mysql_dumper.Planning.Archive.Model.{or_default}
use dbgate_mysql_dumper.Restore.Dump.Statements.{run_statements}
use dbgate_mysql_dumper.Restore.Dump.Sends.{run_statements-Sends}

abbrev statement_of : ℕ → Bytes → ParsedStatement
statement_of n sql = record {
  statement_index = n;
  sql = sql;
  delimiter = codes ";";
  start_line = n;
  end_line = n;
  bytes_consumed = n;
  current_object = none;
  binary_literals_rewritten = 0;
}

abbrev dump : List ParsedStatement
dump =
    statement_of 0 (codes "SET FOREIGN_KEY_CHECKS=0")
    ∷ statement_of 1 (codes "CREATE DEFINER=`a`@`b` VIEW `v` AS SELECT 1")
    ∷ statement_of 2 (codes "BOOM")
    ∷ []

abbrev denied : Failure
denied = record { is_abort = false; errno = some 1449 }

-- Refuses all that does not begin with SET or with CREATE VIEW.
abbrev refusing : Server
refusing sent sql =
    if starts_with (codes "SET") sql || starts_with (codes "CREATE V") sql
    then done 1
    else failed denied

abbrev in_transaction : RestoreOptions
in_transaction = record {
  stop_on_error = none;
  database_name = none;
  definer_policy = some best_effort;
  single_transaction = true;
  restore_session_state = none;
}

-- The first release fails.
abbrev failing_release : ℕ → Option Failure
failing_release zero = some denied
failing_release (suc n) = none

run_statements-Sends_example :
    Sends
      (or_default in_transaction.definer_policy preserve)
      dump
      begun
      (run_statements refusing in_transaction (λ n. false) none 0 dump begun)
run_statements-Sends_example =
    run_statements-Sends refusing in_transaction (λ n. false) none 0 dump begun

-- Checks turned off, tables locked and a transaction open.
abbrev interrupted : Restore
interrupted = record begun {
  changed = foreign_key_checks ∷ table_locks ∷ [];
  transaction_open = true;
}

finalize-texts_example :
    texts (finalize refusing in_transaction interrupted).sent
    ≡ codes "ROLLBACK"
      ∷ codes "UNLOCK TABLES"
      ∷ codes "SET FOREIGN_KEY_CHECKS=COALESCE(@OLD_FOREIGN_KEY_CHECKS, 1)"
      ∷ []
unfolding has_code any
finalize-texts_example = finalize-texts refusing in_transaction interrupted

run_statements-Counts_example :
    Counts
      (or_default in_transaction.stop_on_error true)
      (length dump)
      begun
      (run_statements refusing in_transaction (λ n. false) none 0 dump begun)
run_statements-Counts_example =
    run_statements-Counts refusing in_transaction (λ n. false) none 0 dump begun

abbrev obedient : Server
obedient sent sql = done 1

no_name : (x : Bytes) → in_transaction.database_name ≡ some x → quote_identifier x ≢ none
no_name x e q = ground (arith, e)

restore_sql_dump-succeeds_example :
    (s : Restore) × (restore_sql_dump obedient in_transaction (λ n. false) (λ n. none) none dump
      ≡ returned false s)
    × (s.statements_executed ≡ length dump)
    × (s.statements_failed ≡ 0)
    × (s.errors ≡ [])
restore_sql_dump-succeeds_example =
    restore_sql_dump-succeeds obedient (λ xs sql. (1, refl)) (λ n. false) (λ n. refl) in_transaction
      (λ n. none) dump no_name refl
