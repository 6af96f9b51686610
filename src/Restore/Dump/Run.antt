-- ===== src/Restore/Dump/Run.antt =====
-- `restoreSqlDump` of src/restore/restoreSqlDump.ts, on a connection that was acquired.
use dbgate_mysql_dumper.Restore.Dump.State.{
  then_go, Failure, done, failed, Server, RestoreOptions, single_transaction_limited, Restore,
  begun, Flow, on, stop, throw, identifier_error, Outcome, returned, rejected, answer_to, send,
}
use dbgate_mysql_dumper.Base.{
  ℕ, [], ◌∷◌, ◌++◌, List, Bytes, Option, none, some, Bool, true, false, if◌then◌else◌, codes,
}
use dbgate_mysql_dumper.Security.Identifiers.{quote_identifier}
use dbgate_mysql_dumper.Restore.Parser.State.{ParsedStatement}
use dbgate_mysql_dumper.Restore.Dump.Finalize.{finalize}
use dbgate_mysql_dumper.Restore.Dump.Statements.{run_statements}

module _ (server : Server) where
  -- `await executeStatement(…)` whose answer is not looked at
  unfoldable pub require : Bytes → Restore → Flow
  unfolding send
  require sql s = elim (answer_to server s sql) [
    | done n ↦ on (send server sql s)
    | failed f ↦ throw f (send server sql s)
  ]

  unfoldable pub use_named : Bytes → Restore → Flow
  unfolding quote_identifier identifier_error require
  use_named name s = elim (quote_identifier name) [
    | none ↦ throw identifier_error s
    | some quoted ↦ require (codes "USE " ++ quoted) s
  ]

  -- `if (options.databaseName)`: the empty name is none.
  unfoldable pub use_database : Option Bytes → Restore → Flow
  unfolding use_named
  use_database none s = on s
  use_database (some []) s = on s
  use_database (some (c ∷ cs)) s = use_named (c ∷ cs) s

  unfoldable pub start_transaction : RestoreOptions → Restore → Flow
  unfolding require
  start_transaction options s =
      if options.single_transaction
      then then_go (require (codes "START TRANSACTION") s) (λ s'. on (record s' {
        transaction_open = true;
        warnings = s'.warnings ++ single_transaction_limited ∷ [];
      }))
      else on s

  unfoldable pub commit : Restore → Flow
  unfolding require
  commit s =
      if s.transaction_open
      then then_go (require (codes "COMMIT") s) (λ s'. on (record s' { transaction_open = false }))
      else on s

  -- The body of the `try`, up to `finalize`.
  unfoldable pub restore_body :
      RestoreOptions → (ℕ → Bool) → Option Failure → List ParsedStatement → Flow
  unfolding use_database start_transaction run_statements commit
  restore_body options is_aborted ending statements =
      then_go (use_database options.database_name begun) (λ s.
        then_go (start_transaction options s)
          (λ s'. then_go (run_statements server options is_aborted ending 0 statements s') commit))

  -- The `catch`; `release_error` is what `release` throws, if it does, by how often it was called before.
  unfoldable pub recover : RestoreOptions → (ℕ → Option Failure) → Failure → Restore → Outcome
  unfolding finalize
  recover options release_error failure s = elim (release_error s.releases) [
    | some e ↦ rejected e (finalize server options s)
    | none ↦
        if failure.is_abort
        then returned true (finalize server options s)
        else rejected failure (finalize server options s)
  ]

  unfoldable pub conclude : RestoreOptions → (ℕ → Option Failure) → Restore → Outcome
  unfolding finalize recover
  conclude options release_error s = elim (release_error s.releases) [
    | none ↦ returned false (finalize server options s)
    | some e ↦ recover options release_error e (finalize server options s)
  ]

  unfoldable pub close : RestoreOptions → (ℕ → Option Failure) → Flow → Outcome
  unfolding conclude recover
  close options release_error (on s) = conclude options release_error s
  close options release_error (stop s) = conclude options release_error s
  close options release_error (throw f s) = recover options release_error f s

  -- On a connection that was acquired.
  unfoldable pub restore_sql_dump :
      RestoreOptions
      → (ℕ → Bool)
      → (ℕ → Option Failure)
      → Option Failure
      → List ParsedStatement
      → Outcome
  unfolding restore_body close
  restore_sql_dump options is_aborted release_error ending statements =
      close options release_error (restore_body options is_aborted ending statements)
