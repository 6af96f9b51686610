-- ===== src/Restore/Dump/State.antt =====
-- The data of src/restore/restoreSqlDump.ts. The connection is a function of what was sent to it and
-- answered. Messages, previews and progress reports are left out.
use dbgate_mysql_dumper.Base.{
  ℕ, [], ◌∷◌, ◌++◌, List, Bytes, Option, none, some, Bool, true, false, ◌||◌, ◌==◌,
}
use dbgate_mysql_dumper.Renderer.Definer.{DefinerPolicy, best_effort}
use dbgate_mysql_dumper.Restore.Session.{GuardCode}

-- What is thrown: whether it is an abort, and the number that the adapter's `describeError` gives.
pub record Failure : Type 0 where
  pub is_abort : Bool
  pub errno : Option ℕ

pub data Answer : Type 0 where
  done : ℕ → Answer
  failed : Failure → Answer

abbrev pub Exchange : Type 0
Exchange = Bytes × Answer

-- What a connection answers to a statement after all that was sent before.
abbrev pub Server : Type 0
Server = List Exchange → Bytes → Answer

pub record RestoreOptions : Type 0 where
  pub stop_on_error : Option Bool
  pub database_name : Option Bytes
  pub definer_policy : Option DefinerPolicy
  pub single_transaction : Bool
  pub restore_session_state : Option Bool

pub record RestoreStatementError : Type 0 where
  pub statement_index : ℕ
  pub delimiter : Bytes
  pub errno : Option ℕ

pub data RestoreWarning : Type 0 where
  single_transaction_limited : RestoreWarning
  definer_rewritten : ℕ → RestoreWarning
  session_state_restored : List GuardCode → RestoreWarning

-- The variables of `restoreSqlDump`, with what was sent on the connection and how often it was released.
pub record Restore : Type 0 where
  pub statements_executed : ℕ
  pub statements_failed : ℕ
  pub rows_restored : ℕ
  pub bytes_consumed : ℕ
  pub errors : List RestoreStatementError
  pub warnings : List RestoreWarning
  pub changed : List GuardCode
  pub transaction_open : Bool
  pub sent : List Exchange
  pub releases : ℕ

abbrev pub begun : Restore
begun = record {
  statements_executed = 0;
  statements_failed = 0;
  rows_restored = 0;
  bytes_consumed = 0;
  errors = [];
  warnings = [];
  changed = [];
  transaction_open = false;
  sent = [];
  releases = 0;
}

pub data Retried : Type 0 where
  retried : ℕ → Bytes → Retried
  not_retried : Retried
  aborted : Failure → Retried

-- What the body of the `try` does next.
pub data Flow : Type 0 where
  on : Restore → Flow
  stop : Restore → Flow
  throw : Failure → Restore → Flow

unfoldable pub cancelled_error : Failure
cancelled_error = record { is_abort = true; errno = none }

-- `quoteIdentifier` throws
unfoldable pub identifier_error : Failure
identifier_error = record { is_abort = false; errno = none }

unfoldable pub is_definer_error : Option ℕ → Bool
is_definer_error none = false
is_definer_error (some n) = n == 1227 || n == 1449 || n == 1470

unfoldable pub is_best_effort : DefinerPolicy → Bool
is_best_effort best_effort = true
is_best_effort _ = false

pub data Outcome : Type 0 where
  returned : Bool → Restore → Outcome
  rejected : Failure → Restore → Outcome

unfoldable pub is_done : Answer → Bool
is_done (done n) = true
is_done (failed f) = false

abbrev pub then_go : Flow → (Restore → Flow) → Flow
then_go (on s) k = k s
then_go (stop s) k = stop s
then_go (throw f s) k = throw f s

module _ (server : Server) where
  abbrev pub answer_to : Restore → Bytes → Answer
  answer_to s sql = server s.sent sql

  -- `executeStatement`
  unfoldable pub send : Bytes → Restore → Restore
  send sql s = record s { sent = s.sent ++ (sql, server s.sent sql) ∷ [] }
