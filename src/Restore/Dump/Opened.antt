-- ===== src/Restore/Dump/Opened.antt =====
-- src/restore/restoreSqlDump.ts: whether the transaction is open where the body ends.
use dbgate_mysql_dumper.Base.{
  ℕ, suc, [], ◌∷◌, ◌++◌, List, ◌≡◌, ◌⊎◌, Bytes, refl, sym, ◌∙◌, subst, arith, Option, none, some,
  inl, inr, Bool-cases, Option-cases, Bool, true, false, codes, same, if◌then◌else◌,
}
use dbgate_mysql_dumper.Security.Identifiers.{quote_identifier}
use dbgate_mysql_dumper.Restore.Parser.State.{ParsedStatement}
use dbgate_mysql_dumper.Restore.Dump.State.{
  Failure, Server, RestoreOptions, Restore, begun, Flow, on, stop, throw, answer_to, send, then_go,
}
use dbgate_mysql_dumper.Restore.Dump.Statements.{
  maybe_retry_without_definer, executed, note_error, warn_rewritten, failed_statement, ready_for,
  run_statement, run_statements, end_stream,
}
use dbgate_mysql_dumper.Restore.Dump.Run.{
  require, use_named, use_database, start_transaction, commit, restore_body,
}
use dbgate_mysql_dumper.Restore.Dump.Cleanup.{Answer-cases}

-- How a part of the body ends: it goes on as wanted; it stops with the transaction open if there is to be
-- one; or it throws so, or before any statement was read.
abbrev pub Stage : RestoreOptions → (Restore → Type 0) → Flow → Type 0
Stage options P (on s) = P s
Stage options P (stop s) = s.transaction_open ≡ options.single_transaction
Stage options P (throw f s) =
    (s.transaction_open ≡ options.single_transaction) ⊎ (s.bytes_consumed ≡ 0)

then_go-Stage :
    (options : RestoreOptions) (P Q : Restore → Type 0) (flow : Flow) (k : Restore → Flow)
    → Stage options P flow
    → ((s : Restore) → P s → Stage options Q (k s))
    → Stage options Q (then_go flow k)
then_go-Stage options P Q (on s) k h rest = rest s h
then_go-Stage options P Q (stop s) k h rest = h
then_go-Stage options P Q (throw f s) k h rest = h

if-Stage :
    (options : RestoreOptions) (P : Restore → Type 0) (b : Bool) (yes_flow no_flow : Flow)
    → (b ≡ true → Stage options P yes_flow)
    → (b ≡ false → Stage options P no_flow)
    → Stage options P (if b then yes_flow else no_flow)
if-Stage options P true yes_flow no_flow h k = h refl
if-Stage options P false yes_flow no_flow h k = k refl

-- No statement was read and no transaction begun.
abbrev Fresh : Restore → Type 0
Fresh s = (s.transaction_open ≡ false) × (s.bytes_consumed ≡ 0)

abbrev pub Closed : Restore → Type 0
Closed s = s.transaction_open ≡ false

module _ (server : Server) (options : RestoreOptions) where
  abbrev Wanted : Restore → Type 0
  Wanted s = s.transaction_open ≡ options.single_transaction

  -- A statement that has to succeed changes neither.
  require-Stage :
      (P : Restore → Type 0) (sql : Bytes) (s : Restore)
      → P (send server sql s)
      → (Wanted s ⊎ (s.bytes_consumed ≡ 0))
      → Stage options P (require server sql s)
  unfolding require send
  require-Stage P sql s h t = elim (Answer-cases (answer_to server s sql)) [
    | inl (n, e) ↦ rw (e, require) h
    | inr (f, e) ↦ rw (e, require) t
  ]

  use_database-Stage :
      (name : Option Bytes) (s : Restore)
      → Fresh s
      → Stage options Fresh (use_database server name s)
  unfolding use_database use_named send
  use_database-Stage none s h = h
  use_database-Stage (some []) s h = h
  use_database-Stage (some (c ∷ cs)) s (closed, unread) =
      elim (Option-cases (quote_identifier (c ∷ cs))) [
        | inl bad ↦ rw (bad, use_named) (inr unread)
        | inr (quoted, e) ↦
            rw (e, use_named)
              (require-Stage Fresh (codes "USE " ++ quoted) s (closed, unread) (inr unread))
      ]

  start_transaction-Stage :
      (s : Restore) → Fresh s → Stage options Wanted (start_transaction server options s)
  unfolding start_transaction send
  start_transaction-Stage s (closed, unread) =
      if-Stage options Wanted options.single_transaction _ (on s)
        (λ wanted.
          then_go-Stage options Fresh Wanted (require server (codes "START TRANSACTION") s) _
            (require-Stage Fresh (codes "START TRANSACTION") s (closed, unread) (inr unread))
            (λ s' h. sym wanted))
        (λ not_wanted. closed ∙ sym not_wanted)

  commit-Stage : (s : Restore) → Wanted s → Stage options Closed (commit server s)
  unfolding commit send
  commit-Stage s h =
      if-Stage options Closed s.transaction_open _ (on s)
        (λ is_open.
          then_go-Stage options Wanted Closed (require server (codes "COMMIT") s) _
            (require-Stage Wanted (codes "COMMIT") s h (inl h)) (λ s' k. refl))
        (λ is_closed. is_closed)

  run_statement-Stage :
      (statement : ParsedStatement) (s : Restore)
      → Wanted s
      → Stage options Wanted (run_statement server options statement s)
  unfolding run_statement ready_for failed_statement maybe_retry_without_definer executed
      warn_rewritten note_error send same
  run_statement-Stage statement s h = ground arith

  run_statements-Stage :
      (is_aborted : ℕ → Bool) (ending : Option Failure) (place : ℕ)
      (statements : List ParsedStatement) (s : Restore)
      → Wanted s
      → Stage options Wanted (run_statements server options is_aborted ending place statements s)
  unfolding run_statements end_stream
  run_statements-Stage is_aborted ending place [] s h = elim (Option-cases ending) [
    | inl none_thrown ↦ rw (none_thrown, end_stream) h
    | inr (f, e) ↦ rw (e, end_stream) (inl h)
  ]
  run_statements-Stage is_aborted ending place (statement ∷ statements) s h =
      elim (Bool-cases (is_aborted place)) [
        | inl yes_aborted ↦ rw (yes_aborted, run_statements) (inl h)
        | inr not_aborted ↦
            let step : run_statements server options is_aborted ending place
                  (statement ∷ statements) s
                ≡ then_go (run_statement server options statement s) (λ s'.
                  run_statements server options is_aborted ending (suc place) statements s') =
              rw (not_aborted, run_statements) refl in
            subst (Stage options Wanted) (sym step) (
              then_go-Stage options Wanted Wanted (run_statement server options statement s) _
                (run_statement-Stage statement s h)
                (run_statements-Stage is_aborted ending (suc place) statements))
      ]

  pub restore_body-Stage :
      (is_aborted : ℕ → Bool) (ending : Option Failure) (statements : List ParsedStatement)
      → Stage options Closed (restore_body server options is_aborted ending statements)
  unfolding restore_body
  restore_body-Stage is_aborted ending statements =
      then_go-Stage options Fresh Closed (use_database server options.database_name begun) _
        (use_database-Stage options.database_name begun (refl, refl))
        (λ s h.
          then_go-Stage options Wanted Closed (start_transaction server options s) _
            (start_transaction-Stage s h)
            (λ s' h'.
              then_go-Stage options Wanted Closed
                (run_statements server options is_aborted ending 0 statements s') _
                (run_statements-Stage is_aborted ending 0 statements s' h') commit-Stage))
