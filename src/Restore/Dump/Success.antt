-- ===== src/Restore/Dump/Success.antt =====
-- src/restore/restoreSqlDump.ts: a restore in which nothing fails.
use dbgate_mysql_dumper.Restore.Dump.State.{Failure}
use dbgate_mysql_dumper.Base.{
  ℕ, suc, ◌+◌, [], ◌∷◌, ◌++◌, List, ◌≡◌, ◌≢◌, Bytes, length, refl, sym, ap, ◌∙◌, subst, arith,
  Option, none, some, inl, inr, Bool-cases, Option-cases, Bool, true, false, ◌&&◌, if◌then◌else◌,
  codes,
}
use dbgate_mysql_dumper.Security.Identifiers.{quote_identifier}
use dbgate_mysql_dumper.Restore.Parser.State.{ParsedStatement}
use dbgate_mysql_dumper.Renderer.Definer.{preserve, apply_definer_policy}
use dbgate_mysql_dumper.Restore.Session.{GuardCode, table_locks, Guard, guard_patterns, has_code}
use dbgate_mysql_dumper.Planning.Archive.Model.{or_default}
use dbgate_mysql_dumper.Restore.Dump.State.{
  done, failed, Exchange, Server, RestoreOptions, Restore, begun, Flow, on, throw, returned,
  answer_to, send, is_done, then_go,
}
use dbgate_mysql_dumper.Restore.Dump.Finalize.{
  restore_guards, restore_session, warn_restored, roll_back, finalize,
}
use dbgate_mysql_dumper.Restore.Dump.Statements.{
  executed, ready_for, run_statement, run_statements, end_stream,
}
use dbgate_mysql_dumper.Restore.Dump.Run.{
  require, use_named, use_database, start_transaction, commit, restore_body, conclude,
  restore_sql_dump, close,
}
use dbgate_mysql_dumper.Restore.Dump.Counts.{Kept, ready_for-Kept}
use dbgate_mysql_dumper.Restore.Dump.Cleanup.{Reaches, Held, restore_body-Held}

-- Behind `n` statements that were all executed.
abbrev Executed : ℕ → Restore → Restore → Type 0
Executed n s s' =
    (s'.statements_executed ≡ s.statements_executed + n)
    × (s'.statements_failed ≡ s.statements_failed)
    × (s'.errors ≡ s.errors)

Executed-suc : (n : ℕ) (s t u : Restore) → Executed 1 s t → Executed n t u → Executed (suc n) s u
Executed-suc n s t u (ex, fl, er) (ex', fl', er') = (omega (arith, ex, ex'), fl' ∙ fl, er' ∙ er)

Kept-Executed : (n : ℕ) (s t u : Restore) → Kept s t → Executed n t u → Executed n s u
Kept-Executed n s t u (ex, fl, er) (ex', fl', er') = (omega (arith, ex, ex'), fl' ∙ fl, er' ∙ er)

Executed-Kept : (n : ℕ) (s t u : Restore) → Executed n s t → Kept t u → Executed n s u
Executed-Kept n s t u (ex, fl, er) (ex', fl', er') = (omega (arith, ex, ex'), fl' ∙ fl, er' ∙ er)

abbrev GoesOn : (Restore → Type 0) → Flow → Type 0
GoesOn P flow = (s : Restore) × (flow ≡ on s) × P s

if-GoesOn :
    (P : Restore → Type 0) (b : Bool) (flow : Flow) (s : Restore)
    → GoesOn P flow
    → P s
    → GoesOn P (if b then flow else on s)
if-GoesOn P true flow s goes h = goes
if-GoesOn P false flow s goes h = (s, refl, h)

then_go-GoesOn :
    (P Q : Restore → Type 0) (flow : Flow) (k : Restore → Flow)
    → GoesOn P flow
    → ((s : Restore) → P s → GoesOn Q (k s))
    → GoesOn Q (then_go flow k)
then_go-GoesOn P Q flow k (s, e, h) rest = rw e (rest s h)

warn_restored-Kept : (changed : List GuardCode) (s : Restore) → Kept s (warn_restored changed s)
unfolding warn_restored
warn_restored-Kept [] s = (refl, refl, refl)
warn_restored-Kept (c ∷ cs) s = (refl, refl, refl)

Kept-trans : (s t u : Restore) → Kept s t → Kept t u → Kept s u
Kept-trans s t u (ex, fl, er) (ex', fl', er') = (ex' ∙ ex, fl' ∙ fl, er' ∙ er)

module _ (server : Server) where
  send_if-Kept :
      (b : Bool) (sql : Bytes) (s : Restore) → Kept s (if b then send server sql s else s)
  unfolding send
  send_if-Kept true sql s = (refl, refl, refl)
  send_if-Kept false sql s = (refl, refl, refl)

  restore_guards-Kept :
      (gs : List Guard) (changed : List GuardCode) (s : Restore) (restored : List GuardCode)
      → Kept s (restore_guards server gs changed s restored).0
  unfolding restore_guards
  restore_guards-Kept [] changed s restored = (refl, refl, refl)
  restore_guards-Kept (g ∷ gs) changed s restored =
      let s' = if has_code g.code changed then send server g.restore s else s in
      let restored' =
        if has_code g.code changed && is_done (answer_to server s g.restore)
        then restored ++ g.code ∷ []
        else restored in
      Kept-trans s s' (restore_guards server gs changed s' restored').0
        (send_if-Kept (has_code g.code changed) g.restore s)
        (restore_guards-Kept gs changed s' restored')

  restore_session-Kept : (s : Restore) → Kept s (restore_session server s).0
  unfolding restore_session
  restore_session-Kept s =
      let locked = has_code table_locks s.changed in
      let s' = if locked then send server (codes "UNLOCK TABLES") s else s in
      let unlocked =
        if locked && is_done (answer_to server s (codes "UNLOCK TABLES"))
        then table_locks ∷ []
        else [] in
      Kept-trans s s' (restore_guards server guard_patterns s.changed s' unlocked).0
        (send_if-Kept locked (codes "UNLOCK TABLES") s)
        (restore_guards-Kept guard_patterns s.changed s' unlocked)

  roll_back-Kept : (s : Restore) → Kept s (roll_back server s)
  unfolding roll_back send
  roll_back-Kept s = elim (Bool-cases s.transaction_open) [
    | inl is_open ↦ rw is_open (refl, refl, refl)
    | inr is_closed ↦ rw is_closed (refl, refl, refl)
  ]

  finalize-Kept : (options : RestoreOptions) (s : Restore) → Kept s (finalize server options s)
  unfolding finalize
  finalize-Kept options s =
      let rolled = roll_back server s in
      let restored = restore_session server rolled in
      let warned = warn_restored restored.1 restored.0 in
      let kept = roll_back-Kept s in
      elim (Bool-cases (or_default options.restore_session_state true)) [
        | inl undoes ↦ rw undoes (
            Kept-trans s rolled warned kept (
              Kept-trans rolled restored.0 warned (restore_session-Kept rolled)
                (warn_restored-Kept restored.1 restored.0)))
        | inr leaves ↦ rw leaves kept
      ]

  executed-Executed :
      (n : ℕ) (sql : Bytes) (s ready : Restore)
      → Kept s ready
      → Executed 1 s (executed n sql (send server sql ready))
  unfolding executed send
  executed-Executed n sql s ready (ex, fl, er) = (omega (arith, ex), fl, er)

  -- The server executes whatever it is sent.
  module _ (answers : (xs : List Exchange) (sql : Bytes) → (n : ℕ) × (server xs sql ≡ done n)) where
    require-GoesOn : (sql : Bytes) (s : Restore) → GoesOn (Kept s) (require server sql s)
    unfolding require
    require-GoesOn sql s =
        let (n, e) = answers s.sent sql in
        let step : require server sql s ≡ on (send server sql s) =
          ap
            (λ a. elim a as (λ x. Flow) [
              | done m ↦ on (send server sql s)
              | failed f ↦ throw f (send server sql s)
            ])
            e in
        (send server sql s, step, send_if-Kept true sql s)

    use_database-GoesOn :
        (name : Option Bytes) (s : Restore)
        → ((x : Bytes) → name ≡ some x → quote_identifier x ≢ none)
        → GoesOn (Kept s) (use_database server name s)
    unfolding use_database use_named
    use_database-GoesOn none s quotes = (s, refl, (refl, refl, refl))
    use_database-GoesOn (some []) s quotes = (s, refl, (refl, refl, refl))
    use_database-GoesOn (some (c ∷ cs)) s quotes = elim (Option-cases (quote_identifier (c ∷ cs))) [
      | inl bad ↦ ground (arith, quotes (c ∷ cs) refl bad)
      | inr (quoted, e) ↦
          let (s', goes, kept) = require-GoesOn (codes "USE " ++ quoted) s in
          (s', rw (e, use_named) goes, kept)
    ]

    start_transaction-GoesOn :
        (options : RestoreOptions) (s : Restore)
        → GoesOn (Kept s) (start_transaction server options s)
    unfolding start_transaction
    start_transaction-GoesOn options s =
        if-GoesOn (Kept s) options.single_transaction _ s
          (then_go-GoesOn (Kept s) (Kept s) (require server (codes "START TRANSACTION") s) _
            (require-GoesOn (codes "START TRANSACTION") s) (λ s' kept. (_, refl, kept)))
          (refl, refl, refl)

    commit-GoesOn : (s : Restore) → GoesOn (Kept s) (commit server s)
    unfolding commit
    commit-GoesOn s =
        if-GoesOn (Kept s) s.transaction_open _ s
          (then_go-GoesOn (Kept s) (Kept s) (require server (codes "COMMIT") s) _
            (require-GoesOn (codes "COMMIT") s) (λ s' kept. (_, refl, kept)))
          (refl, refl, refl)

    run_statement-GoesOn :
        (options : RestoreOptions) (statement : ParsedStatement) (s : Restore)
        → GoesOn (Executed 1 s) (run_statement server options statement s)
    unfolding run_statement
    run_statement-GoesOn options statement s =
        let sql = apply_definer_policy statement.sql (or_default options.definer_policy preserve) in
        let ready = ready_for sql statement s in
        let (n, e) = answers ready.sent sql in
        let step : run_statement server options statement s
            ≡ on (executed n sql (send server sql ready)) =
          rw (e, run_statement) refl in
        (
          executed n sql (send server sql ready),
          step,
          executed-Executed n sql s ready (ready_for-Kept sql statement s),
        )

    module _ (is_aborted : ℕ → Bool) (runs : (n : ℕ) → is_aborted n ≡ false) where
      run_statements-GoesOn :
          (options : RestoreOptions) (place : ℕ) (statements : List ParsedStatement) (s : Restore)
          → GoesOn
              (Executed (length statements) s)
              (run_statements server options is_aborted none place statements s)
      unfolding run_statements end_stream
      run_statements-GoesOn options place [] s = (s, refl, (omega arith, refl, refl))
      run_statements-GoesOn options place (statement ∷ statements) s =
          let step : run_statements server options is_aborted none place (statement ∷ statements) s
              ≡ then_go (run_statement server options statement s)
                  (λ s'. run_statements server options is_aborted none (suc place) statements s') =
            rw (runs place, run_statements) refl in
          subst (GoesOn (Executed (suc (length statements)) s)) (sym step) (
            then_go-GoesOn (Executed 1 s) (Executed (suc (length statements)) s)
              (run_statement server options statement s) _
              (run_statement-GoesOn options statement s)
              (λ s' one.
                let (s'', goes, rest) = run_statements-GoesOn options (suc place) statements s' in
                (s'', goes, Executed-suc (length statements) s s' s'' one rest)))

      restore_body-GoesOn :
          (options : RestoreOptions) (statements : List ParsedStatement)
          → ((x : Bytes) → options.database_name ≡ some x → quote_identifier x ≢ none)
          → GoesOn
              (Executed (length statements) begun)
              (restore_body server options is_aborted none statements)
      unfolding restore_body
      restore_body-GoesOn options statements quotes =
          let n = length statements in
          then_go-GoesOn (Kept begun) (Executed n begun)
            (use_database server options.database_name begun) _
            (use_database-GoesOn options.database_name begun quotes)
            (λ s kept.
              then_go-GoesOn (Kept s) (Executed n begun) (start_transaction server options s) _
                (start_transaction-GoesOn options s)
                (λ s' kept'.
                  then_go-GoesOn (Executed n s') (Executed n begun)
                    (run_statements server options is_aborted none 0 statements s') _
                    (run_statements-GoesOn options 0 statements s')
                    (λ s'' all.
                      let (t, goes, kept'') = commit-GoesOn s'' in
                      (
                        t,
                        goes,
                        Executed-Kept n begun s'' t
                            (Kept-Executed n begun s' s'' (Kept-trans begun s s' kept kept') all)
                            kept'',
                      ))))

      -- A restore on a connection that executes every statement, with no database name or one that can
      -- be quoted, and with no abort and no error of the stream or of the first release, returns
      -- uncancelled, with every statement counted as executed, none as failed and no error noted.
      pub restore_sql_dump-succeeds :
          (options : RestoreOptions) (release_error : ℕ → Option Failure)
          (statements : List ParsedStatement)
          → ((x : Bytes) → options.database_name ≡ some x → quote_identifier x ≢ none)
          → release_error 0 ≡ none
          → (s : Restore) × (restore_sql_dump server options is_aborted release_error none
                statements
              ≡ returned false s)
            × (s.statements_executed ≡ length statements)
            × (s.statements_failed ≡ 0)
            × (s.errors ≡ [])
      unfolding restore_sql_dump close
      restore_sql_dump-succeeds options release_error statements quotes releases =
          let (s, goes, all) = restore_body-GoesOn options statements quotes in
          let held : Held s =
            subst (Reaches Held) goes
              (restore_body-Held server options is_aborted none statements) in
          let released = ap release_error held ∙ releases in
          let step : conclude server options release_error s
              ≡ returned false (finalize server options s) =
            rw (released, conclude) refl in
          let (ex, fl, er) =
            Executed-Kept (length statements) begun s (finalize server options s) all
              (finalize-Kept options s) in
          (
            finalize server options s,
            ap (close server options release_error) goes ∙ step,
            omega (arith, ex),
            fl,
            er,
          )
