-- ===== src/Restore/Dump/Cleanup.antt =====
-- src/restore/restoreSqlDump.ts: the releases of the connection, and the state behind `finalize`.
use dbgate_mysql_dumper.Base.{
  same, ℕ, suc, ◌+◌, [], ◌∷◌, ◌++◌, List, ◌≡◌, ◌⊎◌, Bytes, refl, sym, ◌∙◌, subst, arith, Option,
  none, some, inl, inr, Bool-cases, Option-cases, Bool, true, false, ◌&&◌, if◌then◌else◌, codes,
}
use dbgate_mysql_dumper.Restore.Dump.Run.{
  require, use_named, use_database, start_transaction, commit, restore_body,
}
use dbgate_mysql_dumper.Restore.Dump.Statements.{
  end_stream, maybe_retry_without_definer, executed, note_error, warn_rewritten, failed_statement,
  ready_for, run_statement, run_statements,
}
use dbgate_mysql_dumper.Restore.Dump.State.{
  then_go, Failure, Answer, done, failed, Server, RestoreOptions, Restore, begun, Flow, on, stop,
  throw, Outcome, returned, rejected, answer_to, send, is_done,
}
use dbgate_mysql_dumper.Security.Identifiers.{quote_identifier}
use dbgate_mysql_dumper.Restore.Parser.State.{ParsedStatement}
use dbgate_mysql_dumper.Restore.Session.{GuardCode, table_locks, Guard, guard_patterns, has_code}
use dbgate_mysql_dumper.Planning.Archive.Model.{or_default}
use dbgate_mysql_dumper.Restore.Dump.Finalize.{
  restore_guards, restore_session, warn_restored, roll_back, finalize,
}

abbrev pub final : Outcome → Restore
final (returned cancelled s) = s
final (rejected f s) = s

-- A property of the state that the body reaches, however it ends.
abbrev pub Reaches {ℓ} : (Restore → Type ℓ) → Flow → Type ℓ
Reaches P (on s) = P s
Reaches P (stop s) = P s
Reaches P (throw f s) = P s

pub then_go-Reaches {ℓ} :
    (P : Restore → Type ℓ) (flow : Flow) (k : Restore → Flow)
    → Reaches P flow
    → ((s : Restore) → P s → Reaches P (k s))
    → Reaches P (then_go flow k)
then_go-Reaches P (on s) k h keeps = keeps s h
then_go-Reaches P (stop s) k h keeps = h
then_go-Reaches P (throw f s) k h keeps = h

pub if-Reaches {ℓ} :
    (P : Restore → Type ℓ) (b : Bool) (f g : Flow)
    → Reaches P f
    → Reaches P g
    → Reaches P (if b then f else g)
if-Reaches P true f g h k = h
if-Reaches P false f g h k = k

pub Answer-cases : (a : Answer) → ((n : ℕ) × (a ≡ done n)) ⊎ ((f : Failure) × (a ≡ failed f))
Answer-cases (done n) = inl (n, refl)
Answer-cases (failed f) = inr (f, refl)

-- The connection was not released yet.
abbrev pub Held : Restore → Type 0
Held s = s.releases ≡ 0

warn_restored-kept :
    (codes : List GuardCode) (s : Restore)
    → let s' = warn_restored codes s in
      (s'.transaction_open ≡ s.transaction_open)
      × (s'.releases ≡ s.releases)
      × (s'.changed ≡ s.changed)
unfolding warn_restored
warn_restored-kept [] s = (refl, refl, refl)
warn_restored-kept (code ∷ codes) s = (refl, refl, refl)

module _ (server : Server) where
  require-Held : (sql : Bytes) (s : Restore) → Held s → Reaches Held (require server sql s)
  unfolding require send
  require-Held sql s h = elim (Answer-cases (server s.sent sql)) [
    | inl (n, e) ↦ rw (e, require) h
    | inr (f, e) ↦ rw (e, require) h
  ]

  use_database-Held :
      (name : Option Bytes) (s : Restore) → Held s → Reaches Held (use_database server name s)
  unfolding use_database use_named
  use_database-Held none s h = h
  use_database-Held (some []) s h = h
  use_database-Held (some (c ∷ cs)) s h = elim (Option-cases (quote_identifier (c ∷ cs))) [
    | inl bad ↦ rw (bad, use_named) h
    | inr (quoted, e) ↦ rw (e, use_named) (require-Held (codes "USE " ++ quoted) s h)
  ]

  start_transaction-Held :
      (options : RestoreOptions) (s : Restore)
      → Held s
      → Reaches Held (start_transaction server options s)
  unfolding start_transaction
  start_transaction-Held options s h = elim (Bool-cases options.single_transaction) [
    | inl wanted ↦ rw wanted (
        then_go-Reaches Held (require server (codes "START TRANSACTION") s) _
          (require-Held (codes "START TRANSACTION") s h) (λ s' h'. h'))
    | inr not_wanted ↦ rw not_wanted h
  ]

  commit-Held : (s : Restore) → Held s → Reaches Held (commit server s)
  unfolding commit
  commit-Held s h =
      if-Reaches Held s.transaction_open _ (on s)
        (then_go-Reaches Held (require server (codes "COMMIT") s) _
          (require-Held (codes "COMMIT") s h) (λ s' h'. h'))
        h

  run_statement-Held :
      (options : RestoreOptions) (statement : ParsedStatement) (s : Restore)
      → Held s
      → Reaches Held (run_statement server options statement s)
  unfolding run_statement ready_for failed_statement maybe_retry_without_definer executed
      warn_rewritten note_error send same
  run_statement-Held options statement s h = ground arith

  run_statements-Held :
      (options : RestoreOptions) (is_aborted : ℕ → Bool) (ending : Option Failure) (place : ℕ)
      (statements : List ParsedStatement) (s : Restore)
      → Held s
      → Reaches Held (run_statements server options is_aborted ending place statements s)
  unfolding run_statements end_stream
  run_statements-Held options is_aborted ending place [] s h = elim (Option-cases ending) [
    | inl none_thrown ↦ rw (none_thrown, end_stream) h
    | inr (f, e) ↦ rw (e, end_stream) h
  ]
  run_statements-Held options is_aborted ending place (statement ∷ statements) s h =
      elim (Bool-cases (is_aborted place)) [
        | inl yes_aborted ↦ rw (yes_aborted, run_statements) h
        | inr not_aborted ↦
            let step : run_statements server options is_aborted ending place
                  (statement ∷ statements) s
                ≡ then_go (run_statement server options statement s) (λ s'.
                  run_statements server options is_aborted ending (suc place) statements s') =
              rw (not_aborted, run_statements) refl in
            subst (Reaches Held) (sym step) (
              then_go-Reaches Held (run_statement server options statement s) _
                (run_statement-Held options statement s h)
                (run_statements-Held options is_aborted ending (suc place) statements))
      ]

  pub restore_body-Held :
      (options : RestoreOptions) (is_aborted : ℕ → Bool) (ending : Option Failure)
      (statements : List ParsedStatement)
      → Reaches Held (restore_body server options is_aborted ending statements)
  unfolding restore_body
  restore_body-Held options is_aborted ending statements =
      then_go-Reaches Held (use_database server options.database_name begun) _
        (use_database-Held options.database_name begun refl)
        (λ s h.
          then_go-Reaches Held (start_transaction server options s) _
            (start_transaction-Held options s h)
            (λ s' h'.
              then_go-Reaches Held (run_statements server options is_aborted ending 0 statements s')
                (commit server) (run_statements-Held options is_aborted ending 0 statements s' h')
                commit-Held))

  restore_guards-kept :
      (gs : List Guard) (changed : List GuardCode) (s : Restore) (restored : List GuardCode)
      → let s' = (restore_guards server gs changed s restored).0 in
        (s'.transaction_open ≡ s.transaction_open) × (s'.releases ≡ s.releases)
  unfolding restore_guards send
  restore_guards-kept [] changed s restored = (refl, refl)
  restore_guards-kept (g ∷ gs) changed s restored =
      let s' = if has_code g.code changed then send server g.restore s else s in
      let restored' =
        if has_code g.code changed && is_done (answer_to server s g.restore)
        then restored ++ g.code ∷ []
        else restored in
      let (transaction, releases) = restore_guards-kept gs changed s' restored' in
      elim (Bool-cases (has_code g.code changed)) [
        | inl wanted ↦ ground (arith, transaction, releases, wanted)
        | inr not_wanted ↦ ground (arith, transaction, releases, not_wanted)
      ]

  restore_session-kept :
      (s : Restore)
      → let s' = (restore_session server s).0 in
        (s'.transaction_open ≡ s.transaction_open) × (s'.releases ≡ s.releases) × (s'.changed ≡ [])
  unfolding restore_session send
  restore_session-kept s =
      let unlock = codes "UNLOCK TABLES" in
      let locked = has_code table_locks s.changed in
      let s' = if locked then send server unlock s else s in
      let (transaction, releases) =
        restore_guards-kept guard_patterns s.changed s'
          (if locked && is_done (answer_to server s unlock) then table_locks ∷ [] else []) in
      elim (Bool-cases locked) [
        | inl held ↦ ground (arith, transaction, releases, held)
        | inr free ↦ ground (arith, transaction, releases, free)
      ]

  roll_back-closed :
      (s : Restore)
      → ((roll_back server s).transaction_open ≡ false)
        × ((roll_back server s).releases ≡ s.releases)
  unfolding roll_back send
  roll_back-closed s = ground arith

  -- `finalize` closes the transaction, and undoes what the dump changed unless it is not to.
  pub finalize_lem :
      (options : RestoreOptions) (s : Restore)
      → let s' = finalize server options s in
        (s'.transaction_open ≡ false)
        × (s'.releases ≡ s.releases + 1)
        × (or_default options.restore_session_state true ≡ true → s'.changed ≡ [])
  unfolding finalize
  finalize_lem options s =
      let rolled = roll_back server s in
      let (closed, held) = roll_back-closed s in
      let (transaction, releases, unchanged) = restore_session-kept rolled in
      let (kept, kept', kept'') =
        warn_restored-kept (restore_session server rolled).1 (restore_session server rolled).0 in
      elim (Bool-cases (or_default options.restore_session_state true)) [
        | inl wanted ↦ rw wanted (
          kept ∙ (transaction ∙ closed),
          omega (arith, kept', releases, held),
          λ x. kept'' ∙ unchanged,
        )
        | inr not_wanted ↦ rw not_wanted (closed, omega (arith, held), λ x. cc)
      ]
