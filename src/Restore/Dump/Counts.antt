-- ===== src/Restore/Dump/Counts.antt =====
-- src/restore/restoreSqlDump.ts: the counts of the result.
use dbgate_mysql_dumper.Base.{
  ℕ, suc, ◌+◌, ◌≤◌, [], ◌∷◌, List, ◌≡◌, Bytes, length, refl, sym, ap, ◌∙◌, subst, arith, Option,
  inl, inr, Bool-cases, Option-cases, Bool, true, ◌||◌, not, length-append, same,
}
use dbgate_mysql_dumper.Restore.Parser.State.{ParsedStatement}
use dbgate_mysql_dumper.Renderer.Definer.{
  DefinerPolicy, preserve, strip, apply_definer_policy, has_definer_clause,
}
use dbgate_mysql_dumper.Planning.Archive.Model.{or_default}
use dbgate_mysql_dumper.Restore.Dump.State.{
  Failure, Server, RestoreOptions, Restore, Retried, retried, not_retried, aborted, Flow, on, stop,
  throw, is_definer_error, is_best_effort, answer_to, send, then_go,
}
use dbgate_mysql_dumper.Restore.Dump.Statements.{
  end_stream, maybe_retry_without_definer, executed, note_error, warn_rewritten, failed_statement,
  ready_for, run_statement, run_statements,
}
use dbgate_mysql_dumper.Restore.Dump.Cleanup.{Answer-cases}

-- The statements that were executed or failed.
abbrev pub processed : Restore → ℕ
processed s = s.statements_executed + s.statements_failed

-- As many errors were noted as statements failed.
abbrev pub Tallied : Restore → Restore → Type 0
Tallied s s' = length s'.errors + s.statements_failed ≡ length s.errors + s'.statements_failed

-- What a part of the loop over `n` statements may do to the counts.
abbrev pub Counts : Bool → ℕ → Restore → Flow → Type 0
Counts stops n s (on s') =
    (processed s' ≡ processed s + n)
    × Tallied s s'
    × (stops ≡ true → s'.statements_failed ≡ s.statements_failed)
Counts stops n s (stop s') =
    (processed s' ≤ processed s + n)
    × Tallied s s'
    × (stops ≡ true)
    × (s'.statements_failed ≡ s.statements_failed + 1)
Counts stops n s (throw f s') =
    (processed s' ≤ processed s + n)
    × Tallied s s'
    × (stops ≡ true → s'.statements_failed ≡ s.statements_failed)

abbrev pub Kept : Restore → Restore → Type 0
Kept s s' =
    (s'.statements_executed ≡ s.statements_executed)
    × (s'.statements_failed ≡ s.statements_failed)
    × (s'.errors ≡ s.errors)

pub ready_for-Kept :
    (sql : Bytes) (statement : ParsedStatement) (s : Restore) → Kept s (ready_for sql statement s)
unfolding ready_for warn_rewritten
ready_for-Kept sql statement s = elim (Bool-cases (same sql statement.sql)) [
  | inl unchanged ↦ rw unchanged (refl, refl, refl)
  | inr rewritten ↦ rw rewritten (refl, refl, refl)
]

failed_statement-Counts :
    (options : RestoreOptions) (statement : ParsedStatement) (f : Failure) (s s' : Restore)
    (r : Retried)
    → Kept s s'
    → Counts
        (or_default options.stop_on_error true)
        1
        s
        (failed_statement options statement f (s', r))
unfolding failed_statement executed warn_rewritten note_error
failed_statement-Counts options statement f s s' (retried n sql) (ex, fl, er) =
    (omega (arith, ex, fl), omega (arith, fl, ap length er), λ x. fl)
failed_statement-Counts options statement f s s' (aborted g) (ex, fl, er) =
    (omega (arith, ex, fl), omega (arith, fl, ap length er), λ x. fl)
failed_statement-Counts options statement f s s' not_retried (ex, fl, er) =
    elim (Bool-cases (or_default options.stop_on_error true)) [
      | inl stops ↦ rw stops (
        omega (arith, ex, fl),
        omega (arith, fl, ap length er, length-append s'.errors _),
        refl,
        omega (arith, fl),
      )
      | inr goes ↦ rw goes (
        omega (arith, ex, fl),
        omega (arith, fl, ap length er, length-append s'.errors _),
        λ x. cc,
      )
    ]

executed-Counts :
    (stops : Bool) (n : ℕ) (sql : Bytes) (s s' : Restore)
    → Kept s s'
    → Counts stops 1 s (on (executed n sql s'))
unfolding executed
executed-Counts stops n sql s s' (ex, fl, er) =
    (omega (arith, ex, fl), omega (arith, fl, ap length er), λ x. fl)

throw-Counts :
    (stops : Bool) (f : Failure) (s s' : Restore) → Kept s s' → Counts stops 1 s (throw f s')
throw-Counts stops f s s' (ex, fl, er) =
    (omega (arith, ex, fl), omega (arith, fl, ap length er), λ x. fl)

-- What the rest counts comes on top of one statement that went on.
Counts-trans :
    (stops : Bool) (n : ℕ) (s s' : Restore) (flow : Flow)
    → Counts stops 1 s (on s')
    → Counts stops n s' flow
    → Counts stops (suc n) s flow
Counts-trans stops n s s' (on s'') (done_one, tally, steady) (done_rest, tally', steady') =
    (omega (arith, done_one, done_rest), omega (arith, tally, tally'), λ x. steady' x ∙ steady x)
Counts-trans stops n s s' (stop s'') (done_one, tally, steady) (done_rest, tally', e, one_failed) =
    (
      omega (arith, done_one, done_rest),
      omega (arith, tally, tally'),
      e,
      omega (arith, one_failed, steady e),
    )
Counts-trans stops n s s' (throw f s'') (done_one, tally, steady) (done_rest, tally', steady') =
    (omega (arith, done_one, done_rest), omega (arith, tally, tally'), λ x. steady' x ∙ steady x)

then_go-Counts :
    (stops : Bool) (n : ℕ) (s : Restore) (flow : Flow) (k : Restore → Flow)
    → Counts stops 1 s flow
    → ((s' : Restore) → Counts stops n s' (k s'))
    → Counts stops (suc n) s (then_go flow k)
then_go-Counts stops n s (on s') k one rest = Counts-trans stops n s s' (k s') one (rest s')
then_go-Counts stops n s (stop s') k (at_most, tally, e, one_failed) rest =
    (omega (arith, at_most), tally, e, one_failed)
then_go-Counts stops n s (throw f s') k (at_most, tally, steady) rest =
    (omega (arith, at_most), tally, steady)

module _ (server : Server) where
  send-Kept : (sql : Bytes) (s s' : Restore) → Kept s s' → Kept s (send server sql s')
  unfolding send
  send-Kept sql s s' kept = kept

  maybe_retry_without_definer-Kept :
      (sql : Bytes) (policy : DefinerPolicy) (f : Failure) (s s' : Restore)
      → Kept s s'
      → Kept s (maybe_retry_without_definer server sql policy f s').0
  unfolding maybe_retry_without_definer send
  maybe_retry_without_definer-Kept sql policy f s s' kept =
      let without_definer = apply_definer_policy sql strip in
      let skips =
        not (is_best_effort policy)
        || not (has_definer_clause sql)
        || not (is_definer_error f.errno)
        || same without_definer sql in
      elim (Bool-cases skips) [ inl skipped ↦ rw skipped kept | inr tried ↦ rw tried kept ]

  run_statement-Counts :
      (options : RestoreOptions) (statement : ParsedStatement) (s : Restore)
      → Counts
          (or_default options.stop_on_error true)
          1
          s
          (run_statement server options statement s)
  unfolding run_statement
  run_statement-Counts options statement s =
      let policy = or_default options.definer_policy preserve in
      let sql = apply_definer_policy statement.sql policy in
      let ready = ready_for sql statement s in
      let sent = send server sql ready in
      let kept = send-Kept sql s ready (ready_for-Kept sql statement s) in
      let Counted = Counts (or_default options.stop_on_error true) 1 s in
      elim (Answer-cases (answer_to server ready sql)) [
        | inl (n, e) ↦
            let step : run_statement server options statement s ≡ on (executed n sql sent) =
              rw (e, run_statement) refl in
            subst Counted (sym step)
              (executed-Counts (or_default options.stop_on_error true) n sql s sent kept)
        | inr (f, e) ↦ elim (Bool-cases f.is_abort) [
          | inl abort ↦
              let step : run_statement server options statement s ≡ throw f sent =
                rw (e, run_statement) (rw abort refl) in
              subst Counted (sym step)
                (throw-Counts (or_default options.stop_on_error true) f s sent kept)
          | inr ordinary ↦
              let r = maybe_retry_without_definer server sql policy f sent in
              let step : run_statement server options statement s
                  ≡ failed_statement options statement f r =
                rw (e, run_statement) (rw ordinary refl) in
              subst Counted (sym step) (
                failed_statement-Counts options statement f s r.0 r.1
                  (maybe_retry_without_definer-Kept sql policy f s sent kept))
        ]
      ]

  -- The loop counts each statement that it runs once, as executed or as failed, all of them when it goes
  -- on to the end; it notes one error for each that failed, and with `stopOnError` it goes on, or throws,
  -- only while none fails, and stops behind the first that does.
  pub run_statements-Counts :
      (options : RestoreOptions) (is_aborted : ℕ → Bool) (ending : Option Failure) (place : ℕ)
      (statements : List ParsedStatement) (s : Restore)
      → Counts
          (or_default options.stop_on_error true)
          (length statements)
          s
          (run_statements server options is_aborted ending place statements s)
  unfolding run_statements end_stream
  run_statements-Counts options is_aborted ending place [] s = elim (Option-cases ending) [
    | inl none_thrown ↦ rw (none_thrown, end_stream) (omega arith, refl, λ x. refl)
    | inr (f, e) ↦ rw (e, end_stream) (omega arith, refl, λ x. refl)
  ]
  run_statements-Counts options is_aborted ending place (statement ∷ statements) s =
      let stops = or_default options.stop_on_error true in
      elim (Bool-cases (is_aborted place)) [
        | inl yes_aborted ↦ rw (yes_aborted, run_statements) (omega arith, refl, λ x. refl)
        | inr not_aborted ↦
            let step : run_statements server options is_aborted ending place
                  (statement ∷ statements) s
                ≡ then_go (run_statement server options statement s) (λ s'.
                  run_statements server options is_aborted ending (suc place) statements s') =
              rw (not_aborted, run_statements) refl in
            subst (Counts stops (suc (length statements)) s) (sym step) (
              then_go-Counts stops (length statements) s (run_statement server options statement s)
                _ (run_statement-Counts options statement s)
                (run_statements-Counts options is_aborted ending (suc place) statements))
      ]
