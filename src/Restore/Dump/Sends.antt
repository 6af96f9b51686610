-- ===== src/Restore/Dump/Sends.antt =====
-- src/restore/restoreSqlDump.ts: what the restore sends on the connection.
use dbgate_mysql_dumper.Restore.Dump.Statements.{
  end_stream, maybe_retry_without_definer, executed, note_error, warn_rewritten, failed_statement,
  ready_for, run_statement, run_statements,
}
use dbgate_mysql_dumper.Base.{
  same, ℕ, suc, [], ◌∷◌, ◌++◌, List, ◌≡◌, ◌⊎◌, Bytes, refl, sym, ap, ◌∙◌, subst, arith, Option, inl,
  inr, Bool-cases, Option-cases, Bool, true, ◌||◌, not, append_assoc, append-nil,
}
use dbgate_mysql_dumper.Restore.Parser.State.{ParsedStatement}
use dbgate_mysql_dumper.Renderer.Definer.{
  DefinerPolicy, preserve, strip, apply_definer_policy, has_definer_clause,
}
use dbgate_mysql_dumper.Planning.Archive.Model.{or_default}
use dbgate_mysql_dumper.Restore.Dump.State.{
  Failure, Answer, failed, Exchange, Server, RestoreOptions, Restore, Retried, retried, not_retried,
  aborted, Flow, on, stop, throw, is_definer_error, is_best_effort, answer_to, send, then_go,
}
use dbgate_mysql_dumper.Restore.Dump.Cleanup.{Reaches, if-Reaches, Answer-cases}
use dbgate_mysql_dumper.Restore.Dump.Sent.{
  SentOnce, once, retried_once, sent_all, left_out, next, Adds, Sends,
}

failed_statement-sent :
    (options : RestoreOptions) (statement : ParsedStatement) (f : Failure) (s : Restore)
    (r : Retried)
    → Reaches (λ s'. s'.sent ≡ s.sent) (failed_statement options statement f (s, r))
unfolding failed_statement executed warn_rewritten note_error
failed_statement-sent options statement f s (retried n sql) = refl
failed_statement-sent options statement f s (aborted g) = refl
failed_statement-sent options statement f s not_retried =
    if-Reaches (λ s'. s'.sent ≡ s.sent) (or_default options.stop_on_error true) _ _ refl refl

Reaches-map :
    (P Q : Restore → Type 0) (flow : Flow)
    → Reaches P flow
    → ((s : Restore) → P s → Q s)
    → Reaches Q flow
Reaches-map P Q (on s) h f = f s h
Reaches-map P Q (stop s) h f = f s h
Reaches-map P Q (throw e s) h f = f s h

twice_sent :
    (xs ys : List Exchange) (x y z : Exchange)
    → xs ≡ ys ++ x ∷ []
    → x ≡ y
    → xs ++ z ∷ [] ≡ ys ++ y ∷ z ∷ []
twice_sent xs ys x y z e k = rw e (rw k (append_assoc ys (y ∷ []) (z ∷ [])))

executed-sent : (n : ℕ) (sql : Bytes) (s : Restore) → (executed n sql s).sent ≡ s.sent
unfolding executed
executed-sent n sql s = refl

-- What the rest sends comes behind what the statement sends.
then_go-Sends :
    (policy : DefinerPolicy) (statement : ParsedStatement) (statements : List ParsedStatement)
    (s : Restore) (flow : Flow) (k : Restore → Flow)
    → Reaches (Adds (SentOnce policy statement.sql) s) flow
    → ((s' : Restore) → Sends policy statements s' (k s'))
    → Sends policy (statement ∷ statements) s (then_go flow k)
then_go-Sends policy statement statements s (on s') k (xs, e, once_sent) rest =
    let (ys, e', sent) = rest s' in
    (
      xs ++ ys,
      e' ∙ (ap (λ zs. zs ++ ys) e ∙ append_assoc s.sent xs ys),
      next xs ys (xs ++ ys) once_sent sent refl,
    )
then_go-Sends policy statement statements s (stop s') k (xs, e, once_sent) rest =
    (xs, e, next xs [] xs once_sent (left_out statements) (sym (append-nil xs)))
then_go-Sends policy statement statements s (throw f s') k (xs, e, once_sent) rest =
    (xs, e, next xs [] xs once_sent (left_out statements) (sym (append-nil xs)))

module _ (server : Server) where
  maybe_retry_without_definer-sent :
      (sql : Bytes) (policy : DefinerPolicy) (f : Failure) (s : Restore)
      → let s' = (maybe_retry_without_definer server sql policy f s).0 in
        (s'.sent ≡ s.sent)
        ⊎ ((a : Answer) × (s'.sent ≡ s.sent ++ (apply_definer_policy sql strip, a) ∷ [])
            × (is_best_effort policy ≡ true)
            × (is_definer_error f.errno ≡ true)
            × (has_definer_clause sql ≡ true))
  unfolding maybe_retry_without_definer send
  maybe_retry_without_definer-sent sql policy f s =
      let without_definer = apply_definer_policy sql strip in
      let skips =
        not (is_best_effort policy)
        || not (has_definer_clause sql)
        || not (is_definer_error f.errno)
        || same without_definer sql in
      elim (Bool-cases skips) [
        | inl skipped ↦ inl (ground (arith, skipped))
        | inr tried ↦ inr (
          answer_to server s without_definer,
          ground (arith, tried),
          ground (arith, tried),
          ground (arith, tried),
          ground (arith, tried),
        )
      ]

  ready_for-sent :
      (sql : Bytes) (statement : ParsedStatement) (s : Restore)
      → (ready_for sql statement s).sent ≡ s.sent
  unfolding ready_for warn_rewritten
  ready_for-sent sql statement s = ground arith

  send-sent :
      (sql : Bytes) (s : Restore)
      → (send server sql s).sent ≡ s.sent ++ (sql, answer_to server s sql) ∷ []
  unfolding send
  send-sent sql s = refl

  run_statement-SentOnce :
      (options : RestoreOptions) (statement : ParsedStatement) (s : Restore)
      → let policy = or_default options.definer_policy preserve in
        Reaches (Adds (SentOnce policy statement.sql) s) (run_statement server options statement s)
  unfolding run_statement
  run_statement-SentOnce options statement s =
      let policy = or_default options.definer_policy preserve in
      let sql = apply_definer_policy statement.sql policy in
      let ready = ready_for sql statement s in
      let before =
        send-sent sql ready
        ∙ ap (λ xs. xs ++ (sql, answer_to server ready sql) ∷ [])
            (ready_for-sent sql statement s) in
      let sent = send server sql ready in
      elim (Answer-cases (answer_to server ready sql)) [
        | inl (n, e) ↦
            let step : run_statement server options statement s ≡ on (executed n sql sent) =
              rw (e, run_statement) refl in
            subst (Reaches (Adds (SentOnce policy statement.sql) s)) (sym step) (
              (sql, answer_to server ready sql) ∷ [],
              executed-sent n sql sent ∙ before,
              once (answer_to server ready sql) refl,
            )
        | inr (f, e) ↦ elim (Bool-cases f.is_abort) [
          | inl abort ↦
              let step : run_statement server options statement s ≡ throw f sent =
                rw (e, run_statement) (rw abort refl) in
              subst (Reaches (Adds (SentOnce policy statement.sql) s)) (sym step) (
                (sql, answer_to server ready sql) ∷ [],
                before,
                once (answer_to server ready sql) refl,
              )
          | inr ordinary ↦
              let r = maybe_retry_without_definer server sql policy f sent in
              let step : run_statement server options statement s
                  ≡ failed_statement options statement f r =
                rw (e, run_statement) (rw ordinary refl) in
              subst (Reaches (Adds (SentOnce policy statement.sql) s)) (sym step) (
                Reaches-map _ _ (failed_statement options statement f r)
                  (failed_statement-sent options statement f r.0 r.1)
                  (λ s' kept. elim (maybe_retry_without_definer-sent sql policy f sent) [
                    | inl unsent ↦ (
                      (sql, answer_to server ready sql) ∷ [],
                      kept ∙ (unsent ∙ before),
                      once (answer_to server ready sql) refl,
                    )
                    | inr (a, resent, best, definer, clause) ↦ (
                      (sql, failed f) ∷ (apply_definer_policy sql strip, a) ∷ [],
                      kept ∙ (resent ∙ twice_sent _ _ _ _ _ before (ap (λ a. (sql, a)) e)),
                      retried_once f a best definer clause ordinary refl,
                    )
                  ]))
        ]
      ]

  -- The loop over the statements sends them in their order, each as the policy has it, and a second time
  -- without its definer clause only under the policy `best-effort`, when the first answer is an error
  -- about the definer; and it leaves none of them out unless it stops or throws.
  pub run_statements-Sends :
      (options : RestoreOptions) (is_aborted : ℕ → Bool) (ending : Option Failure) (place : ℕ)
      (statements : List ParsedStatement) (s : Restore)
      → Sends
          (or_default options.definer_policy preserve)
          statements
          s
          (run_statements server options is_aborted ending place statements s)
  unfolding run_statements end_stream
  run_statements-Sends options is_aborted ending place [] s = elim (Option-cases ending) [
    | inl none_thrown ↦ rw (none_thrown, end_stream) ([], sym (append-nil s.sent), sent_all)
    | inr (f, e) ↦ rw (e, end_stream) ([], sym (append-nil s.sent), sent_all)
  ]
  run_statements-Sends options is_aborted ending place (statement ∷ statements) s =
      let policy = or_default options.definer_policy preserve in
      elim (Bool-cases (is_aborted place)) [
        | inl yes_aborted ↦
            rw (yes_aborted, run_statements)
              ([], sym (append-nil s.sent), left_out (statement ∷ statements))
        | inr not_aborted ↦
            let step : run_statements server options is_aborted ending place
                  (statement ∷ statements) s
                ≡ then_go (run_statement server options statement s) (λ s'.
                  run_statements server options is_aborted ending (suc place) statements s') =
              rw (not_aborted, run_statements) refl in
            subst (Sends policy (statement ∷ statements) s) (sym step) (
              then_go-Sends policy statement statements s (run_statement server options statement s)
                _ (run_statement-SentOnce options statement s)
                (run_statements-Sends options is_aborted ending (suc place) statements))
      ]
