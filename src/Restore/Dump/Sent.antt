-- ===== src/Restore/Dump/Sent.antt =====
-- src/restore/restoreSqlDump.ts: what may be sent for the statements of a dump, by the definer policy.

use dbgate_mysql_dumper.Base.{[], ◌∷◌, ◌++◌, List, ◌≡◌, Bytes, Bool, true, false}
use dbgate_mysql_dumper.Restore.Parser.State.{ParsedStatement}
use dbgate_mysql_dumper.Renderer.Definer.{
  DefinerPolicy, strip, apply_definer_policy, has_definer_clause,
}
use dbgate_mysql_dumper.Restore.Dump.State.{
  Failure, Answer, failed, Exchange, Restore, Flow, on, stop, throw, is_definer_error,
  is_best_effort,
}

-- What is sent for one statement of the dump: the statement under the policy, once; or, under the policy
-- `best-effort` and when it fails for its definer, a second time with its definer clause removed.
pub data SentOnce (policy : DefinerPolicy) (sql : Bytes) (xs : List Exchange) : Type 0 where
  once : (a : Answer) → xs ≡ (apply_definer_policy sql policy, a) ∷ [] → SentOnce policy sql xs
  retried_once :
      (f : Failure) (a : Answer)
      → is_best_effort policy ≡ true
      → is_definer_error f.errno ≡ true
      → has_definer_clause (apply_definer_policy sql policy) ≡ true
      → f.is_abort ≡ false
      → xs
        ≡ (apply_definer_policy sql policy, failed f)
          ∷ (apply_definer_policy (apply_definer_policy sql policy) strip, a)
          ∷ []
      → SentOnce policy sql xs

-- What is sent for the statements of a dump, in their order: all of them, or, when the index says so, a
-- part of them from the first on.
pub data SentFor (policy : DefinerPolicy)
    : Bool → List ParsedStatement → List Exchange → Type 0 where
  sent_all : {all : Bool} → SentFor policy all [] []
  left_out : (statements : List ParsedStatement) → SentFor policy false statements []
  next :
      {all : Bool} {statement : ParsedStatement} {statements : List ParsedStatement}
      (xs ys zs : List Exchange)
      → SentOnce policy statement.sql xs
      → SentFor policy all statements ys
      → zs ≡ xs ++ ys
      → SentFor policy all (statement ∷ statements) zs

abbrev pub goes_on : Flow → Bool
goes_on (on s) = true
goes_on (stop s) = false
goes_on (throw f s) = false

abbrev pub reached : Flow → Restore
reached (on s) = s
reached (stop s) = s
reached (throw f s) = s

abbrev pub Adds : (List Exchange → Type 0) → Restore → Restore → Type 0
Adds P s s' = (xs : List Exchange) × (s'.sent ≡ s.sent ++ xs) × P xs

abbrev pub Sends : DefinerPolicy → List ParsedStatement → Restore → Flow → Type 0
Sends policy statements s flow = Adds (SentFor policy (goes_on flow) statements) s (reached flow)
