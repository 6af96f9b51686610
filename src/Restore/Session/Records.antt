-- ===== src/Restore/Session/Records.antt =====
-- `observe` of src/restore/sessionState.ts: the record against the statements that were observed.
use dbgate_mysql_dumper.Base.{
  List, ◌≡◌, Bytes, refl, ap, ◌∙◌, arith, inl, inr, Bool-cases, Bool, false, ◌&&◌, ◌||◌, not,
  if◌then◌else◌,
}
use dbgate_mysql_dumper.Text.Regex.{test_at_start}
use dbgate_mysql_dumper.Restore.Session.{
  GuardCode, table_locks, same_code, guard_patterns, restored_patterns, lock_tables, unlock_tables,
  is_root_set_statement, has_code, detect_guards, detect_restored, observe_locks, observe,
}
use dbgate_mysql_dumper.Restore.Session.Observed.{
  changes, puts_back, has_code-add_code, has_code-delete_code, detect_guards-has_code,
  detect_restored-has_code,
}

-- Whether a code is recorded behind the statement, the locks left aside.
abbrev pub set_behind : Bytes → GuardCode → List GuardCode → Bool
set_behind sql c changed =
    if is_root_set_statement sql
    then (has_code c changed || changes sql c guard_patterns)
      && not (puts_back sql c restored_patterns)
    else has_code c changed

set_behind_lem :
    (sql : Bytes) (c : GuardCode) (changed : List GuardCode)
    → has_code c (
        if is_root_set_statement sql
        then detect_restored sql restored_patterns (detect_guards sql guard_patterns changed)
        else changed)
      ≡ set_behind sql c changed
set_behind_lem sql c changed = elim (Bool-cases (is_root_set_statement sql)) [
  | inl root ↦ rw root (
      detect_restored-has_code sql c restored_patterns (detect_guards sql guard_patterns changed)
      ∙ ap (λ b. b && not (puts_back sql c restored_patterns))
          (detect_guards-has_code sql c guard_patterns changed))
  | inr other ↦ rw other refl
]

locked_step : (h p : Bool) → p ≡ false → (h || p) ≡ h
locked_step h p e = ground (arith, e)

unlocked_step : (h p : Bool) → p ≡ false → (h && not p) ≡ h
unlocked_step h p e = ground (arith, e)

observe_locks-other :
    (sql : Bytes) (c : GuardCode) (changed : List GuardCode)
    → same_code c table_locks ≡ false
    → has_code c (observe_locks sql changed) ≡ has_code c changed
unfolding observe_locks
observe_locks-other sql c changed other = elim (Bool-cases (test_at_start lock_tables sql)) [
  | inl locks ↦ rw locks (
      has_code-add_code c table_locks changed
      ∙ locked_step (has_code c changed) (same_code c table_locks) other)
  | inr not_lock ↦ elim (Bool-cases (test_at_start unlock_tables sql)) [
    | inl unlocks ↦
        rw (not_lock, unlocks)
          (has_code-delete_code c table_locks changed
            ∙ unlocked_step (has_code c changed) (same_code c table_locks) other)
    | inr not_unlock ↦ rw (not_lock, not_unlock) refl
  ]
]

-- A guard is recorded behind a statement exactly when the statement is not one that puts it back, and
-- changes it or finds it recorded; a statement that is no SET at its root leaves the guards as they were.
pub observe-has_code :
    (sql : Bytes) (c : GuardCode) (changed : List GuardCode)
    → same_code c table_locks ≡ false
    → has_code c (observe sql changed) ≡ set_behind sql c changed
unfolding observe
observe-has_code sql c changed other =
    observe_locks-other sql c
      (if is_root_set_statement sql
        then detect_restored sql restored_patterns (detect_guards sql guard_patterns changed)
        else changed)
      other
    ∙ set_behind_lem sql c changed
