-- ===== src/Restore/Dump/Finalize.antt =====
-- `finalize` of src/restore/restoreSqlDump.ts, with `restore` of src/restore/sessionState.ts.
use dbgate_mysql_dumper.Base.{◌+◌, [], ◌∷◌, ◌++◌, List, true, false, ◌&&◌, if◌then◌else◌, codes}
use dbgate_mysql_dumper.Restore.Session.{GuardCode, table_locks, Guard, guard_patterns, has_code}
use dbgate_mysql_dumper.Planning.Archive.Model.{or_default}
use dbgate_mysql_dumper.Restore.Dump.State.{
  Server, RestoreOptions, session_state_restored, Restore, answer_to, send, is_done,
}

unfoldable pub warn_restored : List GuardCode → Restore → Restore
warn_restored [] s = s
warn_restored (code ∷ codes) s = record s {
  warnings = s.warnings ++ session_state_restored (code ∷ codes) ∷ [];
}

module _ (server : Server) where
  -- The loop over the guards of `restore`; the codes that were restored are added to the list.
  unfoldable pub restore_guards :
      List Guard → List GuardCode → Restore → List GuardCode → Restore × List GuardCode
  unfolding send is_done has_code
  restore_guards [] changed s restored = (s, restored)
  restore_guards (g ∷ gs) changed s restored =
      restore_guards gs changed (if has_code g.code changed then send server g.restore s else s) (
        if has_code g.code changed && is_done (answer_to server s g.restore)
        then restored ++ g.code ∷ []
        else restored)

  unfoldable pub restore_session : Restore → Restore × List GuardCode
  unfolding send is_done has_code restore_guards
  restore_session s =
      let unlock = codes "UNLOCK TABLES" in
      let locked = has_code table_locks s.changed in
      let (s', restored) =
        restore_guards guard_patterns s.changed (if locked then send server unlock s else s)
          (if locked && is_done (answer_to server s unlock) then table_locks ∷ [] else []) in
      (record s' { changed = [] }, restored)

  unfoldable pub roll_back : Restore → Restore
  unfolding send
  roll_back s =
      if s.transaction_open
      then record (send server (codes "ROLLBACK") s) { transaction_open = false }
      else s

  -- `finalize`, up to the call of `release`
  unfoldable pub finalize : RestoreOptions → Restore → Restore
  unfolding roll_back restore_session warn_restored
  finalize options s =
      let rolled = roll_back s in
      let (restored, codes) = restore_session rolled in
      let cleaned =
        if or_default options.restore_session_state true
        then warn_restored codes restored
        else rolled in
      record cleaned { releases = cleaned.releases + 1 }
