-- ===== src/Restore/Dump/Closing.antt =====
-- src/restore/restoreSqlDump.ts: what the restore sends when it ends, and the release of the connection.
use dbgate_mysql_dumper.Base.{ℕ, ◌<◌, ◌++◌, ◌≡◌, Option, none}
use dbgate_mysql_dumper.Restore.Dump.State.{Failure, RestoreOptions, Restore}
use dbgate_mysql_dumper.Restore.Dump.Undone.{texts, cleanup}

-- What a restore whose body reached the one state leaves in the other.
abbrev CleanedUp : RestoreOptions → (ℕ → Option Failure) → Restore → Restore → Type 0
CleanedUp options release_error s s' =
    (texts s'.sent ≡ texts s.sent ++ cleanup options s)
    × (0 < s'.releases)
    × (release_error 0 ≡ none → s'.releases ≡ 1)
