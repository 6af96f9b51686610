-- ===== src/Restore/Session.antt =====
-- src/restore/sessionState.ts: the session variables that a dump changes, and their restoration.
pub mod Observed
pub mod Records
pub mod Peeling
pub mod Tests
use dbgate_mysql_dumper.Base.{
  ℕ, zero, suc, [], ◌∷◌, ◌++◌, List, Bytes, length, Option, none, some, Bool, true, false, ◌&&◌,
  ◌||◌, not, drop, starts_with, any, leb, ◌==◌, if◌then◌else◌, codes,
}
use dbgate_mysql_dumper.Text.Blank.{skip_blanks}
use dbgate_mysql_dumper.Text.Regex.{
  word, blanks, some_blanks, boundary, up_to_semicolon, digits, Pattern, test, test_at_start,
}

-- The codes of the guards, and the pseudo-code of the table locks.
pub data GuardCode : Type 0 where
  foreign_key_checks unique_checks sql_mode time_zone sql_notes : GuardCode
  character_set_client character_set_results collation_connection table_locks : GuardCode

abbrev pub number : GuardCode → ℕ
number foreign_key_checks = 0
number unique_checks = 1
number sql_mode = 2
number time_zone = 3
number sql_notes = 4
number character_set_client = 5
number character_set_results = 6
number collation_connection = 7
number table_locks = 8

abbrev pub same_code : GuardCode → GuardCode → Bool
same_code a b = number a == number b

pub record Guard : Type 0 where
  pub code : GuardCode
  pub detect : List Pattern
  pub restore : Bytes

-- /\bSET\b[^;]*…/
abbrev set_with : Pattern → Pattern
set_with rest = boundary ∷ word (codes "set") ∷ boundary ∷ up_to_semicolon ∷ rest

-- /\bNAME\s*=\s*0\b/ behind `\bSET\b[^;]*`
abbrev set_to_zero : Bytes → Pattern
set_to_zero name =
    set_with
      (boundary ∷ word name ∷ blanks ∷ word (codes "=") ∷ blanks ∷ word (codes "0") ∷ boundary ∷ [])

-- /\bSET\b[^;]*@OLD_NAME\s*=\s*@@NAME/
abbrev set_old : Bytes → Bytes → Pattern
set_old old current = set_with (word old ∷ blanks ∷ word (codes "=") ∷ blanks ∷ word current ∷ [])

-- /\bSET\s+NAMES\b/
abbrev set_names : Pattern
set_names = boundary ∷ word (codes "set") ∷ some_blanks ∷ word (codes "names") ∷ boundary ∷ []

-- /\bNAME\s*=/
abbrev assigned : Bytes → Pattern
assigned name = boundary ∷ word name ∷ blanks ∷ word (codes "=") ∷ []

abbrev pub guard_patterns : List Guard
guard_patterns =
    record {
      code = foreign_key_checks;
      detect = set_to_zero (codes "foreign_key_checks") ∷ [];
      restore = codes "SET FOREIGN_KEY_CHECKS=COALESCE(@OLD_FOREIGN_KEY_CHECKS, 1)";
    }
    ∷ record {
      code = unique_checks;
      detect = set_to_zero (codes "unique_checks") ∷ [];
      restore = codes "SET UNIQUE_CHECKS=COALESCE(@OLD_UNIQUE_CHECKS, 1)";
    }
    ∷ record {
      code = sql_mode;
      detect = set_old (codes "@old_sql_mode") (codes "@@sql_mode") ∷ [];
      restore = codes "SET SQL_MODE=COALESCE(@OLD_SQL_MODE, @@GLOBAL.sql_mode)";
    }
    ∷ record {
      code = time_zone;
      detect = set_old (codes "@old_time_zone") (codes "@@time_zone") ∷ [];
      restore = codes "SET TIME_ZONE=COALESCE(@OLD_TIME_ZONE, 'SYSTEM')";
    }
    ∷ record {
      code = sql_notes;
      detect = set_to_zero (codes "sql_notes") ∷ [];
      restore = codes "SET SQL_NOTES=COALESCE(@OLD_SQL_NOTES, 1)";
    }
    ∷ record {
      code = character_set_client;
      detect = set_names ∷ assigned (codes "character_set_client") ∷ [];
      restore =
          codes
            "SET CHARACTER_SET_CLIENT=COALESCE(@OLD_CHARACTER_SET_CLIENT, @@GLOBAL.character_set_client)";
    }
    ∷ record {
      code = character_set_results;
      detect = set_names ∷ assigned (codes "character_set_results") ∷ [];
      restore = codes "SET CHARACTER_SET_RESULTS=@OLD_CHARACTER_SET_RESULTS";
    }
    ∷ record {
      code = collation_connection;
      detect = set_names ∷ assigned (codes "collation_connection") ∷ [];
      restore =
          codes
            "SET COLLATION_CONNECTION=COALESCE(@OLD_COLLATION_CONNECTION, @@GLOBAL.collation_connection)";
    }
    ∷ []

pub record Restored : Type 0 where
  pub code : GuardCode
  pub detect : Pattern

-- /\bSET\s+NAME\s*=\s*@OLD_NAME/
abbrev set_back : Bytes → Bytes → Pattern
set_back name old =
    boundary
    ∷ word (codes "set")
    ∷ some_blanks
    ∷ word name
    ∷ blanks
    ∷ word (codes "=")
    ∷ blanks
    ∷ word old
    ∷ []

abbrev restored : GuardCode → Bytes → Bytes → Restored
restored code name old = record { code = code; detect = set_back name old }

abbrev pub restored_patterns : List Restored
restored_patterns =
    restored foreign_key_checks (codes "foreign_key_checks") (codes "@old_foreign_key_checks")
    ∷ restored unique_checks (codes "unique_checks") (codes "@old_unique_checks")
    ∷ restored sql_mode (codes "sql_mode") (codes "@old_sql_mode")
    ∷ restored time_zone (codes "time_zone") (codes "@old_time_zone")
    ∷ restored sql_notes (codes "sql_notes") (codes "@old_sql_notes")
    ∷ restored character_set_client (codes "character_set_client")
        (codes "@old_character_set_client")
    ∷ restored character_set_results (codes "character_set_results")
        (codes "@old_character_set_results")
    ∷ restored collation_connection (codes "collation_connection")
        (codes "@old_collation_connection")
    ∷ []

abbrev lock_tables : Pattern
lock_tables = blanks ∷ word (codes "lock") ∷ some_blanks ∷ word (codes "tables") ∷ boundary ∷ []

abbrev unlock_tables : Pattern
unlock_tables = blanks ∷ word (codes "unlock") ∷ some_blanks ∷ word (codes "tables") ∷ boundary ∷ []

-- `rest.slice(newline + 1)` at the first of `[\r\n]`
unfoldable pub behind_line : Bytes → Option Bytes
behind_line [] = none
behind_line (c ∷ cs) = if c == 10 || c == 13 then some cs else behind_line cs

-- `rest.slice(close + 2)` at the first `*/`
unfoldable pub behind_comment : Bytes → Option Bytes
unfolding starts_with
behind_comment [] = none
behind_comment (c ∷ cs) =
    if starts_with (codes "*/") (c ∷ cs) then some (drop 2 (c ∷ cs)) else behind_comment cs

-- `third === undefined || third <= ' '`
unfoldable pub is_blank_third : Bytes → Bool
is_blank_third [] = true
is_blank_third (c ∷ cs) = leb c 32

unfoldable pub is_plain_comment : Bytes → Bool
unfolding starts_with
is_plain_comment rest =
    starts_with (codes "/*") rest
    && not (starts_with (codes "/*!") rest)
    && not (starts_with (codes "/*M!") rest)
    && not (starts_with (codes "/*+") rest)

-- What the loop of `isRootSetStatement` does with the text: the text behind a comment, the end of the
-- loop, or `return false`.
pub data Peeled : Type 0 where
  comment : Bytes → Peeled
  no_comment unclosed : Peeled

abbrev peeled : Option Bytes → Peeled
peeled none = unclosed
peeled (some rest) = comment rest

unfoldable pub peel_comment : Bytes → Peeled
unfolding starts_with behind_line behind_comment is_blank_third is_plain_comment
peel_comment rest =
    if starts_with (codes "#") rest || starts_with (codes "--") rest && is_blank_third (drop 2 rest)
    then peeled (behind_line rest)
    else if is_plain_comment rest
    then peeled (behind_comment (drop 2 rest))
    else no_comment

unfoldable pub begins_with_set : Bytes → Bool
unfolding test_at_start
begins_with_set rest =
    test_at_start (word (codes "set") ∷ boundary ∷ []) rest
    || test_at_start (word (codes "/*!") ∷ digits 6 ∷ blanks ∷ word (codes "set") ∷ boundary ∷ [])
        rest
    || test_at_start (word (codes "/*m!") ∷ digits 6 ∷ blanks ∷ word (codes "set") ∷ boundary ∷ [])
        rest

-- The loop; `none` when the fuel runs out.
unfoldable pub is_set_behind : ℕ → Bytes → Option Bool
unfolding peel_comment begins_with_set skip_blanks
is_set_behind zero rest = none
is_set_behind (suc fuel) rest = elim (peel_comment rest) [
  | comment more ↦ is_set_behind fuel (skip_blanks more)
  | no_comment ↦ some (begins_with_set rest)
  | unclosed ↦ some false
]

-- Each round takes a comment, so the length of the text bounds the rounds.
unfoldable pub is_root_set_statement : Bytes → Bool
unfolding is_set_behind skip_blanks
is_root_set_statement sql = elim (is_set_behind (suc (length sql)) (skip_blanks sql)) [
  | some is ↦ is
  | none ↦ false
]

-- The set `changed`.
unfoldable pub has_code : GuardCode → List GuardCode → Bool
unfolding any
has_code code changed = any (same_code code) changed

unfoldable pub add_code : GuardCode → List GuardCode → List GuardCode
unfolding has_code
add_code code changed = if has_code code changed then changed else changed ++ code ∷ []

unfoldable pub delete_code : GuardCode → List GuardCode → List GuardCode
delete_code code [] = []
delete_code code (x ∷ xs) =
    if same_code code x then delete_code code xs else x ∷ delete_code code xs

unfoldable pub detect_guards : Bytes → List Guard → List GuardCode → List GuardCode
unfolding test any add_code
detect_guards sql [] changed = changed
detect_guards sql (g ∷ gs) changed =
    detect_guards sql gs
      (if any (λ p. test p sql) g.detect then add_code g.code changed else changed)

unfoldable pub detect_restored : Bytes → List Restored → List GuardCode → List GuardCode
unfolding test delete_code
detect_restored sql [] changed = changed
detect_restored sql (r ∷ rs) changed =
    detect_restored sql rs (if test r.detect sql then delete_code r.code changed else changed)

unfoldable pub observe_locks : Bytes → List GuardCode → List GuardCode
unfolding test_at_start add_code delete_code
observe_locks sql changed =
    if test_at_start lock_tables sql
    then add_code table_locks changed
    else if test_at_start unlock_tables sql
    then delete_code table_locks changed
    else changed

-- Records the session effects of a statement that executed successfully.
unfoldable pub observe : Bytes → List GuardCode → List GuardCode
unfolding is_root_set_statement detect_guards detect_restored observe_locks
observe sql changed = observe_locks sql (
    if is_root_set_statement sql
    then detect_restored sql restored_patterns (detect_guards sql guard_patterns changed)
    else changed)
