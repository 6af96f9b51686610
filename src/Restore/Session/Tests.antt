-- ===== src/Restore/Session/Tests.antt =====
-- Statements at which the session state is observed.
use dbgate_mysql_dumper.Base.{Bool, ◌≡◌, some, [], ◌∷◌, List, Bytes, refl, starts_with, any, codes}
use dbgate_mysql_dumper.Text.Blank.{skip_blanks, blank_length}
use dbgate_mysql_dumper.Text.Letters.{starts_with_ci, lower, is_word, is_digit, is_letter}
use dbgate_mysql_dumper.Text.Regex.{test, test_at_start, match_here}
use dbgate_mysql_dumper.Restore.Session.{
  GuardCode, table_locks, foreign_key_checks, is_root_set_statement, is_set_behind, peel_comment,
  behind_line, behind_comment, is_blank_third, is_plain_comment, begins_with_set, has_code,
  add_code, delete_code, detect_guards, detect_restored, observe_locks, observe,
}
use dbgate_mysql_dumper.Restore.Session.Peeling.{is_root_set_statement-terminates}
use dbgate_mysql_dumper.Restore.Session.Records.{set_behind, observe-has_code}

-- `observe` with all that it calls open.
observed : Bytes → List GuardCode → List GuardCode
unfolding observe observe_locks detect_guards detect_restored add_code delete_code has_code
    is_root_set_statement is_set_behind peel_comment behind_line behind_comment is_blank_third
    is_plain_comment begins_with_set test test_at_start match_here any starts_with starts_with_ci
    lower is_word is_digit is_letter skip_blanks blank_length
observed = observe

disables_checks :
    observed (codes "/*!40014 SET FOREIGN_KEY_CHECKS=0 */") [] ≡ foreign_key_checks ∷ []
unfolding observed
disables_checks = refl

puts_checks_back :
    observed (codes "SET FOREIGN_KEY_CHECKS=@OLD_FOREIGN_KEY_CHECKS") (foreign_key_checks ∷ []) ≡ []
unfolding observed
puts_checks_back = refl

locks_tables : observed (codes "LOCK TABLES `t` WRITE") [] ≡ table_locks ∷ []
unfolding observed
locks_tables = refl

-- The banner of a table stands in one statement with what follows it.
locks_behind_banner : observed (codes "-- Data of `t`\nLOCK TABLES `t` WRITE") [] ≡ []
unfolding observed
locks_behind_banner = refl

observe-has_code_example :
    has_code foreign_key_checks (observe (codes "SET FOREIGN_KEY_CHECKS=0") [])
    ≡ set_behind (codes "SET FOREIGN_KEY_CHECKS=0") foreign_key_checks []
observe-has_code_example =
    observe-has_code (codes "SET FOREIGN_KEY_CHECKS=0") foreign_key_checks [] refl

is_root_set_statement-terminates_example :
    (is : Bool) × (is_set_behind 36 (skip_blanks (codes " /* a comment */ -- and\nSET NAMES x"))
      ≡ some is)
    × (is_root_set_statement (codes " /* a comment */ -- and\nSET NAMES x") ≡ is)
is_root_set_statement-terminates_example =
    is_root_set_statement-terminates (codes " /* a comment */ -- and\nSET NAMES x")
