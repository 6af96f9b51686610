-- ===== src/Renderer/Definer.antt =====
-- src/renderer/definer.ts.
use dbgate_mysql_dumper.Base.{[], ◌∷◌, ◌++◌, Bytes, Option, none, some, Bool, codes}
use dbgate_mysql_dumper.Text.Regex.{word, blanks, boundary, quoted_part, Pattern, test, replace}
use dbgate_mysql_dumper.Security.Identifiers.{quote_definer}

pub data DefinerPolicy : Type 0 where
  preserve strip current_user best_effort : DefinerPolicy

abbrev pub definer_clause : Pattern
definer_clause =
    boundary
    ∷ word (codes "definer")
    ∷ blanks
    ∷ word (codes "=")
    ∷ blanks
    ∷ word (codes "`")
    ∷ quoted_part
    ∷ word (codes "`@`")
    ∷ quoted_part
    ∷ word (codes "`")
    ∷ blanks
    ∷ []

unfoldable pub apply_definer_policy : Bytes → DefinerPolicy → Bytes
unfolding replace
apply_definer_policy create_sql preserve = create_sql
apply_definer_policy create_sql best_effort = create_sql
apply_definer_policy create_sql strip = replace definer_clause [] create_sql
apply_definer_policy create_sql current_user =
    replace definer_clause (codes "DEFINER=CURRENT_USER ") create_sql

unfoldable pub has_definer_clause : Bytes → Bool
unfolding test
has_definer_clause create_sql = test definer_clause create_sql

unfoldable pub render_definer_clause : Bytes → Option Bytes
unfolding quote_definer
render_definer_clause definer = elim (quote_definer definer) [
  | none ↦ none
  | some quoted ↦ some (codes "DEFINER=" ++ quoted)
]
