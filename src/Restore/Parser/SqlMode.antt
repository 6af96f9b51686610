-- ===== src/Restore/Parser/SqlMode.antt =====
-- `SQL_MODE_ASSIGNMENT` and `trackSqlMode`. The expression is matched by hand: the leftmost
-- `sql_mode` at a word boundary, then `=` or `:=`, then a quoted string, else a run with no blank.
use dbgate_mysql_dumper.Base.{
  ℕ, Bool, true, false, ◌&&◌, ◌||◌, not, [], ◌∷◌, Option, none, some, ◌==◌, if◌then◌else◌, Bytes,
  codes, drop,
}
use dbgate_mysql_dumper.Text.Blank.{skip_blanks, nonblank_run, is_line_end}
use dbgate_mysql_dumper.Text.Letters.{starts_with_ci, contains_ci, is_word}
use dbgate_mysql_dumper.Restore.Parser.State.{BackslashEscapeMode, auto, enabled, disabled}

before : ℕ → Option Bytes → Option Bytes
before c none = none
before c (some cs) = some (c ∷ cs)

-- The longest text that `(?:[^'\\]|\\.|'')*'` matches, for the quote given.
quoted : ℕ → Bytes → Option Bytes
unfolding before is_line_end
quoted quote [] = none
quoted quote (c ∷ []) = if c == quote then some (c ∷ []) else none
quoted quote (c ∷ d ∷ r) = elim (c == b'\\') [
  | true ↦ elim (is_line_end (d ∷ r)) [ true ↦ none | false ↦ before c (before d (quoted quote r)) ]
  | false ↦ elim (c == quote) [
    | true ↦ elim (d == quote) [
      | true ↦ elim (quoted quote r) [ some rest ↦ some (c ∷ d ∷ rest) | none ↦ some (c ∷ []) ]
      | false ↦ some (c ∷ [])
    ]
    | false ↦ before c (quoted quote (d ∷ r))
  ]
]

some_run : Bytes → Option Bytes
some_run [] = none
some_run (c ∷ cs) = some (c ∷ cs)

-- The three alternatives for the value, in their order.
assigned_value : Bytes → Option Bytes
unfolding quoted before some_run nonblank_run
assigned_value [] = none
assigned_value (c ∷ cs) = elim (if c == b'\'' || c == b'"' then before c (quoted c cs) else none) [
  | some value ↦ some value
  | none ↦ some_run (nonblank_run (c ∷ cs))
]

-- behind `sql_mode` and blanks
assignment_operator : Bytes → Option Bytes
unfolding assigned_value skip_blanks
assignment_operator [] = none
assignment_operator (c ∷ cs) =
    if c == b'='
    then assigned_value (skip_blanks cs)
    else if c == b':' && starts_with_ci (codes "=") cs
    then assigned_value (skip_blanks (drop 1 cs))
    else none

assignment_here : Bytes → Option Bytes
unfolding assignment_operator starts_with_ci skip_blanks
assignment_here text =
    if starts_with_ci (codes "sql_mode") text
    then assignment_operator (skip_blanks (drop 8 text))
    else none

-- `match[1]` of the first match; the flag says that a word character stands before the text.
find_assignment : Bool → Bytes → Option Bytes
unfolding assignment_here is_word
find_assignment in_word [] = none
find_assignment in_word (c ∷ cs) = elim (if in_word then none else assignment_here (c ∷ cs)) [
  | some value ↦ some value
  | none ↦ find_assignment (is_word c) cs
]

-- The new `backslashEscapes`.
unfoldable pub track_sql_mode : BackslashEscapeMode → Bool → Bytes → Bool
unfolding find_assignment contains_ci
track_sql_mode enabled escapes sql = escapes
track_sql_mode disabled escapes sql = escapes
track_sql_mode auto escapes sql = elim (find_assignment false sql) [
  | none ↦ escapes
  | some value ↦
      if contains_ci (codes "@old_sql_mode") value
        || contains_ci (codes "@saved_sql_mode") value
        || contains_ci (codes "@@") value
      then true
      else not (contains_ci (codes "no_backslash_escapes") value)
]
