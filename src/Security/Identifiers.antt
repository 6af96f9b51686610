-- ===== src/Security/Identifiers.antt =====
-- src/security/identifiers.ts
pub mod Quoting
use dbgate_mysql_dumper.Base.{
  Bool, [], ◌∷◌, ◌++◌, List, Option, none, some, ◌==◌, if◌then◌else◌, Bytes, codes, any,
}

unfoldable pub contains_nul : Bytes → Bool
unfolding any
contains_nul = any (λ c. c == 0)

-- value.replace(/`/g, '``')
unfoldable pub double_backticks : Bytes → Bytes
double_backticks [] = []
double_backticks (c ∷ cs) =
    if c == b'`' then b'`' ∷ b'`' ∷ double_backticks cs else c ∷ double_backticks cs

-- `none` is the error 'invalid-identifier'.
unfoldable pub quote_identifier : Bytes → Option Bytes
unfolding contains_nul double_backticks
quote_identifier value =
    if contains_nul value then none else some (codes "`" ++ double_backticks value ++ codes "`")

-- `parts.map(quoteIdentifier).join('.')`, the dot of all parts but the first given
join_dots : List Bytes → Option Bytes
unfolding quote_identifier
join_dots [] = some []
join_dots (p ∷ ps) = elim (quote_identifier p) [
  | none ↦ none
  | some q ↦ elim (join_dots ps) [ none ↦ none | some rest ↦ some (codes "." ++ q ++ rest) ]
]

unfoldable pub quote_qualified_identifier : List Bytes → Option Bytes
unfolding join_dots
quote_qualified_identifier [] = some []
quote_qualified_identifier (p ∷ ps) = elim (quote_identifier p) [
  | none ↦ none
  | some q ↦ elim (join_dots ps) [ none ↦ none | some rest ↦ some (q ++ rest) ]
]

-- The parts before and after the last `@`.
split_last_at : Bytes → Option (Bytes × Bytes)
split_last_at [] = none
split_last_at (c ∷ cs) = elim (split_last_at cs) [
  | some (user, host) ↦ some (c ∷ user, host)
  | none ↦ if c == b'@' then some ([], cs) else none
]

unfoldable pub quote_definer : Bytes → Option Bytes
unfolding split_last_at quote_identifier
quote_definer definer = elim (split_last_at definer) [
  | none ↦ quote_identifier definer
  | some (user, host) ↦ elim (quote_identifier user) [
    | none ↦ none
    | some u ↦ elim (quote_identifier host) [ none ↦ none | some h ↦ some (u ++ codes "@" ++ h) ]
  ]
]
