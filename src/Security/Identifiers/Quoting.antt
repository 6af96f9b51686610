-- ===== src/Security/Identifiers/Quoting.antt =====
-- src/security/identifiers.ts: a quoted identifier is read back by the scan that the restore makes.
use dbgate_mysql_dumper.Base.{
  ℕ, suc, ◌-◌, [], ◌∷◌, ◌++◌, ◌≡◌, Bytes, length, refl, arith, Option, none, some, inl, inr,
  Bool-cases, true, false, ◌&&◌, append_assoc, drop, take, starts_with, length-append, ◌==◌,
  if◌then◌else◌, codes,
}
use dbgate_mysql_dumper.Security.Identifiers.{contains_nul, double_backticks, quote_identifier}
use dbgate_mysql_dumper.Security.Literals.Escaping.{take-append}
use dbgate_mysql_dumper.Restore.BinaryLiterals.{skip_quoted}

-- What a doubled backtick stands for.
unfoldable pub single_backticks : Bytes → Bytes
single_backticks [] = []
single_backticks (c ∷ []) = c ∷ []
single_backticks (c ∷ d ∷ r) =
    let rest = single_backticks r in
    let next = single_backticks (d ∷ r) in if c == b'`' && d == b'`' then b'`' ∷ rest else c ∷ next

single_backticks-plain :
    (c : ℕ) (t : Bytes) → (c == b'`') ≡ false → single_backticks (c ∷ t) ≡ c ∷ single_backticks t
unfolding single_backticks
single_backticks-plain c [] h = refl
single_backticks-plain c (d ∷ t) h = ground arith

single_backticks-double_backticks : (v : Bytes) → single_backticks (double_backticks v) ≡ v
unfolding double_backticks single_backticks
single_backticks-double_backticks [] = refl
single_backticks-double_backticks (c ∷ cs) = elim (Bool-cases (c == b'`')) [
  | inl e ↦ ground (arith, single_backticks-double_backticks cs)
  | inr e ↦ ground (
    arith,
    single_backticks-plain c (double_backticks cs) e,
    single_backticks-double_backticks cs,
  )
]

skip_quoted-closing :
    (rest : Bytes) → starts_with (b'`' ∷ []) rest ≡ false → skip_quoted b'`' false (b'`' ∷ rest) ≡ 1
unfolding skip_quoted starts_with
skip_quoted-closing [] h = refl
skip_quoted-closing (c ∷ rest) h = ground arith

skip_quoted-plain :
    (c d : ℕ) (t rest : Bytes)
    → (c == b'`') ≡ false
    → skip_quoted b'`' false (c ∷ t ++ d ∷ rest) ≡ suc (skip_quoted b'`' false (t ++ d ∷ rest))
unfolding skip_quoted
skip_quoted-plain c d [] rest h = ground arith
skip_quoted-plain c d (x ∷ t) rest h = ground arith

skip_quoted-double_backticks :
    (v rest : Bytes)
    → starts_with (b'`' ∷ []) rest ≡ false
    → skip_quoted b'`' false (double_backticks v ++ b'`' ∷ rest) ≡ suc (length (double_backticks v))
unfolding double_backticks skip_quoted
skip_quoted-double_backticks [] rest h = skip_quoted-closing rest h
skip_quoted-double_backticks (c ∷ cs) rest h = elim (Bool-cases (c == b'`')) [
  | inl e ↦ ground (arith, skip_quoted-double_backticks cs rest h)
  | inr e ↦ ground (
    arith,
    skip_quoted-plain c b'`' (double_backticks cs) rest e,
    skip_quoted-double_backticks cs rest h,
  )
]

-- A quoted identifier, with what follows it.
abbrev pub Quotes : Bytes → Bytes → Option Bytes → Type 0
Quotes value rest none = contains_nul value ≡ true
Quotes value rest (some quoted) =
    let size = skip_quoted b'`' false (drop 1 (quoted ++ rest)) in
    (contains_nul value ≡ false)
    × (suc size ≡ length quoted)
    × (single_backticks (take (size - 1) (drop 1 quoted)) ≡ value)

-- An identifier is refused only for a NUL. Quoted, and before any text that does not begin with a
-- backtick, the scan of the restore ends at its closing backtick, and the text between the backticks,
-- its doubled backticks taken as one, is the identifier.
pub quote_identifier-Quotes :
    (value rest : Bytes)
    → starts_with (b'`' ∷ []) rest ≡ false
    → Quotes value rest (quote_identifier value)
unfolding quote_identifier
quote_identifier-Quotes value rest h =
    let text = double_backticks value in
    let n : ℕ = length text in
    let minus : suc n - 1 ≡ n = omega arith in
    let opened : (text ++ codes "`") ++ rest ≡ text ++ b'`' ∷ rest =
      append_assoc text (codes "`") rest in
    ground (
      arith,
      skip_quoted-double_backticks value rest h,
      length-append text (codes "`"),
      take-append text (codes "`"),
      single_backticks-double_backticks value,
      minus,
      opened,
    )
