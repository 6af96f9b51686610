-- ===== src/Restore/BinaryLiterals.antt =====
-- src/restore/binaryLiterals.ts
use mathlib.Core.List.{reverse}
use dbgate_mysql_dumper.Base.{
  ℕ, zero, suc, ◌+◌, ◌-◌, Bool, true, false, ◌&&◌, ◌||◌, not, [], ◌∷◌, ◌++◌, Option, none, some,
  leb, ◌==◌, if◌then◌else◌, Bytes, codes, length, take, drop,
}
use dbgate_mysql_dumper.Security.Literals.{hex}
use dbgate_mysql_dumper.Text.Utf8.{is_utf8}

-- `UNESCAPE.get(next) ?? next`
unfoldable pub unescaped : ℕ → ℕ
unescaped c =
    if c == b'0'
    then 0x00
    else if c == b'n'
    then 0x0a
    else if c == b'r'
    then 0x0d
    else if c == b'Z'
    then 0x1a
    else if c == b'b'
    then 0x08
    else if c == b't'
    then 0x09
    else c

unfoldable pub unescape : Bytes → Bytes
unfolding unescaped
unescape [] = []
unescape (c ∷ []) = c ∷ []
unescape (c ∷ d ∷ r) = elim (c == b'\\') [
  | true ↦ unescaped d ∷ unescape r
  | false ↦ elim (c == b'\'' && d == b'\'') [
    | true ↦ b'\'' ∷ unescape r
    | false ↦ c ∷ unescape (d ∷ r)
  ]
]

unfoldable pub to_hex_literal : Bytes → Bytes
to_hex_literal bytes = if length bytes == 0 then codes "''" else codes "0x" ++ hex bytes

-- The bytes from `index` up to the end of the line, its newline included.
unfoldable pub skip_to_end_of_line : Bytes → ℕ
skip_to_end_of_line [] = 0
skip_to_end_of_line (c ∷ cs) = if c == b'\n' then 1 else suc (skip_to_end_of_line cs)

-- The bytes behind the opening `/*`; a comment with no end takes the rest.
block_comment_end : Bytes → ℕ
block_comment_end [] = 0
block_comment_end (c ∷ []) = 1
block_comment_end (c ∷ d ∷ r) = elim (c == b'*' && d == b'/') [
  | true ↦ 2
  | false ↦ suc (block_comment_end (d ∷ r))
]

-- The bytes behind the opening quote, up to the closing one and with it, or to the end.
unfoldable pub skip_quoted : ℕ → Bool → Bytes → ℕ
skip_quoted quote escapes [] = 0
skip_quoted quote escapes (c ∷ []) = 1
skip_quoted quote escapes (c ∷ d ∷ r) = elim (escapes && c == b'\\') [
  | true ↦ 2 + skip_quoted quote escapes r
  | false ↦ elim (c == quote) [
    | true ↦ elim (d == quote) [ true ↦ 2 + skip_quoted quote escapes r | false ↦ 1 ]
    | false ↦ suc (skip_quoted quote escapes (d ∷ r))
  ]
]

-- `statement[index + 1] === byte`
second : Bytes → ℕ → Bool
second [] byte = false
second (c ∷ _) byte = c == byte

is_comment_boundary : Bytes → Bool
is_comment_boundary [] = true
is_comment_boundary (c ∷ _) = c == b' ' || c == b'\t' || c == b'\n' || c == b'\r'

unfoldable pub is_word_byte : ℕ → Bool
is_word_byte c =
    leb b'0' c && leb c b'9' || leb b'A' c && leb c b'Z' || leb b'a' c && leb c b'z' || c == b'_'

-- The word in front of a literal, read backwards: its length, the blanks before the quote included,
-- if it is an underscore followed by letters and digits.
word_length : Bool → ℕ → Bytes → Option ℕ
unfolding is_word_byte
word_length underscore n [] = if underscore then some n else none
word_length underscore n (c ∷ cs) =
    if is_word_byte c
    then if underscore then none else word_length (c == b'_') (suc n) cs
    else if underscore
    then some n
    else none

-- `_` alone is no introducer, so the first byte, which is the word's last, is no underscore.
introducer_word : ℕ → Bytes → Option ℕ
unfolding word_length
introducer_word n [] = none
introducer_word n (c ∷ cs) =
    if c == b'_' then none else if is_word_byte c then word_length false (suc n) cs else none

introducer_length : ℕ → Bytes → Option ℕ
unfolding introducer_word
introducer_length n [] = none
introducer_length n (c ∷ cs) =
    if c == b' ' || c == b'\t' then introducer_length (suc n) cs else introducer_word n (c ∷ cs)

find_binary_introducer : Bytes → ℕ → ℕ
unfolding introducer_length
find_binary_introducer statement quote_index =
    elim (introducer_length 0 (reverse (take quote_index statement))) [
      | none ↦ quote_index
      | some n ↦ quote_index - n
    ]

-- `statement.subarray(start, end)`
unfoldable pub subarray : Bytes → ℕ → ℕ → Bytes
subarray statement start past = take (past - start) (drop start statement)

-- The variables of the loop; `parts` is concatenated.
pub record Progress : Type 0 where
  pub parts : Bytes
  pub copied_from : ℕ
  pub literals : ℕ

-- `/*!`, `/*+` and `/*M!` are SQL
is_executable : Bytes → Bool
is_executable [] = false
is_executable (c ∷ []) = c == b'!' || c == b'+'
is_executable (c ∷ d ∷ _) = c == b'!' || c == b'+' || c == b'M' && d == b'!'

-- A string literal that starts at `index`.
rewrite_literal : Bytes → ℕ → Bytes → Progress → ℕ × Progress
unfolding subarray find_binary_introducer
rewrite_literal statement index after p =
    let past = index + suc (skip_quoted b'\'' true after) in
    let content = subarray statement (index + 1) (past - 1) in
    if not (is_utf8 content)
    then (
      past,
      record {
        parts =
            p.parts
            ++ subarray statement p.copied_from (find_binary_introducer statement index)
            ++ to_hex_literal (unescape content);
        copied_from = past;
        literals = p.literals + 1;
      },
    )
    else (past, p)

rewrite_comment : Bytes → ℕ → Bytes → Progress → ℕ × Progress
unfolding is_executable block_comment_end
rewrite_comment statement index after p =
    if is_executable after then (index + 2, p) else (index + 2 + block_comment_end after, p)

-- One round of the loop: the next index and the variables. `byte` is at `index`, `after` behind it.
rewrite_step : Bytes → ℕ → ℕ → Bytes → Progress → ℕ × Progress
unfolding rewrite_literal rewrite_comment is_comment_boundary second
rewrite_step statement index byte after p =
    if byte == b'#'
    then (index + skip_to_end_of_line (byte ∷ after), p)
    else elim (byte == b'-' && second after b'-' && is_comment_boundary (drop 1 after)) [
      | true ↦ (index + skip_to_end_of_line (byte ∷ after), p)
      | false ↦
          if byte == b'/' && second after b'*'
          then rewrite_comment statement index (drop 1 after) p
          else if byte == b'`'
          then (index + suc (skip_quoted b'`' false after), p)
          else if byte == b'"'
          then (index + suc (skip_quoted b'"' true after), p)
          else if byte == b'\''
          then rewrite_literal statement index after p
          else (index + 1, p)
    ]

-- A round moves on by a byte or more, so the length of the statement is fuel enough.
rewrite_from : ℕ → Bytes → ℕ → Progress → Progress
unfolding rewrite_step
rewrite_from zero statement index p = p
rewrite_from (suc fuel) statement index p = elim (drop index statement) [
  | [] ↦ p
  | byte ∷ after ↦
      let (next, p') = rewrite_step statement index byte after p in
      rewrite_from fuel statement next p'
]

pub record BinaryLiteralRewriteResult : Type 0 where
  pub bytes : Bytes
  pub rewritten_literals : ℕ
  pub failed : Bool

unfoldable pub rewrite_binary_literals : Bytes → BinaryLiteralRewriteResult
unfolding rewrite_from
rewrite_binary_literals statement =
    if is_utf8 statement
    then record { bytes = statement; rewritten_literals = 0; failed = false }
    else let p =
        rewrite_from (length statement) statement 0
          (record { parts = []; copied_from = 0; literals = 0 }) in
      let bytes = p.parts ++ drop p.copied_from statement in
      record { bytes = bytes; rewritten_literals = p.literals; failed = not (is_utf8 bytes) }
