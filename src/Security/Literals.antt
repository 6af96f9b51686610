-- ===== src/Security/Literals.antt =====
-- src/security/literals.ts. A string is the list of its UTF-16 code units, a buffer that of its bytes.
pub mod Escaping
use dbgate_mysql_dumper.Base.{
  ℕ, ◌+◌, ◌/◌, ◌%◌, [], ◌∷◌, ◌++◌, Option, none, some, ltb, ◌==◌, if◌then◌else◌, Bytes, codes,
}

-- `STRING_ESCAPES.get(code)`; over bytes it is also `BYTE_ESCAPES[code]`
unfoldable pub string_escape : ℕ → Option Bytes
string_escape c =
    if c == 0x00
    then some (codes "\\0")
    else if c == 0x0a
    then some (codes "\\n")
    else if c == 0x0d
    then some (codes "\\r")
    else if c == 0x1a
    then some (codes "\\Z")
    else if c == 0x22
    then some (codes "\\\"")
    else if c == 0x27
    then some (codes "\\'")
    else if c == 0x5c
    then some (codes "\\\\")
    else none

-- `plain` is `value.slice(plainStart, index)`. With no escape `result` is empty and `plain` is `value`.
escape_from : Bytes → Bytes → Bytes → Bytes
escape_from [] result plain = result ++ plain
escape_from (c ∷ cs) result plain = elim (string_escape c) [
  | some escape ↦ escape_from cs (result ++ plain ++ escape) []
  | none ↦ escape_from cs result (plain ++ c ∷ [])
]

unfoldable pub escape_mysql_string : Bytes → Bytes
unfolding escape_from string_escape
escape_mysql_string value = escape_from value [] []

unfoldable pub quote_mysql_string : Bytes → Bytes
quote_mysql_string value = codes "'" ++ escape_mysql_string value ++ codes "'"

-- `parts` is what was pushed, concatenated.
quote_bytes_from : Bytes → Bytes → Bytes → Bytes
quote_bytes_from [] parts plain = parts ++ plain ++ codes "'"
quote_bytes_from (c ∷ cs) parts plain = elim (string_escape c) [
  | some escape ↦ quote_bytes_from cs (parts ++ plain ++ escape) []
  | none ↦ quote_bytes_from cs parts (plain ++ c ∷ [])
]

unfoldable pub quote_mysql_bytes : Bytes → Bytes
unfolding quote_bytes_from string_escape
quote_mysql_bytes bytes = quote_bytes_from bytes (codes "'") []

-- One digit of `toString('hex').toUpperCase()`.
unfoldable pub hex_digit : ℕ → ℕ
hex_digit d = if ltb d 10 then b'0' + d else 55 + d

unfoldable pub hex : Bytes → Bytes
unfolding hex_digit
hex [] = []
hex (c ∷ cs) = hex_digit (c / 16) ∷ hex_digit (c % 16) ∷ hex cs

unfoldable pub render_hex_literal : Bytes → Bytes
unfolding hex
render_hex_literal [] = codes "''"
render_hex_literal (c ∷ cs) = codes "0x" ++ hex (c ∷ cs)
