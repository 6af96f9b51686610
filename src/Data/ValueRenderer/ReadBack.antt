-- ===== src/Data/ValueRenderer/ReadBack.antt =====
-- src/data/valueRenderer.ts: the literal of a value that was read as bytes denotes those bytes.
use dbgate_mysql_dumper.Base.{
  ℕ, suc, ◌+◌, ◌-◌, ◌*◌, ◌/◌, ◌%◌, ◌<◌, [], ◌∷◌, ◌≡◌, Bytes, length, refl, ap, ◌∙◌, subst, arith,
  Option, none, some, Bool, true, false, append-nil, drop, take, starts_with, every, ltb, ◌==◌,
  if◌then◌else◌, codes,
}
use dbgate_mysql_dumper.Text.Utf8.{decoded}
use dbgate_mysql_dumper.Text.Letters.{lower, is_digit}
use dbgate_mysql_dumper.Security.Literals.{quote_mysql_string, render_hex_literal, hex, hex_digit}
use dbgate_mysql_dumper.Security.Literals.Escaping.{
  quote_mysql_string-unescape, quote_mysql_bytes-quote_mysql_string, Reads,
  quote_mysql_string-escaped, to_hex_literal-render_hex_literal,
}
use dbgate_mysql_dumper.Restore.BinaryLiterals.{to_hex_literal, unescape, skip_quoted, subarray}
use dbgate_mysql_dumper.Data.ChunkBuilder.{Part, part_bytes}
use dbgate_mysql_dumper.Data.ValueRenderer.Numbers.{is_number, is_safe_numeric_literal-is_number}
use dbgate_mysql_dumper.Data.ValueRenderer.{
  buffer_value, has, binary_types, is_safe_numeric_literal, digits, sign, fraction, exponent,
  render_numeric_text, render_bytes, render_text, render_column_value,
}

unfoldable pub hex_value : ℕ → ℕ
hex_value c = if ltb c b'A' then c - b'0' else c - 55

-- The bytes of pairs of hexadecimal digits.
unfoldable pub unhex : Bytes → Bytes
unhex [] = []
unhex (c ∷ []) = []
unhex (c ∷ d ∷ r) = (16 * hex_value c + hex_value d) ∷ unhex r

abbrev pub IsByteString : Bytes → Type 0
IsByteString bytes = every (λ c. ltb c 256) bytes ≡ true

hex_value-hex_digit : (d : ℕ) → d < 16 → hex_value (hex_digit d) ≡ d
unfolding hex_value hex_digit
hex_value-hex_digit d h = ground arith

pub unhex-hex : (bytes : Bytes) → IsByteString bytes → unhex (hex bytes) ≡ bytes
unfolding unhex hex every
unhex-hex [] h = refl
unhex-hex (c ∷ cs) h =
    ground (arith, unhex-hex cs, hex_value-hex_digit (c / 16), hex_value-hex_digit (c % 16))

-- A quoted string with nothing behind it.
unfoldable pub read_quoted : Bytes → Option Bytes
read_quoted literal =
    let size = skip_quoted b'\'' true (drop 1 literal) in
    if length (drop (suc size) literal) == 0
    then some (unescape (take (size - 1) (drop 1 literal)))
    else none

-- What a literal of the dump denotes: a string in quotes, a byte string behind its introducer, a
-- hexadecimal literal, or a number, which denotes its own text; no other text is a literal.
unfoldable pub read_literal : Bytes → Option Bytes
read_literal literal =
    if starts_with (codes "'") literal
    then read_quoted literal
    else if starts_with (codes "_binary ") literal
    then read_quoted (drop 8 literal)
    else if starts_with (codes "0x") literal
    then some (unhex (drop 2 literal))
    else if is_number literal
    then some literal
    else none

read_quoted-quote_mysql_string : (v : Bytes) → read_quoted (quote_mysql_string v) ≡ some v
unfolding read_quoted starts_with skip_quoted subarray
read_quoted-quote_mysql_string v =
    let reads : Reads (quote_mysql_string v) v [] =
      subst (λ t. Reads t v []) (append-nil (quote_mysql_string v))
        (quote_mysql_string-unescape v [] refl) in
    ground (arith, reads)

read_literal-quote_mysql_string : (v : Bytes) → read_literal (quote_mysql_string v) ≡ some v
unfolding read_literal starts_with
read_literal-quote_mysql_string v =
    ground (arith, quote_mysql_string-escaped v, read_quoted-quote_mysql_string v)

read_literal-safe : (v : Bytes) → is_safe_numeric_literal v ≡ true → read_literal v ≡ some v
unfolding read_literal starts_with is_safe_numeric_literal digits sign fraction exponent is_digit
read_literal-safe [] h = cc
read_literal-safe (c ∷ []) h = ground (arith, is_safe_numeric_literal-is_number (c ∷ []))
read_literal-safe (c ∷ d ∷ v) h = ground (arith, is_safe_numeric_literal-is_number (c ∷ d ∷ v))

read_quoted_empty : read_quoted (codes "''") ≡ some []
unfolding read_quoted skip_quoted unescape
read_quoted_empty = refl

read_literal-render_bytes :
    (v : Bytes) (hex_blob : Bool)
    → IsByteString v
    → read_literal (part_bytes (render_bytes v hex_blob)) ≡ some v
unfolding render_bytes render_hex_literal read_literal starts_with
read_literal-render_bytes [] true h = read_quoted_empty
read_literal-render_bytes (c ∷ cs) true h = ap some (unhex-hex (c ∷ cs) h)
read_literal-render_bytes v false h =
    ap read_quoted (quote_mysql_bytes-quote_mysql_string v) ∙ read_quoted-quote_mysql_string v

read_literal-render_text : (v data_type : Bytes) → read_literal (render_text v data_type) ≡ some v
unfolding render_text render_numeric_text
read_literal-render_text v data_type =
    ground (arith, read_literal-safe v, read_literal-quote_mysql_string v)

abbrev pub read_rendered : Option Part → Option Bytes
read_rendered none = none
read_rendered (some p) = read_literal (part_bytes p)

-- Whatever the column's type and the mode, a value read as bytes is rendered, and the literal denotes
-- the bytes of a binary column and the decoded text of any other; a literal that is neither quoted nor
-- hexadecimal is a number.
pub read_rendered-render_column_value :
    (bytes column : Bytes) (hex_blob : Bool)
    → IsByteString bytes
    → read_rendered (render_column_value (buffer_value bytes) column hex_blob)
      ≡ some (if has binary_types (lower column) then bytes else decoded bytes)
unfolding render_column_value
read_rendered-render_column_value bytes column hex_blob h = ground (
  arith,
  read_literal-render_bytes bytes hex_blob h,
  read_literal-render_text (decoded bytes) (lower column),
)

-- The literal that the restore puts in place of a binary string denotes the bytes of the string.
pub read_literal-to_hex_literal :
    (v : Bytes) → IsByteString v → read_literal (to_hex_literal v) ≡ some v
unfolding render_bytes
read_literal-to_hex_literal v h =
    ap read_literal (to_hex_literal-render_hex_literal v) ∙ read_literal-render_bytes v true h
