-- ===== src/Data/ValueRenderer.antt =====
-- src/data/valueRenderer.ts, and the numeric literals of src/security/literals.ts. A string is held as
-- its UTF-8 bytes. What the language itself makes of a value is part of the value: the text of a
-- finite number, of a `bigint` and of a parsed JSON value, and the UTC fields of a `Date`.
pub mod Numbers
pub mod ReadBack
use dbgate_mysql_dumper.Base.{
  same, ℕ, zero, suc, ◌+◌, ◌-◌, ◌/◌, ◌%◌, [], ◌∷◌, ◌++◌, List, Bytes, length, Option, none, some,
  Bool, true, false, ◌&&◌, ◌||◌, any, ltb, ◌==◌, if◌then◌else◌, codes,
}
use dbgate_mysql_dumper.Text.Utf8.{decoded}
use dbgate_mysql_dumper.Text.Letters.{lower, is_digit}
use dbgate_mysql_dumper.Security.Literals.{
  quote_mysql_string, quote_mysql_bytes, render_hex_literal,
}
use dbgate_mysql_dumper.Data.ChunkBuilder.{Part, text, buffer}

abbrev numeric_types : List Bytes
numeric_types =
    codes "tinyint"
    ∷ codes "smallint"
    ∷ codes "mediumint"
    ∷ codes "int"
    ∷ codes "integer"
    ∷ codes "bigint"
    ∷ codes "decimal"
    ∷ codes "dec"
    ∷ codes "numeric"
    ∷ codes "fixed"
    ∷ codes "float"
    ∷ codes "double"
    ∷ codes "double precision"
    ∷ codes "real"
    ∷ codes "year"
    ∷ codes "bit"
    ∷ []

abbrev spatial_types : List Bytes
spatial_types =
    codes "geometry"
    ∷ codes "point"
    ∷ codes "linestring"
    ∷ codes "polygon"
    ∷ codes "multipoint"
    ∷ codes "multilinestring"
    ∷ codes "multipolygon"
    ∷ codes "geometrycollection"
    ∷ codes "geomcollection"
    ∷ []

abbrev pub binary_types : List Bytes
binary_types =
    codes "binary"
    ∷ codes "varbinary"
    ∷ codes "tinyblob"
    ∷ codes "blob"
    ∷ codes "mediumblob"
    ∷ codes "longblob"
    ∷ codes "bit"
    ∷ codes "geometry"
    ∷ codes "point"
    ∷ codes "linestring"
    ∷ codes "polygon"
    ∷ codes "multipoint"
    ∷ codes "multilinestring"
    ∷ codes "multipolygon"
    ∷ codes "geometrycollection"
    ∷ codes "geomcollection"
    ∷ []

-- `types.has(name)`
unfoldable pub has : List Bytes → Bytes → Bool
has types name = any (same name) types

unfoldable pub is_binary_column : Bytes → Bool
is_binary_column data_type = has binary_types (lower data_type)

unfoldable pub is_spatial_column : Bytes → Bool
is_spatial_column data_type = has spatial_types (lower data_type)

unfoldable pub is_numeric_column : Bytes → Bool
is_numeric_column data_type = has numeric_types (lower data_type)

-- The UTC fields of a `Date`.
pub record DateFields : Type 0 where
  pub year : ℕ
  pub month : ℕ
  pub day : ℕ
  pub hours : ℕ
  pub minutes : ℕ
  pub seconds : ℕ
  pub milliseconds : ℕ

pub data NumberValue : Type 0 where
  not_a_number infinite : NumberValue
  finite : Bytes → NumberValue

-- `MysqlColumnValue`; `null` is also the value of a column that the row has not.
pub data ColumnValue : Type 0 where
  null : ColumnValue
  buffer_value string_value uint8_array : Bytes → ColumnValue
  bigint json : Bytes → ColumnValue
  number : NumberValue → ColumnValue
  boolean : Bool → ColumnValue
  date : DateFields → ColumnValue

-- `\d+`: the text behind the digits at its head, and whether there are any.
unfoldable pub digits : Bytes → Bool × Bytes
digits [] = (false, [])
digits (c ∷ cs) = if is_digit c then (true, (digits cs).1) else (false, c ∷ cs)

unfoldable pub sign : Bytes → Bytes
sign [] = []
sign (c ∷ cs) = if c == b'+' || c == b'-' then cs else c ∷ cs

-- `(?:\d+(?:\.\d*)?|\.\d+)`: the text behind the mantissa, if there is one.
unfoldable pub fraction : Bool → Bytes → Option Bytes
fraction whole [] = if whole then some [] else none
fraction whole (c ∷ cs) =
    if c == b'.'
    then if whole || (digits cs).0 then some (digits cs).1 else none
    else if whole
    then some (c ∷ cs)
    else none

-- `(?:[eE][+-]?\d+)?$`
unfoldable pub exponent : Bytes → Bool
exponent [] = true
exponent (c ∷ cs) =
    (c == b'e' || c == b'E') && (digits (sign cs)).0 && length (digits (sign cs)).1 == 0

-- `SAFE_NUMERIC_LITERAL.test(value)`
unfoldable pub is_safe_numeric_literal : Bytes → Bool
is_safe_numeric_literal value = elim (fraction (digits (sign value)).0 (digits (sign value)).1) [
  | none ↦ false
  | some rest ↦ exponent rest
]

-- `none` is the error that the source throws.
unfoldable pub format_number_literal : NumberValue → Option Bytes
format_number_literal not_a_number = none
format_number_literal infinite = none
format_number_literal (finite value) = some value

unfoldable pub render_numeric_text : Bytes → Bytes
render_numeric_text value =
    if is_safe_numeric_literal value then value else quote_mysql_string value

unfoldable pub render_bytes : Bytes → Bool → Part
render_bytes bytes hex_blob =
    if hex_blob
    then text (render_hex_literal bytes)
    else buffer (codes "_binary " ++ quote_mysql_bytes bytes)

-- `String(input)` in decimal; the fuel is a bound of its length.
unfoldable pub decimal : ℕ → ℕ → Bytes
decimal zero n = []
decimal (suc fuel) n = (if ltb n 10 then [] else decimal fuel (n / 10)) ++ (b'0' + n % 10) ∷ []

abbrev zeros : ℕ → Bytes
zeros zero = []
zeros (suc n) = b'0' ∷ zeros n

-- `String(input).padStart(width, '0')`
unfoldable pub pad : ℕ → ℕ → Bytes
pad input width = zeros (width - length (decimal (suc input) input)) ++ decimal (suc input) input

unfoldable pub format_date_value : DateFields → Bytes → Bytes
format_date_value value data_type =
    let day_text =
      pad value.year 4 ++ codes "-" ++ pad value.month 2 ++ codes "-" ++ pad value.day 2 in
    let time =
      pad value.hours 2 ++ codes ":" ++ pad value.minutes 2 ++ codes ":" ++ pad value.seconds 2 in
    let rest = if value.milliseconds == 0 then [] else codes "." ++ pad value.milliseconds 3 in
    if same data_type (codes "date")
    then day_text
    else if same data_type (codes "time")
    then time
    else day_text ++ codes " " ++ time ++ rest

-- The text of a column that is not binary.
unfoldable pub render_text : Bytes → Bytes → Bytes
render_text value data_type =
    if has numeric_types data_type then render_numeric_text value else quote_mysql_string value

-- `renderColumnValue`, `renderNativeValue` included; `none` is an error that is thrown.
unfoldable pub render_column_value : ColumnValue → Bytes → Bool → Option Part
render_column_value null column hex_blob = some (text (codes "NULL"))
render_column_value (buffer_value bytes) column hex_blob =
    if has binary_types (lower column)
    then some (render_bytes bytes hex_blob)
    else some (text (render_text (decoded bytes) (lower column)))
render_column_value (string_value value) column hex_blob =
    if has binary_types (lower column)
    then some (render_bytes value hex_blob)
    else some (text (render_text value (lower column)))
render_column_value (bigint value) column hex_blob = some (text value)
render_column_value (number value) column hex_blob = elim (format_number_literal value) [
  | none ↦ none
  | some digit_text ↦ some (text digit_text)
]
render_column_value (boolean value) column hex_blob =
    some (text (if value then codes "1" else codes "0"))
render_column_value (date value) column hex_blob =
    some (text (quote_mysql_string (format_date_value value (lower column))))
render_column_value (uint8_array bytes) column hex_blob = some (render_bytes bytes hex_blob)
render_column_value (json value) column hex_blob = some (text (quote_mysql_string value))
