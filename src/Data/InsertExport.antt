-- ===== src/Data/InsertExport.antt =====
-- src/data/insertExport.ts: the export of one table's rows as `INSERT` statements.
pub mod Groups
use dbgate_mysql_dumper.Base.{
  ◌>>=◌, min, max, ℕ, ◌+◌, ◌*◌, ◌/◌, [], ◌∷◌, ◌++◌, List, Bytes, length, Option, none, some, Bool,
  true, false, ◌||◌, not, ltb, leb, ◌==◌, if◌then◌else◌, codes, map,
}
use dbgate_mysql_dumper.Security.Identifiers.{quote_identifier, quote_qualified_identifier}
use dbgate_mysql_dumper.Data.Columns.{
  MysqlColumn, MysqlTable, MysqlIndex, MysqlDiagnostic, insertable_columns, generated_warnings,
  needs_column_list, quoted_list, build_order_by_clause,
}
use dbgate_mysql_dumper.Data.ChunkBuilder.{
  Part, text, SqlChunkBuilder, new_builder, append, append_builder, build,
}
use dbgate_mysql_dumper.Data.ValueRenderer.{ColumnValue, render_column_value}

-- `row[column.columnName] ?? null`
abbrev pub Row : Type 0
Row = Bytes → ColumnValue

-- What a cancellation throws, or any other error.
pub data Fault : Type 0 where
  abort failure : Fault

-- How the stream of rows ends. The signal is looked at when a row arrives, so a cancellation takes the
-- place of the next row, whether the stream or the check throws it.
pub data Ending : Type 0 where
  exhausted : Ending
  interrupted : Fault → Ending

-- The writer, which is not of this module: what it throws at a chunk, by what it has taken before.
abbrev pub Writer : Type 0
Writer = List Part → Part → Option Fault

-- What the options and the table settle before the first row; no row limit is `none`.
pub record Settings : Type 0 where
  pub statement_prefix : Bytes
  pub columns : List MysqlColumn
  pub extended_insert : Bool
  pub hex_blob : Bool
  pub max_rows_per_statement : Option ℕ
  pub max_statement_bytes : ℕ

-- The variables of the function; `written` is what the writer has taken.
pub record Export : Type 0 where
  pub statement : Option SqlChunkBuilder
  pub statement_rows : ℕ
  pub rows_exported : ℕ
  pub statements_written : ℕ
  pub written : List Part

pub data Outcome : Type 0 where
  done : Export → Outcome
  thrown : Fault → Export → Outcome

abbrev pub and_then : Outcome → (Export → Outcome) → Outcome
and_then (done x) f = f x
and_then (thrown fault x) f = thrown fault x

-- `flushStatement`
unfoldable pub flush_statement : Writer → Export → Outcome
flush_statement writer x = elim x.statement [
  | none ↦ done x
  | some builder ↦
      let closed = append builder (text (codes ";\n")) in
      if x.statement_rows == 0 then done x else elim (writer x.written (build closed)) [
        | some fault ↦ thrown fault (record x { statement = some closed })
        | none ↦ done (record {
          statement = none;
          statement_rows = 0;
          rows_exported = x.rows_exported;
          statements_written = x.statements_written + 1;
          written = x.written ++ build closed ∷ [];
        })
      ]
]

-- The columns of `buildTuple` behind the first.
unfoldable pub append_columns :
    SqlChunkBuilder → Row → List MysqlColumn → Bool → Option SqlChunkBuilder
append_columns tuple row [] hex_blob = some tuple
append_columns tuple row (column ∷ columns) hex_blob = do
  value ← render_column_value (row column.column_name) column.data_type hex_blob
  append_columns (append (append tuple (text (codes ","))) value) row columns hex_blob

-- `buildTuple`; `none` is an error of `renderColumnValue`
unfoldable pub build_tuple : Row → List MysqlColumn → Bool → Option SqlChunkBuilder
build_tuple row [] hex_blob =
    some (append (append new_builder (text (codes "("))) (text (codes ")")))
build_tuple row (column ∷ columns) hex_blob = do
  value ← render_column_value (row column.column_name) column.data_type hex_blob
  tuple ← append_columns (append (append new_builder (text (codes "("))) value) row columns hex_blob
  some (append tuple (text (codes ")")))

unfoldable pub rows_full : Option ℕ → ℕ → Bool
rows_full none rows = false
rows_full (some limit) rows = leb limit rows

-- The test before a row is appended to the statement that is open.
unfoldable pub must_flush : Settings → Export → SqlChunkBuilder → SqlChunkBuilder → Bool
must_flush settings x builder tuple =
    not settings.extended_insert
    || rows_full settings.max_rows_per_statement x.statement_rows
    || ltb settings.max_statement_bytes (builder.byte_length + tuple.byte_length + 2)

unfoldable pub make_room : Settings → Writer → Export → SqlChunkBuilder → Outcome
make_room settings writer x tuple = elim x.statement [
  | none ↦ done x
  | some builder ↦ if must_flush settings x builder tuple then flush_statement writer x else done x
]

-- The statement, begun with the prefix or gone on with a comma.
unfoldable pub opened_statement : Settings → Export → SqlChunkBuilder
opened_statement settings x = elim x.statement [
  | none ↦ append new_builder (text settings.statement_prefix)
  | some builder ↦ append builder (text (codes ","))
]

unfoldable pub add_tuple : Settings → Export → SqlChunkBuilder → Export
add_tuple settings x tuple = record x {
  statement = some (append_builder (opened_statement settings x) tuple);
  statement_rows = x.statement_rows + 1;
  rows_exported = x.rows_exported + 1;
}

unfoldable pub export_row : Settings → Writer → Export → Row → Outcome
export_row settings writer x row = elim (build_tuple row settings.columns settings.hex_blob) [
  | none ↦ thrown failure x
  | some tuple ↦
      and_then (make_room settings writer x tuple) (λ x'. done (add_tuple settings x' tuple))
]

-- The loop over the stream, and the last flush.
unfoldable pub export_rows : Settings → Writer → Ending → Export → List Row → Outcome
export_rows settings writer exhausted x [] = flush_statement writer x
export_rows settings writer (interrupted fault) x [] = thrown fault x
export_rows settings writer ending x (row ∷ rows) =
    and_then (export_row settings writer x row) (λ x'. export_rows settings writer ending x' rows)

abbrev pub new_export : Export
new_export = record {
  statement = none;
  statement_rows = 0;
  rows_exported = 0;
  statements_written = 0;
  written = [];
}

-- `resolveMaxStatementBytes`. A packet limit is below 2^31, where `Math.floor(limit * 0.9)` is exact.
unfoldable pub resolve_max_statement_bytes : ℕ → Option ℕ → ℕ
resolve_max_statement_bytes requested none = max 1024 requested
resolve_max_statement_bytes requested (some max_allowed_packet) =
    if max_allowed_packet == 0
    then max 1024 requested
    else max 1024 (min (max 1024 requested) (max_allowed_packet * 9 / 10))

pub record TableDataExportOptions : Type 0 where
  pub extended_insert : Bool
  pub complete_insert : Bool
  pub hex_blob : Bool
  pub max_rows_per_statement : Option ℕ
  pub max_statement_bytes : ℕ
  pub order_by_primary_key : Bool

-- The options, those left out set to their defaults.
abbrev pub default_options : TableDataExportOptions
default_options = record {
  extended_insert = true;
  complete_insert = false;
  hex_blob = true;
  max_rows_per_statement = none;
  max_statement_bytes = 1046528;
  order_by_primary_key = true;
}

pub record TableDataExportResult : Type 0 where
  pub rows_exported : ℕ
  pub statements_written : ℕ
  pub cancelled : Bool
  pub warnings : List MysqlDiagnostic
  pub written : List Part

-- `none` is an error that the function throws.
unfoldable pub export_result : List MysqlDiagnostic → Outcome → Option TableDataExportResult
export_result warnings (done x) = some (record {
  rows_exported = x.rows_exported;
  statements_written = x.statements_written;
  cancelled = false;
  warnings = warnings;
  written = x.written;
})
export_result warnings (thrown abort x) = some (record {
  rows_exported = x.rows_exported;
  statements_written = x.statements_written;
  cancelled = true;
  warnings = warnings;
  written = x.written;
})
export_result warnings (thrown failure x) = none

-- What is settled before the first row; `none` is the error of a name that cannot be quoted.
unfoldable pub settings_of : MysqlTable → TableDataExportOptions → Option ℕ → Option Settings
settings_of table options max_allowed_packet = do
  qualified_name ← quote_identifier table.pure_name
  names ←
      quoted_list (map (λ (column : MysqlColumn). column.column_name) (insertable_columns table))
  some (record {
    statement_prefix =
        codes "INSERT INTO "
        ++ qualified_name
        ++ (if needs_column_list table options.complete_insert
            then codes " (" ++ names ++ codes ")"
            else [])
        ++ codes " VALUES ";
    columns = insertable_columns table;
    extended_insert = options.extended_insert;
    hex_blob = options.hex_blob;
    max_rows_per_statement = elim options.max_rows_per_statement [
      | none ↦ none
      | some limit ↦ some (max 1 limit)
    ];
    max_statement_bytes =
        resolve_max_statement_bytes options.max_statement_bytes max_allowed_packet;
  })

unfoldable pub value_mode_warnings : MysqlTable → Bool → List MysqlDiagnostic
value_mode_warnings table raw =
    if raw then [] else record { code = codes "lossy-value-mode"; name = table.pure_name } ∷ []

-- What the connection streams for a query: the rows, and how the stream ends.
abbrev pub Connection : Type 0
Connection = Bytes → List Row × Ending

unfoldable pub select_rows : MysqlTable → Bytes → Bytes → Option Bytes
select_rows table database_name order_by_clause = do
  names ←
      quoted_list (map (λ (column : MysqlColumn). column.column_name) (insertable_columns table))
  source ← quote_qualified_identifier (database_name ∷ table.pure_name ∷ [])
  some (codes "SELECT " ++ names ++ codes " FROM " ++ source ++ order_by_clause)

-- A table with no insertable column: nothing is read or written.
unfoldable pub export_nothing : MysqlTable → List MysqlDiagnostic → Option TableDataExportResult
export_nothing table warnings = do
  name ← quote_identifier table.pure_name
  export_result
      (warnings
        ++ record { code = codes "table-has-no-insertable-columns"; name = table.pure_name } ∷ [])
      (done new_export)

unfoldable pub export_stream :
    Connection → Writer → Settings → List MysqlDiagnostic → Bytes → Option TableDataExportResult
export_stream connection writer settings warnings sql =
    let (rows, ending) = connection sql in
    export_result warnings (export_rows settings writer ending new_export rows)

unfoldable pub export_columns :
    Connection
    → Writer
    → MysqlTable
    → Bytes
    → List MysqlIndex
    → TableDataExportOptions
    → Option ℕ
    → List MysqlDiagnostic
    → Option TableDataExportResult
export_columns connection writer table database_name indexes options max_allowed_packet warnings =
    do
      settings ← settings_of table options max_allowed_packet
      (order_by_clause, order_warnings) ←
          build_order_by_clause table.pure_name indexes options.order_by_primary_key
      sql ← select_rows table database_name order_by_clause
      export_stream connection writer settings (warnings ++ order_warnings) sql

-- `raw` says that the connection supports raw value reads.
unfoldable pub export_table_data_as_inserts :
    Connection
    → Writer
    → MysqlTable
    → Bytes
    → List MysqlIndex
    → TableDataExportOptions
    → Option ℕ
    → Bool
    → Option TableDataExportResult
export_table_data_as_inserts connection writer table database_name indexes options
      max_allowed_packet raw =
    let warnings = generated_warnings table.columns ++ value_mode_warnings table raw in
    if length (insertable_columns table) == 0
    then export_nothing table warnings
    else export_columns connection writer table database_name indexes options max_allowed_packet
        warnings
