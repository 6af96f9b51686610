-- ===== src/Examples.antt =====
-- The theorems at small inputs: literals and names, rows of one column, entries and a selection.
use dbgate_mysql_dumper.Base.{
  suc, [], ◌∷◌, ◌++◌, List, ◌≡◌, length, refl, arith, none, some, true, false, drop, starts_with,
  every, if◌then◌else◌, codes,
}
use dbgate_mysql_dumper.Security.Literals.{quote_mysql_string, quote_mysql_bytes}
use dbgate_mysql_dumper.Security.Literals.Escaping.{
  quote_mysql_string-unescape, quote_mysql_bytes-quote_mysql_string,
}
use dbgate_mysql_dumper.Security.Identifiers.{quote_identifier}
use dbgate_mysql_dumper.Security.Identifiers.Quoting.{quote_identifier-Quotes, Quotes}
use dbgate_mysql_dumper.Restore.BinaryLiterals.{to_hex_literal, skip_quoted, unescape, subarray}
use dbgate_mysql_dumper.Text.Utf8.{decoded}
use dbgate_mysql_dumper.Text.Letters.{lower}
use dbgate_mysql_dumper.Data.Columns.{MysqlColumn, not_generated}
use dbgate_mysql_dumper.Data.ChunkBuilder.{
  text, buffer, SqlChunkBuilder, append, append_builder, build, part_bytes,
}
use dbgate_mysql_dumper.Data.ChunkBuilder.Content.{build-append_builder}
use dbgate_mysql_dumper.Data.ValueRenderer.{
  buffer_value, null, render_column_value, has, binary_types,
}
use dbgate_mysql_dumper.Data.ValueRenderer.ReadBack.{
  read_rendered, read_rendered-render_column_value, read_literal, read_literal-to_hex_literal,
}
use dbgate_mysql_dumper.Data.InsertExport.{
  build_tuple, append_columns, Row, exhausted, Writer, Settings, export_rows, new_export,
}
use dbgate_mysql_dumper.Data.InsertExport.Groups.{tuples}
use dbgate_mysql_dumper.Data.InsertExport.Groups.Loop.{
  Exports, export_rows-lines, Writes, export_rows-completes,
}
use dbgate_mysql_dumper.Planning.Sections.{Entry, compare_entries, negative, table_data, trigger}
use dbgate_mysql_dumper.Planning.Sections.Order.{compare_entries-place}
use dbgate_mysql_dumper.Planning.Selection.{
  DumpSelection, normalize_dump_selection, fold_table, is_table_selected, is_view_selected,
  is_routine_selected, is_trigger_selected, is_event_selected,
}
use dbgate_mysql_dumper.Planning.Selection.Folding.{admitted, normalize_dump_selection-admitted}

-- quotes and a backslash in a string, before a comma
quote_mysql_string-unescape_example :
    let literal = quote_mysql_string (codes "it's \\ here") ++ codes ", 1" in
    let size = skip_quoted b'\'' true (drop 1 literal) in
    (unescape (subarray literal 1 size) ≡ codes "it's \\ here")
    × (drop (suc size) literal ≡ codes ", 1")
unfolding starts_with
quote_mysql_string-unescape_example =
    quote_mysql_string-unescape (codes "it's \\ here") (codes ", 1") refl

quote_mysql_bytes-quote_mysql_string_example :
    quote_mysql_bytes (0 ∷ 39 ∷ 255 ∷ []) ≡ quote_mysql_string (0 ∷ 39 ∷ 255 ∷ [])
quote_mysql_bytes-quote_mysql_string_example =
    quote_mysql_bytes-quote_mysql_string (0 ∷ 39 ∷ 255 ∷ [])

read_literal-to_hex_literal_example :
    read_literal (to_hex_literal (0 ∷ 171 ∷ [])) ≡ some (0 ∷ 171 ∷ [])
unfolding every
read_literal-to_hex_literal_example = read_literal-to_hex_literal (0 ∷ 171 ∷ []) refl

quote_identifier-Quotes_example :
    Quotes (codes "a`b") (codes ".`c`") (quote_identifier (codes "a`b"))
unfolding starts_with
quote_identifier-Quotes_example = quote_identifier-Quotes (codes "a`b") (codes ".`c`") refl

read_rendered-render_column_value_example :
    read_rendered (render_column_value (buffer_value (0 ∷ 39 ∷ 200 ∷ [])) (codes "BLOB") false)
    ≡ some (
        if has binary_types (lower (codes "BLOB"))
        then 0 ∷ 39 ∷ 200 ∷ []
        else decoded (0 ∷ 39 ∷ 200 ∷ []))
unfolding every
read_rendered-render_column_value_example =
    read_rendered-render_column_value (0 ∷ 39 ∷ 200 ∷ []) (codes "BLOB") false refl

abbrev some_text : SqlChunkBuilder
some_text = record { parts = text (codes "(1") ∷ []; byte_length = 2; has_bytes = false }

abbrev some_bytes : SqlChunkBuilder
some_bytes = record { parts = buffer (255 ∷ []) ∷ []; byte_length = 1; has_bytes = true }

build-append_builder_example :
    (part_bytes (build (append_builder some_text some_bytes))
      ≡ part_bytes (build some_text) ++ part_bytes (build some_bytes))
    × ((append_builder some_text some_bytes).byte_length
        ≡ length (part_bytes (build (append_builder some_text some_bytes))))
build-append_builder_example =
    build-append_builder some_text some_bytes (record { counted = refl; flagged = refl })
      (record { counted = refl; flagged = refl })

abbrev id_column : MysqlColumn
id_column = record {
  column_name = codes "id";
  ordinal_position = 1;
  data_type = codes "int";
  generation = not_generated;
  is_invisible = false;
}

-- at most two rows in a statement
abbrev settings : Settings
settings = record {
  statement_prefix = codes "INSERT INTO `t` VALUES ";
  columns = id_column ∷ [];
  extended_insert = true;
  hex_blob = true;
  max_rows_per_statement = some 2;
  max_statement_bytes = 1024;
}

abbrev rows : List Row
rows = (λ name. buffer_value (codes "1")) ∷ (λ name. buffer_value (codes "2")) ∷ (λ name. null) ∷ []

abbrev accepting : Writer
accepting taken chunk = none

export_rows-lines_example :
    Exports settings
      (tuples settings rows)
      (export_rows settings accepting exhausted new_export rows)
export_rows-lines_example = export_rows-lines settings accepting exhausted rows

abbrev null_rows : List Row
null_rows = (λ name. null) ∷ (λ name. null) ∷ (λ name. null) ∷ []

export_rows-completes_example :
    Writes settings null_rows (export_rows settings accepting exhausted new_export null_rows)
unfolding build_tuple append_columns append render_column_value
export_rows-completes_example =
    export_rows-completes settings accepting null_rows (λ taken chunk. refl)
      ((λ e. cc), ((λ e. cc), ((λ e. cc), tt)))

abbrev data_entry : Entry
data_entry = record {
  object_type = table_data;
  group_key = codes "t";
  secondary_key = codes "1";
  name = codes "t";
}

abbrev trigger_entry : Entry
trigger_entry = record {
  object_type = trigger;
  group_key = codes "t";
  secondary_key = codes "000";
  name = codes "a";
}

compare_entries-place_example : compare_entries data_entry trigger_entry ≡ negative
compare_entries-place_example =
    compare_entries-place data_entry trigger_entry 1 2 refl refl refl (omega arith)

abbrev selection : DumpSelection
selection = record {
  tables = some (codes "Orders" ∷ codes "log" ∷ []);
  exclude_tables = some (codes "LOG" ∷ []);
  views = none;
  exclude_views = none;
  routines = none;
  exclude_routines = none;
  triggers = none;
  exclude_triggers = none;
  events = none;
  exclude_events = none;
  data_excluded_tables = none;
}

normalize_dump_selection-admitted_example :
    let normalized = normalize_dump_selection lower selection true in
    let fold = fold_table lower true in
    let name = codes "orders" in
    (is_table_selected lower name normalized
      ≡ admitted fold selection.tables selection.exclude_tables name)
    × (is_view_selected lower name normalized
        ≡ admitted fold selection.views selection.exclude_views name)
    × (is_routine_selected lower name normalized
        ≡ admitted lower selection.routines selection.exclude_routines name)
    × (is_trigger_selected lower name normalized
        ≡ admitted lower selection.triggers selection.exclude_triggers name)
    × (is_event_selected lower name normalized
        ≡ admitted lower selection.events selection.exclude_events name)
normalize_dump_selection-admitted_example =
    normalize_dump_selection-admitted lower selection (codes "orders") true
