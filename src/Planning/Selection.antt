-- ===== src/Planning/Selection.antt =====
-- src/selection/normalize.ts: which objects a caller's selection admits. A set is the list of the names
-- that it was made of.
pub mod Folding
use dbgate_mysql_dumper.Base.{
  same, [], List, Bytes, Option, none, some, Bool, true, false, any, if◌then◌else◌, map,
}

pub record DumpSelection : Type 0 where
  pub tables : Option (List Bytes)
  pub exclude_tables : Option (List Bytes)
  pub views : Option (List Bytes)
  pub exclude_views : Option (List Bytes)
  pub routines : Option (List Bytes)
  pub exclude_routines : Option (List Bytes)
  pub triggers : Option (List Bytes)
  pub exclude_triggers : Option (List Bytes)
  pub events : Option (List Bytes)
  pub exclude_events : Option (List Bytes)
  pub data_excluded_tables : Option (List Bytes)

pub record NormalizedDumpSelection : Type 0 where
  pub tables : Option (List Bytes)
  pub exclude_tables : List Bytes
  pub views : Option (List Bytes)
  pub exclude_views : List Bytes
  pub routines : Option (List Bytes)
  pub exclude_routines : List Bytes
  pub triggers : Option (List Bytes)
  pub exclude_triggers : List Bytes
  pub events : Option (List Bytes)
  pub exclude_events : List Bytes
  pub data_excluded_tables : List Bytes
  pub case_insensitive_table_names : Bool

unfoldable pub to_set : Option (List Bytes) → (Bytes → Bytes) → Option (List Bytes)
to_set none fold = none
to_set (some names) fold = some (map fold names)

-- `new Set((names ?? []).map(fold))`
unfoldable pub excluded_set : Option (List Bytes) → (Bytes → Bytes) → List Bytes
excluded_set none fold = []
excluded_set (some names) fold = map fold names

-- `set.has(name)`
unfoldable pub has : List Bytes → Bytes → Bool
has names name = any (same name) names

unfoldable pub is_selected : Bytes → Option (List Bytes) → List Bytes → Bool
is_selected name include exclude =
    if has exclude name then false else elim include [ none ↦ true | some names ↦ has names name ]

-- `to_lower_case` is `toLowerCase`, which goes by the Unicode character tables.
module _ (to_lower_case : Bytes → Bytes) where
  unfoldable pub fold_table : Bool → Bytes → Bytes
  fold_table case_insensitive name = if case_insensitive then to_lower_case name else name

  unfoldable pub normalize_dump_selection : DumpSelection → Bool → NormalizedDumpSelection
  normalize_dump_selection selection case_insensitive = record {
    tables = to_set selection.tables (fold_table case_insensitive);
    exclude_tables = excluded_set selection.exclude_tables (fold_table case_insensitive);
    views = to_set selection.views (fold_table case_insensitive);
    exclude_views = excluded_set selection.exclude_views (fold_table case_insensitive);
    routines = to_set selection.routines to_lower_case;
    exclude_routines = excluded_set selection.exclude_routines to_lower_case;
    triggers = to_set selection.triggers to_lower_case;
    exclude_triggers = excluded_set selection.exclude_triggers to_lower_case;
    events = to_set selection.events to_lower_case;
    exclude_events = excluded_set selection.exclude_events to_lower_case;
    data_excluded_tables =
        excluded_set selection.data_excluded_tables (fold_table case_insensitive);
    case_insensitive_table_names = case_insensitive;
  }

  unfoldable pub is_table_selected : Bytes → NormalizedDumpSelection → Bool
  is_table_selected name selection =
      is_selected (fold_table selection.case_insensitive_table_names name) selection.tables
        selection.exclude_tables

  unfoldable pub is_view_selected : Bytes → NormalizedDumpSelection → Bool
  is_view_selected name selection =
      is_selected (fold_table selection.case_insensitive_table_names name) selection.views
        selection.exclude_views

  unfoldable pub is_routine_selected : Bytes → NormalizedDumpSelection → Bool
  is_routine_selected name selection =
      is_selected (to_lower_case name) selection.routines selection.exclude_routines

  unfoldable pub is_trigger_selected : Bytes → NormalizedDumpSelection → Bool
  is_trigger_selected name selection =
      is_selected (to_lower_case name) selection.triggers selection.exclude_triggers

  unfoldable pub is_event_selected : Bytes → NormalizedDumpSelection → Bool
  is_event_selected name selection =
      is_selected (to_lower_case name) selection.events selection.exclude_events

  unfoldable pub is_table_data_excluded : Bytes → NormalizedDumpSelection → Bool
  is_table_data_excluded name selection =
      has selection.data_excluded_tables (fold_table selection.case_insensitive_table_names name)
