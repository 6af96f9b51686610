-- ===== src/Planning/Archive/Passes.antt =====
-- The loops of `inspectDumpArchive` in src/archive/planner.ts that fill the archive, in their order.
use dbgate_mysql_dumper.Base.{
  same, suc, [], ◌∷◌, ◌++◌, List, Bytes, none, some, Bool, ◌&&◌, not, if◌then◌else◌, codes,
}
use mathlib.Core.List.{foldl}
use dbgate_mysql_dumper.Data.Columns.{MysqlTable}
use dbgate_mysql_dumper.Data.ValueRenderer.{decimal}
use dbgate_mysql_dumper.Planning.Sections.{
  database, table, table_data, trigger, view_stub, event, function, procedure, view, by_codepoint,
}
use dbgate_mysql_dumper.Planning.Selection.{
  NormalizedDumpSelection, is_table_selected, is_view_selected, is_routine_selected,
  is_trigger_selected, is_event_selected, is_table_data_excluded,
}
use dbgate_mysql_dumper.Planning.Archive.Maps.{get, set, has_key, values, sort, filter}
use dbgate_mysql_dumper.Planning.Archive.Model.{
  MysqlDatabase, MysqlView, MysqlRoutine, MysqlTrigger, MysqlEvent, MysqlForeignKey, function_kind,
  procedure_kind, hard, preference, trigger_table_not_selected, or_default,
}
use dbgate_mysql_dumper.Planning.Archive.Plan.{Planner, add_entry, add_dependency}

pub record Settings : Type 0 where
  pub wants_schema : Bool
  pub wants_data : Bool
  pub include_tables : Bool
  pub include_views : Bool
  pub include_triggers : Bool
  pub include_routines : Bool
  pub include_events : Bool
  pub include_database_entry : Bool
  pub selection : NormalizedDumpSelection

abbrev pub empty_planner : Planner
empty_planner = record {
  entries = [];
  diagnostics = [];
  database_dump_id = none;
  table_dump_id = [];
  table_data_dump_id = [];
  view_stub_dump_id = [];
}

module _ (to_lower_case create_dump_id : Bytes → Bytes) (db : MysqlDatabase) (o : Settings) where
  unfoldable pub add_database : Planner → Planner
  unfolding add_entry
  add_database s =
      if o.include_database_entry
      then (let (s', id) =
            add_entry create_dump_id db.database_name s database db.database_name db.database_name
              [] none in
          record s' { database_dump_id = some id })
      else s

  unfoldable pub add_table_schema : Planner → MysqlTable → Planner
  unfolding add_entry set add_dependency
  add_table_schema s t =
      let (s', id) =
        add_entry create_dump_id db.database_name s table t.pure_name t.pure_name (codes "0")
          none in
      add_dependency (record s' { table_dump_id = set t.pure_name id s'.table_dump_id }) id
        s'.database_dump_id hard

  unfoldable pub add_table_data : Planner → MysqlTable → Planner
  unfolding add_entry set get add_dependency
  add_table_data s t =
      let (s', id) =
        add_entry create_dump_id db.database_name s table_data t.pure_name t.pure_name (codes "1")
          (some t.pure_name) in
      let s'' =
        add_dependency (record s' { table_data_dump_id = set t.pure_name id s'.table_data_dump_id })
          id (get t.pure_name s'.table_dump_id) hard in
      add_dependency s'' id s''.database_dump_id hard

  unfoldable pub add_table : Planner → MysqlTable → Planner
  unfolding add_table_schema add_table_data is_table_data_excluded
  add_table s t =
      let s' = if o.wants_schema then add_table_schema s t else s in
      if o.wants_data && not (is_table_data_excluded to_lower_case t.pure_name o.selection)
      then add_table_data s' t
      else s'

  unfoldable pub selected_tables : List MysqlTable
  unfolding filter is_table_selected
  selected_tables =
      if o.include_tables
      then filter (λ t. is_table_selected to_lower_case t.pure_name o.selection) db.tables
      else []

  unfoldable pub selected_views : List MysqlView
  unfolding filter is_view_selected
  selected_views =
      if o.include_views
      then filter (λ v. is_view_selected to_lower_case v.pure_name o.selection) db.views
      else []

  unfoldable pub add_tables : Planner → Planner
  unfolding add_table sort selected_tables by_codepoint
  add_tables s =
      foldl add_table s (sort (λ a b. by_codepoint a.pure_name b.pure_name) selected_tables)

  unfoldable pub add_view_stub : Planner → MysqlView → Planner
  unfolding add_entry set add_dependency
  add_view_stub s v =
      if not o.wants_schema
      then s
      else (let (s', id) =
            add_entry create_dump_id db.database_name s view_stub v.pure_name v.pure_name
              (codes "0") none in
          add_dependency (record s' { view_stub_dump_id = set v.pure_name id s'.view_stub_dump_id })
            id s'.database_dump_id hard)

  unfoldable pub add_view_stubs : Planner → Planner
  unfolding add_view_stub selected_views
  add_view_stubs s = foldl add_view_stub s selected_views

  -- `2:${trigger.actionOrder ?? 0}:${trigger.triggerName}`
  unfoldable pub trigger_key : MysqlTrigger → Bytes
  unfolding decimal
  trigger_key t =
      let action_order = or_default t.action_order 0 in
      codes "2:" ++ (decimal (suc action_order) action_order ++ b':' ∷ t.trigger_name)

  unfoldable pub add_trigger : Planner → MysqlTrigger → Planner
  unfolding add_entry get add_dependency trigger_key
  add_trigger s t =
      let (s', id) =
        add_entry create_dump_id db.database_name s trigger t.trigger_name t.table_name
          (trigger_key t) (some t.table_name) in
      let s'' = add_dependency s' id (get t.table_name s'.table_dump_id) hard in
      add_dependency s'' id (get t.table_name s''.table_data_dump_id) hard

  unfoldable pub note_trigger : Planner → MysqlTrigger → Planner
  unfolding is_trigger_selected has_key
  note_trigger s t =
      if is_trigger_selected to_lower_case t.trigger_name o.selection
        && not (has_key t.table_name s.table_dump_id)
      then record s {
        diagnostics = s.diagnostics ++ trigger_table_not_selected t.trigger_name t.table_name ∷ [];
      }
      else s

  unfoldable pub add_triggers : Planner → Planner
  unfolding add_trigger note_trigger filter is_trigger_selected has_key
  add_triggers s =
      if o.include_triggers && o.wants_schema
      then foldl note_trigger
          (foldl add_trigger s (
            filter
              (λ t.
                is_trigger_selected to_lower_case t.trigger_name o.selection
                && has_key t.table_name s.table_dump_id)
              db.triggers))
          db.triggers
      else s

  unfoldable pub add_event : Planner → MysqlEvent → Planner
  unfolding add_entry add_dependency
  add_event s e =
      let (s', id) =
        add_entry create_dump_id db.database_name s event e.event_name e.event_name [] none in
      add_dependency s' id s'.database_dump_id hard

  unfoldable pub add_events : Planner → Planner
  unfolding add_event sort filter is_event_selected by_codepoint
  add_events s =
      if o.include_events && o.wants_schema
      then foldl add_event s (
          sort (λ a b. by_codepoint a.event_name b.event_name)
            (filter (λ e. is_event_selected to_lower_case e.event_name o.selection) db.events))
      else s

  unfoldable pub add_routine : Planner → MysqlRoutine → Planner
  unfolding add_entry add_dependency
  add_routine s r =
      let (s', id) =
        add_entry create_dump_id db.database_name s
          (elim r.kind [ function_kind ↦ function | procedure_kind ↦ procedure ]) r.pure_name
          r.pure_name [] none in
      add_dependency s' id s'.database_dump_id hard

  unfoldable pub add_routines : Planner → Planner
  unfolding add_routine sort filter is_routine_selected by_codepoint
  add_routines s =
      if o.include_routines && o.wants_schema
      then foldl add_routine s (
          sort (λ a b. by_codepoint a.pure_name b.pure_name)
            (filter (λ r. is_routine_selected to_lower_case r.pure_name o.selection) db.routines))
      else s

  unfoldable pub depend_on_all : Bytes → Planner → List Bytes → Planner
  unfolding add_dependency
  depend_on_all id s [] = s
  depend_on_all id s (target ∷ targets) =
      depend_on_all id (add_dependency s id (some target) hard) targets

  unfoldable pub prefer_all : Bytes → Planner → List Bytes → Planner
  unfolding add_dependency
  prefer_all id s [] = s
  prefer_all id s (target ∷ targets) =
      prefer_all id (add_dependency s id (some target) preference) targets

  unfoldable pub add_view : Planner → MysqlView → Planner
  unfolding add_entry add_dependency get values depend_on_all prefer_all
  add_view s v =
      let (s', id) =
        add_entry create_dump_id db.database_name s view v.pure_name v.pure_name [] none in
      let own = add_dependency s' id (get v.pure_name s'.view_stub_dump_id) hard in
      let others = depend_on_all id own (values own.view_stub_dump_id) in
      prefer_all id others (values others.table_dump_id)

  unfoldable pub add_views : Planner → Planner
  unfolding add_view sort selected_views by_codepoint
  add_views s =
      if o.wants_schema
      then foldl add_view s (sort (λ a b. by_codepoint a.pure_name b.pure_name) selected_views)
      else s

  unfoldable pub add_foreign_key : Planner → MysqlForeignKey → Planner
  unfolding get add_dependency
  add_foreign_key s k = elim (get k.table_name s.table_dump_id) [
    | none ↦ s
    | some from ↦
        if same from []
        then s
        else add_dependency s from (get k.referenced_table_name s.table_dump_id) preference
  ]

  unfoldable pub add_foreign_keys : Planner → Planner
  unfolding add_foreign_key
  add_foreign_keys s = foldl add_foreign_key s db.foreign_keys

  unfoldable pub plan : Planner
  unfolding add_database add_tables add_view_stubs add_triggers add_events add_routines add_views
      add_foreign_keys
  plan = add_foreign_keys (
      add_views (
        add_routines
          (add_events (add_triggers (add_view_stubs (add_tables (add_database empty_planner)))))))
