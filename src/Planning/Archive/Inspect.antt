-- ===== src/Planning/Archive/Inspect.antt =====
-- `inspectDumpArchive`, `validateOrder` and `toArchiveEntry` of src/archive/planner.ts.
use dbgate_mysql_dumper.Base.{
  ◌>>=◌, same, ℕ, suc, [], ◌∷◌, ◌++◌, List, Bytes, Option, none, some, Bool, true, false, ◌&&◌, not,
  any, ltb, if◌then◌else◌, map,
}
use dbgate_mysql_dumper.Planning.Sections.{Sign, compare_entries, assign_dump_section}
use dbgate_mysql_dumper.Planning.Selection.{NormalizedDumpSelection, normalize_dump_selection}
use dbgate_mysql_dumper.Planning.Archive.Maps.{sort}
use dbgate_mysql_dumper.Planning.Archive.Model.{
  MysqlDatabase, ArchiveDependency, MutableEntry, ArchiveEntry, UnsatisfiedDependency,
  PlanDiagnostic, archive_dependency_cycle, archive_order_violation, is_error,
  DumpArchiveInspection, or_default,
}
use dbgate_mysql_dumper.Planning.Archive.Plan.{is_hard}
use dbgate_mysql_dumper.Planning.Archive.Passes.{Settings, plan}
use dbgate_mysql_dumper.Planning.Archive.Cycles.{find_hard_cycles}

pub data DumpMode : Type 0 where
  full schema_only data_only : DumpMode

pub record DumpObjectKinds : Type 0 where
  pub include_tables : Option Bool
  pub include_views : Option Bool
  pub include_triggers : Option Bool
  pub include_routines : Option Bool
  pub include_events : Option Bool

pub record InspectDumpArchiveOptions : Type 0 where
  pub mode : Option DumpMode
  pub selection : Option NormalizedDumpSelection
  pub object_kinds : Option DumpObjectKinds
  pub include_database_entry : Option Bool

-- `positionByDumpId.get(id)`: the last position with the identifier.
unfoldable pub position : Bytes → List MutableEntry → Option ℕ
position id [] = none
position id (e ∷ es) = elim (position id es) [
  | some i ↦ some (suc i)
  | none ↦ if same e.dump_id id then some 0 else none
]

-- `toPosition !== undefined && toPosition > fromPosition`
unfoldable pub stands_after : Option ℕ → ℕ → Bool
stands_after none from = false
stands_after (some to) from = ltb from to

unfoldable pub violations_of :
    List MutableEntry → Bytes → ℕ → List ArchiveDependency → List UnsatisfiedDependency
unfolding is_hard position stands_after
violations_of ordered id from [] = []
violations_of ordered id from (d ∷ ds) =
    if is_hard d.strength && stands_after (position d.target_dump_id ordered) from
    then record { from_dump_id = id; to_dump_id = d.target_dump_id }
      ∷ violations_of ordered id from ds
    else violations_of ordered id from ds

unfoldable pub unsatisfied : List MutableEntry → List MutableEntry → List UnsatisfiedDependency
unfolding violations_of position
unsatisfied ordered [] = []
unsatisfied ordered (e ∷ es) =
    violations_of ordered e.dump_id (or_default (position e.dump_id ordered) 0) e.depends_on
    ++ unsatisfied ordered es

unfoldable pub to_archive_entry : MutableEntry → Option ℕ → ArchiveEntry
unfolding assign_dump_section
to_archive_entry e sequence_number = record {
  dump_id = e.dump_id;
  identity = e.identity;
  object_type = e.keys.object_type;
  section = assign_dump_section e.keys.object_type;
  database_name = e.database_name;
  name = e.keys.name;
  parent_name = e.parent_name;
  depends_on = e.depends_on;
  sequence_number = sequence_number;
}

-- `ordered.map((entry, index) => …)`, from `index` on
unfoldable pub to_archive_entries : Bool → ℕ → List MutableEntry → List ArchiveEntry
unfolding to_archive_entry
to_archive_entries valid index [] = []
to_archive_entries valid index (e ∷ es) =
    to_archive_entry e (if valid then some index else none)
    ∷ to_archive_entries valid (suc index) es

unfoldable pub compare_mutable : MutableEntry → MutableEntry → Sign
unfolding compare_entries
compare_mutable a b = compare_entries a.keys b.keys

unfoldable pub is_empty {ℓ} : {A : Type ℓ} → List A → Bool
is_empty [] = true
is_empty (x ∷ xs) = false

unfoldable pub wants_schema : DumpMode → Bool
wants_schema data_only = false
wants_schema _ = true

unfoldable pub wants_data : DumpMode → Bool
wants_data schema_only = false
wants_data _ = true

unfoldable pub conclude :
    List PlanDiagnostic → List MutableEntry → List (List Bytes) → DumpArchiveInspection
unfolding unsatisfied is_empty is_error to_archive_entries
conclude diagnostics ordered cycles =
    let violations = unsatisfied ordered ordered in
    let valid = is_empty cycles && is_empty violations && not (any is_error diagnostics) in
    record {
      valid = valid;
      entries = to_archive_entries valid 0 ordered;
      diagnostics =
          diagnostics
          ++ (map archive_dependency_cycle cycles ++ map archive_order_violation violations);
      cycles = cycles;
      unsatisfied_dependencies = violations;
    }

module _ (to_lower_case create_dump_id : Bytes → Bytes) where
  unfoldable pub settings : InspectDumpArchiveOptions → Settings
  unfolding wants_schema wants_data normalize_dump_selection
  settings o =
      let mode = or_default o.mode full in
      let kinds = or_default o.object_kinds (record {
        include_tables = none;
        include_views = none;
        include_triggers = none;
        include_routines = none;
        include_events = none;
      }) in
      record {
        wants_schema = wants_schema mode;
        wants_data = wants_data mode;
        include_tables = or_default kinds.include_tables true;
        include_views = or_default kinds.include_views true;
        include_triggers = or_default kinds.include_triggers true;
        include_routines = or_default kinds.include_routines true;
        include_events = or_default kinds.include_events true;
        include_database_entry = or_default o.include_database_entry false;
        selection = or_default o.selection (
            normalize_dump_selection to_lower_case
              (record {
                tables = none;
                exclude_tables = none;
                views = none;
                exclude_views = none;
                routines = none;
                exclude_routines = none;
                triggers = none;
                exclude_triggers = none;
                events = none;
                exclude_events = none;
                data_excluded_tables = none;
              })
              false);
      }

  -- `none` when the fuel of `find_hard_cycles` runs out.
  unfoldable pub inspect_dump_archive :
      MysqlDatabase → InspectDumpArchiveOptions → Option DumpArchiveInspection
  unfolding settings plan sort compare_mutable find_hard_cycles conclude
  inspect_dump_archive database options =
      let planned = plan to_lower_case create_dump_id database (settings options) in
      let ordered = sort compare_mutable planned.entries in
      find_hard_cycles ordered >>= λ cycles. some (conclude planned.diagnostics ordered cycles)
