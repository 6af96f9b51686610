-- ===== src/Planning/Archive/Tests.antt =====
-- Archives of small databases, and the theorems about them at these.
use dbgate_mysql_dumper.Base.{
  same, get_elem?, ℕ, ◌<◌, [], ◌∷◌, List, ◌≡◌, Bytes, refl, none, some, true, not, any, codes,
}
use dbgate_mysql_dumper.Planning.Sections.{
  assign_dump_section, Entry, table, view, delta, dump_section_priority, is_routines,
  compare_in_section, main_group_priority,
}
use dbgate_mysql_dumper.Text.Letters.{lower}
use dbgate_mysql_dumper.Planning.Archive.Model.{
  MysqlDatabase, ArchiveDependency, MutableEntry, ArchiveEntry, DumpArchiveInspection, hard,
  is_error, or_default, create_canonical_identity,
}
use dbgate_mysql_dumper.Planning.Archive.Plan.{is_hard}
use dbgate_mysql_dumper.Planning.Archive.Cycles.{find_hard_cycles}
use dbgate_mysql_dumper.Planning.Archive.Inspect.{
  InspectDumpArchiveOptions, conclude, inspect_dump_archive,
}
use dbgate_mysql_dumper.Planning.Archive.Valid.{reported, ordered, inspect_dump_archive_valid}
use dbgate_mysql_dumper.Planning.Archive.Emitted.{inspect_dump_archive-emitted_before}
use dbgate_mysql_dumper.Planning.Archive.Entered.{find_hard_cycles-terminates}
use dbgate_mysql_dumper.Planning.Archive.Identity.{create_canonical_identity_injective}
use dbgate_mysql_dumper.Planning.Selection.{is_selected, has, excluded_set, to_set}

abbrev shop : MysqlDatabase
shop = record {
  database_name = codes "shop";
  tables = record { pure_name = codes "orders"; columns = [] } ∷ [];
  views = record { pure_name = codes "recent" } ∷ [];
  foreign_keys = [];
  routines = [];
  triggers =
      record { trigger_name = codes "audit"; table_name = codes "orders"; action_order = some 1 }
      ∷ [];
  events = [];
}

-- One table and its rows.
abbrev small : MysqlDatabase
small = record {
  database_name = codes "d";
  tables = record { pure_name = codes "t"; columns = [] } ∷ [];
  views = [];
  foreign_keys = [];
  routines = [];
  triggers = [];
  events = [];
}

abbrev options : InspectDumpArchiveOptions
options = record {
  mode = none;
  selection = none;
  object_kinds = none;
  include_database_entry = none;
}

abbrev hash : Bytes → Bytes
hash identity = identity

abbrev inspection : DumpArchiveInspection
inspection = conclude (reported lower hash small options) (ordered lower hash small options) []

inspect_small : inspect_dump_archive lower hash small options ≡ some inspection
unfolding inspect_dump_archive is_selected has any excluded_set to_set same delta
    dump_section_priority is_routines compare_in_section main_group_priority
inspect_small = refl

small_valid : inspection.valid ≡ true
unfolding inspect_dump_archive is_selected has any excluded_set to_set same delta
    dump_section_priority is_routines compare_in_section main_group_priority
small_valid = refl

inspect_dump_archive_valid_example :
    (r : DumpArchiveInspection) × (inspect_dump_archive lower hash shop options ≡ some r)
    × (r.valid ≡ not (any is_error (reported lower hash shop options)))
inspect_dump_archive_valid_example = inspect_dump_archive_valid lower hash shop options

-- The rows of the table, and their dependency on its structure.
abbrev no_entry : ArchiveEntry
no_entry = record {
  dump_id = [];
  identity = [];
  object_type = table;
  section = assign_dump_section table;
  database_name = [];
  name = [];
  parent_name = none;
  depends_on = [];
  sequence_number = none;
}

abbrev rows : ArchiveEntry
rows = or_default (get_elem? inspection.entries 1) no_entry

abbrev on_table : ArchiveDependency
on_table =
    or_default (get_elem? rows.depends_on 0) (record { target_dump_id = []; strength = hard })

rows_there : get_elem? inspection.entries 1 ≡ some rows
unfolding inspect_dump_archive is_selected has any excluded_set to_set same delta
    dump_section_priority is_routines compare_in_section main_group_priority
rows_there = refl

on_table_there : get_elem? rows.depends_on 0 ≡ some on_table
unfolding inspect_dump_archive is_selected has any excluded_set to_set same delta
    dump_section_priority is_routines compare_in_section main_group_priority
on_table_there = refl

on_table_hard : is_hard on_table.strength ≡ true
unfolding inspect_dump_archive is_selected has any excluded_set to_set same delta
    dump_section_priority is_routines compare_in_section main_group_priority
on_table_hard = refl

inspect_dump_archive-emitted_before_example :
    (j : ℕ) × (target : ArchiveEntry) × (get_elem? inspection.entries j ≡ some target)
    × (target.dump_id ≡ on_table.target_dump_id)
    × (j < 1)
inspect_dump_archive-emitted_before_example =
    inspect_dump_archive-emitted_before lower hash small options inspection 1 rows on_table
      inspect_small small_valid rows_there (0, on_table_there) on_table_hard

abbrev keys : Entry
keys = record { object_type = view; group_key = []; secondary_key = []; name = [] }

abbrev entry : Bytes → List ArchiveDependency → MutableEntry
entry id ds = record {
  dump_id = id;
  identity = id;
  database_name = [];
  parent_name = none;
  depends_on = ds;
  keys = keys;
}

abbrev on : Bytes → ArchiveDependency
on id = record { target_dump_id = id; strength = hard }

abbrev circle : List MutableEntry
circle =
    entry (codes "b") (on (codes "c") ∷ [])
    ∷ entry (codes "c") (on (codes "a") ∷ [])
    ∷ entry (codes "a") (on (codes "b") ∷ on (codes "d") ∷ [])
    ∷ entry (codes "d") []
    ∷ []

circle_cycles : find_hard_cycles circle ≡ some ((codes "a" ∷ codes "b" ∷ codes "c" ∷ []) ∷ [])
unfolding find_hard_cycles same any
circle_cycles = refl

find_hard_cycles-terminates_example :
    (cycles : List (List Bytes)) × (find_hard_cycles circle ≡ some cycles)
find_hard_cycles-terminates_example = find_hard_cycles-terminates circle

identity_of_table :
    create_canonical_identity (codes "table" ∷ codes "a|1:b" ∷ []) ≡ codes "5:table|5:a|1:b"
unfolding create_canonical_identity
identity_of_table = refl

create_canonical_identity_injective_example :
    ◌≡◌ {A = List Bytes} (codes "a.b" ∷ codes "c" ∷ []) (codes "a.b" ∷ codes "c" ∷ [])
create_canonical_identity_injective_example =
    create_canonical_identity_injective (codes "a.b" ∷ codes "c" ∷ [])
      (codes "a.b" ∷ codes "c" ∷ []) refl
