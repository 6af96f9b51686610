-- ===== src/Planning/Archive/Plan.antt =====
-- `addEntry` and `addDependency` of src/archive/planner.ts, with the variables they share.
use dbgate_mysql_dumper.Base.{
  ◌||◌, same, [], ◌∷◌, ◌++◌, List, Bytes, Option, none, some, Bool, true, false, ◌&&◌, not,
  if◌then◌else◌,
}
use dbgate_mysql_dumper.Planning.Sections.{ArchiveObjectType}
use dbgate_mysql_dumper.Planning.Archive.Model.{
  DependencyStrength, hard, preference, ArchiveDependency, MutableEntry, PlanDiagnostic,
  duplicate_archive_identity, create_archive_identity,
}

-- The variables of `inspectDumpArchive`. The keys of `entries` are the identifiers of its entries.
pub record Planner : Type 0 where
  pub entries : List MutableEntry
  pub diagnostics : List PlanDiagnostic
  pub database_dump_id : Option Bytes
  pub table_dump_id : List (Bytes × Bytes)
  pub table_data_dump_id : List (Bytes × Bytes)
  pub view_stub_dump_id : List (Bytes × Bytes)

-- `entries.get(dumpId)`
unfoldable pub find : Bytes → List MutableEntry → Option MutableEntry
find id [] = none
find id (e ∷ es) = if same e.dump_id id then some e else find id es

-- `entries.set`, or a diagnostic when the identifier is taken
unfoldable pub insert_entry : Planner → MutableEntry → Planner
unfolding find
insert_entry s e = elim (find e.dump_id s.entries) [
  | some _ ↦ record s {
    diagnostics =
        s.diagnostics
        ++ duplicate_archive_identity e.keys.object_type e.keys.name e.parent_name ∷ [];
  }
  | none ↦ record s { entries = s.entries ++ e ∷ [] }
]

-- `create_dump_id` is `createDumpId`, which calls the hash of Node's crypto.
module _ (create_dump_id : Bytes → Bytes) (database_name : Bytes) where
  unfoldable pub add_entry :
      Planner → ArchiveObjectType → Bytes → Bytes → Bytes → Option Bytes → Planner × Bytes
  unfolding create_archive_identity insert_entry
  add_entry s object_type name group_key secondary_key parent_name =
      let identity = create_archive_identity object_type database_name name parent_name in
      let dump_id = create_dump_id identity in
      (
        insert_entry s (record {
          dump_id = dump_id;
          identity = identity;
          database_name = database_name;
          parent_name = parent_name;
          depends_on = [];
          keys = record {
            object_type = object_type;
            group_key = group_key;
            secondary_key = secondary_key;
            name = name;
          };
        }),
        dump_id,
      )

-- `dependsOn.find(dependency => dependency.targetDumpId === toDumpId)`
unfoldable pub find_dependency : Bytes → List ArchiveDependency → Option ArchiveDependency
find_dependency id [] = none
find_dependency id (d ∷ ds) = if same d.target_dump_id id then some d else find_dependency id ds

-- `dependsOn.filter(dependency => dependency.targetDumpId !== toDumpId)`
unfoldable pub without_target : Bytes → List ArchiveDependency → List ArchiveDependency
without_target id [] = []
without_target id (d ∷ ds) =
    if same d.target_dump_id id then without_target id ds else d ∷ without_target id ds

unfoldable pub is_hard : DependencyStrength → Bool
is_hard hard = true
is_hard preference = false

unfoldable pub depend_on :
    Bytes → DependencyStrength → List ArchiveDependency → List ArchiveDependency
unfolding find_dependency without_target is_hard
depend_on id strength ds = elim (find_dependency id ds) [
  | none ↦ ds ++ record { target_dump_id = id; strength = strength } ∷ []
  | some d ↦
      if is_hard strength && not (is_hard d.strength)
      then without_target id ds ++ record { target_dump_id = id; strength = hard } ∷ []
      else ds
]

-- The entry that `entries.get` gives is changed where it is.
unfoldable pub depend_at :
    Bytes → Bytes → DependencyStrength → List MutableEntry → List MutableEntry
unfolding depend_on
depend_at from to strength [] = []
depend_at from to strength (e ∷ es) =
    if same e.dump_id from
    then record e { depends_on = depend_on to strength e.depends_on } ∷ es
    else e ∷ depend_at from to strength es

-- An empty identifier is no target.
unfoldable pub add_dependency : Planner → Bytes → Option Bytes → DependencyStrength → Planner
unfolding depend_at
add_dependency s from none strength = s
add_dependency s from (some to) strength =
    if same to [] || same from to
    then s
    else record s { entries = depend_at from to strength s.entries }
