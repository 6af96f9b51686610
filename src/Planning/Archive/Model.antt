-- ===== src/Planning/Archive/Model.antt =====
-- src/archive/types.ts, src/archive/identity.ts, src/utils/hash.ts and the fields of src/model that the
-- planner reads. A diagnostic carries what its message and its reference name.
use dbgate_mysql_dumper.Base.{
  ℕ, suc, [], ◌∷◌, ◌++◌, List, Bytes, length, Option, none, some, Bool, true, false, codes, map,
}
use dbgate_mysql_dumper.Data.Columns.{MysqlTable}
use dbgate_mysql_dumper.Data.ValueRenderer.{decimal}
use dbgate_mysql_dumper.Planning.Sections.{
  ArchiveObjectType, database, table, table_data, trigger, view_stub, event, function, procedure,
  view, DumpSection, Entry,
}

pub record MysqlView : Type 0 where
  pub pure_name : Bytes

pub data RoutineKind : Type 0 where
  function_kind procedure_kind : RoutineKind

pub record MysqlRoutine : Type 0 where
  pub pure_name : Bytes
  pub kind : RoutineKind

pub record MysqlTrigger : Type 0 where
  pub trigger_name : Bytes
  pub table_name : Bytes
  pub action_order : Option ℕ

pub record MysqlEvent : Type 0 where
  pub event_name : Bytes

pub record MysqlForeignKey : Type 0 where
  pub table_name : Bytes
  pub referenced_table_name : Bytes

pub record MysqlDatabase : Type 0 where
  pub database_name : Bytes
  pub tables : List MysqlTable
  pub views : List MysqlView
  pub foreign_keys : List MysqlForeignKey
  pub routines : List MysqlRoutine
  pub triggers : List MysqlTrigger
  pub events : List MysqlEvent

pub data DependencyStrength : Type 0 where
  hard preference : DependencyStrength

pub record ArchiveDependency : Type 0 where
  pub target_dump_id : Bytes
  pub strength : DependencyStrength

pub record MutableEntry : Type 0 where
  pub dump_id : Bytes
  pub identity : Bytes
  pub database_name : Bytes
  pub parent_name : Option Bytes
  pub depends_on : List ArchiveDependency
  pub keys : Entry

pub record ArchiveEntry : Type 0 where
  pub dump_id : Bytes
  pub identity : Bytes
  pub object_type : ArchiveObjectType
  pub section : DumpSection
  pub database_name : Bytes
  pub name : Bytes
  pub parent_name : Option Bytes
  pub depends_on : List ArchiveDependency
  pub sequence_number : Option ℕ

pub record UnsatisfiedDependency : Type 0 where
  pub from_dump_id : Bytes
  pub to_dump_id : Bytes

pub data PlanDiagnostic : Type 0 where
  duplicate_archive_identity : ArchiveObjectType → Bytes → Option Bytes → PlanDiagnostic
  trigger_table_not_selected : Bytes → Bytes → PlanDiagnostic
  archive_dependency_cycle : List Bytes → PlanDiagnostic
  archive_order_violation : UnsatisfiedDependency → PlanDiagnostic

-- `diagnostic.severity === 'error'`
unfoldable pub is_error : PlanDiagnostic → Bool
is_error (trigger_table_not_selected _ _) = false
is_error _ = true

pub record DumpArchiveInspection : Type 0 where
  pub valid : Bool
  pub entries : List ArchiveEntry
  pub diagnostics : List PlanDiagnostic
  pub cycles : List (List Bytes)
  pub unsatisfied_dependencies : List UnsatisfiedDependency

unfoldable pub type_name : ArchiveObjectType → Bytes
type_name database = codes "database"
type_name table = codes "table"
type_name table_data = codes "tableData"
type_name trigger = codes "trigger"
type_name view_stub = codes "viewStub"
type_name event = codes "event"
type_name function = codes "function"
type_name procedure = codes "procedure"
type_name view = codes "view"

-- `${part.length}:${part}`
unfoldable pub prefixed : Bytes → Bytes
unfolding decimal
prefixed part = decimal (suc (length part)) (length part) ++ b':' ∷ part

-- `.join('|')`
unfoldable pub join_with : ℕ → List Bytes → Bytes
join_with mark [] = []
join_with mark (part ∷ []) = part
join_with mark (part ∷ next ∷ parts) = part ++ mark ∷ join_with mark (next ∷ parts)

unfoldable pub create_canonical_identity : List Bytes → Bytes
unfolding prefixed join_with
create_canonical_identity parts = join_with b'|' (map prefixed parts)

-- `value ?? fallback`
abbrev pub or_default {ℓ} : {A : Type ℓ} → Option A → A → A
or_default none fallback = fallback
or_default (some value) fallback = value

unfoldable pub create_archive_identity : ArchiveObjectType → Bytes → Bytes → Option Bytes → Bytes
unfolding create_canonical_identity type_name
create_archive_identity object_type database_name name parent_name =
    create_canonical_identity
      (type_name object_type ∷ database_name ∷ name ∷ or_default parent_name [] ∷ [])
