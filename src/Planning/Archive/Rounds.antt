-- ===== src/Planning/Archive/Rounds.antt =====
-- src/archive/planner.ts: each loop of `inspectDumpArchive` keeps the archive sound.
use dbgate_mysql_dumper.Planning.Archive.Passes.{
  selected_tables, Settings, add_database, add_table_schema, add_table_data, add_table, add_tables,
  add_view_stub, trigger_key, add_trigger, note_trigger,
}
use dbgate_mysql_dumper.Planning.Archive.Maps.{sort, get, set}
use dbgate_mysql_dumper.Planning.Sections.Order.{place}
use dbgate_mysql_dumper.Planning.Archive.Model.{
  is_error, MysqlDatabase, MysqlView, MysqlTrigger, DependencyStrength, hard,
}
use dbgate_mysql_dumper.Planning.Archive.Supports.{level, keys_at}
use dbgate_mysql_dumper.Base.{
  ℕ, ◌<◌, [], ◌≡◌, Bytes, refl, subst, arith, Option, none, some, inl, inr, Bool-cases, Bool, true,
  false, not, any, if◌then◌else◌, codes,
}
use dbgate_mysql_dumper.Data.Columns.{MysqlTable}
use dbgate_mysql_dumper.Planning.Sections.{
  ArchiveObjectType, database, table, table_data, trigger, view_stub, assign_dump_section,
  dump_section_priority, by_codepoint,
}
use dbgate_mysql_dumper.Planning.Archive.Plan.{Planner, add_entry, add_dependency}
use dbgate_mysql_dumper.Planning.Archive.Keeping.{
  Maps-set, Sound, Clean, Clean-append, add_entry-Added, add_dependency-diagnostics, Added,
}
use dbgate_mysql_dumper.Planning.Archive.Planned.{
  Keeps, Keeps-refl, Keeps-trans, foldl-Keeps, Stage, add_dependency-Stage, Rests-on_database,
  Rests-on_table, Rests-on_data,
}

pub add_dependency-Clean :
    (s : Planner) (from : Bytes) (to : Option Bytes) (strength : DependencyStrength)
    → Clean (add_dependency s from to strength)
    → Clean s
add_dependency-Clean s from to strength h =
    subst (λ ds. any is_error ds ≡ false) (add_dependency-diagnostics s from to strength) h

-- A round that adds an entry which rests on the database only.
pub on_database-Stage :
    (object_type : ArchiveObjectType) (name id : Bytes) (s : Planner)
    → 0 < level object_type
    → 0 < dump_section_priority (assign_dump_section object_type)
    → Stage object_type name id s
    → Stage object_type name id (add_dependency s id s.database_dump_id hard)
on_database-Stage object_type name id s deep later h =
    add_dependency-Stage object_type name id s s.database_dump_id hard
      (λ x target e k is group. Rests-on_database s h.sound k target (rw is deep) (rw is later) e) h

pub on_table-Stage :
    (object_type : ArchiveObjectType) (name id : Bytes) (s : Planner) (j : ℕ)
    → place object_type ≡ some j
    → 0 < j
    → Stage object_type name id s
    → Stage object_type name id (add_dependency s id (get name s.table_dump_id) hard)
on_table-Stage object_type name id s j here later h =
    add_dependency-Stage object_type name id s (get name s.table_dump_id) hard
      (λ x target e k is group. Rests-on_table s h.sound k target j (rw is here) later (rw group e))
      h

pub on_data-Stage :
    (object_type : ArchiveObjectType) (name id : Bytes) (s : Planner) (j : ℕ)
    → place object_type ≡ some j
    → 1 < j
    → Stage object_type name id s
    → Stage object_type name id (add_dependency s id (get name s.table_data_dump_id) hard)
on_data-Stage object_type name id s j here later h =
    add_dependency-Stage object_type name id s (get name s.table_data_dump_id) hard
      (λ x target e k is group. Rests-on_data s h.sound k target j (rw is here) later (rw group e))
      h

pub if_Keeps : (b : Bool) (s t u : Planner) → Keeps s t → Keeps s u → Keeps s (if b then t else u)
if_Keeps true s t u f g = f
if_Keeps false s t u f g = g

pub Added-Stage :
    (s s' : Planner) (object_type : ArchiveObjectType) (name id : Bytes)
    → Added s object_type name s' id
    → Sound s
    → Stage object_type name id s'
Added-Stage s s' object_type name id a sound = record {
  sound = a.still_sound sound;
  entry = a.there;
}

module _ (to_lower_case create_dump_id : Bytes → Bytes) (db : MysqlDatabase) (o : Settings) where
  pub add_database-Keeps :
      (s : Planner) → Keeps s (add_database to_lower_case create_dump_id db o s)
  unfolding add_database
  add_database-Keeps s = elim (Bool-cases o.include_database_entry) [
    | inl wanted ↦ rw wanted (λ h.
        let r =
          add_entry create_dump_id db.database_name s database db.database_name db.database_name []
            none in
        let a =
          add_entry-Added create_dump_id db.database_name s database db.database_name
            db.database_name [] none h in
        (
          a.was_clean,
          λ sound.
              let was = a.still_sound sound in
              record {
                known = record {
                  database_known = λ id e.
                      let (k, there, is, group) = a.there in
                      let created : r.1 ≡ id = cc in
                      (k, subst (λ x. keys_at (r.0).entries x ≡ some k) created there, is);
                  tables_known = was.known.tables_known;
                  data_known = was.known.data_known;
                  stubs_known = was.known.stubs_known;
                };
                all_supported = was.all_supported;
              },
        ))
    | inr not_wanted ↦ rw not_wanted (Keeps-refl s)
  ]

  pub add_table_schema-Keeps :
      (s : Planner) (t : MysqlTable)
      → Keeps s (add_table_schema to_lower_case create_dump_id db o s t)
  unfolding add_table_schema dump_section_priority assign_dump_section
  add_table_schema-Keeps s t h =
      let r =
        add_entry create_dump_id db.database_name s table t.pure_name t.pure_name (codes "0")
          none in
      let s' = record (r.0) { table_dump_id = set t.pure_name r.1 (r.0).table_dump_id } in
      let a =
        add_entry-Added create_dump_id db.database_name s table t.pure_name t.pure_name (codes "0")
          none (add_dependency-Clean s' r.1 s'.database_dump_id hard h) in
      (
        a.was_clean,
        λ sound.
            let was = a.still_sound sound in
            (on_database-Stage table t.pure_name r.1 s' (omega arith) (omega arith) (record {
              sound = record {
                known = record {
                  database_known = was.known.database_known;
                  tables_known =
                      Maps-set _ table t.pure_name r.1 (r.0).table_dump_id a.there
                        was.known.tables_known;
                  data_known = was.known.data_known;
                  stubs_known = was.known.stubs_known;
                };
                all_supported = was.all_supported;
              };
              entry = a.there;
            })).sound,
      )

  pub add_table_data-Keeps :
      (s : Planner) (t : MysqlTable)
      → Keeps s (add_table_data to_lower_case create_dump_id db o s t)
  unfolding add_table_data dump_section_priority assign_dump_section
  add_table_data-Keeps s t h =
      let name = t.pure_name in
      let r =
        add_entry create_dump_id db.database_name s table_data name name (codes "1") (some name) in
      let s' = record (r.0) { table_data_dump_id = set name r.1 (r.0).table_data_dump_id } in
      let to = get name (r.0).table_dump_id in
      let s'' = add_dependency s' r.1 to hard in
      let a =
        add_entry-Added create_dump_id db.database_name s table_data name name (codes "1")
          (some name)
          (add_dependency-Clean s' r.1 to hard
            (add_dependency-Clean s'' r.1 s''.database_dump_id hard h)) in
      (
        a.was_clean,
        λ sound.
            let was = a.still_sound sound in
            let stage : Stage table_data name r.1 s' = record {
              sound = record {
                known = record {
                  database_known = was.known.database_known;
                  tables_known = was.known.tables_known;
                  data_known =
                      Maps-set _ table_data name r.1 (r.0).table_data_dump_id a.there
                        was.known.data_known;
                  stubs_known = was.known.stubs_known;
                };
                all_supported = was.all_supported;
              };
              entry = a.there;
            } in
            (on_database-Stage table_data name r.1 s'' (omega arith) (omega arith)
              (on_table-Stage table_data name r.1 s' 1 refl (omega arith) stage)).sound,
      )

  pub add_table-Keeps :
      (s : Planner) (t : MysqlTable) → Keeps s (add_table to_lower_case create_dump_id db o s t)
  unfolding add_table
  add_table-Keeps s t =
      let s' =
        if o.wants_schema then add_table_schema to_lower_case create_dump_id db o s t else s in
      Keeps-trans s s' _ (if_Keeps o.wants_schema s _ s (add_table_schema-Keeps s t) (Keeps-refl s))
        (if_Keeps _ s' _ s' (add_table_data-Keeps s' t) (Keeps-refl s'))

  pub add_tables-Keeps : (s : Planner) → Keeps s (add_tables to_lower_case create_dump_id db o s)
  unfolding add_tables
  add_tables-Keeps s = foldl-Keeps _ add_table-Keeps s (
      sort (λ a b. by_codepoint a.pure_name b.pure_name)
        (selected_tables to_lower_case create_dump_id db o))

  pub add_view_stub-Keeps :
      (s : Planner) (v : MysqlView) → Keeps s (add_view_stub to_lower_case create_dump_id db o s v)
  unfolding add_view_stub dump_section_priority assign_dump_section
  add_view_stub-Keeps s v = if_Keeps (not o.wants_schema) s s _ (Keeps-refl s) (λ h.
      let name = v.pure_name in
      let r = add_entry create_dump_id db.database_name s view_stub name name (codes "0") none in
      let s' = record (r.0) { view_stub_dump_id = set name r.1 (r.0).view_stub_dump_id } in
      let a =
        add_entry-Added create_dump_id db.database_name s view_stub name name (codes "0") none
          (add_dependency-Clean s' r.1 s'.database_dump_id hard h) in
      (
        a.was_clean,
        λ sound.
            let was = a.still_sound sound in
            (on_database-Stage view_stub name r.1 s' (omega arith) (omega arith) (record {
              sound = record {
                known = record {
                  database_known = was.known.database_known;
                  tables_known = was.known.tables_known;
                  data_known = was.known.data_known;
                  stubs_known =
                      Maps-set _ view_stub name r.1 (r.0).view_stub_dump_id a.there
                        was.known.stubs_known;
                };
                all_supported = was.all_supported;
              };
              entry = a.there;
            })).sound,
      ))

  pub add_trigger-Keeps :
      (s : Planner) (t : MysqlTrigger) → Keeps s (add_trigger to_lower_case create_dump_id db o s t)
  unfolding add_trigger
  add_trigger-Keeps s t h =
      let name = t.table_name in
      let r =
        add_entry create_dump_id db.database_name s trigger t.trigger_name name
          (trigger_key to_lower_case create_dump_id db o t) (some name) in
      let to = get name (r.0).table_dump_id in
      let s'' = add_dependency (r.0) r.1 to hard in
      let a =
        add_entry-Added create_dump_id db.database_name s trigger t.trigger_name name
          (trigger_key to_lower_case create_dump_id db o t) (some name)
          (add_dependency-Clean (r.0) r.1 to hard
            (add_dependency-Clean s'' r.1 (get name s''.table_data_dump_id) hard h)) in
      (
        a.was_clean,
        λ sound.
            let stage = Added-Stage s (r.0) trigger name r.1 a sound in
            (on_data-Stage trigger name r.1 s'' 2 refl (omega arith)
              (on_table-Stage trigger name r.1 (r.0) 2 refl (omega arith) stage)).sound,
      )

  pub note_trigger-Keeps :
      (s : Planner) (t : MysqlTrigger)
      → Keeps s (note_trigger to_lower_case create_dump_id db o s t)
  unfolding note_trigger
  note_trigger-Keeps s t =
      if_Keeps _ s _ s
        (λ h. (
          Clean-append s.diagnostics _ h,
          λ sound. record {
            known = record {
              database_known = sound.known.database_known;
              tables_known = sound.known.tables_known;
              data_known = sound.known.data_known;
              stubs_known = sound.known.stubs_known;
            };
            all_supported = sound.all_supported;
          },
        ))
        (Keeps-refl s)
