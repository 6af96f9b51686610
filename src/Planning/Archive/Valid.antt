-- ===== src/Planning/Archive/Valid.antt =====
-- `inspectDumpArchive` of src/archive/planner.ts as a whole.
use dbgate_mysql_dumper.Base.{
  [], List, ◌≡◌, Bytes, refl, arith, some, inl, inr, Bool-cases, false, not, any,
}
use dbgate_mysql_dumper.Planning.Archive.Maps.{sort}
use dbgate_mysql_dumper.Planning.Archive.Model.{
  MysqlDatabase, MutableEntry, DumpArchiveInspection, is_error, PlanDiagnostic,
}
use dbgate_mysql_dumper.Planning.Archive.Passes.{plan}
use dbgate_mysql_dumper.Planning.Archive.Inspect.{
  InspectDumpArchiveOptions, to_archive_entries, compare_mutable, is_empty, unsatisfied, conclude,
  settings, inspect_dump_archive,
}
use dbgate_mysql_dumper.Planning.Archive.Supports.{keys_at}
use dbgate_mysql_dumper.Planning.Archive.Loops.{plan-Sound}
use dbgate_mysql_dumper.Planning.Archive.Satisfied.{sort-unsatisfied, sort-AllSupported}
use dbgate_mysql_dumper.Planning.Archive.Acyclic.{find_hard_cycles-nil}
use dbgate_mysql_dumper.Planning.Archive.Entered.{find_hard_cycles-terminates}

-- The planned archive, sorted.
abbrev pub ordered_plan :
    (Bytes → Bytes)
    → (Bytes → Bytes)
    → MysqlDatabase
    → InspectDumpArchiveOptions
    → List MutableEntry
ordered_plan l c db o = sort compare_mutable (plan l c db (settings l c o)).entries

module _ (to_lower_case create_dump_id : Bytes → Bytes) (db : MysqlDatabase)
    (o : InspectDumpArchiveOptions) where
  abbrev pub reported : List PlanDiagnostic
  reported =
      (plan to_lower_case create_dump_id db (settings to_lower_case create_dump_id o)).diagnostics

  abbrev pub ordered : List MutableEntry
  ordered = ordered_plan to_lower_case create_dump_id db o

  conclude_valid :
      (cycles : List (List Bytes))
      → (any is_error reported ≡ false → cycles ≡ [])
      → (any is_error reported ≡ false → unsatisfied ordered ordered ≡ [])
      → (conclude reported ordered cycles).valid ≡ not (any is_error reported)
  unfolding conclude is_empty
  conclude_valid cycles acyclic satisfied = elim (Bool-cases (any is_error reported)) [
    | inl bad ↦ ground (arith, bad)
    | inr clean ↦
        let none_left = satisfied clean in
        let no_cycle = acyclic clean in ground (arith, clean, none_left, no_cycle)
  ]

  pub inspect_dump_archive_conclusion :
      (r : DumpArchiveInspection) × (inspect_dump_archive to_lower_case create_dump_id db o
        ≡ some r)
      × (r.valid ≡ not (any is_error reported))
      × (r.entries ≡ to_archive_entries r.valid 0 ordered)
  unfolding inspect_dump_archive conclude
  inspect_dump_archive_conclusion =
      let entries =
        (plan to_lower_case create_dump_id db (settings to_lower_case create_dump_id o)).entries in
      let sound =
        plan-Sound to_lower_case create_dump_id db (settings to_lower_case create_dump_id o) in
      let (cycles, found) = find_hard_cycles-terminates ordered in
      (
        conclude reported ordered cycles,
        rw found refl,
        conclude_valid cycles
            (λ clean.
              find_hard_cycles-nil (keys_at entries) ordered cycles
                (sort-AllSupported (keys_at entries) compare_mutable entries
                  (sound clean).all_supported)
                found)
            (λ clean. sort-unsatisfied (keys_at entries) entries (sound clean).all_supported),
        refl,
      )

  -- An archive is inspected whatever the database and the options, and it is valid exactly when no
  -- identity was reported as a duplicate: the order never violates a hard dependency, and no cycle
  -- of hard dependencies is found.
  pub inspect_dump_archive_valid :
      (r : DumpArchiveInspection) × (inspect_dump_archive to_lower_case create_dump_id db o
        ≡ some r)
      × (r.valid ≡ not (any is_error reported))
  inspect_dump_archive_valid =
      let (r, inspected, validity, listed) = inspect_dump_archive_conclusion in
      (r, inspected, validity)
