-- ===== src/Planning/Archive/Loops.antt =====
-- src/archive/planner.ts: the archive that `inspectDumpArchive` plans is sound when no duplicate is
-- reported.
use dbgate_mysql_dumper.Base.{
  same, if◌then◌else◌, ◌<◌, [], ◌∷◌, List, ◌≡◌, Bytes, refl, sym, ◌∙◌, subst, arith, none, some,
  inl, inr, Option-cases, ◌&&◌,
}
use dbgate_mysql_dumper.Planning.Archive.Keeping.{
  add_dependency-keys_at, Maps-grow, add_dependency-Sound, IsEntry, Maps, Maps-get, Sound, Clean,
  add_entry-Added,
}
use dbgate_mysql_dumper.Planning.Archive.Passes.{
  empty_planner, selected_views, Settings, add_view_stubs, add_trigger, note_trigger, add_triggers,
  add_event, add_events, add_routine, add_routines, depend_on_all, prefer_all, add_view, add_views,
  add_foreign_key, add_foreign_keys, plan,
}
use dbgate_mysql_dumper.Planning.Selection.{
  is_event_selected, is_routine_selected, is_trigger_selected,
}
use dbgate_mysql_dumper.Planning.Archive.Maps.{filter, sort, get, values, has_key}
use dbgate_mysql_dumper.Planning.Archive.Supports.{level, keys_at}
use mathlib.Core.List.{foldl}
use dbgate_mysql_dumper.Planning.Sections.{
  ArchiveObjectType, table, view_stub, event, function, procedure, view, assign_dump_section,
  dump_section_priority, by_codepoint,
}
use dbgate_mysql_dumper.Planning.Archive.Model.{
  MysqlDatabase, MysqlView, MysqlRoutine, MysqlTrigger, MysqlEvent, MysqlForeignKey, function_kind,
  procedure_kind, hard, preference, RoutineKind,
}
use dbgate_mysql_dumper.Planning.Archive.Plan.{Planner, add_entry, add_dependency, is_hard}
use dbgate_mysql_dumper.Planning.Archive.Planned.{
  Keeps, Keeps-refl, Keeps-trans, foldl-Keeps, Stage, add_dependency-Stage, Rests-on_stub,
}
use dbgate_mysql_dumper.Planning.Archive.Rounds.{
  add_dependency-Clean, on_database-Stage, if_Keeps, Added-Stage, add_database-Keeps,
  add_tables-Keeps, add_view_stub-Keeps, add_trigger-Keeps, note_trigger-Keeps,
}

abbrev routine_type : RoutineKind → ArchiveObjectType
routine_type kind = elim kind [ function_kind ↦ function | procedure_kind ↦ procedure ]

routine_deep : (kind : RoutineKind) → 0 < level (routine_type kind)
routine_deep function_kind = omega arith
routine_deep procedure_kind = omega arith

routine_later :
    (kind : RoutineKind) → 0 < dump_section_priority (assign_dump_section (routine_type kind))
unfolding dump_section_priority assign_dump_section
routine_later function_kind = omega arith
routine_later procedure_kind = omega arith

module _ (to_lower_case create_dump_id : Bytes → Bytes) (db : MysqlDatabase) (o : Settings) where
  add_view_stubs-Keeps :
      (s : Planner) → Keeps s (add_view_stubs to_lower_case create_dump_id db o s)
  unfolding add_view_stubs
  add_view_stubs-Keeps s =
      foldl-Keeps _ (add_view_stub-Keeps to_lower_case create_dump_id db o) s
        (selected_views to_lower_case create_dump_id db o)

  add_triggers-Keeps : (s : Planner) → Keeps s (add_triggers to_lower_case create_dump_id db o s)
  unfolding add_triggers
  add_triggers-Keeps s =
      let chosen =
        filter
          (λ (t : MysqlTrigger).
            is_trigger_selected to_lower_case t.trigger_name o.selection
            && has_key t.table_name s.table_dump_id)
          db.triggers in
      let s' = foldl (add_trigger to_lower_case create_dump_id db o) s chosen in
      let noted = foldl (note_trigger to_lower_case create_dump_id db o) s' db.triggers in
      if_Keeps (o.include_triggers && o.wants_schema) s noted s
        (Keeps-trans s s' noted
          (foldl-Keeps _ (add_trigger-Keeps to_lower_case create_dump_id db o) s chosen)
          (foldl-Keeps _ (note_trigger-Keeps to_lower_case create_dump_id db o) s' db.triggers))
        (Keeps-refl s)

  add_event-Keeps :
      (s : Planner) (e : MysqlEvent) → Keeps s (add_event to_lower_case create_dump_id db o s e)
  unfolding add_event dump_section_priority assign_dump_section
  add_event-Keeps s e h =
      let name = e.event_name in
      let r = add_entry create_dump_id db.database_name s event name name [] none in
      let a =
        add_entry-Added create_dump_id db.database_name s event name name [] none
          (add_dependency-Clean (r.0) r.1 (r.0).database_dump_id hard h) in
      (
        a.was_clean,
        λ sound.
            (on_database-Stage event name r.1 (r.0) (omega arith) (omega arith)
              (Added-Stage s (r.0) event name r.1 a sound)).sound,
      )

  add_events-Keeps : (s : Planner) → Keeps s (add_events to_lower_case create_dump_id db o s)
  unfolding add_events
  add_events-Keeps s =
      if_Keeps (o.include_events && o.wants_schema) s _ s
        (foldl-Keeps _ add_event-Keeps s (
          sort (λ a b. by_codepoint a.event_name b.event_name)
            (filter (λ (e : MysqlEvent). is_event_selected to_lower_case e.event_name o.selection)
              db.events)))
        (Keeps-refl s)

  add_routine-Keeps :
      (s : Planner) (r : MysqlRoutine) → Keeps s (add_routine to_lower_case create_dump_id db o s r)
  unfolding add_routine
  add_routine-Keeps s routine h =
      let name = routine.pure_name in
      let object_type = routine_type routine.kind in
      let r = add_entry create_dump_id db.database_name s object_type name name [] none in
      let a =
        add_entry-Added create_dump_id db.database_name s object_type name name [] none
          (add_dependency-Clean (r.0) r.1 (r.0).database_dump_id hard h) in
      (
        a.was_clean,
        λ sound.
            (on_database-Stage object_type name r.1 (r.0) (routine_deep routine.kind)
              (routine_later routine.kind)
              (Added-Stage s (r.0) object_type name r.1 a sound)).sound,
      )

  add_routines-Keeps : (s : Planner) → Keeps s (add_routines to_lower_case create_dump_id db o s)
  unfolding add_routines
  add_routines-Keeps s =
      if_Keeps (o.include_routines && o.wants_schema) s _ s
        (foldl-Keeps _ add_routine-Keeps s (
          sort (λ a b. by_codepoint a.pure_name b.pure_name)
            (filter
              (λ (r : MysqlRoutine). is_routine_selected to_lower_case r.pure_name o.selection)
              db.routines)))
        (Keeps-refl s)

  depend_on_all-Clean :
      (id : Bytes) (s : Planner) (targets : List Bytes)
      → Clean (depend_on_all to_lower_case create_dump_id db o id s targets)
      → Clean s
  unfolding depend_on_all
  depend_on_all-Clean id s [] h = h
  depend_on_all-Clean id s (target ∷ targets) h =
      add_dependency-Clean s id (some target) hard
        (depend_on_all-Clean id (add_dependency s id (some target) hard) targets h)

  prefer_all-Clean :
      (id : Bytes) (s : Planner) (targets : List Bytes)
      → Clean (prefer_all to_lower_case create_dump_id db o id s targets)
      → Clean s
  unfolding prefer_all
  prefer_all-Clean id s [] h = h
  prefer_all-Clean id s (target ∷ targets) h =
      add_dependency-Clean s id (some target) preference
        (prefer_all-Clean id (add_dependency s id (some target) preference) targets h)

  depend_on_all-Stage :
      (name id : Bytes) (s : Planner) (m : List (Bytes × Bytes))
      → Maps (keys_at s.entries) view_stub m
      → Stage view name id s
      → Stage view name id (depend_on_all to_lower_case create_dump_id db o id s (values m))
  unfolding depend_on_all values
  depend_on_all-Stage name id s [] hs h = h
  depend_on_all-Stage name id s ((j, target) ∷ m) (stub, stubs) h =
      let s' = add_dependency s id (some target) hard in
      depend_on_all-Stage name id s' m
        (Maps-grow (keys_at s.entries) (keys_at s'.entries) view_stub m
          (λ x k there. add_dependency-keys_at s id (some target) hard x ∙ there) stubs)
        (add_dependency-Stage view name id s (some target) hard
          (λ x t e k is group.
            Rests-on_stub s h.sound k t j is
              (subst (IsEntry (keys_at s.entries) view_stub j) (cc) stub))
          h)

  prefer_all-Stage :
      (name id : Bytes) (s : Planner) (targets : List Bytes)
      → Stage view name id s
      → Stage view name id (prefer_all to_lower_case create_dump_id db o id s targets)
  unfolding prefer_all is_hard
  prefer_all-Stage name id s [] h = h
  prefer_all-Stage name id s (target ∷ targets) h =
      prefer_all-Stage name id (add_dependency s id (some target) preference) targets
        (add_dependency-Stage view name id s (some target) preference (λ x. cc) h)

  add_view-Keeps :
      (s : Planner) (v : MysqlView) → Keeps s (add_view to_lower_case create_dump_id db o s v)
  unfolding add_view
  add_view-Keeps s v h =
      let name = v.pure_name in
      let r = add_entry create_dump_id db.database_name s view name name [] none in
      let to = get name (r.0).view_stub_dump_id in
      let own = add_dependency (r.0) r.1 to hard in
      let others =
        depend_on_all to_lower_case create_dump_id db o r.1 own (values own.view_stub_dump_id) in
      let a = add_entry-Added create_dump_id db.database_name s view name name [] none (
        add_dependency-Clean (r.0) r.1 to hard (
          depend_on_all-Clean r.1 own (values own.view_stub_dump_id)
            (prefer_all-Clean r.1 others (values others.table_dump_id) h))) in
      (
        a.was_clean,
        λ sound.
            let stage = Added-Stage s (r.0) view name r.1 a sound in
            let owned =
              add_dependency-Stage view name r.1 (r.0) to hard
                (λ x t e k is group. Rests-on_stub (r.0) stage.sound k t name is (
                  Maps-get _ view_stub name (r.0).view_stub_dump_id stage.sound.known.stubs_known
                    e))
                stage in
            (prefer_all-Stage name r.1 others (values others.table_dump_id) (
              depend_on_all-Stage name r.1 own own.view_stub_dump_id owned.sound.known.stubs_known
                owned)).sound,
      )

  add_views-Keeps : (s : Planner) → Keeps s (add_views to_lower_case create_dump_id db o s)
  unfolding add_views
  add_views-Keeps s =
      if_Keeps o.wants_schema s _ s
        (foldl-Keeps _ add_view-Keeps s (
          sort (λ a b. by_codepoint a.pure_name b.pure_name)
            (selected_views to_lower_case create_dump_id db o)))
        (Keeps-refl s)

  add_foreign_key-Keeps :
      (s : Planner) (k : MysqlForeignKey)
      → Keeps s (add_foreign_key to_lower_case create_dump_id db o s k)
  unfolding add_foreign_key is_hard
  add_foreign_key-Keeps s k = elim (Option-cases (get k.table_name s.table_dump_id)) [
    | inl absent ↦
        let unchanged : add_foreign_key to_lower_case create_dump_id db o s k ≡ s =
          rw (absent, add_foreign_key) refl in
        subst (Keeps s) (sym unchanged) (Keeps-refl s)
    | inr (from, there) ↦
        let to = get k.referenced_table_name s.table_dump_id in
        let result : add_foreign_key to_lower_case create_dump_id db o s k
            ≡ (if same from [] then s else add_dependency s from to preference) =
          rw (there, add_foreign_key) refl in
        subst (Keeps s) (sym result) (
          if_Keeps (same from []) s s (add_dependency s from to preference) (Keeps-refl s) (λ h. (
            add_dependency-Clean s from to preference h,
            λ sound.
                let (e, known, is, group) =
                  Maps-get _ table k.table_name s.table_dump_id sound.known.tables_known there in
                add_dependency-Sound s from to preference e known (λ x. cc) sound,
          )))
  ]

  add_foreign_keys-Keeps :
      (s : Planner) → Keeps s (add_foreign_keys to_lower_case create_dump_id db o s)
  unfolding add_foreign_keys
  add_foreign_keys-Keeps s = foldl-Keeps _ add_foreign_key-Keeps s db.foreign_keys

  -- An archive that is planned with no duplicate is sound.
  pub plan-Sound :
      Clean (plan to_lower_case create_dump_id db o)
      → Sound (plan to_lower_case create_dump_id db o)
  unfolding plan
  plan-Sound h =
      let (c1, k1) = add_foreign_keys-Keeps _ h in
      let (c2, k2) = add_views-Keeps _ c1 in
      let (c3, k3) = add_routines-Keeps _ c2 in
      let (c4, k4) = add_events-Keeps _ c3 in
      let (c5, k5) = add_triggers-Keeps _ c4 in
      let (c6, k6) = add_view_stubs-Keeps _ c5 in
      let (c7, k7) = add_tables-Keeps to_lower_case create_dump_id db o _ c6 in
      let (c8, k8) = add_database-Keeps to_lower_case create_dump_id db o empty_planner c7 in
      k1 (
        k2 (
          k3 (
            k4 (
              k5 (
                k6 (
                  k7 (
                    k8 (record {
                      known = record {
                        database_known = λ id e. cc;
                        tables_known = tt;
                        data_known = tt;
                        stubs_known = tt;
                      };
                      all_supported = tt;
                    }))))))))
