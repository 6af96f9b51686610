-- ===== src/Planning/Archive/Planned.antt =====
-- src/archive/planner.ts: what the loops of `inspectDumpArchive` keep of the archive, as long as no
-- duplicate is reported.
use dbgate_mysql_dumper.Base.{ℕ, ◌<◌, [], ◌∷◌, List, ◌≡◌, Bytes, ◌∙◌, arith, Option, some, true}
use mathlib.Core.List.{foldl}
use dbgate_mysql_dumper.Planning.Sections.{
  ArchiveObjectType, table, table_data, view_stub, view, Entry, assign_dump_section,
  dump_section_priority,
}
use dbgate_mysql_dumper.Planning.Sections.Order.{place}
use dbgate_mysql_dumper.Planning.Archive.Maps.{get}
use dbgate_mysql_dumper.Planning.Archive.Model.{DependencyStrength}
use dbgate_mysql_dumper.Planning.Archive.Plan.{Planner, add_dependency, is_hard}
use dbgate_mysql_dumper.Planning.Archive.Supports.{
  keys_at, Rests, level, section-Before, place-Before,
}
use dbgate_mysql_dumper.Planning.Archive.Keeping.{
  IsEntry, Maps-get, Sound, Clean, add_dependency-keys_at, add_dependency-Sound,
}

-- From one state to a later one.
abbrev pub Keeps : Planner → Planner → Type 0
Keeps s s' = Clean s' → Clean s × (Sound s → Sound s')

pub Keeps-refl : (s : Planner) → Keeps s s
Keeps-refl s h = (h, λ sound. sound)

pub Keeps-trans : (s t u : Planner) → Keeps s t → Keeps t u → Keeps s u
Keeps-trans s t u f g h =
    let (clean, later) = g h in
    let (was, earlier) = f clean in (was, λ sound. later (earlier sound))

pub foldl-Keeps {ℓ} :
    {A : Type ℓ} (f : Planner → A → Planner)
    → ((s : Planner) (x : A) → Keeps s (f s x))
    → (s : Planner) (xs : List A) → Keeps s (foldl f s xs)
foldl-Keeps f keeps s [] = Keeps-refl s
foldl-Keeps f keeps s (x ∷ xs) =
    Keeps-trans s (f s x) (foldl f (f s x) xs) (keeps s x) (foldl-Keeps f keeps (f s x) xs)

-- In the middle of a round: the archive is sound, and the entry of the round is there.
pub record Stage (object_type : ArchiveObjectType) (name id : Bytes) (s : Planner) : Type 0 where
  pub sound : Sound s
  pub entry : IsEntry (keys_at s.entries) object_type name id

pub add_dependency-Stage :
    (object_type : ArchiveObjectType) (name id : Bytes) (s : Planner) (to : Option Bytes)
    (strength : DependencyStrength)
    → (is_hard strength ≡ true
        → (target : Bytes) → to ≡ some target
        → (k : Entry) → k.object_type ≡ object_type
        → k.group_key ≡ name
        → Rests (keys_at s.entries) k target)
    → Stage object_type name id s
    → Stage object_type name id (add_dependency s id to strength)
add_dependency-Stage object_type name id s to strength rests h =
    let (k, there, is, group) = h.entry in
    record {
      sound =
          add_dependency-Sound s id to strength k there (λ x t e. rests x t e k is group) h.sound;
      entry = (k, add_dependency-keys_at s id to strength id ∙ there, is, group);
    }

module _ (s : Planner) (sound : Sound s) (k : Entry) where
  pub Rests-on_database :
      (target : Bytes)
      → 0 < level k.object_type
      → 0 < dump_section_priority (assign_dump_section k.object_type)
      → s.database_dump_id ≡ some target
      → Rests (keys_at s.entries) k target
  unfolding dump_section_priority assign_dump_section
  Rests-on_database target deep later e =
      let (base, there, is) = sound.known.database_known target e in
      (base, there, section-Before base k (ground arith) (ground arith))

  pub Rests-on_table :
      (target : Bytes) (j : ℕ)
      → place k.object_type ≡ some j
      → 0 < j
      → get k.group_key s.table_dump_id ≡ some target
      → Rests (keys_at s.entries) k target
  Rests-on_table target j here later e =
      let (base, there, is, group) =
        Maps-get _ table k.group_key s.table_dump_id sound.known.tables_known e in
      (base, there, place-Before base k 0 j group (rw is) here later)

  pub Rests-on_data :
      (target : Bytes) (j : ℕ)
      → place k.object_type ≡ some j
      → 1 < j
      → get k.group_key s.table_data_dump_id ≡ some target
      → Rests (keys_at s.entries) k target
  Rests-on_data target j here later e =
      let (base, there, is, group) =
        Maps-get _ table_data k.group_key s.table_data_dump_id sound.known.data_known e in
      (base, there, place-Before base k 1 j group (rw is) here later)

  pub Rests-on_stub :
      (target name : Bytes)
      → k.object_type ≡ view
      → IsEntry (keys_at s.entries) view_stub name target
      → Rests (keys_at s.entries) k target
  unfolding dump_section_priority assign_dump_section
  Rests-on_stub target name is (base, there, is', group) =
      (base, there, section-Before base k (ground arith) (ground arith))
