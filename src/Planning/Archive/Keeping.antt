-- ===== src/Planning/Archive/Keeping.antt =====
-- src/archive/planner.ts: what `addEntry` and `addDependency` keep of the archive.
use dbgate_mysql_dumper.Planning.Archive.Plan.{
  insert_entry, Planner, find, is_hard, add_entry, add_dependency,
}
use dbgate_mysql_dumper.Base.{
  same, [], ◌∷◌, ◌++◌, List, ◌≡◌, Bytes, refl, sym, ◌∙◌, subst, arith, Option, none, some, inl, inr,
  Bool-cases, Option-cases, Bool, true, false, ◌||◌, any, if◌then◌else◌,
}
use dbgate_mysql_dumper.Planning.Sections.{
  ArchiveObjectType, database, table, table_data, view_stub, Entry,
}
use dbgate_mysql_dumper.Planning.Archive.Maps.{get, set}
use dbgate_mysql_dumper.Planning.Archive.Model.{
  MutableEntry, DependencyStrength, PlanDiagnostic, duplicate_archive_identity, is_error,
}
use dbgate_mysql_dumper.Planning.Archive.Supports.{
  Keys, keys_at, Grows, Rests, AllSupported, AllSupported-grow, AllSupported-append,
  depend_at-keys_at, depend_at-AllSupported, same_refl, eq_of_same,
}

-- The identifier is that of an entry of a type, which sorts under a name.
abbrev pub IsEntry : Keys → ArchiveObjectType → Bytes → Bytes → Type 0
IsEntry at object_type name id =
    (k : Entry) × (at id ≡ some k) × (k.object_type ≡ object_type) × (k.group_key ≡ name)

-- Each name of a map goes to the entry of a type that sorts under it.
abbrev pub Maps : Keys → ArchiveObjectType → List (Bytes × Bytes) → Type 0
Maps at object_type [] = Unit
Maps at object_type ((name, id) ∷ m) = IsEntry at object_type name id × Maps at object_type m

pub Maps-get :
    (at : Keys) (object_type : ArchiveObjectType) (name : Bytes) (m : List (Bytes × Bytes))
    {id : Bytes}
    → Maps at object_type m
    → get name m ≡ some id
    → IsEntry at object_type name id
unfolding get
Maps-get at object_type name [] h e = cc
Maps-get at object_type name ((j, v) ∷ m) {id} (h, hs) e = elim (Bool-cases (same j name)) [
  | inl is ↦
      let found : v ≡ id = ground arith in
      subst (IsEntry at object_type name) found
        (subst (λ n. IsEntry at object_type n v) (eq_of_same j name is) h)
  | inr other ↦ Maps-get at object_type name m hs (rw (other, if◌then◌else◌) at e)
]

pub Maps-set :
    (at : Keys) (object_type : ArchiveObjectType) (name id : Bytes) (m : List (Bytes × Bytes))
    → IsEntry at object_type name id
    → Maps at object_type m
    → Maps at object_type (set name id m)
unfolding set
Maps-set at object_type name id [] h hs = (h, tt)
Maps-set at object_type name id ((j, v) ∷ m) h (k, ks) = elim (Bool-cases (same j name)) [
  | inl is ↦
      let replaced : set name id ((j, v) ∷ m) ≡ (j, id) ∷ m = ground arith in
      subst (Maps at object_type) (sym replaced)
        (subst (λ n. IsEntry at object_type n id) (sym (eq_of_same j name is)) h, ks)
  | inr other ↦
      let later : set name id ((j, v) ∷ m) ≡ (j, v) ∷ set name id m = ground arith in
      subst (Maps at object_type) (sym later) (k, Maps-set at object_type name id m h ks)
]

pub Maps-grow :
    (at at' : Keys) (object_type : ArchiveObjectType) (m : List (Bytes × Bytes))
    → Grows at at'
    → Maps at object_type m
    → Maps at' object_type m
Maps-grow at at' object_type [] g h = tt
Maps-grow at at' object_type ((j, v) ∷ m) g ((k, there, is, group), hs) =
    ((k, g v k there, is, group), Maps-grow at at' object_type m g hs)

-- What the planner knows of its variables, by the keys of the entries.
pub record Known (at : Keys) (s : Planner) : Type 0 where
  pub database_known :
      (id : Bytes)
      → s.database_dump_id ≡ some id
      → (k : Entry) × (at id ≡ some k) × (k.object_type ≡ database)
  pub tables_known : Maps at table s.table_dump_id
  pub data_known : Maps at table_data s.table_data_dump_id
  pub stubs_known : Maps at view_stub s.view_stub_dump_id

pub record Sound (s : Planner) : Type 0 where
  pub known : Known (keys_at s.entries) s
  pub all_supported : AllSupported (keys_at s.entries) s.entries

-- The variables beside the entries are the same.
abbrev pub SameMaps : Planner → Planner → Type 0
SameMaps s s' =
    (s'.database_dump_id ≡ s.database_dump_id)
    × (s'.table_dump_id ≡ s.table_dump_id)
    × (s'.table_data_dump_id ≡ s.table_data_dump_id)
    × (s'.view_stub_dump_id ≡ s.view_stub_dump_id)

pub Known-grow :
    (at at' : Keys) (s s' : Planner) → SameMaps s s' → Grows at at' → Known at s → Known at' s'
Known-grow at at' s s' (d, t, r, v) g h = record {
  database_known =
      λ id e. let (k, there, is) = h.database_known id (sym d ∙ e) in (k, g id k there, is);
  tables_known = rw t (Maps-grow at at' table s.table_dump_id g h.tables_known);
  data_known = rw r (Maps-grow at at' table_data s.table_data_dump_id g h.data_known);
  stubs_known = rw v (Maps-grow at at' view_stub s.view_stub_dump_id g h.stubs_known);
}

-- No error was reported.
abbrev pub Clean : Planner → Type 0
Clean s = any is_error s.diagnostics ≡ false

any-append {ℓ} :
    {A : Type ℓ} (p : A → Bool) (xs ys : List A) → any p (xs ++ ys) ≡ (any p xs || any p ys)
unfolding any
any-append p [] ys = refl
any-append p (x ∷ xs) ys = ground (arith, any-append p xs ys)

pub Clean-append :
    (ds ds' : List PlanDiagnostic) → any is_error (ds ++ ds') ≡ false → any is_error ds ≡ false
Clean-append ds ds' h = ground (arith, any-append is_error ds ds')

reported_duplicate :
    (ds : List PlanDiagnostic) (object_type : ArchiveObjectType) (name : Bytes)
    (parent_name : Option Bytes)
    → any is_error (ds ++ duplicate_archive_identity object_type name parent_name ∷ []) ≡ false
    → ⊥
unfolding any is_error
reported_duplicate ds object_type name parent_name h =
    ground
      (arith, any-append is_error ds (duplicate_archive_identity object_type name parent_name ∷ []))

find-keys_at : (id : Bytes) (es : List MutableEntry) → find id es ≡ none → keys_at es id ≡ none
unfolding find
find-keys_at id [] h = refl
find-keys_at id (e ∷ es) h = ground (arith, find-keys_at id es)

keys_at-append :
    (es : List MutableEntry) (e : MutableEntry)
    → keys_at es e.dump_id ≡ none
    → (keys_at (es ++ e ∷ []) e.dump_id ≡ some e.keys) × Grows (keys_at es) (keys_at (es ++ e ∷ []))
keys_at-append [] e h = (rw (same_refl e.dump_id) refl, λ id k there. cc)
keys_at-append (x ∷ es) e h = elim (Bool-cases (same x.dump_id e.dump_id)) [
  | inl is ↦ absurd (ground (arith, is))
  | inr other ↦
      let (last, grows) = keys_at-append es e (rw (other, if◌then◌else◌) at h) in
      (
        rw other last,
        λ id k there. elim (Bool-cases (same x.dump_id id)) [
          | inl is ↦ rw is (rw (is, if◌then◌else◌) at there)
          | inr not_it ↦ rw not_it (grows id k (rw (not_it, if◌then◌else◌) at there))
        ],
      )
]

-- What a call of `addEntry` gives that reports no duplicate: the entry is there, and what was known
-- of the others still is.
pub record Added (s : Planner) (object_type : ArchiveObjectType) (group_key : Bytes) (s' : Planner)
    (id : Bytes) : Type 0 where
  pub was_clean : Clean s
  pub still_sound : Sound s → Sound s'
  pub there : IsEntry (keys_at s'.entries) object_type group_key id

insert_entry-Added :
    (s : Planner) (e : MutableEntry)
    → e.depends_on ≡ []
    → Clean (insert_entry s e)
    → Added s e.keys.object_type e.keys.group_key (insert_entry s e) e.dump_id
unfolding insert_entry
insert_entry-Added s e none_yet h = elim (Option-cases (find e.dump_id s.entries)) [
  | inl fresh ↦
      let result : insert_entry s e ≡ record s { entries = s.entries ++ e ∷ [] } =
        rw (fresh, insert_entry) refl in
      let (last, grows) = keys_at-append s.entries e (find-keys_at e.dump_id s.entries fresh) in
      subst (λ s'. Added s e.keys.object_type e.keys.group_key s' e.dump_id) (sym result)
        (record {
          was_clean = subst Clean result h;
          still_sound = λ sound. record {
            known = Known-grow (keys_at s.entries) _ s _ (refl, refl, refl, refl) grows sound.known;
            all_supported =
                AllSupported-append _ s.entries (e ∷ [])
                  (AllSupported-grow _ _ s.entries grows sound.all_supported)
                  (record { known = last; supports = rw none_yet tt }, tt);
          };
          there = (e.keys, last, refl, refl);
        })
  | inr (x, taken) ↦
      let result : insert_entry s e ≡ record s {
        diagnostics =
            s.diagnostics
            ++ duplicate_archive_identity e.keys.object_type e.keys.name e.parent_name ∷ [];
      } =
        rw (taken, insert_entry) refl in
      let reported = subst Clean result h in
      absurd
        (reported_duplicate s.diagnostics e.keys.object_type e.keys.name e.parent_name reported)
]

module _ (create_dump_id : Bytes → Bytes) (database_name : Bytes) (s : Planner)
    (object_type : ArchiveObjectType) (name group_key secondary_key : Bytes)
    (parent_name : Option Bytes) where
  abbrev pub added : Planner × Bytes
  added =
      add_entry create_dump_id database_name s object_type name group_key secondary_key parent_name

  pub add_entry-Added : Clean added.0 → Added s object_type group_key added.0 added.1
  unfolding add_entry
  add_entry-Added h = insert_entry-Added s _ refl h

pub add_dependency-diagnostics :
    (s : Planner) (from : Bytes) (to : Option Bytes) (strength : DependencyStrength)
    → (add_dependency s from to strength).diagnostics ≡ s.diagnostics
unfolding add_dependency
add_dependency-diagnostics s from none strength = refl
add_dependency-diagnostics s from (some to) strength = ground arith

pub add_dependency-SameMaps :
    (s : Planner) (from : Bytes) (to : Option Bytes) (strength : DependencyStrength)
    → SameMaps s (add_dependency s from to strength)
unfolding add_dependency
add_dependency-SameMaps s from none strength = (refl, refl, refl, refl)
add_dependency-SameMaps s from (some to) strength = ground arith

pub add_dependency-keys_at :
    (s : Planner) (from : Bytes) (to : Option Bytes) (strength : DependencyStrength) (id : Bytes)
    → keys_at (add_dependency s from to strength).entries id ≡ keys_at s.entries id
unfolding add_dependency
add_dependency-keys_at s from none strength id = refl
add_dependency-keys_at s from (some to) strength id =
    elim (Bool-cases (same to [] || same from to)) [
      | inl is ↦ rw is refl
      | inr other ↦ rw other (depend_at-keys_at from to strength s.entries id)
    ]

add_dependency-AllSupported :
    (s : Planner) (from : Bytes) (to : Option Bytes) (strength : DependencyStrength) (k : Entry)
    → keys_at s.entries from ≡ some k
    → (is_hard strength ≡ true → (id : Bytes) → to ≡ some id → Rests (keys_at s.entries) k id)
    → AllSupported (keys_at s.entries) s.entries
    → AllSupported (keys_at s.entries) (add_dependency s from to strength).entries
unfolding add_dependency
add_dependency-AllSupported s from none strength k there rests h = h
add_dependency-AllSupported s from (some to) strength k there rests h =
    elim (Bool-cases (same to [] || same from to)) [
      | inl is ↦ rw is h
      | inr other ↦ rw other (
          depend_at-AllSupported (keys_at s.entries) from to strength k s.entries there
            (λ is. rests is to refl) h)
    ]

-- A dependency on an entry that stands before, or one that is a preference, keeps the archive sound.
pub add_dependency-Sound :
    (s : Planner) (from : Bytes) (to : Option Bytes) (strength : DependencyStrength) (k : Entry)
    → keys_at s.entries from ≡ some k
    → (is_hard strength ≡ true → (id : Bytes) → to ≡ some id → Rests (keys_at s.entries) k id)
    → Sound s
    → Sound (add_dependency s from to strength)
add_dependency-Sound s from to strength k there rests h =
    let grows : Grows (keys_at s.entries) (keys_at (add_dependency s from to strength).entries) =
      λ id k there. add_dependency-keys_at s from to strength id ∙ there in
    record {
      known =
          Known-grow (keys_at s.entries) _ s _ (add_dependency-SameMaps s from to strength) grows
            h.known;
      all_supported =
          AllSupported-grow (keys_at s.entries) _ _ grows
            (add_dependency-AllSupported s from to strength k there rests h.all_supported);
    }
