-- ===== src/Planning/Archive/Supports.antt =====
-- src/archive/planner.ts: what the entries of an archive depend on, by the keys of the entries.
use dbgate_mysql_dumper.Base.{
  same, ℕ, ◌<◌, [], ◌∷◌, ◌++◌, List, ◌≡◌, Bytes, refl, sym, subst, arith, Option, none, some, inl,
  inr, Bool-cases, Option-cases, true, ◌&&◌, not, if◌then◌else◌,
}
use dbgate_mysql_dumper.Planning.Sections.{
  ArchiveObjectType, database, table_data, trigger, view, Entry, negative, assign_dump_section,
  dump_section_priority, compare_entries, delta,
}
use dbgate_mysql_dumper.Planning.Sections.Order.{compare_entries-place, place}
use dbgate_mysql_dumper.Planning.Archive.Model.{
  ArchiveDependency, MutableEntry, DependencyStrength, hard,
}
use dbgate_mysql_dumper.Planning.Archive.Plan.{
  find_dependency, without_target, is_hard, depend_on, depend_at,
}

pub same_refl : (x : Bytes) → same x x ≡ true
unfolding same
same_refl [] = refl
same_refl (c ∷ cs) = ground (arith, same_refl cs)

pub eq_of_same : (x y : Bytes) → same x y ≡ true → x ≡ y
unfolding same
eq_of_same [] [] h = refl
eq_of_same [] (y ∷ ys) h = cc
eq_of_same (x ∷ xs) [] h = cc
eq_of_same (x ∷ xs) (y ∷ ys) h = ground (arith, eq_of_same xs ys)

-- The keys of the entry that has the identifier.
abbrev pub keys_at : List MutableEntry → Bytes → Option Entry
keys_at [] id = none
keys_at (e ∷ es) id = if same e.dump_id id then some e.keys else keys_at es id

-- How deep the hard dependencies of an entry reach.
abbrev pub level : ArchiveObjectType → ℕ
level database = 0
level table_data = 2
level trigger = 3
level view = 4
level _ = 1

-- An entry with the first keys is emitted before one with the second, and depends on less.
pub record Before (k e : Entry) : Type 0 where
  pub order : compare_entries k e ≡ negative
  pub depth : level k.object_type < level e.object_type

abbrev pub Keys : Type 0
Keys = Bytes → Option Entry

-- The target of a dependency is an entry that stands before.
abbrev pub Rests : Keys → Entry → Bytes → Type 0
Rests at e id = (k : Entry) × (at id ≡ some k) × Before k e

abbrev pub Supports : Keys → Entry → List ArchiveDependency → Type 0
Supports at e [] = Unit
Supports at e (d ∷ ds) =
    (is_hard d.strength ≡ true → Rests at e d.target_dump_id) × Supports at e ds

pub record Supported (at : Keys) (e : MutableEntry) : Type 0 where
  pub known : at e.dump_id ≡ some e.keys
  pub supports : Supports at e.keys e.depends_on

abbrev pub AllSupported : Keys → List MutableEntry → Type 0
AllSupported at [] = Unit
AllSupported at (e ∷ es) = Supported at e × AllSupported at es

abbrev pub Grows : Keys → Keys → Type 0
Grows at at' = (id : Bytes) (k : Entry) → at id ≡ some k → at' id ≡ some k

Supports-grow :
    (at at' : Keys) (e : Entry) (ds : List ArchiveDependency)
    → Grows at at'
    → Supports at e ds
    → Supports at' e ds
Supports-grow at at' e [] g h = tt
Supports-grow at at' e (d ∷ ds) g (h, hs) = (
  (λ is. let (k, there, before) = h is in (k, g d.target_dump_id k there, before)),
  Supports-grow at at' e ds g hs,
)

pub AllSupported-grow :
    (at at' : Keys) (es : List MutableEntry)
    → Grows at at'
    → AllSupported at es
    → AllSupported at' es
AllSupported-grow at at' [] g h = tt
AllSupported-grow at at' (e ∷ es) g (h, hs) = (
  record {
    known = g e.dump_id e.keys h.known;
    supports = Supports-grow at at' e.keys e.depends_on g h.supports;
  },
  AllSupported-grow at at' es g hs,
)

pub AllSupported-append :
    (at : Keys) (es es' : List MutableEntry)
    → AllSupported at es
    → AllSupported at es'
    → AllSupported at (es ++ es')
AllSupported-append at [] es' h h' = h'
AllSupported-append at (e ∷ es) es' (h, hs) h' = (h, AllSupported-append at es es' hs h')

Supports-append :
    (at : Keys) (e : Entry) (ds ds' : List ArchiveDependency)
    → Supports at e ds
    → Supports at e ds'
    → Supports at e (ds ++ ds')
Supports-append at e [] ds' h h' = h'
Supports-append at e (d ∷ ds) ds' (h, hs) h' = (h, Supports-append at e ds ds' hs h')

Supports-without_target :
    (at : Keys) (e : Entry) (id : Bytes) (ds : List ArchiveDependency)
    → Supports at e ds
    → Supports at e (without_target id ds)
unfolding without_target
Supports-without_target at e id [] h = tt
Supports-without_target at e id (d ∷ ds) (h, hs) =
    let rest = Supports-without_target at e id ds hs in
    elim (Bool-cases (same d.target_dump_id id)) [
      | inl is ↦ rw is rest
      | inr other ↦ rw other (h, rest)
    ]

-- A dependency that is added rests on an entry that stands before, when it is hard.
depend_on-Supports :
    (at : Keys) (e : Entry) (id : Bytes) (strength : DependencyStrength)
    (ds : List ArchiveDependency)
    → (is_hard strength ≡ true → Rests at e id)
    → Supports at e ds
    → Supports at e (depend_on id strength ds)
unfolding depend_on
depend_on-Supports at e id strength ds rests h = elim (Option-cases (find_dependency id ds)) [
  | inl fresh ↦
      let added : depend_on id strength ds
          ≡ ds ++ record { target_dump_id = id; strength = strength } ∷ [] =
        ground arith in
      subst (Supports at e) (sym added) (Supports-append at e ds _ h (rests, tt))
  | inr (d, there) ↦ elim (Bool-cases (is_hard strength && not (is_hard d.strength))) [
    | inl raised ↦
        let replaced : depend_on id strength ds
            ≡ without_target id ds ++ record { target_dump_id = id; strength = hard } ∷ [] =
          ground arith in
        subst (Supports at e) (sym replaced) (
          Supports-append at e (without_target id ds) _ (Supports-without_target at e id ds h)
            ((λ _. rests (ground arith)), tt))
    | inr kept ↦
        let same_list : depend_on id strength ds ≡ ds = ground arith in
        subst (Supports at e) (sym same_list) h
  ]
]

pub depend_at-keys_at :
    (from to : Bytes) (strength : DependencyStrength) (es : List MutableEntry) (id : Bytes)
    → keys_at (depend_at from to strength es) id ≡ keys_at es id
unfolding depend_at
depend_at-keys_at from to strength [] id = refl
depend_at-keys_at from to strength (e ∷ es) id = elim (Bool-cases (same e.dump_id from)) [
  | inl is ↦ rw is
  | inr other ↦ rw other (rw (depend_at-keys_at from to strength es id))
]

pub depend_at-AllSupported :
    (at : Keys) (from to : Bytes) (strength : DependencyStrength) (k : Entry)
    (es : List MutableEntry)
    → at from ≡ some k
    → (is_hard strength ≡ true → Rests at k to)
    → AllSupported at es
    → AllSupported at (depend_at from to strength es)
unfolding depend_at
depend_at-AllSupported at from to strength k [] there rests h = tt
depend_at-AllSupported at from to strength k (e ∷ es) there rests (h, hs) =
    elim (Bool-cases (same e.dump_id from)) [
      | inl is ↦
          let known : k ≡ e.keys = cc (eq_of_same e.dump_id from is) in
          rw is (
            record {
              known = h.known;
              supports =
                  depend_on-Supports at e.keys to strength e.depends_on
                    (subst (λ k. is_hard strength ≡ true → Rests at k to) known rests) h.supports;
            },
            hs,
          )
      | inr other ↦ rw other (h, depend_at-AllSupported at from to strength k es there rests hs)
    ]

-- The two ways for an entry to stand before another: in an earlier section, or of one table.
pub section-Before :
    (k e : Entry)
    → dump_section_priority (assign_dump_section k.object_type)
      < dump_section_priority (assign_dump_section e.object_type)
    → level k.object_type < level e.object_type
    → Before k e
unfolding compare_entries delta
section-Before k e h l = record { order = ground arith; depth = l }

pub place-Before :
    (k e : Entry) (i j : ℕ)
    → k.group_key ≡ e.group_key
    → place k.object_type ≡ some i
    → place e.object_type ≡ some j
    → i < j
    → Before k e
place-Before k e i j g p q l = record {
  order = compare_entries-place k e i j g p q l;
  depth = ground arith;
}
