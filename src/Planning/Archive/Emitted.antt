-- ===== src/Planning/Archive/Emitted.antt =====
-- src/archive/planner.ts: the entries of an archive, and the entries that they depend on.
use dbgate_mysql_dumper.Base.{
  same, get_elem?, ℕ, zero, suc, ◌+◌, ◌<◌, [], ◌∷◌, List, ◌≡◌, ◌⊎◌, Bytes, refl, sym, ap, ◌∙◌,
  subst, arith, none, some, inl, inr, Bool-cases, Bool, true, false, not, any, ltb, ◌==◌,
  if◌then◌else◌,
}
use dbgate_mysql_dumper.Planning.Sections.{Entry, Sign}
use dbgate_mysql_dumper.Planning.Sections.Order.{compare_entries-IsOrder}
use dbgate_mysql_dumper.Planning.Archive.Maps.{insert, sort, is_positive}
use dbgate_mysql_dumper.Planning.Archive.Model.{
  MysqlDatabase, ArchiveDependency, MutableEntry, ArchiveEntry, DumpArchiveInspection, is_error,
}
use dbgate_mysql_dumper.Planning.Archive.Plan.{is_hard}
use dbgate_mysql_dumper.Planning.Archive.Passes.{plan}
use dbgate_mysql_dumper.Planning.Archive.Inspect.{
  InspectDumpArchiveOptions, to_archive_entries, to_archive_entry, compare_mutable, settings,
  inspect_dump_archive,
}
use dbgate_mysql_dumper.Planning.Archive.Supports.{
  Keys, keys_at, level, Before, Rests, Supports, eq_of_same,
}
use dbgate_mysql_dumper.Planning.Archive.Loops.{plan-Sound}
use dbgate_mysql_dumper.Planning.Archive.Sorted.{IsSorted, sort-IsSorted, IsSorted-get_elem?}
use dbgate_mysql_dumper.Planning.Archive.Satisfied.{
  sort-AllSupported, AllSupported-get_elem?, compare_mutable-IsOrder,
}
use dbgate_mysql_dumper.Planning.Archive.Valid.{ordered, reported, inspect_dump_archive_conclusion}

-- The element stands in the list.
abbrev pub In {ℓ} : {A : Type ℓ} → A → List A → Type ℓ
In x xs = (i : ℕ) × (get_elem? xs i ≡ some x)

In-cons {ℓ} :
    {A : Type ℓ} (x z : A) (zs : List A) (i : ℕ) → get_elem? (z ∷ zs) i ≡ some x → (x ≡ z) ⊎ In x zs
In-cons x z zs zero there = inl (cc)
In-cons x z zs (suc i) there = inr (i, there)

insert-In {ℓ} :
    {A : Type ℓ} (f : A → A → Sign) (x y : A) (ys : List A)
    → ((x ≡ y) ⊎ In x ys)
    → In x (insert f y ys)
unfolding insert
insert-In f x y [] (inl is) = (0, rw is refl)
insert-In f x y [] (inr (i, there)) = absurd (cc)
insert-In f x y (z ∷ zs) h = elim (Bool-cases (is_positive (f y z))) [
  | inr before ↦ rw before (elim h [ inl is ↦ (0, rw is refl) | inr (i, there) ↦ (suc i, there) ])
  | inl after ↦ rw after (elim h [
    | inl is ↦ let (i, there) = insert-In f x y zs (inl is) in (suc i, there)
    | inr (i, there) ↦ elim (In-cons x z zs i there) [
      | inl is ↦ (0, rw is refl)
      | inr further ↦ let (j, found) = insert-In f x y zs (inr further) in (suc j, found)
    ]
  ])
]

sort-In {ℓ} : {A : Type ℓ} (f : A → A → Sign) (x : A) (xs : List A) → In x xs → In x (sort f xs)
unfolding sort
sort-In f x [] (i, there) = absurd (cc)
sort-In f x (y ∷ ys) (zero, there) = insert-In f x y (sort f ys) (inl (cc))
sort-In f x (y ∷ ys) (suc i, there) = insert-In f x y (sort f ys) (inr (sort-In f x ys (i, there)))

keys_at-In :
    (es : List MutableEntry) (id : Bytes) (k : Entry)
    → keys_at es id ≡ some k
    → (e : MutableEntry) × In e es × (e.dump_id ≡ id) × (e.keys ≡ k)
keys_at-In [] id k h = cc
keys_at-In (x ∷ es) id k h = elim (Bool-cases (same x.dump_id id)) [
  | inl is ↦ (x, (0, refl), eq_of_same x.dump_id id is, ground (arith, is))
  | inr other ↦
      let (e, (i, there), named, keyed) = keys_at-In es id k (rw (other, if◌then◌else◌) at h) in
      (e, (suc i, there), named, keyed)
]

Supports-In :
    (at : Keys) (k : Entry) (ds : List ArchiveDependency) (d : ArchiveDependency)
    → Supports at k ds
    → In d ds
    → is_hard d.strength ≡ true
    → Rests at k d.target_dump_id
Supports-In at k [] d h (i, there) is = absurd (cc)
Supports-In at k (x ∷ ds) d (h, hs) (zero, there) is =
    let it : x ≡ d = cc in
    subst (λ (y : ArchiveDependency). Rests at k y.target_dump_id) it (h (rw it is))
Supports-In at k (x ∷ ds) d (h, hs) (suc i, there) is = Supports-In at k ds d hs (i, there) is

-- Of two entries of the sorted archive, the one that stands before the other has the lower index.
Before-lt :
    (es : List MutableEntry) (i j : ℕ) (x y : MutableEntry)
    → IsSorted compare_mutable es
    → get_elem? es i ≡ some x
    → get_elem? es j ≡ some y
    → Before y.keys x.keys
    → j < i
unfolding compare_mutable
Before-lt es i j x y sorted x_at y_at before = elim (Bool-cases (ltb j i)) [
  | inl lower ↦ ground (arith, lower)
  | inr not_lower ↦ elim (Bool-cases (i == j)) [
    | inl same_place ↦
        let it : i ≡ j = ground (arith, same_place) in
        let twin : x ≡ y = cc (it) in
        absurd
          (omega (arith, before.depth, ap (λ (e : MutableEntry). level e.keys.object_type) twin))
    | inr apart ↦
        let smaller =
          IsSorted-get_elem? compare_mutable es i j x y sorted x_at y_at (ground arith) in
        let turned = compare_entries-IsOrder.flips y.keys x.keys in
        absurd (ground (arith, smaller, turned, before.order))
  ]
]

to_archive_entries-get_elem? :
    (valid : Bool) (index : ℕ) (es : List MutableEntry) (i : ℕ) (e : ArchiveEntry)
    → get_elem? (to_archive_entries valid index es) i ≡ some e
    → (x : MutableEntry) × (get_elem? es i ≡ some x)
      × (e.dump_id ≡ x.dump_id)
      × (e.depends_on ≡ x.depends_on)
      × (e.sequence_number ≡ (if valid then some (index + i) else none))
unfolding to_archive_entries to_archive_entry
to_archive_entries-get_elem? valid index [] i e h = cc
to_archive_entries-get_elem? valid index (x ∷ es) zero e h =
    (x, refl, ground (arith, h), ground (arith, h), ground (arith, h))
to_archive_entries-get_elem? valid index (x ∷ es) (suc i) e h =
    let (y, there, named, depends, numbered) =
      to_archive_entries-get_elem? valid (suc index) es i e h in
    (y, there, named, depends, ground (arith, numbered))

to_archive_entries-In :
    (valid : Bool) (index : ℕ) (es : List MutableEntry) (i : ℕ) (x : MutableEntry)
    → get_elem? es i ≡ some x
    → (e : ArchiveEntry) × (get_elem? (to_archive_entries valid index es) i ≡ some e)
      × (e.dump_id ≡ x.dump_id)
unfolding to_archive_entries to_archive_entry
to_archive_entries-In valid index [] i x h = cc
to_archive_entries-In valid index (y ∷ es) zero x h =
    (to_archive_entry y (if valid then some index else none), refl, ground (arith, h))
to_archive_entries-In valid index (y ∷ es) (suc i) x h =
    to_archive_entries-In valid (suc index) es i x h

not_injective : (b : Bool) → not b ≡ true → b ≡ false
not_injective true h = cc
not_injective false h = refl

module _ (to_lower_case create_dump_id : Bytes → Bytes) (db : MysqlDatabase)
    (o : InspectDumpArchiveOptions) where
  entry_emitted_before :
      (i : ℕ) (e : ArchiveEntry) (d : ArchiveDependency)
      → any is_error (reported to_lower_case create_dump_id db o) ≡ false
      → let entries = to_archive_entries true 0 (ordered to_lower_case create_dump_id db o) in
        get_elem? entries i ≡ some e
        → In d e.depends_on
        → is_hard d.strength ≡ true
        → (j : ℕ) × (target : ArchiveEntry) × (get_elem? entries j ≡ some target)
          × (target.dump_id ≡ d.target_dump_id)
          × (j < i)
  entry_emitted_before i e d clean here depends is =
      let entries =
        (plan to_lower_case create_dump_id db (settings to_lower_case create_dump_id o)).entries in
      let sorted = ordered to_lower_case create_dump_id db o in
      let sound =
        plan-Sound to_lower_case create_dump_id db (settings to_lower_case create_dump_id o)
          clean in
      let at = keys_at entries in
      let supported = sort-AllSupported at compare_mutable entries sound.all_supported in
      let (x, x_at, named, depends_on, numbered) =
        to_archive_entries-get_elem? true 0 sorted i e here in
      let h = AllSupported-get_elem? at sorted i x supported x_at in
      let (k, known, before) =
        Supports-In at x.keys x.depends_on d h.supports (subst (In d) depends_on depends) is in
      let (y, y_in, y_named, y_keys) = keys_at-In entries d.target_dump_id k known in
      let (j, y_at) = sort-In compare_mutable y entries y_in in
      let (target, there, target_named) = to_archive_entries-In true 0 sorted j y y_at in
      (
        j,
        target,
        there,
        target_named ∙ y_named,
        Before-lt sorted i j x y (sort-IsSorted compare_mutable compare_mutable-IsOrder entries)
            x_at y_at (subst (λ k. Before k x.keys) (sym y_keys) before),
      )

  -- In a valid archive each hard dependency of an entry is an entry of the archive, which is emitted
  -- before it.
  pub inspect_dump_archive-emitted_before :
      (r : DumpArchiveInspection) (i : ℕ) (e : ArchiveEntry) (d : ArchiveDependency)
      → inspect_dump_archive to_lower_case create_dump_id db o ≡ some r
      → r.valid ≡ true
      → get_elem? r.entries i ≡ some e
      → In d e.depends_on
      → is_hard d.strength ≡ true
      → (j : ℕ) × (target : ArchiveEntry) × (get_elem? r.entries j ≡ some target)
        × (target.dump_id ≡ d.target_dump_id)
        × (j < i)
  inspect_dump_archive-emitted_before r i e d inspected valid here depends is =
      let (r', inspected', validity, listed) =
        inspect_dump_archive_conclusion to_lower_case create_dump_id db o in
      let it : r ≡ r' = cc in
      let also_valid = subst (λ (x : DumpArchiveInspection). x.valid ≡ true) it valid in
      let clean = not_injective _ (sym validity ∙ also_valid) in
      let entries : r.entries
          ≡ to_archive_entries true 0 (ordered to_lower_case create_dump_id db o) =
        ap (λ (x : DumpArchiveInspection). x.entries) it
        ∙ (listed
            ∙ ap (λ b. to_archive_entries b 0 (ordered to_lower_case create_dump_id db o))
                also_valid) in
      let (j, target, there, named, lower) =
        entry_emitted_before i e d clean (subst (λ es. get_elem? es i ≡ some e) entries here)
          depends is in
      (j, target, subst (λ es. get_elem? es j ≡ some target) (sym entries) there, named, lower)
