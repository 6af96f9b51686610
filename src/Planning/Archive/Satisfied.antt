-- ===== src/Planning/Archive/Satisfied.antt =====
-- `validateOrder` of src/archive/planner.ts on the sorted archive.
use dbgate_mysql_dumper.Base.{
  same, get_elem?, ℕ, zero, suc, [], ◌∷◌, List, ◌≡◌, Bytes, refl, sym, subst, arith, some, inl, inr,
  Bool-cases, Option-cases, false, ltb,
}
use dbgate_mysql_dumper.Planning.Sections.{Sign, compare_entries}
use dbgate_mysql_dumper.Planning.Sections.Order.{IsOrder, compare_entries-IsOrder}
use dbgate_mysql_dumper.Planning.Archive.Maps.{insert, sort, is_positive}
use dbgate_mysql_dumper.Planning.Archive.Model.{ArchiveDependency, MutableEntry}
use dbgate_mysql_dumper.Planning.Archive.Plan.{is_hard}
use dbgate_mysql_dumper.Planning.Archive.Inspect.{
  position, stands_after, violations_of, unsatisfied, compare_mutable,
}
use dbgate_mysql_dumper.Planning.Archive.Supports.{
  Keys, Rests, Supports, Supported, AllSupported, same_refl, eq_of_same,
}
use dbgate_mysql_dumper.Planning.Archive.Sorted.{IsSorted, sort-IsSorted, IsSorted-get_elem?}

pub compare_mutable-IsOrder : IsOrder compare_mutable
unfolding compare_mutable
compare_mutable-IsOrder = record {
  flips = λ a b. compare_entries-IsOrder.flips a.keys b.keys;
  composes = λ a b c. compare_entries-IsOrder.composes a.keys b.keys c.keys;
}

module _ (at : Keys) where
  insert-AllSupported :
      (f : MutableEntry → MutableEntry → Sign) (e : MutableEntry) (es : List MutableEntry)
      → Supported at e
      → AllSupported at es
      → AllSupported at (insert f e es)
  unfolding insert
  insert-AllSupported f e [] h hs = (h, tt)
  insert-AllSupported f e (x ∷ es) h (k, ks) = elim (Bool-cases (is_positive (f e x))) [
    | inl after ↦ rw after (k, insert-AllSupported f e es h ks)
    | inr before ↦ rw before (h, (k, ks))
  ]

  pub sort-AllSupported :
      (f : MutableEntry → MutableEntry → Sign) (es : List MutableEntry)
      → AllSupported at es
      → AllSupported at (sort f es)
  unfolding sort
  sort-AllSupported f [] h = tt
  sort-AllSupported f (e ∷ es) (h, hs) =
      insert-AllSupported f e (sort f es) h (sort-AllSupported f es hs)

  pub AllSupported-get_elem? :
      (es : List MutableEntry) (i : ℕ) (e : MutableEntry)
      → AllSupported at es
      → get_elem? es i ≡ some e
      → Supported at e
  AllSupported-get_elem? [] i e h found = cc
  AllSupported-get_elem? (x ∷ es) zero e (h, hs) found = subst (Supported at) (cc) h
  AllSupported-get_elem? (x ∷ es) (suc i) e (h, hs) found = AllSupported-get_elem? es i e hs found

position-get_elem? :
    (id : Bytes) (es : List MutableEntry) (i : ℕ)
    → position id es ≡ some i
    → (e : MutableEntry) × (get_elem? es i ≡ some e) × (e.dump_id ≡ id)
unfolding position
position-get_elem? id [] i h = cc
position-get_elem? id (x ∷ es) i h = elim (Option-cases (position id es)) [
  | inr (j, later) ↦
      let (e, found, is) = position-get_elem? id es j later in
      let shifted : suc j ≡ i = ground arith in (e, rw (sym shifted) found, is)
  | inl last ↦ elim (Bool-cases (same x.dump_id id)) [
    | inl is ↦
        let first : 0 ≡ i = ground arith in (x, rw (sym first) refl, eq_of_same x.dump_id id is)
    | inr other ↦ absurd (ground arith)
  ]
]

-- Each of the entries has a position.
abbrev Placed : List MutableEntry → List MutableEntry → Type 0
Placed all [] = Unit
Placed all (e ∷ es) = ((i : ℕ) × (position e.dump_id all ≡ some i)) × Placed all es

Placed-cons : (x : MutableEntry) (all es : List MutableEntry) → Placed all es → Placed (x ∷ all) es
unfolding position
Placed-cons x all [] h = tt
Placed-cons x all (e ∷ es) ((i, at_i), hs) =
    ((suc i, rw (at_i, position) refl), Placed-cons x all es hs)

Placed-refl : (es : List MutableEntry) → Placed es es
unfolding position
Placed-refl [] = tt
Placed-refl (e ∷ es) = (
  elim (Option-cases (position e.dump_id es)) [
    | inr (i, at_i) ↦ (suc i, rw (at_i, position) refl)
    | inl last ↦ (0, ground (arith, last, same_refl e.dump_id))
  ],
  Placed-cons e es es (Placed-refl es),
)

module _ (at : Keys) (ordered : List MutableEntry) (sorted : IsSorted compare_mutable ordered)
    (supported : AllSupported at ordered) where
  -- The target of a hard dependency does not stand after the entry.
  Rests-before :
      (e : MutableEntry) (from to : ℕ) (target : Bytes)
      → Supported at e
      → position e.dump_id ordered ≡ some from
      → position target ordered ≡ some to
      → Rests at e.keys target
      → ltb from to ≡ false
  unfolding compare_mutable
  Rests-before e from to target h here there (k, known, before) = elim (Bool-cases (ltb from to)) [
    | inr not_after ↦ not_after
    | inl after ↦
        let (x, x_at, x_id) = position-get_elem? e.dump_id ordered from here in
        let (y, y_at, y_id) = position-get_elem? target ordered to there in
        let x_known = (AllSupported-get_elem? at ordered from x supported x_at).known in
        let y_known = (AllSupported-get_elem? at ordered to y supported y_at).known in
        let x_keys : x.keys ≡ e.keys = cc (h.known) in
        let y_keys : y.keys ≡ k = cc in
        let smaller =
          IsSorted-get_elem? compare_mutable ordered from to x y sorted x_at y_at (ground arith) in
        let turned = compare_entries-IsOrder.flips k e.keys in
        let same_sign : compare_entries x.keys y.keys ≡ compare_entries e.keys k =
          rw x_keys (rw y_keys refl) in
        ground (arith, smaller, turned, same_sign, before.order)
  ]

  violations_of-nil :
      (e : MutableEntry) (from : ℕ) (ds : List ArchiveDependency)
      → Supported at e
      → position e.dump_id ordered ≡ some from
      → Supports at e.keys ds
      → violations_of ordered e.dump_id from ds ≡ []
  unfolding violations_of stands_after
  violations_of-nil e from [] h here hs = refl
  violations_of-nil e from (d ∷ ds) h here (rests, hs) =
      let rest = violations_of-nil e from ds h here hs in
      elim (Bool-cases (is_hard d.strength)) [
        | inr soft ↦ rw soft rest
        | inl is ↦ elim (Option-cases (position d.target_dump_id ordered)) [
          | inl absent ↦ rw (is, absent) rest
          | inr (to, there) ↦
              let before = Rests-before e from to d.target_dump_id h here there (rests is) in
              ground (arith, is, there, before, rest)
        ]
      ]

  -- In the sorted archive no hard dependency is unsatisfied.
  unsatisfied-nil :
      (es : List MutableEntry)
      → AllSupported at es
      → Placed ordered es
      → unsatisfied ordered es ≡ []
  unfolding unsatisfied
  unsatisfied-nil [] h p = refl
  unsatisfied-nil (e ∷ es) (h, hs) ((from, here), ps) =
      rw here
        (rw (violations_of-nil e from e.depends_on h here h.supports) (unsatisfied-nil es hs ps))

pub sort-unsatisfied :
    (at : Keys) (es : List MutableEntry)
    → AllSupported at es
    → unsatisfied (sort compare_mutable es) (sort compare_mutable es) ≡ []
sort-unsatisfied at es h =
    let supported = sort-AllSupported at compare_mutable es h in
    unsatisfied-nil at (sort compare_mutable es)
      (sort-IsSorted compare_mutable compare_mutable-IsOrder es) supported (sort compare_mutable es)
      supported (Placed-refl (sort compare_mutable es))
