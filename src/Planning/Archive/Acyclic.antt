-- ===== src/Planning/Archive/Acyclic.antt =====
-- `findHardCycles` of src/archive/planner.ts, on entries whose hard dependencies all descend.
use dbgate_mysql_dumper.Base.{
  same, ℕ, zero, suc, ◌≤◌, [], ◌∷◌, List, ◌≡◌, Bytes, length, refl, ◌∙◌, subst, arith, none, some,
  inl, inr, Bool-cases, Option-cases, true, false, any,
}
use dbgate_mysql_dumper.Planning.Sections.{Entry}
use dbgate_mysql_dumper.Planning.Archive.Maps.{get}
use dbgate_mysql_dumper.Planning.Archive.Model.{MutableEntry}
use dbgate_mysql_dumper.Planning.Archive.Cycles.{
  by_dump_id, close_with, Search, contains, delete, enter, pop_until, close_component, follow,
  dependencies_of, strong_connect, connect_all, find_hard_cycles,
}
use dbgate_mysql_dumper.Planning.Archive.Supports.{
  Keys, Supports, AllSupported, same_refl, eq_of_same,
}
use dbgate_mysql_dumper.Planning.Archive.Lookups.{get-set, contains-cons, contains-delete}
use dbgate_mysql_dumper.Planning.Archive.Links.{
  Bounded, Passes, by_dump_id-Supported, number_at-get, has_key-entered, has_key-fresh, High,
  Higher, Visits, follow-Passes,
}

-- A component that is its entry alone is no cycle.
close_component-alone :
    (id : Bytes) (n : ℕ) (rest : List Bytes) (s : Search)
    → s.stack ≡ id ∷ rest
    → get id s.index_by_dump_id ≡ some n
    → get id s.low_link ≡ some n
    → close_component id s ≡ some (record s { stack = rest; on_stack = delete id s.on_stack })
unfolding close_component pop_until close_with
close_component-alone id n rest s on_top index link =
    let i = number_at-get id n s.index_by_dump_id index in
    let l = number_at-get id n s.low_link link in ground (arith, i, l, on_top, same_refl id)

enter-Bounded : (id : Bytes) (s : Search) → Bounded s → Bounded (enter id s)
unfolding enter
enter-Bounded id s h x n e = elim (Bool-cases (same id x)) [
  | inl is ↦ ground (arith, get-set x id s.next_index s.index_by_dump_id)
  | inr other ↦
      let was : get x s.index_by_dump_id ≡ some n =
        ground (arith, get-set x id s.next_index s.index_by_dump_id) in
      omega (arith, h x n was)
]

entered_index : (id : Bytes) (s : Search) → get id (enter id s).index_by_dump_id ≡ some s.next_index
unfolding enter
entered_index id s = get-set id id s.next_index s.index_by_dump_id ∙ rw (same_refl id) refl

entered_link : (id : Bytes) (s : Search) → get id (enter id s).low_link ≡ some s.next_index
unfolding enter
entered_link id s = get-set id id s.next_index s.low_link ∙ rw (same_refl id) refl

entered_High :
    (at : Keys) (id : Bytes) (j : Entry) (s : Search)
    → at id ≡ some j
    → Higher at j s
    → High at j (enter id s)
unfolding enter
entered_High at id j s known higher x on = elim (Bool-cases (same id x)) [
  | inl is ↦ (j, subst (λ y. at y ≡ some j) (eq_of_same id x is) known, omega arith)
  | inr other ↦
      let was : contains x s.on_stack ≡ true = ground (arith, contains-cons x id s.on_stack) in
      let (k, there, less) = higher x was in (k, there, omega arith)
]

not_on :
    (x : Bytes) (s : Search) → (contains x s.on_stack ≡ true → ⊥) → contains x s.on_stack ≡ false
not_on x s h = elim (Bool-cases (contains x s.on_stack)) [ inl on ↦ absurd (h on) | inr off ↦ off ]

differs_from_fresh :
    (id x : Bytes) (n : ℕ) (m : List (Bytes × ℕ))
    → get id m ≡ none
    → get x m ≡ some n
    → same id x ≡ false
differs_from_fresh id x n m fresh there = elim (Bool-cases (same id x)) [
  | inl is ↦ absurd (cc (eq_of_same id x is))
  | inr other ↦ other
]

-- From the entry of `id` to its closing, where the visit of its dependencies left it on top.
close-Passes :
    (id : Bytes) (s s2 : Search)
    → get id s.index_by_dump_id ≡ none
    → Bounded s
    → Passes (enter id s) s2
    → (s' : Search) × (close_component id s2 ≡ some s')
      × Passes s s'
      × ((n : ℕ) × (get id s'.low_link ≡ some n) × (s.next_index ≤ n))
unfolding enter
close-Passes id s s2 fresh bounded p =
    let n = s.next_index in
    let index = entered_index id s in
    let link = entered_link id s in
    let link2 = p.same_link id n index ∙ link in
    let result =
      close_component-alone id n s.stack s2 p.same_stack (p.same_index id n index) link2 in
    (
      record s2 { stack = s.stack; on_stack = delete id s2.on_stack },
      result,
      record {
        same_stack = refl;
        no_more = λ x h.
            let (there, other) = contains-delete x id s2.on_stack h in
            let was = p.no_more x there in ground (arith, contains-cons x id s.on_stack);
        same_cycles = p.same_cycles;
        same_index = λ x m h. p.same_index x m (
            get-set x id n s.index_by_dump_id
            ∙ rw (differs_from_fresh id x m s.index_by_dump_id fresh h) h);
        same_link = λ x m h.
            let other = differs_from_fresh id x m s.index_by_dump_id fresh h in
            p.same_link x m (get-set x id n s.index_by_dump_id ∙ rw other h)
            ∙ (get-set x id n s.low_link ∙ rw other refl);
        still_bounded = λ h. p.still_bounded (enter-Bounded id s h);
        grows = omega (arith, p.grows);
      },
      (n, link2, omega arith),
    )

module _ (at : Keys) (entries : List MutableEntry) (supported : AllSupported at entries) where
  dependencies_of-Supports :
      (id : Bytes) (k : Entry) → at id ≡ some k → Supports at k (dependencies_of id entries)
  unfolding dependencies_of
  dependencies_of-Supports id k known = elim (Option-cases (by_dump_id id entries)) [
    | inl absent ↦ rw (absent, dependencies_of) tt
    | inr (e, found) ↦
        let (h, is) = by_dump_id-Supported at id entries e supported found in
        let keys : e.keys ≡ k = cc (h.known) in
        rw (found, dependencies_of) (subst (λ k. Supports at k e.depends_on) keys h.supports)
  ]

  strong_connect-Visits : (fuel : ℕ) → Visits at (strong_connect entries fuel)
  unfolding strong_connect
  strong_connect-Visits zero id j s s' known fresh bounded higher e = cc
  strong_connect-Visits (suc fuel) id j s s' known fresh bounded higher e =
      elim (Option-cases (
        follow entries (strong_connect entries fuel) id (dependencies_of id entries)
          (enter id s))) [
            | inl never ↦ absurd (ground (arith, never))
            | inr (s2, returned) ↦
                let n = s.next_index in
                let p =
                  follow-Passes at entries supported (strong_connect entries fuel) j
                    (strong_connect-Visits fuel) id n (dependencies_of id entries) (enter id s) s2
                    (dependencies_of-Supports id j known) (entered_index id s) (entered_link id s)
                    (enter-Bounded id s bounded) (entered_High at id j s known higher) returned in
                let (t, closing, passes, low) = close-Passes id s s2 fresh bounded p in
                let same_end : t ≡ s' = ground (arith, returned, closing) in
                subst
                  (λ s'.
                    Passes s s' × ((n : ℕ) × (get id s'.low_link ≡ some n) × (s.next_index ≤ n)))
                  same_end (passes, low)
          ]

  connect_all-cycles :
      (fuel : ℕ) (es : List MutableEntry) (s s' : Search)
      → AllSupported at es
      → Bounded s
      → ((x : Bytes) → contains x s.on_stack ≡ false)
      → connect_all entries fuel es s ≡ some s'
      → s'.cycles ≡ s.cycles
  unfolding connect_all
  connect_all-cycles fuel [] s s' h bounded none_on e = ground arith
  connect_all-cycles fuel (e ∷ es) s s' (h, hs) bounded none_on returned =
      elim (Option-cases (get e.dump_id s.index_by_dump_id)) [
        | inr (n, entered) ↦
            let key = has_key-entered e.dump_id n s.index_by_dump_id entered in
            connect_all-cycles fuel es s s' hs bounded none_on (rw key at returned)
        | inl fresh ↦
            let key = has_key-fresh e.dump_id s.index_by_dump_id fresh in
            elim (Option-cases (strong_connect entries fuel e.dump_id s)) [
              | inl never ↦ absurd (ground (arith, key, never))
              | inr (s2, connected) ↦
                  let (p, link) =
                    strong_connect-Visits fuel e.dump_id e.keys s s2 h.known fresh bounded
                      (λ x on. absurd (cc (none_on x))) connected in
                  let later =
                    connect_all-cycles fuel es s2 s' hs (p.still_bounded bounded)
                      (λ x. not_on x s2 (λ on. cc (none_on x, p.no_more x on)))
                      (rw (key, connected) at returned) in
                  later ∙ p.same_cycles
            ]
      ]

-- When every hard dependency rests on an entry that depends on less, no cycle is found.
pub find_hard_cycles-nil :
    (at : Keys) (entries : List MutableEntry) (cycles : List (List Bytes))
    → AllSupported at entries
    → find_hard_cycles entries ≡ some cycles
    → cycles ≡ []
unfolding find_hard_cycles get contains any
find_hard_cycles-nil at entries cycles h e =
    let begun : Search = record {
      index_by_dump_id = [];
      low_link = [];
      on_stack = [];
      stack = [];
      cycles = [];
      next_index = 0;
    } in
    elim (Option-cases (connect_all entries (suc (length entries)) entries begun)) [
      | inl never ↦ absurd (ground (arith, never))
      | inr (s, returned) ↦
          let none_found =
            connect_all-cycles at entries h (suc (length entries)) entries begun s h (λ x n. cc)
              (λ x. refl) returned in
          ground (arith, returned, none_found)
    ]
