-- ===== src/Planning/Archive/Entered.antt =====
-- `findHardCycles` of src/archive/planner.ts ends, whatever the entries depend on.
use dbgate_mysql_dumper.Planning.Archive.Cycles.{delete}
use dbgate_mysql_dumper.Base.{
  same, ℕ, zero, suc, ◌≤◌, ◌<◌, [], ◌∷◌, ◌++◌, ◌==◌, List, ◌≡◌, Bytes, length, refl, sym, ap, ◌∙◌,
  subst, append_assoc, arith, Option, some, inl, inr, Bool-cases, Option-cases, true, false, ◌||◌,
  if◌then◌else◌,
}
use dbgate_mysql_dumper.Planning.Archive.Maps.{set, has_key}
use dbgate_mysql_dumper.Planning.Archive.Model.{ArchiveDependency, MutableEntry}
use dbgate_mysql_dumper.Planning.Archive.Plan.{is_hard}
use dbgate_mysql_dumper.Planning.Archive.Cycles.{
  by_dump_id, Popped, pop_until, close_with, Search, number_at, contains, enter, lower_link,
  close_component, follow, dependencies_of, strong_connect, connect_all, find_hard_cycles,
}
use dbgate_mysql_dumper.Planning.Archive.Supports.{same_refl, eq_of_same}
use dbgate_mysql_dumper.Planning.Archive.Lookups.{get-set}

abbrev Index : Type 0
Index = List (Bytes × ℕ)

-- What was entered stays entered.
abbrev Keeps : Index → Index → Type 0
Keeps m m' = (x : Bytes) → has_key x m ≡ true → has_key x m' ≡ true

-- The entries that no call has entered.
abbrev fresh : Index → List MutableEntry → ℕ
fresh m [] = 0
fresh m (e ∷ es) = if has_key e.dump_id m then fresh m es else suc (fresh m es)

fresh-Keeps : (m m' : Index) (es : List MutableEntry) → Keeps m m' → fresh m' es ≤ fresh m es
fresh-Keeps m m' [] k = omega arith
fresh-Keeps m m' (e ∷ es) k = ground (arith, k e.dump_id, fresh-Keeps m m' es k)

fresh-le-length : (m : Index) (es : List MutableEntry) → fresh m es ≤ length es
fresh-le-length m [] = omega arith
fresh-le-length m (e ∷ es) = ground (arith, fresh-le-length m es)

has_key-set : (k j : Bytes) (n : ℕ) (m : Index) → has_key k (set j n m) ≡ (same j k || has_key k m)
unfolding has_key
has_key-set k j n m = ground (arith, get-set k j n m)

set-Keeps : (id : Bytes) (n : ℕ) (m : Index) → Keeps m (set id n m)
set-Keeps id n m x h = ground (arith, has_key-set x id n m)

-- Entering an entry leaves fewer.
fresh-set :
    (id : Bytes) (n : ℕ) (m : Index) (e : MutableEntry) (es : List MutableEntry)
    → by_dump_id id es ≡ some e
    → has_key id m ≡ false
    → fresh (set id n m) es < fresh m es
unfolding by_dump_id
fresh-set id n m e [] found h = cc
fresh-set id n m e (x ∷ es) found h = elim (Option-cases (by_dump_id id es)) [
  | inr (later, there) ↦
      let less = fresh-set id n m later es there h in
      ground (arith, less, set-Keeps id n m x.dump_id)
  | inl absent ↦ elim (Bool-cases (same x.dump_id id)) [
    | inl is ↦
        let it = eq_of_same x.dump_id id is in
        let was = subst (λ y. has_key y m ≡ false) (sym it) h in
        let now = subst (λ y. same id y ≡ true) (sym it) (same_refl id) in
        ground (
          arith,
          has_key-set x.dump_id id n m,
          fresh-Keeps m (set id n m) es (set-Keeps id n m),
          now,
          was,
        )
    | inr other ↦ cc (rw (absent, other, by_dump_id) at found)
  ]
]

-- The one stack is the other with members on top.
abbrev Above : List Bytes → List Bytes → Type 0
Above xs ys = (zs : List Bytes) × (ys ≡ zs ++ xs)

Above-trans : (xs ys zs : List Bytes) → Above xs ys → Above ys zs → Above xs zs
Above-trans xs ys zs (us, e) (vs, k) =
    (vs ++ us, k ∙ (ap (λ t. vs ++ t) e ∙ sym (append_assoc vs us xs)))

-- An identifier that stands on the stack is popped, with all above it at most.
pop_until-Above :
    (id : Bytes) (above below on_stack : List Bytes)
    → (p : Popped) × (pop_until id (above ++ id ∷ below) on_stack ≡ some p) × Above below p.stack
unfolding pop_until
pop_until-Above id [] below on_stack =
    let p : Popped = record { members = id ∷ []; stack = below; on_stack = delete id on_stack } in
    (p, rw (same_refl id) refl, ([], refl))
pop_until-Above id (member ∷ above) below on_stack = elim (Bool-cases (same member id)) [
  | inl is ↦ (
    record {
      members = member ∷ [];
      stack = above ++ id ∷ below;
      on_stack = delete member on_stack;
    },
    rw is refl,
    (above ++ id ∷ [], sym (append_assoc above (id ∷ []) below)),
  )
  | inr other ↦
      let (p, popped, stands) = pop_until-Above id above below (delete member on_stack) in
      (record p { members = member ∷ p.members }, rw (other, popped) refl, stands)
]

-- A component is closed, however the stack has grown above its identifier.
close_component-Ends :
    (id : Bytes) (above below : List Bytes) (s : Search)
    → s.stack ≡ above ++ id ∷ below
    → (s' : Search) × (close_component id s ≡ some s')
      × (s'.index_by_dump_id ≡ s.index_by_dump_id)
      × Above below s'.stack
unfolding close_component close_with
close_component-Ends id above below s grown =
    let (p, popped, stands) = pop_until-Above id above below s.on_stack in
    let closing : pop_until id s.stack s.on_stack ≡ some p =
      ap (λ stack. pop_until id stack s.on_stack) grown ∙ popped in
    elim (Bool-cases (number_at id s.low_link == number_at id s.index_by_dump_id)) [
      | inl root ↦ (close_with s p, rw (root, closing) refl, refl, stands)
      | inr other ↦ (
        s,
        rw other refl,
        refl,
        (above ++ id ∷ [], grown ∙ sym (append_assoc above (id ∷ []) below)),
      )
    ]

abbrev Ends : List MutableEntry → Search → Option Search → Type 0
Ends entries s r =
    (s' : Search) × (r ≡ some s')
    × Keeps s.index_by_dump_id s'.index_by_dump_id
    × Above s.stack s'.stack

module _ (entries : List MutableEntry) where
  abbrev left : Search → ℕ
  left s = fresh s.index_by_dump_id entries

  follow-Ends :
      (connect : Bytes → Search → Option Search) (bound : ℕ)
      → ((target : Bytes) (e : MutableEntry) (s : Search)
          → by_dump_id target entries ≡ some e
          → has_key target s.index_by_dump_id ≡ false
          → left s ≤ bound
          → Ends entries s (connect target s))
      → (id : Bytes) (ds : List ArchiveDependency) (s : Search) → left s ≤ bound
      → Ends entries s (follow entries connect id ds s)
  unfolding follow
  follow-Ends connect bound ends id [] s h = (s, refl, (λ x k. k), ([], refl))
  follow-Ends connect bound ends id (d ∷ ds) s h =
      let target = d.target_dump_id in
      let skip = follow-Ends connect bound ends id ds s h in
      elim (Bool-cases (is_hard d.strength)) [
        | inr soft ↦ rw soft skip
        | inl is ↦ elim (Option-cases (by_dump_id target entries)) [
          | inl absent ↦ rw (is, absent) skip
          | inr (e, present) ↦ elim (Bool-cases (has_key target s.index_by_dump_id)) [
            | inr new ↦
                let (s1, returned, kept, grown) = ends target e s present new h in
                let s2 = lower_link id (number_at target s1.low_link) s1 in
                let fewer = fresh-Keeps s.index_by_dump_id s1.index_by_dump_id entries kept in
                let (s', r, kept', grown') =
                  follow-Ends connect bound ends id ds s2 (omega (arith, fewer)) in
                (
                  s',
                  rw (is, present, new, returned) r,
                  (λ x k. kept' x (kept x k)),
                  Above-trans s.stack s1.stack s'.stack grown grown',
                )
            | inl entered ↦ elim (Bool-cases (contains target s.on_stack)) [
              | inr closed ↦ rw (is, present, entered, closed) skip
              | inl open_yet ↦
                  let s2 = lower_link id (number_at target s.index_by_dump_id) s in
                  let (s', r, kept', grown) = follow-Ends connect bound ends id ds s2 h in
                  (s', rw (is, present, entered, open_yet) r, kept', grown)
            ]
          ]
        ]
      ]

  strong_connect-Ends :
      (fuel : ℕ) (id : Bytes) (e : MutableEntry) (s : Search)
      → by_dump_id id entries ≡ some e
      → has_key id s.index_by_dump_id ≡ false
      → left s < fuel
      → Ends entries s (strong_connect entries fuel id s)
  unfolding strong_connect enter
  strong_connect-Ends zero id e s found new h = absurd (omega arith)
  strong_connect-Ends (suc fuel) id e s found new h =
      let begun = enter id s in
      let less = fresh-set id s.next_index s.index_by_dump_id e entries found new in
      let (s', r, kept, (above, grown)) =
        follow-Ends (strong_connect entries fuel) (left begun)
          (λ target x t there unseen le.
            strong_connect-Ends fuel target x t there unseen (omega (arith, less, le)))
          id (dependencies_of id entries) begun (omega arith) in
      let (t, closing, index, stands) = close_component-Ends id above s.stack s' grown in
      let returned : strong_connect entries (suc fuel) id s ≡ some t = ground (arith, r, closing) in
      (
        t,
        returned,
        (λ x k.
            subst (λ m. has_key x m ≡ true) (sym index)
              (kept x (set-Keeps id s.next_index s.index_by_dump_id x k))),
        stands,
      )

  -- Each of the entries is found by its identifier.
  abbrev Found : List MutableEntry → Type 0
  Found [] = Unit
  Found (e ∷ es) = ((x : MutableEntry) × (by_dump_id e.dump_id entries ≡ some x)) × Found es

  connect_all-Ends :
      (fuel : ℕ) (es : List MutableEntry) (s : Search)
      → Found es
      → left s < fuel
      → Ends entries s (connect_all entries fuel es s)
  unfolding connect_all
  connect_all-Ends fuel [] s f h = (s, refl, (λ x k. k), ([], refl))
  connect_all-Ends fuel (e ∷ es) s ((x, found), fs) h =
      elim (Bool-cases (has_key e.dump_id s.index_by_dump_id)) [
        | inl entered ↦ rw entered (connect_all-Ends fuel es s fs h)
        | inr new ↦
            let (s1, returned, kept, grown) = strong_connect-Ends fuel e.dump_id x s found new h in
            let fewer = fresh-Keeps s.index_by_dump_id s1.index_by_dump_id entries kept in
            let (s', r, kept', grown') = connect_all-Ends fuel es s1 fs (omega (arith, fewer)) in
            (
              s',
              rw (new, returned) r,
              (λ y k. kept' y (kept y k)),
              Above-trans s.stack s1.stack s'.stack grown grown',
            )
      ]

Found-cons : (x : MutableEntry) (all es : List MutableEntry) → Found all es → Found (x ∷ all) es
unfolding by_dump_id
Found-cons x all [] h = tt
Found-cons x all (e ∷ es) ((y, found), hs) = ((y, rw found refl), Found-cons x all es hs)

by_dump_id-head :
    (e : MutableEntry) (es : List MutableEntry)
    → (x : MutableEntry) × (by_dump_id e.dump_id (e ∷ es) ≡ some x)
unfolding by_dump_id
by_dump_id-head e es = elim (Option-cases (by_dump_id e.dump_id es)) [
  | inr (later, there) ↦ (later, rw there refl)
  | inl absent ↦ (e, rw (absent, same_refl e.dump_id) refl)
]

Found-refl : (es : List MutableEntry) → Found es es
Found-refl [] = tt
Found-refl (e ∷ es) = (by_dump_id-head e es, Found-cons e es es (Found-refl es))

-- The search for cycles returns, whatever the entries and their dependencies: its fuel is enough, and
-- no component is popped from an empty stack.
pub find_hard_cycles-terminates :
    (entries : List MutableEntry)
    → (cycles : List (List Bytes)) × (find_hard_cycles entries ≡ some cycles)
unfolding find_hard_cycles
find_hard_cycles-terminates entries =
    let (s, returned, kept, grown) =
      connect_all-Ends entries (suc (length entries)) entries
        (record {
          index_by_dump_id = [];
          low_link = [];
          on_stack = [];
          stack = [];
          cycles = [];
          next_index = 0;
        })
        (Found-refl entries) (omega (arith, fresh-le-length [] entries)) in
    (s.cycles, rw returned refl)
