-- ===== src/Planning/Archive/Links.antt =====
-- A visit in `findHardCycles` of src/archive/planner.ts: what it passes on when its dependencies descend.
use dbgate_mysql_dumper.Base.{
  min, same, ℕ, ◌≤◌, ◌<◌, [], ◌∷◌, List, ◌≡◌, Bytes, refl, sym, ap, ◌∙◌, subst, arith, Option, none,
  some, inl, inr, Bool-cases, Option-cases, true, false,
}
use native.Mathlib.Nat.{min-eq_left}
use dbgate_mysql_dumper.Planning.Sections.{Entry}
use dbgate_mysql_dumper.Planning.Archive.Maps.{get, has_key}
use dbgate_mysql_dumper.Planning.Archive.Model.{ArchiveDependency, MutableEntry, or_default}
use dbgate_mysql_dumper.Planning.Archive.Plan.{is_hard}
use dbgate_mysql_dumper.Planning.Archive.Cycles.{
  by_dump_id, Search, number_at, contains, lower_link, follow,
}
use dbgate_mysql_dumper.Planning.Archive.Supports.{
  Keys, level, Supports, Supported, AllSupported, eq_of_same,
}
use dbgate_mysql_dumper.Planning.Archive.Lookups.{get-set}

-- The numbers given are below the next one.
abbrev pub Bounded : Search → Type 0
Bounded s = (x : Bytes) (n : ℕ) → get x s.index_by_dump_id ≡ some n → n < s.next_index

-- What a visit leaves as it was.
pub record Passes (s s' : Search) : Type 0 where
  pub same_stack : s'.stack ≡ s.stack
  pub no_more : (x : Bytes) → contains x s'.on_stack ≡ true → contains x s.on_stack ≡ true
  pub same_cycles : s'.cycles ≡ s.cycles
  pub same_index :
      (x : Bytes) (n : ℕ) → get x s.index_by_dump_id ≡ some n → get x s'.index_by_dump_id ≡ some n
  pub same_link :
      (x : Bytes) (n : ℕ) → get x s.index_by_dump_id ≡ some n → get x s'.low_link ≡ get x s.low_link
  pub still_bounded : Bounded s → Bounded s'
  pub grows : s.next_index ≤ s'.next_index

Passes-refl : (s : Search) → Passes s s
Passes-refl s = record {
  same_stack = refl;
  no_more = λ x h. h;
  same_cycles = refl;
  same_index = λ x n h. h;
  same_link = λ x n h. refl;
  still_bounded = λ h. h;
  grows = omega arith;
}

pub Passes-trans : (s t u : Search) → Passes s t → Passes t u → Passes s u
Passes-trans s t u f g = record {
  same_stack = g.same_stack ∙ f.same_stack;
  no_more = λ x h. f.no_more x (g.no_more x h);
  same_cycles = g.same_cycles ∙ f.same_cycles;
  same_index = λ x n h. g.same_index x n (f.same_index x n h);
  same_link = λ x n h. g.same_link x n (f.same_index x n h) ∙ f.same_link x n h;
  still_bounded = λ h. g.still_bounded (f.still_bounded h);
  grows = omega (arith, f.grows, g.grows);
}

pub by_dump_id-Supported :
    (at : Keys) (id : Bytes) (es : List MutableEntry) (e : MutableEntry)
    → AllSupported at es
    → by_dump_id id es ≡ some e
    → Supported at e × (e.dump_id ≡ id)
unfolding by_dump_id
by_dump_id-Supported at id [] e h found = cc
by_dump_id-Supported at id (x ∷ es) e (h, hs) found = elim (Option-cases (by_dump_id id es)) [
  | inr (later, there) ↦
      let it : later ≡ e = ground arith in by_dump_id-Supported at id es e hs (there ∙ ap some it)
  | inl absent ↦ elim (Bool-cases (same x.dump_id id)) [
    | inl is ↦
        let it : x ≡ e = ground arith in
        (
          subst (Supported at) it h,
          ap (λ (y : MutableEntry). y.dump_id) (sym it) ∙ eq_of_same x.dump_id id is,
        )
    | inr other ↦ cc (rw (absent, other, by_dump_id) at found)
  ]
]

pub number_at-get :
    (id : Bytes) (n : ℕ) (m : List (Bytes × ℕ)) → get id m ≡ some n → number_at id m ≡ n
unfolding number_at
number_at-get id n m h = rw h refl

pub has_key-entered :
    (id : Bytes) (n : ℕ) (m : List (Bytes × ℕ)) → get id m ≡ some n → has_key id m ≡ true
unfolding has_key
has_key-entered id n m h = rw (h, has_key) refl

pub has_key-fresh : (id : Bytes) (m : List (Bytes × ℕ)) → get id m ≡ none → has_key id m ≡ false
unfolding has_key
has_key-fresh id m h = rw (h, has_key) refl

module _ (at : Keys) where
  -- Whatever is on the stack depends on more than an entry with the keys, or on as much.
  abbrev pub High : Entry → Search → Type 0
  High k s =
      (x : Bytes)
      → contains x s.on_stack ≡ true
      → (j : Entry) × (at x ≡ some j) × (level k.object_type ≤ level j.object_type)

  abbrev pub Higher : Entry → Search → Type 0
  Higher k s =
      (x : Bytes)
      → contains x s.on_stack ≡ true
      → (j : Entry) × (at x ≡ some j) × (level k.object_type < level j.object_type)

  -- What a call on an entry that was not entered gives, when it returns.
  abbrev pub Visits : (Bytes → Search → Option Search) → Type 0
  Visits connect =
      (id : Bytes) (j : Entry) (s s' : Search)
      → at id ≡ some j
      → get id s.index_by_dump_id ≡ none
      → Bounded s
      → Higher j s
      → connect id s ≡ some s'
      → Passes s s' × ((n : ℕ) × (get id s'.low_link ≡ some n) × (s.next_index ≤ n))

  -- The lowest link of an entry stays its own number.
  lower_link-Passes :
      (id : Bytes) (i n : ℕ) (s : Search)
      → get id s.low_link ≡ some i
      → i ≤ n
      → Passes s (lower_link id n s)
  unfolding lower_link number_at
  lower_link-Passes id i n s link le = record {
    same_stack = refl;
    no_more = λ x h. h;
    same_cycles = refl;
    same_index = λ x m h. h;
    same_link = λ x m h. elim (Bool-cases (same id x)) [
      | inl is ↦
          let it = eq_of_same id x is in
          let lowest : min (or_default (get id s.low_link) 0) n ≡ i = rw link (min-eq_left le) in
          get-set x id _ s.low_link ∙ rw is (rw lowest (sym link ∙ ap (λ y. get y s.low_link) it))
      | inr other ↦ get-set x id _ s.low_link ∙ rw other refl
    ];
    still_bounded = λ h. h;
    grows = omega arith;
  }

  module _ (entries : List MutableEntry) (supported : AllSupported at entries)
      (connect : Bytes → Search → Option Search) (k : Entry) (visits : Visits connect) where
    pub follow-Passes :
        (id : Bytes) (i : ℕ) (ds : List ArchiveDependency) (s s' : Search)
        → Supports at k ds
        → get id s.index_by_dump_id ≡ some i
        → get id s.low_link ≡ some i
        → Bounded s
        → High k s
        → follow entries connect id ds s ≡ some s'
        → Passes s s'
    unfolding follow
    follow-Passes id i [] s s' h index link bounded high e = subst (Passes s) (cc) (Passes-refl s)
    follow-Passes id i (d ∷ ds) s s' (rests, h) index link bounded high e =
        let target = d.target_dump_id in
        elim (Bool-cases (is_hard d.strength)) [
          | inr soft ↦ follow-Passes id i ds s s' h index link bounded high (rw soft at e)
          | inl is ↦ elim (Option-cases (by_dump_id target entries)) [
            | inl absent ↦
                follow-Passes id i ds s s' h index link bounded high (rw (is, absent) at e)
            | inr (x, present) ↦
                let (j, known, before) = rests is in
                elim (Option-cases (get target s.index_by_dump_id)) [
                  | inr (m, entered) ↦ elim (Bool-cases (contains target s.on_stack)) [
                    | inr closed ↦ follow-Passes id i ds s s' h index link bounded high (
                        rw
                          (is, present, has_key-entered target m s.index_by_dump_id entered, closed)
                          at e)
                    | inl open_yet ↦
                        let (j', known', le) = high target open_yet in
                        let same_keys : j' ≡ j = cc in
                        absurd (
                          omega (
                            arith,
                            before.depth,
                            le,
                            ap (λ (y : Entry). level y.object_type) same_keys,
                          ))
                  ]
                  | inl fresh ↦ elim (Option-cases (connect target s)) [
                    | inl never ↦ absurd (ground (arith, rw (is, present, fresh, never) at e))
                    | inr (s1, returned) ↦
                        let fresh_key : has_key target s.index_by_dump_id ≡ false =
                          has_key-fresh target s.index_by_dump_id fresh in
                        let (passed, (n, low, le)) =
                          visits target j s s1 known fresh bounded
                            (λ x c.
                              let (y, y_at, y_le) = high x c in
                              (y, y_at, omega (arith, before.depth, y_le)))
                            returned in
                        let found = number_at-get target n s1.low_link low in
                        let s2 = lower_link id (number_at target s1.low_link) s1 in
                        let lowered =
                          lower_link-Passes id i (number_at target s1.low_link) s1
                            (passed.same_link id i index ∙ link)
                            (omega (arith, found, le, bounded id i index)) in
                        let p = Passes-trans s s1 s2 passed lowered in
                        Passes-trans s s2 s' p (
                          follow-Passes id i ds s2 s' h (p.same_index id i index)
                            (p.same_link id i index ∙ link) (p.still_bounded bounded)
                            (λ x c. high x (p.no_more x c))
                            (rw (is, present, fresh_key, returned) at e))
                  ]
                ]
          ]
        ]
