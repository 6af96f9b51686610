-- ===== src/Planning/Archive/Cycles.antt =====
-- `findHardCycles` of src/archive/planner.ts: Tarjan's strongly connected components.
use dbgate_mysql_dumper.Base.{
  same, min, ℕ, zero, suc, ◌+◌, [], ◌∷◌, ◌++◌, List, Bytes, length, Option, none, some, Bool, true,
  false, ◌||◌, not, any, ltb, ◌==◌, if◌then◌else◌, ◌>>=◌,
}
use dbgate_mysql_dumper.Planning.Sections.{by_codepoint}
use dbgate_mysql_dumper.Planning.Archive.Maps.{get, set, has_key, sort}
use dbgate_mysql_dumper.Planning.Archive.Model.{ArchiveDependency, MutableEntry, or_default}
use dbgate_mysql_dumper.Planning.Archive.Plan.{is_hard}

-- The variables of `findHardCycles`; the top of `stack` stands first.
pub record Search : Type 0 where
  pub index_by_dump_id : List (Bytes × ℕ)
  pub low_link : List (Bytes × ℕ)
  pub on_stack : List Bytes
  pub stack : List Bytes
  pub cycles : List (List Bytes)
  pub next_index : ℕ

-- `map.get(id) as number`, of a map that has the identifier by then.
unfoldable pub number_at : Bytes → List (Bytes × ℕ) → ℕ
unfolding get
number_at id m = or_default (get id m) 0

unfoldable pub contains : Bytes → List Bytes → Bool
contains id ids = any (λ x. same x id) ids

-- `onStack.delete(id)`
unfoldable pub delete : Bytes → List Bytes → List Bytes
delete id [] = []
delete id (x ∷ xs) = if same x id then delete id xs else x ∷ delete id xs

unfoldable pub enter : Bytes → Search → Search
unfolding set
enter id s = record {
  index_by_dump_id = set id s.next_index s.index_by_dump_id;
  low_link = set id s.next_index s.low_link;
  on_stack = id ∷ s.on_stack;
  stack = id ∷ s.stack;
  cycles = s.cycles;
  next_index = s.next_index + 1;
}

unfoldable pub lower_link : Bytes → ℕ → Search → Search
unfolding set number_at
lower_link id n s = record s { low_link = set id (min (number_at id s.low_link) n) s.low_link }

-- `byDumpId.get(id)`: of entries with one identifier the last is in the map.
unfoldable pub by_dump_id : Bytes → List MutableEntry → Option MutableEntry
by_dump_id id [] = none
by_dump_id id (e ∷ es) = elim (by_dump_id id es) [
  | some later ↦ some later
  | none ↦ if same e.dump_id id then some e else none
]

-- The members that are popped, up to `id`, and what is left of the stack and of the set.
pub record Popped : Type 0 where
  pub members : List Bytes
  pub stack : List Bytes
  pub on_stack : List Bytes

abbrev pub popped_above : Bytes → Popped → Option Popped
popped_above member p = some (record p { members = member ∷ p.members })

-- `none` is a loop that does not end: on an empty stack `pop` goes on for ever with no member.
unfoldable pub pop_until : Bytes → List Bytes → List Bytes → Option Popped
unfolding delete
pop_until id [] on_stack = none
pop_until id (member ∷ stack) on_stack =
    let deeper = pop_until id stack (delete member on_stack) >>= popped_above member in
    if same member id
    then some (record { members = member ∷ []; stack = stack; on_stack = delete member on_stack })
    else deeper

unfoldable pub close_with : Search → Popped → Search
unfolding sort by_codepoint
close_with s p = record s {
  stack = p.stack;
  on_stack = p.on_stack;
  cycles =
      if ltb 1 (length p.members) then s.cycles ++ sort by_codepoint p.members ∷ [] else s.cycles;
}

unfoldable pub close_component : Bytes → Search → Option Search
unfolding number_at pop_until close_with
close_component id s =
    let closed = pop_until id s.stack s.on_stack >>= λ p. some (close_with s p) in
    if number_at id s.low_link == number_at id s.index_by_dump_id then closed else some s

-- The loop over the dependencies of `id`; `connect` is the recursive call.
unfoldable pub follow :
    List MutableEntry
    → (Bytes → Search → Option Search)
    → Bytes
    → List ArchiveDependency
    → Search
    → Option Search
unfolding by_dump_id is_hard has_key contains lower_link number_at
follow entries connect id [] s = some s
follow entries connect id (d ∷ ds) s =
    let target = d.target_dump_id in
    let visited = connect target s >>= λ s'.
    follow entries connect id ds (lower_link id (number_at target s'.low_link) s') in
    let skipped = follow entries connect id ds s in
    let met =
      follow entries connect id ds (lower_link id (number_at target s.index_by_dump_id) s) in
    if not (is_hard d.strength) || elim (by_dump_id target entries) [ none ↦ true | some _ ↦ false ]
    then skipped
    else if not (has_key target s.index_by_dump_id)
    then visited
    else if contains target s.on_stack
    then met
    else skipped

unfoldable pub dependencies_of : Bytes → List MutableEntry → List ArchiveDependency
unfolding by_dump_id
dependencies_of id entries = elim (by_dump_id id entries) [ none ↦ [] | some e ↦ e.depends_on ]

-- On fuel, a bound of the depth of the calls; `none` when it runs out or a loop does not end.
unfoldable pub strong_connect : List MutableEntry → ℕ → Bytes → Search → Option Search
unfolding enter follow dependencies_of close_component
strong_connect entries zero id s = none
strong_connect entries (suc fuel) id s =
    follow entries (strong_connect entries fuel) id (dependencies_of id entries) (enter id s)
    >>= close_component id

unfoldable pub connect_all : List MutableEntry → ℕ → List MutableEntry → Search → Option Search
unfolding has_key strong_connect
connect_all entries fuel [] s = some s
connect_all entries fuel (e ∷ es) s =
    let connected = strong_connect entries fuel e.dump_id s >>= connect_all entries fuel es in
    let skipped = connect_all entries fuel es s in
    if has_key e.dump_id s.index_by_dump_id then skipped else connected

-- A call enters an entry that no call has entered, so the entries bound the depth.
unfoldable pub find_hard_cycles : List MutableEntry → Option (List (List Bytes))
unfolding connect_all
find_hard_cycles entries =
    connect_all entries (suc (length entries)) entries (record {
      index_by_dump_id = [];
      low_link = [];
      on_stack = [];
      stack = [];
      cycles = [];
      next_index = 0;
    })
    >>= λ s. some s.cycles
