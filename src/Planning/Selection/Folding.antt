-- ===== src/Planning/Selection/Folding.antt =====
-- src/selection/normalize.ts: what a selection means, in terms of the names that the caller gave.
use dbgate_mysql_dumper.Base.{
  same, [], ◌∷◌, List, ◌≡◌, Bytes, refl, arith, Option, none, some, Bool, true, ◌&&◌, not, any, map,
}
use dbgate_mysql_dumper.Planning.Selection.{
  DumpSelection, to_set, excluded_set, fold_table, normalize_dump_selection, has, is_selected,
  is_table_selected, is_view_selected, is_routine_selected, is_trigger_selected, is_event_selected,
}

-- A name is among those given when it folds to what one of them folds to.
abbrev pub given : (Bytes → Bytes) → List Bytes → Bytes → Bool
given fold names name = any (λ x. same (fold name) (fold x)) names

-- No list admits every name; a list left out excludes none.
abbrev pub admitted : (Bytes → Bytes) → Option (List Bytes) → Option (List Bytes) → Bytes → Bool
admitted fold none none name = true
admitted fold (some names) none name = given fold names name
admitted fold none (some excluded) name = not (given fold excluded name)
admitted fold (some names) (some excluded) name =
    not (given fold excluded name) && given fold names name

has-map :
    (fold : Bytes → Bytes) (names : List Bytes) (name : Bytes)
    → has (map fold names) (fold name) ≡ given fold names name
unfolding has any
has-map fold [] name = refl
has-map fold (x ∷ xs) name = ground (arith, has-map fold xs name)

is_selected-admitted :
    (fold : Bytes → Bytes) (names excluded : Option (List Bytes)) (name : Bytes)
    → is_selected (fold name) (to_set names fold) (excluded_set excluded fold)
      ≡ admitted fold names excluded name
unfolding is_selected to_set excluded_set has any
is_selected-admitted fold none none name = refl
is_selected-admitted fold (some names) none name = ground (arith, has-map fold names name)
is_selected-admitted fold none (some excluded) name = ground (arith, has-map fold excluded name)
is_selected-admitted fold (some names) (some excluded) name =
    ground (arith, has-map fold names name, has-map fold excluded name)

module _ (to_lower_case : Bytes → Bytes) (selection : DumpSelection) (name : Bytes) where
  -- A selection that was normalized admits the objects that the caller's lists say: a table or view by
  -- its name or, on a server that folds them, by its lower case, and any other object by its lower case.
  pub normalize_dump_selection-admitted :
      (case_insensitive : Bool)
      → let normalized = normalize_dump_selection to_lower_case selection case_insensitive in
        let fold = fold_table to_lower_case case_insensitive in
        (is_table_selected to_lower_case name normalized
          ≡ admitted fold selection.tables selection.exclude_tables name)
        × (is_view_selected to_lower_case name normalized
            ≡ admitted fold selection.views selection.exclude_views name)
        × (is_routine_selected to_lower_case name normalized
            ≡ admitted to_lower_case selection.routines selection.exclude_routines name)
        × (is_trigger_selected to_lower_case name normalized
            ≡ admitted to_lower_case selection.triggers selection.exclude_triggers name)
        × (is_event_selected to_lower_case name normalized
            ≡ admitted to_lower_case selection.events selection.exclude_events name)
  unfolding normalize_dump_selection is_table_selected is_view_selected is_routine_selected
      is_trigger_selected is_event_selected
  normalize_dump_selection-admitted case_insensitive =
      let fold = fold_table to_lower_case case_insensitive in
      (
        is_selected-admitted fold selection.tables selection.exclude_tables name,
        is_selected-admitted fold selection.views selection.exclude_views name,
        is_selected-admitted to_lower_case selection.routines selection.exclude_routines name,
        is_selected-admitted to_lower_case selection.triggers selection.exclude_triggers name,
        is_selected-admitted to_lower_case selection.events selection.exclude_events name,
      )
