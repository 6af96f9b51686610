-- ===== src/Planning/Sections/Order.antt =====
-- src/archive/planner.ts: `compareEntries` orders the entries.
use mathlib.Core.Path.{fun_ext}
use dbgate_mysql_dumper.Base.{
  ℕ, ◌<◌, [], ◌∷◌, ◌≡◌, Bytes, refl, sym, subst, arith, Option, none, some, false,
}
use dbgate_mysql_dumper.Planning.Sections.{
  ArchiveObjectType, table, table_data, trigger, assign_dump_section, dump_section_priority,
  main_group_priority, routine_kind_priority, Entry, Sign, negative, zero_sign, positive, delta,
  by_codepoint, or_else, is_routines, compare_in_section, compare_entries,
}

abbrev pub opposite : Sign → Sign
opposite negative = positive
opposite zero_sign = zero_sign
opposite positive = negative

-- What two comparisons in a row say of the ends.
abbrev pub Composes : Sign → Sign → Sign → Type 0
Composes zero_sign s t = t ≡ s
Composes negative zero_sign t = t ≡ negative
Composes negative negative t = t ≡ negative
Composes negative positive t = Unit
Composes positive zero_sign t = t ≡ positive
Composes positive positive t = t ≡ positive
Composes positive negative t = Unit

-- A comparison that `Array.sort` may be given: swapping the arguments turns the sign, and it is
-- transitive, on equal elements too.
pub record IsOrder {ℓ} {A : Type ℓ} (f : A → A → Sign) : Type ℓ where
  pub flips : (a b : A) → f b a ≡ opposite (f a b)
  pub composes : (a b c : A) → Composes (f a b) (f b c) (f a c)

delta-IsOrder : IsOrder delta
unfolding delta
delta-IsOrder = record { flips = λ a b. ground arith; composes = λ a b c. ground arith }

by_codepoint-flips : (a b : Bytes) → by_codepoint b a ≡ opposite (by_codepoint a b)
unfolding by_codepoint
by_codepoint-flips [] [] = refl
by_codepoint-flips [] (y ∷ ys) = refl
by_codepoint-flips (x ∷ xs) [] = refl
by_codepoint-flips (x ∷ xs) (y ∷ ys) = ground (arith, by_codepoint-flips xs ys)

by_codepoint-Composes :
    (a b c : Bytes) → Composes (by_codepoint a b) (by_codepoint b c) (by_codepoint a c)
unfolding by_codepoint
by_codepoint-Composes [] [] c = refl
by_codepoint-Composes [] (y ∷ ys) [] = tt
by_codepoint-Composes [] (y ∷ ys) (z ∷ zs) = ground arith
by_codepoint-Composes (x ∷ xs) [] [] = refl
by_codepoint-Composes (x ∷ xs) [] (z ∷ zs) = tt
by_codepoint-Composes (x ∷ xs) (y ∷ ys) [] = ground arith
by_codepoint-Composes (x ∷ xs) (y ∷ ys) (z ∷ zs) = ground (arith, by_codepoint-Composes xs ys zs)

by_codepoint-IsOrder : IsOrder by_codepoint
by_codepoint-IsOrder = record { flips = by_codepoint-flips; composes = by_codepoint-Composes }

-- Comparing by one order, then by another, each of a key, is an order.
or_else-flips : (s t : Sign) → or_else (opposite s) (opposite t) ≡ opposite (or_else s t)
or_else-flips negative t = refl
or_else-flips zero_sign t = refl
or_else-flips positive t = refl

or_else-Composes :
    (r s t r' s' t' : Sign)
    → Composes r s t
    → Composes r' s' t'
    → Composes (or_else r r') (or_else s s') (or_else t t')
or_else-Composes negative negative t r' s' t' h k = ground arith
or_else-Composes negative zero_sign t r' s' t' h k = ground arith
or_else-Composes negative positive t r' s' t' h k = tt
or_else-Composes zero_sign negative t r' s' t' h k = ground arith
or_else-Composes zero_sign zero_sign t r' s' t' h k = ground arith
or_else-Composes zero_sign positive t r' s' t' h k = ground arith
or_else-Composes positive negative t r' s' t' h k = tt
or_else-Composes positive zero_sign t r' s' t' h k = ground arith
or_else-Composes positive positive t r' s' t' h k = ground arith

-- One comparison after another.
abbrev lexicographic {ℓ} : {A : Type ℓ} → (A → A → Sign) → (A → A → Sign) → A → A → Sign
lexicographic f g a b = or_else (f a b) (g a b)

lexicographic-IsOrder {ℓ} :
    {A : Type ℓ} (f g : A → A → Sign) → IsOrder f → IsOrder g → IsOrder (lexicographic f g)
lexicographic-IsOrder f g h k = record {
  flips = λ a b. rw (h.flips a b) (rw (k.flips a b) (or_else-flips (f a b) (g a b)));
  composes = λ a b c.
      or_else-Composes (f a b) (f b c) (f a c) (g a b) (g b c) (g a c) (h.composes a b c)
        (k.composes a b c);
}

-- Comparing a key.
abbrev on_key {ℓ κ} : {A : Type ℓ} {K : Type κ} → (K → K → Sign) → (A → K) → A → A → Sign
on_key f key a b = f (key a) (key b)

on_key-IsOrder {ℓ κ} :
    {A : Type ℓ} {K : Type κ} (f : K → K → Sign) (key : A → K) → IsOrder f → IsOrder (on_key f key)
on_key-IsOrder f key h = record {
  flips = λ a b. h.flips (key a) (key b);
  composes = λ a b c. h.composes (key a) (key b) (key c);
}

abbrev section_of : Entry → ℕ
section_of e = dump_section_priority (assign_dump_section e.object_type)

abbrev kind_of : Entry → ℕ
kind_of e = routine_kind_priority e.object_type

abbrev group_place : Entry → ℕ
group_place e = main_group_priority e.object_type

-- The keys of an entry, the first one first.
abbrev by_keys : Entry → Entry → Sign
by_keys = lexicographic (on_key delta section_of) (
    lexicographic (on_key delta kind_of) (
      lexicographic (on_key by_codepoint (λ (e : Entry). e.group_key)) (
        lexicographic (on_key delta group_place) (
          lexicographic (on_key by_codepoint (λ (e : Entry). e.secondary_key))
            (on_key by_codepoint (λ (e : Entry). e.name))))))

by_keys-IsOrder : IsOrder by_keys
by_keys-IsOrder = lexicographic-IsOrder _ _ (on_key-IsOrder delta section_of delta-IsOrder) (
    lexicographic-IsOrder _ _ (on_key-IsOrder delta kind_of delta-IsOrder) (
      lexicographic-IsOrder _ _
        (on_key-IsOrder by_codepoint (λ (e : Entry). e.group_key) by_codepoint-IsOrder)
        (lexicographic-IsOrder _ _ (on_key-IsOrder delta group_place delta-IsOrder) (
          lexicographic-IsOrder _ _
            (on_key-IsOrder by_codepoint (λ (e : Entry). e.secondary_key) by_codepoint-IsOrder)
            (on_key-IsOrder by_codepoint (λ (e : Entry). e.name) by_codepoint-IsOrder)))))

-- The kinds differ between two entries of one section only when that section is the routines.
kind-section :
    (a b : ArchiveObjectType)
    → delta
        (dump_section_priority (assign_dump_section a))
        (dump_section_priority (assign_dump_section b))
      ≡ zero_sign
    → is_routines (assign_dump_section a) ≡ false
    → delta (routine_kind_priority a) (routine_kind_priority b) ≡ zero_sign
unfolding delta dump_section_priority assign_dump_section is_routines routine_kind_priority
kind-section a b h k = ground arith

compare_entries-by_keys : (a b : Entry) → compare_entries a b ≡ by_keys a b
unfolding compare_entries compare_in_section
compare_entries-by_keys a b = ground (arith, kind-section a.object_type b.object_type)

-- `compareEntries` is an order: it may be given to `Array.sort`, and the outcome does not depend on the
-- sorting algorithm but for entries that agree in every key.
pub compare_entries-IsOrder : IsOrder compare_entries
compare_entries-IsOrder =
    subst IsOrder (sym (fun_ext (λ a. fun_ext (λ b. compare_entries-by_keys a b)))) by_keys-IsOrder

by_codepoint_refl : (a : Bytes) → by_codepoint a a ≡ zero_sign
unfolding by_codepoint
by_codepoint_refl [] = refl
by_codepoint_refl (x ∷ xs) = ground (arith, by_codepoint_refl xs)

-- In the main section a table stands before its data, and the data before the table's triggers.
abbrev pub place : ArchiveObjectType → Option ℕ
place table = some 0
place table_data = some 1
place trigger = some 2
place _ = none

-- Of two entries of one table, the structure stands before the data and the data before a trigger,
-- whatever their names.
pub compare_entries-place :
    (a b : Entry) (i j : ℕ)
    → a.group_key ≡ b.group_key
    → place a.object_type ≡ some i
    → place b.object_type ≡ some j
    → i < j
    → compare_entries a b ≡ negative
unfolding compare_entries compare_in_section delta dump_section_priority assign_dump_section
    main_group_priority is_routines
compare_entries-place a b i j h p q l = ground (arith, by_codepoint_refl b.group_key)
