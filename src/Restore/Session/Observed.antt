-- ===== src/Restore/Session/Observed.antt =====
-- src/restore/sessionState.ts: which codes `observe` records.
use dbgate_mysql_dumper.Base.{
  [], ◌∷◌, ◌++◌, List, ◌≡◌, Bytes, refl, sym, ap, ◌∙◌, arith, inl, inr, Bool-cases, Bool, true,
  false, ◌&&◌, ◌||◌, not, any, ◌==◌, ==_iff,
}
use dbgate_mysql_dumper.Text.Regex.{test}
use dbgate_mysql_dumper.Restore.Session.{
  GuardCode, same_code, number, Guard, Restored, has_code, add_code, delete_code, detect_guards,
  detect_restored,
}

-- Some guard of the code matches the statement.
abbrev pub changes : Bytes → GuardCode → List Guard → Bool
changes sql code [] = false
changes sql code (g ∷ gs) =
    same_code code g.code && any (λ p. test p sql) g.detect || changes sql code gs

-- Some pattern by which the code is put back matches the statement.
abbrev pub puts_back : Bytes → GuardCode → List Restored → Bool
puts_back sql code [] = false
puts_back sql code (r ∷ rs) = same_code code r.code && test r.detect sql || puts_back sql code rs

has_code-same :
    (c d : GuardCode) (changed : List GuardCode)
    → same_code c d ≡ true
    → has_code c changed ≡ has_code d changed
unfolding has_code
has_code-same c d changed e =
    ap (λ n. any (λ x. n == number x) changed) ((==_iff (number c) (number d)).0 e)

has_code-last :
    (c d : GuardCode) (changed : List GuardCode)
    → has_code c (changed ++ d ∷ []) ≡ (has_code c changed || same_code c d)
unfolding has_code any
has_code-last c d [] = ground arith
has_code-last c d (x ∷ xs) = ground (arith, has_code-last c d xs)

pub has_code-add_code :
    (c d : GuardCode) (changed : List GuardCode)
    → has_code c (add_code d changed) ≡ (has_code c changed || same_code c d)
unfolding add_code
has_code-add_code c d changed = elim (Bool-cases (has_code d changed)) [
  | inl has ↦ rw has (elim (Bool-cases (same_code c d)) [
    | inl e ↦ rw (e, has_code-same c d changed e, has) refl
    | inr e ↦ ground (arith, e)
  ])
  | inr misses ↦ rw misses (has_code-last c d changed)
]

-- The two steps of `delete_code` on Boolean values.
deleted_step : (a h p q : Bool) → a ≡ (h && not p) → q ≡ p → a ≡ ((q || h) && not p)
deleted_step a h p q e k = ground (arith, e, k)

kept_step : (a h p q : Bool) → a ≡ (h && not p) → (q && p) ≡ false → (q || a) ≡ ((q || h) && not p)
kept_step a h p q e apart = ground (arith, e, apart)

same_code-apart :
    (c d x : GuardCode) → same_code d x ≡ false → (same_code c x && same_code c d) ≡ false
same_code-apart c d x e = elim (Bool-cases (same_code c x)) [
  | inr differs ↦ rw differs refl
  | inl same_x ↦
      let swapped : same_code c d ≡ false = elim (Bool-cases (same_code c d)) [
        | inr differs ↦ differs
        | inl same_d ↦ ground (
          arith,
          e,
          (==_iff (number d) (number x)).1,
          (==_iff (number c) (number x)).0 same_x,
          (==_iff (number c) (number d)).0 same_d,
        )
      ] in
      rw (same_x, swapped) refl
]

has_code-nil : (c : GuardCode) → has_code c [] ≡ false
unfolding has_code any
has_code-nil c = refl

has_code-cons :
    (c x : GuardCode) (changed : List GuardCode)
    → has_code c (x ∷ changed) ≡ (same_code c x || has_code c changed)
unfolding has_code any
has_code-cons c x changed = ground arith

pub has_code-delete_code :
    (c d : GuardCode) (changed : List GuardCode)
    → has_code c (delete_code d changed) ≡ (has_code c changed && not (same_code c d))
unfolding delete_code
has_code-delete_code c d [] = rw (has_code-nil c) refl
has_code-delete_code c d (x ∷ xs) = elim (Bool-cases (same_code d x)) [
  | inl e ↦
      let same_x : same_code c x ≡ same_code c d =
        ap (λ n. number c == n) (sym ((==_iff (number d) (number x)).0 e)) in
      rw (e, has_code-cons c x xs)
        (deleted_step (has_code c (delete_code d xs)) (has_code c xs) (same_code c d)
          (same_code c x) (has_code-delete_code c d xs) same_x)
  | inr e ↦
      rw (e, has_code-cons c x (delete_code d xs), has_code-cons c x xs)
        (kept_step (has_code c (delete_code d xs)) (has_code c xs) (same_code c d) (same_code c x)
          (has_code-delete_code c d xs) (same_code-apart c d x e))
]

added_step : (h p r : Bool) → ((h || p) || r) ≡ (h || (p && true || r))
added_step h p r = ground arith

removed_step : (h p r : Bool) → ((h && not p) && not r) ≡ (h && not (p && true || r))
removed_step h p r = ground arith

skipped_step : (p r : Bool) → r ≡ (p && false || r)
skipped_step p r = ground arith

pub detect_guards-has_code :
    (sql : Bytes) (c : GuardCode) (gs : List Guard) (changed : List GuardCode)
    → has_code c (detect_guards sql gs changed) ≡ (has_code c changed || changes sql c gs)
unfolding detect_guards
detect_guards-has_code sql c [] changed = ground arith
detect_guards-has_code sql c (g ∷ gs) changed = elim (Bool-cases (any (λ p. test p sql) g.detect)) [
  | inl e ↦ rw e (
      detect_guards-has_code sql c gs (add_code g.code changed)
      ∙ rw (has_code-add_code c g.code changed)
          (added_step (has_code c changed) (same_code c g.code) (changes sql c gs)))
  | inr e ↦ rw e (
      detect_guards-has_code sql c gs changed
      ∙ ap (λ b. has_code c changed || b) (skipped_step (same_code c g.code) (changes sql c gs)))
]

pub detect_restored-has_code :
    (sql : Bytes) (c : GuardCode) (rs : List Restored) (changed : List GuardCode)
    → has_code c (detect_restored sql rs changed) ≡ (has_code c changed && not (puts_back sql c rs))
unfolding detect_restored
detect_restored-has_code sql c [] changed = ground arith
detect_restored-has_code sql c (r ∷ rs) changed = elim (Bool-cases (test r.detect sql)) [
  | inl e ↦ rw e (
      detect_restored-has_code sql c rs (delete_code r.code changed)
      ∙ rw (has_code-delete_code c r.code changed)
          (removed_step (has_code c changed) (same_code c r.code) (puts_back sql c rs)))
  | inr e ↦ rw e (
      detect_restored-has_code sql c rs changed
      ∙ ap (λ b. has_code c changed && not b)
          (skipped_step (same_code c r.code) (puts_back sql c rs)))
]
