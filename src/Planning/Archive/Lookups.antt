-- ===== src/Planning/Archive/Lookups.antt =====
-- Laws of the maps and sets of src/archive/planner.ts.
use dbgate_mysql_dumper.Base.{
  same, [], ◌∷◌, List, ◌≡◌, Bytes, refl, sym, ◌∙◌, arith, some, inl, inr, Bool-cases, true, false,
  ◌||◌, any, if◌then◌else◌,
}
use dbgate_mysql_dumper.Planning.Archive.Maps.{get, set}
use dbgate_mysql_dumper.Planning.Archive.Cycles.{contains, delete}
use dbgate_mysql_dumper.Planning.Archive.Supports.{same_refl, eq_of_same}

pub same_comm : (x y : Bytes) → same x y ≡ same y x
unfolding same
same_comm [] [] = refl
same_comm [] (y ∷ ys) = refl
same_comm (x ∷ xs) [] = refl
same_comm (x ∷ xs) (y ∷ ys) = ground (arith, same_comm xs ys)

differ : (i j k : Bytes) → same i j ≡ false → same i k ≡ true → same j k ≡ false
differ i j k other is = rw (sym (eq_of_same i k is)) (same_comm j i ∙ other)

module _ {ℓ} {V : Type ℓ} where
  pub get-set :
      (k j : Bytes) (v : V) (m : List (Bytes × V))
      → get k (set j v m) ≡ (if same j k then some v else get k m)
  unfolding get set
  get-set k j v [] = refl
  get-set k j v ((i, w) ∷ m) = elim (Bool-cases (same i j)) [
    | inl is ↦ let i_is : i ≡ j = eq_of_same i j is in rw i_is (ground (arith, same_refl j))
    | inr other ↦
        let later = get-set k j v m in
        elim (Bool-cases (same i k)) [
          | inl is_k ↦ let differs : same j k ≡ false = differ i j k other is_k in ground arith
          | inr not_k ↦ ground (arith, later)
        ]
  ]

pub contains-cons :
    (x id : Bytes) (ids : List Bytes) → contains x (id ∷ ids) ≡ (same id x || contains x ids)
unfolding contains any
contains-cons x id ids = ground arith

-- What is left in a set from which an element is deleted.
pub contains-delete :
    (x id : Bytes) (ids : List Bytes)
    → contains x (delete id ids) ≡ true
    → (contains x ids ≡ true) × (same id x ≡ false)
unfolding contains delete any
contains-delete x id [] h = cc
contains-delete x id (y ∷ ys) h = elim (Bool-cases (same y id)) [
  | inl is ↦
      let (there, other) = contains-delete x id ys (rw (is, delete) at h) in (ground arith, other)
  | inr kept ↦ elim (Bool-cases (same y x)) [
    | inl is ↦ (ground arith, same_comm id x ∙ (rw (sym (eq_of_same y x is)) kept))
    | inr not_it ↦
        let (there, other) = contains-delete x id ys (ground arith) in (ground arith, other)
  ]
]
