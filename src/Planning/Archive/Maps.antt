-- ===== src/Planning/Archive/Maps.antt =====
-- The `Map` of the source, as its entries in the order of insertion, and `Array.prototype.sort`, which
-- is stable.
use dbgate_mysql_dumper.Base.{
  same, [], ◌∷◌, List, Bytes, Option, none, some, Bool, true, false, if◌then◌else◌,
}
use dbgate_mysql_dumper.Planning.Sections.{Sign, positive}

module _ {ℓ} {V : Type ℓ} where
  unfoldable pub get : Bytes → List (Bytes × V) → Option V
  get k [] = none
  get k ((j, v) ∷ m) = if same j k then some v else get k m

  -- A key that is there keeps its place.
  unfoldable pub set : Bytes → V → List (Bytes × V) → List (Bytes × V)
  set k v [] = (k, v) ∷ []
  set k v ((j, w) ∷ m) = if same j k then (j, v) ∷ m else (j, w) ∷ set k v m

  unfoldable pub has_key : Bytes → List (Bytes × V) → Bool
  unfolding get
  has_key k m = elim (get k m) [ none ↦ false | some _ ↦ true ]

  unfoldable pub values : List (Bytes × V) → List V
  values [] = []
  values ((j, v) ∷ m) = v ∷ values m

abbrev pub is_positive : Sign → Bool
is_positive positive = true
is_positive _ = false

module _ {ℓ} {A : Type ℓ} where
  -- Before the first element that is not smaller, so that equal elements keep their order.
  unfoldable pub insert : (A → A → Sign) → A → List A → List A
  insert compare x [] = x ∷ []
  insert compare x (y ∷ ys) =
      if is_positive (compare x y) then y ∷ insert compare x ys else x ∷ y ∷ ys

  unfoldable pub sort : (A → A → Sign) → List A → List A
  unfolding insert
  sort compare [] = []
  sort compare (x ∷ xs) = insert compare x (sort compare xs)

  unfoldable pub filter : (A → Bool) → List A → List A
  filter p [] = []
  filter p (x ∷ xs) = if p x then x ∷ filter p xs else filter p xs
