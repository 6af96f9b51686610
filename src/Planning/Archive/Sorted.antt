-- ===== src/Planning/Archive/Sorted.antt =====
-- `Array.prototype.sort` with a comparison that is an order.
use dbgate_mysql_dumper.Base.{
  get_elem?, ℕ, zero, suc, ◌<◌, [], ◌∷◌, List, ◌≡◌, subst, arith, some, inl, inr, Bool-cases, true,
  false,
}
use dbgate_mysql_dumper.Planning.Sections.Order.{opposite, IsOrder, Composes}
use dbgate_mysql_dumper.Planning.Sections.{Sign, negative, zero_sign, positive}
use dbgate_mysql_dumper.Planning.Archive.Maps.{insert, sort, is_positive}

not_positive :
    (r s t : Sign)
    → is_positive r ≡ false
    → is_positive s ≡ false
    → Composes r s t
    → is_positive t ≡ false
not_positive negative negative t h k c = ground arith
not_positive negative zero_sign t h k c = ground arith
not_positive zero_sign s t h k c = ground arith
not_positive positive s t h k c = cc
not_positive negative positive t h k c = cc

turned : (s t : Sign) → t ≡ opposite s → is_positive s ≡ true → is_positive t ≡ false
turned negative t e h = cc
turned zero_sign t e h = cc
turned positive t e h = ground arith

module _ {ℓ} {A : Type ℓ} (f : A → A → Sign) where
  -- No element of the list is smaller.
  abbrev pub Least : A → List A → Type 0
  Least x [] = Unit
  Least x (y ∷ ys) = (is_positive (f x y) ≡ false) × Least x ys

  abbrev pub IsSorted : List A → Type 0
  IsSorted [] = Unit
  IsSorted (x ∷ xs) = Least x xs × IsSorted xs

  Least-insert :
      (x y : A) (ys : List A) → is_positive (f x y) ≡ false → Least x ys → Least x (insert f y ys)
  unfolding insert
  Least-insert x y [] h hs = (h, tt)
  Least-insert x y (z ∷ zs) h (k, ks) = elim (Bool-cases (is_positive (f y z))) [
    | inl after ↦ rw after (k, Least-insert x y zs h ks)
    | inr before ↦ rw before (h, (k, ks))
  ]

  module _ (order : IsOrder f) where
    Least-trans : (x y : A) (ys : List A) → is_positive (f x y) ≡ false → Least y ys → Least x ys
    Least-trans x y [] h hs = tt
    Least-trans x y (z ∷ zs) h (k, ks) =
        (not_positive (f x y) (f y z) (f x z) h k (order.composes x y z), Least-trans x y zs h ks)

    insert-IsSorted : (x : A) (xs : List A) → IsSorted xs → IsSorted (insert f x xs)
    unfolding insert
    insert-IsSorted x [] h = (tt, tt)
    insert-IsSorted x (y ∷ ys) (least, h) = elim (Bool-cases (is_positive (f x y))) [
      | inl after ↦ rw after (
        Least-insert y x ys (turned (f x y) (f y x) (order.flips x y) after) least,
        insert-IsSorted x ys h,
      )
      | inr before ↦ rw before ((before, Least-trans x y ys before least), (least, h))
    ]

    pub sort-IsSorted : (xs : List A) → IsSorted (sort f xs)
    unfolding sort
    sort-IsSorted [] = tt
    sort-IsSorted (x ∷ xs) = insert-IsSorted x (sort f xs) (sort-IsSorted xs)

  Least-get_elem? :
      (x y : A) (ys : List A) (j : ℕ)
      → Least x ys
      → get_elem? ys j ≡ some y
      → is_positive (f x y) ≡ false
  Least-get_elem? x y [] j h e = cc
  Least-get_elem? x y (z ∷ zs) zero (h, hs) e = ground (arith, e)
  Least-get_elem? x y (z ∷ zs) (suc j) (h, hs) e = Least-get_elem? x y zs j hs e

  -- An element that stands before another is not larger.
  pub IsSorted-get_elem? :
      (xs : List A) (i j : ℕ) (x y : A)
      → IsSorted xs
      → get_elem? xs i ≡ some x
      → get_elem? xs j ≡ some y
      → i < j
      → is_positive (f x y) ≡ false
  IsSorted-get_elem? [] i j x y h e e' l = cc
  IsSorted-get_elem? (z ∷ zs) zero zero x y (least, h) e e' l = absurd (omega arith)
  IsSorted-get_elem? (z ∷ zs) zero (suc j) x y (least, h) e e' l =
      Least-get_elem? x y zs j (subst (λ z. Least z zs) (cc) least) e'
  IsSorted-get_elem? (z ∷ zs) (suc i) zero x y (least, h) e e' l = absurd (omega arith)
  IsSorted-get_elem? (z ∷ zs) (suc i) (suc j) x y (least, h) e e' l =
      IsSorted-get_elem? zs i j x y h e e' (omega arith)
