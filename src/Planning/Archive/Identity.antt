-- ===== src/Planning/Archive/Identity.antt =====
-- `createCanonicalIdentity` of src/utils/hash.ts: the parts can be told from the identity.
use dbgate_mysql_dumper.Base.{
  ℕ, zero, suc, ◌+◌, ◌-◌, ◌*◌, ◌/◌, ◌%◌, ◌<◌, [], ◌∷◌, ◌++◌, List, ◌≡◌, Bytes, length, refl, sym,
  ap, ◌∙◌, arith, inl, inr, Bool-cases, append_assoc, append-nil, length-append, ltb,
}
use dbgate_mysql_dumper.Data.ValueRenderer.{decimal}
use dbgate_mysql_dumper.Planning.Archive.Model.{prefixed, create_canonical_identity}

-- The number that decimal digits write.
abbrev value_from : ℕ → Bytes → ℕ
value_from n [] = n
value_from n (c ∷ cs) = value_from (n * 10 + (c - b'0')) cs

value_from-append :
    (n : ℕ) (cs ds : Bytes) → value_from n (cs ++ ds) ≡ value_from (value_from n cs) ds
value_from-append n [] ds = refl
value_from-append n (c ∷ cs) ds = value_from-append (n * 10 + (c - b'0')) cs ds

value_from-decimal : (fuel n : ℕ) → n < fuel → value_from 0 (decimal fuel n) ≡ n
unfolding decimal
value_from-decimal zero n h = absurd (omega arith)
value_from-decimal (suc fuel) n h = elim (Bool-cases (ltb n 10)) [
  | inl small ↦ rw small (ground (arith, small))
  | inr large ↦
      let rest = value_from-decimal fuel (n / 10) (ground (arith, large)) in
      rw large (
        value_from-append 0 (decimal fuel (n / 10)) ((b'0' + n % 10) ∷ [])
        ∙ (rw rest (omega arith)))
]

abbrev Digits : Bytes → Type 0
Digits [] = Unit
Digits (c ∷ cs) = (c < b':') × Digits cs

Digits-append : (cs ds : Bytes) → Digits cs → Digits ds → Digits (cs ++ ds)
Digits-append [] ds h k = k
Digits-append (c ∷ cs) ds (h, hs) k = (h, Digits-append cs ds hs k)

decimal-Digits : (fuel n : ℕ) → Digits (decimal fuel n)
unfolding decimal
decimal-Digits zero n = tt
decimal-Digits (suc fuel) n = elim (Bool-cases (ltb n 10)) [
  | inl small ↦ rw small (omega arith, tt)
  | inr large ↦
      rw large
        (Digits-append (decimal fuel (n / 10)) _ (decimal-Digits fuel (n / 10)) (omega arith, tt))
]

-- Two texts that agree up to the first colon behind digits.
split_colon :
    (cs ds a b : Bytes)
    → Digits cs
    → Digits ds
    → cs ++ b':' ∷ a ≡ ds ++ b':' ∷ b
    → (cs ≡ ds) × (a ≡ b)
split_colon [] [] a b h k e = (refl, cc)
split_colon [] (d ∷ ds) a b h (k, ks) e = absurd (ground (arith, e))
split_colon (c ∷ cs) [] a b (h, hs) k e = absurd (ground (arith, e))
split_colon (c ∷ cs) (d ∷ ds) a b (h, hs) (k, ks) e =
    let (same_digits, rest) = split_colon cs ds a b hs ks (cc) in (cc, rest)

split_at : (p q a b : Bytes) → length p ≡ length q → p ++ a ≡ q ++ b → (p ≡ q) × (a ≡ b)
split_at [] [] a b l e = (refl, e)
split_at [] (y ∷ q) a b l e = absurd (omega arith)
split_at (x ∷ p) [] a b l e = absurd (omega arith)
split_at (x ∷ p) (y ∷ q) a b l e =
    let (same_part, rest) = split_at p q a b (omega arith) (cc) in (cc, rest)

split_prefixed : (p q a b : Bytes) → prefixed p ++ a ≡ prefixed q ++ b → (p ≡ q) × (a ≡ b)
unfolding prefixed
split_prefixed p q a b e =
    let dp = decimal (suc (length p)) (length p) in
    let dq = decimal (suc (length q)) (length q) in
    let e' : dp ++ b':' ∷ (p ++ a) ≡ dq ++ b':' ∷ (q ++ b) =
      sym (append_assoc dp (b':' ∷ p) a) ∙ (e ∙ append_assoc dq (b':' ∷ q) b) in
    let (digits, rest) =
      split_colon dp dq (p ++ a) (q ++ b) (decimal-Digits (suc (length p)) (length p))
        (decimal-Digits (suc (length q)) (length q)) e' in
    let lengths : length p ≡ length q =
      sym (value_from-decimal (suc (length p)) (length p) (omega arith))
      ∙ (ap (value_from 0) digits ∙ value_from-decimal (suc (length q)) (length q) (omega arith)) in
    split_at p q a b lengths rest

-- What follows the first part.
abbrev following : List Bytes → Bytes
following [] = []
following (part ∷ parts) = b'|' ∷ create_canonical_identity (part ∷ parts)

create_canonical_identity-cons :
    (part : Bytes) (parts : List Bytes)
    → create_canonical_identity (part ∷ parts) ≡ prefixed part ++ following parts
unfolding create_canonical_identity
create_canonical_identity-cons part [] = sym (append-nil (prefixed part))
create_canonical_identity-cons part (next ∷ parts) = refl

prefixed-append-ne-nil : (part rest : Bytes) → prefixed part ++ rest ≡ [] → ⊥
unfolding prefixed
prefixed-append-ne-nil part rest e =
    let l = ap length e in
    omega (
      arith,
      length-append (decimal (suc (length part)) (length part) ++ b':' ∷ part) rest,
      length-append (decimal (suc (length part)) (length part)) (b':' ∷ part),
    )

split_first :
    (p q : Bytes) (ps qs : List Bytes)
    → create_canonical_identity (p ∷ ps) ≡ create_canonical_identity (q ∷ qs)
    → (p ≡ q) × (following ps ≡ following qs)
split_first p q ps qs e =
    split_prefixed p q (following ps) (following qs)
      (sym (create_canonical_identity-cons p ps) ∙ (e ∙ create_canonical_identity-cons q qs))

create_canonical_identity-nil : create_canonical_identity [] ≡ []
unfolding create_canonical_identity
create_canonical_identity-nil = refl

-- Different parts have different identities, whatever characters they hold and however many they are.
pub create_canonical_identity_injective :
    (parts parts' : List Bytes)
    → create_canonical_identity parts ≡ create_canonical_identity parts'
    → parts ≡ parts'
create_canonical_identity_injective [] [] e = refl
create_canonical_identity_injective [] (q ∷ qs) e = absurd (
    prefixed-append-ne-nil q (following qs)
      (sym (create_canonical_identity-cons q qs) ∙ (sym e ∙ create_canonical_identity-nil)))
create_canonical_identity_injective (p ∷ ps) [] e = absurd (
    prefixed-append-ne-nil p (following ps)
      (sym (create_canonical_identity-cons p ps) ∙ (e ∙ create_canonical_identity-nil)))
create_canonical_identity_injective (p ∷ []) (q ∷ []) e =
    let (first, rest) = split_first p q [] [] e in rw first refl
create_canonical_identity_injective (p ∷ []) (q ∷ x ∷ qs) e =
    let (first, rest) = split_first p q [] (x ∷ qs) e in absurd (cc)
create_canonical_identity_injective (p ∷ x ∷ ps) (q ∷ []) e =
    let (first, rest) = split_first p q (x ∷ ps) [] e in absurd (cc)
create_canonical_identity_injective (p ∷ x ∷ ps) (q ∷ y ∷ qs) e =
    let (first, rest) = split_first p q (x ∷ ps) (y ∷ qs) e in
    let later = create_canonical_identity_injective (x ∷ ps) (y ∷ qs) (cc) in cc
