-- ===== src/Restore/Session/Peeling.antt =====
-- The loop of `isRootSetStatement` of src/restore/sessionState.ts.
use dbgate_mysql_dumper.Restore.Session.{
  begins_with_set, is_root_set_statement, is_set_behind, peel_comment, behind_line, behind_comment,
  is_plain_comment, is_blank_third, Peeled, comment, no_comment, unclosed, peeled,
}
use dbgate_mysql_dumper.Base.{
  ℕ, zero, suc, ◌≤◌, ◌<◌, [], ◌∷◌, ◌≡◌, Bytes, length, refl, arith, Option, none, some, inl, inr,
  Bool-cases, Bool, false, ◌&&◌, ◌||◌, drop, starts_with, length-drop, ◌==◌, codes,
}
use dbgate_mysql_dumper.Text.Blank.{skip_blanks, length-skip_blanks}

abbrev Shorter : ℕ → Option Bytes → Type 0
Shorter n none = n ≤ n
Shorter n (some rest) = length rest < n

Shorter-weaken : (m n : ℕ) (found : Option Bytes) → m ≤ n → Shorter m found → Shorter n found
Shorter-weaken m n none le h = omega arith
Shorter-weaken m n (some rest) le h = omega (arith, le, h)

behind_line-Shorter : (text : Bytes) → Shorter (length text) (behind_line text)
unfolding behind_line
behind_line-Shorter [] = omega arith
behind_line-Shorter (c ∷ cs) = elim (Bool-cases (c == 10 || c == 13)) [
  | inl ends ↦ rw ends (omega arith)
  | inr goes_on ↦ rw goes_on (
      Shorter-weaken (length cs) (suc (length cs)) (behind_line cs) (omega arith)
        (behind_line-Shorter cs))
]

behind_comment-Shorter : (text : Bytes) → Shorter (length text) (behind_comment text)
unfolding behind_comment
behind_comment-Shorter [] = omega arith
behind_comment-Shorter (c ∷ cs) = elim (Bool-cases (starts_with (codes "*/") (c ∷ cs))) [
  | inl closes ↦ rw closes (omega (arith, length-drop 2 (c ∷ cs)))
  | inr goes_on ↦ rw goes_on (
      Shorter-weaken (length cs) (suc (length cs)) (behind_comment cs) (omega arith)
        (behind_comment-Shorter cs))
]

peeled-comment :
    (n : ℕ) (found : Option Bytes) (more : Bytes)
    → Shorter n found
    → peeled found ≡ comment more
    → length more < n
peeled-comment n none more h e = ground (arith, e)
peeled-comment n (some rest) more h e = ground (arith, h, e)

-- What is left behind a comment is shorter.
peel_comment-Shorter :
    (text more : Bytes) → peel_comment text ≡ comment more → length more < length text
unfolding peel_comment
peel_comment-Shorter text more e =
    let by_line =
      starts_with (codes "#") text
      || starts_with (codes "--") text && is_blank_third (drop 2 text) in
    elim (Bool-cases by_line) [
      | inl line ↦
          peeled-comment (length text) (behind_line text) more (behind_line-Shorter text)
            (rw line at e)
      | inr not_line ↦ elim (Bool-cases (is_plain_comment text)) [
        | inl block ↦
            peeled-comment (length text) (behind_comment (drop 2 text)) more
              (Shorter-weaken (length (drop 2 text)) (length text) (behind_comment (drop 2 text))
                (omega (arith, length-drop 2 text)) (behind_comment-Shorter (drop 2 text)))
              (rw (not_line, block) at e)
        | inr neither ↦ ground (arith, (rw (not_line, neither) at e))
      ]
    ]

-- A round, by what it peels.
round :
    (fuel : ℕ) (text : Bytes) (p : Peeled)
    → peel_comment text ≡ p
    → ((more : Bytes)
        → p ≡ comment more
        → (is : Bool) × (is_set_behind fuel (skip_blanks more) ≡ some is))
    → (is : Bool) × (is_set_behind (suc fuel) text ≡ some is)
unfolding is_set_behind
round fuel text (comment more) e rest =
    let (is, k) = rest more refl in (is, rw (e, is_set_behind) k)
round fuel text no_comment e rest = (begins_with_set text, rw (e, is_set_behind) refl)
round fuel text unclosed e rest = (false, rw (e, is_set_behind) refl)

-- On more fuel than the text is long the loop returns.
is_set_behind-terminates :
    (fuel : ℕ) (text : Bytes)
    → length text < fuel
    → (is : Bool) × (is_set_behind fuel text ≡ some is)
unfolding is_set_behind
is_set_behind-terminates zero text h = (false, ground (arith, h))
is_set_behind-terminates (suc fuel) text h = round fuel text (peel_comment text) refl (λ more e.
    is_set_behind-terminates fuel (skip_blanks more)
      (omega (arith, h, peel_comment-Shorter text more e, length-skip_blanks more)))

-- The loop of `isRootSetStatement` ends on every statement, and what it returns is the answer.
pub is_root_set_statement-terminates :
    (sql : Bytes)
    → (is : Bool) × (is_set_behind (suc (length sql)) (skip_blanks sql) ≡ some is)
      × (is_root_set_statement sql ≡ is)
unfolding is_root_set_statement
is_root_set_statement-terminates sql =
    let (is, e) =
      is_set_behind-terminates (suc (length sql)) (skip_blanks sql)
        (omega (arith, length-skip_blanks sql)) in
    (is, e, rw (e, is_root_set_statement) refl)
