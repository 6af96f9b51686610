-- ===== src/Restore/Parser/Chunks/Prefix.antt =====
-- Looking ahead in a text that goes on: what is decided before the end of a chunk stays decided.
use dbgate_mysql_dumper.Base.{
  ℕ, zero, suc, ◌≤◌, [], ◌∷◌, ◌++◌, ◌≡◌, ◌≢◌, ◌⊎◌, Bytes, length, refl, arith, Bool, true, false,
  drop, starts_with,
}
use dbgate_mysql_dumper.Restore.Parser.Command.{run_of, is_nil}

-- The text does not end in a backslash.
abbrev pub Safe : Bytes → Type 0
Safe [] = Unit
Safe (c ∷ []) = c ≢ b'\\'
Safe (c ∷ d ∷ r) = Safe (d ∷ r)

pub Safe-tail : (c : ℕ) (r : Bytes) → Safe (c ∷ r) → Safe r
Safe-tail c [] h = tt
Safe-tail c (d ∷ r) h = h

pub Safe-drop : (n : ℕ) (text : Bytes) → Safe text → Safe (drop n text)
Safe-drop zero text h = h
Safe-drop (suc n) [] h = tt
Safe-drop (suc n) (c ∷ r) h = Safe-drop n r (Safe-tail c r h)

pub Safe-append : (a b : Bytes) → b ≢ [] → Safe b → Safe (a ++ b)
Safe-append [] b h k = k
Safe-append (x ∷ []) [] h k = absurd (h refl)
Safe-append (x ∷ []) (c ∷ r) h k = k
Safe-append (x ∷ y ∷ a) b h k = Safe-append (y ∷ a) b h k

pub starts_with-append :
    (p text more : Bytes) → starts_with p text ≡ true → starts_with p (text ++ more) ≡ true
unfolding starts_with
starts_with-append [] text more h = refl
starts_with-append (x ∷ p) [] more h = cc
starts_with-append (x ∷ p) (c ∷ text) more h = ground (arith, starts_with-append p text more)

pub starts_with-append_ne :
    (p text more : Bytes)
    → starts_with p text ≡ false
    → starts_with text p ≡ false
    → starts_with p (text ++ more) ≡ false
unfolding starts_with
starts_with-append_ne [] text more h k = cc
starts_with-append_ne (x ∷ p) [] more h k = cc
starts_with-append_ne (x ∷ p) (c ∷ text) more h k =
    ground (arith, starts_with-append_ne p text more)

pub append-starts_with :
    (p text more : Bytes) → starts_with text p ≡ false → starts_with (text ++ more) p ≡ false
unfolding starts_with
append-starts_with p [] more h = cc
append-starts_with [] (c ∷ text) more h = refl
append-starts_with (x ∷ p) (c ∷ text) more h = ground (arith, append-starts_with p text more)

-- A text that is too long to be a proper prefix of `p`, and begins like it, is no shorter than it.
pub starts_with-length :
    (p text : Bytes)
    → starts_with text p ≡ true
    → length p ≤ length text
    → starts_with p text ≡ true
unfolding starts_with
starts_with-length [] text h k = refl
starts_with-length (x ∷ p) [] h k = absurd (omega arith)
starts_with-length (x ∷ p) (c ∷ text) h k = ground (arith, starts_with-length p text)

pub drop-append :
    (n : ℕ) (text more : Bytes) → n ≤ length text → drop n (text ++ more) ≡ drop n text ++ more
drop-append zero text more h = refl
drop-append (suc n) [] more h = absurd (omega arith)
drop-append (suc n) (c ∷ text) more h = drop-append n text more (omega arith)

pub starts_with-le : (p text : Bytes) → starts_with p text ≡ true → length p ≤ length text
unfolding starts_with
starts_with-le [] text h = omega arith
starts_with-le (x ∷ p) [] h = cc
starts_with-le (x ∷ p) (c ∷ text) h = ground (arith, starts_with-le p text)

pub run_of-le : (n : ℕ) (p : ℕ → Bool) (text : Bytes) → length (run_of n p text) ≤ length text
unfolding run_of
run_of-le zero p text = omega arith
run_of-le (suc n) p [] = omega arith
run_of-le (suc n) p (c ∷ text) = ground (arith, run_of-le n p text)

-- A run that ends before the end of the text, or at its limit, is not changed by more text.
pub run_of-append :
    (n : ℕ) (p : ℕ → Bool) (text more : Bytes)
    → (is_nil (drop (length (run_of n p text)) text) ≡ false) ⊎ (n ≤ length (run_of n p text))
    → run_of n p (text ++ more) ≡ run_of n p text
unfolding run_of is_nil
run_of-append zero p text more h = refl
run_of-append (suc n) p [] more h = ground arith
run_of-append (suc n) p (c ∷ text) more h = ground (arith, run_of-append n p text more)
