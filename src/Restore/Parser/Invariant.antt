-- ===== src/Restore/Parser/Invariant.antt =====
-- What every round of the parser keeps.
pub mod Ops
pub mod Commands
pub mod Rounds
pub mod Streams
pub mod EmptyDelimiter
use dbgate_mysql_dumper.Base.{
  ℕ, ◌+◌, ◌≤◌, [], ◌∷◌, ◌++◌, List, ◌≡◌, ◌≢◌, Bytes, length, join, arith,
}
use dbgate_mysql_dumper.Restore.Parser.State.{ParsedStatement, diverges, Result, ok, err}
use dbgate_mysql_dumper.Restore.Parser.Step.{Scan, Step, advance, hold, fail, line_or}

-- From statement index `n` and line `line` the statements are numbered one by one, each ends on the
-- line where it starts or later, and each starts where the one before it ends or later. Behind them
-- stand the index `n'` and the line `line'`.
abbrev pub Follows : ℕ → ℕ → List ParsedStatement → ℕ → ℕ → Type 0
Follows n line [] n' line' = (n ≡ n') × (line ≤ line')
Follows n line (x ∷ xs) n' line' =
    (x.statement_index ≡ n)
    × (line ≤ x.start_line)
    × (x.start_line ≤ x.end_line)
    × Follows (n + 1) x.end_line xs n' line'

pub Follows-mono :
    (n line : ℕ) (xs : List ParsedStatement) (n' a b : ℕ)
    → Follows n line xs n' a
    → a ≤ b
    → Follows n line xs n' b
Follows-mono n line [] n' a b h k = omega arith
Follows-mono n line (x ∷ xs) n' a b h k =
    (h.0, h.1, h.2, Follows-mono (n + 1) x.end_line xs n' a b h.3 k)

pub Follows-concat :
    (n line : ℕ) (xs : List ParsedStatement) (x : ParsedStatement) (n' a : ℕ)
    → Follows n line xs n' a
    → x.statement_index ≡ n'
    → a ≤ x.start_line
    → x.start_line ≤ x.end_line
    → Follows n line (xs ++ x ∷ []) (n' + 1) x.end_line
Follows-concat n line [] x n' a h e k l = (omega arith, omega arith, l, (omega arith, omega arith))
Follows-concat n line (y ∷ xs) x n' a h e k l =
    (h.0, h.1, h.2, Follows-concat (n + 1) y.end_line xs x n' a h.3 e k l)

pub Follows-append :
    (n line : ℕ) (xs ys : List ParsedStatement) (m a n' b : ℕ)
    → Follows n line xs m a
    → Follows m a ys n' b
    → Follows n line (xs ++ ys) n' b
Follows-append n line [] [] m a n' b h k = omega arith
Follows-append n line [] (y ∷ ys) m a n' b h k = (omega arith, omega arith, k.2, rw h.0 k.3)
Follows-append n line (x ∷ xs) ys m a n' b h k =
    (h.0, h.1, h.2, Follows-append (n + 1) x.end_line xs ys m a n' b h.3 k)

-- `n` and `line` are the next index and the line at the start of `scan`.
pub record Inv (n line : ℕ) (s : Scan) : Type 0 where
  pub delimiter_ne_nil : s.parser.delimiter ≢ []
  pub byte_length : s.parser.statement_byte_length ≡ length (join s.parser.statement_parts)
  pub in_limit : s.parser.statement_byte_length ≤ s.parser.max_statement_bytes
  pub start_line :
      line_or s.parser.statement_start_line s.parser.current_line ≤ s.parser.current_line
  pub follows :
      Follows n line s.emitted s.parser.next_statement_index
        (line_or s.parser.statement_start_line s.parser.current_line)

-- A round on a text with `r` behind its first byte: it goes on with `r` or less, and it does not
-- report that the loop has run out of fuel.
abbrev pub Good : ℕ → ℕ → Bytes → Step → Type 0
Good n line r (advance s rest) = Inv n line s × (length rest ≤ length r)
Good n line r (hold s) = Inv n line s
Good n line r (fail e) = e ≢ diverges

abbrev pub Kept : ℕ → ℕ → Result Scan → Type 0
Kept n line (ok s) = Inv n line s
Kept n line (err e) = e ≢ diverges
