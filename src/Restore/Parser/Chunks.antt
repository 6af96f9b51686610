-- ===== src/Restore/Parser/Chunks.antt =====
-- How the parser depends on the cut of its input into chunks. What a chunk's end changes of a scan in
-- progress is forgotten in a view: how the statement's text is held, and the count of the bytes.
pub mod Appending
pub mod Discarding
pub mod Prefix
pub mod Rounds
pub mod Stable
pub mod Endings
pub mod Cuts
pub mod Overflow
pub mod Succeeds
pub mod Growing
pub mod StableCases
pub mod Cases
pub mod Calls
pub mod Streams
pub mod Runs
pub mod Scans
pub mod Holding
pub mod StableCommands
use dbgate_mysql_dumper.Restore.Parser.Step.{Scan, Step, advance, hold, fail}
use dbgate_mysql_dumper.Restore.Parser.State.{Result, ok, err, ParsedStatement}
use dbgate_mysql_dumper.Base.{◌≤◌, [], ◌∷◌, ◌++◌, List, ◌≡◌, Bytes, length, join, refl, ap, false}

abbrev pub forget : ParsedStatement → ParsedStatement
forget x = record x { bytes_consumed = 0 }

abbrev pub forget_all : List ParsedStatement → List ParsedStatement
forget_all [] = []
forget_all (x ∷ xs) = forget x ∷ forget_all xs

pub forget_all_idem : (xs : List ParsedStatement) → forget_all (forget_all xs) ≡ forget_all xs
forget_all_idem [] = refl
forget_all_idem (x ∷ xs) = ap (◌∷◌ (forget x)) (forget_all_idem xs)

pub forget_all-append :
    (xs ys : List ParsedStatement) → forget_all (xs ++ ys) ≡ forget_all xs ++ forget_all ys
forget_all-append [] ys = refl
forget_all-append (x ∷ xs) ys = ap (◌∷◌ (forget x)) (forget_all-append xs ys)

-- The text of the statement, appended or not.
abbrev pub text_of : Scan → Bytes
text_of s = join s.parser.statement_parts ++ s.pending

-- `earlier` are the statements of the calls before.
abbrev pub view : List ParsedStatement → Scan → Scan
view earlier s = record {
  parser = record s.parser {
    carry = [];
    statement_parts = [];
    statement_byte_length = 0;
    finished = false;
    bytes_consumed_total = 0;
  };
  pending = text_of s;
  emitted = forget_all (earlier ++ s.emitted);
}

abbrev pub view_step : List ParsedStatement → Step → Step
view_step earlier (advance s rest) = advance (view earlier s) rest
view_step earlier (hold s) = hold (view earlier s)
view_step earlier (fail e) = fail e

abbrev pub view_result : List ParsedStatement → Result Scan → Result Scan
view_result earlier (ok s) = ok (view earlier s)
view_result earlier (err e) = err e

-- The count of the appended bytes is right, and within the limit.
pub record Counts (s : Scan) : Type 0 where
  pub byte_length : s.parser.statement_byte_length ≡ length (join s.parser.statement_parts)
  pub in_limit : s.parser.statement_byte_length ≤ s.parser.max_statement_bytes
