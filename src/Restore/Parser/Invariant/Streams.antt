-- ===== src/Restore/Parser/Invariant/Streams.antt =====
-- The invariant over whole scans and whole inputs: every run ends within its fuel, and its statements
-- come numbered and in order.
use dbgate_mysql_dumper.Restore.Parser.Scan.{
  resume, scan_loop, scan, start, stop, push, finish, stream_from, stream_sql_statements,
  finish_scanned, output, counted, Output,
}
use dbgate_mysql_dumper.Base.{
  ℕ, zero, suc, ◌+◌, ◌≤◌, ◌<◌, [], ◌∷◌, ◌++◌, List, ◌≡◌, ◌≢◌, Bytes, length, join, arith, some,
  Bool, true, false,
}
use dbgate_mysql_dumper.Restore.Parser.State.{
  diverges, Result, ok, err, ◌>>=◌, Parser, ParsedStatement, SqlStatementParserOptions, new_parser,
}
use dbgate_mysql_dumper.Restore.Parser.Step.{
  Scan, Step, advance, hold, fail, step, flush_statement, line_or,
}
use mathlib.Core.Path.{subst}
use dbgate_mysql_dumper.Restore.Parser.Invariant.{Inv, Kept, Good, Follows, Follows-append}
use dbgate_mysql_dumper.Restore.Parser.Invariant.Ops.{append_up_to-Kept, flush_statement-Kept}
use dbgate_mysql_dumper.Restore.Parser.Invariant.Rounds.{step-Good}

-- What holds of the parser between two chunks.
pub record Ready (p : Parser) : Type 0 where
  pub delimiter_ne_nil : p.delimiter ≢ []
  pub byte_length : p.statement_byte_length ≡ length (join p.statement_parts)
  pub in_limit : p.statement_byte_length ≤ p.max_statement_bytes
  pub start_line : line_or p.statement_start_line p.current_line ≤ p.current_line

-- The line where the current statement starts, or will start at the earliest.
abbrev pub line_of : Parser → ℕ
line_of p = line_or p.statement_start_line p.current_line

pub Inv-start : (p : Parser) → Ready p → Inv p.next_statement_index (line_of p) (start p)
Inv-start p h = ground arith

stop-Kept : {n line : ℕ} (s : Scan) (rest : Bytes) → Inv n line s → Kept n line (stop s rest)
unfolding stop
stop-Kept s rest h = ground (arith, append_up_to-Kept h)

resume-Kept :
    {n line : ℕ} (loop : Scan → Bytes → Result Scan) (text r : Bytes) (t : Step)
    → Good n line r t
    → ((s : Scan) (rest : Bytes)
        → Inv n line s
        → length rest ≤ length r
        → Kept n line (loop s rest))
    → Kept n line (resume loop text t)
unfolding resume
resume-Kept loop text r (advance s rest) g k = k s rest g.0 g.1
resume-Kept loop text r (hold s) g k = stop-Kept s text g
resume-Kept loop text r (fail e) g k = g

scan_loop-Kept :
    {n line : ℕ} (fuel : ℕ) (s : Scan) (text : Bytes) (at_end : Bool)
    → Inv n line s
    → length text < fuel
    → Kept n line (scan_loop fuel s text at_end)
unfolding scan_loop
scan_loop-Kept zero s text at_end h k = absurd (omega arith)
scan_loop-Kept (suc fuel) s [] at_end h k = stop-Kept s [] h
scan_loop-Kept (suc fuel) s (c ∷ r) at_end h k =
    resume-Kept _ (c ∷ r) r (step s c r at_end) (step-Good s c r at_end h)
      (λ s' rest h' shorter. scan_loop-Kept fuel s' rest at_end h' (omega arith))

scan-Kept :
    (p : Parser) (text : Bytes) (at_end : Bool)
    → Ready p
    → Kept p.next_statement_index (line_of p) (scan p text at_end)
unfolding scan
scan-Kept p text at_end h =
    scan_loop-Kept (suc (length text)) (start p) text at_end (Inv-start p h) (omega arith)

-- What a call returns: statements that follow the parser, and a parser behind them.
abbrev pub Delivers : Parser → Result Output → Type 0
Delivers p (ok (statements, p')) =
    Ready p'
    × Follows p.next_statement_index (line_of p) statements p'.next_statement_index (line_of p')
Delivers p (err e) = e ≢ diverges

output-Delivers :
    (p : Parser) (m : Result Scan)
    → Kept p.next_statement_index (line_of p) m
    → Delivers p (output m)
output-Delivers p (ok s) h = (ground arith, h.follows)
output-Delivers p (err e) h = h

pub push-Delivers : (p : Parser) (chunk : Bytes) → Ready p → Delivers p (push p chunk)
unfolding push
push-Delivers p chunk h = ground (
  arith,
  output-Delivers p (scan (counted p chunk) (p.carry ++ chunk) false)
      (scan-Kept (counted p chunk) (p.carry ++ chunk) false (ground arith)),
)

finish_scanned-Delivers :
    (p : Parser) (s : Scan)
    → Inv p.next_statement_index (line_of p) s
    → Delivers p (finish_scanned s)
unfolding finish_scanned
finish_scanned-Delivers p s h =
    let done = record s { parser = record s.parser { carry = [] } } in
    ground (arith, output-Delivers p (flush_statement done) (flush_statement-Kept (ground arith)))

finish_scanned_all-Delivers :
    (p : Parser) (m : Result Scan)
    → Kept p.next_statement_index (line_of p) m
    → Delivers p (m >>= finish_scanned)
finish_scanned_all-Delivers p (ok s) h = finish_scanned-Delivers p s h
finish_scanned_all-Delivers p (err e) h = h

pub finish-Delivers : (p : Parser) → Ready p → Delivers p (finish p)
unfolding finish
finish-Delivers p h =
    let last = record p { finished = true } in
    ground (
      arith,
      finish_scanned_all-Delivers p (scan last p.carry true)
          (scan-Kept last p.carry true (ground arith)),
    )

-- The statements of a run, from the parser on.
abbrev pub Yields : Parser → Result (List ParsedStatement) → Type 0
Yields p (ok statements) =
    (n line : ℕ) × Follows p.next_statement_index (line_of p) statements n line
Yields p (err e) = e ≢ diverges

finished-Yields :
    (p : Parser) (m : Result Output)
    → Delivers p m
    → Yields p (m >>= λ (statements, p'). ok statements)
finished-Yields p (ok (statements, p')) h = (p'.next_statement_index, line_of p', h.1)
finished-Yields p (err e) h = h

later-Yields :
    (p p' : Parser) (statements : List ParsedStatement) (later : Result (List ParsedStatement))
    → Follows p.next_statement_index (line_of p) statements p'.next_statement_index (line_of p')
    → Yields p' later
    → Yields p (later >>= λ more. ok (statements ++ more))
later-Yields p p' statements (ok more) h (n, line, k) = (
  n,
  line,
  Follows-append p.next_statement_index (line_of p) statements more p'.next_statement_index
      (line_of p') n line h k,
)
later-Yields p p' statements (err e) h k = k

pushed-Yields :
    (p : Parser) (m : Result Output) (rest : Parser → Result (List ParsedStatement))
    → Delivers p m
    → ((p' : Parser) → Ready p' → Yields p' (rest p'))
    → Yields p (m >>= λ (statements, p'). rest p' >>= λ later. ok (statements ++ later))
pushed-Yields p (ok (statements, p')) rest h k =
    later-Yields p p' statements (rest p') h.1 (k p' h.0)
pushed-Yields p (err e) rest h k = h

pub stream_from-Yields :
    (p : Parser) (chunks : List Bytes) → Ready p → Yields p (stream_from p chunks)
unfolding stream_from
stream_from-Yields p [] h = finished-Yields p (finish p) (finish-Delivers p h)
stream_from-Yields p (chunk ∷ chunks) h =
    pushed-Yields p (push p chunk) (λ p'. stream_from p' chunks) (push-Delivers p chunk h)
      (λ p' h'. stream_from-Yields p' chunks h')

pub new_parser-Ready :
    (options : SqlStatementParserOptions)
    → options.initial_delimiter ≢ some []
    → Ready (new_parser options)
unfolding new_parser
new_parser-Ready options h = ground arith

Follows-count :
    (n line : ℕ) (xs : List ParsedStatement) (n' line' : ℕ)
    → Follows n line xs n' line'
    → n' ≡ n + length xs
Follows-count n line [] n' line' h = omega arith
Follows-count n line (x ∷ xs) n' line' h =
    omega (arith, Follows-count (n + 1) x.end_line xs n' line' h.3)

-- The run of any chunks, started with a delimiter that is not empty, ends: the loop of `scan` does not
-- go on for ever.
pub stream_sql_statements-terminates :
    (chunks : List Bytes) (options : SqlStatementParserOptions)
    → options.initial_delimiter ≢ some []
    → stream_sql_statements chunks options ≢ err diverges
unfolding stream_sql_statements
stream_sql_statements-terminates chunks options h e =
    ground (arith, stream_from-Yields (new_parser options) chunks (new_parser-Ready options h))

-- The statements of a run that succeeds are numbered from 0 on without a gap, each ends on the line
-- where it starts or later, none starts before line 1 or before the end line of the one before it.
pub stream_sql_statements-Follows :
    (chunks : List Bytes) (options : SqlStatementParserOptions) {statements : List ParsedStatement}
    → options.initial_delimiter ≢ some []
    → stream_sql_statements chunks options ≡ ok statements
    → (line : ℕ) × Follows 0 1 statements (length statements) line
unfolding stream_sql_statements new_parser
stream_sql_statements-Follows chunks options {statements} h e =
    let (n, line, f) =
      rw e at (stream_from-Yields (new_parser options) chunks (new_parser-Ready options h)) in
    let counted_by : n ≡ length statements = omega (arith, Follows-count 0 1 statements n line f) in
    (line, subst (λ k. Follows 0 1 statements k line) counted_by f)
