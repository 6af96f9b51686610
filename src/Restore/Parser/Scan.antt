-- ===== src/Restore/Parser/Scan.antt =====
-- `scan`, `push`, `finish` and the functions that run a whole script.
use dbgate_mysql_dumper.Restore.Parser.Step.{
  Step, advance, hold, fail, step, Scan, append_up_to, flush_statement,
}
use dbgate_mysql_dumper.Base.{
  ℕ, zero, suc, ◌+◌, Bool, true, false, [], ◌∷◌, ◌++◌, List, ◌==◌, if◌then◌else◌, Bytes, length,
}
use dbgate_mysql_dumper.Restore.Parser.State.{
  LexerState, single_quote, double_quote, backtick, block_comment, discard_block_comment,
  ParsedStatement, push_after_finish, finished_twice, diverges, malformed_sql_dump, Result, ok, err,
  ◌>>=◌, Parser, SqlStatementParserOptions, new_parser,
}

-- The end of `scan`: what is pending is appended, and `carry` is what was not decided.
unfoldable pub stop : Scan → Bytes → Result Scan
stop s rest = do s' ← append_up_to s; ok (record s' { parser = record s'.parser { carry = rest } })

-- What follows a round; `loop` is the next round.
unfoldable pub resume : (Scan → Bytes → Result Scan) → Bytes → Step → Result Scan
resume loop text (advance s rest) = loop s rest
resume loop text (hold s) = stop s text
resume loop text (fail e) = err e

-- The loop. A round takes a byte or more of the text when the delimiter is not empty.
unfoldable pub scan_loop : ℕ → Scan → Bytes → Bool → Result Scan
scan_loop zero s text at_end = err diverges
scan_loop (suc fuel) s [] at_end = stop s []
scan_loop (suc fuel) s (c ∷ r) at_end =
    resume (λ s' rest. scan_loop fuel s' rest at_end) (c ∷ r) (step s c r at_end)

abbrev pub start : Parser → Scan
start p = record { parser = p; pending = []; emitted = [] }

unfoldable pub scan : Parser → Bytes → Bool → Result Scan
scan p text at_end = scan_loop (suc (length text)) (start p) text at_end

abbrev pub Output : Type 0
Output = List ParsedStatement × Parser

abbrev pub output : Result Scan → Result Output
output (ok s) = ok (s.emitted, s.parser)
output (err e) = err e

abbrev pub counted : Parser → Bytes → Parser
counted p chunk = record p { bytes_consumed_total = p.bytes_consumed_total + length chunk }

unfoldable pub push : Parser → Bytes → Result Output
push p chunk =
    if p.finished
    then err push_after_finish
    else if length chunk == 0
    then ok ([], p)
    else output (scan (counted p chunk) (p.carry ++ chunk) false)

-- The constructs that may not be open at the end of the input.
unfoldable pub must_close : LexerState → Bool
must_close single_quote = true
must_close double_quote = true
must_close backtick = true
must_close block_comment = true
must_close discard_block_comment = true
must_close _ = false

unfoldable pub finish_scanned : Scan → Result Output
finish_scanned s =
    if must_close s.parser.state
    then err (malformed_sql_dump s.parser.state s.parser.open_line)
    else output (flush_statement (record s { parser = record s.parser { carry = [] } }))

unfoldable pub finish : Parser → Result Output
finish p =
    if p.finished
    then err finished_twice
    else do s ← scan (record p { finished = true }) p.carry true; finish_scanned s

-- `streamSqlStatements` over the chunks that `toByteStringChunks` yields.
unfoldable pub stream_from : Parser → List Bytes → Result (List ParsedStatement)
stream_from p [] = do (statements, p') ← finish p; ok statements
stream_from p (chunk ∷ chunks) = do
  (statements, p') ← push p chunk
  later ← stream_from p' chunks
  ok (statements ++ later)

unfoldable pub stream_sql_statements :
    List Bytes → SqlStatementParserOptions → Result (List ParsedStatement)
stream_sql_statements chunks options = stream_from (new_parser options) chunks

unfoldable pub parse_sql_statements :
    Bytes → SqlStatementParserOptions → Result (List ParsedStatement)
parse_sql_statements sql options = do
  (first, p) ← push (new_parser options) sql
  (second, p') ← finish p
  ok (first ++ second)
