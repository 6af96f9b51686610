-- ===== src/Restore/Parser/Step/Statement.antt =====
-- What is accumulated of the current statement, and how it is emitted.
use dbgate_mysql_dumper.Base.{
  ℕ, ◌+◌, Bool, true, false, ◌||◌, not, [], ◌∷◌, ◌++◌, List, Option, none, some, ltb, ◌==◌,
  if◌then◌else◌, Bytes, length, join, every,
}
use dbgate_mysql_dumper.Text.Blank.{trim}
use dbgate_mysql_dumper.Restore.BinaryLiterals.{BinaryLiteralRewriteResult, rewrite_binary_literals}
use dbgate_mysql_dumper.Restore.Parser.State.{
  LexerState, ParsedStatement, statement_too_large, binary_literal, Result, ok, err, Parser,
}
use dbgate_mysql_dumper.Restore.Parser.SqlMode.{track_sql_mode}

-- The parser with the variables of `scan`: `emitted` is `statements`.
pub record Scan : Type 0 where
  pub parser : Parser
  pub pending : Bytes
  pub emitted : List ParsedStatement

abbrev pub line_or : Option ℕ → ℕ → ℕ
line_or none line = line
line_or (some start) line = start

-- `appendToStatement`
unfoldable pub append_to_statement : Parser → Bytes → Result Parser
append_to_statement p fragment =
    if length fragment == 0
    then ok p
    else if ltb p.max_statement_bytes (p.statement_byte_length + length fragment)
    then err
        (statement_too_large p.max_statement_bytes (line_or p.statement_start_line p.current_line))
    else ok (record p {
      statement_parts = p.statement_parts ++ fragment ∷ [];
      statement_byte_length = p.statement_byte_length + length fragment;
    })

-- `appendUpTo(index)`
unfoldable pub append_up_to : Scan → Result Scan
append_up_to s = elim (append_to_statement s.parser s.pending) [
  | ok p ↦ ok (record s { parser = p; pending = [] })
  | err e ↦ err e
]

-- `part.trim().length === 0`
unfoldable pub is_blank : Bytes → Bool
is_blank part = length (trim part) == 0

unfoldable pub discard_pending_whitespace : Scan → Scan
discard_pending_whitespace s =
    if every is_blank s.parser.statement_parts
    then record s {
      parser = record s.parser {
        statement_parts = [];
        statement_byte_length = 0;
        statement_start_line = none;
      };
    }
    else s

unfoldable pub mark_content : Scan → Scan
mark_content s = record s {
  parser = record s.parser {
    statement_has_content = true;
    statement_start_line = some (line_or s.parser.statement_start_line s.parser.current_line);
  };
}

-- The first lines of `flushStatement`: nothing is left of the statement.
abbrev pub cleared : Parser → Parser
cleared p = record p {
  statement_parts = [];
  statement_byte_length = 0;
  statement_start_line = none;
  statement_has_content = false;
}

-- The object that `flushStatement` returns.
unfoldable pub parsed_statement : Parser → BinaryLiteralRewriteResult → ParsedStatement
parsed_statement p rewrite = record {
  statement_index = p.next_statement_index;
  sql = rewrite.bytes;
  start_line = line_or p.statement_start_line p.current_line;
  end_line = p.current_line;
  delimiter = p.delimiter;
  current_object = p.last_section_comment;
  bytes_consumed = p.bytes_consumed_total;
  binary_literals_rewritten = rewrite.rewritten_literals;
}

unfoldable pub emit : Scan → BinaryLiteralRewriteResult → Result Scan
emit s rewrite =
    if rewrite.failed
    then err (binary_literal (line_or s.parser.statement_start_line s.parser.current_line))
    else ok (record s {
      parser = record (cleared s.parser) {
        backslash_escapes =
            track_sql_mode s.parser.backslash_escape_mode s.parser.backslash_escapes rewrite.bytes;
        next_statement_index = s.parser.next_statement_index + 1;
      };
      emitted = s.emitted ++ parsed_statement s.parser rewrite ∷ [];
    })

-- `flushStatement`, its statement pushed.
unfoldable pub flush_statement : Scan → Result Scan
flush_statement s =
    let text = trim (join s.parser.statement_parts) in
    if length text == 0 || not s.parser.statement_has_content
    then ok (record s { parser = cleared s.parser })
    else emit s (rewrite_binary_literals text)

-- `index++` over a character that stays part of the statement's text
unfoldable pub keep : ℕ → Scan → Scan
keep c s = record s { pending = s.pending ++ c ∷ [] }

-- `this.currentLine++`
unfoldable pub newline : Scan → Scan
newline s = record s { parser = record s.parser { current_line = s.parser.current_line + 1 } }

-- `this.state = state`
unfoldable pub enter : LexerState → Scan → Scan
enter state s = record s { parser = record s.parser { state = state } }
