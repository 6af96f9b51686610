-- ===== src/Restore/Parser/Tests.antt =====
-- Runs of the parser on small scripts.
use dbgate_mysql_dumper.Restore.Parser.Scan.{
  scan_loop, start, resume, must_close, stop, scan, finish_scanned, finish, push, stream_from,
  stream_sql_statements, parse_sql_statements,
}
use dbgate_mysql_dumper.Restore.Parser.State.{
  new_parser, diverges, auto, normal, ParsedStatement, Result, ok, err, SqlStatementParserOptions,
  malformed_sql_dump, single_quote, unsupported_client_command, binary_literal,
}
use dbgate_mysql_dumper.Restore.Parser.Invariant.EmptyDelimiter.{scan_loop-new_parser}
use dbgate_mysql_dumper.Restore.Parser.Chunks.{forget_all, view_step}
use dbgate_mysql_dumper.Restore.Parser.Chunks.Stable.{step-Stable}
use dbgate_mysql_dumper.Restore.Parser.Chunks.StableCases.{Stable}
use dbgate_mysql_dumper.Restore.Parser.Chunks.Cuts.{stream_sql_statements_cut}
use dbgate_mysql_dumper.Base.{
  arith, some, true, false, length, ℕ, ◌≢◌, inl, any, same, starts_with, every, [], ◌∷◌, ◌++◌, List,
  none, Bytes, codes, ◌≡◌, refl, map,
}
use dbgate_mysql_dumper.Restore.Parser.Invariant.{Follows}
use dbgate_mysql_dumper.Restore.Parser.Invariant.Streams.{
  stream_sql_statements-terminates, stream_sql_statements-Follows,
}
use dbgate_mysql_dumper.Restore.Parser.Step.{
  Scan, enter, newline, keep, flush_statement, emit, parsed_statement, mark_content,
  discard_pending_whitespace, is_blank, append_up_to, append_to_statement, line_start_after,
  step_in, step_discard, step_block_comment, step_skip, step_line_comment, step_backtick,
  step_quoted, step_closing, step_escaped, step_normal, apply_command, step_delimiter,
  could_start_delimiter, step_character, step_slash, step_marker, step_maria, step_minus,
  is_comment_space, plain, open_construct, open_comment, hold_back, step,
}
use dbgate_mysql_dumper.Restore.Parser.Chunks.Rounds.{step-view}
use dbgate_mysql_dumper.Text.Letters.{is_letter, lower}
use dbgate_mysql_dumper.Restore.BinaryLiterals.{rewrite_binary_literals}
use dbgate_mysql_dumper.Text.Blank.{trim}
use dbgate_mysql_dumper.Restore.Parser.Banner.{note_section_comment}
use dbgate_mysql_dumper.Restore.Parser.SqlMode.{track_sql_mode}
use dbgate_mysql_dumper.Restore.Parser.Command.{
  try_read_client_command, read_command_word, is_command_letter, run_command, is_separated,
  find_command, read_delimiter_command, read_delimiter_argument, accept_delimiter, strip_quotes,
  last_or, is_nil, run_of, is_whitespace,
}
use dbgate_mysql_dumper.Text.Utf8.{is_utf8}

abbrev defaults : SqlStatementParserOptions
defaults = record { max_statement_bytes = none; initial_delimiter = none; backslash_escapes = none }

abbrev texts : Result (List ParsedStatement) → Result (List Bytes)
texts (ok statements) = ok (map (λ s. s.sql) statements)
texts (err e) = err e

-- The two ways to run a script, with all that they call open.
run_chunks : List Bytes → SqlStatementParserOptions → Result (List ParsedStatement)
unfolding stream_sql_statements stream_from push finish finish_scanned scan scan_loop resume stop
    step hold_back open_comment open_construct plain is_comment_space step_minus step_maria
    step_marker step_slash step_character could_start_delimiter step_delimiter apply_command
    step_normal step_escaped step_closing step_quoted step_backtick step_line_comment step_skip
    step_block_comment step_discard step_in line_start_after append_to_statement append_up_to
    is_blank discard_pending_whitespace mark_content parsed_statement emit flush_statement keep
    newline enter must_close is_whitespace run_of is_nil last_or strip_quotes accept_delimiter
    read_delimiter_argument read_delimiter_command find_command is_separated run_command
    is_command_letter read_command_word try_read_client_command new_parser track_sql_mode
    note_section_comment trim rewrite_binary_literals is_utf8 every starts_with same any lower
    is_letter
run_chunks = stream_sql_statements

run_script : Bytes → SqlStatementParserOptions → Result (List ParsedStatement)
unfolding run_chunks parse_sql_statements
run_script = parse_sql_statements

two_statements :
    texts (run_script (codes "SELECT ';';\nINSERT -- x;\n INTO t;") defaults)
    ≡ ok (codes "SELECT ';'" ∷ codes "INSERT -- x;\n INTO t" ∷ [])
unfolding run_script
two_statements = refl

-- A comment before a statement is sent with it.
banner_before_statement :
    texts (run_script (codes "--\n-- Data of `t`\n--\n\nLOCK TABLES `t` WRITE;") defaults)
    ≡ ok (codes "--\n-- Data of `t`\n--\n\nLOCK TABLES `t` WRITE" ∷ [])
unfolding run_script
banner_before_statement = refl

delimiter_region :
    texts (run_script (codes "DELIMITER ;;\nA; B;;\nDELIMITER ;\nC;") defaults)
    ≡ ok (codes "A; B" ∷ codes "C" ∷ [])
unfolding run_script
delimiter_region = refl

unterminated :
    run_script (codes "SELECT 1;\nSELECT 'a;") defaults ≡ err (malformed_sql_dump single_quote 2)
unfolding run_script
unterminated = refl

source_refused :
    run_script (codes "\nsource x.sql") defaults
    ≡ err (unsupported_client_command (codes "source") 2)
unfolding run_script
source_refused = refl

sandbox_mode :
    texts (run_script (codes "/*M!999999\\- enable the sandbox mode */\nSELECT 1;") defaults)
    ≡ ok (codes "SELECT 1" ∷ [])
unfolding run_script
sandbox_mode = refl

-- The backslash form of a command is not seen when the chunk ends at its backslash.
backslash_at_boundary :
    texts (run_chunks (codes "\\" ∷ codes "delimiter $$\nA; B$$" ∷ []) defaults)
    ≡ ok (codes "\\delimiter $$\nA" ∷ codes "B$$" ∷ [])
unfolding run_script
backslash_at_boundary = refl

backslash_in_chunk :
    texts (run_chunks (codes "\\delimiter $$\nA; B$$" ∷ []) defaults) ≡ ok (codes "A; B" ∷ [])
unfolding run_script
backslash_in_chunk = refl

-- `SELECT 1 AS à;`: the last byte of the name is 0xA0, which `trim` takes for a blank.
nbsp_byte_trimmed :
    run_script (codes "SELECT 1 AS " ++ 0xc3 ∷ 0xa0 ∷ codes ";") defaults ≡ err (binary_literal 1)
unfolding run_script
nbsp_byte_trimmed = refl

abbrev script : List Bytes
script = codes "CREATE TABLE t (a INT);\nINS" ∷ codes "ERT INTO t VALUES (1)" ∷ codes ";\n" ∷ []

abbrev statements_of : Result (List ParsedStatement) → List ParsedStatement
statements_of (ok statements) = statements
statements_of (err e) = []

stream_sql_statements-terminates_example : stream_sql_statements script defaults ≢ err diverges
stream_sql_statements-terminates_example =
    stream_sql_statements-terminates script defaults (λ e. cc)

stream_sql_statements-Follows_example :
    (line : ℕ) × Follows 0 1
      (statements_of (run_chunks script defaults))
      (length (statements_of (run_chunks script defaults)))
      line
unfolding run_script
stream_sql_statements-Follows_example = stream_sql_statements-Follows script defaults (λ e. cc) refl

-- `SELE`, as these parts and what is pending
abbrev holding : List Bytes → ℕ → Bytes → Scan
holding parts size pending = record {
  parser = record {
    max_statement_bytes = 4096;
    backslash_escape_mode = auto;
    state = normal;
    delimiter = codes ";";
    backslash_escapes = true;
    state_before_comment = normal;
    open_line = 1;
    carry = [];
    statement_parts = parts;
    statement_byte_length = size;
    statement_start_line = some 1;
    statement_has_content = true;
    current_line = 1;
    at_line_start = false;
    next_statement_index = 0;
    finished = false;
    bytes_consumed_total = 0;
    last_section_comment = none;
    comment_text = [];
  };
  pending = pending;
  emitted = [];
}

abbrev in_parts : Scan
in_parts = holding (codes "SE" ∷ codes "L" ∷ []) 3 (codes "E")

abbrev in_pending : Scan
in_pending = holding [] 0 (codes "SELE")

step-view_example :
    view_step [] (step in_parts b'C' (codes "T 1;") false)
    ≡ view_step [] (step in_pending b'C' (codes "T 1;") false)
step-view_example =
    step-view [] [] in_parts in_pending b'C' (codes "T 1;") false
      (record { byte_length = refl; in_limit = omega arith })
      (record { byte_length = refl; in_limit = omega arith }) (inl (λ e. cc), (λ e. cc))
      (inl (λ e. cc), (λ e. cc)) refl

-- the same script, cut elsewhere
abbrev script_elsewhere : List Bytes
script_elsewhere =
    codes "CREATE TABLE t (a INT)" ∷ codes ";\nINSERT INTO t " ∷ codes "VALUES (1);\n" ∷ []

stream_sql_statements_cut_example :
    (statements' : List ParsedStatement) × (stream_sql_statements script_elsewhere defaults
      ≡ ok statements')
    × (forget_all (statements_of (run_chunks script defaults)) ≡ forget_all statements')
unfolding run_script
stream_sql_statements_cut_example =
    stream_sql_statements_cut script script_elsewhere defaults (λ e. cc)
      ((λ e. omega (arith, e)), ((λ e. omega (arith, e)), ((λ e. omega (arith, e)), tt)))
      ((λ e. omega (arith, e)), ((λ e. omega (arith, e)), ((λ e. omega (arith, e)), tt))) refl refl

step-Stable_example :
    Stable
      (codes "-- c")
      (step in_pending b'C' (codes "T 1;") false)
      (step in_pending b'C' (codes "T 1;" ++ codes "-- c") true)
step-Stable_example = step-Stable in_pending b'C' (codes "T 1;") (codes "-- c") true (λ e. cc)

abbrev empty_delimiter : SqlStatementParserOptions
empty_delimiter = record {
  max_statement_bytes = none;
  initial_delimiter = some [];
  backslash_escapes = none;
}

scan_loop-new_parser_example :
    scan_loop 9 (start (new_parser empty_delimiter)) (codes "(1)") true ≡ err diverges
unfolding is_command_letter is_letter
scan_loop-new_parser_example =
    scan_loop-new_parser 9 empty_delimiter b'(' (codes "1)") true refl refl refl
