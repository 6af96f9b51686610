-- ===== src/Restore/Parser/State.antt =====
-- The data of the statement parser: its lexer states, fields, statements and errors.
use dbgate_mysql_dumper.Base.{ℕ, Bool, true, false, [], List, Option, none, ◌*◌, Bytes, codes}

pub data LexerState : Type 0 where
  normal single_quote double_quote backtick line_comment : LexerState
  block_comment discard_block_comment skip_to_end_of_line : LexerState

pub data BackslashEscapeMode : Type 0 where
  auto enabled disabled : BackslashEscapeMode

pub record ParsedStatement : Type 0 where
  pub statement_index : ℕ
  pub sql : Bytes
  pub start_line : ℕ
  pub end_line : ℕ
  pub delimiter : Bytes
  pub current_object : Option Bytes
  pub bytes_consumed : ℕ
  pub binary_literals_rewritten : ℕ

pub data DelimiterFault : Type 0 where
  too_long required has_backslash : DelimiterFault

-- What the parser throws, with the line that the error reports. `diverges` is the model's own: the
-- loop of `scan` has not ended within its fuel.
pub data ParseError : Type 0 where
  push_after_finish finished_twice diverges : ParseError
  malformed_sql_dump : LexerState → ℕ → ParseError
  invalid_delimiter : Bytes → ℕ → DelimiterFault → ParseError
  statement_too_large : ℕ → ℕ → ParseError
  unsupported_client_command : Bytes → ℕ → ParseError
  binary_literal : ℕ → ParseError

pub data Result {ℓ} (A : Type ℓ) : Type ℓ where
  ok : A → Result A
  err : ParseError → Result A

infixl 5 ◌>>=◌
abbrev pub ◌>>=◌ {ℓ κ} : {A : Type ℓ} {B : Type κ} → Result A → (A → Result B) → Result B
ok a >>= f = f a
err e >>= f = err e

-- `statement_parts` are the fragments of the statement, `max_statement_bytes` and
-- `backslash_escape_mode` the two constant fields.
pub record Parser : Type 0 where
  pub max_statement_bytes : ℕ
  pub backslash_escape_mode : BackslashEscapeMode
  pub state : LexerState
  pub delimiter : Bytes
  pub backslash_escapes : Bool
  pub state_before_comment : LexerState
  pub open_line : ℕ
  pub carry : Bytes
  pub statement_parts : List Bytes
  pub statement_byte_length : ℕ
  pub statement_start_line : Option ℕ
  pub statement_has_content : Bool
  pub current_line : ℕ
  pub at_line_start : Bool
  pub next_statement_index : ℕ
  pub finished : Bool
  pub bytes_consumed_total : ℕ
  pub last_section_comment : Option Bytes
  pub comment_text : Bytes

pub record SqlStatementParserOptions : Type 0 where
  pub max_statement_bytes : Option ℕ
  pub initial_delimiter : Option Bytes
  pub backslash_escapes : Option BackslashEscapeMode

abbrev or_default {ℓ} : {A : Type ℓ} → Option A → A → A
or_default none d = d
or_default (Option.some a) d = a

abbrev is_enabled : BackslashEscapeMode → Bool
is_enabled disabled = false
is_enabled _ = true

-- the constructor of the class
unfoldable pub new_parser : SqlStatementParserOptions → Parser
new_parser options = record {
  max_statement_bytes = or_default options.max_statement_bytes (256 * 1024 * 1024);
  backslash_escape_mode = or_default options.backslash_escapes auto;
  state = normal;
  delimiter = or_default options.initial_delimiter (codes ";");
  backslash_escapes = is_enabled (or_default options.backslash_escapes auto);
  state_before_comment = normal;
  open_line = 1;
  carry = [];
  statement_parts = [];
  statement_byte_length = 0;
  statement_start_line = none;
  statement_has_content = false;
  current_line = 1;
  at_line_start = true;
  next_statement_index = 0;
  finished = false;
  bytes_consumed_total = 0;
  last_section_comment = none;
  comment_text = [];
}
