-- ===== src/Restore/Parser/Step.antt =====
-- One round of the loop in `scan`. The text is `text.slice(index)`, which starts with the character
-- `c` at the index and goes on with `r`; `pending` is `text.slice(appendFrom, index)`.
mod Statement
pub use Statement.{Scan, line_or, cleared}
unfoldable pub use Statement.{
  append_to_statement, append_up_to, is_blank, discard_pending_whitespace, mark_content,
  parsed_statement, emit, flush_statement, keep, newline, enter,
}
use dbgate_mysql_dumper.Base.{
  ℕ, Bool, true, false, ◌&&◌, ◌||◌, not, [], ◌∷◌, ◌++◌, ltb, ◌==◌, if◌then◌else◌, Bytes, codes,
  length, drop, starts_with,
}
use dbgate_mysql_dumper.Restore.Parser.State.{
  LexerState, normal, single_quote, double_quote, backtick, line_comment, block_comment,
  discard_block_comment, skip_to_end_of_line, ParseError, Result, ok, err,
}
use dbgate_mysql_dumper.Restore.Parser.Banner.{note_section_comment}
use dbgate_mysql_dumper.Restore.Parser.Command.{
  Command, not_command, incomplete, set_delimiter, failed, try_read_client_command, is_whitespace,
}

-- `advance` goes on with the rest of the text. `hold` is `holdBack(index)` and `return`, before what
-- is pending is appended; the rest of the text is carried over.
pub data Step : Type 0 where
  advance : Scan → Bytes → Step
  hold : Scan → Step
  fail : ParseError → Step

abbrev pub attempt : Result Scan → (Scan → Step) → Step
attempt (ok s) f = f s
attempt (err e) f = fail e

-- `holdBack`: the effect of the character on the line-start flag is undone.
unfoldable pub hold_back : Bool → Scan → Step
hold_back at_line_start s =
    hold (record s { parser = record s.parser { at_line_start = at_line_start } })

-- An end of the text: it decides at the end of the input, and waits before.
abbrev pub at_text_end : Bool → Bool → Scan → Step → Step
at_text_end at_end before s otherwise = if at_end then otherwise else hold_back before s

-- `/*`, `--` and `#` open
unfoldable pub open_comment : Scan → Scan
open_comment s = record s {
  parser = record s.parser {
    state_before_comment = normal;
    state = line_comment;
    comment_text = [];
  };
}

-- `this.openLine = this.currentLine`, with the new state
unfoldable pub open_construct : LexerState → Scan → Scan
open_construct state s = record s {
  parser = record s.parser { state = state; open_line = s.parser.current_line };
}

-- Not special: the end of `case 'normal'`.
unfoldable pub plain : Scan → ℕ → Bytes → Step
plain s c r =
    let marked = if is_whitespace c then s else mark_content s in
    advance (keep c (if c == b'\n' then newline marked else marked)) r

-- The test on the character behind `--`.
unfoldable pub is_comment_space : ℕ → Bool
is_comment_space c = is_whitespace c || ltb c b' '

unfoldable pub step_minus : Bool → Scan → ℕ → Bytes → Bool → Step
step_minus before s c [] at_end = at_text_end at_end before s (advance (keep c s) [])
step_minus before s c (d ∷ []) at_end =
    if d == b'-'
    then at_text_end at_end before s (advance (keep d (keep c (open_comment s))) [])
    else advance (keep c (mark_content s)) (d ∷ [])
step_minus before s c (d ∷ e ∷ r) at_end =
    if d == b'-' && is_comment_space e
    then advance (keep d (keep c (open_comment s))) (e ∷ r)
    else advance (keep c (mark_content s)) (d ∷ e ∷ r)

abbrev pub sandbox_prefix : Bytes
sandbox_prefix = codes "/*M!999999"

-- `/*M!`; `text` is `remaining`
unfoldable pub step_maria : Bool → Scan → ℕ → ℕ → Bytes → Bool → Step
step_maria before s c d r at_end =
    if starts_with (c ∷ d ∷ r) sandbox_prefix && not at_end
    then hold_back before s
    else if starts_with sandbox_prefix (c ∷ d ∷ r)
    then attempt (append_up_to s) (λ s'. advance (open_construct discard_block_comment s') r)
    else advance (keep d (keep c (mark_content s))) r

-- `/*` with the character behind it
unfoldable pub step_marker : Bool → Scan → ℕ → ℕ → ℕ → Bytes → Bool → Step
step_marker before s c d marker [] at_end =
    if marker == b'M' && not at_end
    then hold_back before s
    else if marker == b'!' || marker == b'+'
    then advance (keep d (keep c (mark_content s))) (marker ∷ [])
    else advance (keep d (keep c (open_construct block_comment s))) (marker ∷ [])
step_marker before s c d marker (e ∷ r) at_end =
    if marker == b'M' && e == b'!'
    then step_maria before s c d (marker ∷ e ∷ r) at_end
    else if marker == b'!' || marker == b'+'
    then advance (keep d (keep c (mark_content s))) (marker ∷ e ∷ r)
    else advance (keep d (keep c (open_construct block_comment s))) (marker ∷ e ∷ r)

unfoldable pub step_slash : Bool → Scan → ℕ → Bytes → Bool → Step
step_slash before s c [] at_end = at_text_end at_end before s (advance (keep c (mark_content s)) [])
step_slash before s c (d ∷ []) at_end =
    if d == b'*'
    then at_text_end at_end before s (advance (keep d (keep c (open_construct block_comment s))) [])
    else advance (keep c (mark_content s)) (d ∷ [])
step_slash before s c (d ∷ marker ∷ r) at_end =
    if d == b'*'
    then step_marker before s c d marker r at_end
    else advance (keep c (mark_content s)) (d ∷ marker ∷ r)

abbrev pub opened : LexerState → Scan → ℕ → Scan
opened state s c = keep c (mark_content (open_construct state s))

-- the tests on the character in `case 'normal'`
unfoldable pub step_character : Bool → Scan → ℕ → Bytes → Bool → Step
step_character before s c r at_end =
    if c == b'\''
    then advance (opened single_quote s c) r
    else if c == b'"'
    then advance (opened double_quote s c) r
    else if c == b'`'
    then advance (opened backtick s c) r
    else if c == b'#'
    then advance (keep c (open_comment s)) r
    else if c == b'-'
    then step_minus before s c r at_end
    else if c == b'/'
    then step_slash before s c r at_end
    else plain s c r

-- `couldStartDelimiterAt`
unfoldable pub could_start_delimiter : Bytes → Bytes → Bool
could_start_delimiter delimiter text =
    ltb (length text) (length delimiter) && starts_with text delimiter

-- `matchesDelimiterAt` and what follows a match
unfoldable pub step_delimiter : Bool → Scan → ℕ → Bytes → Bool → Step
step_delimiter before s c r at_end =
    if starts_with s.parser.delimiter (c ∷ r)
    then attempt (append_up_to s) (λ s'.
      attempt (flush_statement s')
        (λ flushed. advance flushed (drop (length s.parser.delimiter) (c ∷ r))))
    else if not at_end && could_start_delimiter s.parser.delimiter (c ∷ r)
    then hold_back before s
    else step_character before s c r at_end

-- A client command that was read, or the step without one.
unfoldable pub apply_command : Command → Bool → Scan → Step → Step
apply_command not_command before s otherwise = otherwise
apply_command incomplete before s otherwise = hold_back before s
apply_command (failed e) before s otherwise = fail e
apply_command (set_delimiter delimiter rest) before s otherwise =
    attempt
      (append_up_to (record s {
        parser = record s.parser { delimiter = delimiter; state = skip_to_end_of_line };
      }))
      (λ s'. advance (discard_pending_whitespace s') rest)

unfoldable pub step_normal : Bool → Scan → ℕ → Bytes → Bool → Step
step_normal before s c r at_end =
    if not s.parser.statement_has_content && before
    then apply_command (try_read_client_command (c ∷ r) s.parser.current_line at_end) before s
        (step_delimiter before s c r at_end)
    else step_delimiter before s c r at_end

-- A backslash in a string, with escapes on.
unfoldable pub step_escaped : Bool → Scan → ℕ → Bytes → Bool → Step
step_escaped before s c [] at_end = at_text_end at_end before s (advance (keep c s) [])
step_escaped before s c (d ∷ r) at_end =
    advance (keep d (keep c (if d == b'\n' then newline s else s))) r

-- A quote of the kind that is open.
unfoldable pub step_closing : Bool → Scan → ℕ → Bytes → Bool → Step
step_closing before s c [] at_end =
    at_text_end at_end before s (advance (keep c (enter normal s)) [])
step_closing before s c (d ∷ r) at_end =
    if d == c then advance (keep d (keep c s)) r else advance (keep c (enter normal s)) (d ∷ r)

-- what a construct does with any other character
abbrev pub inside : Scan → ℕ → Bytes → Step
inside s c r = advance (keep c (if c == b'\n' then newline s else s)) r

unfoldable pub step_quoted : ℕ → Bool → Scan → ℕ → Bytes → Bool → Step
step_quoted quote before s c r at_end =
    if s.parser.backslash_escapes && c == b'\\'
    then step_escaped before s c r at_end
    else if c == quote
    then step_closing before s c r at_end
    else inside s c r

unfoldable pub step_backtick : Bool → Scan → ℕ → Bytes → Bool → Step
step_backtick before s c r at_end =
    if c == b'`' then step_closing before s c r at_end else inside s c r

unfoldable pub step_line_comment : Scan → ℕ → Bytes → Step
step_line_comment s c r =
    if c == b'\n'
    then advance
        (keep c (
          newline (record s {
            parser = record s.parser {
              last_section_comment =
                  note_section_comment s.parser.comment_text s.parser.last_section_comment;
              comment_text = [];
              state = s.parser.state_before_comment;
            };
          })))
        r
    else if c == b'\r'
    then advance (keep c s) r
    else advance
        (keep c (record s {
          parser = record s.parser { comment_text = s.parser.comment_text ++ c ∷ [] };
        }))
        r

unfoldable pub step_skip : Scan → ℕ → Bytes → Step
step_skip s c r =
    attempt (append_up_to s)
      (λ s'. advance (if c == b'\n' then newline (enter normal s') else s') r)

unfoldable pub step_block_comment : Bool → Scan → ℕ → Bytes → Bool → Step
step_block_comment before s c [] at_end =
    if c == b'*' && not at_end then hold_back before s else inside s c []
step_block_comment before s c (d ∷ r) at_end =
    if c == b'*' && d == b'/'
    then advance (keep d (keep c (enter normal s))) r
    else inside s c (d ∷ r)

-- Nothing of the comment is kept: `appendFrom` follows the index.
abbrev pub dropped : Scan → Scan
dropped s = record s { pending = [] }

unfoldable pub step_discard : Bool → Scan → ℕ → Bytes → Bool → Step
step_discard before s c [] at_end =
    if c == b'*' && not at_end
    then hold_back before (dropped s)
    else advance (dropped (if c == b'\n' then newline s else s)) []
step_discard before s c (d ∷ r) at_end =
    if c == b'*' && d == b'/'
    then advance (dropped (enter normal s)) r
    else advance (dropped (if c == b'\n' then newline s else s)) (d ∷ r)

-- `switch (this.state)`
unfoldable pub step_in : LexerState → Bool → Scan → ℕ → Bytes → Bool → Step
step_in normal before s c r at_end = step_normal before s c r at_end
step_in single_quote before s c r at_end = step_quoted b'\'' before s c r at_end
step_in double_quote before s c r at_end = step_quoted b'"' before s c r at_end
step_in backtick before s c r at_end = step_backtick before s c r at_end
step_in line_comment before s c r at_end = step_line_comment s c r
step_in skip_to_end_of_line before s c r at_end = step_skip s c r
step_in block_comment before s c r at_end = step_block_comment before s c r at_end
step_in discard_block_comment before s c r at_end = step_discard before s c r at_end

-- The line-start flag, behind the character.
unfoldable pub line_start_after : Bool → ℕ → Bool
line_start_after before c = if c == b'\n' then true else if is_whitespace c then before else false

unfoldable pub step : Scan → ℕ → Bytes → Bool → Step
step s c r at_end =
    step_in s.parser.state s.parser.at_line_start
      (record s {
        parser = record s.parser { at_line_start = line_start_after s.parser.at_line_start c };
      })
      c r at_end
