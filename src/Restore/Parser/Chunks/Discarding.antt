-- ===== src/Restore/Parser/Chunks/Discarding.antt =====
-- While a comment is discarded nothing is pending.
use dbgate_mysql_dumper.Base.{ℕ, [], ◌∷◌, ◌≡◌, ◌≢◌, ◌⊎◌, Bytes, length, refl, arith, Bool, drop}
use dbgate_mysql_dumper.Restore.Parser.State.{
  LexerState, normal, single_quote, double_quote, backtick, line_comment, block_comment,
  discard_block_comment, skip_to_end_of_line, Result, ok, err,
}
use dbgate_mysql_dumper.Restore.Parser.Step.{
  Scan, Step, advance, hold, fail, step, append_up_to, flush_statement, append_to_statement,
  discard_pending_whitespace, mark_content, keep, newline, enter, attempt, hold_back, open_comment,
  open_construct, plain, step_minus, step_maria, step_marker, step_slash, step_character,
  step_delimiter, apply_command, step_normal, step_escaped, step_closing, step_quoted,
  step_backtick, step_line_comment, step_skip, step_block_comment, step_discard, step_in, emit,
}
use dbgate_mysql_dumper.Restore.Parser.Command.{
  Command, not_command, incomplete, set_delimiter, failed, try_read_client_command,
}

abbrev pub Tidy : Scan → Type 0
Tidy s =
    ((s.parser.state ≢ discard_block_comment) ⊎ (s.pending ≡ []))
    × (s.parser.state_before_comment ≢ discard_block_comment)

abbrev pub TidyStep : Step → Type 0
TidyStep (advance s rest) = Tidy s
TidyStep (hold s) = Tidy s
TidyStep (fail e) = Unit

pub append_up_to-Tidy :
    (s s' : Scan)
    → append_up_to s ≡ ok s'
    → (s'.pending ≡ []) × (s'.parser.state_before_comment ≡ s.parser.state_before_comment)
unfolding append_up_to append_to_statement
append_up_to-Tidy s s' e = ground arith

flush_statement-Tidy :
    (s s' : Scan)
    → s.pending ≡ []
    → flush_statement s ≡ ok s'
    → (s'.pending ≡ []) × (s'.parser.state_before_comment ≡ s.parser.state_before_comment)
unfolding flush_statement emit
flush_statement-Tidy s s' h e = ground arith

attempt-TidyStep :
    (m : Result Scan) (f : Scan → Step)
    → ((s : Scan) → m ≡ ok s → TidyStep (f s))
    → TidyStep (attempt m f)
attempt-TidyStep (ok s) f k = k s refl
attempt-TidyStep (err e) f k = tt

module _ (before : Bool) (s : Scan) (c : ℕ) (h : s.parser.state ≢ discard_block_comment)
    (k : s.parser.state_before_comment ≢ discard_block_comment) where
  plain-TidyStep : (r : Bytes) → TidyStep (plain s c r)
  unfolding plain keep newline mark_content
  plain-TidyStep r = ground arith

  step_minus-TidyStep : (r : Bytes) (at_end : Bool) → TidyStep (step_minus before s c r at_end)
  unfolding step_minus hold_back open_comment keep mark_content
  step_minus-TidyStep [] at_end = ground arith
  step_minus-TidyStep (d ∷ []) at_end = ground arith
  step_minus-TidyStep (d ∷ e ∷ r) at_end = ground arith

  step_maria-TidyStep :
      (d : ℕ) (r : Bytes) (at_end : Bool) → TidyStep (step_maria before s c d r at_end)
  unfolding step_maria hold_back open_construct keep mark_content
  step_maria-TidyStep d r at_end = ground (
    arith,
    attempt-TidyStep (append_up_to s) (λ s'. advance (open_construct discard_block_comment s') r)
        (λ s' e. ground (arith, append_up_to-Tidy s s' e)),
  )

  step_marker-TidyStep :
      (d marker : ℕ) (r : Bytes) (at_end : Bool)
      → TidyStep (step_marker before s c d marker r at_end)
  unfolding step_marker hold_back open_construct keep mark_content
  step_marker-TidyStep d marker [] at_end = ground arith
  step_marker-TidyStep d marker (e ∷ r) at_end =
      ground (arith, step_maria-TidyStep d (marker ∷ e ∷ r) at_end)

  step_slash-TidyStep : (r : Bytes) (at_end : Bool) → TidyStep (step_slash before s c r at_end)
  unfolding step_slash hold_back open_construct keep mark_content
  step_slash-TidyStep [] at_end = ground arith
  step_slash-TidyStep (d ∷ []) at_end = ground arith
  step_slash-TidyStep (d ∷ marker ∷ r) at_end =
      ground (arith, step_marker-TidyStep d marker r at_end)

  step_character-TidyStep :
      (r : Bytes) (at_end : Bool) → TidyStep (step_character before s c r at_end)
  unfolding step_character open_comment open_construct keep mark_content
  step_character-TidyStep r at_end =
      ground (arith, plain-TidyStep r, step_minus-TidyStep r at_end, step_slash-TidyStep r at_end)

  step_delimiter-TidyStep :
      (r : Bytes) (at_end : Bool) → TidyStep (step_delimiter before s c r at_end)
  unfolding step_delimiter hold_back
  step_delimiter-TidyStep r at_end = ground (
    arith,
    step_character-TidyStep r at_end,
    attempt-TidyStep (append_up_to s)
        (λ s'.
          attempt (flush_statement s')
            (λ flushed. advance flushed (drop (length s.parser.delimiter) (c ∷ r))))
        (λ s' e. attempt-TidyStep (flush_statement s') _ (λ s'' e'. ground (
          arith,
          append_up_to-Tidy s s' e,
          flush_statement-Tidy s' s'' (append_up_to-Tidy s s' e).0 e',
        ))),
  )

  apply_command-TidyStep :
      (command : Command) (otherwise : Step)
      → TidyStep otherwise
      → TidyStep (apply_command command before s otherwise)
  unfolding apply_command hold_back discard_pending_whitespace
  apply_command-TidyStep not_command otherwise t = t
  apply_command-TidyStep incomplete otherwise t = ground arith
  apply_command-TidyStep (failed e) otherwise t = tt
  apply_command-TidyStep (set_delimiter delimiter rest) otherwise t =
      attempt-TidyStep _ (λ s'. advance (discard_pending_whitespace s') rest)
        (λ s' e. ground (arith, append_up_to-Tidy _ s' e))

  step_normal-TidyStep : (r : Bytes) (at_end : Bool) → TidyStep (step_normal before s c r at_end)
  unfolding step_normal
  step_normal-TidyStep r at_end = ground (
    arith,
    step_delimiter-TidyStep r at_end,
    apply_command-TidyStep (try_read_client_command (c ∷ r) s.parser.current_line at_end) _
        (step_delimiter-TidyStep r at_end),
  )

  step_escaped-TidyStep : (r : Bytes) (at_end : Bool) → TidyStep (step_escaped before s c r at_end)
  unfolding step_escaped hold_back keep newline
  step_escaped-TidyStep [] at_end = ground arith
  step_escaped-TidyStep (d ∷ r) at_end = ground arith

  step_closing-TidyStep : (r : Bytes) (at_end : Bool) → TidyStep (step_closing before s c r at_end)
  unfolding step_closing hold_back keep enter
  step_closing-TidyStep [] at_end = ground arith
  step_closing-TidyStep (d ∷ r) at_end = ground arith

  step_quoted-TidyStep :
      (quote : ℕ) (r : Bytes) (at_end : Bool) → TidyStep (step_quoted quote before s c r at_end)
  unfolding step_quoted keep newline
  step_quoted-TidyStep quote r at_end =
      ground (arith, step_escaped-TidyStep r at_end, step_closing-TidyStep r at_end)

  step_backtick-TidyStep :
      (r : Bytes) (at_end : Bool) → TidyStep (step_backtick before s c r at_end)
  unfolding step_backtick keep newline
  step_backtick-TidyStep r at_end = ground (arith, step_closing-TidyStep r at_end)

  step_block_comment-TidyStep :
      (r : Bytes) (at_end : Bool) → TidyStep (step_block_comment before s c r at_end)
  unfolding step_block_comment hold_back keep enter newline
  step_block_comment-TidyStep [] at_end = ground arith
  step_block_comment-TidyStep (d ∷ r) at_end = ground arith

step_line_comment-TidyStep :
    (s : Scan) (c : ℕ) (r : Bytes)
    → s.parser.state ≢ discard_block_comment
    → s.parser.state_before_comment ≢ discard_block_comment
    → TidyStep (step_line_comment s c r)
unfolding step_line_comment keep newline
step_line_comment-TidyStep s c r h k = ground arith

step_skip-TidyStep : (s : Scan) (c : ℕ) (r : Bytes) → Tidy s → TidyStep (step_skip s c r)
unfolding step_skip enter newline
step_skip-TidyStep s c r h =
    attempt-TidyStep (append_up_to s) _ (λ s' e. ground (arith, append_up_to-Tidy s s' e))

step_discard-TidyStep :
    (before : Bool) (s : Scan) (c : ℕ) (r : Bytes) (at_end : Bool)
    → Tidy s
    → TidyStep (step_discard before s c r at_end)
unfolding step_discard hold_back enter newline
step_discard-TidyStep before s c [] at_end h = ground arith
step_discard-TidyStep before s c (d ∷ r) at_end h = ground arith

step_in-TidyStep :
    (before : Bool) (s : Scan) (c : ℕ) (r : Bytes) (at_end : Bool) (state : LexerState)
    → s.parser.state ≡ state
    → Tidy s
    → TidyStep (step_in state before s c r at_end)
unfolding step_in
step_in-TidyStep before s c r at_end normal e h = step_normal-TidyStep before s c (cc) h.1 r at_end
step_in-TidyStep before s c r at_end single_quote e h =
    step_quoted-TidyStep before s c (cc) h.1 b'\'' r at_end
step_in-TidyStep before s c r at_end double_quote e h =
    step_quoted-TidyStep before s c (cc) h.1 b'"' r at_end
step_in-TidyStep before s c r at_end backtick e h =
    step_backtick-TidyStep before s c (cc) h.1 r at_end
step_in-TidyStep before s c r at_end line_comment e h = step_line_comment-TidyStep s c r (cc) h.1
step_in-TidyStep before s c r at_end skip_to_end_of_line e h = step_skip-TidyStep s c r h
step_in-TidyStep before s c r at_end block_comment e h =
    step_block_comment-TidyStep before s c (cc) h.1 r at_end
step_in-TidyStep before s c r at_end discard_block_comment e h =
    step_discard-TidyStep before s c r at_end h

pub step-TidyStep :
    (s : Scan) (c : ℕ) (r : Bytes) (at_end : Bool) → Tidy s → TidyStep (step s c r at_end)
unfolding step
step-TidyStep s c r at_end h = step_in-TidyStep _ _ c r at_end s.parser.state refl h
