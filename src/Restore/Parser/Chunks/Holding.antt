-- ===== src/Restore/Parser/Chunks/Holding.antt =====
-- A round that waits leaves the scan as it was.
use dbgate_mysql_dumper.Base.{
  ℕ, [], ◌∷◌, ◌≡◌, ◌≢◌, ◌⊎◌, Bytes, length, refl, subst, arith, inl, inr, Bool, drop,
}
use dbgate_mysql_dumper.Restore.Parser.State.{
  LexerState, normal, single_quote, double_quote, backtick, line_comment, block_comment,
  discard_block_comment, skip_to_end_of_line, Result, ok, err,
}
use dbgate_mysql_dumper.Restore.Parser.Step.{
  Scan, Step, advance, hold, fail, step, append_up_to, flush_statement, discard_pending_whitespace,
  attempt, hold_back, open_construct, plain, step_minus, step_maria, step_marker, step_slash,
  step_character, step_delimiter, apply_command, step_normal, step_escaped, step_closing,
  step_quoted, step_backtick, step_line_comment, step_skip, step_block_comment, step_discard,
  step_in, line_start_after,
}
use dbgate_mysql_dumper.Restore.Parser.Command.{
  Command, not_command, incomplete, set_delimiter, failed, try_read_client_command,
}
use dbgate_mysql_dumper.Restore.Parser.Chunks.Discarding.{Tidy}

abbrev restored : Bool → Scan → Scan
restored before s = record s { parser = record s.parser { at_line_start = before } }

-- When the step waits, the scan is `s` with its line-start flag put back.
abbrev Holds : Bool → Scan → Step → Type 0
Holds before s (advance s' rest) = Unit
Holds before s (hold s') = s' ≡ restored before s
Holds before s (fail e) = Unit

attempt-Holds :
    (before : Bool) (s : Scan) (m : Result Scan) (f : Scan → Step)
    → ((s' : Scan) → Holds before s (f s'))
    → Holds before s (attempt m f)
attempt-Holds before s (ok s') f h = h s'
attempt-Holds before s (err e) f h = tt

module _ (before b : Bool) (s : Scan) (c : ℕ) where
  step_minus-Holds : (r : Bytes) → Holds before s (step_minus before s c r b)
  unfolding step_minus hold_back
  step_minus-Holds [] = ground arith
  step_minus-Holds (d ∷ []) = ground arith
  step_minus-Holds (d ∷ e ∷ r) = ground arith

  step_escaped-Holds : (r : Bytes) → Holds before s (step_escaped before s c r b)
  unfolding step_escaped hold_back
  step_escaped-Holds [] = ground arith
  step_escaped-Holds (d ∷ r) = tt

  step_closing-Holds : (r : Bytes) → Holds before s (step_closing before s c r b)
  unfolding step_closing hold_back
  step_closing-Holds [] = ground arith
  step_closing-Holds (d ∷ r) = ground arith

  step_quoted-Holds : (quote : ℕ) (r : Bytes) → Holds before s (step_quoted quote before s c r b)
  unfolding step_quoted
  step_quoted-Holds quote r = ground (arith, step_escaped-Holds r, step_closing-Holds r)

  step_backtick-Holds : (r : Bytes) → Holds before s (step_backtick before s c r b)
  unfolding step_backtick
  step_backtick-Holds r = ground (arith, step_closing-Holds r)

  step_line_comment-Holds : (r : Bytes) → Holds before s (step_line_comment s c r)
  unfolding step_line_comment
  step_line_comment-Holds r = ground arith

  step_skip-Holds : (r : Bytes) → Holds before s (step_skip s c r)
  unfolding step_skip
  step_skip-Holds r = attempt-Holds before s (append_up_to s) _ (λ s'. ground arith)

  step_block_comment-Holds : (r : Bytes) → Holds before s (step_block_comment before s c r b)
  unfolding step_block_comment hold_back
  step_block_comment-Holds [] = ground arith
  step_block_comment-Holds (d ∷ r) = ground arith

  step_discard-Holds : (r : Bytes) → s.pending ≡ [] → Holds before s (step_discard before s c r b)
  unfolding step_discard hold_back
  step_discard-Holds [] h = ground arith
  step_discard-Holds (d ∷ r) h = ground arith

  step_maria-Holds : (d : ℕ) (r : Bytes) → Holds before s (step_maria before s c d r b)
  unfolding step_maria hold_back
  step_maria-Holds d r = ground (
    arith,
    attempt-Holds before s (append_up_to s)
        (λ s'. advance (open_construct discard_block_comment s') r) (λ s'. tt),
  )

  step_marker-Holds :
      (d marker : ℕ) (r : Bytes) → Holds before s (step_marker before s c d marker r b)
  unfolding step_marker hold_back
  step_marker-Holds d marker [] = ground arith
  step_marker-Holds d marker (e ∷ r) = ground (arith, step_maria-Holds d (marker ∷ e ∷ r))

  step_slash-Holds : (r : Bytes) → Holds before s (step_slash before s c r b)
  unfolding step_slash hold_back
  step_slash-Holds [] = ground arith
  step_slash-Holds (d ∷ []) = ground arith
  step_slash-Holds (d ∷ marker ∷ r) = ground (arith, step_marker-Holds d marker r)

  step_character-Holds : (r : Bytes) → Holds before s (step_character before s c r b)
  unfolding step_character plain
  step_character-Holds r = ground (arith, step_minus-Holds r, step_slash-Holds r)

  step_delimiter-Holds : (r : Bytes) → Holds before s (step_delimiter before s c r b)
  unfolding step_delimiter hold_back
  step_delimiter-Holds r =
      let rest = drop (length s.parser.delimiter) (c ∷ r) in
      ground (
        arith,
        step_character-Holds r,
        attempt-Holds before s (append_up_to s)
            (λ s'. attempt (flush_statement s') (λ flushed. advance flushed rest))
            (λ s'.
              attempt-Holds before s (flush_statement s') (λ flushed. advance flushed rest)
                (λ flushed. tt)),
      )

  apply_command-Holds :
      (command : Command) (t : Step)
      → Holds before s t
      → Holds before s (apply_command command before s t)
  unfolding apply_command hold_back
  apply_command-Holds not_command t h = h
  apply_command-Holds incomplete t h = refl
  apply_command-Holds (failed e) t h = tt
  apply_command-Holds (set_delimiter delimiter rest) t h =
      attempt-Holds before s _ (λ s'. advance (discard_pending_whitespace s') rest) (λ s'. tt)

  step_normal-Holds : (r : Bytes) → Holds before s (step_normal before s c r b)
  unfolding step_normal
  step_normal-Holds r = ground (
    arith,
    step_delimiter-Holds r,
    apply_command-Holds (try_read_client_command (c ∷ r) s.parser.current_line b) _
        (step_delimiter-Holds r),
  )

  step_in-Holds :
      (state : LexerState) (r : Bytes)
      → (state ≢ discard_block_comment) ⊎ (s.pending ≡ [])
      → Holds before s (step_in state before s c r b)
  unfolding step_in
  step_in-Holds normal r h = step_normal-Holds r
  step_in-Holds single_quote r h = step_quoted-Holds b'\'' r
  step_in-Holds double_quote r h = step_quoted-Holds b'"' r
  step_in-Holds backtick r h = step_backtick-Holds r
  step_in-Holds line_comment r h = step_line_comment-Holds r
  step_in-Holds skip_to_end_of_line r h = step_skip-Holds r
  step_in-Holds block_comment r h = step_block_comment-Holds r
  step_in-Holds discard_block_comment r (inl h) = absurd (h refl)
  step_in-Holds discard_block_comment r (inr h) = step_discard-Holds r h

-- A round that waits for more text hands back the scan it was given.
pub step-hold :
    (s s' : Scan) (c : ℕ) (r : Bytes) (b : Bool) → Tidy s → step s c r b ≡ hold s' → s' ≡ s
unfolding step
step-hold s s' c r b h e =
    let before = s.parser.at_line_start in
    let begun = record s {
      parser = record s.parser { at_line_start = line_start_after before c };
    } in
    subst (Holds before begun) e (step_in-Holds before b begun c s.parser.state r h.0)
