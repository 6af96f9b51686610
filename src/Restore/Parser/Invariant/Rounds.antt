-- ===== src/Restore/Parser/Invariant/Rounds.antt =====
-- Every round keeps the invariant.
use dbgate_mysql_dumper.Restore.Parser.Invariant.Ops.{
  discard_pending_whitespace-Inv, enter-Inv, flush_statement-Kept, keep-Inv, newline-Inv,
  mark_content-Inv, append_up_to-Kept,
}
use dbgate_mysql_dumper.Base.{
  ℕ, ◌≤◌, [], ◌∷◌, ◌≢◌, Bytes, length, refl, arith, Bool, drop, length-drop,
}
use dbgate_mysql_dumper.Restore.Parser.State.{
  LexerState, normal, single_quote, double_quote, backtick, line_comment, block_comment,
  discard_block_comment, skip_to_end_of_line, Result, ok, err,
}
use dbgate_mysql_dumper.Restore.Parser.Step.{
  Scan, Step, advance, step, append_up_to, flush_statement, discard_pending_whitespace,
  mark_content, keep, newline, enter, attempt, inside, hold_back, open_comment, open_construct,
  plain, step_minus, step_maria, step_marker, step_slash, step_character, step_delimiter,
  apply_command, step_normal, step_escaped, step_closing, step_quoted, step_backtick,
  step_line_comment, step_skip, step_block_comment, step_discard, step_in,
}
use dbgate_mysql_dumper.Restore.Parser.Command.{
  Command, not_command, incomplete, set_delimiter, failed, try_read_client_command,
}
use dbgate_mysql_dumper.Restore.Parser.Invariant.{Kept, Inv, Good}
use dbgate_mysql_dumper.Restore.Parser.Invariant.Commands.{Sound, try_read_client_command-Sound}

drop-shorter :
    (c : ℕ) (r delimiter : Bytes)
    → delimiter ≢ []
    → length (drop (length delimiter) (c ∷ r)) ≤ length r
drop-shorter c r [] h = absurd (h refl)
drop-shorter c r (d ∷ ds) h = omega (arith, length-drop (length ds) r)

module _ {n line : ℕ} (before : Bool) (s : Scan) (c : ℕ) (h : Inv n line s) where
  plain-Good : (r : Bytes) → Good n line r (plain s c r)
  unfolding plain keep newline mark_content
  plain-Good r = grind (arith, keep-Inv, newline-Inv, mark_content-Inv)

  inside-Good : (r : Bytes) → Good n line r (inside s c r)
  unfolding keep
  inside-Good r = ground (arith, newline-Inv h)

  step_minus-Good : (r : Bytes) (at_end : Bool) → Good n line r (step_minus before s c r at_end)
  unfolding step_minus hold_back open_comment keep mark_content
  step_minus-Good [] at_end = ground arith
  step_minus-Good (d ∷ []) at_end = ground arith
  step_minus-Good (d ∷ e ∷ r) at_end = ground arith

  step_maria-Good :
      (d : ℕ) (r : Bytes) (at_end : Bool) → Good n line (d ∷ r) (step_maria before s c d r at_end)
  unfolding step_maria hold_back open_construct keep mark_content
  step_maria-Good d r at_end = ground (arith, append_up_to-Kept h)

  step_marker-Good :
      (d marker : ℕ) (r : Bytes) (at_end : Bool)
      → Good n line (d ∷ marker ∷ r) (step_marker before s c d marker r at_end)
  unfolding step_marker hold_back open_construct keep mark_content
  step_marker-Good d marker [] at_end = ground arith
  step_marker-Good d marker (e ∷ r) at_end =
      ground (arith, step_maria-Good d (marker ∷ e ∷ r) at_end)

  step_slash-Good : (r : Bytes) (at_end : Bool) → Good n line r (step_slash before s c r at_end)
  unfolding step_slash hold_back open_construct keep mark_content
  step_slash-Good [] at_end = ground arith
  step_slash-Good (d ∷ []) at_end = ground arith
  step_slash-Good (d ∷ marker ∷ r) at_end = ground (arith, step_marker-Good d marker r at_end)

  step_character-Good :
      (r : Bytes) (at_end : Bool) → Good n line r (step_character before s c r at_end)
  unfolding step_character open_construct open_comment keep mark_content
  step_character-Good r at_end =
      ground (arith, plain-Good r, step_minus-Good r at_end, step_slash-Good r at_end)

  step_escaped-Good : (r : Bytes) (at_end : Bool) → Good n line r (step_escaped before s c r at_end)
  unfolding step_escaped hold_back keep
  step_escaped-Good [] at_end = ground arith
  step_escaped-Good (d ∷ r) at_end = ground (arith, newline-Inv h)

  step_closing-Good : (r : Bytes) (at_end : Bool) → Good n line r (step_closing before s c r at_end)
  unfolding step_closing hold_back keep enter
  step_closing-Good [] at_end = ground arith
  step_closing-Good (d ∷ r) at_end = ground arith

  step_quoted-Good :
      (quote : ℕ) (r : Bytes) (at_end : Bool)
      → Good n line r (step_quoted quote before s c r at_end)
  unfolding step_quoted
  step_quoted-Good quote r at_end =
      ground (arith, inside-Good r, step_escaped-Good r at_end, step_closing-Good r at_end)

  step_backtick-Good :
      (r : Bytes) (at_end : Bool) → Good n line r (step_backtick before s c r at_end)
  unfolding step_backtick
  step_backtick-Good r at_end = ground (arith, inside-Good r, step_closing-Good r at_end)

  step_block_comment-Good :
      (r : Bytes) (at_end : Bool) → Good n line r (step_block_comment before s c r at_end)
  unfolding step_block_comment hold_back keep enter
  step_block_comment-Good [] at_end = ground (arith, inside-Good [])
  step_block_comment-Good (d ∷ r) at_end = ground (arith, inside-Good (d ∷ r))

  step_discard-Good : (r : Bytes) (at_end : Bool) → Good n line r (step_discard before s c r at_end)
  unfolding step_discard hold_back enter
  step_discard-Good [] at_end = ground (arith, newline-Inv h)
  step_discard-Good (d ∷ r) at_end = ground (arith, newline-Inv h)

  step_line_comment-Good : (r : Bytes) → Good n line r (step_line_comment s c r)
  unfolding step_line_comment keep newline
  step_line_comment-Good r = ground (arith, newline-Inv h)

attempt-Good :
    {n line : ℕ} (text : Bytes) (m : Result Scan) (f : Scan → Step)
    → Kept n line m
    → ((s : Scan) → Inv n line s → Good n line text (f s))
    → Good n line text (attempt m f)
attempt-Good text (ok s) f h k = k s h
attempt-Good text (err e) f h k = h

module _ {n line : ℕ} (before : Bool) (s : Scan) (c : ℕ) (h : Inv n line s) where
  step_skip-Good : (r : Bytes) → Good n line r (step_skip s c r)
  unfolding step_skip enter
  step_skip-Good r =
      attempt-Good r (append_up_to s) _ (append_up_to-Kept h)
        (λ s' h'. ground (arith, newline-Inv (enter-Inv h' normal)))

  step_delimiter-Good :
      (r : Bytes) (at_end : Bool) → Good n line r (step_delimiter before s c r at_end)
  unfolding step_delimiter hold_back
  step_delimiter-Good r at_end = ground (
    arith,
    step_character-Good before s c h r at_end,
    attempt-Good r (append_up_to s)
        (λ s'.
          attempt (flush_statement s')
            (λ flushed. advance flushed (drop (length s.parser.delimiter) (c ∷ r))))
        (append_up_to-Kept h)
        (λ s' h'.
          attempt-Good r (flush_statement s') _ (flush_statement-Kept h')
            (λ s'' h''. (h'', drop-shorter c r s.parser.delimiter h.delimiter_ne_nil))),
  )

  apply_command-Good :
      (command : Command) (r : Bytes) (otherwise : Step)
      → Sound r command
      → Good n line r otherwise
      → Good n line r (apply_command command before s otherwise)
  unfolding apply_command hold_back
  apply_command-Good not_command r otherwise a b = b
  apply_command-Good incomplete r otherwise a b = ground arith
  apply_command-Good (failed e) r otherwise a b = a
  apply_command-Good (set_delimiter delimiter rest) r otherwise a b =
      attempt-Good r _ (λ s'. advance (discard_pending_whitespace s') rest)
        (append_up_to-Kept (ground arith)) (λ s' h'. (discard_pending_whitespace-Inv h', a.1))

  step_normal-Good : (r : Bytes) (at_end : Bool) → Good n line r (step_normal before s c r at_end)
  unfolding step_normal
  step_normal-Good r at_end = ground (
    arith,
    step_delimiter-Good r at_end,
    apply_command-Good (try_read_client_command (c ∷ r) s.parser.current_line at_end) r _
        (try_read_client_command-Sound c r s.parser.current_line at_end)
        (step_delimiter-Good r at_end),
  )

  step_in-Good :
      (state : LexerState) (r : Bytes) (at_end : Bool)
      → Good n line r (step_in state before s c r at_end)
  unfolding step_in
  step_in-Good normal r at_end = step_normal-Good r at_end
  step_in-Good single_quote r at_end = step_quoted-Good before s c h b'\'' r at_end
  step_in-Good double_quote r at_end = step_quoted-Good before s c h b'"' r at_end
  step_in-Good backtick r at_end = step_backtick-Good before s c h r at_end
  step_in-Good line_comment r at_end = step_line_comment-Good before s c h r
  step_in-Good skip_to_end_of_line r at_end = step_skip-Good r
  step_in-Good block_comment r at_end = step_block_comment-Good before s c h r at_end
  step_in-Good discard_block_comment r at_end = step_discard-Good before s c h r at_end

pub step-Good :
    {n line : ℕ} (s : Scan) (c : ℕ) (r : Bytes) (at_end : Bool)
    → Inv n line s
    → Good n line r (step s c r at_end)
unfolding step
step-Good s c r at_end h = step_in-Good _ _ c (ground arith) _ r at_end
