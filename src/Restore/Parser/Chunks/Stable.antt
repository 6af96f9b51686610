-- ===== src/Restore/Parser/Chunks/Stable.antt =====
-- A round that was decided before the end of a chunk is decided alike when more text follows.
use dbgate_mysql_dumper.Restore.Parser.Chunks.StableCommands.{
  StableCommand, try_read_client_command-Stable,
}
use dbgate_mysql_dumper.Base.{ℕ, ◌∷◌, ◌++◌, Bytes, refl, arith, Bool, false}
use dbgate_mysql_dumper.Restore.Parser.State.{
  LexerState, normal, single_quote, double_quote, backtick, line_comment, block_comment,
  discard_block_comment, skip_to_end_of_line,
}
use dbgate_mysql_dumper.Restore.Parser.Step.{
  Scan, Step, advance, step, append_up_to, discard_pending_whitespace, hold_back, step_delimiter,
  apply_command, step_normal, step_in,
}
use dbgate_mysql_dumper.Restore.Parser.Command.{
  Command, not_command, incomplete, set_delimiter, failed, try_read_client_command,
}
use dbgate_mysql_dumper.Restore.Parser.Chunks.Prefix.{Safe, Safe-tail}
use dbgate_mysql_dumper.Restore.Parser.Chunks.StableCases.{
  Stable, attempt-Stable, step_quoted-Stable, step_backtick-Stable, step_line_comment-Stable,
  step_skip-Stable, step_block_comment-Stable, step_discard-Stable, step_delimiter-Stable,
}

apply_command-Stable :
    (more : Bytes) (before : Bool) (s : Scan) (command command' : Command) (t t' : Step)
    → StableCommand more command command'
    → Stable more t t'
    → Stable more (apply_command command before s t) (apply_command command' before s t')
unfolding apply_command hold_back
apply_command-Stable more before s not_command command' t t' h k = ground arith
apply_command-Stable more before s incomplete command' t t' h k = tt
apply_command-Stable more before s (failed e) command' t t' h k = ground arith
apply_command-Stable more before s (set_delimiter delimiter rest) command' t t' (e, safe) k =
    let s' = record s {
      parser = record s.parser { delimiter = delimiter; state = skip_to_end_of_line };
    } in
    ground (
      arith,
      attempt-Stable more (append_up_to s') (λ f. advance (discard_pending_whitespace f) rest)
          (λ f. advance (discard_pending_whitespace f) (rest ++ more)) (λ f. (refl, safe)),
    )

module _ (before b : Bool) (s : Scan) (c : ℕ) (r more : Bytes) (h : Safe (c ∷ r)) where
  step_normal-Stable :
      Stable more (step_normal before s c r false) (step_normal before s c (r ++ more) b)
  unfolding step_normal
  step_normal-Stable =
      let delimiter_step = step_delimiter-Stable before b s c more r h in
      ground (
        arith,
        delimiter_step,
        apply_command-Stable more before s
            (try_read_client_command (c ∷ r) s.parser.current_line false)
            (try_read_client_command (c ∷ r ++ more) s.parser.current_line b)
            (step_delimiter before s c r false) (step_delimiter before s c (r ++ more) b)
            (try_read_client_command-Stable more s.parser.current_line b c r h) delimiter_step,
      )

  step_in-Stable :
      (state : LexerState)
      → Stable more (step_in state before s c r false) (step_in state before s c (r ++ more) b)
  unfolding step_in
  step_in-Stable normal = step_normal-Stable
  step_in-Stable single_quote = step_quoted-Stable before b s c more b'\'' r (Safe-tail c r h)
  step_in-Stable double_quote = step_quoted-Stable before b s c more b'"' r (Safe-tail c r h)
  step_in-Stable backtick = step_backtick-Stable before b s c more r (Safe-tail c r h)
  step_in-Stable line_comment = step_line_comment-Stable before b s c more r (Safe-tail c r h)
  step_in-Stable skip_to_end_of_line = step_skip-Stable before b s c more r (Safe-tail c r h)
  step_in-Stable block_comment = step_block_comment-Stable before b s c more r (Safe-tail c r h)
  step_in-Stable discard_block_comment = step_discard-Stable before b s c more r (Safe-tail c r h)

-- A round on a text that does not end in a backslash, before the end of the input: what it decides it
-- decides with any more text, at the end of the input or not.
pub step-Stable :
    (s : Scan) (c : ℕ) (r more : Bytes) (b : Bool)
    → Safe (c ∷ r)
    → Stable more (step s c r false) (step s c (r ++ more) b)
unfolding step
step-Stable s c r more b h = step_in-Stable _ b _ c r more h s.parser.state
