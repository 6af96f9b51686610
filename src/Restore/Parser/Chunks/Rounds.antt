-- ===== src/Restore/Parser/Chunks/Rounds.antt =====
-- A round does to a view what it does to the scan.
use dbgate_mysql_dumper.Restore.Parser.Chunks.Discarding.{Tidy}
use dbgate_mysql_dumper.Base.{
  ℕ, [], ◌∷◌, List, ◌≡◌, ◌≢◌, ◌⊎◌, Bytes, refl, sym, ap, ◌∙◌, arith, inl, inr, Bool,
}
use dbgate_mysql_dumper.Restore.Parser.State.{
  LexerState, normal, single_quote, double_quote, backtick, line_comment, block_comment,
  discard_block_comment, skip_to_end_of_line, ParsedStatement,
}
use dbgate_mysql_dumper.Restore.Parser.Step.{
  Scan, Step, step, append_up_to, newline, enter, hold_back, apply_command, step_normal, step_skip,
  step_discard, step_in, line_start_after,
}
use dbgate_mysql_dumper.Restore.Parser.Command.{
  Command, not_command, incomplete, set_delimiter, failed, try_read_client_command,
}
use dbgate_mysql_dumper.Restore.Parser.Chunks.Appending.{
  append_up_to-pending, append_up_to-view, discard_pending_whitespace-view,
}
use dbgate_mysql_dumper.Restore.Parser.Chunks.{view, view_step, Counts}
use dbgate_mysql_dumper.Restore.Parser.Chunks.Cases.{
  attempt-view, regrouped, step_quoted-view, step_backtick-view, step_block_comment-view,
  step_line_comment-view, step_delimiter-view,
}

-- The scan in which a `DELIMITER` command is carried out.
abbrev commanded : Bytes → Scan → Scan
commanded delimiter s = record s {
  parser = record s.parser { delimiter = delimiter; state = skip_to_end_of_line };
}

module _ (earlier : List ParsedStatement) (before : Bool) (s : Scan) (c : ℕ) (h : Counts s) where
  apply_command-view :
      (command : Command) (otherwise otherwise' : Step)
      → view_step earlier otherwise ≡ view_step [] otherwise'
      → view_step earlier (apply_command command before s otherwise)
        ≡ view_step [] (apply_command command before (view earlier s) otherwise')
  unfolding apply_command hold_back
  apply_command-view not_command otherwise otherwise' e = e
  apply_command-view incomplete otherwise otherwise' e =
      ground (arith, regrouped earlier before s c c)
  apply_command-view (failed f) otherwise otherwise' e = refl
  apply_command-view (set_delimiter delimiter rest) otherwise otherwise' e =
      attempt-view earlier (append_up_to (commanded delimiter s))
        (append_up_to (view earlier (commanded delimiter s))) _ _
        (append_up_to-view earlier (commanded delimiter s) (ground arith))
        (λ a b ea eb e'. cc (
          discard_pending_whitespace-view earlier [] a b e'
            (append_up_to-pending earlier (commanded delimiter s) ea)
            (append_up_to-pending earlier (view earlier (commanded delimiter s)) eb)))

  step_normal-view :
      (r : Bytes) (at_end : Bool)
      → view_step earlier (step_normal before s c r at_end)
        ≡ view_step [] (step_normal before (view earlier s) c r at_end)
  unfolding step_normal
  step_normal-view r at_end = ground (
    arith,
    step_delimiter-view earlier before s c r at_end h,
    apply_command-view (try_read_client_command (c ∷ r) s.parser.current_line at_end) _ _
        (step_delimiter-view earlier before s c r at_end h),
  )

  step_skip-view :
      (r : Bytes)
      → view_step earlier (step_skip s c r) ≡ view_step [] (step_skip (view earlier s) c r)
  unfolding step_skip enter newline
  step_skip-view r =
      attempt-view earlier (append_up_to s) (append_up_to (view earlier s)) _ _
        (append_up_to-view earlier s h) (λ a b _ _ e. ground arith)

module _ (earlier : List ParsedStatement) (before : Bool) (s : Scan) (c : ℕ) (r : Bytes)
    (at_end : Bool) (h : Counts s) where
  step_in-view :
      (state : LexerState)
      → state ≢ discard_block_comment
      → view_step earlier (step_in state before s c r at_end)
        ≡ view_step [] (step_in state before (view earlier s) c r at_end)
  unfolding step_in
  step_in-view normal k = step_normal-view earlier before s c h r at_end
  step_in-view single_quote k = step_quoted-view earlier before s c b'\'' r at_end
  step_in-view double_quote k = step_quoted-view earlier before s c b'"' r at_end
  step_in-view backtick k = step_backtick-view earlier before s c r at_end
  step_in-view line_comment k = step_line_comment-view earlier before s c r
  step_in-view skip_to_end_of_line k = step_skip-view earlier before s c h r
  step_in-view block_comment k = step_block_comment-view earlier before s c r at_end
  step_in-view discard_block_comment k = absurd (k refl)

-- A round, seen in the view, when no comment is discarded.
step_kept-view :
    (earlier : List ParsedStatement) (s : Scan) (c : ℕ) (r : Bytes) (at_end : Bool)
    → Counts s
    → s.parser.state ≢ discard_block_comment
    → view_step earlier (step s c r at_end) ≡ view_step [] (step (view earlier s) c r at_end)
unfolding step
step_kept-view earlier s c r at_end h k =
    step_in-view earlier _ _ c r at_end (ground arith) s.parser.state k

step_discard-view :
    (ea eb : List ParsedStatement) (before : Bool) (a b : Scan) (c : ℕ) (r : Bytes) (at_end : Bool)
    → view ea a ≡ view eb b
    → a.pending ≡ []
    → b.pending ≡ []
    → view_step ea (step_discard before a c r at_end)
      ≡ view_step eb (step_discard before b c r at_end)
unfolding step_discard hold_back newline enter
step_discard-view ea eb before a b c [] at_end h k l = ground arith
step_discard-view ea eb before a b c (d ∷ r) at_end h k l = ground arith

-- A round of a scan whose view is that of a scan in which nothing is discarded.
step_kept-eq :
    (ea eb : List ParsedStatement) (a b : Scan) (c : ℕ) (r : Bytes) (at_end : Bool)
    → Counts a
    → Counts b
    → view ea a ≡ view eb b
    → a.parser.state ≢ discard_block_comment
    → view_step ea (step a c r at_end) ≡ view_step eb (step b c r at_end)
step_kept-eq ea eb a b c r at_end ha hb h k =
    let states : a.parser.state ≡ b.parser.state = ap (λ (s : Scan). s.parser.state) h in
    step_kept-view ea a c r at_end ha k
    ∙ ap (λ s. view_step [] (step s c r at_end)) h
    ∙ sym (step_kept-view eb b c r at_end hb (λ e. k (states ∙ e)))

step_discarded-eq :
    (ea eb : List ParsedStatement) (a b : Scan) (c : ℕ) (r : Bytes) (at_end : Bool)
    → view ea a ≡ view eb b
    → a.parser.state ≡ discard_block_comment
    → a.pending ≡ []
    → b.pending ≡ []
    → view_step ea (step a c r at_end) ≡ view_step eb (step b c r at_end)
unfolding step step_in
step_discarded-eq ea eb a b c r at_end h e na nb =
    let before = a.parser.at_line_start in
    let begun : Scan → Scan =
      λ s. record s { parser = record s.parser { at_line_start = line_start_after before c } } in
    let views : view ea (begun a) ≡ view eb (begun b) = cc in
    ground (arith, step_discard-view ea eb before (begun a) (begun b) c r at_end views na nb)

state_cases : (s : LexerState) → (s ≡ discard_block_comment) ⊎ (s ≢ discard_block_comment)
state_cases discard_block_comment = inl refl
state_cases normal = inr (λ e. cc)
state_cases single_quote = inr (λ e. cc)
state_cases double_quote = inr (λ e. cc)
state_cases backtick = inr (λ e. cc)
state_cases line_comment = inr (λ e. cc)
state_cases block_comment = inr (λ e. cc)
state_cases skip_to_end_of_line = inr (λ e. cc)

-- Two scans with one view, which count the bytes of what they hold within the limit, and of which neither
-- holds anything pending while a comment is discarded or returns from a line comment to one, have one
-- view after a round, or fail with one error.
pub step-view :
    (ea eb : List ParsedStatement) (a b : Scan) (c : ℕ) (r : Bytes) (at_end : Bool)
    → Counts a
    → Counts b
    → Tidy a
    → Tidy b
    → view ea a ≡ view eb b
    → view_step ea (step a c r at_end) ≡ view_step eb (step b c r at_end)
step-view ea eb a b c r at_end ha hb (inl k, _) tb h = step_kept-eq ea eb a b c r at_end ha hb h k
step-view ea eb a b c r at_end ha hb (inr na, _) (inl k, _) h =
    sym (step_kept-eq eb ea b a c r at_end hb ha (sym h) k)
step-view ea eb a b c r at_end ha hb (inr na, _) (inr nb, _) h = elim (state_cases a.parser.state) [
  | inl e ↦ step_discarded-eq ea eb a b c r at_end h e na nb
  | inr k ↦ step_kept-eq ea eb a b c r at_end ha hb h k
]
