-- ===== src/Restore/Parser/Invariant/EmptyDelimiter.antt =====
-- What the constructor's missing check on an empty initial delimiter leads to.
use dbgate_mysql_dumper.Base.{
  ℕ, zero, suc, [], ◌∷◌, ◌≡◌, Bytes, refl, sym, subst, arith, some, Bool, false, starts_with, ◌==◌,
}
use dbgate_mysql_dumper.Restore.Parser.State.{
  normal, diverges, Result, err, SqlStatementParserOptions, new_parser,
}
use dbgate_mysql_dumper.Restore.Parser.Step.{
  Scan, Step, advance, hold, fail, step, append_up_to, flush_statement, append_to_statement,
  step_delimiter, apply_command, step_normal, step_in, line_start_after,
}
use dbgate_mysql_dumper.Restore.Parser.Scan.{scan_loop, start, resume}
use dbgate_mysql_dumper.Restore.Parser.Command.{
  not_command, try_read_client_command, run_of, is_nil, read_command_word, is_command_letter,
}
use dbgate_mysql_dumper.Text.Blank.{trim, trim_start, trim_end}

-- A parser with an empty delimiter that has read nothing of a statement.
abbrev Stuck : Scan → Type 0
Stuck s =
    (s.parser.state ≡ normal)
    × (s.parser.delimiter ≡ [])
    × (s.parser.statement_parts ≡ [])
    × (s.pending ≡ [])

-- The step goes on with the same text, stuck again.
abbrev Repeats : Bytes → Step → Type 0
Repeats text (advance s rest) = Stuck s × (rest ≡ text)
Repeats text (hold s) = ⊥
Repeats text (fail e) = ⊥

no_command :
    (c : ℕ) (r : Bytes) (line : ℕ) (at_end : Bool)
    → is_command_letter c ≡ false
    → (c == b'\\') ≡ false
    → try_read_client_command (c ∷ r) line at_end ≡ not_command
unfolding try_read_client_command read_command_word run_of is_nil
no_command c r line at_end h k = ground arith

step_delimiter-Repeats :
    (before : Bool) (s : Scan) (c : ℕ) (r : Bytes) (at_end : Bool)
    → Stuck s
    → Repeats (c ∷ r) (step_delimiter before s c r at_end)
unfolding step_delimiter starts_with append_up_to append_to_statement flush_statement trim
    trim_start trim_end
step_delimiter-Repeats before s c r at_end h = ground arith

step-Repeats :
    (s : Scan) (c : ℕ) (r : Bytes) (at_end : Bool)
    → is_command_letter c ≡ false
    → (c == b'\\') ≡ false
    → Stuck s
    → Repeats (c ∷ r) (step s c r at_end)
unfolding step step_in step_normal apply_command
step-Repeats s c r at_end h k stuck =
    let before = s.parser.at_line_start in
    let begun = record s {
      parser = record s.parser { at_line_start = line_start_after before c };
    } in
    ground (
      arith,
      no_command c r s.parser.current_line at_end h k,
      step_delimiter-Repeats before begun c r at_end stuck,
    )

resume-diverges :
    (loop : Scan → Bytes → Result Scan) (text : Bytes) (t : Step)
    → Repeats text t
    → ((s : Scan) → Stuck s → loop s text ≡ err diverges)
    → resume loop text t ≡ err diverges
unfolding resume
resume-diverges loop text (advance s rest) (stuck, same) h =
    subst (λ x. loop s x ≡ err diverges) (sym same) (h s stuck)
resume-diverges loop text (hold s) h k = absurd h
resume-diverges loop text (fail e) h k = absurd h

scan_loop-diverges :
    (fuel : ℕ) (s : Scan) (c : ℕ) (r : Bytes) (at_end : Bool)
    → is_command_letter c ≡ false
    → (c == b'\\') ≡ false
    → Stuck s
    → scan_loop fuel s (c ∷ r) at_end ≡ err diverges
unfolding scan_loop
scan_loop-diverges zero s c r at_end h k stuck = refl
scan_loop-diverges (suc fuel) s c r at_end h k stuck =
    resume-diverges _ (c ∷ r) (step s c r at_end) (step-Repeats s c r at_end h k stuck)
      (λ s' stuck'. scan_loop-diverges fuel s' c r at_end h k stuck')

-- With an empty initial delimiter the loop of `scan` does not end, whatever its fuel, on any input that
-- begins with a byte that cannot start a client command.
pub scan_loop-new_parser :
    (fuel : ℕ) (options : SqlStatementParserOptions) (c : ℕ) (r : Bytes) (at_end : Bool)
    → options.initial_delimiter ≡ some []
    → is_command_letter c ≡ false
    → (c == b'\\') ≡ false
    → scan_loop fuel (start (new_parser options)) (c ∷ r) at_end ≡ err diverges
unfolding new_parser
scan_loop-new_parser fuel options c r at_end e h k =
    scan_loop-diverges fuel (start (new_parser options)) c r at_end h k (ground arith)
