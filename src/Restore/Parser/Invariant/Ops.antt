-- ===== src/Restore/Parser/Invariant/Ops.antt =====
-- The operations on the current statement keep the invariant.
use dbgate_mysql_dumper.Text.Blank.{trim}
use dbgate_mysql_dumper.Restore.Parser.Invariant.{Follows-concat, line_or, Follows-mono, Inv, Kept}
use dbgate_mysql_dumper.Restore.BinaryLiterals.{BinaryLiteralRewriteResult, rewrite_binary_literals}
use dbgate_mysql_dumper.Restore.Parser.Step.{
  parsed_statement, emit, append_to_statement, Scan, append_up_to, discard_pending_whitespace,
  mark_content, flush_statement, keep, newline, enter,
}
use dbgate_mysql_dumper.Base.{join, length-append, append-nil, [], ◌∷◌, ◌+◌, join-append, ℕ, arith}
use dbgate_mysql_dumper.Restore.Parser.State.{LexerState}

module _ {n line : ℕ} {s : Scan} (h : Inv n line s) where
  pub keep-Inv : (c : ℕ) → Inv n line (keep c s)
  unfolding keep
  keep-Inv c = ground arith

  pub newline-Inv : Inv n line (newline s)
  unfolding newline
  newline-Inv = ground (
    arith,
    Follows-mono n line s.emitted s.parser.next_statement_index
        (line_or s.parser.statement_start_line s.parser.current_line)
        (line_or s.parser.statement_start_line (s.parser.current_line + 1)),
  )

  pub enter-Inv : (state : LexerState) → Inv n line (enter state s)
  unfolding enter
  enter-Inv state = ground arith

  pub mark_content-Inv : Inv n line (mark_content s)
  unfolding mark_content
  mark_content-Inv = ground arith

  pub discard_pending_whitespace-Inv : Inv n line (discard_pending_whitespace s)
  unfolding discard_pending_whitespace
  discard_pending_whitespace-Inv = ground (
    arith,
    Follows-mono n line s.emitted s.parser.next_statement_index
        (line_or s.parser.statement_start_line s.parser.current_line) s.parser.current_line,
  )

  pub append_up_to-Kept : Kept n line (append_up_to s)
  unfolding append_up_to append_to_statement
  append_up_to-Kept = ground (
    arith,
    join-append s.parser.statement_parts (s.pending ∷ []),
    append-nil s.pending,
    length-append (join s.parser.statement_parts) s.pending,
  )

  emit-Kept : (rewrite : BinaryLiteralRewriteResult) → Kept n line (emit s rewrite)
  unfolding emit parsed_statement
  emit-Kept rewrite = ground (
    arith,
    Follows-concat n line s.emitted (parsed_statement s.parser rewrite)
        s.parser.next_statement_index (line_or s.parser.statement_start_line s.parser.current_line),
  )

  pub flush_statement-Kept : Kept n line (flush_statement s)
  unfolding flush_statement
  flush_statement-Kept = ground (
    arith,
    emit-Kept (rewrite_binary_literals (trim (join s.parser.statement_parts))),
    Follows-mono n line s.emitted s.parser.next_statement_index
        (line_or s.parser.statement_start_line s.parser.current_line) s.parser.current_line,
  )
