-- ===== src/Restore/Parser/Chunks/Overflow.antt =====
-- Texts that are too long, and the scans that do not meet one.
use dbgate_mysql_dumper.Base.{
  ℕ, [], ◌∷◌, ◌≡◌, ◌≢◌, ◌⊎◌, Bytes, join, refl, sym, ap, ◌∙◌, subst, arith, inl, inr, Bool,
  length-append,
}
use dbgate_mysql_dumper.Restore.Parser.State.{
  LexerState, normal, single_quote, double_quote, backtick, line_comment, block_comment,
  discard_block_comment, skip_to_end_of_line, ParseError, Result, ok, err,
}
use dbgate_mysql_dumper.Restore.Parser.Step.{
  Scan, Step, advance, step, append_up_to, append_to_statement, hold_back, apply_command,
  step_normal, step_in, line_start_after,
}
use dbgate_mysql_dumper.Restore.Parser.Scan.{stop}
use dbgate_mysql_dumper.Restore.Parser.Command.{
  Command, not_command, incomplete, set_delimiter, failed, try_read_client_command,
}
use dbgate_mysql_dumper.Restore.Parser.Chunks.{Counts}
use dbgate_mysql_dumper.Restore.Parser.Chunks.Holding.{step-hold}
use dbgate_mysql_dumper.Restore.Parser.Chunks.Scans.{
  Scans, ends, goes, waits, Sound, Sound-Counts, step-Sound, stop-cases, carried, stop-appended,
}
use dbgate_mysql_dumper.Restore.Parser.Chunks.Runs.{hold-Sound}
use dbgate_mysql_dumper.Restore.Parser.Chunks.Growing.{
  Over, FollowsUp, append_up_to-Over, attempt-FollowsUp, discard_pending_whitespace-finished,
  step_quoted-FollowsUp, step_backtick-FollowsUp, step_line_comment-FollowsUp, step_skip-FollowsUp,
  step_block_comment-FollowsUp, step_discard-FollowsUp, step_delimiter-FollowsUp,
}

module _ (before b : Bool) (s : Scan) (c : ℕ) (h : Counts s) where
  apply_command-FollowsUp :
      (command : Command) (t : Step)
      → FollowsUp s t
      → FollowsUp s (apply_command command before s t)
  unfolding apply_command hold_back
  apply_command-FollowsUp not_command t k = k
  apply_command-FollowsUp incomplete t k = tt
  apply_command-FollowsUp (failed e) t k = tt
  apply_command-FollowsUp (set_delimiter delimiter rest) t k =
      let s1 = record s {
        parser = record s.parser { delimiter = delimiter; state = skip_to_end_of_line };
      } in
      attempt-FollowsUp s (append_up_to s1) _ (λ s' e.
        let (never, same) = append_up_to-Over s1 s' (ground arith) e in
        ((λ o. absurd (never o)), discard_pending_whitespace-finished s' ∙ same))

  step_normal-FollowsUp : (r : Bytes) → FollowsUp s (step_normal before s c r b)
  unfolding step_normal
  step_normal-FollowsUp r = ground (
    arith,
    step_delimiter-FollowsUp before b s c h r,
    apply_command-FollowsUp (try_read_client_command (c ∷ r) s.parser.current_line b) _
        (step_delimiter-FollowsUp before b s c h r),
  )

  step_in-FollowsUp :
      (state : LexerState) (r : Bytes)
      → (state ≢ discard_block_comment) ⊎ (s.pending ≡ [])
      → FollowsUp s (step_in state before s c r b)
  unfolding step_in
  step_in-FollowsUp normal r k = step_normal-FollowsUp r
  step_in-FollowsUp single_quote r k = step_quoted-FollowsUp before b s c b'\'' r
  step_in-FollowsUp double_quote r k = step_quoted-FollowsUp before b s c b'"' r
  step_in-FollowsUp backtick r k = step_backtick-FollowsUp before b s c r
  step_in-FollowsUp line_comment r k = step_line_comment-FollowsUp before b s c r
  step_in-FollowsUp skip_to_end_of_line r k = step_skip-FollowsUp before b s c h r
  step_in-FollowsUp block_comment r k = step_block_comment-FollowsUp before b s c r
  step_in-FollowsUp discard_block_comment r (inl k) = absurd (k refl)
  step_in-FollowsUp discard_block_comment r (inr k) = step_discard-FollowsUp before b s c r k

-- After a round that goes on, a text that was too long still is, and `finished` is as it was.
pub step-FollowsUp :
    (s s' : Scan) (c : ℕ) (r rest : Bytes) (b : Bool)
    → Sound s
    → step s c r b ≡ advance s' rest
    → (Over s → Over s') × (s'.parser.finished ≡ s.parser.finished)
unfolding step
step-FollowsUp s s' c r rest b h e =
    let before = s.parser.at_line_start in
    let begun = record s {
      parser = record s.parser { at_line_start = line_start_after before c };
    } in
    let counts : Counts begun = record {
      byte_length = h.inv.byte_length;
      in_limit = h.inv.in_limit;
    } in
    subst (FollowsUp begun) e (step_in-FollowsUp before b begun c counts s.parser.state r h.tidy.0)

stop-Over :
    (s t : Scan) (rest : Bytes)
    → Sound s
    → stop s rest ≡ ok t
    → (Over s → ⊥) × (t.parser.finished ≡ s.parser.finished)
stop-Over s t rest h e =
    let (s', appended, same) = stop-cases s t rest e in
    let (never, kept) = append_up_to-Over s s' (Sound-Counts s h) appended in
    (never, ap (λ (x : Scan). x.parser.finished) (sym same) ∙ kept)

-- A scan that ends does not begin with a text that is too long, and keeps `finished`.
pub Scans-Over :
    (at_end : Bool) (s t : Scan) (text : Bytes)
    → Scans at_end s text t
    → Sound s
    → (Over s → ⊥) × (t.parser.finished ≡ s.parser.finished)
Scans-Over at_end s t [] (ends e) h = stop-Over s t [] h e
Scans-Over at_end s t (c ∷ r) (goes s' rest e d) h =
    let (later, same) = step-FollowsUp s s' c r rest at_end h e in
    let (never, kept) = Scans-Over at_end s' t rest d (step-Sound s s' c r rest at_end h e) in
    ((λ o. never (later o)), kept ∙ same)
Scans-Over at_end s t (c ∷ r) (waits s' e k) h =
    let same = step-hold s s' c r at_end h.tidy e in
    let (never, kept) = stop-Over s' t (c ∷ r) (hold-Sound s s' c r at_end h e) k in
    ((λ o. never (subst Over (sym same) o)), kept ∙ ap (λ (x : Scan). x.parser.finished) same)

Result-cases {ℓ} :
    {A : Type ℓ} (m : Result A) → ((a : A) × (m ≡ ok a)) ⊎ ((e : ParseError) × (m ≡ err e))
Result-cases (ok a) = inl (a, refl)
Result-cases (err e) = inr (e, refl)

append_up_to-err : (s : Scan) (e : ParseError) → Counts s → append_up_to s ≡ err e → Over s
unfolding append_up_to append_to_statement
append_up_to-err s e h k =
    let sizes = length-append (join s.parser.statement_parts) s.pending in
    ground (arith, sizes, h.byte_length)

-- A scan whose text is not too long can stop.
pub stop-succeeds :
    (s : Scan) (rest : Bytes) → (Over s → ⊥) → Counts s → (t : Scan) × (stop s rest ≡ ok t)
stop-succeeds s rest never h = elim (Result-cases (append_up_to s)) [
  | inl (s', e) ↦ (carried rest s', stop-appended s s' rest e)
  | inr (x, e) ↦ absurd (never (append_up_to-err s x h e))
]
