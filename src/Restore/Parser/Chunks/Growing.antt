-- ===== src/Restore/Parser/Chunks/Growing.antt =====
-- How the bytes of a statement grow over the rounds, against their limit.
use dbgate_mysql_dumper.Base.{
  ℕ, ◌+◌, ◌<◌, [], ◌∷◌, ◌++◌, ◌≡◌, Bytes, length, join, refl, ◌∙◌, arith, Bool, drop, length-append,
}
use dbgate_mysql_dumper.Restore.Parser.State.{discard_block_comment, Result, ok, err}
use dbgate_mysql_dumper.Restore.Parser.Step.{
  Scan, Step, advance, hold, fail, append_up_to, flush_statement, append_to_statement,
  discard_pending_whitespace, mark_content, keep, newline, enter, attempt, inside, hold_back,
  open_comment, open_construct, plain, step_minus, step_maria, step_marker, step_slash,
  step_character, step_delimiter, step_escaped, step_closing, step_quoted, step_backtick,
  step_line_comment, step_skip, step_block_comment, step_discard, emit,
}
use dbgate_mysql_dumper.Restore.Parser.Chunks.{Counts, text_of}

-- The text so far is longer than a statement may be.
abbrev pub Over : Scan → Type 0
Over s = s.parser.max_statement_bytes < length (text_of s)

abbrev pub FollowsUp : Scan → Step → Type 0
FollowsUp s (advance s' rest) = (Over s → Over s') × (s'.parser.finished ≡ s.parser.finished)
FollowsUp s (hold s') = Unit
FollowsUp s (fail e) = Unit

pub append_up_to-Over :
    (s s' : Scan)
    → Counts s
    → append_up_to s ≡ ok s'
    → (Over s → ⊥) × (s'.parser.finished ≡ s.parser.finished)
unfolding append_up_to append_to_statement
append_up_to-Over s s' h e =
    let sizes = length-append (join s.parser.statement_parts) s.pending in
    ((λ o. ground (arith, sizes, o)), ground arith)

flush_statement-finished :
    (s s' : Scan) → flush_statement s ≡ ok s' → s'.parser.finished ≡ s.parser.finished
unfolding flush_statement emit
flush_statement-finished s s' e = ground arith

pub discard_pending_whitespace-finished :
    (s : Scan) → (discard_pending_whitespace s).parser.finished ≡ s.parser.finished
unfolding discard_pending_whitespace
discard_pending_whitespace-finished s = ground arith

pub attempt-FollowsUp :
    (s : Scan) (m : Result Scan) (f : Scan → Step)
    → ((s' : Scan) → m ≡ ok s' → FollowsUp s (f s'))
    → FollowsUp s (attempt m f)
attempt-FollowsUp s (ok s') f k = k s' refl
attempt-FollowsUp s (err e) f k = tt

-- The lengths of the text with a byte or two more.
abbrev Lengths : Bytes → Bytes → ℕ → ℕ → Type 0
Lengths text pending c d =
    (length (text ++ pending) ≡ length text + length pending)
    × (length (text ++ (pending ++ c ∷ [])) ≡ length text + length (pending ++ c ∷ []))
    × (length (pending ++ c ∷ []) ≡ length pending + 1)
    × (length (text ++ ((pending ++ c ∷ []) ++ d ∷ []))
        ≡ length text + length ((pending ++ c ∷ []) ++ d ∷ []))
    × (length ((pending ++ c ∷ []) ++ d ∷ []) ≡ length (pending ++ c ∷ []) + 1)

module _ (before b : Bool) (s : Scan) (c : ℕ) where
  lengths : (d : ℕ) → Lengths (join s.parser.statement_parts) s.pending c d
  lengths d = (
    length-append (join s.parser.statement_parts) s.pending,
    length-append (join s.parser.statement_parts) (s.pending ++ c ∷ []),
    length-append s.pending (c ∷ []),
    length-append (join s.parser.statement_parts) ((s.pending ++ c ∷ []) ++ d ∷ []),
    length-append (s.pending ++ c ∷ []) (d ∷ []),
  )

  plain-FollowsUp : (r : Bytes) → FollowsUp s (plain s c r)
  unfolding plain keep newline mark_content
  plain-FollowsUp r = ground (arith, lengths c)

  inside-FollowsUp : (r : Bytes) → FollowsUp s (inside s c r)
  unfolding keep newline
  inside-FollowsUp r = ground (arith, lengths c)

  step_minus-FollowsUp : (r : Bytes) → FollowsUp s (step_minus before s c r b)
  unfolding step_minus hold_back open_comment keep mark_content
  step_minus-FollowsUp [] = ground (arith, lengths c)
  step_minus-FollowsUp (d ∷ []) = ground (arith, lengths d)
  step_minus-FollowsUp (d ∷ e ∷ r) = ground (arith, lengths d)

  step_escaped-FollowsUp : (r : Bytes) → FollowsUp s (step_escaped before s c r b)
  unfolding step_escaped hold_back keep newline
  step_escaped-FollowsUp [] = ground (arith, lengths c)
  step_escaped-FollowsUp (d ∷ r) = ground (arith, lengths d)

  step_closing-FollowsUp : (r : Bytes) → FollowsUp s (step_closing before s c r b)
  unfolding step_closing hold_back keep enter
  step_closing-FollowsUp [] = ground (arith, lengths c)
  step_closing-FollowsUp (d ∷ r) = ground (arith, lengths d)

  pub step_quoted-FollowsUp :
      (quote : ℕ) (r : Bytes) → FollowsUp s (step_quoted quote before s c r b)
  unfolding step_quoted
  step_quoted-FollowsUp quote r =
      ground (arith, inside-FollowsUp r, step_escaped-FollowsUp r, step_closing-FollowsUp r)

  pub step_backtick-FollowsUp : (r : Bytes) → FollowsUp s (step_backtick before s c r b)
  unfolding step_backtick
  step_backtick-FollowsUp r = ground (arith, inside-FollowsUp r, step_closing-FollowsUp r)

  pub step_block_comment-FollowsUp : (r : Bytes) → FollowsUp s (step_block_comment before s c r b)
  unfolding step_block_comment hold_back keep enter newline
  step_block_comment-FollowsUp [] = ground (arith, lengths c)
  step_block_comment-FollowsUp (d ∷ r) = ground (arith, lengths d)

  pub step_line_comment-FollowsUp : (r : Bytes) → FollowsUp s (step_line_comment s c r)
  unfolding step_line_comment keep newline
  step_line_comment-FollowsUp r = ground (arith, lengths c)

  pub step_discard-FollowsUp :
      (r : Bytes) → s.pending ≡ [] → FollowsUp s (step_discard before s c r b)
  unfolding step_discard hold_back newline enter
  step_discard-FollowsUp [] h = ground arith
  step_discard-FollowsUp (d ∷ r) h = ground arith

module _ (before b : Bool) (s : Scan) (c : ℕ) (h : Counts s) where
  step_maria-FollowsUp : (d : ℕ) (r : Bytes) → FollowsUp s (step_maria before s c d r b)
  unfolding step_maria hold_back open_construct keep mark_content
  step_maria-FollowsUp d r = ground (
    arith,
    lengths before b s c d,
    attempt-FollowsUp s (append_up_to s) (λ s'. advance (open_construct discard_block_comment s') r)
        (λ s' e. ground (arith, append_up_to-Over s s' h e)),
  )

  step_marker-FollowsUp :
      (d marker : ℕ) (r : Bytes) → FollowsUp s (step_marker before s c d marker r b)
  unfolding step_marker hold_back open_construct keep mark_content
  step_marker-FollowsUp d marker [] = ground (arith, lengths before b s c d)
  step_marker-FollowsUp d marker (e ∷ r) =
      ground (arith, lengths before b s c d, step_maria-FollowsUp d (marker ∷ e ∷ r))

  step_slash-FollowsUp : (r : Bytes) → FollowsUp s (step_slash before s c r b)
  unfolding step_slash hold_back open_construct keep mark_content
  step_slash-FollowsUp [] = ground (arith, lengths before b s c c)
  step_slash-FollowsUp (d ∷ []) = ground (arith, lengths before b s c d)
  step_slash-FollowsUp (d ∷ marker ∷ r) =
      ground (arith, lengths before b s c d, step_marker-FollowsUp d marker r)

  step_character-FollowsUp : (r : Bytes) → FollowsUp s (step_character before s c r b)
  unfolding step_character open_comment open_construct keep mark_content
  step_character-FollowsUp r = ground (
    arith,
    lengths before b s c c,
    plain-FollowsUp before b s c r,
    step_minus-FollowsUp before b s c r,
    step_slash-FollowsUp r,
  )

  flush_after-FollowsUp :
      (rest : Bytes)
      → FollowsUp s
          (attempt (append_up_to s) (λ s'. attempt (flush_statement s') (λ f. advance f rest)))
  flush_after-FollowsUp rest = attempt-FollowsUp s (append_up_to s) _ (λ s' e.
      attempt-FollowsUp s (flush_statement s') _ (λ f e'.
        let (never, same) = append_up_to-Over s s' h e in
        ((λ o. absurd (never o)), flush_statement-finished s' f e' ∙ same)))

  pub step_delimiter-FollowsUp : (r : Bytes) → FollowsUp s (step_delimiter before s c r b)
  unfolding step_delimiter hold_back
  step_delimiter-FollowsUp r = ground (
    arith,
    step_character-FollowsUp r,
    flush_after-FollowsUp (drop (length s.parser.delimiter) (c ∷ r)),
  )

  pub step_skip-FollowsUp : (r : Bytes) → FollowsUp s (step_skip s c r)
  unfolding step_skip enter newline
  step_skip-FollowsUp r =
      attempt-FollowsUp s (append_up_to s) _ (λ s' e. ground (arith, append_up_to-Over s s' h e))
