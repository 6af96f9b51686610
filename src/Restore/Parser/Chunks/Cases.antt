-- ===== src/Restore/Parser/Chunks/Cases.antt =====
-- A case of the switch does to a view what it does to the scan.

use dbgate_mysql_dumper.Base.{
  ℕ, [], ◌∷◌, ◌++◌, List, ◌≡◌, Bytes, length, join, refl, arith, Bool, append_assoc, drop,
}
use dbgate_mysql_dumper.Restore.Parser.State.{
  discard_block_comment, Result, ok, err, ParsedStatement,
}
use dbgate_mysql_dumper.Restore.Parser.Step.{
  Scan, Step, advance, append_up_to, flush_statement, mark_content, keep, newline, enter, attempt,
  inside, hold_back, open_comment, open_construct, plain, step_minus, step_maria, step_marker,
  step_slash, step_character, step_delimiter, step_escaped, step_closing, step_quoted,
  step_backtick, step_line_comment, step_block_comment,
}
use dbgate_mysql_dumper.Restore.Parser.Chunks.Appending.{
  append_up_to-pending, append_up_to-view, flush_statement-view,
}
use dbgate_mysql_dumper.Restore.Parser.Chunks.{
  view, view_step, view_result, Counts, forget_all, forget_all_idem,
}

-- What the views of two scans differ in, as the tactics meet it.
abbrev Regrouped : List ParsedStatement → Bytes → Bytes → ℕ → ℕ → Type 0
Regrouped emitted text pending c d =
    (forget_all (forget_all emitted) ≡ forget_all emitted)
    × ((text ++ pending) ++ c ∷ [] ≡ text ++ (pending ++ c ∷ []))
    × ((text ++ (pending ++ c ∷ [])) ++ d ∷ [] ≡ text ++ ((pending ++ c ∷ []) ++ d ∷ []))

ok-injective : {a b : Scan} → ok a ≡ ok b → a ≡ b
ok-injective h = cc

-- What follows two calls that agree.
pub attempt-view :
    (earlier : List ParsedStatement) (m m' : Result Scan) (f f' : Scan → Step)
    → view_result earlier m ≡ view_result [] m'
    → ((a b : Scan)
        → m ≡ ok a
        → m' ≡ ok b
        → view earlier a ≡ view [] b
        → view_step earlier (f a) ≡ view_step [] (f' b))
    → view_step earlier (attempt m f) ≡ view_step [] (attempt m' f')
attempt-view earlier (ok a) (ok b) f f' h k = k a b refl refl (ok-injective h)
attempt-view earlier (ok a) (err e) f f' h k = cc
attempt-view earlier (err e) (ok b) f f' h k = cc
attempt-view earlier (err e) (err e') f f' h k = cc

module _ (earlier : List ParsedStatement) (before : Bool) (s : Scan) (c : ℕ) where
  pub regrouped :
      (d : ℕ) → Regrouped (earlier ++ s.emitted) (join s.parser.statement_parts) s.pending c d
  regrouped d = (
    forget_all_idem (earlier ++ s.emitted),
    append_assoc (join s.parser.statement_parts) s.pending (c ∷ []),
    append_assoc (join s.parser.statement_parts) (s.pending ++ c ∷ []) (d ∷ []),
  )

  -- a round and its view
  abbrev Agrees : (Scan → Step) → Type 0
  Agrees f = view_step earlier (f s) ≡ view_step [] (f (view earlier s))

  plain-view : (r : Bytes) → Agrees (λ s. plain s c r)
  unfolding plain keep newline mark_content
  plain-view r = ground (arith, regrouped c)

  inside-view : (r : Bytes) → Agrees (λ s. inside s c r)
  unfolding keep newline
  inside-view r = ground (arith, regrouped c)

  step_minus-view : (r : Bytes) (at_end : Bool) → Agrees (λ s. step_minus before s c r at_end)
  unfolding step_minus hold_back open_comment keep mark_content
  step_minus-view [] at_end = ground (arith, regrouped c)
  step_minus-view (d ∷ []) at_end = ground (arith, regrouped d)
  step_minus-view (d ∷ e ∷ r) at_end = ground (arith, regrouped d)

  step_escaped-view : (r : Bytes) (at_end : Bool) → Agrees (λ s. step_escaped before s c r at_end)
  unfolding step_escaped hold_back keep newline
  step_escaped-view [] at_end = ground (arith, regrouped c)
  step_escaped-view (d ∷ r) at_end = ground (arith, regrouped d)

  step_closing-view : (r : Bytes) (at_end : Bool) → Agrees (λ s. step_closing before s c r at_end)
  unfolding step_closing hold_back keep enter
  step_closing-view [] at_end = ground (arith, regrouped c)
  step_closing-view (d ∷ r) at_end = ground (arith, regrouped d)

  pub step_quoted-view :
      (quote : ℕ) (r : Bytes) (at_end : Bool) → Agrees (λ s. step_quoted quote before s c r at_end)
  unfolding step_quoted
  step_quoted-view quote r at_end =
      ground (arith, inside-view r, step_escaped-view r at_end, step_closing-view r at_end)

  pub step_backtick-view :
      (r : Bytes) (at_end : Bool) → Agrees (λ s. step_backtick before s c r at_end)
  unfolding step_backtick
  step_backtick-view r at_end = ground (arith, inside-view r, step_closing-view r at_end)

  pub step_block_comment-view :
      (r : Bytes) (at_end : Bool) → Agrees (λ s. step_block_comment before s c r at_end)
  unfolding step_block_comment hold_back keep enter newline
  step_block_comment-view [] at_end = ground (arith, regrouped c)
  step_block_comment-view (d ∷ r) at_end = ground (arith, regrouped d)

  pub step_line_comment-view : (r : Bytes) → Agrees (λ s. step_line_comment s c r)
  unfolding step_line_comment keep newline
  step_line_comment-view r = ground (arith, regrouped c)

  step_maria-view :
      (d : ℕ) (r : Bytes) (at_end : Bool)
      → Counts s
      → Agrees (λ s. step_maria before s c d r at_end)
  unfolding step_maria hold_back open_construct keep mark_content
  step_maria-view d r at_end h = ground (
    arith,
    regrouped d,
    attempt-view earlier (append_up_to s) (append_up_to (view earlier s))
        (λ s'. advance (open_construct discard_block_comment s') r)
        (λ s'. advance (open_construct discard_block_comment s') r) (append_up_to-view earlier s h)
        (λ a b _ _ e. cc),
  )

  step_marker-view :
      (d marker : ℕ) (r : Bytes) (at_end : Bool)
      → Counts s
      → Agrees (λ s. step_marker before s c d marker r at_end)
  unfolding step_marker hold_back open_construct keep mark_content
  step_marker-view d marker [] at_end h = ground (arith, regrouped d)
  step_marker-view d marker (e ∷ r) at_end h =
      ground (arith, regrouped d, step_maria-view d (marker ∷ e ∷ r) at_end h)

  step_slash-view :
      (r : Bytes) (at_end : Bool) → Counts s → Agrees (λ s. step_slash before s c r at_end)
  unfolding step_slash hold_back open_construct keep mark_content
  step_slash-view [] at_end h = ground (arith, regrouped c)
  step_slash-view (d ∷ []) at_end h = ground (arith, regrouped d)
  step_slash-view (d ∷ marker ∷ r) at_end h =
      ground (arith, regrouped d, step_marker-view d marker r at_end h)

  step_character-view :
      (r : Bytes) (at_end : Bool) → Counts s → Agrees (λ s. step_character before s c r at_end)
  unfolding step_character open_comment open_construct keep mark_content
  step_character-view r at_end h =
      ground
        (arith, regrouped c, plain-view r, step_minus-view r at_end, step_slash-view r at_end h)

  flush_after-view :
      (rest : Bytes)
      → Counts s
      → Agrees (λ s.
        attempt
          (append_up_to s)
          (λ s'. attempt (flush_statement s') (λ flushed. advance flushed rest)))
  flush_after-view rest h =
      attempt-view earlier (append_up_to s) (append_up_to (view earlier s)) _ _
        (append_up_to-view earlier s h)
        (λ a b ea eb e.
          attempt-view earlier (flush_statement a) (flush_statement b) _ _
            (flush_statement-view earlier [] a b e (append_up_to-pending earlier s ea)
              (append_up_to-pending earlier (view earlier s) eb))
            (λ x y _ _ e'. cc))

  pub step_delimiter-view :
      (r : Bytes) (at_end : Bool) → Counts s → Agrees (λ s. step_delimiter before s c r at_end)
  unfolding step_delimiter hold_back
  step_delimiter-view r at_end h = ground (
    arith,
    regrouped c,
    step_character-view r at_end h,
    flush_after-view (drop (length s.parser.delimiter) (c ∷ r)) h,
  )
