-- ===== src/Restore/Parser/Chunks/StableCases.antt =====
-- A case of the switch that was decided before the end of a chunk is decided alike when more text follows.

use dbgate_mysql_dumper.Base.{
  ℕ, [], ◌∷◌, ◌++◌, ◌≡◌, Bytes, length, refl, arith, inl, inr, Bool-cases, Bool, false, drop,
  starts_with, length-append, ◌==◌,
}
use dbgate_mysql_dumper.Restore.Parser.State.{discard_block_comment, Result, ok, err}
use dbgate_mysql_dumper.Restore.Parser.Step.{
  Scan, Step, advance, hold, fail, append_up_to, flush_statement, attempt, hold_back,
  open_construct, plain, step_minus, step_maria, step_marker, step_slash, step_character,
  could_start_delimiter, step_delimiter, step_escaped, step_closing, step_quoted, step_backtick,
  step_line_comment, step_skip, step_block_comment, step_discard, sandbox_prefix,
}
use dbgate_mysql_dumper.Restore.Parser.Chunks.Prefix.{
  Safe, Safe-tail, Safe-drop, starts_with-append, starts_with-append_ne, append-starts_with,
  starts_with-length, drop-append, starts_with-le,
}

-- The second step is the first one with `more` behind its text; a step that waits is not decided.
abbrev pub Stable : Bytes → Step → Step → Type 0
Stable more (advance s rest) t = (t ≡ advance s (rest ++ more)) × Safe rest
Stable more (hold s) t = Unit
Stable more (fail e) t = t ≡ fail e

pub attempt-Stable :
    (more : Bytes) (m : Result Scan) (f g : Scan → Step)
    → ((s : Scan) → Stable more (f s) (g s))
    → Stable more (attempt m f) (attempt m g)
attempt-Stable more (ok s) f g h = h s
attempt-Stable more (err e) f g h = refl

module _ (before b : Bool) (s : Scan) (c : ℕ) (more : Bytes) where
  step_minus-Stable :
      (r : Bytes)
      → Safe r
      → Stable more (step_minus before s c r false) (step_minus before s c (r ++ more) b)
  unfolding step_minus hold_back
  step_minus-Stable [] h = tt
  step_minus-Stable (d ∷ []) h = elim (Bool-cases (d == b'-')) [
    | inl e ↦ ground arith
    | inr e ↦ elim more [ [] ↦ ground arith | x ∷ xs ↦ ground arith ]
  ]
  step_minus-Stable (d ∷ e ∷ r) h = ground arith

  step_escaped-Stable :
      (r : Bytes)
      → Safe r
      → Stable more (step_escaped before s c r false) (step_escaped before s c (r ++ more) b)
  unfolding step_escaped hold_back
  step_escaped-Stable [] h = tt
  step_escaped-Stable (d ∷ r) h = (refl, Safe-tail d r h)

  step_closing-Stable :
      (r : Bytes)
      → Safe r
      → Stable more (step_closing before s c r false) (step_closing before s c (r ++ more) b)
  unfolding step_closing hold_back
  step_closing-Stable [] h = tt
  step_closing-Stable (d ∷ r) h = ground (arith, Safe-tail d r h)

  pub step_quoted-Stable :
      (quote : ℕ) (r : Bytes)
      → Safe r
      → Stable more
          (step_quoted quote before s c r false)
          (step_quoted quote before s c (r ++ more) b)
  unfolding step_quoted
  step_quoted-Stable quote r h = ground (arith, step_escaped-Stable r h, step_closing-Stable r h)

  pub step_backtick-Stable :
      (r : Bytes)
      → Safe r
      → Stable more (step_backtick before s c r false) (step_backtick before s c (r ++ more) b)
  unfolding step_backtick
  step_backtick-Stable r h = ground (arith, step_closing-Stable r h)

  pub step_line_comment-Stable :
      (r : Bytes)
      → Safe r
      → Stable more (step_line_comment s c r) (step_line_comment s c (r ++ more))
  unfolding step_line_comment
  step_line_comment-Stable r h = ground arith

  pub step_skip-Stable :
      (r : Bytes) → Safe r → Stable more (step_skip s c r) (step_skip s c (r ++ more))
  unfolding step_skip
  step_skip-Stable r h = attempt-Stable more (append_up_to s) _ _ (λ s'. ground arith)

  pub step_block_comment-Stable :
      (r : Bytes)
      → Safe r
      → Stable more
          (step_block_comment before s c r false)
          (step_block_comment before s c (r ++ more) b)
  unfolding step_block_comment hold_back
  step_block_comment-Stable [] h = elim more [ [] ↦ ground arith | x ∷ xs ↦ ground arith ]
  step_block_comment-Stable (d ∷ r) h = ground (arith, Safe-tail d r h)

  pub step_discard-Stable :
      (r : Bytes)
      → Safe r
      → Stable more (step_discard before s c r false) (step_discard before s c (r ++ more) b)
  unfolding step_discard hold_back
  step_discard-Stable [] h = elim more [ [] ↦ ground arith | x ∷ xs ↦ ground arith ]
  step_discard-Stable (d ∷ r) h = ground (arith, Safe-tail d r h)

  step_maria-Stable :
      (d : ℕ) (r : Bytes)
      → Safe r
      → Stable more (step_maria before s c d r false) (step_maria before s c d (r ++ more) b)
  unfolding step_maria hold_back
  step_maria-Stable d r h = elim (Bool-cases (starts_with (c ∷ d ∷ r) sandbox_prefix)) [
    | inl e ↦ ground arith
    | inr e ↦ elim (Bool-cases (starts_with sandbox_prefix (c ∷ d ∷ r))) [
      | inl f ↦ ground (
        arith,
        starts_with-append sandbox_prefix (c ∷ d ∷ r) more f,
        append-starts_with sandbox_prefix (c ∷ d ∷ r) more e,
        attempt-Stable more (append_up_to s)
            (λ s'. advance (open_construct discard_block_comment s') r)
            (λ s'. advance (open_construct discard_block_comment s') (r ++ more)) (λ s'. (refl, h)),
      )
      | inr f ↦ ground (
        arith,
        starts_with-append_ne sandbox_prefix (c ∷ d ∷ r) more f e,
        append-starts_with sandbox_prefix (c ∷ d ∷ r) more e,
      )
    ]
  ]

  step_marker-Stable :
      (d marker : ℕ) (r : Bytes)
      → Safe (marker ∷ r)
      → Stable more
          (step_marker before s c d marker r false)
          (step_marker before s c d marker (r ++ more) b)
  unfolding step_marker hold_back
  step_marker-Stable d marker [] h = elim more [ [] ↦ ground arith | x ∷ xs ↦ ground arith ]
  step_marker-Stable d marker (e ∷ r) h = ground (arith, step_maria-Stable d (marker ∷ e ∷ r) h)

  step_slash-Stable :
      (r : Bytes)
      → Safe r
      → Stable more (step_slash before s c r false) (step_slash before s c (r ++ more) b)
  unfolding step_slash hold_back
  step_slash-Stable [] h = tt
  step_slash-Stable (d ∷ []) h = elim (Bool-cases (d == b'*')) [
    | inl e ↦ ground arith
    | inr e ↦ elim more [ [] ↦ ground arith | x ∷ xs ↦ ground arith ]
  ]
  step_slash-Stable (d ∷ marker ∷ r) h = ground (arith, step_marker-Stable d marker r h)

  step_character-Stable :
      (r : Bytes)
      → Safe r
      → Stable more (step_character before s c r false) (step_character before s c (r ++ more) b)
  unfolding step_character plain
  step_character-Stable r h = ground (arith, step_minus-Stable r h, step_slash-Stable r h)

  pub step_delimiter-Stable :
      (r : Bytes)
      → Safe (c ∷ r)
      → Stable more (step_delimiter before s c r false) (step_delimiter before s c (r ++ more) b)
  unfolding step_delimiter could_start_delimiter hold_back
  step_delimiter-Stable r h =
      let delimiter = s.parser.delimiter in
      let n : ℕ = length delimiter in
      elim (Bool-cases (starts_with delimiter (c ∷ r))) [
        | inl e ↦ ground (
          arith,
          starts_with-append delimiter (c ∷ r) more e,
          drop-append n (c ∷ r) more (starts_with-le delimiter (c ∷ r) e),
          attempt-Stable more (append_up_to s)
              (λ s'. attempt (flush_statement s') (λ f. advance f (drop n (c ∷ r))))
              (λ s'. attempt (flush_statement s') (λ f. advance f (drop n (c ∷ r) ++ more)))
              (λ s'.
                attempt-Stable more (flush_statement s') _ _ (λ f. (refl, Safe-drop n (c ∷ r) h))),
        )
        | inr e ↦ elim (Bool-cases (starts_with (c ∷ r) delimiter)) [
          | inl f ↦
              ground (arith, starts_with-length delimiter (c ∷ r) f, length-append (c ∷ r) more)
          | inr f ↦ ground (
            arith,
            starts_with-append_ne delimiter (c ∷ r) more e f,
            append-starts_with delimiter (c ∷ r) more f,
            step_character-Stable r (Safe-tail c r h),
          )
        ]
      ]
