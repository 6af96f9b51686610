-- ===== src/Restore/Parser/Chunks/StableCommands.antt =====
-- A client command that was read, or refused, before the end of a chunk is read alike when more text
-- follows.
use dbgate_mysql_dumper.Text.Letters.{lower}
use dbgate_mysql_dumper.Base.{
  ℕ, [], ◌∷◌, ◌++◌, ◌≡◌, Bytes, length, refl, arith, Option, none, some, inl, inr, Bool-cases, Bool,
  true, false, ◌||◌, not, drop, leb, ◌==◌,
}
use dbgate_mysql_dumper.Restore.Parser.Command.{
  Command, not_command, incomplete, set_delimiter, failed, try_read_client_command, is_whitespace,
  run_of, is_nil, accept_delimiter, read_delimiter_argument, read_delimiter_command, run_command,
  read_command_word, is_command_letter, is_separated, find_command, client_commands,
  max_delimiter_length, max_client_command_length,
}
use dbgate_mysql_dumper.Restore.Parser.Chunks.Prefix.{
  Safe, Safe-drop, drop-append, run_of-le, run_of-append,
}

abbrev pub StableCommand : Bytes → Command → Command → Type 0
StableCommand more not_command t = t ≡ not_command
StableCommand more incomplete t = Unit
StableCommand more (set_delimiter delimiter rest) t =
    (t ≡ set_delimiter delimiter (rest ++ more)) × Safe rest
StableCommand more (failed e) t = t ≡ failed e

is_nil-append : (rest more : Bytes) → is_nil rest ≡ false → is_nil (rest ++ more) ≡ false
unfolding is_nil
is_nil-append [] more h = cc
is_nil-append (c ∷ rest) more h = refl

-- A word that takes the text up to its end is not empty.
word_not_nil :
    (word : Bytes) (c : ℕ) (r : Bytes)
    → is_nil (drop (length word) (c ∷ r)) ≡ true
    → is_nil word ≡ false
unfolding is_nil
word_not_nil [] c r h = cc
word_not_nil (x ∷ word) c r h = refl

module _ (more : Bytes) (line : ℕ) (b : Bool) where
  accept_delimiter-Stable :
      (raw rest : Bytes)
      → Safe rest
      → StableCommand more
          (accept_delimiter raw line rest)
          (accept_delimiter raw line (rest ++ more))
  unfolding accept_delimiter
  accept_delimiter-Stable raw rest h = ground arith

  read_delimiter_argument-Stable :
      (text : Bytes)
      → Safe text
      → StableCommand more
          (read_delimiter_argument text line false)
          (read_delimiter_argument (text ++ more) line b)
  unfolding read_delimiter_argument
  read_delimiter_argument-Stable text h =
      let p : ℕ → Bool = λ c. not (is_whitespace c) in
      let raw = run_of max_delimiter_length p text in
      let rest = drop (length raw) text in
      let dropped_more =
        drop-append (length raw) text more (run_of-le max_delimiter_length p text) in
      elim (Bool-cases (leb max_delimiter_length (length raw))) [
        | inl e ↦
            ground (arith, run_of-append max_delimiter_length p text more (inr (ground arith)))
        | inr e ↦ elim (Bool-cases (is_nil rest)) [
          | inl f ↦ ground arith
          | inr f ↦ ground (
            arith,
            run_of-append max_delimiter_length p text more (inl f),
            dropped_more,
            is_nil-append rest more f,
            accept_delimiter-Stable raw rest (Safe-drop (length raw) text h),
          )
        ]
      ]

  read_delimiter_command-Stable :
      (text : Bytes)
      → Safe text
      → StableCommand more
          (read_delimiter_command text line false)
          (read_delimiter_command (text ++ more) line b)
  unfolding read_delimiter_command
  read_delimiter_command-Stable text h =
      let p : ℕ → Bool = λ c. c == b' ' || c == b'\t' in
      let raw = run_of max_delimiter_length p text in
      let rest = drop (length raw) text in
      let dropped_more =
        drop-append (length raw) text more (run_of-le max_delimiter_length p text) in
      elim (Bool-cases (is_nil rest)) [
        | inl f ↦ ground arith
        | inr f ↦ ground (
          arith,
          run_of-append max_delimiter_length p text more (inl f),
          dropped_more,
          is_nil-append rest more f,
          read_delimiter_argument-Stable rest (Safe-drop (length raw) text h),
        )
      ]

  run_command-Stable :
      (found : Option Bool) (word rest : Bytes)
      → is_nil rest ≡ false
      → Safe rest
      → StableCommand more
          (run_command found word rest line false)
          (run_command found word (rest ++ more) line b)
  unfolding run_command is_separated is_nil
  run_command-Stable none word rest h k = refl
  run_command-Stable (some supported) word [] h k = cc
  run_command-Stable (some supported) word (c ∷ rest) h k =
      ground (arith, read_delimiter_command-Stable (c ∷ rest) k)

  read_command_word-Stable :
      (c : ℕ) (r : Bytes)
      → Safe (c ∷ r)
      → StableCommand more
          (read_command_word (c ∷ r) line false)
          (read_command_word ((c ∷ r) ++ more) line b)
  unfolding read_command_word is_nil
  read_command_word-Stable c r h =
      let text = c ∷ r in
      let word = run_of max_client_command_length is_command_letter text in
      let rest = drop (length word) text in
      let dropped_more =
        drop-append (length word) text more
          (run_of-le max_client_command_length is_command_letter text) in
      elim (Bool-cases (leb max_client_command_length (length word))) [
        | inl e ↦ ground (
          arith,
          run_of-append max_client_command_length is_command_letter text more (inr (ground arith)),
        )
        | inr e ↦ elim (Bool-cases (is_nil rest)) [
          | inl f ↦ ground (arith, word_not_nil word c r f)
          | inr f ↦ ground (
            arith,
            run_of-append max_client_command_length is_command_letter text more (inl f),
            dropped_more,
            is_nil-append rest more f,
            run_command-Stable (find_command (lower word) client_commands) (lower word) rest f
                (Safe-drop (length word) text h),
          )
        ]
      ]

  pub try_read_client_command-Stable :
      (c : ℕ) (r : Bytes)
      → Safe (c ∷ r)
      → StableCommand more
          (try_read_client_command (c ∷ r) line false)
          (try_read_client_command (c ∷ r ++ more) line b)
  unfolding try_read_client_command
  try_read_client_command-Stable c [] h = ground (arith, read_command_word-Stable c [] h)
  try_read_client_command-Stable c (d ∷ r) h =
      ground (arith, read_command_word-Stable c (d ∷ r) h, read_command_word-Stable d r h)
