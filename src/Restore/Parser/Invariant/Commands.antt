-- ===== src/Restore/Parser/Invariant/Commands.antt =====
-- A client command that is read installs a delimiter that is not empty, and takes text.
use dbgate_mysql_dumper.Text.Letters.{lower}
use dbgate_mysql_dumper.Base.{
  ℕ, ◌+◌, ◌≤◌, [], ◌∷◌, ◌≢◌, Bytes, length, arith, Option, none, some, Bool, ◌||◌, not, drop,
  length-drop, ◌==◌,
}
use dbgate_mysql_dumper.Restore.Parser.State.{diverges}
use dbgate_mysql_dumper.Restore.Parser.Command.{
  Command, not_command, incomplete, set_delimiter, failed, try_read_client_command, is_whitespace,
  run_of, is_nil, accept_delimiter, read_delimiter_argument, read_delimiter_command, run_command,
  read_command_word, is_command_letter, find_command, client_commands, max_delimiter_length,
  max_client_command_length,
}

-- The text begins with a byte, and `r` stands behind it.
abbrev pub Sound : Bytes → Command → Type 0
Sound r not_command = Unit
Sound r incomplete = Unit
Sound r (set_delimiter delimiter rest) = (delimiter ≢ []) × (length rest ≤ length r)
Sound r (failed e) = e ≢ diverges

accept_delimiter-Sound :
    (raw : Bytes) (line : ℕ) (rest : Bytes) (r : Bytes)
    → length rest ≤ length r
    → Sound r (accept_delimiter raw line rest)
unfolding accept_delimiter is_nil
accept_delimiter-Sound raw line rest r h = ground arith

read_delimiter_argument-Sound :
    (text : Bytes) (line : ℕ) (at_end : Bool) (r : Bytes)
    → length text ≤ length r
    → Sound r (read_delimiter_argument text line at_end)
unfolding read_delimiter_argument
read_delimiter_argument-Sound text line at_end r h =
    let raw = run_of max_delimiter_length (λ c. not (is_whitespace c)) text in
    ground (
      arith,
      accept_delimiter-Sound raw line (drop (length raw) text) r,
      length-drop (length raw) text,
    )

read_delimiter_command-Sound :
    (text : Bytes) (line : ℕ) (at_end : Bool) (r : Bytes)
    → length text ≤ length r
    → Sound r (read_delimiter_command text line at_end)
unfolding read_delimiter_command
read_delimiter_command-Sound text line at_end r h =
    let spaces = length (run_of max_delimiter_length (λ c. c == b' ' || c == b'\t') text) in
    ground (
      arith,
      read_delimiter_argument-Sound (drop spaces text) line at_end r,
      length-drop spaces text,
    )

run_command-Sound :
    (found : Option Bool) (word text : Bytes) (line : ℕ) (at_end : Bool) (r : Bytes)
    → length text ≤ length r
    → Sound r (run_command found word text line at_end)
unfolding run_command
run_command-Sound none word text line at_end r h = tt
run_command-Sound (some supported) word text line at_end r h =
    ground (arith, read_delimiter_command-Sound text line at_end r h)

read_command_word-Sound :
    (text : Bytes) (line : ℕ) (at_end : Bool) (r : Bytes)
    → length text ≤ length r + 1
    → Sound r (read_command_word text line at_end)
unfolding read_command_word is_nil
read_command_word-Sound text line at_end r h =
    let word = run_of max_client_command_length is_command_letter text in
    let rest = drop (length word) text in
    ground (
      arith,
      run_command-Sound (find_command (lower word) client_commands) (lower word) rest line at_end r,
      length-drop (length word) text,
    )

pub try_read_client_command-Sound :
    (c : ℕ) (r : Bytes) (line : ℕ) (at_end : Bool)
    → Sound r (try_read_client_command (c ∷ r) line at_end)
unfolding try_read_client_command
try_read_client_command-Sound c r line at_end =
    ground (
      arith,
      read_command_word-Sound r line at_end r,
      read_command_word-Sound (c ∷ r) line at_end r,
    )
