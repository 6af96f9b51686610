-- ===== src/Restore/Parser/Command.antt =====
-- `tryReadClientCommand` and `readDelimiterCommand`. The text begins at the index that the source
-- passes; a command hands back the delimiter that it installs and the text behind its argument.
use dbgate_mysql_dumper.Base.{
  ℕ, zero, suc, Bool, true, false, ◌&&◌, ◌||◌, not, [], ◌∷◌, List, Option, none, some, leb, ◌==◌,
  if◌then◌else◌, Bytes, codes, length, take, drop, same, any,
}
use dbgate_mysql_dumper.Text.Letters.{is_letter, lower}
use dbgate_mysql_dumper.Restore.Parser.State.{
  ParseError, invalid_delimiter, unsupported_client_command, too_long, required, has_backslash,
}

unfoldable pub is_whitespace : ℕ → Bool
is_whitespace c = c == b' ' || c == b'\t' || c == b'\n' || c == b'\r' || c == 0x0c || c == 0x0b

pub data Command : Type 0 where
  not_command incomplete : Command
  set_delimiter : Bytes → Bytes → Command
  failed : ParseError → Command

abbrev pub max_client_command_length : ℕ
max_client_command_length = 16

abbrev pub max_delimiter_length : ℕ
max_delimiter_length = 64

-- A scan that stops at a byte that fails the test, at the end of the text or at the limit.
unfoldable pub run_of : ℕ → (ℕ → Bool) → Bytes → Bytes
run_of zero p text = []
run_of (suc n) p [] = []
run_of (suc n) p (c ∷ cs) = if p c then c ∷ run_of n p cs else []

unfoldable pub is_nil : Bytes → Bool
is_nil [] = true
is_nil (_ ∷ _) = false

unfoldable pub last_or : ℕ → Bytes → ℕ
last_or c [] = c
last_or c (d ∷ r) = last_or d r

unfoldable pub strip_quotes : Bytes → Bytes
strip_quotes [] = []
strip_quotes (c ∷ []) = c ∷ []
strip_quotes (c ∷ d ∷ r) =
    if (c == b'\'' || c == b'"' || c == b'`') && last_or d r == c
    then take (length r) (d ∷ r)
    else c ∷ d ∷ r

-- The checks on the argument, and the command that they let through.
unfoldable pub accept_delimiter : Bytes → ℕ → Bytes → Command
accept_delimiter raw line rest =
    if is_nil raw
    then failed (invalid_delimiter raw line required)
    else if is_nil (strip_quotes raw)
    then failed (invalid_delimiter raw line required)
    else if any (λ c. c == b'\\') (strip_quotes raw)
    then failed (invalid_delimiter raw line has_backslash)
    else set_delimiter (strip_quotes raw) rest

unfoldable pub read_delimiter_argument : Bytes → ℕ → Bool → Command
read_delimiter_argument text line at_end =
    let raw = run_of max_delimiter_length (λ c. not (is_whitespace c)) text in
    let rest = drop (length raw) text in
    if leb max_delimiter_length (length raw)
    then failed (invalid_delimiter (take 32 raw) line too_long)
    else if is_nil rest && not at_end
    then incomplete
    else accept_delimiter raw line rest

unfoldable pub read_delimiter_command : Bytes → ℕ → Bool → Command
read_delimiter_command text line at_end =
    let rest =
      drop (length (run_of max_delimiter_length (λ c. c == b' ' || c == b'\t') text)) text in
    if is_nil rest && not at_end then incomplete else read_delimiter_argument rest line at_end

-- `CLIENT_COMMANDS`: each name, and whether it is supported
abbrev pub client_commands : List (Bytes × Bool)
client_commands =
    (codes "delimiter", true)
    ∷ (codes "source", false)
    ∷ (codes "system", false)
    ∷ (codes "tee", false)
    ∷ (codes "notee", false)
    ∷ (codes "charset", false)
    ∷ (codes "pager", false)
    ∷ (codes "nopager", false)
    ∷ (codes "prompt", false)
    ∷ (codes "connect", false)
    ∷ []

unfoldable pub find_command : Bytes → List (Bytes × Bool) → Option Bool
find_command word [] = none
find_command word ((name, supported) ∷ rest) =
    if same name word then some supported else find_command word rest

unfoldable pub is_separated : Bytes → Bool
is_separated [] = true
is_separated (c ∷ _) = is_whitespace c

-- The word is known, and `rest` is the text behind it.
unfoldable pub run_command : Option Bool → Bytes → Bytes → ℕ → Bool → Command
run_command none word rest line at_end = not_command
run_command (some supported) word rest line at_end =
    if not (is_separated rest)
    then not_command
    else if not supported
    then failed (unsupported_client_command word line)
    else read_delimiter_command rest line at_end

unfoldable pub is_command_letter : ℕ → Bool
is_command_letter c = is_letter c || c == b'.'

-- `text` begins at `scan`, behind the backslash if there is one.
unfoldable pub read_command_word : Bytes → ℕ → Bool → Command
read_command_word text line at_end =
    let word = run_of max_client_command_length is_command_letter text in
    let rest = drop (length word) text in
    if is_nil word
    then not_command
    else if leb max_client_command_length (length word)
    then not_command
    else if is_nil rest && not at_end
    then incomplete
    else run_command (find_command (lower word) client_commands) (lower word) rest line at_end

unfoldable pub try_read_client_command : Bytes → ℕ → Bool → Command
try_read_client_command [] line at_end = not_command
try_read_client_command (c ∷ cs) line at_end =
    if c == b'\\' then read_command_word cs line at_end else read_command_word (c ∷ cs) line at_end
