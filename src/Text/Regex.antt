-- ===== src/Text/Regex.antt =====
-- Regular expressions of the language with the flag `i`, as far as the restore uses them, on decoded
-- text. `\s` runs take all the white space, which nothing that follows one in these expressions begins
-- with.
use dbgate_mysql_dumper.Base.{
  ℕ, zero, suc, [], ◌∷◌, ◌++◌, List, Bytes, length, Option, none, some, Bool, true, false, ◌&&◌,
  not, drop, ◌==◌, if◌then◌else◌,
}
use dbgate_mysql_dumper.Text.Blank.{skip_blanks, blank_length}
use dbgate_mysql_dumper.Text.Letters.{starts_with_ci, is_word, is_digit}

pub data Item : Type 0 where
  -- a text, in lower case
  word : Bytes → Item
  -- `\s*`, `\s+`, `\b`, `[^;]*` and `\d{0,n}`
  blanks some_blanks boundary up_to_semicolon : Item
  digits : ℕ → Item
  -- (?:[^`]|``)*
  quoted_part : Item

abbrev pub Pattern : Type 0
Pattern = List Item

-- What matches behind an item, given whether a character of `\w` stands before.
abbrev Behind : Type 0
Behind = Bool → Bytes → Option Bytes

or_instead : Option Bytes → Option Bytes → Option Bytes
or_instead none next = next
or_instead (some rest) next = some rest

-- As many characters as possible first.
star : (ℕ → Bool) → Behind → Bool → Bytes → Option Bytes
unfolding or_instead is_word
star p k w [] = k w []
star p k w (c ∷ cs) = elim (p c) [
  | true ↦ or_instead (star p k (is_word c) cs) (k w (c ∷ cs))
  | false ↦ k w (c ∷ cs)
]

at_most : ℕ → (ℕ → Bool) → Behind → Bool → Bytes → Option Bytes
unfolding or_instead is_word
at_most zero p k w text = k w text
at_most (suc n) p k w [] = k w []
at_most (suc n) p k w (c ∷ cs) = elim (p c) [
  | true ↦ or_instead (at_most n p k (is_word c) cs) (k w (c ∷ cs))
  | false ↦ k w (c ∷ cs)
]

quoted_chars : Behind → Bool → Bytes → Option Bytes
unfolding or_instead is_word
quoted_chars k w [] = k w []
quoted_chars k w (c ∷ []) =
    if c == b'`' then k w (c ∷ []) else or_instead (k (is_word c) []) (k w (c ∷ []))
quoted_chars k w (c ∷ d ∷ cs) = elim (c == b'`') [
  | false ↦ or_instead (quoted_chars k (is_word c) (d ∷ cs)) (k w (c ∷ d ∷ cs))
  | true ↦ elim (d == b'`') [
    | true ↦ or_instead (quoted_chars k false cs) (k w (c ∷ d ∷ cs))
    | false ↦ k w (c ∷ d ∷ cs)
  ]
]

begins_word : Bytes → Bool
unfolding is_word
begins_word [] = false
begins_word (c ∷ cs) = is_word c

ends_word : Bool → Bytes → Bool
unfolding is_word
ends_word w [] = w
ends_word w (c ∷ cs) = ends_word (is_word c) cs

differ : Bool → Bool → Bool
differ true b = not b
differ false b = b

-- The text behind the match at the head.
unfoldable pub match_here : Pattern → Bool → Bytes → Option Bytes
unfolding star at_most quoted_chars begins_word ends_word differ starts_with_ci skip_blanks
    blank_length is_digit
match_here [] w text = some text
match_here (word wanted ∷ items) w text =
    if starts_with_ci wanted text
    then match_here items (ends_word w wanted) (drop (length wanted) text)
    else none
match_here (blanks ∷ items) w text =
    match_here items (w && blank_length text == 0) (skip_blanks text)
match_here (some_blanks ∷ items) w text =
    if blank_length text == 0 then none else match_here items false (skip_blanks text)
match_here (boundary ∷ items) w text =
    if differ w (begins_word text) then match_here items w text else none
match_here (up_to_semicolon ∷ items) w text = star (λ c. not (c == b';')) (match_here items) w text
match_here (digits n ∷ items) w text = at_most n is_digit (match_here items) w text
match_here (quoted_part ∷ items) w text = quoted_chars (match_here items) w text

-- `pattern.test(text)`, from a place on
test_from : Pattern → Bool → Bytes → Bool
unfolding match_here is_word
test_from pattern w [] = elim (match_here pattern w []) [ some _ ↦ true | none ↦ false ]
test_from pattern w (c ∷ cs) = elim (match_here pattern w (c ∷ cs)) [
  | some _ ↦ true
  | none ↦ test_from pattern (is_word c) cs
]

unfoldable pub test : Pattern → Bytes → Bool
unfolding test_from
test pattern text = test_from pattern false text

-- `/^…/i.test(text)`
unfoldable pub test_at_start : Pattern → Bytes → Bool
unfolding match_here
test_at_start pattern text = elim (match_here pattern false text) [ some _ ↦ true | none ↦ false ]

-- `text.replace(pattern, replacement)`: the first match is replaced.
replace_from : Pattern → Bytes → Bool → Bytes → Bytes
unfolding match_here is_word
replace_from pattern replacement w [] = elim (match_here pattern w []) [
  | some rest ↦ replacement ++ rest
  | none ↦ []
]
replace_from pattern replacement w (c ∷ cs) = elim (match_here pattern w (c ∷ cs)) [
  | some rest ↦ replacement ++ rest
  | none ↦ c ∷ replace_from pattern replacement (is_word c) cs
]

unfoldable pub replace : Pattern → Bytes → Bytes → Bytes
unfolding replace_from
replace pattern replacement text = replace_from pattern replacement false text
