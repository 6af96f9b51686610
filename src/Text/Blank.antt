-- ===== src/Text/Blank.antt =====
-- White space: `trim` of a `latin1` string, and `\s`, `.` and `trim` of decoded text.
use dbgate_mysql_dumper.Base.{
  arith, ◌≤◌, length, ℕ, zero, suc, Bool, true, false, ◌&&◌, ◌||◌, not, [], ◌∷◌, leb, ◌==◌,
  if◌then◌else◌, Bytes, every, starts_with,
}

abbrev within : ℕ → ℕ → ℕ → Bool
within lo hi c = leb lo c && leb c hi

-- Among the first 256 code points `trim` removes these; U+00A0 is one of them.
unfoldable pub is_trimmed : ℕ → Bool
is_trimmed c = within 9 13 c || c == 32 || c == 0xa0

unfoldable pub trim_start : Bytes → Bytes
trim_start [] = []
trim_start (c ∷ cs) = if is_trimmed c then trim_start cs else c ∷ cs

unfoldable pub trim_end : Bytes → Bytes
trim_end [] = []
trim_end (c ∷ cs) = if every is_trimmed (c ∷ cs) then [] else c ∷ trim_end cs

-- `text.trim()` where each byte is one character
unfoldable pub trim : Bytes → Bytes
unfolding trim_start trim_end is_trimmed every
trim text = trim_end (trim_start text)

-- The length of the white space character at the head of decoded text, 0 if there is none.
unfoldable pub blank_length : Bytes → ℕ
blank_length [] = 0
blank_length (a ∷ []) = if within 9 13 a || a == 32 then 1 else 0
blank_length (a ∷ b ∷ []) =
    if within 9 13 a || a == 32 then 1 else if a == 0xc2 && b == 0xa0 then 2 else 0
blank_length (a ∷ b ∷ c ∷ _) =
    if within 9 13 a || a == 32
    then 1
    else if a == 0xc2 && b == 0xa0
    then 2
    else if a == 0xe1 && b == 0x9a && c == 0x80
        || a == 0xe2 && b == 0x80 && (within 0x80 0x8a c || c == 0xa8 || c == 0xa9 || c == 0xaf)
        || a == 0xe2 && b == 0x81 && c == 0x9f
        || a == 0xe3 && b == 0x80 && c == 0x80
        || a == 0xef && b == 0xbb && c == 0xbf
    then 3
    else 0

-- The text behind its leading white space; the number counts bytes of a character to pass over.
skip_from : ℕ → Bytes → Bytes
unfolding blank_length
skip_from n [] = []
skip_from (suc n) (c ∷ cs) = skip_from n cs
skip_from zero (c ∷ cs) = elim (blank_length (c ∷ cs)) [ zero ↦ c ∷ cs | suc n ↦ skip_from n cs ]

unfoldable pub skip_blanks : Bytes → Bytes
unfolding skip_from
skip_blanks = skip_from 0

skipped-length :
    (blank c : ℕ) (cs : Bytes)
    → ((n : ℕ) → length (skip_from n cs) ≤ length cs)
    → length (elim blank as (λ x. Bytes) [ zero ↦ c ∷ cs | suc n ↦ skip_from n cs ])
      ≤ length (c ∷ cs)
skipped-length zero c cs h = omega arith
skipped-length (suc n) c cs h = omega (arith, h n)

length-skip_from : (n : ℕ) (text : Bytes) → length (skip_from n text) ≤ length text
unfolding skip_from
length-skip_from zero [] = omega arith
length-skip_from (suc n) [] = omega arith
length-skip_from (suc n) (c ∷ cs) = omega (arith, length-skip_from n cs)
length-skip_from zero (c ∷ cs) =
    skipped-length (blank_length (c ∷ cs)) c cs (λ n. length-skip_from n cs)

pub length-skip_blanks : (text : Bytes) → length (skip_blanks text) ≤ length text
unfolding skip_blanks
length-skip_blanks text = length-skip_from 0 text

-- The text up to its first white space.
unfoldable pub nonblank_run : Bytes → Bytes
unfolding blank_length
nonblank_run [] = []
nonblank_run (c ∷ cs) = if blank_length (c ∷ cs) == 0 then c ∷ nonblank_run cs else []

is_nil : Bytes → Bool
is_nil [] = true
is_nil (_ ∷ _) = false

trim_text_end : Bytes → Bytes
unfolding skip_blanks is_nil
trim_text_end [] = []
trim_text_end (c ∷ cs) = if is_nil (skip_blanks (c ∷ cs)) then [] else c ∷ trim_text_end cs

-- `text.trim()` of decoded text
unfoldable pub trim_text : Bytes → Bytes
unfolding skip_blanks trim_text_end
trim_text text = trim_text_end (skip_blanks text)

-- What `.` does not match: a line feed, a carriage return, U+2028 and U+2029.
unfoldable pub is_line_end : Bytes → Bool
unfolding starts_with
is_line_end text =
    starts_with (b'\n' ∷ []) text
    || starts_with (b'\r' ∷ []) text
    || starts_with (0xe2 ∷ 0x80 ∷ 0xa8 ∷ []) text
    || starts_with (0xe2 ∷ 0x80 ∷ 0xa9 ∷ []) text

unfoldable pub is_one_line : Bytes → Bool
unfolding is_line_end
is_one_line [] = true
is_one_line (c ∷ cs) = not (is_line_end (c ∷ cs)) && is_one_line cs
