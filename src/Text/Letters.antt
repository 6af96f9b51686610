-- ===== src/Text/Letters.antt =====
-- ASCII letters: `toLowerCase`, and matching with the flag `i`.
use dbgate_mysql_dumper.Base.{
  ℕ, ◌+◌, Bool, true, false, ◌&&◌, ◌||◌, [], ◌∷◌, leb, ◌==◌, if◌then◌else◌, Bytes, map,
}

abbrev within : ℕ → ℕ → ℕ → Bool
within lo hi c = leb lo c && leb c hi

unfoldable pub is_upper : ℕ → Bool
is_upper c = within b'A' b'Z' c

unfoldable pub is_letter : ℕ → Bool
is_letter c = within b'A' b'Z' c || within b'a' b'z' c

unfoldable pub is_digit : ℕ → Bool
is_digit c = within b'0' b'9' c

unfoldable pub to_lower : ℕ → ℕ
unfolding is_upper
to_lower c = if is_upper c then c + 32 else c

unfoldable pub lower : Bytes → Bytes
unfolding to_lower
lower = map to_lower

-- A match of the flag `i` at the head; the pattern is in lower case.
unfoldable pub starts_with_ci : Bytes → Bytes → Bool
unfolding to_lower
starts_with_ci [] text = true
starts_with_ci (p ∷ ps) [] = false
starts_with_ci (p ∷ ps) (c ∷ cs) = p == to_lower c && starts_with_ci ps cs

unfoldable pub contains_ci : Bytes → Bytes → Bool
unfolding starts_with_ci
contains_ci wanted [] = starts_with_ci wanted []
contains_ci wanted (c ∷ cs) = starts_with_ci wanted (c ∷ cs) || contains_ci wanted cs

-- `\w`
unfoldable pub is_word : ℕ → Bool
unfolding is_letter is_digit
is_word c = is_letter c || is_digit c || c == b'_'
