-- ===== src/Data/ValueRenderer/Numbers.antt =====
-- src/security/literals.ts: SAFE_NUMERIC_LITERAL against an automaton of MySQL's numeric literals.
use dbgate_mysql_dumper.Base.{
  ℕ, [], ◌∷◌, ◌≡◌, Bytes, length, refl, arith, none, some, inl, inr, Option-cases, Bool, true,
  false, ◌&&◌, ◌||◌, ◌==◌, if◌then◌else◌, Option, ◌∙◌, sym, ap,
}
use dbgate_mysql_dumper.Text.Letters.{is_digit}
use dbgate_mysql_dumper.Data.ValueRenderer.{
  is_safe_numeric_literal, digits, sign, fraction, exponent,
}

-- What was read of a number: nothing, a sign, digits, a point with no digit before it, a point and the
-- digits around it, the mark of the exponent, its sign, its digits, or no number.
pub data Reading : Type 0 where
  at_start signed whole point fractional marked mark_signed powered refused : Reading

abbrev is_sign : ℕ → Bool
is_sign c = c == b'+' || c == b'-'

abbrev is_mark : ℕ → Bool
is_mark c = c == b'e' || c == b'E'

unfoldable pub read_on : Reading → ℕ → Reading
read_on at_start c =
    if is_digit c then whole else if c == b'.' then point else if is_sign c then signed else refused
read_on signed c = if is_digit c then whole else if c == b'.' then point else refused
read_on whole c =
    if is_digit c
    then whole
    else if c == b'.'
    then fractional
    else if is_mark c
    then marked
    else refused
read_on point c = if is_digit c then fractional else refused
read_on fractional c = if is_digit c then fractional else if is_mark c then marked else refused
read_on marked c = if is_digit c then powered else if is_sign c then mark_signed else refused
read_on mark_signed c = if is_digit c then powered else refused
read_on powered c = if is_digit c then powered else refused
read_on refused c = refused

unfoldable pub ends_number : Reading → Bytes → Bool
ends_number whole [] = true
ends_number fractional [] = true
ends_number powered [] = true
ends_number _ [] = false
ends_number state (c ∷ cs) = ends_number (read_on state c) cs

-- The whole text is a number.
unfoldable pub is_number : Bytes → Bool
is_number text = ends_number at_start text

refused-ends : (cs : Bytes) → ends_number refused cs ≡ false
unfolding ends_number read_on
refused-ends [] = refl
refused-ends (c ∷ cs) = refused-ends cs

powered-ends : (cs : Bytes) → ends_number powered cs ≡ (length (digits cs).1 == 0)
unfolding ends_number read_on digits
powered-ends [] = refl
powered-ends (c ∷ cs) = ground (arith, powered-ends cs, refused-ends cs)

mark_signed-ends :
    (cs : Bytes) → ends_number mark_signed cs ≡ ((digits cs).0 && length (digits cs).1 == 0)
unfolding ends_number read_on digits
mark_signed-ends [] = refl
mark_signed-ends (c ∷ cs) = ground (arith, powered-ends cs, refused-ends cs)

marked-ends :
    (cs : Bytes)
    → ends_number marked cs ≡ ((digits (sign cs)).0 && length (digits (sign cs)).1 == 0)
unfolding ends_number read_on digits sign is_digit
marked-ends [] = refl
marked-ends (c ∷ cs) = ground (arith, powered-ends cs, mark_signed-ends cs, refused-ends cs)

fractional-ends : (cs : Bytes) → ends_number fractional cs ≡ exponent (digits cs).1
unfolding ends_number read_on digits exponent
fractional-ends [] = refl
fractional-ends (c ∷ cs) = ground (arith, fractional-ends cs, marked-ends cs, refused-ends cs)

point-ends : (cs : Bytes) → ends_number point cs ≡ ((digits cs).0 && exponent (digits cs).1)
unfolding ends_number read_on digits exponent
point-ends [] = refl
point-ends (c ∷ cs) = ground (arith, fractional-ends cs, refused-ends cs)

-- The rest of the expression behind the digits of the whole part.
abbrev fraction_ends : Option Bytes → Bool
fraction_ends none = false
fraction_ends (some rest) = exponent rest

whole-ends : (cs : Bytes) → ends_number whole cs ≡ fraction_ends (fraction true (digits cs).1)
unfolding ends_number read_on digits exponent fraction is_digit
whole-ends [] = refl
whole-ends (c ∷ cs) =
    ground (arith, whole-ends cs, fractional-ends cs, marked-ends cs, refused-ends cs)

signed-ends :
    (cs : Bytes) → ends_number signed cs ≡ fraction_ends (fraction (digits cs).0 (digits cs).1)
unfolding ends_number read_on digits exponent fraction is_digit
signed-ends [] = refl
signed-ends (c ∷ cs) = ground (arith, whole-ends cs, point-ends cs, refused-ends cs)

number-ends :
    (cs : Bytes)
    → ends_number at_start cs ≡ fraction_ends (fraction (digits (sign cs)).0 (digits (sign cs)).1)
unfolding ends_number read_on digits exponent fraction is_digit sign
number-ends [] = refl
number-ends (c ∷ cs) = ground (arith, whole-ends cs, point-ends cs, signed-ends cs, refused-ends cs)

-- The expression accepts the numbers and nothing else.
pub is_safe_numeric_literal-is_number :
    (value : Bytes) → is_safe_numeric_literal value ≡ is_number value
unfolding is_safe_numeric_literal is_number
is_safe_numeric_literal-is_number value =
    elim (Option-cases (fraction (digits (sign value)).0 (digits (sign value)).1)) [
      | inl e ↦ rw (e, is_safe_numeric_literal) (sym (number-ends value ∙ ap fraction_ends e))
      | inr (rest, e) ↦
          rw (e, is_safe_numeric_literal) (sym (number-ends value ∙ ap fraction_ends e))
    ]
