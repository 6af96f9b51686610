-- ===== src/Security/Literals/Escaping.antt =====
-- src/security/literals.ts: what an escaped string is, and that restoring reads it back.
use dbgate_mysql_dumper.Base.{
  ℕ, suc, ◌+◌, ◌-◌, [], ◌∷◌, ◌++◌, List, ◌≡◌, Bytes, length, refl, sym, ap, ◌∙◌, subst, arith, none,
  some, inl, inr, Option-cases, Bool, true, false, append_assoc, append-nil, drop, take,
  starts_with, ◌==◌, if◌then◌else◌, codes,
}
use dbgate_mysql_dumper.Security.Literals.{
  string_escape, escape_from, escape_mysql_string, quote_mysql_string, quote_bytes_from,
  quote_mysql_bytes, render_hex_literal,
}
use dbgate_mysql_dumper.Restore.BinaryLiterals.{
  unescape, unescaped, skip_quoted, subarray, to_hex_literal,
}

-- The escaped text, byte by byte.
unfoldable pub escaped : Bytes → Bytes
escaped [] = []
escaped (c ∷ cs) = elim (string_escape c) [
  | some escape ↦ escape ++ escaped cs
  | none ↦ c ∷ escaped cs
]

escape_from-escaped :
    (v result plain : Bytes) → escape_from v result plain ≡ result ++ (plain ++ escaped v)
unfolding escape_from escaped
escape_from-escaped [] result plain = simp (append-nil plain)
escape_from-escaped (c ∷ cs) result plain = elim (Option-cases (string_escape c)) [
  | inl e ↦ ground (
    arith,
    escape_from-escaped cs result (plain ++ c ∷ []),
    append_assoc plain (c ∷ []) (escaped cs),
  )
  | inr (x, e) ↦ ground (
    arith,
    escape_from-escaped cs (result ++ plain ++ x) [],
    append_assoc (result ++ plain) x (escaped cs),
    append_assoc result plain (x ++ escaped cs),
  )
]

quote_bytes_from-escaped :
    (v parts plain : Bytes)
    → quote_bytes_from v parts plain ≡ parts ++ (plain ++ (escaped v ++ codes "'"))
unfolding quote_bytes_from escaped
quote_bytes_from-escaped [] parts plain = append_assoc parts plain (codes "'")
quote_bytes_from-escaped (c ∷ cs) parts plain = elim (Option-cases (string_escape c)) [
  | inl e ↦ ground (
    arith,
    quote_bytes_from-escaped cs parts (plain ++ c ∷ []),
    append_assoc plain (c ∷ []) (escaped cs ++ codes "'"),
  )
  | inr (x, e) ↦ ground (
    arith,
    quote_bytes_from-escaped cs (parts ++ plain ++ x) [],
    append_assoc (parts ++ plain) x (escaped cs ++ codes "'"),
    append_assoc parts plain (x ++ (escaped cs ++ codes "'")),
    append_assoc x (escaped cs) (codes "'"),
  )
]

pub quote_mysql_string-escaped : (v : Bytes) → quote_mysql_string v ≡ b'\'' ∷ escaped v ++ codes "'"
unfolding quote_mysql_string escape_mysql_string
quote_mysql_string-escaped v = rw (escape_from-escaped v [] []) refl

pub quote_mysql_bytes-escaped : (v : Bytes) → quote_mysql_bytes v ≡ b'\'' ∷ escaped v ++ codes "'"
unfolding quote_mysql_bytes
quote_mysql_bytes-escaped v = quote_bytes_from-escaped v (codes "'") []

-- On bytes the two quoting functions of the program give one text.
pub quote_mysql_bytes-quote_mysql_string : (v : Bytes) → quote_mysql_bytes v ≡ quote_mysql_string v
quote_mysql_bytes-quote_mysql_string v =
    quote_mysql_bytes-escaped v ∙ sym (quote_mysql_string-escaped v)

-- The byte behind the backslash.
unfoldable letter : ℕ → ℕ
letter c =
    if c == 0x00
    then b'0'
    else if c == 0x0a
    then b'n'
    else if c == 0x0d
    then b'r'
    else if c == 0x1a
    then b'Z'
    else c

-- An escape is a backslash and a byte that stands for the escaped one.
string_escape-letter :
    (c : ℕ) {e : Bytes}
    → string_escape c ≡ some e
    → (e ≡ b'\\' ∷ letter c ∷ []) × (unescaped (letter c) ≡ c)
unfolding string_escape unescaped letter
string_escape-letter c h = ground arith

-- A byte with no escape is neither a quote nor a backslash.
string_escape-plain :
    (c : ℕ)
    → string_escape c ≡ none
    → ((c == b'\\') ≡ false) × ((c == b'\'') ≡ false) × ((c == b'"') ≡ false)
unfolding string_escape
string_escape-plain c h = ground arith

escaped-some :
    (c : ℕ) (cs : Bytes) {e : Bytes}
    → string_escape c ≡ some e
    → escaped (c ∷ cs) ≡ b'\\' ∷ letter c ∷ escaped cs
unfolding escaped
escaped-some c cs h = ground (arith, string_escape-letter c h)

escaped-none : (c : ℕ) (cs : Bytes) → string_escape c ≡ none → escaped (c ∷ cs) ≡ c ∷ escaped cs
unfolding escaped
escaped-none c cs h = ground arith

unescape-plain :
    (c : ℕ) (t : Bytes)
    → (c == b'\\') ≡ false
    → (c == b'\'') ≡ false
    → unescape (c ∷ t) ≡ c ∷ unescape t
unfolding unescape
unescape-plain c [] h k = refl
unescape-plain c (d ∷ t) h k = ground arith

pub unescape-escaped : (v : Bytes) → unescape (escaped v) ≡ v
unfolding unescape escaped
unescape-escaped [] = refl
unescape-escaped (c ∷ cs) = elim (Option-cases (string_escape c)) [
  | inl e ↦
      let (h, k, _) = string_escape-plain c e in
      cc (escaped-none c cs e, unescape-plain c (escaped cs) h k, unescape-escaped cs)
  | inr (x, e) ↦
      let (_, k) = string_escape-letter c e in
      ground (arith, escaped-some c cs e, unescape-escaped cs)
]

-- A quote that does not stand before another one ends the literal.
skip_quoted-end :
    (quote : ℕ) (escapes : Bool) (rest : Bytes)
    → (quote == b'\\') ≡ false
    → starts_with (quote ∷ []) rest ≡ false
    → skip_quoted quote escapes (quote ∷ rest) ≡ 1
unfolding skip_quoted starts_with
skip_quoted-end quote escapes [] h k = refl
skip_quoted-end quote escapes (c ∷ rest) h k = ground arith

skip_quoted-plain :
    (quote c d : ℕ) (t rest : Bytes)
    → (c == b'\\') ≡ false
    → (c == quote) ≡ false
    → skip_quoted quote true (c ∷ t ++ d ∷ rest) ≡ suc (skip_quoted quote true (t ++ d ∷ rest))
unfolding skip_quoted
skip_quoted-plain quote c d [] rest h k = ground arith
skip_quoted-plain quote c d (x ∷ t) rest h k = ground arith

skip_quoted-backslash :
    (quote d : ℕ) (t : Bytes)
    → skip_quoted quote true (b'\\' ∷ d ∷ t) ≡ 2 + skip_quoted quote true t
unfolding skip_quoted
skip_quoted-backslash quote d [] = refl
skip_quoted-backslash quote d (c ∷ t) = refl

pub skip_quoted-escaped :
    (v rest : Bytes)
    → starts_with (b'\'' ∷ []) rest ≡ false
    → skip_quoted b'\'' true (escaped v ++ b'\'' ∷ rest) ≡ suc (length (escaped v))
unfolding escaped
skip_quoted-escaped [] rest h = skip_quoted-end b'\'' true rest refl h
skip_quoted-escaped (c ∷ cs) rest h = elim (Option-cases (string_escape c)) [
  | inl e ↦
      let (k, l, _) = string_escape-plain c e in
      ground (
        arith,
        escaped-none c cs e,
        skip_quoted-plain b'\'' c b'\'' (escaped cs) rest k l,
        skip_quoted-escaped cs rest h,
      )
  | inr (x, e) ↦ ground (
    arith,
    escaped-some c cs e,
    skip_quoted-backslash b'\'' (letter c) (escaped cs ++ b'\'' ∷ rest),
    skip_quoted-escaped cs rest h,
  )
]

pub take-append {ℓ} : {A : Type ℓ} (xs ys : List A) → take (length xs) (xs ++ ys) ≡ xs
take-append [] ys = refl
take-append (x ∷ xs) ys = ap (◌∷◌ x) (take-append xs ys)

pub drop-length {ℓ} :
    {A : Type ℓ} (xs ys : List A) (y : A) → drop (suc (length xs)) (xs ++ y ∷ ys) ≡ ys
drop-length [] ys y = refl
drop-length (x ∷ xs) ys y = drop-length xs ys y

-- The scan at the quote, the text between the quotes, and the text behind them.
abbrev pub Reads : Bytes → Bytes → Bytes → Type 0
Reads text v rest =
    let size = skip_quoted b'\'' true (drop 1 text) in
    (unescape (take (size - 1) (drop 1 text)) ≡ v) × (drop (suc size) text ≡ rest)

escaped-Reads :
    (v rest : Bytes)
    → starts_with (b'\'' ∷ []) rest ≡ false
    → Reads (b'\'' ∷ escaped v ++ b'\'' ∷ rest) v rest
escaped-Reads v rest h =
    let n : ℕ = length (escaped v) in
    let minus : suc n - 1 ≡ n = omega arith in
    rw (skip_quoted-escaped v rest h) (
      rw minus (
        ap unescape (take-append (escaped v) (b'\'' ∷ rest)) ∙ unescape-escaped v,
        drop-length (escaped v) rest b'\'',
      ))

-- A quoted string before any text that does not begin with a quote: the scan of the restore ends at
-- its closing quote, the text between the quotes unescapes to the string, and the rest is left.
pub quote_mysql_string-unescape :
    (v rest : Bytes)
    → starts_with (b'\'' ∷ []) rest ≡ false
    → let text = quote_mysql_string v ++ rest in
      let size = skip_quoted b'\'' true (drop 1 text) in
      (unescape (subarray text 1 size) ≡ v) × (drop (suc size) text ≡ rest)
unfolding subarray
quote_mysql_string-unescape v rest h =
    let text : quote_mysql_string v ++ rest ≡ b'\'' ∷ escaped v ++ b'\'' ∷ rest =
      rw (quote_mysql_string-escaped v) (append_assoc (b'\'' ∷ escaped v) (codes "'") rest) in
    subst (λ t. Reads t v rest) (sym text) (escaped-Reads v rest h)

-- The restore's hexadecimal literal of some bytes is the dump's.
pub to_hex_literal-render_hex_literal : (v : Bytes) → to_hex_literal v ≡ render_hex_literal v
unfolding to_hex_literal render_hex_literal
to_hex_literal-render_hex_literal [] = refl
to_hex_literal-render_hex_literal (c ∷ cs) = ground arith
