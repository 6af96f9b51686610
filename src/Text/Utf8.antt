-- ===== src/Text/Utf8.antt =====
-- `isUtf8(buffer)` of node:buffer and `buffer.toString('utf8')`.
use dbgate_mysql_dumper.Base.{
  ℕ, zero, suc, Bool, ◌&&◌, ◌||◌, [], ◌∷◌, ◌++◌, leb, ltb, ◌==◌, if◌then◌else◌, Bytes,
}

-- What is still wanted of the character being read: so many bytes, the first of them in a range.
pub record Wanted : Type 0 where
  pub count : ℕ
  pub low : ℕ
  pub high : ℕ

abbrev pub ready : Wanted
ready = record { count = 0; low = 0x80; high = 0xbf }

abbrev wanted : ℕ → ℕ → ℕ → Wanted
wanted n lo hi = record { count = n; low = lo; high = hi }

abbrev pub within : ℕ → ℕ → ℕ → Bool
within lo hi c = leb lo c && leb c hi

-- A byte that starts no character gets the empty range, which no byte meets.
unfoldable pub lead : ℕ → Wanted
lead c =
    if ltb c 0x80
    then ready
    else if within 0xc2 0xdf c
    then wanted 1 0x80 0xbf
    else if c == 0xe0
    then wanted 2 0xa0 0xbf
    else if c == 0xed
    then wanted 2 0x80 0x9f
    else if within 0xe1 0xef c
    then wanted 2 0x80 0xbf
    else if c == 0xf0
    then wanted 3 0x90 0xbf
    else if within 0xf1 0xf3 c
    then wanted 3 0x80 0xbf
    else if c == 0xf4
    then wanted 3 0x80 0x8f
    else wanted 1 1 0

unfoldable pub next_in : ℕ → ℕ → Wanted
unfolding lead
next_in zero c = lead c
next_in (suc n) c = wanted n 0x80 0xbf

unfoldable pub fits : Wanted → ℕ → Bool
fits w c = w.count == 0 || within w.low w.high c

unfoldable pub utf8_from : Wanted → Bytes → Bool
unfolding fits next_in
utf8_from w [] = w.count == 0
utf8_from w (c ∷ cs) = fits w c && utf8_from (next_in w.count c) cs

unfoldable pub is_utf8 : Bytes → Bool
unfolding utf8_from
is_utf8 = utf8_from ready

-- U+FFFD in UTF-8
abbrev replacement : Bytes
replacement = 0xef ∷ 0xbf ∷ 0xbd ∷ []

-- `held` is the part of a character that was read and fits so far.
record Decoder : Type 0 where
  wanted_now : Wanted
  held : Bytes

-- A byte that begins a character: what is put out, and the decoder after it.
begin : ℕ → Bytes × Decoder
unfolding lead
begin c =
    if (lead c).count == 0
    then (c ∷ [], record { wanted_now = ready; held = [] })
    else if ltb (lead c).high (lead c).low
    then (replacement, record { wanted_now = ready; held = [] })
    else ([], record { wanted_now = lead c; held = c ∷ [] })

decode_byte : Decoder → ℕ → Bytes × Decoder
unfolding begin next_in
decode_byte d c =
    if d.wanted_now.count == 0
    then begin c
    else if within d.wanted_now.low d.wanted_now.high c
    then if d.wanted_now.count == 1
      then (d.held ++ c ∷ [], record { wanted_now = ready; held = [] })
      else ([], record { wanted_now = next_in d.wanted_now.count c; held = d.held ++ c ∷ [] })
    else let (out, d') = begin c in (replacement ++ out, d')

decode_from : Decoder → Bytes → Bytes
unfolding decode_byte
decode_from d [] = if d.wanted_now.count == 0 then [] else replacement
decode_from d (c ∷ cs) = let (out, d') = decode_byte d c in out ++ decode_from d' cs

-- `buffer.toString('utf8')`, put back into UTF-8: each maximal part that is no character is U+FFFD.
unfoldable pub decoded : Bytes → Bytes
unfolding decode_from
decoded = decode_from (record { wanted_now = ready; held = [] })
