-- ===== src/Data/InsertExport/Groups.antt =====
-- src/data/insertExport.ts: every row stands once and in order in the statements that are written, and
-- a statement keeps the limits.
pub mod Flush
pub mod Rows
pub mod Loop
use dbgate_mysql_dumper.Base.{
  ◌-◌, ◌≤◌, [], ◌∷◌, ◌++◌, List, ◌≡◌, ◌⊎◌, Bytes, length, join, refl, sym, ap, ◌∙◌, arith, Option,
  none, some, true, false, append_assoc, append-nil, codes,
}
use dbgate_mysql_dumper.Data.ChunkBuilder.{Part, SqlChunkBuilder, part_bytes, concat}
use dbgate_mysql_dumper.Data.ChunkBuilder.Content.{IsSound}
use dbgate_mysql_dumper.Data.InsertExport.{Row, Settings, Export, build_tuple, rows_full}

-- The tuples of a statement, with commas between them.
abbrev pub behind : List Bytes → Bytes
behind [] = []
behind (t ∷ ts) = codes "," ++ (t ++ behind ts)

abbrev pub listed : List Bytes → Bytes
listed [] = []
listed (t ∷ ts) = t ++ behind ts

-- The statement of a group of rows, its line break left out.
abbrev pub statement_of : Bytes → List Bytes → Bytes
statement_of prefix group = prefix ++ listed group ++ codes ";"

-- The tuples of the rows; a row that is not rendered has the empty one.
abbrev pub tuple_of : Settings → Row → Bytes
tuple_of settings row = elim (build_tuple row settings.columns settings.hex_blob) [
  | none ↦ []
  | some tuple ↦ concat tuple.parts
]

abbrev pub tuples : Settings → List Row → List Bytes
tuples settings [] = []
tuples settings (row ∷ rows) = tuple_of settings row ∷ tuples settings rows

-- A group of rows may be one statement: it is one row, or it keeps every limit.
abbrev pub Fits : Settings → List Bytes → Type 0
Fits settings group =
    (length group ≡ 1)
    ⊎ ((1 ≤ length group)
        × (settings.extended_insert ≡ true)
        × (rows_full settings.max_rows_per_statement (length group - 1) ≡ false)
        × (length (statement_of settings.statement_prefix group) ≤ settings.max_statement_bytes))

abbrev pub AllFit : Settings → List (List Bytes) → Type 0
AllFit settings [] = Unit
AllFit settings (group ∷ groups) = Fits settings group × AllFit settings groups

-- What the writer has taken: a line for each group.
abbrev pub lines : Settings → List (List Bytes) → List Bytes
lines settings [] = []
lines settings (group ∷ groups) =
    (statement_of settings.statement_prefix group ++ codes "\n") ∷ lines settings groups

abbrev pub chunks : List Part → List Bytes
chunks [] = []
chunks (part ∷ parts) = part_bytes part ∷ chunks parts

behind-append :
    (ts : List Bytes) (t : Bytes) → behind (ts ++ t ∷ []) ≡ behind ts ++ (codes "," ++ t)
behind-append [] t = ap (◌++◌ (codes ",")) (append-nil t)
behind-append (u ∷ ts) t =
    ap (λ r. codes "," ++ (u ++ r)) (behind-append ts t)
    ∙ ap (◌++◌ (codes ",")) (sym (append_assoc u (behind ts) (codes "," ++ t)))

pub listed-append :
    (ts : List Bytes) (t : Bytes)
    → 1 ≤ length ts
    → listed (ts ++ t ∷ []) ≡ listed ts ++ (codes "," ++ t)
listed-append [] t h = absurd (omega arith)
listed-append (u ∷ ts) t h =
    ap (◌++◌ u) (behind-append ts t) ∙ sym (append_assoc u (behind ts) (codes "," ++ t))

pub lines-append :
    (s : Settings) (gs : List (List Bytes)) (g : List Bytes)
    → lines s (gs ++ g ∷ []) ≡ lines s gs ++ lines s (g ∷ [])
lines-append s [] g = refl
lines-append s (h ∷ gs) g =
    ap (◌∷◌ (statement_of s.statement_prefix h ++ codes "\n")) (lines-append s gs g)

pub chunks-append :
    (ps : List Part) (p : Part) → chunks (ps ++ p ∷ []) ≡ chunks ps ++ part_bytes p ∷ []
chunks-append [] p = refl
chunks-append (q ∷ ps) p = ap (◌∷◌ (part_bytes q)) (chunks-append ps p)

pub AllFit-append :
    (s : Settings) (gs : List (List Bytes)) (g : List Bytes)
    → AllFit s gs
    → Fits s g
    → AllFit s (gs ++ g ∷ [])
AllFit-append s [] g h k = (k, tt)
AllFit-append s (x ∷ gs) g (h, hs) k = (h, AllFit-append s gs g hs k)

-- The rows of the statement that is open: `group`.
abbrev pub Opened : Settings → Option SqlChunkBuilder → List Bytes → Type 0
Opened settings none group = group ≡ []
Opened settings (some b) group =
    IsSound b
    × (concat b.parts ≡ settings.statement_prefix ++ listed group)
    × (1 ≤ length group)
    × Fits settings group

-- The state, when `groups` are written and `group` is open.
pub record Written (settings : Settings) (groups : List (List Bytes)) (group : List Bytes)
    (x : Export) : Type 0 where
  pub opened : Opened settings x.statement group
  pub rows : x.statement_rows ≡ length group
  pub exported : x.rows_exported ≡ length (join groups ++ group)
  pub statements : x.statements_written ≡ length groups
  pub taken : chunks x.written ≡ lines settings groups
  pub fits : AllFit settings groups
