-- ===== src/Data/InsertExport/Groups/Rows.antt =====
-- src/data/insertExport.ts: one row of the stream.
use dbgate_mysql_dumper.Data.ValueRenderer.{render_column_value}
use dbgate_mysql_dumper.Base.{
  ◌>>=◌, [], ◌∷◌, ◌++◌, List, ◌≡◌, Bytes, length, join, refl, sym, ap, ◌∙◌, subst, arith, Option,
  none, some, inl, inr, Option-cases, Bool, true, false, append_assoc, append-nil, length-append,
  join-append, if◌then◌else◌, codes,
}
use dbgate_mysql_dumper.Data.Columns.{MysqlColumn}
use dbgate_mysql_dumper.Data.ChunkBuilder.{text, SqlChunkBuilder, new_builder, append, concat}
use dbgate_mysql_dumper.Data.ChunkBuilder.Content.{IsSound, append-IsSound}
use dbgate_mysql_dumper.Data.InsertExport.{
  Row, failure, Writer, Settings, Export, Outcome, done, thrown, and_then, flush_statement,
  append_columns, build_tuple, must_flush, make_room, add_tuple, export_row,
}
use dbgate_mysql_dumper.Data.InsertExport.Groups.{
  listed, tuple_of, Fits, Opened, Written, listed-append,
}
use dbgate_mysql_dumper.Data.InsertExport.Groups.Flush.{
  Stopped, closing, Closed, flush_statement-Closed, add_tuple-Written, new_builder-IsSound,
}

append_columns-IsSound :
    (tuple : SqlChunkBuilder) (row : Row) (columns : List MysqlColumn) (hex_blob : Bool)
    {b : SqlChunkBuilder}
    → IsSound tuple
    → append_columns tuple row columns hex_blob ≡ some b
    → IsSound b
unfolding append_columns
append_columns-IsSound tuple row [] hex_blob h e = ground arith
append_columns-IsSound tuple row (column ∷ columns) hex_blob {b} h e =
    let comma = append tuple (text (codes ",")) in
    elim (Option-cases (render_column_value (row column.column_name) column.data_type hex_blob)) [
      | inl n ↦ ground arith
      | inr (v, s) ↦
          append_columns-IsSound (append comma v) row columns hex_blob
            (append-IsSound comma v (append-IsSound tuple (text (codes ",")) h)) (ground arith)
    ]

closed-IsSound :
    (o : Option SqlChunkBuilder) {b : SqlChunkBuilder}
    → ((a : SqlChunkBuilder) → o ≡ some a → IsSound a)
    → (o >>= λ a. some (append a (text (codes ")")))) ≡ some b
    → IsSound b
closed-IsSound none h e = cc
closed-IsSound (some a) h e = ground (arith, append-IsSound a (text (codes ")")) (h a refl))

build_tuple-IsSound :
    (row : Row) (columns : List MysqlColumn) (hex_blob : Bool) {b : SqlChunkBuilder}
    → build_tuple row columns hex_blob ≡ some b
    → IsSound b
unfolding build_tuple
build_tuple-IsSound row [] hex_blob e =
    let paren = append new_builder (text (codes "(")) in
    ground (
      arith,
      append-IsSound paren (text (codes ")"))
          (append-IsSound new_builder (text (codes "(")) new_builder-IsSound),
    )
build_tuple-IsSound row (column ∷ columns) hex_blob {b} e =
    let paren = append new_builder (text (codes "(")) in
    let sound = append-IsSound new_builder (text (codes "(")) new_builder-IsSound in
    elim (Option-cases (render_column_value (row column.column_name) column.data_type hex_blob)) [
      | inl n ↦ ground arith
      | inr (v, s) ↦
          closed-IsSound (append_columns (append paren v) row columns hex_blob)
            (λ a q.
              append_columns-IsSound (append paren v) row columns hex_blob
                (append-IsSound paren v sound) q)
            (ground arith)
    ]

kept-Fits :
    (settings : Settings) (group : List Bytes) (x : Export) (b tuple : SqlChunkBuilder)
    → IsSound tuple
    → Opened settings (some b) group
    → x.statement_rows ≡ length group
    → must_flush settings x b tuple ≡ false
    → Fits settings (group ++ concat tuple.parts ∷ [])
unfolding must_flush
kept-Fits settings group x b tuple k h r m =
    let t = concat tuple.parts in
    let prefix = settings.statement_prefix in
    let (sound, content, n, _) = h in
    ground (
      arith,
      sound,
      listed-append group t n,
      ap length content,
      length-append (prefix ++ listed (group ++ t ∷ [])) (codes ";"),
      length-append prefix (listed (group ++ t ∷ [])),
      length-append prefix (listed group),
      length-append (listed group) (codes "," ++ t),
      length-append group (t ∷ []),
    )

-- Room is made for a tuple: no row is lost, and the tuple may join the group that is open.
abbrev Room : Settings → List (List Bytes) → List Bytes → Bytes → Outcome → Type 0
Room settings groups group t (thrown fault x) = Stopped settings groups x
Room settings groups group t (done x) =
    (groups' : List (List Bytes)) × (group' : List Bytes) × Written settings groups' group' x
    × Fits settings (group' ++ t ∷ [])
    × (join groups' ++ group' ≡ join groups ++ group)

pub join-closing :
    (groups : List (List Bytes)) (group : List Bytes)
    → join (closing groups group) ++ [] ≡ join groups ++ group
join-closing groups [] = refl
join-closing groups (t ∷ ts) =
    append-nil (join (groups ++ (t ∷ ts) ∷ []))
    ∙ (join-append groups ((t ∷ ts) ∷ []) ∙ ap (◌++◌ (join groups)) (append-nil (t ∷ ts)))

Closed-Room :
    (settings : Settings) (groups : List (List Bytes)) (group : List Bytes) (t : Bytes)
    (outcome : Outcome)
    → Closed settings groups group outcome
    → Room settings groups group t outcome
Closed-Room settings groups group t (thrown fault x) h = h
Closed-Room settings groups group t (done x) h =
    (closing groups group, [], h, inl refl, join-closing groups group)

make_room-Room :
    (settings : Settings) (writer : Writer) (groups : List (List Bytes)) (group : List Bytes)
    (x : Export) (tuple : SqlChunkBuilder)
    → IsSound tuple
    → Written settings groups group x
    → Room settings groups group (concat tuple.parts) (make_room settings writer x tuple)
unfolding make_room
make_room-Room settings writer groups group x tuple k h = go x.statement refl
  where
    t : Bytes
    t = concat tuple.parts

    kept : Fits settings (group ++ t ∷ []) → Room settings groups group t (done x)
    kept f = (groups, group, h, f, refl)

    split :
        (b : SqlChunkBuilder) (full : Bool)
        → (full ≡ false → Fits settings (group ++ t ∷ []))
        → Room settings groups group t (if full then flush_statement writer x else done x)
    split b true f =
        Closed-Room settings groups group t (flush_statement writer x)
          (flush_statement-Closed settings writer groups group x h)
    split b false f = kept (f refl)

    go :
        (o : Option SqlChunkBuilder)
        → x.statement ≡ o
        → Room settings groups group t (elim o [
          | none ↦ done x
          | some b ↦ if must_flush settings x b tuple then flush_statement writer x else done x
        ])
    go none e =
        let empty : group ≡ [] = subst (λ o. Opened settings o group) e h.opened in
        kept (ground arith)
    go (some b) e = split b (must_flush settings x b tuple) (
        kept-Fits settings group x b tuple k (subst (λ o. Opened settings o group) e h.opened)
          h.rows)

-- What a part of the loop leaves: every tuple so far and those given, in order.
abbrev pub Exported : Settings → List Bytes → Outcome → Type 0
Exported settings all (thrown fault x) =
    (groups : List (List Bytes)) × (rest : List Bytes) × Stopped settings groups x
    × (join groups ++ rest ≡ all)
Exported settings all (done x) =
    (groups : List (List Bytes)) × (group : List Bytes) × Written settings groups group x
    × (join groups ++ group ≡ all)

pub export_row-Exported :
    (settings : Settings) (writer : Writer) (groups : List (List Bytes)) (group : List Bytes)
    (x : Export) (row : Row)
    → Written settings groups group x
    → Exported settings
        ((join groups ++ group) ++ tuple_of settings row ∷ [])
        (export_row settings writer x row)
unfolding export_row
export_row-Exported settings writer groups group x row h =
    go (build_tuple row settings.columns settings.hex_blob) refl
  where
    added :
        (tuple : SqlChunkBuilder) (outcome : Outcome)
        → IsSound tuple
        → Room settings groups group (concat tuple.parts) outcome
        → Exported settings
            ((join groups ++ group) ++ concat tuple.parts ∷ [])
            (and_then outcome (λ x'. done (add_tuple settings x' tuple)))
    added tuple (thrown fault y) k r = (
      groups,
      group ++ concat tuple.parts ∷ [],
      r,
      sym (append_assoc (join groups) group (concat tuple.parts ∷ [])),
    )
    added tuple (done y) k (gs, g, w, f, e) = (
      gs,
      g ++ concat tuple.parts ∷ [],
      add_tuple-Written settings gs g y tuple k w f,
      sym (append_assoc (join gs) g (concat tuple.parts ∷ []))
          ∙ ap (λ a. a ++ concat tuple.parts ∷ []) e,
    )

    go :
        (o : Option SqlChunkBuilder)
        → build_tuple row settings.columns settings.hex_blob ≡ o
        → Exported settings
            ((join groups ++ group) ++ elim o [ none ↦ [] | some tuple ↦ concat tuple.parts ] ∷ [])
            (elim o [
              | none ↦ thrown failure x
              | some tuple ↦
                  and_then
                    (make_room settings writer x tuple)
                    (λ x'. done (add_tuple settings x' tuple))
            ])
    go none e = (
      groups,
      group ++ [] ∷ [],
      (h.taken, h.fits),
      sym (append_assoc (join groups) group ([] ∷ [])),
    )
    go (some tuple) e =
        let k = build_tuple-IsSound row settings.columns settings.hex_blob e in
        added tuple (make_room settings writer x tuple) k
          (make_room-Room settings writer groups group x tuple k h)
