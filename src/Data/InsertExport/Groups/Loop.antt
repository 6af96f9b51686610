-- ===== src/Data/InsertExport/Groups/Loop.antt =====
-- src/data/insertExport.ts: the loop over the rows, and its end.
use dbgate_mysql_dumper.Base.{suc}
use dbgate_mysql_dumper.Base.{
  [], ◌∷◌, ◌++◌, List, ◌≡◌, ◌≢◌, Bytes, length, join, refl, sym, ap, ◌∙◌, subst, arith, none, inl,
  inr, Option-cases, append_assoc, append-nil, codes,
}
use dbgate_mysql_dumper.Data.ChunkBuilder.{Part, text, SqlChunkBuilder, append, build}
use dbgate_mysql_dumper.Data.InsertExport.{
  Row, Ending, exhausted, interrupted, Writer, Settings, Export, Outcome, done, thrown, and_then,
  flush_statement, build_tuple, make_room, add_tuple, export_row, export_rows, new_export,
}
use dbgate_mysql_dumper.Data.InsertExport.Groups.{tuple_of, tuples, AllFit, lines, chunks, Written}
use dbgate_mysql_dumper.Data.InsertExport.Groups.Flush.{closing, Closed, flush_statement-Closed}
use dbgate_mysql_dumper.Data.InsertExport.Groups.Rows.{Exported, export_row-Exported, join-closing}

-- The outcome of the loop. When it ends, the writer has taken the lines of groups of rows that, put
-- together, are all rows in order. When an error is thrown, it has taken those of the first rows.
abbrev pub Exports : Settings → List Bytes → Outcome → Type 0
Exports settings all (done x) =
    (groups : List (List Bytes)) × (chunks x.written ≡ lines settings groups)
    × (join groups ≡ all)
    × AllFit settings groups
    × (x.statements_written ≡ length groups)
    × (x.rows_exported ≡ length all)
Exports settings all (thrown fault x) =
    (groups : List (List Bytes)) × (rest : List Bytes) × (chunks x.written ≡ lines settings groups)
    × (join groups ++ rest ≡ all)
    × AllFit settings groups

flush_statement-Exports :
    (settings : Settings) (groups : List (List Bytes)) (group : List Bytes) (outcome : Outcome)
    → Closed settings groups group outcome
    → Exports settings (join groups ++ group) outcome
flush_statement-Exports settings groups group (thrown fault x) (taken, fits) =
    (groups, group, taken, refl, fits)
flush_statement-Exports settings groups group (done x) h =
    let all = join-closing groups group in
    (
      closing groups group,
      h.taken,
      sym (append-nil (join (closing groups group))) ∙ all,
      h.fits,
      h.statements,
      h.exported ∙ ap length all,
    )

-- The rows behind the first, when the loop goes on with them as it should.
followed :
    (settings : Settings) (writer : Writer) (ending : Ending) (now : List Bytes) (row : Row)
    (rows : List Row) (outcome : Outcome)
    → Exported settings (now ++ tuple_of settings row ∷ []) outcome
    → ((gs : List (List Bytes)) (g : List Bytes) (y : Export)
        → Written settings gs g y
        → Exports settings
            ((join gs ++ g) ++ tuples settings rows)
            (export_rows settings writer ending y rows))
    → Exports settings
        (now ++ tuple_of settings row ∷ tuples settings rows)
        (and_then outcome (λ x'. export_rows settings writer ending x' rows))
followed settings writer ending now row rows (thrown fault y) (gs, rest, (taken, fits), e) k = (
  gs,
  rest ++ tuples settings rows,
  taken,
  sym (append_assoc (join gs) rest (tuples settings rows))
      ∙ (ap (λ a. a ++ tuples settings rows) e
          ∙ append_assoc now (tuple_of settings row ∷ []) (tuples settings rows)),
  fits,
)
followed settings writer ending now row rows (done y) (gs, g, w, e) k =
    subst (λ all. Exports settings all (export_rows settings writer ending y rows))
      (ap (λ a. a ++ tuples settings rows) e
        ∙ append_assoc now (tuple_of settings row ∷ []) (tuples settings rows))
      (k gs g y w)

export_rows-Exports :
    (settings : Settings) (writer : Writer) (ending : Ending) (groups : List (List Bytes))
    (group : List Bytes) (x : Export) (rows : List Row)
    → Written settings groups group x
    → Exports settings
        ((join groups ++ group) ++ tuples settings rows)
        (export_rows settings writer ending x rows)
unfolding export_rows
export_rows-Exports settings writer exhausted groups group x [] h =
    subst (λ all. Exports settings all (flush_statement writer x))
      (sym (append-nil (join groups ++ group)))
      (flush_statement-Exports settings groups group (flush_statement writer x)
        (flush_statement-Closed settings writer groups group x h))
export_rows-Exports settings writer (interrupted fault) groups group x [] h =
    (groups, group, h.taken, sym (append-nil (join groups ++ group)), h.fits)
export_rows-Exports settings writer ending groups group x (row ∷ rows) h =
    followed settings writer ending (join groups ++ group) row rows
      (export_row settings writer x row) (export_row-Exported settings writer groups group x row h)
      (λ gs g y w. export_rows-Exports settings writer ending gs g y rows w)

-- Whatever the rows, the writer, the ending and the limits, the loop writes whole `INSERT` statements
-- whose rows are the rows given, each once and in order, or, when an error is thrown, the first of them.
-- A statement of several rows keeps the row limit and, its line break left out, the size limit.
pub export_rows-lines :
    (settings : Settings) (writer : Writer) (ending : Ending) (rows : List Row)
    → Exports settings (tuples settings rows) (export_rows settings writer ending new_export rows)
export_rows-lines settings writer ending rows =
    export_rows-Exports settings writer ending [] [] new_export rows (record {
      opened = refl;
      rows = refl;
      exported = refl;
      statements = refl;
      taken = refl;
      fits = tt;
    })

abbrev IsDone : Outcome → Type 0
IsDone (done x) = Unit
IsDone (thrown fault x) = ⊥

-- Every row can be rendered.
abbrev pub AllRender : Settings → List Row → Type 0
AllRender settings [] = Unit
AllRender settings (row ∷ rows) =
    (build_tuple row settings.columns settings.hex_blob ≢ none) × AllRender settings rows

flush_statement-IsDone :
    (writer : Writer) (x : Export)
    → ((taken : List Part) (chunk : Part) → writer taken chunk ≡ none)
    → IsDone (flush_statement writer x)
unfolding flush_statement
flush_statement-IsDone writer x h = elim (Option-cases x.statement) [
  | inl e ↦ ground arith
  | inr (b, e) ↦ ground (arith, h x.written (build (append b (text (codes ";\n")))))
]

make_room-IsDone :
    (settings : Settings) (writer : Writer) (x : Export) (tuple : SqlChunkBuilder)
    → ((taken : List Part) (chunk : Part) → writer taken chunk ≡ none)
    → IsDone (make_room settings writer x tuple)
unfolding make_room
make_room-IsDone settings writer x tuple h = elim (Option-cases x.statement) [
  | inl e ↦ ground arith
  | inr (b, e) ↦ ground (arith, flush_statement-IsDone writer x h)
]

and_then-IsDone :
    (outcome : Outcome) (f : Export → Outcome)
    → IsDone outcome
    → ((x : Export) → IsDone (f x))
    → IsDone (and_then outcome f)
and_then-IsDone (done x) f h k = k x
and_then-IsDone (thrown fault x) f h k = absurd h

export_row-IsDone :
    (settings : Settings) (writer : Writer) (x : Export) (row : Row)
    → ((taken : List Part) (chunk : Part) → writer taken chunk ≡ none)
    → build_tuple row settings.columns settings.hex_blob ≢ none
    → IsDone (export_row settings writer x row)
unfolding export_row
export_row-IsDone settings writer x row h k =
    elim (Option-cases (build_tuple row settings.columns settings.hex_blob)) [
      | inl e ↦ absurd (k e)
      | inr (tuple, e) ↦ ground (
        arith,
        and_then-IsDone (make_room settings writer x tuple)
            (λ x'. done (add_tuple settings x' tuple)) (make_room-IsDone settings writer x tuple h)
            (λ x'. tt),
      )
    ]

-- With no error of the writer, of a row or of the stream the loop ends with none.
export_rows-IsDone :
    (settings : Settings) (writer : Writer) (x : Export) (rows : List Row)
    → ((taken : List Part) (chunk : Part) → writer taken chunk ≡ none)
    → AllRender settings rows
    → IsDone (export_rows settings writer exhausted x rows)
unfolding export_rows
export_rows-IsDone settings writer x [] h k = flush_statement-IsDone writer x h
export_rows-IsDone settings writer x (row ∷ rows) h (k, ks) =
    and_then-IsDone (export_row settings writer x row)
      (λ x'. export_rows settings writer exhausted x' rows)
      (export_row-IsDone settings writer x row h k)
      (λ x'. export_rows-IsDone settings writer x' rows h ks)

length-tuples :
    (settings : Settings) (rows : List Row) → length (tuples settings rows) ≡ length rows
length-tuples settings [] = refl
length-tuples settings (row ∷ rows) = ap suc (length-tuples settings rows)

-- What a loop that wrote all of the rows ends in.
abbrev pub Writes : Settings → List Row → Outcome → Type 0
Writes settings rows outcome =
    (x : Export) × (groups : List (List Bytes)) × (outcome ≡ done x)
    × (chunks x.written ≡ lines settings groups)
    × (join groups ≡ tuples settings rows)
    × AllFit settings groups
    × (x.statements_written ≡ length groups)
    × (x.rows_exported ≡ length rows)

done-Writes :
    (settings : Settings) (rows : List Row) (outcome : Outcome)
    → IsDone outcome
    → Exports settings (tuples settings rows) outcome
    → Writes settings rows outcome
done-Writes settings rows (done x) h (groups, taken, all, fits, statements, exported) =
    (x, groups, refl, taken, all, fits, statements, exported ∙ length-tuples settings rows)
done-Writes settings rows (thrown fault x) h exports = absurd h

-- When the writer takes every chunk, every row can be rendered and the stream is not interrupted, the
-- loop ends without an error, the writer has taken whole statements whose rows are all the rows, each
-- once and in order, within the limits, and the counts are those of the rows and of the statements.
pub export_rows-completes :
    (settings : Settings) (writer : Writer) (rows : List Row)
    → ((taken : List Part) (chunk : Part) → writer taken chunk ≡ none)
    → AllRender settings rows
    → Writes settings rows (export_rows settings writer exhausted new_export rows)
export_rows-completes settings writer rows h k =
    done-Writes settings rows (export_rows settings writer exhausted new_export rows)
      (export_rows-IsDone settings writer new_export rows h k)
      (export_rows-lines settings writer exhausted rows)
