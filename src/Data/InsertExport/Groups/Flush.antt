-- ===== src/Data/InsertExport/Groups/Flush.antt =====
-- src/data/insertExport.ts: a flush closes the group that is open, and a tuple joins it.

use dbgate_mysql_dumper.Base.{
  ◌≤◌, [], ◌∷◌, ◌++◌, List, ◌≡◌, Bytes, length, join, refl, sym, ap, ◌∙◌, subst, arith, some, inl,
  inr, Option-cases, append_assoc, append-nil, length-append, join-append, codes,
}
use dbgate_mysql_dumper.Data.ChunkBuilder.{
  text, SqlChunkBuilder, new_builder, append, append_builder, build, part_bytes, concat,
}
use dbgate_mysql_dumper.Data.ChunkBuilder.Content.{
  IsSound, append-IsSound, append_builder-IsSound, concat-append_builder, concat-append_part,
  build-concat,
}
use dbgate_mysql_dumper.Data.InsertExport.{
  Writer, Settings, Export, Outcome, done, thrown, flush_statement, opened_statement, add_tuple,
}
use dbgate_mysql_dumper.Data.InsertExport.Groups.{
  listed, statement_of, Fits, AllFit, lines, chunks, Opened, Written, listed-append, lines-append,
  chunks-append, AllFit-append,
}

-- What is left when an error is thrown: the groups that were written, whole.
abbrev pub Stopped : Settings → List (List Bytes) → Export → Type 0
Stopped settings groups x = (chunks x.written ≡ lines settings groups) × AllFit settings groups

-- The group is closed as one statement, if it holds a row.
abbrev pub closing : List (List Bytes) → List Bytes → List (List Bytes)
closing groups [] = groups
closing groups (t ∷ ts) = groups ++ (t ∷ ts) ∷ []

-- A flush that succeeds closes the group that is open.
abbrev pub Closed : Settings → List (List Bytes) → List Bytes → Outcome → Type 0
Closed settings groups group (thrown fault x) = Stopped settings groups x
Closed settings groups group (done x) = Written settings (closing groups group) [] x

-- The chunk that a flush writes.
built :
    (prefix : Bytes) (group : List Bytes) (b : SqlChunkBuilder)
    → IsSound b
    → concat b.parts ≡ prefix ++ listed group
    → part_bytes (build (append b (text (codes ";\n")))) ≡ statement_of prefix group ++ codes "\n"
built prefix group b h e =
    build-concat (append b (text (codes ";\n"))) (append-IsSound b (text (codes ";\n")) h)
    ∙ (concat-append_part b (text (codes ";\n"))
        ∙ (ap (λ t. t ++ codes ";\n") e
            ∙ sym (append_assoc (prefix ++ listed group) (codes ";") (codes "\n"))))

pub flush_statement-Closed :
    (settings : Settings) (writer : Writer) (groups : List (List Bytes)) (group : List Bytes)
    (x : Export)
    → Written settings groups group x
    → Closed settings groups group (flush_statement writer x)
unfolding flush_statement
flush_statement-Closed settings writer groups [] x h = ground arith
flush_statement-Closed settings writer groups (t ∷ ts) x h = elim (Option-cases x.statement) [
  | inl e ↦ ground arith
  | inr (b, e) ↦
      let group = t ∷ ts in
      let prefix = settings.statement_prefix in
      let (sound, content, _, fit) = subst (λ o. Opened settings o group) e h.opened in
      let closed = build (append b (text (codes ";\n"))) in
      let exported : x.rows_exported ≡ length (join (groups ++ group ∷ []) ++ []) =
        h.exported
        ∙ ap length (
            ap (◌++◌ (join groups)) (sym (append-nil group))
            ∙ (sym (join-append groups (group ∷ []))
                ∙ sym (append-nil (join (groups ++ group ∷ []))))) in
      ground (
        arith,
        exported,
        length-append groups (group ∷ []),
        built prefix group b sound content,
        chunks-append x.written closed,
        lines-append settings groups group,
        AllFit-append settings groups group h.fits fit,
      )
]

pub new_builder-IsSound : IsSound new_builder
new_builder-IsSound = record { counted = refl; flagged = refl }

begun :
    (prefix : Bytes) (tuple : SqlChunkBuilder)
    → IsSound tuple
    → let b = append_builder (append new_builder (text prefix)) tuple in
      IsSound b × (concat b.parts ≡ prefix ++ listed (concat tuple.parts ∷ []))
begun prefix tuple k =
    let first = append new_builder (text prefix) in
    let sound = append-IsSound new_builder (text prefix) new_builder-IsSound in
    (
      append_builder-IsSound first tuple sound,
      concat-append_builder first tuple
          ∙ (ap (λ t. t ++ concat tuple.parts) (concat-append_part new_builder (text prefix))
              ∙ ap (◌++◌ prefix) (sym (append-nil (concat tuple.parts)))),
    )

continued :
    (prefix : Bytes) (group : List Bytes) (b tuple : SqlChunkBuilder)
    → IsSound b
    → concat b.parts ≡ prefix ++ listed group
    → 1 ≤ length group
    → let b' = append_builder (append b (text (codes ","))) tuple in
      IsSound b' × (concat b'.parts ≡ prefix ++ listed (group ++ concat tuple.parts ∷ []))
continued prefix group b tuple h e n =
    let next = append b (text (codes ",")) in
    let t = concat tuple.parts in
    (
      append_builder-IsSound next tuple (append-IsSound b (text (codes ",")) h),
      concat-append_builder next tuple
          ∙ (ap (λ u. u ++ t) (concat-append_part b (text (codes ",")) ∙ ap (λ u. u ++ codes ",") e)
              ∙ (append_assoc (prefix ++ listed group) (codes ",") t
                  ∙ (append_assoc prefix (listed group) (codes "," ++ t)
                      ∙ ap (◌++◌ prefix) (sym (listed-append group t n))))),
    )

opened_statement-Opened :
    (settings : Settings) (group : List Bytes) (x : Export) (tuple : SqlChunkBuilder)
    → IsSound tuple
    → Opened settings x.statement group
    → Fits settings (group ++ concat tuple.parts ∷ [])
    → Opened settings
        (some (append_builder (opened_statement settings x) tuple))
        (group ++ concat tuple.parts ∷ [])
unfolding opened_statement
opened_statement-Opened settings group x tuple k h f = elim (Option-cases x.statement) [
  | inl e ↦
      let h' : group ≡ [] = subst (λ o. Opened settings o group) e h in
      ground (arith, begun settings.statement_prefix tuple k)
  | inr (b, e) ↦
      let (sound, content, n, _) = subst (λ o. Opened settings o group) e h in
      ground (
        arith,
        continued settings.statement_prefix group b tuple sound content n,
        length-append group (concat tuple.parts ∷ []),
      )
]

pub add_tuple-Written :
    (settings : Settings) (groups : List (List Bytes)) (group : List Bytes) (x : Export)
    (tuple : SqlChunkBuilder)
    → IsSound tuple
    → Written settings groups group x
    → Fits settings (group ++ concat tuple.parts ∷ [])
    → Written settings groups (group ++ concat tuple.parts ∷ []) (add_tuple settings x tuple)
unfolding add_tuple
add_tuple-Written settings groups group x tuple k h f = record {
  opened = opened_statement-Opened settings group x tuple k h.opened f;
  rows = ground (arith, h.rows, length-append group (concat tuple.parts ∷ []));
  exported = ground (
    arith,
    h.exported,
    append_assoc (join groups) group (concat tuple.parts ∷ []),
    length-append (join groups ++ group) (concat tuple.parts ∷ []),
  );
  statements = h.statements;
  taken = h.taken;
  fits = h.fits;
}
