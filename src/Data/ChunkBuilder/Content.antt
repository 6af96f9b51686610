-- ===== src/Data/ChunkBuilder/Content.antt =====
-- src/data/chunkBuilder.ts: what a builder holds, and what it is built to.
use dbgate_mysql_dumper.Base.{
  [], ◌∷◌, ◌++◌, List, ◌≡◌, length, refl, sym, ap, ◌∙◌, arith, Bool, true, false, ◌&&◌, not,
  append_assoc, append-nil, eq_nil_of_length, length-append,
}
use dbgate_mysql_dumper.Data.ChunkBuilder.{
  Part, text, buffer, SqlChunkBuilder, append, append_builder, append_all, part_bytes, joined,
  concat, build,
}

abbrev all_text : List Part → Bool
all_text [] = true
all_text (text part ∷ parts) = all_text parts
all_text (buffer part ∷ parts) = false

-- The two fields say of the parts what they are for.
pub record IsSound (builder : SqlChunkBuilder) : Type 0 where
  pub counted : builder.byte_length ≡ length (concat builder.parts)
  pub flagged : builder.has_bytes ≡ not (all_text builder.parts)

concat-append : (ps : List Part) (p : Part) → concat (ps ++ p ∷ []) ≡ concat ps ++ part_bytes p
concat-append [] p = append-nil (part_bytes p)
concat-append (q ∷ ps) p =
    rw (concat-append ps p) (sym (append_assoc (part_bytes q) (concat ps) (part_bytes p)))

all_text-append :
    (ps : List Part) (p : Part) → all_text (ps ++ p ∷ []) ≡ (all_text ps && all_text (p ∷ []))
all_text-append [] p = refl
all_text-append (text q ∷ ps) p = all_text-append ps p
all_text-append (buffer q ∷ ps) p = refl

pub concat-append_part :
    (b : SqlChunkBuilder) (p : Part) → concat (append b p).parts ≡ concat b.parts ++ part_bytes p
unfolding append
concat-append_part b (text p) =
    ground (arith, concat-append b.parts (text p), eq_nil_of_length p, append-nil (concat b.parts))
concat-append_part b (buffer p) =
    ground
      (arith, concat-append b.parts (buffer p), eq_nil_of_length p, append-nil (concat b.parts))

pub append-IsSound : (b : SqlChunkBuilder) (p : Part) → IsSound b → IsSound (append b p)
unfolding append
append-IsSound b (text p) h = ground (
  arith,
  concat-append b.parts (text p),
  all_text-append b.parts (text p),
  length-append (concat b.parts) p,
)
append-IsSound b (buffer p) h = ground (
  arith,
  concat-append b.parts (buffer p),
  all_text-append b.parts (buffer p),
  length-append (concat b.parts) p,
)

joined-concat : (ps : List Part) → all_text ps ≡ true → joined ps ≡ concat ps
joined-concat [] h = refl
joined-concat (text p ∷ ps) h = ap (◌++◌ p) (joined-concat ps h)
joined-concat (buffer p ∷ ps) h = cc

append_all-IsSound : (b : SqlChunkBuilder) (ps : List Part) → IsSound b → IsSound (append_all b ps)
append_all-IsSound b [] h = h
append_all-IsSound b (p ∷ ps) h = append_all-IsSound (append b p) ps (append-IsSound b p h)

concat-append_all :
    (b : SqlChunkBuilder) (ps : List Part)
    → concat (append_all b ps).parts ≡ concat b.parts ++ concat ps
concat-append_all b [] = sym (append-nil (concat b.parts))
concat-append_all b (p ∷ ps) =
    concat-append_all (append b p) ps
    ∙ (ap (λ c. c ++ concat ps) (concat-append_part b p)
        ∙ append_assoc (concat b.parts) (part_bytes p) (concat ps))

-- What a sound builder is built to.
pub build-concat : (b : SqlChunkBuilder) → IsSound b → part_bytes (build b) ≡ concat b.parts
unfolding build
build-concat b h = ground (arith, joined-concat b.parts)

pub append_builder-IsSound : (a b : SqlChunkBuilder) → IsSound a → IsSound (append_builder a b)
unfolding append_builder
append_builder-IsSound a b h = append_all-IsSound a b.parts h

pub concat-append_builder :
    (a b : SqlChunkBuilder) → concat (append_builder a b).parts ≡ concat a.parts ++ concat b.parts
unfolding append_builder
concat-append_builder a b = concat-append_all a b.parts

-- Appending one sound builder to another appends what is built, and the length is that of the bytes.
pub build-append_builder :
    (a b : SqlChunkBuilder)
    → IsSound a
    → IsSound b
    → (part_bytes (build (append_builder a b)) ≡ part_bytes (build a) ++ part_bytes (build b))
      × ((append_builder a b).byte_length ≡ length (part_bytes (build (append_builder a b))))
build-append_builder a b h k =
    let sound = append_builder-IsSound a b h in
    let built = build-concat (append_builder a b) sound in
    (
      built ∙ (concat-append_builder a b ∙ cc (build-concat a h, build-concat b k)),
      sound.counted ∙ ap length (sym built),
    )
