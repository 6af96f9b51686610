-- ===== src/Data/ChunkBuilder.antt =====
-- src/data/chunkBuilder.ts: the class `SqlChunkBuilder`. A text is held as its UTF-8 bytes.
pub mod Content
use dbgate_mysql_dumper.Base.{
  ℕ, ◌+◌, [], ◌∷◌, ◌++◌, List, Bytes, length, Bool, true, false, not, ◌==◌, if◌then◌else◌,
}

-- A part that was given as a string, or as a `Buffer`.
pub data Part : Type 0 where
  text buffer : Bytes → Part

pub record SqlChunkBuilder : Type 0 where
  pub parts : List Part
  pub byte_length : ℕ
  pub has_bytes : Bool

abbrev pub new_builder : SqlChunkBuilder
new_builder = record { parts = []; byte_length = 0; has_bytes = false }

unfoldable pub is_empty : SqlChunkBuilder → Bool
is_empty builder = length builder.parts == 0

unfoldable pub append : SqlChunkBuilder → Part → SqlChunkBuilder
append builder (text part) = if length part == 0 then builder else record {
  parts = builder.parts ++ text part ∷ [];
  byte_length = builder.byte_length + length part;
  has_bytes = builder.has_bytes;
}
append builder (buffer part) = if length part == 0 then builder else record {
  parts = builder.parts ++ buffer part ∷ [];
  byte_length = builder.byte_length + length part;
  has_bytes = true;
}

abbrev append_all : SqlChunkBuilder → List Part → SqlChunkBuilder
append_all builder [] = builder
append_all builder (part ∷ parts) = append_all (append builder part) parts

unfoldable pub append_builder : SqlChunkBuilder → SqlChunkBuilder → SqlChunkBuilder
append_builder builder other = append_all builder other.parts

abbrev pub part_bytes : Part → Bytes
part_bytes (text part) = part
part_bytes (buffer part) = part

-- `this.parts.join('')`: only the strings are texts, which is all there is when no bytes were given.
abbrev pub joined : List Part → Bytes
joined [] = []
joined (text part ∷ parts) = part ++ joined parts
joined (buffer part ∷ parts) = joined parts

-- `Buffer.concat`
abbrev pub concat : List Part → Bytes
concat [] = []
concat (part ∷ parts) = part_bytes part ++ concat parts

unfoldable pub build : SqlChunkBuilder → Part
build builder =
    if not builder.has_bytes then text (joined builder.parts) else buffer (concat builder.parts)
