-- ===== src/Sink/Read.antt =====
-- infrastructure/sinks/redis_stream_result_reader.py
use rag_document_processor.Prelude.{
  ℕ, Option, none, some, List, [], ◌∷◌, ◌++◌, length, if◌then◌else◌,
}
use rag_document_processor.Prelude.Text.{Text, codes, text_eq}
use rag_document_processor.Domain.Exceptions.{Result, ok, err, ◌>>=◌}
use rag_document_processor.Sink.Redis.{Fields, Redis, Codec}
use rag_document_processor.Sink.Emit.{stream_key}

-- `fields.get(name)` and `fields.get(name, default)`
unfoldable pub field : Text → Fields → Option Text
unfolding text_eq
field name [] = none
field name ((n, value) ∷ fields) = if text_eq n name then some value else field name fields

abbrev pub or_default : Option Text → Text → Text
or_default none value = value
or_default (some v) value = v

pub record ChunkResult (V O : Type 0) : Type 0 where
  pub index : ℕ
  pub text : Text
  pub embedding : V
  pub metadata : O

pub record Snapshot (V O : Type 0) : Type 0 where
  pub chunks : List (ChunkResult V O)
  pub finalization_metadata : Option O

-- What an entry is: by the type that it names.
pub data Entry (V O : Type 0) : Type 0 where
  chunk : ChunkResult V O → Entry V O
  done : O → Entry V O
  other : Entry V O

module _ {V M : Type 0} (R : Redis) (C : Codec V M) where
  abbrev pub object_or_empty : Option C.Object → C.Object
  object_or_empty none = C.no_fields
  object_or_empty (some o) = o

  unfoldable pub read_chunk : ℕ → Fields → Result (Entry V C.Object)
  unfolding field
  read_chunk index fields = do
    raw_embedding ← C.parse (or_default (field (codes "embedding") fields) (codes "[]"))
    raw_metadata ← C.parse (or_default (field (codes "metadata") fields) (codes "{}"))
    embedding ← C.vector_of raw_embedding
    ok (
        chunk (record {
          index = index;
          text = or_default (field (codes "text") fields) [];
          embedding = embedding;
          metadata = object_or_empty (C.object_of raw_metadata);
        }))

  unfoldable pub read_done : Fields → Result (Entry V C.Object)
  unfolding field
  read_done fields = do
    raw ← C.parse (or_default (field (codes "metadata") fields) (codes "{}"))
    ok (done (object_or_empty (C.object_of raw)))

  abbrev pub read_typed : Option Text → ℕ → Fields → Result (Entry V C.Object)
  read_typed none index fields = ok other
  read_typed (some t) index fields =
      if text_eq t (codes "chunk")
      then read_chunk index fields
      else if text_eq t (codes "done")
      then read_done fields
      else ok other

  unfoldable pub read_entry : ℕ → Fields → Result (Entry V C.Object)
  unfolding field text_eq
  read_entry index fields = read_typed (field (codes "type") fields) index fields

  -- The loop of `_parse_stream_entries`, from the chunks so far and the end mark so far
  unfoldable pub parse_entries :
      List (ChunkResult V C.Object) → Option C.Object → List Fields → Result (Snapshot V C.Object)
  parse_entries chunks finalization [] =
      ok (record { chunks = chunks; finalization_metadata = finalization })
  parse_entries chunks finalization (fields ∷ entries) = elim (read_entry (length chunks) fields) [
    | err e ↦ err e
    | ok (chunk c) ↦ parse_entries (chunks ++ c ∷ []) finalization entries
    | ok (done o) ↦ parse_entries chunks (some o) entries
    | ok other ↦ parse_entries chunks finalization entries
  ]

  -- `RedisStreamResultReader.read`
  unfoldable pub read : ℕ → R.State → Result (Snapshot V C.Object)
  read job_id s = R.xrange (stream_key job_id) s >>= parse_entries [] none
