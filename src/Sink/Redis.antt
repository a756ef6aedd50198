-- ===== src/Sink/Redis.antt =====
-- What the sink and its reader use of redis.asyncio and of `json`: the streams of a Redis server, and
-- the texts of vectors and metadata, whose numbers are floats.
use rag_document_processor.Prelude.{ℕ, ◌<◌, ◌≡◌, ◌≢◌, Option, some, List, [], ◌∷◌, ◌++◌, length}
use rag_document_processor.Prelude.Text.{Text}
use rag_document_processor.Domain.Exceptions.{Result, ok}
use rag_document_processor.Pipelines.Stream.{ChunkMeta}

-- The fields of an entry
abbrev pub Fields : Type 0
Fields = List (Text × Text)

pub record Redis : Type 1 where
  pub State : Type 0
  -- `xadd(key, fields, maxlen=…, approximate=True)`
  pub xadd : ℕ → Text → Fields → State → Result State
  pub delete : Text → State → Result State
  -- `xrange(key)`, without the ids of the entries
  pub xrange : Text → State → Result (List Fields)

-- What Redis documents: a deleted stream is empty, an entry is added at the end, trimming leaves
-- `maxlen` entries at least, and a command concerns its own key.
pub record IsRedis (R : Redis) : Type 0 where
  pub xrange-delete : {key : Text} {s t : R.State} → R.delete key s ≡ ok t → R.xrange key t ≡ ok []
  pub xrange-xadd :
      {maxlen : ℕ} {key : Text} {fields : Fields} {entries : List Fields} {s t : R.State}
      → R.xadd maxlen key fields s ≡ ok t
      → R.xrange key s ≡ ok entries
      → length entries < maxlen
      → R.xrange key t ≡ ok (entries ++ fields ∷ [])
  pub xrange-delete_ne :
      {key other : Text} {s t : R.State}
      → R.delete key s ≡ ok t
      → other ≢ key
      → R.xrange other t ≡ R.xrange other s
  pub xrange-xadd_ne :
      {maxlen : ℕ} {key other : Text} {fields : Fields} {s t : R.State}
      → R.xadd maxlen key fields s ≡ ok t
      → other ≢ key
      → R.xrange other t ≡ R.xrange other s

-- `json.dumps` and `json.loads` where floats and objects stand in the text: `V` is the type of vectors
-- and `M` that of the worker's metadata.
pub record Codec (V M : Type 0) : Type 1 where
  pub Json : Type 0
  pub Object : Type 0
  pub parse : Text → Result Json
  -- `isinstance(raw, dict)`
  pub object_of : Json → Option Object
  -- `tuple(float(x) for x in raw)`
  pub vector_of : Json → Result V
  -- `{}`
  pub no_fields : Object
  pub print_vector : V → Text
  pub print_meta : ChunkMeta M → Text
  -- of `{"chunks": str(chunks)}`
  pub print_count : ℕ → Text

-- What is printed is read again.
pub record IsCodec {V M : Type 0} (C : Codec V M) : Type 0 where
  pub meta_object : ChunkMeta M → C.Object
  pub count_object : ℕ → C.Object
  pub read_vector :
      (v : V) → (j : C.Json) × (C.parse (C.print_vector v) ≡ ok j) × (C.vector_of j ≡ ok v)
  pub read_meta :
      (m : ChunkMeta M)
      → (j : C.Json) × (C.parse (C.print_meta m) ≡ ok j) × (C.object_of j ≡ some (meta_object m))
  pub read_count :
      (n : ℕ)
      → (j : C.Json) × (C.parse (C.print_count n) ≡ ok j) × (C.object_of j ≡ some (count_object n))
