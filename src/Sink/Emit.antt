-- ===== src/Sink/Emit.antt =====
-- infrastructure/sinks/redis_stream_sink.py, and the ports of a worker with this sink
use rag_document_processor.Prelude.{ℕ, [], ◌∷◌, ◌++◌}
use rag_document_processor.Prelude.Text.{Text, codes}
use rag_document_processor.Prelude.Uuid.{uuid_text}
use rag_document_processor.Domain.Exceptions.{Result}
use rag_document_processor.Pipelines.Stream.{EmbeddedChunk}
use rag_document_processor.Ingest.Ports.{Ports, JobMeta}
use rag_document_processor.Sink.Redis.{Fields, Redis, Codec}

-- `_stream_key`
abbrev pub stream_key : ℕ → Text
stream_key job_id = codes "ingest:" ++ uuid_text job_id

module _ {V M : Type 0} (R : Redis) (C : Codec V M) (maxlen : ℕ) where
  abbrev pub chunk_fields : ℕ → EmbeddedChunk M V → Fields
  chunk_fields job_id chunk =
      (codes "type", codes "chunk")
      ∷ (codes "job_id", uuid_text job_id)
      ∷ (codes "text", chunk.text)
      ∷ (codes "embedding", C.print_vector chunk.embedding)
      ∷ (codes "metadata", C.print_meta chunk.metadata)
      ∷ []

  unfoldable pub emit : ℕ → EmbeddedChunk M V → R.State → Result R.State
  emit job_id chunk s = R.xadd maxlen (stream_key job_id) (chunk_fields job_id chunk) s

  abbrev pub done_fields : ℕ → ℕ → Fields
  done_fields job_id chunks =
      (codes "type", codes "done")
      ∷ (codes "job_id", uuid_text job_id)
      ∷ (codes "metadata", C.print_count chunks)
      ∷ []

  -- with the metadata `{"chunks": str(chunks)}`, which its one caller gives
  unfoldable pub finalize : ℕ → ℕ → R.State → Result R.State
  finalize job_id chunks s = R.xadd maxlen (stream_key job_id) (done_fields job_id chunks) s

  unfoldable pub clear : ℕ → R.State → Result R.State
  clear job_id s = R.delete (stream_key job_id) s

abbrev pub with_redis : (P : Ports) (R : Redis) → Codec P.Vector JobMeta → ℕ → Ports
with_redis P R C maxlen = record P {
  Sink = R.State;
  clear = clear R C maxlen;
  emit = emit R C maxlen;
  finalize = finalize R C maxlen;
}
