-- ===== src/Pipelines/Plain.antt =====
-- `ChunkThenEmbedPipeline.process` of embedding_pipelines.py
pub mod Laws
use rag_document_processor.Prelude.{ℕ, suc, Option, none, List, [], ◌∷◌}
use rag_document_processor.Prelude.Int.{ℤ}
use rag_document_processor.Prelude.Text.{Text, codes}
use rag_document_processor.Domain.Exceptions.{other_error, Result, ok, err}
use rag_document_processor.Options.Choices.{chunk_then_embed}
use rag_document_processor.Pipelines.Stream.{Stream, finished, raising, yielding, EmbeddedChunk}

module _ {M V : Type 0} (embed_texts : List Text → Result (List V)) (metadata : M)
    (dimensions : Option ℤ) where
  unfoldable pub embedded : ℕ → Text → V → EmbeddedChunk M V
  embedded idx seg vec = record {
    text = seg;
    embedding = vec;
    metadata = record {
      base = metadata;
      embedding_dimensions = dimensions;
      chunk_index = idx;
      batch_index = none;
      token_count = none;
      pipeline = chunk_then_embed;
    };
  }

  -- The loop over the segments, one request for each
  unfoldable pub embed_segments : ℕ → List Text → Stream (EmbeddedChunk M V)
  unfolding embedded
  embed_segments idx [] = finished
  embed_segments idx (seg ∷ segs) = elim (embed_texts (seg ∷ [])) [
    | err e ↦ raising e
    | ok [] ↦ raising (other_error (codes "list index out of range"))
    | ok (v ∷ vs) ↦ yielding (embedded idx seg v) (embed_segments (suc idx) segs)
  ]

  unfoldable pub process : Result (List Text) → Stream (EmbeddedChunk M V)
  unfolding embed_segments
  process (err e) = raising e
  process (ok segs) = embed_segments 0 segs
