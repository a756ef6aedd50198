-- ===== src/Pipelines/Late.antt =====
-- `LateChunkingPipeline.process` of embedding_pipelines.py. The macro splitter, the embedder and the
-- token counter are arguments, as they are in the source.
pub mod Laws
use rag_document_processor.Prelude.{ℕ, zero, suc, ◌+◌, Option, none, some, List, [], ◌∷◌}
use rag_document_processor.Prelude.Int.{ℤ}
use rag_document_processor.Prelude.Text.{Text, codes}
use rag_document_processor.Domain.Exceptions.{Error, value_error, Result, ok, err}
use rag_document_processor.Options.Choices.{late_chunking}
use rag_document_processor.LateChunk.Sentences.{clean, dedupe_adjacent}
use rag_document_processor.LateChunk.Enhance.{newline, enhance_chunks}
use rag_document_processor.LateChunk.Batch.{batch_chunks}
use rag_document_processor.Pipelines.Stream.{
  Stream, finished, raising, yielding, ChunkMeta, EmbeddedChunk,
}

module _ {M V : Type 0} (count_tokens : Text → ℕ) (embed_texts : List Text → Result (List V))
    (metadata : M) (dimensions : Option ℤ) where
  unfoldable pub embedded : ℕ → ℕ → Text → V → EmbeddedChunk M V
  embedded batch_idx chunk_idx text vec = record {
    text = text;
    embedding = vec;
    metadata = record {
      base = metadata;
      embedding_dimensions = dimensions;
      chunk_index = chunk_idx;
      batch_index = some batch_idx;
      token_count = some (count_tokens text);
      pipeline = late_chunking;
    };
  }

  -- `zip(batch, vectors, strict=True)`: pairs are yielded until one of the lists ends; if the other
  -- goes on it is an error, and if not the rest of the generator follows, at the next index.
  unfoldable pub yield_batch :
      ℕ → ℕ → List Text → List V → (ℕ → Stream (EmbeddedChunk M V)) → Stream (EmbeddedChunk M V)
  unfolding embedded
  yield_batch batch_idx chunk_idx [] [] rest = rest chunk_idx
  yield_batch batch_idx chunk_idx [] (v ∷ vs) rest =
      raising (value_error (codes "zip() argument 2 is longer than argument 1"))
  yield_batch batch_idx chunk_idx (t ∷ ts) [] rest =
      raising (value_error (codes "zip() argument 2 is shorter than argument 1"))
  yield_batch batch_idx chunk_idx (t ∷ ts) (v ∷ vs) rest =
      yielding (embedded batch_idx chunk_idx t v) (yield_batch batch_idx (suc chunk_idx) ts vs rest)

  -- The loop over the batches
  unfoldable pub embed_batches : ℕ → ℕ → List (List Text) → Stream (EmbeddedChunk M V)
  unfolding yield_batch
  embed_batches batch_idx chunk_idx [] = finished
  embed_batches batch_idx chunk_idx (batch ∷ batches) = elim (embed_texts batch) [
    | err e ↦ raising e
    | ok vectors ↦
        yield_batch batch_idx chunk_idx batch vectors
          (λ next. embed_batches (suc batch_idx) next batches)
  ]

  abbrev pub embed_all : Result (List (List Text)) → Stream (EmbeddedChunk M V)
  embed_all (err e) = raising e
  embed_all (ok batches) = embed_batches 0 0 batches

  abbrev pub batch_all : ℤ → Result (List Text) → Stream (EmbeddedChunk M V)
  batch_all batch_tokens (err e) = raising e
  batch_all batch_tokens (ok []) = finished
  batch_all batch_tokens (ok (c ∷ cs)) = embed_all (batch_chunks count_tokens batch_tokens (c ∷ cs))

  abbrev pub enhance_all : ℤ → ℤ → ℤ → List Text → Stream (EmbeddedChunk M V)
  enhance_all min_tokens max_tokens batch_tokens [] = finished
  enhance_all min_tokens max_tokens batch_tokens (c ∷ cs) =
      batch_all batch_tokens (enhance_chunks count_tokens min_tokens max_tokens newline (c ∷ cs))

  -- From the blocks that the macro splitter yields, or its exception
  unfoldable pub process : ℤ → ℤ → ℤ → Result (List Text) → Stream (EmbeddedChunk M V)
  unfolding clean dedupe_adjacent enhance_chunks batch_chunks embed_batches
  process min_tokens max_tokens batch_tokens (err e) = raising e
  process min_tokens max_tokens batch_tokens (ok blocks) =
      enhance_all min_tokens max_tokens batch_tokens (dedupe_adjacent (clean blocks))
