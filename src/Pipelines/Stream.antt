-- ===== src/Pipelines/Stream.antt =====
-- What an asynchronous generator gives: the items that it yields, and the exception that ends it,
-- if one does.
use rag_document_processor.Prelude.{ℕ, Option, none, some, List, [], ◌∷◌}
use rag_document_processor.Prelude.Int.{ℤ}
use rag_document_processor.Prelude.Text.{Text}
use rag_document_processor.Domain.Exceptions.{Error}
use rag_document_processor.Options.Choices.{PipelineKind}

pub record Stream {ℓ} (A : Type ℓ) : Type ℓ where
  pub items : List A
  pub raised : Option Error

module _ {ℓ} {A : Type ℓ} where
  abbrev pub finished : Stream A
  finished = record { items = []; raised = none }

  abbrev pub raising : Error → Stream A
  raising e = record { items = []; raised = some e }

  abbrev pub yielding : A → Stream A → Stream A
  yielding a rest = record { items = a ∷ rest.items; raised = rest.raised }

-- The metadata of a chunk: `{**metadata, …}`, where `M` is the type of `metadata`.
pub record ChunkMeta {ℓ} (M : Type ℓ) : Type ℓ where
  pub base : M
  pub embedding_dimensions : Option ℤ
  pub chunk_index : ℕ
  pub batch_index : Option ℕ
  pub token_count : Option ℕ
  pub pipeline : PipelineKind

-- domain/value_objects/embedded_chunk.py, where `V` is the type of vectors
pub record EmbeddedChunk {ℓ} (M V : Type ℓ) : Type ℓ where
  pub text : Text
  pub embedding : V
  pub metadata : ChunkMeta M
