-- ===== src/Domain/Entities.antt =====
-- domain/entities/: `IngestionJob` and `ApiKey`. A UUID and a point in time are numbers.
use rag_document_processor.Prelude.{ℕ, Bool, Option}
use rag_document_processor.Prelude.Int.{ℤ}
use rag_document_processor.Prelude.Text.{Text}
use rag_document_processor.Domain.Exceptions.{Error}

pub data JobStatus : Type 0 where
  pending processing completed failed : JobStatus

pub data SourceKind : Type 0 where
  file url text : SourceKind

pub record IngestionJob : Type 0 where
  pub id : ℕ
  pub status : JobStatus
  pub source_kind : SourceKind
  pub blob_key : Option Text
  pub source_url : Option Text
  pub source_text : Option Text
  pub content_type : Option Text
  pub original_filename : Option Text
  pub llama_parse_tier : Option Text
  pub embedding_dimensions : Option ℤ
  pub embedding_pipeline : Option Text
  pub macro_splitter : Option Text
  pub embedder_provider : Option Text
  pub openai_embedding_model : Option Text
  pub jina_embedding_model : Option Text
  pub late_chunk_min_tokens : Option ℤ
  pub late_chunk_max_tokens : Option ℤ
  pub error_message : Option Error
  pub chunks_emitted : ℕ
  pub created_at : ℕ
  pub updated_at : ℕ

pub record ApiKey : Type 0 where
  pub id : ℕ
  pub name : Text
  pub key_prefix : Text
  pub is_active : Bool
  pub created_at : ℕ
  pub last_used_at : Option ℕ
