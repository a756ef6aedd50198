-- ===== src/Pipelines/Factory.antt =====
-- core/pipeline_factory.py: which splitter and embedder a job's options stand for. A splitter or an
-- embedder is the class and the arguments that it is built with.
use rag_document_processor.Prelude.{ℕ, [], if◌then◌else◌}
use rag_document_processor.Prelude.Int.{ℤ}
use rag_document_processor.Prelude.Text.{Text, truthy, or_text}
use rag_document_processor.Prelude.Int.{pos}
use rag_document_processor.Domain.Exceptions.{EmbedderKind, openai, jina}
use rag_document_processor.Options.Choices.{
  PipelineKind, late_chunking, chunk_then_embed, MacroKind, semantic, recursive, token_aware,
  Settings, ResolvedOptions,
}
use rag_document_processor.LateChunk.Sentences.{chars_for_tokens}

pub data Splitter : Type 0 where
  -- chunk_size and chunk_overlap
  recursive_splitter : ℕ → ℕ → Splitter
  -- openai_api_key
  semantic_splitter : Text → Splitter
  -- max_tokens and overlap_tokens
  token_aware_splitter : ℤ → ℤ → Splitter

pub data Embedder : Type 0 where
  -- api_key and model
  jina_embedder openai_embedder : Text → Text → Embedder

pub data Pipeline : Type 0 where
  -- min_tokens, max_tokens and batch_tokens
  late_chunking_pipeline : Splitter → Embedder → ℤ → ℤ → ℤ → Pipeline
  chunk_then_embed_pipeline : Embedder → Pipeline

abbrev pub default_macro_overlap_tokens : ℤ
default_macro_overlap_tokens = pos 128

abbrev pub recursive_of : ℤ → ℤ → Splitter
recursive_of max_tokens overlap_tokens =
    recursive_splitter (chars_for_tokens max_tokens) (chars_for_tokens overlap_tokens)

unfoldable pub build_macro_splitter : Settings → MacroKind → ℤ → ℤ → Splitter
build_macro_splitter settings semantic max_tokens overlap_tokens =
    if truthy settings.openai_api_key
    then semantic_splitter (or_text settings.openai_api_key [])
    else recursive_of max_tokens overlap_tokens
build_macro_splitter settings token_aware max_tokens overlap_tokens =
    token_aware_splitter max_tokens overlap_tokens
build_macro_splitter settings recursive max_tokens overlap_tokens =
    recursive_of max_tokens overlap_tokens

abbrev pub plain_embedder : Settings → EmbedderKind → ResolvedOptions → Embedder
plain_embedder settings openai resolved =
    openai_embedder (or_text settings.openai_api_key []) resolved.openai_embedding_model
plain_embedder settings jina resolved =
    jina_embedder (or_text settings.jina_api_key []) resolved.jina_embedding_model

abbrev pub pipeline_for : PipelineKind → Settings → ResolvedOptions → Pipeline
pipeline_for late_chunking settings resolved =
    late_chunking_pipeline
      (build_macro_splitter settings resolved.macro_splitter resolved.late_chunk_max_tokens
        default_macro_overlap_tokens)
      (jina_embedder (or_text settings.jina_api_key []) resolved.jina_embedding_model)
      resolved.late_chunk_min_tokens resolved.late_chunk_max_tokens resolved.late_chunk_batch_tokens
pipeline_for chunk_then_embed settings resolved =
    chunk_then_embed_pipeline (plain_embedder settings resolved.embedder resolved)

unfoldable pub build_embedding_pipeline : Settings → ResolvedOptions → Pipeline
unfolding build_macro_splitter
build_embedding_pipeline settings resolved =
    pipeline_for resolved.embedding_pipeline settings resolved
