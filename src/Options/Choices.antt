-- ===== src/Options/Choices.antt =====
-- The closed sets of names of core/ingest_embedding_options.py, and the settings that it reads.
use rag_document_processor.Prelude.{Bool, Option, none, some, List, [], ◌∷◌, if◌then◌else◌}
use rag_document_processor.Prelude.Int.{ℤ}
use rag_document_processor.Prelude.Text.{Text, codes, text_eq}
use rag_document_processor.Domain.Exceptions.{EmbedderKind, openai, jina}

pub data PipelineKind : Type 0 where
  late_chunking chunk_then_embed : PipelineKind

pub data MacroKind : Type 0 where
  semantic recursive token_aware : MacroKind

abbrev pub pipeline_name : PipelineKind → Text
pipeline_name late_chunking = codes "late_chunking"
pipeline_name chunk_then_embed = codes "chunk_then_embed"

abbrev pub macro_name : MacroKind → Text
macro_name semantic = codes "semantic"
macro_name recursive = codes "recursive"
macro_name token_aware = codes "token_aware"

abbrev pub embedder_name : EmbedderKind → Text
embedder_name openai = codes "openai"
embedder_name jina = codes "jina"

-- A text of the set EMBEDDING_PIPELINE_CHOICES, MACRO_SPLITTER_CHOICES or
-- EMBEDDER_PROVIDER_CHOICES is read as what it names; any other text is `none`.
unfoldable pub pipeline_of : Text → Option PipelineKind
pipeline_of s =
    if text_eq s (pipeline_name late_chunking)
    then some late_chunking
    else if text_eq s (pipeline_name chunk_then_embed)
    then some chunk_then_embed
    else none

unfoldable pub macro_of : Text → Option MacroKind
macro_of s =
    if text_eq s (macro_name semantic)
    then some semantic
    else if text_eq s (macro_name recursive)
    then some recursive
    else if text_eq s (macro_name token_aware)
    then some token_aware
    else none

unfoldable pub embedder_of : Text → Option EmbedderKind
embedder_of s =
    if text_eq s (embedder_name openai)
    then some openai
    else if text_eq s (embedder_name jina)
    then some jina
    else none

abbrev pub schema_placeholder_model_names : List Text
schema_placeholder_model_names =
    codes "string"
    ∷ codes "integer"
    ∷ codes "int"
    ∷ codes "number"
    ∷ codes "float"
    ∷ codes "double"
    ∷ codes "boolean"
    ∷ codes "bool"
    ∷ codes "null"
    ∷ codes "object"
    ∷ codes "array"
    ∷ []

-- The fields of `Settings` (core/config.py) that the modelled code reads.
pub record Settings : Type 0 where
  pub embedding_pipeline : Text
  pub macro_splitter : Text
  pub late_chunk_min_tokens : ℤ
  pub late_chunk_max_tokens : ℤ
  pub late_chunk_batch_tokens : ℤ
  pub jina_api_key : Option Text
  pub jina_embedding_model : Text
  pub openai_api_key : Option Text
  pub openai_embedding_model : Text
  pub embedding_dimensions : Option ℤ
  pub llama_parse_tier : Text
  pub llama_cloud_api_key : Option Text
  pub max_upload_bytes : ℤ
  pub max_url_fetch_bytes : ℤ
  pub allowed_upload_content_types : Text
  pub env : Text
  pub database_url : Option Text
  pub database_auto_migrate : Bool
  pub database_auto_create : Bool
  pub api_key_admin_secret : Option Text

-- The `job_…` arguments of `resolve_ingest_embedding_options`.
pub record Overrides : Type 0 where
  pub embedding_pipeline : Option Text
  pub macro_splitter : Option Text
  pub embedder_provider : Option Text
  pub openai_embedding_model : Option Text
  pub jina_embedding_model : Option Text
  pub late_chunk_min_tokens : Option ℤ
  pub late_chunk_max_tokens : Option ℤ

pub record ResolvedOptions : Type 0 where
  pub embedding_pipeline : PipelineKind
  pub macro_splitter : MacroKind
  pub embedder : EmbedderKind
  pub openai_embedding_model : Text
  pub jina_embedding_model : Text
  pub late_chunk_min_tokens : ℤ
  pub late_chunk_max_tokens : ℤ
  pub late_chunk_batch_tokens : ℤ
