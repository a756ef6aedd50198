-- ===== src/Options/Names.antt =====
-- The names of pipelines, splitters and embedders are read back as what they name.
use rag_document_processor.Prelude.{◌≡◌, refl, some, arith}
use rag_document_processor.Prelude.Text.{Text, text_eq}
use rag_document_processor.Prelude.Text.Laws.{text_eq-eq}
use rag_document_processor.Domain.Exceptions.{EmbedderKind, openai, jina}
use rag_document_processor.Options.Choices.{
  PipelineKind, late_chunking, chunk_then_embed, MacroKind, semantic, recursive, token_aware,
  pipeline_name, macro_name, embedder_name, pipeline_of, macro_of, embedder_of,
}

pub pipeline_name-pipeline_of :
    (s : Text) (k : PipelineKind) → pipeline_of s ≡ some k → s ≡ pipeline_name k
unfolding pipeline_of
pipeline_name-pipeline_of s late_chunking h =
    text_eq-eq s (pipeline_name late_chunking) (ground arith)
pipeline_name-pipeline_of s chunk_then_embed h =
    text_eq-eq s (pipeline_name chunk_then_embed) (ground arith)

pub macro_name-macro_of : (s : Text) (k : MacroKind) → macro_of s ≡ some k → s ≡ macro_name k
unfolding macro_of
macro_name-macro_of s semantic h = text_eq-eq s (macro_name semantic) (ground arith)
macro_name-macro_of s recursive h = text_eq-eq s (macro_name recursive) (ground arith)
macro_name-macro_of s token_aware h = text_eq-eq s (macro_name token_aware) (ground arith)

pub embedder_name-embedder_of :
    (s : Text) (k : EmbedderKind) → embedder_of s ≡ some k → s ≡ embedder_name k
unfolding embedder_of
embedder_name-embedder_of s openai h = text_eq-eq s (embedder_name openai) (ground arith)
embedder_name-embedder_of s jina h = text_eq-eq s (embedder_name jina) (ground arith)

pub pipeline_of-pipeline_name : (k : PipelineKind) → pipeline_of (pipeline_name k) ≡ some k
unfolding pipeline_of text_eq
pipeline_of-pipeline_name late_chunking = refl
pipeline_of-pipeline_name chunk_then_embed = refl

pub macro_of-macro_name : (k : MacroKind) → macro_of (macro_name k) ≡ some k
unfolding macro_of text_eq
macro_of-macro_name semantic = refl
macro_of-macro_name recursive = refl
macro_of-macro_name token_aware = refl
