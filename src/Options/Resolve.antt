-- ===== src/Options/Resolve.antt =====
-- `resolve_ingest_embedding_options` of core/ingest_embedding_options.py
pub mod Laws
pub mod Total
use rag_document_processor.Prelude.{
  ◌≡◌, Bool, true, false, not, ◌||◌, Option, none, some, [], if◌then◌else◌,
}
use rag_document_processor.Prelude.Int.{ℤ, pos, lt_ℤ}
use rag_document_processor.Prelude.Text.{Text, codes, text_eq, nonempty, truthy, or_text, strip}
use rag_document_processor.Domain.Exceptions
use rag_document_processor.Domain.Exceptions.{
  EmbedderKind, openai, jina, Result, ok, err, ◌>>=◌, ◌>>◌, guard, or_raise,
}
use rag_document_processor.Options.Choices.{
  PipelineKind, late_chunking, chunk_then_embed, Settings, Overrides, ResolvedOptions,
  embedder_name, pipeline_of, macro_of,
}
use rag_document_processor.Options.Coerce.{invalid}

abbrev pub or_int : Option ℤ → ℤ → ℤ
or_int none d = d
or_int (some z) d = z

-- `_resolve_late_chunk_tokens`: the minimum, the maximum and the batch limit
unfoldable pub resolve_late_chunk_tokens : Settings → Option ℤ → Option ℤ → Result (ℤ × ℤ × ℤ)
resolve_late_chunk_tokens settings job_min job_max =
    let lc_min = or_int job_min settings.late_chunk_min_tokens in
    let lc_max = or_int job_max settings.late_chunk_max_tokens in
    let lc_batch = settings.late_chunk_batch_tokens in
    if lt_ℤ lc_min (pos 1) || lt_ℤ lc_max (pos 1) || lt_ℤ lc_batch (pos 1)
    then err (invalid Exceptions.limits_not_positive)
    else if lt_ℤ lc_max lc_min
    then err (invalid (Exceptions.min_exceeds_max lc_min lc_max))
    else ok (lc_min, lc_max, lc_batch)

-- `v == "…"`, where `v` may be `None`
unfoldable pub is_text : Option Text → Text → Bool
is_text none s = false
is_text (some v) s = text_eq v s

-- The embedder of a late-chunking job: Jina, with a key.
unfoldable pub late_chunking_embedder : Settings → Option Text → Result EmbedderKind
late_chunking_embedder settings provider =
    if is_text provider (embedder_name openai)
    then err (invalid Exceptions.late_chunking_needs_jina)
    else if not (truthy settings.jina_api_key)
    then err (invalid Exceptions.late_chunking_key_missing)
    else ok jina

-- The embedder of a chunk-then-embed job: the one asked for, or the first that has a key.
unfoldable pub chunk_then_embed_embedder : Settings → Option Text → Result EmbedderKind
chunk_then_embed_embedder settings provider =
    if is_text provider (embedder_name openai)
    then (if truthy settings.openai_api_key
        then ok openai
        else err (invalid Exceptions.openai_key_missing))
    else if is_text provider (embedder_name jina)
    then (if truthy settings.jina_api_key
        then ok jina
        else err (invalid Exceptions.jina_key_missing))
    else if truthy settings.openai_api_key
    then ok openai
    else if truthy settings.jina_api_key
    then ok jina
    else err (invalid Exceptions.both_keys_missing)

unfoldable pub select_embedder : PipelineKind → Settings → Option Text → Result EmbedderKind
select_embedder late_chunking settings provider = late_chunking_embedder settings provider
select_embedder chunk_then_embed settings provider = chunk_then_embed_embedder settings provider

-- `(job or setting or "").strip()`
unfoldable pub model_name : Option Text → Text → Text
model_name job setting = strip (or_text job setting)

unfoldable pub resolve_ingest_embedding_options : Settings → Overrides → Result ResolvedOptions
resolve_ingest_embedding_options settings job = do
  pipeline ←
      or_raise (pipeline_of (or_text job.embedding_pipeline settings.embedding_pipeline))
        (invalid Exceptions.pipeline_not_allowed)
  macro ←
      or_raise (macro_of (or_text job.macro_splitter settings.macro_splitter))
        (invalid Exceptions.macro_not_allowed)
  let openai_model = model_name job.openai_embedding_model settings.openai_embedding_model
  let jina_model = model_name job.jina_embedding_model settings.jina_embedding_model
  guard (nonempty openai_model) (invalid Exceptions.empty_openai_model)
  guard (nonempty jina_model) (invalid Exceptions.empty_jina_model)
  tokens ← resolve_late_chunk_tokens settings job.late_chunk_min_tokens job.late_chunk_max_tokens
  embedder ← select_embedder pipeline settings job.embedder_provider
  ok (record {
    embedding_pipeline = pipeline;
    macro_splitter = macro;
    embedder = embedder;
    openai_embedding_model = openai_model;
    jina_embedding_model = jina_model;
    late_chunk_min_tokens = tokens.0;
    late_chunk_max_tokens = tokens.1;
    late_chunk_batch_tokens = tokens.2;
  })
