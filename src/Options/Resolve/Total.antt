-- ===== src/Options/Resolve/Total.antt =====
-- When `resolve_ingest_embedding_options` returns.
use rag_document_processor.Prelude.{◌≡◌, refl, true, Option, some}
use rag_document_processor.Prelude.Int.{ℤ, pos, le_ℤ, le_ℤ_trans}
use rag_document_processor.Prelude.Text.{text_eq, nonempty, truthy, or_text, strip}
use rag_document_processor.Domain.Exceptions.{EmbedderKind, openai, jina, ok}
use rag_document_processor.Options.Choices.{
  PipelineKind, late_chunking, chunk_then_embed, MacroKind, Settings, Overrides, ResolvedOptions,
  pipeline_name, macro_name, embedder_name,
}
use rag_document_processor.Options.Names.{pipeline_of-pipeline_name, macro_of-macro_name}
use rag_document_processor.Options.Resolve.{
  or_int, is_text, resolve_late_chunk_tokens, late_chunking_embedder, chunk_then_embed_embedder,
  select_embedder, model_name, resolve_ingest_embedding_options,
}
use rag_document_processor.Options.Resolve.Laws.{key_of, CanEmbed, resolve_of_Parts}

select_provider_total :
    (p : PipelineKind) (s : Settings) (e : EmbedderKind)
    → CanEmbed p e
    → truthy (key_of s e) ≡ true
    → select_embedder p s (some (embedder_name e)) ≡ ok e
unfolding select_embedder late_chunking_embedder chunk_then_embed_embedder is_text text_eq
select_provider_total late_chunking s openai can key = absurd can
select_provider_total late_chunking s jina can key = rw key
select_provider_total chunk_then_embed s openai can key = rw key
select_provider_total chunk_then_embed s jina can key = rw key

tokens_total :
    (s : Settings) (job_min job_max : Option ℤ)
    → le_ℤ (pos 1) (or_int job_min s.late_chunk_min_tokens) ≡ true
    → le_ℤ (or_int job_min s.late_chunk_min_tokens) (or_int job_max s.late_chunk_max_tokens) ≡ true
    → le_ℤ (pos 1) s.late_chunk_batch_tokens ≡ true
    → resolve_late_chunk_tokens s job_min job_max
      ≡ ok (
        or_int job_min s.late_chunk_min_tokens,
        or_int job_max s.late_chunk_max_tokens,
        s.late_chunk_batch_tokens,
      )
unfolding resolve_late_chunk_tokens
tokens_total s job_min job_max a b c =
    let d =
      le_ℤ_trans (pos 1) (or_int job_min s.late_chunk_min_tokens)
        (or_int job_max s.late_chunk_max_tokens) a b in
    rw (a, d, c, b)

-- If the pipeline and the splitter are known names, both model names have a code point that is no
-- space, the limits are positive with the minimum up to the maximum, and the provider that the
-- job names can run the pipeline and has a key, then the job's options are resolved.
pub resolve_total :
    (s : Settings) (job : Overrides) (p : PipelineKind) (m : MacroKind) (e : EmbedderKind)
    → or_text job.embedding_pipeline s.embedding_pipeline ≡ pipeline_name p
    → or_text job.macro_splitter s.macro_splitter ≡ macro_name m
    → nonempty (strip (or_text job.openai_embedding_model s.openai_embedding_model)) ≡ true
    → nonempty (strip (or_text job.jina_embedding_model s.jina_embedding_model)) ≡ true
    → le_ℤ (pos 1) (or_int job.late_chunk_min_tokens s.late_chunk_min_tokens) ≡ true
    → le_ℤ
        (or_int job.late_chunk_min_tokens s.late_chunk_min_tokens)
        (or_int job.late_chunk_max_tokens s.late_chunk_max_tokens)
      ≡ true
    → le_ℤ (pos 1) s.late_chunk_batch_tokens ≡ true
    → job.embedder_provider ≡ some (embedder_name e)
    → CanEmbed p e
    → truthy (key_of s e) ≡ true
    → (r : ResolvedOptions) × (resolve_ingest_embedding_options s job ≡ ok r) × (r.embedder ≡ e)
resolve_total s job p m e hp hm ho hj a b c asked can key = (
  resolved,
  resolve_of_Parts s job resolved (record {
    pipeline = rw hp (pipeline_of-pipeline_name p);
    macro = rw hm (macro_of-macro_name m);
    openai_model = unfold model_name in refl;
    jina_model = unfold model_name in refl;
    openai_model_nonempty = ho;
    jina_model_nonempty = hj;
    tokens = tokens_total s job.late_chunk_min_tokens job.late_chunk_max_tokens a b c;
    embedder = rw asked (select_provider_total p s e can key);
  }),
  refl,
)
  where
    resolved : ResolvedOptions
    resolved = record {
      embedding_pipeline = p;
      macro_splitter = m;
      embedder = e;
      openai_embedding_model = strip (or_text job.openai_embedding_model s.openai_embedding_model);
      jina_embedding_model = strip (or_text job.jina_embedding_model s.jina_embedding_model);
      late_chunk_min_tokens = or_int job.late_chunk_min_tokens s.late_chunk_min_tokens;
      late_chunk_max_tokens = or_int job.late_chunk_max_tokens s.late_chunk_max_tokens;
      late_chunk_batch_tokens = s.late_chunk_batch_tokens;
    }
