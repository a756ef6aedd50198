-- ===== src/Options/Resolve/Laws.antt =====
-- What `resolve_ingest_embedding_options` returns, and on what it depends.
use rag_document_processor.Prelude.{◌≡◌, refl, true, Option, some, arith}
use rag_document_processor.Prelude.Int.{ℤ, pos, le_ℤ}
use rag_document_processor.Prelude.Text.{Text, text_eq, nonempty, truthy, or_text, strip}
use rag_document_processor.Domain.Exceptions.{EmbedderKind, openai, jina, ok}
use rag_document_processor.Options.Choices.{
  PipelineKind, late_chunking, chunk_then_embed, Settings, Overrides, ResolvedOptions,
  pipeline_name, macro_name, embedder_name, pipeline_of, macro_of,
}
use rag_document_processor.Options.Names.{pipeline_name-pipeline_of, macro_name-macro_of}
use rag_document_processor.Options.Resolve.{
  or_int, is_text, resolve_late_chunk_tokens, late_chunking_embedder, chunk_then_embed_embedder,
  select_embedder, model_name, resolve_ingest_embedding_options,
}

abbrev pub key_of : Settings → EmbedderKind → Option Text
key_of s openai = s.openai_api_key
key_of s jina = s.jina_api_key

-- Late chunking is done by Jina alone.
abbrev pub CanEmbed : PipelineKind → EmbedderKind → Type 0
CanEmbed late_chunking openai = ⊥
CanEmbed late_chunking jina = Unit
CanEmbed chunk_then_embed e = Unit

-- What a job runs with: the overrides over the settings, all of it usable.
pub record IsResolved (s : Settings) (job : Overrides) (r : ResolvedOptions) : Type 0 where
  pub pipeline :
      or_text job.embedding_pipeline s.embedding_pipeline ≡ pipeline_name r.embedding_pipeline
  pub macro : or_text job.macro_splitter s.macro_splitter ≡ macro_name r.macro_splitter
  pub can_embed : CanEmbed r.embedding_pipeline r.embedder
  pub has_key : truthy (key_of s r.embedder) ≡ true
  pub openai_model :
      strip (or_text job.openai_embedding_model s.openai_embedding_model) ≡ r.openai_embedding_model
  pub jina_model :
      strip (or_text job.jina_embedding_model s.jina_embedding_model) ≡ r.jina_embedding_model
  pub openai_model_nonempty : nonempty r.openai_embedding_model ≡ true
  pub jina_model_nonempty : nonempty r.jina_embedding_model ≡ true
  pub min_tokens :
      or_int job.late_chunk_min_tokens s.late_chunk_min_tokens ≡ r.late_chunk_min_tokens
  pub max_tokens :
      or_int job.late_chunk_max_tokens s.late_chunk_max_tokens ≡ r.late_chunk_max_tokens
  pub batch_tokens : s.late_chunk_batch_tokens ≡ r.late_chunk_batch_tokens
  pub min_positive : le_ℤ (pos 1) r.late_chunk_min_tokens ≡ true
  pub min-le-max : le_ℤ r.late_chunk_min_tokens r.late_chunk_max_tokens ≡ true
  pub batch_positive : le_ℤ (pos 1) r.late_chunk_batch_tokens ≡ true

-- The parts of a successful call.
pub record Parts (s : Settings) (job : Overrides) (r : ResolvedOptions) : Type 0 where
  pub pipeline :
      pipeline_of (or_text job.embedding_pipeline s.embedding_pipeline) ≡ some r.embedding_pipeline
  pub macro : macro_of (or_text job.macro_splitter s.macro_splitter) ≡ some r.macro_splitter
  pub openai_model :
      model_name job.openai_embedding_model s.openai_embedding_model ≡ r.openai_embedding_model
  pub jina_model :
      model_name job.jina_embedding_model s.jina_embedding_model ≡ r.jina_embedding_model
  pub openai_model_nonempty : nonempty r.openai_embedding_model ≡ true
  pub jina_model_nonempty : nonempty r.jina_embedding_model ≡ true
  pub tokens :
      resolve_late_chunk_tokens s job.late_chunk_min_tokens job.late_chunk_max_tokens
      ≡ ok (r.late_chunk_min_tokens, r.late_chunk_max_tokens, r.late_chunk_batch_tokens)
  pub embedder : select_embedder r.embedding_pipeline s job.embedder_provider ≡ ok r.embedder

pub resolve-Parts :
    (s : Settings) (job : Overrides) (r : ResolvedOptions)
    → resolve_ingest_embedding_options s job ≡ ok r
    → Parts s job r
unfolding resolve_ingest_embedding_options
resolve-Parts s job r h = ground arith

pub resolve_of_Parts :
    (s : Settings) (job : Overrides) (r : ResolvedOptions)
    → Parts s job r
    → resolve_ingest_embedding_options s job ≡ ok r
unfolding resolve_ingest_embedding_options
resolve_of_Parts s job r p = ground arith

tokens-positive :
    (s : Settings) (job_min job_max : Option ℤ) (lo hi batch : ℤ)
    → resolve_late_chunk_tokens s job_min job_max ≡ ok (lo, hi, batch)
    → (or_int job_min s.late_chunk_min_tokens ≡ lo)
      × (or_int job_max s.late_chunk_max_tokens ≡ hi)
      × (s.late_chunk_batch_tokens ≡ batch)
      × (le_ℤ (pos 1) lo ≡ true)
      × (le_ℤ lo hi ≡ true)
      × (le_ℤ (pos 1) batch ≡ true)
unfolding resolve_late_chunk_tokens
tokens-positive s job_min job_max lo hi batch h = ground arith

select_embedder-CanEmbed :
    (p : PipelineKind) (s : Settings) (provider : Option Text) (e : EmbedderKind)
    → select_embedder p s provider ≡ ok e
    → CanEmbed p e × (truthy (key_of s e) ≡ true)
unfolding select_embedder late_chunking_embedder chunk_then_embed_embedder
select_embedder-CanEmbed late_chunking s provider openai h = absurd (ground arith)
select_embedder-CanEmbed late_chunking s provider jina h = (tt, ground arith)
select_embedder-CanEmbed chunk_then_embed s provider openai h = (tt, ground arith)
select_embedder-CanEmbed chunk_then_embed s provider jina h = (tt, ground arith)

-- The test on the provider, at the name of an embedder.
select_provider :
    (p : PipelineKind) (s : Settings) (e e' : EmbedderKind)
    → select_embedder p s (some (embedder_name e)) ≡ ok e'
    → e' ≡ e
unfolding select_embedder late_chunking_embedder chunk_then_embed_embedder is_text text_eq
select_provider late_chunking s openai e' h = cc
select_provider late_chunking s jina e' h = ground arith
select_provider chunk_then_embed s openai e' h = ground arith
select_provider chunk_then_embed s jina e' h = ground arith

-- What `resolve_ingest_embedding_options` returns is usable: pipeline and splitter are those of the
-- job or of the settings, the embedder can run the pipeline and has a key, both model names are
-- trimmed and not empty, and the token limits are positive with the minimum up to the maximum.
pub resolve-IsResolved :
    (s : Settings) (job : Overrides) (r : ResolvedOptions)
    → resolve_ingest_embedding_options s job ≡ ok r
    → IsResolved s job r
resolve-IsResolved s job r h =
    let p = resolve-Parts s job r h in
    let (lo, hi, batch, a, b, c) =
      tokens-positive s job.late_chunk_min_tokens job.late_chunk_max_tokens r.late_chunk_min_tokens
        r.late_chunk_max_tokens r.late_chunk_batch_tokens p.tokens in
    let (can, key) =
      select_embedder-CanEmbed r.embedding_pipeline s job.embedder_provider r.embedder p.embedder in
    record {
      pipeline = pipeline_name-pipeline_of _ _ p.pipeline;
      macro = macro_name-macro_of _ _ p.macro;
      can_embed = can;
      has_key = key;
      openai_model = unfold model_name in p.openai_model;
      jina_model = unfold model_name in p.jina_model;
      openai_model_nonempty = p.openai_model_nonempty;
      jina_model_nonempty = p.jina_model_nonempty;
      min_tokens = lo;
      max_tokens = hi;
      batch_tokens = batch;
      min_positive = a;
      min-le-max = b;
      batch_positive = c;
    }

-- A provider that the job names is the one that the job gets.
pub resolve_provider :
    (s : Settings) (job : Overrides) (r : ResolvedOptions) (e : EmbedderKind)
    → job.embedder_provider ≡ some (embedder_name e)
    → resolve_ingest_embedding_options s job ≡ ok r
    → r.embedder ≡ e
resolve_provider s job r e asked h =
    select_provider r.embedding_pipeline s e r.embedder
      (rw asked at (resolve-Parts s job r h).embedder)

-- New names for the models change nothing else of what is resolved.
pub resolve_models :
    (s : Settings) (job : Overrides) (r : ResolvedOptions) (om jm : Option Text)
    → resolve_ingest_embedding_options s job ≡ ok r
    → nonempty (model_name om s.openai_embedding_model) ≡ true
    → nonempty (model_name jm s.jina_embedding_model) ≡ true
    → resolve_ingest_embedding_options s
        (record job { openai_embedding_model = om; jina_embedding_model = jm })
      ≡ ok (record r {
        openai_embedding_model = model_name om s.openai_embedding_model;
        jina_embedding_model = model_name jm s.jina_embedding_model;
      })
resolve_models s job r om jm h ho hj =
    let p = resolve-Parts s job r h in
    resolve_of_Parts s _ _ (record {
      pipeline = p.pipeline;
      macro = p.macro;
      openai_model = refl;
      jina_model = refl;
      openai_model_nonempty = ho;
      jina_model_nonempty = hj;
      tokens = p.tokens;
      embedder = p.embedder;
    })
