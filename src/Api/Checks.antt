-- ===== src/Api/Checks.antt =====
-- The errors that the resolution of the options can run into.
use rag_document_processor.Prelude.{
  ◌≡◌, refl, Bool, true, false, not, ◌||◌, Option, none, some, if◌then◌else◌,
}
use rag_document_processor.Prelude.Int.{ℤ, pos, lt_ℤ}
use rag_document_processor.Prelude.Text.{Text, truthy, nonempty, or_text}
use rag_document_processor.Domain.Exceptions.{
  EmbedderKind, openai, jina, OptionsProblem, late_chunking_needs_jina, late_chunking_key_missing,
  openai_key_missing, jina_key_missing, both_keys_missing, pipeline_not_allowed, macro_not_allowed,
  empty_openai_model, empty_jina_model, limits_not_positive, min_exceeds_max, Error, Result, ok,
  err, ◌>>=◌, guard, or_raise,
}
use rag_document_processor.Options.Choices.{
  PipelineKind, late_chunking, chunk_then_embed, Settings, Overrides, pipeline_of, macro_of,
  embedder_name,
}
use rag_document_processor.Options.Coerce.{invalid}
use rag_document_processor.Options.Resolve.{
  resolve_late_chunk_tokens, or_int, model_name, is_text, late_chunking_embedder,
  chunk_then_embed_embedder, select_embedder, resolve_ingest_embedding_options,
}
use rag_document_processor.Api.{error_reply}

-- What fails is answered with a 422.
pub data Checks {ℓ} {A : Type ℓ} : Result A → Type ℓ where
  passes : {a : A} → Checks (ok a)
  fails : {e : Error} → (error_reply e).status ≡ 422 → Checks (err e)

module _ {ℓ κ} {A : Type ℓ} {B : Type κ} where
  pub Checks->>= :
      (m : Result A) (f : A → Result B) → Checks m → ((a : A) → Checks (f a)) → Checks (m >>= f)
  Checks->>= (ok a) f h k = k a
  Checks->>= (err e) f (fails h) k = fails h

Checks-guard : (b : Bool) (p : OptionsProblem) → Checks (guard b (invalid p))
unfolding error_reply
Checks-guard true p = passes
Checks-guard false p = fails refl

Checks-or_raise : {A : Type 0} (o : Option A) (p : OptionsProblem) → Checks (or_raise o (invalid p))
unfolding error_reply
Checks-or_raise none p = fails refl
Checks-or_raise (some a) p = passes

pub Checks-if :
    {A : Type 0} (b : Bool) (x y : Result A) → Checks x → Checks y → Checks (if b then x else y)
Checks-if true x y h k = h
Checks-if false x y h k = k

late_chunking_embedder-Checks :
    (settings : Settings) (provider : Option Text)
    → Checks (late_chunking_embedder settings provider)
unfolding error_reply late_chunking_embedder
late_chunking_embedder-Checks settings provider =
    Checks-if (is_text provider (embedder_name openai)) (err (invalid late_chunking_needs_jina)) _
      (fails refl)
      (Checks-if (not (truthy settings.jina_api_key)) (err (invalid late_chunking_key_missing))
        (ok jina) (fails refl) passes)

key_or :
    (kind : EmbedderKind) (key : Option Text) (p : OptionsProblem)
    → Checks (if truthy key then ok kind else err (invalid p))
unfolding error_reply
key_or kind key p = Checks-if (truthy key) (ok kind) (err (invalid p)) passes (fails refl)

chunk_then_embed_embedder-Checks :
    (settings : Settings) (provider : Option Text)
    → Checks (chunk_then_embed_embedder settings provider)
unfolding error_reply chunk_then_embed_embedder
chunk_then_embed_embedder-Checks settings provider =
    Checks-if (is_text provider (embedder_name openai)) _ _
      (key_or openai settings.openai_api_key openai_key_missing)
      (Checks-if (is_text provider (embedder_name jina)) _ _
        (key_or jina settings.jina_api_key jina_key_missing)
        (Checks-if (truthy settings.openai_api_key) (ok openai) _ passes
          (key_or jina settings.jina_api_key both_keys_missing)))

select_embedder-Checks :
    (kind : PipelineKind) (settings : Settings) (provider : Option Text)
    → Checks (select_embedder kind settings provider)
unfolding select_embedder
select_embedder-Checks late_chunking settings provider =
    late_chunking_embedder-Checks settings provider
select_embedder-Checks chunk_then_embed settings provider =
    chunk_then_embed_embedder-Checks settings provider

resolve_late_chunk_tokens-Checks :
    (settings : Settings) (lo hi : Option ℤ) → Checks (resolve_late_chunk_tokens settings lo hi)
unfolding error_reply resolve_late_chunk_tokens
resolve_late_chunk_tokens-Checks settings lo hi =
    let lc_min = or_int lo settings.late_chunk_min_tokens in
    let lc_max = or_int hi settings.late_chunk_max_tokens in
    let lc_batch = settings.late_chunk_batch_tokens in
    Checks-if (lt_ℤ lc_min (pos 1) || lt_ℤ lc_max (pos 1) || lt_ℤ lc_batch (pos 1))
      (err (invalid limits_not_positive))
      (if lt_ℤ lc_max lc_min
        then err (invalid (min_exceeds_max lc_min lc_max))
        else ok (lc_min, lc_max, lc_batch))
      (fails refl)
      (Checks-if (lt_ℤ lc_max lc_min) (err (invalid (min_exceeds_max lc_min lc_max)))
        (ok (lc_min, lc_max, lc_batch)) (fails refl) passes)

pub resolve-Checks :
    (settings : Settings) (job : Overrides) → Checks (resolve_ingest_embedding_options settings job)
unfolding resolve_ingest_embedding_options
resolve-Checks settings job =
    let openai_model = model_name job.openai_embedding_model settings.openai_embedding_model in
    let jina_model = model_name job.jina_embedding_model settings.jina_embedding_model in
    Checks->>=
      (or_raise (pipeline_of (or_text job.embedding_pipeline settings.embedding_pipeline))
        (invalid pipeline_not_allowed))
      _ (Checks-or_raise _ _)
      (λ pipeline.
        Checks->>=
          (or_raise (macro_of (or_text job.macro_splitter settings.macro_splitter))
            (invalid macro_not_allowed))
          _ (Checks-or_raise _ _)
          (λ macro.
            Checks->>= (guard (nonempty openai_model) (invalid empty_openai_model)) _
              (Checks-guard _ _)
              (λ u.
                Checks->>= (guard (nonempty jina_model) (invalid empty_jina_model)) _
                  (Checks-guard _ _)
                  (λ v.
                    Checks->>= _ _
                      (resolve_late_chunk_tokens-Checks settings job.late_chunk_min_tokens
                        job.late_chunk_max_tokens)
                      (λ tokens.
                        Checks->>= _ _
                          (select_embedder-Checks pipeline settings job.embedder_provider)
                          (λ embedder. passes))))))
