-- ===== src/Api/Laws.antt =====
-- Which errors a request can run into.
use rag_document_processor.Prelude.{
  ℕ, refl, Bool, Option, none, some, [], ◌∷◌, if◌then◌else◌, is_some, ltb, length,
}
use rag_document_processor.Prelude.Int.{ℤ}
use rag_document_processor.Prelude.Text.{Text, strip, one_of, lower}
use rag_document_processor.Domain.Exceptions.{
  EmbedderKind, Field, OptionsProblem, model_too_long, placeholder_model, bad_pipeline, bad_macro,
  bad_provider, ok, err,
}
use rag_document_processor.Options.Choices.{
  Settings, Overrides, pipeline_of, macro_of, embedder_of, schema_placeholder_model_names,
}
use rag_document_processor.Options.Coerce.{
  invalid, norm_opt_str, coerce_name, coerce_embedding_pipeline, coerce_macro_splitter,
  coerce_embedder_provider, check_model, model_max_len, coerce_embedding_model, is_blank,
  int_of_raw, coerce_late_chunk_tokens,
}
use rag_document_processor.Dimensions.Validate.{
  matryoshka_dimension_range, active_model, check_dimension, validate_embedding_dimensions,
}
use rag_document_processor.Ingest.Fields.{
  check_tier, coerce_llama_parse_tier, coerce_embedding_dim_int, coerce_overrides, with_model,
  check_size, prepare_ingest_embedding_fields,
}
use rag_document_processor.Ingest.Submit.{check_fields}
use rag_document_processor.Api.{error_reply}
use rag_document_processor.Api.Requests.{RequestFields, raw_int, raw_fields}
use rag_document_processor.Api.Checks.{Checks, passes, fails, Checks->>=, Checks-if, resolve-Checks}

coerce_name-Checks :
    (known : Text → Bool) (problem : Text → OptionsProblem) (o : Option Text)
    → Checks (coerce_name known problem o)
unfolding error_reply
coerce_name-Checks known problem none = passes
coerce_name-Checks known problem (some s) = Checks-if (known _) _ _ passes (fails refl)

check_model-Checks : (field : Field) (o : Option Text) → Checks (check_model field o)
unfolding error_reply
check_model-Checks field none = passes
check_model-Checks field (some s) =
    Checks-if (ltb model_max_len (length s)) (err (invalid (model_too_long field)))
      (if one_of (lower s) schema_placeholder_model_names
        then err (invalid (placeholder_model field s))
        else ok (some s))
      (fails refl)
      (Checks-if (one_of (lower s) schema_placeholder_model_names)
        (err (invalid (placeholder_model field s))) (ok (some s)) (fails refl) passes)

coerce_late_chunk_tokens-Checks :
    (o : Option ℤ) (field : Field) → Checks (coerce_late_chunk_tokens (raw_int o) field)
unfolding error_reply coerce_late_chunk_tokens is_blank int_of_raw
coerce_late_chunk_tokens-Checks none field = passes
coerce_late_chunk_tokens-Checks (some z) field = Checks-if _ _ _ (fails refl) passes

coerce_embedding_dim_int-Checks : (o : Option ℤ) → Checks (coerce_embedding_dim_int (raw_int o))
unfolding error_reply coerce_embedding_dim_int is_blank int_of_raw
coerce_embedding_dim_int-Checks none = passes
coerce_embedding_dim_int-Checks (some z) = passes

check_tier-Checks : (t : Text) → Checks (check_tier t)
unfolding error_reply
check_tier-Checks [] = passes
check_tier-Checks (c ∷ t) = Checks-if _ _ _ passes (fails refl)

coerce_llama_parse_tier-Checks : (o : Option Text) → Checks (coerce_llama_parse_tier o)
unfolding coerce_llama_parse_tier
coerce_llama_parse_tier-Checks none = passes
coerce_llama_parse_tier-Checks (some raw) = check_tier-Checks (strip raw)

check_dimension-Checks :
    (embedder : EmbedderKind) (model : Text) (dim : ℤ) (range : Option (ℕ × ℕ))
    → Checks (check_dimension embedder model dim range)
unfolding error_reply check_dimension
check_dimension-Checks embedder model dim none = Checks-if _ _ _ (fails refl) (fails refl)
check_dimension-Checks embedder model dim (some (lo, hi)) = Checks-if _ _ _ (fails refl) passes

validate-Checks :
    (embedder : EmbedderKind) (openai_model jina_model : Text) (dims : Option ℤ)
    → Checks (validate_embedding_dimensions embedder openai_model jina_model dims)
unfolding validate_embedding_dimensions
validate-Checks embedder openai_model jina_model none = passes
validate-Checks embedder openai_model jina_model (some dim) =
    check_dimension-Checks embedder (strip (active_model embedder openai_model jina_model)) dim
      (matryoshka_dimension_range embedder openai_model jina_model)

coerce_overrides-Checks :
    (body : RequestFields) (tier : Option Text) → Checks (coerce_overrides (raw_fields body tier))
unfolding coerce_overrides coerce_embedding_pipeline coerce_macro_splitter coerce_embedder_provider
coerce_overrides-Checks body tier =
    Checks->>= (coerce_embedding_pipeline body.embedding_pipeline) _
      (coerce_name-Checks (λ s. is_some (pipeline_of s)) bad_pipeline
        (norm_opt_str body.embedding_pipeline))
      (λ ep.
        Checks->>= (coerce_macro_splitter body.macro_splitter) _
          (coerce_name-Checks (λ s. is_some (macro_of s)) bad_macro
            (norm_opt_str body.macro_splitter))
          (λ ms.
            Checks->>= (coerce_embedder_provider body.embedder_provider) _
              (coerce_name-Checks (λ s. is_some (embedder_of s)) bad_provider
                (norm_opt_str body.embedder_provider))
              (λ prov.
                Checks->>= _ _
                  (coerce_late_chunk_tokens-Checks body.late_chunk_min_tokens
                    Field.late_chunk_min_tokens)
                  (λ lo.
                    Checks->>= _ _
                      (coerce_late_chunk_tokens-Checks body.late_chunk_max_tokens
                        Field.late_chunk_max_tokens)
                      (λ hi. passes)))))

check_size-Checks :
    (settings : Settings) (dim : Option ℤ) (job : Overrides)
    → Checks (check_size settings (raw_int dim) job)
unfolding check_size
check_size-Checks settings dim job = Checks->>= _ _ (resolve-Checks settings job) (λ resolved.
    Checks->>= _ _ (coerce_embedding_dim_int-Checks dim) (λ d.
      Checks->>= _ _
        (validate-Checks resolved.embedder resolved.openai_embedding_model
          resolved.jina_embedding_model d)
        (λ u. passes)))

-- Whatever the settings and the fields, where the integers are integers: a field that the use cases
-- refuse is answered with a 422, never with a 500.
pub check_fields-Checks :
    (settings : Settings) (body : RequestFields) (tier : Option Text)
    → Checks (check_fields settings (raw_fields body tier))
unfolding check_fields prepare_ingest_embedding_fields coerce_embedding_model
check_fields-Checks settings body tier = Checks->>= _ _ (coerce_llama_parse_tier-Checks tier) (λ t.
    Checks->>= (prepare_ingest_embedding_fields settings (raw_fields body tier)) _
      (Checks->>= _ _ (coerce_overrides-Checks body tier) (λ job.
        Checks->>= _ _ (resolve-Checks settings job) (λ base.
          Checks->>= _ _
            (check_model-Checks Field.embedding_model (norm_opt_str body.embedding_model))
            (λ em.
              check_size-Checks settings body.embedding_dimensions
                (with_model job base.embedder em)))))
      (λ fields. passes))
