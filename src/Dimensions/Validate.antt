-- ===== src/Dimensions/Validate.antt =====
-- `matryoshka_dimension_range`, `validate_embedding_dimensions` and
-- `coalesce_embedding_dimensions` of core/embedding_dimensions.py
use rag_document_processor.Prelude.{ℕ, ◌||◌, Option, none, some, if◌then◌else◌}
use rag_document_processor.Prelude.Int.{ℤ, pos, lt_ℤ}
use rag_document_processor.Prelude.Text.{Text, one_of, strip, lower}
use rag_document_processor.Domain.Exceptions.{
  EmbedderKind, openai, jina, DimensionsReason, placeholder_model_id,
  model_does_not_support_custom_dimensions, out_of_range, DimensionsPayload,
  invalid_embedding_dimensions, Result, ok, err,
}
use rag_document_processor.Options.Choices.{schema_placeholder_model_names}
use rag_document_processor.Dimensions.Rules.{Rule, match_openai_rule, match_jina_rule}

abbrev pub rule_range : Option Rule → Option (ℕ × ℕ)
rule_range none = none
rule_range (some r) = some (r.min_dim, r.max_dim)

unfoldable pub matryoshka_dimension_range : EmbedderKind → Text → Text → Option (ℕ × ℕ)
matryoshka_dimension_range openai openai_model jina_model =
    rule_range (match_openai_rule openai_model)
matryoshka_dimension_range jina openai_model jina_model = rule_range (match_jina_rule jina_model)

-- `(openai_embedding_model if embedder == "openai" else jina_embedding_model)`
abbrev pub active_model : EmbedderKind → Text → Text → Text
active_model openai openai_model jina_model = openai_model
active_model jina openai_model jina_model = jina_model

-- The payload: `_dimension_mismatch_base` and the three fields of the call.
unfoldable pub mismatch :
    EmbedderKind → Text → ℤ → DimensionsReason → Option (ℕ × ℕ) → DimensionsPayload
mismatch embedder model dim reason none = record {
  active_embedder = embedder;
  embedding_model = model;
  requested_dimensions = dim;
  reason = reason;
  allowed_dimensions_min = none;
  allowed_dimensions_max = none;
}
mismatch embedder model dim reason (some (lo, hi)) = record {
  active_embedder = embedder;
  embedding_model = model;
  requested_dimensions = dim;
  reason = reason;
  allowed_dimensions_min = some (pos lo);
  allowed_dimensions_max = some (pos hi);
}

-- The checks on a given size, once the range of the model is known.
unfoldable pub check_dimension : EmbedderKind → Text → ℤ → Option (ℕ × ℕ) → Result (Unit {0})
unfolding mismatch one_of lower
check_dimension embedder model dim none =
    if one_of (lower model) schema_placeholder_model_names
    then err (invalid_embedding_dimensions (mismatch embedder model dim placeholder_model_id none))
    else err (
        invalid_embedding_dimensions
          (mismatch embedder model dim model_does_not_support_custom_dimensions none))
check_dimension embedder model dim (some (lo, hi)) =
    if lt_ℤ dim (pos lo) || lt_ℤ (pos hi) dim
    then err
        (invalid_embedding_dimensions (mismatch embedder model dim out_of_range (some (lo, hi))))
    else ok tt

unfoldable pub validate_embedding_dimensions :
    EmbedderKind → Text → Text → Option ℤ → Result (Unit {0})
unfolding check_dimension
validate_embedding_dimensions embedder openai_model jina_model none = ok tt
validate_embedding_dimensions embedder openai_model jina_model (some dim) =
    check_dimension embedder (strip (active_model embedder openai_model jina_model)) dim
      (matryoshka_dimension_range embedder openai_model jina_model)

abbrev pub coalesce_embedding_dimensions : Option ℤ → Option ℤ → Option ℤ
coalesce_embedding_dimensions none env_default = env_default
coalesce_embedding_dimensions (some z) env_default = some z
