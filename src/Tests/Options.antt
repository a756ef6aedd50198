-- ===== src/Tests/Options.antt =====
-- Options, sizes and requests on small inputs.
use rag_document_processor.Prelude.{ℕ, ◌≡◌, ◌↔◌, refl, true, Option, none, some, []}
use rag_document_processor.Prelude.Int.{pos, le_ℤ}
use rag_document_processor.Prelude.Text.{codes, strip, contains, ends_with}
use rag_document_processor.Domain.Exceptions.{
  openai, jina, invalid_embedding_dimensions, DimensionsPayload, ok,
}
use rag_document_processor.Api.Catalog.{
  advertised, listed_elsewhere, list_embedding_dimension_constraints, rule_item,
}
use rag_document_processor.Api.Catalog.Laws.{advertised-range}
use rag_document_processor.Options.Resolve.Laws.{IsResolved, resolve-IsResolved}
use rag_document_processor.Options.Resolve.Total.{resolve_total}
use rag_document_processor.Ingest.Fields.Laws.{prepare_model, prepare_valid}
use rag_document_processor.Dimensions.Laws.{Reported, validate_iff, validate_err}
use rag_document_processor.Tests.Fixtures.{
  settings, no_overrides, jina_job, default_options, no_fields,
}
use rag_document_processor.Dimensions.Rules.{
  any_in, first_match, match_openai_rule, match_jina_rule,
}
use rag_document_processor.Dimensions.Validate.{
  active_model, coalesce_embedding_dimensions, matryoshka_dimension_range, mismatch,
  validate_embedding_dimensions,
}
use rag_document_processor.Ingest.Fields.{
  RawFields, JobFields, coerce_llama_parse_tier, coerce_embedding_dim_int, coerce_overrides,
  with_model, check_size, prepare_ingest_embedding_fields,
}
use rag_document_processor.Options.Choices.{
  ResolvedOptions, late_chunking, recursive, pipeline_of, macro_of,
}
use rag_document_processor.Options.Coerce.{
  str, coerce_embedding_pipeline, coerce_macro_splitter, coerce_embedder_provider,
  coerce_embedding_model, coerce_late_chunk_tokens,
}
use rag_document_processor.Options.Resolve.{
  resolve_late_chunk_tokens, is_text, late_chunking_embedder, select_embedder, model_name,
  resolve_ingest_embedding_options,
}
use rag_document_processor.Prelude.Text.{text_eq, one_of, lower}
use rag_document_processor.Domain.Exceptions.{out_of_range}

default_resolves : resolve_ingest_embedding_options settings no_overrides ≡ ok default_options
unfolding pipeline_of macro_of coerce_embedding_pipeline resolve_late_chunk_tokens is_text
    late_chunking_embedder select_embedder model_name resolve_ingest_embedding_options text_eq
default_resolves = refl

jina_resolves : resolve_ingest_embedding_options settings jina_job ≡ ok default_options
unfolding pipeline_of macro_of coerce_embedding_pipeline resolve_late_chunk_tokens is_text
    late_chunking_embedder select_embedder model_name resolve_ingest_embedding_options text_eq
jina_resolves = refl

resolve-IsResolved_example : IsResolved settings no_overrides default_options
resolve-IsResolved_example =
    resolve-IsResolved settings no_overrides default_options default_resolves

resolve_total_example :
    (r : ResolvedOptions) × (resolve_ingest_embedding_options settings jina_job ≡ ok r)
    × (r.embedder ≡ jina)
unfolding strip
resolve_total_example =
    resolve_total settings jina_job late_chunking recursive jina refl refl refl refl refl refl refl
      refl tt refl

abbrev model_fields : RawFields
model_fields = record no_fields {
  embedding_model = some (codes " jina-embeddings-v4 ");
  embedding_dimensions = some (str (codes "256"));
}

abbrev model_stored : JobFields
model_stored = record {
  overrides = record no_overrides { jina_embedding_model = some (codes "jina-embeddings-v4") };
  embedding_dimensions = some (pos 256);
}

model_prepared : prepare_ingest_embedding_fields settings model_fields ≡ ok model_stored
unfolding match_jina_rule matryoshka_dimension_range validate_embedding_dimensions
    coerce_embedding_dim_int coerce_overrides with_model check_size prepare_ingest_embedding_fields
    pipeline_of macro_of coerce_embedding_pipeline coerce_macro_splitter coerce_embedder_provider
    coerce_embedding_model coerce_late_chunk_tokens resolve_late_chunk_tokens is_text
    late_chunking_embedder select_embedder model_name resolve_ingest_embedding_options
model_prepared = refl

prepare_model_example :
    (r : ResolvedOptions) × (resolve_ingest_embedding_options settings model_stored.overrides
      ≡ ok r)
    × (active_model r.embedder r.openai_embedding_model r.jina_embedding_model
        ≡ codes "jina-embeddings-v4")
unfolding coerce_embedding_model one_of lower
prepare_model_example =
    prepare_model settings model_fields model_stored (codes "jina-embeddings-v4") model_prepared
      refl

prepare_valid_example :
    (r : ResolvedOptions) × (resolve_ingest_embedding_options settings model_stored.overrides
      ≡ ok r)
    × (validate_embedding_dimensions r.embedder r.openai_embedding_model r.jina_embedding_model
          (coalesce_embedding_dimensions (some (pos 256)) none)
        ≡ ok tt)
prepare_valid_example = prepare_valid settings model_fields model_stored model_prepared refl

validate_iff_example :
    (validate_embedding_dimensions openai (codes "text-embedding-3-small") [] (some (pos 512))
      ≡ ok tt)
    ↔ ((lo : ℕ) × (hi : ℕ) × (matryoshka_dimension_range openai (codes "text-embedding-3-small") []
          ≡ some (lo, hi))
        × (le_ℤ (pos lo) (pos 512) ≡ true)
        × (le_ℤ (pos 512) (pos hi) ≡ true))
validate_iff_example = validate_iff openai (codes "text-embedding-3-small") [] (pos 512)

abbrev small_range : Option (ℕ × ℕ)
small_range = some (256, 1536)

validate_err_example :
    (p : DimensionsPayload) × (invalid_embedding_dimensions
        (mismatch openai (codes "text-embedding-3-small") (pos 2000) out_of_range small_range)
      ≡ invalid_embedding_dimensions p)
    × (p.active_embedder ≡ openai)
    × (p.embedding_model ≡ strip (codes "text-embedding-3-small"))
    × (p.requested_dimensions ≡ pos 2000)
    × Reported p (matryoshka_dimension_range openai (codes "text-embedding-3-small") [])
unfolding first_match match_openai_rule match_jina_rule matryoshka_dimension_range
    validate_embedding_dimensions coerce_llama_parse_tier coerce_embedding_dim_int coerce_overrides
validate_err_example = validate_err openai (codes "text-embedding-3-small") [] (pos 2000) _ refl

-- The model of OpenAI that the catalogue names, as a client spells it
advertised-range_example :
    advertised (codes " Text-Embedding-3-Small ") list_embedding_dimension_constraints
    ≡ matryoshka_dimension_range openai (codes " Text-Embedding-3-Small ") (codes "x")
unfolding strip lower contains ends_with listed_elsewhere list_embedding_dimension_constraints
    rule_item any_in text_eq
advertised-range_example =
    advertised-range openai (codes " Text-Embedding-3-Small ") (codes "x") refl refl

-- The limits that the catalogue gives for two models
advertised_limits :
    (advertised (codes " Jina-Embeddings-v3 ") list_embedding_dimension_constraints
      ≡ some (32, 1024))
    × (advertised (codes "text-embedding-3-large") list_embedding_dimension_constraints
        ≡ some (256, 3072))
unfolding advertised list_embedding_dimension_constraints rule_item any_in strip lower
advertised_limits = (refl, refl)
