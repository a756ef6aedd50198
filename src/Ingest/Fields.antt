-- ===== src/Ingest/Fields.antt =====
-- `_coerce_llama_parse_tier`, `_coerce_embedding_dim_int` and `_prepare_ingest_embedding_fields` of
-- application/use_cases/ingestion/submit.py
pub mod Laws
use rag_document_processor.Prelude.{
  Bool, true, false, not, Option, none, some, List, [], ◌∷◌, if◌then◌else◌,
}
use rag_document_processor.Prelude.Int.{ℤ}
use rag_document_processor.Prelude.Text.{Text, codes, one_of, nonempty, strip}
use rag_document_processor.Domain.Exceptions.{
  EmbedderKind, openai, jina, Field, Error, invalid_llama_parse_tier, value_error, Result, ok, err,
  ◌>>=◌, ◌>>◌, or_raise,
}
use rag_document_processor.Domain.Exceptions
use rag_document_processor.Options.Choices.{Settings, Overrides, ResolvedOptions}
use rag_document_processor.Options.Coerce.{
  RawInt, is_blank, read_raw, coerce_embedding_pipeline, coerce_macro_splitter,
  coerce_embedder_provider, coerce_embedding_model, coerce_late_chunk_tokens,
}
use rag_document_processor.Options.Resolve.{resolve_ingest_embedding_options}
use rag_document_processor.Dimensions.Validate.{validate_embedding_dimensions}

-- LLAMA_PARSE_TIER_CHOICES of core/config.py
abbrev pub llama_parse_tier_choices : List Text
llama_parse_tier_choices =
    codes "fast" ∷ codes "cost_effective" ∷ codes "agentic" ∷ codes "agentic_plus" ∷ []

abbrev pub check_tier : Text → Result (Option Text)
check_tier [] = ok none
check_tier (c ∷ t) =
    if one_of (c ∷ t) llama_parse_tier_choices
    then ok (some (c ∷ t))
    else err (invalid_llama_parse_tier (c ∷ t))

unfoldable pub coerce_llama_parse_tier : Option Text → Result (Option Text)
coerce_llama_parse_tier none = ok none
coerce_llama_parse_tier (some raw) = check_tier (strip raw)

abbrev pub int_or_raise : Option ℤ → Result (Option ℤ)
int_or_raise none = err (value_error (codes "invalid literal for int()"))
int_or_raise (some z) = ok (some z)

unfoldable pub coerce_embedding_dim_int : Option RawInt → Result (Option ℤ)
coerce_embedding_dim_int raw = if is_blank raw then ok none else int_or_raise (read_raw raw)

-- The optional fields of a request.
pub record RawFields : Type 0 where
  pub llama_parse_tier : Option Text
  pub embedding_dimensions : Option RawInt
  pub embedding_pipeline : Option Text
  pub macro_splitter : Option Text
  pub embedder_provider : Option Text
  pub embedding_model : Option Text
  pub late_chunk_min_tokens : Option RawInt
  pub late_chunk_max_tokens : Option RawInt

-- What `_prepare_ingest_embedding_fields` returns: the overrides and the size that the job stores.
pub record JobFields : Type 0 where
  pub overrides : Overrides
  pub embedding_dimensions : Option ℤ

abbrev pub openai_side : EmbedderKind → Option Text → Option Text
openai_side openai em = em
openai_side jina em = none

abbrev pub jina_side : EmbedderKind → Option Text → Option Text
jina_side openai em = none
jina_side jina em = em

-- The coercions that come first; neither model is overridden yet.
unfoldable pub coerce_overrides : RawFields → Result Overrides
coerce_overrides raw = do
  ep ← coerce_embedding_pipeline raw.embedding_pipeline
  ms ← coerce_macro_splitter raw.macro_splitter
  prov ← coerce_embedder_provider raw.embedder_provider
  lc_min ← coerce_late_chunk_tokens raw.late_chunk_min_tokens Field.late_chunk_min_tokens
  lc_max ← coerce_late_chunk_tokens raw.late_chunk_max_tokens Field.late_chunk_max_tokens
  ok (record {
    embedding_pipeline = ep;
    macro_splitter = ms;
    embedder_provider = prov;
    openai_embedding_model = none;
    jina_embedding_model = none;
    late_chunk_min_tokens = lc_min;
    late_chunk_max_tokens = lc_max;
  })

-- A given model is the override of the side that is active.
unfoldable pub with_model : Overrides → EmbedderKind → Option Text → Overrides
with_model job embedder em = record job {
  openai_embedding_model = openai_side embedder em;
  jina_embedding_model = jina_side embedder em;
}

-- The second resolution, and the check of the output size
unfoldable pub check_size : Settings → Option RawInt → Overrides → Result JobFields
check_size settings raw_dim job = do
  resolved ← resolve_ingest_embedding_options settings job
  dim ← coerce_embedding_dim_int raw_dim
  validate_embedding_dimensions resolved.embedder resolved.openai_embedding_model
      resolved.jina_embedding_model dim
  ok (record { overrides = job; embedding_dimensions = dim })

unfoldable pub prepare_ingest_embedding_fields : Settings → RawFields → Result JobFields
prepare_ingest_embedding_fields settings raw = do
  plain_job ← coerce_overrides raw
  base ← resolve_ingest_embedding_options settings plain_job
  em ← coerce_embedding_model raw.embedding_model Field.embedding_model
  check_size settings raw.embedding_dimensions (with_model plain_job base.embedder em)
