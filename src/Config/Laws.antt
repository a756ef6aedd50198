-- ===== src/Config/Laws.antt =====
-- What settings that are accepted at start-up promise to later requests.
use rag_document_processor.Prelude.{◌≡◌, refl, sym, Bool, true, false, none, if◌then◌else◌}
use mathlib.Core.Path.{subst}
use rag_document_processor.Prelude.Text.{codes, truthy}
use rag_document_processor.Domain.Exceptions.{
  EmbedderKind, openai, jina, Error, Result, ok, ◌>>=◌, ◌>>◌, guard, >>=-eq-ok, value_error,
}
use rag_document_processor.Options.Choices.{Settings, ResolvedOptions}
use rag_document_processor.Options.Coerce.{
  norm_opt_str, coerce_embedding_pipeline, coerce_macro_splitter, coerce_embedder_provider,
  coerce_embedding_model, coerce_late_chunk_tokens, is_blank,
}
use rag_document_processor.Options.Resolve.{resolve_ingest_embedding_options}
use rag_document_processor.Dimensions.Validate.{
  validate_embedding_dimensions, coalesce_embedding_dimensions,
}
use rag_document_processor.Ingest.Fields.{
  RawFields, JobFields, coerce_overrides, coerce_embedding_dim_int, with_model, check_size,
  prepare_ingest_embedding_fields,
}
use rag_document_processor.Config.{no_job, is_dev, fill_dev, fill_flags, dev_defaults}

-- A request that leaves every field out.
abbrev pub no_request : RawFields
no_request = record {
  llama_parse_tier = none;
  embedding_dimensions = none;
  embedding_pipeline = none;
  macro_splitter = none;
  embedder_provider = none;
  embedding_model = none;
  late_chunk_min_tokens = none;
  late_chunk_max_tokens = none;
}

abbrev pub no_job_fields : JobFields
no_job_fields = record { overrides = no_job; embedding_dimensions = none }

-- Both secrets are there, and the options and the size of a job that overrides nothing are valid.
abbrev pub Ready : Settings → Type 0
Ready s =
    (truthy s.database_url ≡ true)
    × (truthy s.api_key_admin_secret ≡ true)
    × ((resolved : ResolvedOptions) × (resolve_ingest_embedding_options s no_job ≡ ok resolved)
        × (validate_embedding_dimensions resolved.embedder resolved.openai_embedding_model
              resolved.jina_embedding_model
              (coalesce_embedding_dimensions none s.embedding_dimensions)
            ≡ ok tt))

guarded {ℓ} :
    {B : Type ℓ} (b : Bool) (e : Error) (next : Result B) (y : B)
    → guard b e >> next ≡ ok y
    → (b ≡ true) × (next ≡ ok y)
guarded true e next y h = (refl, h)
guarded false e next y h = cc

ok_inj : {s t : Settings} → ok t ≡ ok s → s ≡ t
ok_inj h = cc

check-Ready :
    (filled ready s : Settings)
    → ready.database_url ≡ filled.database_url
    → ready.api_key_admin_secret ≡ filled.api_key_admin_secret
    → (guard
          (truthy filled.database_url)
          (value_error (codes "DATABASE_URL is required outside dev/test environments"))
        >> (guard
              (truthy filled.api_key_admin_secret)
              (value_error (codes "API_KEY_ADMIN_SECRET is required outside dev/test environments"))
            >> (resolve_ingest_embedding_options ready no_job >>= λ (resolved : ResolvedOptions).
                validate_embedding_dimensions resolved.embedder resolved.openai_embedding_model
                  resolved.jina_embedding_model ready.embedding_dimensions
                >> ok ready)))
      ≡ ok s
    → (s ≡ ready) × Ready s
check-Ready filled ready s url secret h =
    let checks = λ (resolved : ResolvedOptions).
      validate_embedding_dimensions resolved.embedder resolved.openai_embedding_model
        resolved.jina_embedding_model ready.embedding_dimensions
      >> ok ready in
    let (has_url, h1) =
      guarded (truthy filled.database_url)
        (value_error (codes "DATABASE_URL is required outside dev/test environments"))
        (guard (truthy filled.api_key_admin_secret)
            (value_error (codes "API_KEY_ADMIN_SECRET is required outside dev/test environments"))
          >> (resolve_ingest_embedding_options ready no_job >>= checks))
        s h in
    let (has_secret, h2) =
      guarded (truthy filled.api_key_admin_secret)
        (value_error (codes "API_KEY_ADMIN_SECRET is required outside dev/test environments"))
        (resolve_ingest_embedding_options ready no_job >>= checks) s h1 in
    let (resolved, resolves, h3) =
      >>=-eq-ok (resolve_ingest_embedding_options ready no_job) checks h2 in
    let (u, valid, h4) =
      >>=-eq-ok
        (validate_embedding_dimensions resolved.embedder resolved.openai_embedding_model
          resolved.jina_embedding_model ready.embedding_dimensions)
        (λ (_ : Unit {0}). ok ready) h3 in
    let same : s ≡ ready = ok_inj h4 in
    (
      same,
      subst Ready (sym same) (rw url has_url, rw secret has_secret, (resolved, resolves, valid)),
    )

with_model-none : (embedder : EmbedderKind) → with_model no_job embedder none ≡ no_job
unfolding with_model
with_model-none openai = refl
with_model-none jina = refl

prepare-no_request :
    (s : Settings) (resolved : ResolvedOptions)
    → resolve_ingest_embedding_options s no_job ≡ ok resolved
    → prepare_ingest_embedding_fields s no_request ≡ ok no_job_fields
unfolding prepare_ingest_embedding_fields coerce_overrides coerce_embedding_pipeline
    coerce_macro_splitter coerce_embedder_provider coerce_embedding_model coerce_late_chunk_tokens
    norm_opt_str is_blank with_model check_size coerce_embedding_dim_int
    validate_embedding_dimensions
prepare-no_request s resolved h = rw h (rw (with_model-none resolved.embedder) (rw h refl))

-- Settings that the start-up accepts have a database and a secret of the administrator, and from then
-- on a request that leaves every field out is accepted: its options resolve, and the default size
-- that its job falls back on is valid for the model that its job runs with.
pub dev_defaults-Ready :
    (migrate_set create_set : Bool) (given s : Settings)
    → dev_defaults migrate_set create_set given ≡ ok s
    → Ready s × (prepare_ingest_embedding_fields s no_request ≡ ok no_job_fields)
unfolding dev_defaults fill_flags
dev_defaults-Ready migrate_set create_set given s h =
    let filled = if is_dev given then fill_dev given else given in
    let (same, (url, secret, (resolved, resolves, valid))) =
      check-Ready filled (fill_flags migrate_set create_set filled) s refl refl h in
    ((url, secret, (resolved, resolves, valid)), prepare-no_request s resolved resolves)
