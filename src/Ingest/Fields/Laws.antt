-- ===== src/Ingest/Fields/Laws.antt =====
-- What an accepted request stores is what the worker can run.
use rag_document_processor.Prelude.{
  ◌≡◌, refl, sym, ap, ◌∙◌, true, Option, none, some, [], ◌∷◌, arith, inl, inr,
}
use rag_document_processor.Prelude.Text.{Text, strip, nonempty}
use rag_document_processor.Domain.Exceptions.{
  EmbedderKind, openai, jina, Field, ok, >>=-eq-ok, Result-cases,
}
use rag_document_processor.Options.Choices.{Settings, Overrides, ResolvedOptions}
use rag_document_processor.Prelude.Text.Laws.{strip-strip}
use mathlib.Core.Path.{subst}
use rag_document_processor.Options.Coerce.{
  RawInt, norm_opt_str, some_text, check_model, coerce_embedding_model,
}
use rag_document_processor.Options.Resolve.{model_name, resolve_ingest_embedding_options}
use rag_document_processor.Options.Resolve.Laws.{resolve-Parts, resolve_models}
use rag_document_processor.Dimensions.Validate.{
  validate_embedding_dimensions, active_model, coalesce_embedding_dimensions,
}
use rag_document_processor.Ingest.Fields.{
  RawFields, JobFields, openai_side, jina_side, coerce_embedding_dim_int, coerce_overrides,
  with_model, check_size, prepare_ingest_embedding_fields,
}

-- The parts of an accepted request.
pub record Accepted (s : Settings) (raw : RawFields) (fields : JobFields) : Type 0 where
  pub plain_job : Overrides
  pub base : ResolvedOptions
  pub model : Option Text
  pub coerced : coerce_overrides raw ≡ ok plain_job
  pub based : resolve_ingest_embedding_options s plain_job ≡ ok base
  pub model_coerced : coerce_embedding_model raw.embedding_model Field.embedding_model ≡ ok model
  pub checked :
      check_size s raw.embedding_dimensions (with_model plain_job base.embedder model) ≡ ok fields

pub prepare-Accepted :
    (s : Settings) (raw : RawFields) (fields : JobFields)
    → prepare_ingest_embedding_fields s raw ≡ ok fields
    → Accepted s raw fields
unfolding prepare_ingest_embedding_fields
prepare-Accepted s raw fields h =
    let (job, e1, h1) = >>=-eq-ok (coerce_overrides raw) _ h in
    let (base, e2, h2) = >>=-eq-ok (resolve_ingest_embedding_options s job) _ h1 in
    let (em, e3, h3) =
      >>=-eq-ok (coerce_embedding_model raw.embedding_model Field.embedding_model) _ h2 in
    record {
      plain_job = job;
      base = base;
      model = em;
      coerced = e1;
      based = e2;
      model_coerced = e3;
      checked = h3;
    }

pub record Checked (s : Settings) (raw_dim : Option RawInt) (job : Overrides) (fields : JobFields)
    : Type 0 where
  pub resolved : ResolvedOptions
  pub resolves : resolve_ingest_embedding_options s job ≡ ok resolved
  pub size_coerced : coerce_embedding_dim_int raw_dim ≡ ok fields.embedding_dimensions
  pub same_job : fields.overrides ≡ job
  pub valid :
      validate_embedding_dimensions resolved.embedder resolved.openai_embedding_model
        resolved.jina_embedding_model fields.embedding_dimensions
      ≡ ok tt

check_size-Checked :
    (s : Settings) (raw_dim : Option RawInt) (job : Overrides) (fields : JobFields)
    → check_size s raw_dim job ≡ ok fields
    → Checked s raw_dim job fields
unfolding check_size
check_size-Checked s raw_dim job fields h =
    elim (Result-cases (resolve_ingest_embedding_options s job)) [
      | inr (e, re) ↦ absurd (ground arith)
      | inl (r, re) ↦ record {
        resolved = r;
        resolves = re;
        size_coerced = ground arith;
        same_job = ground arith;
        valid = ground arith;
      }
    ]

-- A request that is accepted is stored with overrides that resolve, and a size that the resolved
-- model takes.
pub prepare-Checked :
    (s : Settings) (raw : RawFields) (fields : JobFields)
    → prepare_ingest_embedding_fields s raw ≡ ok fields
    → Checked s raw.embedding_dimensions fields.overrides fields
prepare-Checked s raw fields h =
    let a = prepare-Accepted s raw fields h in
    let c =
      check_size-Checked s raw.embedding_dimensions (with_model a.plain_job a.base.embedder a.model)
        fields a.checked in
    subst (λ job. Checked s raw.embedding_dimensions job fields) (sym c.same_job) c

some_text-strip :
    (v em : Text) → some_text (strip v) ≡ some em → (strip em ≡ em) × (nonempty em ≡ true)
some_text-strip v em h = go (strip v) (strip-strip v) h
  where
    go : (t : Text) → strip t ≡ t → some_text t ≡ some em → (strip em ≡ em) × (nonempty em ≡ true)
    go [] e k = cc
    go (c ∷ t) e k = (cc, cc)

check_model-eq :
    (field : Field) (o : Option Text) (em : Text) → check_model field o ≡ ok (some em) → o ≡ some em
check_model-eq field none em h = cc
check_model-eq field (some s) em h = ground arith

-- A model that passes is trimmed and not empty.
coerce_embedding_model-strip :
    (raw : Option Text) (field : Field) (em : Text)
    → coerce_embedding_model raw field ≡ ok (some em)
    → (strip em ≡ em) × (nonempty em ≡ true)
unfolding coerce_embedding_model
coerce_embedding_model-strip none field em h = cc
coerce_embedding_model-strip (some v) field em h =
    some_text-strip v em (unfold norm_opt_str in check_model-eq field (some_text (strip v)) em h)

coerce_overrides-models :
    (raw : RawFields) (job : Overrides)
    → coerce_overrides raw ≡ ok job
    → (job.openai_embedding_model ≡ none) × (job.jina_embedding_model ≡ none)
unfolding coerce_overrides
coerce_overrides-models raw job h = (ground arith, ground arith)

model_name-some :
    (em setting : Text) → strip em ≡ em → nonempty em ≡ true → model_name (some em) setting ≡ em
unfolding model_name
model_name-some [] setting e h = cc
model_name-some (c ∷ em) setting e h = e

with_model_resolves :
    (s : Settings) (job : Overrides) (base : ResolvedOptions) (em : Text)
    → (job.openai_embedding_model ≡ none) × (job.jina_embedding_model ≡ none)
    → resolve_ingest_embedding_options s job ≡ ok base
    → (strip em ≡ em) × (nonempty em ≡ true)
    → (e : EmbedderKind) → base.embedder ≡ e
    → (r : ResolvedOptions) × (resolve_ingest_embedding_options s
          (with_model job base.embedder (some em))
        ≡ ok r)
      × (r.embedder ≡ base.embedder)
      × (active_model r.embedder r.openai_embedding_model r.jina_embedding_model ≡ em)
unfolding with_model
with_model_resolves s job base em (no_o, no_j) h (es, en) openai eb =
    let p = resolve-Parts s job base h in
    (
      _,
      resolve_models s job base (openai_side base.embedder (some em))
          (jina_side base.embedder (some em)) h
          (rw eb (rw (model_name-some em s.openai_embedding_model es en) en))
          (rw eb (rw (rw no_j at p.jina_model) p.jina_model_nonempty)),
      refl,
      rw eb (model_name-some em s.openai_embedding_model es en),
    )
with_model_resolves s job base em (no_o, no_j) h (es, en) jina eb =
    let p = resolve-Parts s job base h in
    (
      _,
      resolve_models s job base (openai_side base.embedder (some em))
          (jina_side base.embedder (some em)) h
          (rw eb (rw (rw no_o at p.openai_model) p.openai_model_nonempty))
          (rw eb (rw (model_name-some em s.jina_embedding_model es en) en)),
      refl,
      rw eb (model_name-some em s.jina_embedding_model es en),
    )

-- If a request with a model is accepted, then what it stores resolves to that very model, trimmed, on
-- the side of the embedder that is active.
pub prepare_model :
    (s : Settings) (raw : RawFields) (fields : JobFields) (em : Text)
    → prepare_ingest_embedding_fields s raw ≡ ok fields
    → coerce_embedding_model raw.embedding_model Field.embedding_model ≡ ok (some em)
    → (r : ResolvedOptions) × (resolve_ingest_embedding_options s fields.overrides ≡ ok r)
      × (active_model r.embedder r.openai_embedding_model r.jina_embedding_model ≡ em)
prepare_model s raw fields em h given =
    let a = prepare-Accepted s raw fields h in
    let same : some em ≡ a.model = cc (given, a.model_coerced) in
    let c =
      check_size-Checked s raw.embedding_dimensions (with_model a.plain_job a.base.embedder a.model)
        fields a.checked in
    let (r, resolves, _, active) =
      with_model_resolves s a.plain_job a.base em
        (coerce_overrides-models raw a.plain_job a.coerced) a.based
        (coerce_embedding_model-strip raw.embedding_model Field.embedding_model em given)
        a.base.embedder refl in
    (
      r,
      subst (λ j. resolve_ingest_embedding_options s j ≡ ok r)
          (ap (with_model a.plain_job a.base.embedder) same ∙ sym c.same_job) resolves,
      active,
    )

-- If a request is accepted, and the default size of the deployment does not stand in for the stored
-- one, then what is stored resolves, and the size passes the check that the worker makes.
pub prepare_valid :
    (s : Settings) (raw : RawFields) (fields : JobFields)
    → prepare_ingest_embedding_fields s raw ≡ ok fields
    → (coalesce_embedding_dimensions fields.embedding_dimensions s.embedding_dimensions
        ≡ fields.embedding_dimensions)
    → (r : ResolvedOptions) × (resolve_ingest_embedding_options s fields.overrides ≡ ok r)
      × (validate_embedding_dimensions r.embedder r.openai_embedding_model r.jina_embedding_model
            (coalesce_embedding_dimensions fields.embedding_dimensions s.embedding_dimensions)
          ≡ ok tt)
prepare_valid s raw fields h same =
    let c = prepare-Checked s raw fields h in (c.resolved, c.resolves, rw same c.valid)
