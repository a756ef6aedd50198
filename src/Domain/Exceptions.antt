-- ===== src/Domain/Exceptions.antt =====
-- domain/exceptions.py, and the exceptions of Python and of third parties that reach the use cases.
-- A constructor keeps what the message is made of in place of the message: the stored text `str(e)`
-- is the exception itself.
use rag_document_processor.Prelude.{◌≡◌, refl, ◌⊎◌, inl, inr, Bool, true, false, Option, none, some}
use rag_document_processor.Prelude.Int.{ℤ}
use rag_document_processor.Prelude.Text.{Text}

-- Literal["openai", "jina"]
pub data EmbedderKind : Type 0 where
  openai jina : EmbedderKind

-- The request field that a message names.
pub data Field : Type 0 where
  embedding_model late_chunk_min_tokens late_chunk_max_tokens : Field

-- The places where `InvalidIngestEmbeddingOptionsError` is raised.
pub data OptionsProblem : Type 0 where
  bad_pipeline bad_macro bad_provider : Text → OptionsProblem
  model_too_long : Field → OptionsProblem
  placeholder_model : Field → Text → OptionsProblem
  not_an_integer : Field → OptionsProblem
  tokens_out_of_range : Field → ℤ → OptionsProblem
  limits_not_positive : OptionsProblem
  min_exceeds_max : ℤ → ℤ → OptionsProblem
  pipeline_not_allowed macro_not_allowed empty_openai_model empty_jina_model : OptionsProblem
  late_chunking_needs_jina late_chunking_key_missing : OptionsProblem
  openai_key_missing jina_key_missing both_keys_missing : OptionsProblem

pub data DimensionsReason : Type 0 where
  placeholder_model_id model_does_not_support_custom_dimensions out_of_range : DimensionsReason

-- `InvalidEmbeddingDimensionsError.payload`
pub record DimensionsPayload : Type 0 where
  pub active_embedder : EmbedderKind
  pub embedding_model : Text
  pub requested_dimensions : ℤ
  pub reason : DimensionsReason
  pub allowed_dimensions_min : Option ℤ
  pub allowed_dimensions_max : Option ℤ

pub data Error : Type 0 where
  api_key_not_found file_too_large url_fetch job_not_found job_results_not_ready : Error
  unsupported_mime_type invalid_llama_parse_tier : Text → Error
  invalid_embedding_dimensions : DimensionsPayload → Error
  invalid_ingest_embedding_options : OptionsProblem → Error
  -- `ValueError` and `RuntimeError` of the program, and any other exception, by message
  value_error runtime_error other_error : Text → Error

pub data Result {ℓ} (A : Type ℓ) : Type ℓ where
  ok : A → Result A
  err : Error → Result A

-- `if not b: raise e`
abbrev pub guard : Bool → Error → Result (Unit {0})
guard false e = err e
guard true e = ok tt

-- `if v is None: raise e`
abbrev pub or_raise {ℓ} : {A : Type ℓ} → Option A → Error → Result A
or_raise none e = err e
or_raise (some a) e = ok a

infixl 5 ◌>>=◌ ◌>>◌
-- What follows a raised exception is passed over.
abbrev pub ◌>>=◌ {ℓ κ} : {A : Type ℓ} {B : Type κ} → Result A → (A → Result B) → Result B
err raised >>= next = err raised
ok value >>= next = next value

-- A check, and what follows it
abbrev pub ◌>>◌ {ℓ} : {B : Type ℓ} → Result (Unit {0}) → Result B → Result B
check >> next = check >>= λ _. next

module _ {ℓ κ} {X : Type ℓ} {Y : Type κ} where
  -- A chain that returns has a first step that returns.
  pub >>=-eq-ok :
      (first : Result X) (next : X → Result Y) {y : Y}
      → first >>= next ≡ ok y
      → (x : X) × (first ≡ ok x) × (next x ≡ ok y)
  >>=-eq-ok (err raised) next returned = cc
  >>=-eq-ok (ok x) next returned = (x, refl, returned)

pub Result-cases {ℓ} :
    {A : Type ℓ} (m : Result A) → ((a : A) × (m ≡ ok a)) ⊎ ((e : Error) × (m ≡ err e))
Result-cases (ok a) = inl (a, refl)
Result-cases (err e) = inr (e, refl)
