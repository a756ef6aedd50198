-- ===== src/Api/Requests.antt =====
-- presentation/schemas/ingestion.py: the bodies of requests, and what their validation leaves. That
-- JSON or a form field is an integer or a text, and `HttpUrl`, are pydantic's.
use rag_document_processor.Prelude.{
  ℕ, Bool, true, ◌&&◌, Option, none, some, List, [], ◌∷◌, leb, length, if◌then◌else◌,
}
use rag_document_processor.Prelude.Int.{ℤ, pos, le_ℤ}
use rag_document_processor.Prelude.Text.{Text, one_of, strip}
use rag_document_processor.Options.Coerce.{RawInt, int}
use rag_document_processor.Ingest.Fields.{RawFields, llama_parse_tier_choices}

-- The optional fields that every request has.
pub record RequestFields : Type 0 where
  pub llama_parse_tier : Option Text
  pub embedding_dimensions : Option ℤ
  pub embedding_pipeline : Option Text
  pub macro_splitter : Option Text
  pub embedder_provider : Option Text
  pub embedding_model : Option Text
  pub late_chunk_min_tokens : Option ℤ
  pub late_chunk_max_tokens : Option ℤ

-- `ge` and `le`
abbrev pub within : ℕ → ℕ → Option ℤ → Bool
within lo hi none = true
within lo hi (some z) = le_ℤ (pos lo) z && le_ℤ z (pos hi)

-- `max_length`
abbrev pub no_longer : ℕ → Option Text → Bool
no_longer n none = true
no_longer n (some s) = leb (length s) n

-- The constraints on the fields
unfoldable pub constraints : RequestFields → Bool
constraints body =
    within 1 16384 body.embedding_dimensions
    && no_longer 32 body.embedding_pipeline
    && no_longer 32 body.macro_splitter
    && no_longer 16 body.embedder_provider
    && no_longer 128 body.embedding_model
    && within 1 8192 body.late_chunk_min_tokens
    && within 1 8192 body.late_chunk_max_tokens

abbrev pub known_tier : Text → Option (Option Text)
known_tier [] = some none
known_tier (c ∷ t) = if one_of (c ∷ t) llama_parse_tier_choices then some (some (c ∷ t)) else none

-- `_validate_tier`: `none` is a tier that is refused
unfoldable pub validate_tier : Option Text → Option (Option Text)
validate_tier none = some none
validate_tier (some v) = known_tier (strip v)

abbrev pub raw_int : Option ℤ → Option RawInt
raw_int none = none
raw_int (some z) = some (int z)

abbrev pub raw_fields : RequestFields → Option Text → RawFields
raw_fields body tier = record {
  llama_parse_tier = tier;
  embedding_dimensions = raw_int body.embedding_dimensions;
  embedding_pipeline = body.embedding_pipeline;
  macro_splitter = body.macro_splitter;
  embedder_provider = body.embedder_provider;
  embedding_model = body.embedding_model;
  late_chunk_min_tokens = raw_int body.late_chunk_min_tokens;
  late_chunk_max_tokens = raw_int body.late_chunk_max_tokens;
}

abbrev pub with_tier : RequestFields → Option (Option Text) → Option RawFields
with_tier body none = none
with_tier body (some tier) = some (raw_fields body tier)

-- The fields of a valid body, as the use case is given them
unfoldable pub validate_fields : RequestFields → Option RawFields
validate_fields body =
    if constraints body then with_tier body (validate_tier body.llama_parse_tier) else none

pub record UrlIngestRequest : Type 0 where
  pub url : Text
  pub fields : RequestFields

pub record TextIngestRequest : Type 0 where
  pub texts : List Text
  pub fields : RequestFields

abbrev pub with_source : {A : Type 0} → A → Option RawFields → Option (A × RawFields)
with_source source none = none
with_source source (some raw) = some (source, raw)

abbrev pub parsed_url : Option Text → RequestFields → Option (Text × RawFields)
parsed_url none fields = none
parsed_url (some url) fields = with_source url (validate_fields fields)

-- `str(HttpUrl(url))`, if it is one, is a parameter.
unfoldable pub validate_url_request :
    (Text → Option Text) → UrlIngestRequest → Option (Text × RawFields)
validate_url_request http_url body = parsed_url (http_url body.url) body.fields

-- `min_length=1`
abbrev pub some_texts : List Text → RequestFields → Option (List Text × RawFields)
some_texts [] fields = none
some_texts (t ∷ ts) fields = with_source (t ∷ ts) (validate_fields fields)

unfoldable pub validate_text_request : TextIngestRequest → Option (List Text × RawFields)
validate_text_request body = some_texts body.texts body.fields
