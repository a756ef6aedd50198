-- ===== src/Api.antt =====
-- presentation/exception_handlers.py: the answer that an exception becomes. `detail` is the exception
-- itself in place of its text.
pub mod Catalog
pub mod Requests
pub mod Ingest
pub mod Jobs
pub mod Keys
pub mod Checks
pub mod Laws
pub mod Endpoints
use rag_document_processor.Prelude.{ℕ, Option, none, some}
use rag_document_processor.Prelude.Text.{Text, codes}
use rag_document_processor.Domain.Exceptions.{
  Error, api_key_not_found, file_too_large, url_fetch, job_not_found, job_results_not_ready,
  unsupported_mime_type, invalid_llama_parse_tier, invalid_embedding_dimensions,
  invalid_ingest_embedding_options, value_error, runtime_error, other_error, Result, ok, err,
}
use rag_document_processor.ApiKeys.Access.{Access, granted, unauthorized, raised}

-- The status, the field "code" where the body has one, and what the detail is made of
pub record ErrorReply : Type 0 where
  pub status : ℕ
  pub code : Option Text
  pub detail : Option Error

abbrev pub coded : Error → Text → ℕ → ErrorReply
coded e code status = record { status = status; code = some code; detail = some e }

-- An exception that no handler is registered for is a 500.
abbrev pub unhandled : Error → ErrorReply
unhandled e = record { status = 500; code = none; detail = some e }

unfoldable pub error_reply : Error → ErrorReply
error_reply api_key_not_found = coded api_key_not_found (codes "api_key_not_found") 404
error_reply file_too_large = coded file_too_large (codes "payload_too_large") 413
error_reply (unsupported_mime_type t) =
    coded (unsupported_mime_type t) (codes "unsupported_media_type") 415
error_reply (invalid_llama_parse_tier t) =
    coded (invalid_llama_parse_tier t) (codes "invalid_llama_parse_tier") 422
error_reply (invalid_embedding_dimensions p) =
    coded (invalid_embedding_dimensions p) (codes "invalid_embedding_dimensions") 422
error_reply (invalid_ingest_embedding_options p) =
    coded (invalid_ingest_embedding_options p) (codes "invalid_ingest_embedding_options") 422
error_reply url_fetch = coded url_fetch (codes "url_fetch_error") 400
error_reply job_not_found = coded job_not_found (codes "job_not_found") 404
error_reply job_results_not_ready = coded job_results_not_ready (codes "job_results_not_ready") 409
error_reply (value_error message) = unhandled (value_error message)
error_reply (runtime_error message) = unhandled (runtime_error message)
error_reply (other_error message) = unhandled (other_error message)

pub data Reply {ℓ} (A : Type ℓ) : Type ℓ where
  replied : A → Reply A
  refused : ErrorReply → Reply A

abbrev pub reply_of {ℓ} : {A : Type ℓ} → Result A → Reply A
reply_of (ok a) = replied a
reply_of (err e) = refused (error_reply e)

-- `HTTPException(401)`
abbrev pub unauthorized_reply : ErrorReply
unauthorized_reply = record { status = 401; code = none; detail = none }

-- FastAPI's own 422
abbrev pub invalid_request : ErrorReply
invalid_request = record { status = 422; code = none; detail = none }

-- An endpoint that `ApiKeyDep` guards: what it does, or the refusal.
abbrev pub refusal {ℓ κ} : {A : Type ℓ} {K : Type κ} → Access K → Option (Reply A)
refusal (granted key) = none
refusal (unauthorized detail) = some (refused unauthorized_reply)
refusal (raised e) = some (refused (error_reply e))
