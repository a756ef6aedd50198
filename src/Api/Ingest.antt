-- ===== src/Api/Ingest.antt =====
-- presentation/api/v1/ingest.py: the three endpoints. The dependency on an API key comes first, then
-- the validation of the body, then the use case; the answer holds the job's id.
use rag_document_processor.Prelude.{ℕ, Option, none, some, List}
use rag_document_processor.Prelude.Text.{Text}
use rag_document_processor.Domain.Exceptions.{Result}
use rag_document_processor.Options.Choices.{Settings}
use rag_document_processor.Jobs.{Table}
use rag_document_processor.Ingest.Fields.{RawFields}
use rag_document_processor.Ingest.Ports.{Ports, World}
use rag_document_processor.Ingest.Submit.{submit_file, submit_url, submit_text}
use rag_document_processor.ApiKeys.Access.{Access}
use rag_document_processor.Api.{Reply, refused, reply_of, refusal, invalid_request}
use rag_document_processor.Api.Requests.{
  RequestFields, raw_fields, UrlIngestRequest, TextIngestRequest, validate_url_request,
  validate_text_request,
}

module _ (P : Ports) (settings : Settings) (now job_id : ℕ) where
  abbrev pub created : Result ℕ × World P Table → Reply ℕ × World P Table
  created (result, w) = (reply_of result, w)

  -- The endpoint's own part runs unless the key is refused.
  abbrev pub guarded_by :
      Option (Reply ℕ) → World P Table → Reply ℕ × World P Table → Reply ℕ × World P Table
  guarded_by none w answer = answer
  guarded_by (some reply) w answer = (reply, w)

  abbrev pub submit_valid_url : World P Table → Option (Text × RawFields) → Reply ℕ × World P Table
  submit_valid_url w none = (refused invalid_request, w)
  submit_valid_url w (some (url, raw)) = created (submit_url P settings now job_id url raw w)

  unfoldable pub ingest_url :
      {K : Type 0}
      → (Text → Option Text)
      → Access K
      → UrlIngestRequest
      → World P Table
      → Reply ℕ × World P Table
  ingest_url http_url access body w =
      guarded_by (refusal access) w (submit_valid_url w (validate_url_request http_url body))

  abbrev pub submit_valid_text :
      World P Table → Option (List Text × RawFields) → Reply ℕ × World P Table
  submit_valid_text w none = (refused invalid_request, w)
  submit_valid_text w (some (texts, raw)) = created (submit_text P settings now job_id texts raw w)

  unfoldable pub ingest_text :
      {K : Type 0} → Access K → TextIngestRequest → World P Table → Reply ℕ × World P Table
  ingest_text access body w =
      guarded_by (refusal access) w (submit_valid_text w (validate_text_request body))

  -- The form's fields have no constraints but their types.
  unfoldable pub ingest_file :
      {K : Type 0}
      → Access K
      → Option Text
      → Option Text
      → List ℕ
      → RequestFields
      → World P Table
      → Reply ℕ × World P Table
  ingest_file access filename content_type bytes form w = guarded_by (refusal access) w (
      created (
        submit_file P settings now job_id filename content_type bytes
          (raw_fields form form.llama_parse_tier) w))
