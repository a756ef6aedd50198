-- ===== src/Api/Jobs.antt =====
-- presentation/api/v1/jobs.py: the two endpoints. The answers have the fields of the DTOs.
use rag_document_processor.Prelude.{ℕ, Option, none, some}
use rag_document_processor.Domain.Exceptions.{Result}
use rag_document_processor.Options.Choices.{Settings}
use rag_document_processor.Jobs.{Table}
use rag_document_processor.Ingest.Status.{JobStatusDto, get_job_status}
use rag_document_processor.Ingest.Results.{JobResultsDto, get_job_results}
use rag_document_processor.Sink.Read.{Snapshot}
use rag_document_processor.ApiKeys.Access.{Access}
use rag_document_processor.Api.{Reply, reply_of, refusal}

abbrev pub unless : {A : Type 0} → Option (Reply A) → Reply A → Reply A
unless none answer = answer
unless (some reply) answer = reply

module _ {K : Type 0} (settings : Settings) where
  unfoldable pub job_status : Access K → ℕ → Table → Reply JobStatusDto
  job_status access job_id jobs =
      unless (refusal access) (reply_of (get_job_status settings job_id jobs))

  unfoldable pub job_results :
      {V O S : Type 0}
      → (ℕ → S → Result (Snapshot V O))
      → Access K
      → ℕ
      → Table
      → S
      → Reply (JobResultsDto V O)
  job_results reader access job_id jobs s =
      unless (refusal access) (reply_of (get_job_results reader settings job_id jobs s))
