-- ===== src/Ingest/Results.antt =====
-- `GetJobResultsUseCase` of application/use_cases/ingestion/get_job_results.py
pub mod Laws
use rag_document_processor.Prelude.{ℕ, Option, none, some, List, map}
use rag_document_processor.Prelude.Int.{ℤ}
use rag_document_processor.Prelude.Text.{Text}
use rag_document_processor.Domain.Exceptions.{
  Error, job_not_found, job_results_not_ready, Result, ok, err, ◌>>=◌, ◌>>◌, or_raise,
}
use rag_document_processor.Domain.Entities.{
  IngestionJob, JobStatus, pending, processing, completed, failed, SourceKind,
}
use rag_document_processor.Options.Choices.{Settings, Overrides, ResolvedOptions}
use rag_document_processor.Options.Resolve.{resolve_ingest_embedding_options}
use rag_document_processor.Dimensions.Validate.{active_model, coalesce_embedding_dimensions}
use rag_document_processor.Jobs.{Table, get_by_id}
use rag_document_processor.Ingest.Process.{overrides_of}
use rag_document_processor.Sink.Read.{ChunkResult, Snapshot}

-- `JobResultsDTO`; its chunks (`JobChunkResultDTO`) have the fields of the snapshot's.
pub record JobResultsDto (V O : Type 0) : Type 0 where
  pub job_id : ℕ
  pub status : JobStatus
  pub source_kind : SourceKind
  pub chunks_emitted : ℕ
  pub error_message : Option Error
  pub embedding_dimensions : Option ℤ
  pub embedding_model : Text
  pub chunks : List (ChunkResult V O)
  pub finalization_metadata : Option O

-- The results are there once the job has ended.
abbrev pub check_ended : JobStatus → Result (Unit {0})
check_ended pending = err job_results_not_ready
check_ended processing = err job_results_not_ready
check_ended completed = ok tt
check_ended failed = ok tt

-- The overrides that this query passes: it leaves out the token limits of the job.
abbrev pub model_overrides : IngestionJob → Overrides
model_overrides job = record (overrides_of job) {
  late_chunk_min_tokens = none;
  late_chunk_max_tokens = none;
}

module _ {V O S : Type 0} (reader : ℕ → S → Result (Snapshot V O)) (settings : Settings) where
  abbrev pub results_dto : IngestionJob → ResolvedOptions → Snapshot V O → JobResultsDto V O
  results_dto job resolved snapshot = record {
    job_id = job.id;
    status = job.status;
    source_kind = job.source_kind;
    chunks_emitted = job.chunks_emitted;
    error_message = job.error_message;
    embedding_dimensions =
        coalesce_embedding_dimensions job.embedding_dimensions settings.embedding_dimensions;
    embedding_model =
        active_model resolved.embedder resolved.openai_embedding_model
          resolved.jina_embedding_model;
    chunks = snapshot.chunks;
    finalization_metadata = snapshot.finalization_metadata;
  }

  unfoldable pub get_job_results : ℕ → Table → S → Result (JobResultsDto V O)
  get_job_results job_id jobs s = do
    job ← or_raise (get_by_id job_id jobs) job_not_found
    check_ended job.status
    resolved ← resolve_ingest_embedding_options settings (model_overrides job)
    snapshot ← reader job_id s
    ok (results_dto job resolved snapshot)
