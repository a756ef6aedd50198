-- ===== src/Ingest/Status.antt =====
-- `GetJobStatusUseCase` of application/use_cases/ingestion/get_job_status.py
use rag_document_processor.Prelude.{ℕ, ◌≡◌, refl, Option, none, some, arith}
use rag_document_processor.Prelude.Int.{ℤ}
use rag_document_processor.Prelude.Text.{Text, or_text}
use rag_document_processor.Domain.Exceptions.{
  EmbedderKind, Error, job_not_found, Result, ok, ◌>>=◌, or_raise,
}
use rag_document_processor.Domain.Entities.{IngestionJob, JobStatus, SourceKind}
use rag_document_processor.Options.Choices.{
  PipelineKind, MacroKind, Settings, Overrides, ResolvedOptions,
}
use rag_document_processor.Options.Resolve.{resolve_ingest_embedding_options}
use rag_document_processor.Dimensions.Validate.{active_model, coalesce_embedding_dimensions}
use rag_document_processor.Jobs.{Table, NewJob, get_by_id, new_row, create}
use rag_document_processor.Jobs.Laws.{get_by_id-create}
use rag_document_processor.Ingest.Process.{overrides_of}

-- `JobStatusDTO` of application/dtos.py
pub record JobStatusDto : Type 0 where
  pub job_id : ℕ
  pub status : JobStatus
  pub source_kind : SourceKind
  pub chunks_emitted : ℕ
  pub error_message : Option Error
  pub llama_parse_tier : Text
  pub embedding_dimensions : Option ℤ
  pub embedding_pipeline : PipelineKind
  pub macro_splitter : MacroKind
  pub embedder_provider : EmbedderKind
  pub embedding_model : Text
  pub late_chunk_min_tokens : ℤ
  pub late_chunk_max_tokens : ℤ
  pub created_at : ℕ
  pub updated_at : ℕ

abbrev pub status_dto : Settings → IngestionJob → ResolvedOptions → JobStatusDto
status_dto settings job resolved = record {
  job_id = job.id;
  status = job.status;
  source_kind = job.source_kind;
  chunks_emitted = job.chunks_emitted;
  error_message = job.error_message;
  llama_parse_tier = or_text job.llama_parse_tier settings.llama_parse_tier;
  embedding_dimensions =
      coalesce_embedding_dimensions job.embedding_dimensions settings.embedding_dimensions;
  embedding_pipeline = resolved.embedding_pipeline;
  macro_splitter = resolved.macro_splitter;
  embedder_provider = resolved.embedder;
  embedding_model =
      active_model resolved.embedder resolved.openai_embedding_model resolved.jina_embedding_model;
  late_chunk_min_tokens = resolved.late_chunk_min_tokens;
  late_chunk_max_tokens = resolved.late_chunk_max_tokens;
  created_at = job.created_at;
  updated_at = job.updated_at;
}

unfoldable pub get_job_status : Settings → ℕ → Table → Result JobStatusDto
get_job_status settings job_id jobs = do
  job ← or_raise (get_by_id job_id jobs) job_not_found
  resolved ← resolve_ingest_embedding_options settings (overrides_of job)
  ok (status_dto settings job resolved)

-- The overrides that a new row will hold.
abbrev pub new_overrides : NewJob → Overrides
new_overrides new = record {
  embedding_pipeline = new.embedding_pipeline;
  macro_splitter = new.macro_splitter;
  embedder_provider = new.embedder_provider;
  openai_embedding_model = new.openai_embedding_model;
  jina_embedding_model = new.jina_embedding_model;
  late_chunk_min_tokens = new.late_chunk_min_tokens;
  late_chunk_max_tokens = new.late_chunk_max_tokens;
}

-- A job that was just created, and whose overrides resolve, is shown in its first state, with no
-- chunks and no error, and with the model of its resolved options.
pub get_job_status-create :
    (settings : Settings) (now id : ℕ) (new : NewJob) (jobs jobs' : Table) (r : ResolvedOptions)
    → create now id new jobs ≡ ok jobs'
    → resolve_ingest_embedding_options settings (new_overrides new) ≡ ok r
    → (dto : JobStatusDto) × (get_job_status settings id jobs' ≡ ok dto)
      × (dto.job_id ≡ id)
      × (dto.status ≡ new.status)
      × (dto.chunks_emitted ≡ 0)
      × (dto.error_message ≡ none)
      × (dto.embedding_pipeline ≡ r.embedding_pipeline)
      × (dto.embedding_model
          ≡ active_model r.embedder r.openai_embedding_model r.jina_embedding_model)
unfolding get_job_status new_row
get_job_status-create settings now id new jobs jobs' r created resolves =
    let read : get_by_id id jobs' ≡ some (new_row now id new) =
      ground (arith, get_by_id-create now id id new jobs jobs' created) in
    (
      status_dto settings (new_row now id new) r,
      rw (read, resolves),
      refl,
      refl,
      refl,
      refl,
      refl,
      refl,
    )
