-- ===== src/Jobs.antt =====
-- infrastructure/db/repositories/job_repo.py over the table `ingestion_jobs`, as a list of rows.
-- `now` is the database's clock, which fills `created_at` and `updated_at`. The errors of the
-- database itself are not modelled, but for a primary key that is there already.
pub mod Laws
use rag_document_processor.Prelude.{
  ℕ, ◌+◌, Bool, Option, none, some, List, [], ◌∷◌, ◌++◌, ◌==◌, if◌then◌else◌,
}
use rag_document_processor.Prelude.Int.{ℤ}
use rag_document_processor.Prelude.Text.{Text, codes}
use rag_document_processor.Domain.Exceptions.{Error, other_error, Result, ok, err}
use rag_document_processor.Domain.Entities.{IngestionJob, JobStatus, SourceKind}

abbrev pub Table : Type 0
Table = List IngestionJob

-- `get_by_id`
unfoldable pub get_by_id : ℕ → Table → Option IngestionJob
get_by_id id [] = none
get_by_id id (job ∷ jobs) = if job.id == id then some job else get_by_id id jobs

-- What `create` is given, besides the id and the clock.
pub record NewJob : Type 0 where
  pub source_kind : SourceKind
  pub status : JobStatus
  pub blob_key : Option Text
  pub source_url : Option Text
  pub source_text : Option Text
  pub content_type : Option Text
  pub original_filename : Option Text
  pub llama_parse_tier : Option Text
  pub embedding_dimensions : Option ℤ
  pub embedding_pipeline : Option Text
  pub macro_splitter : Option Text
  pub embedder_provider : Option Text
  pub openai_embedding_model : Option Text
  pub jina_embedding_model : Option Text
  pub late_chunk_min_tokens : Option ℤ
  pub late_chunk_max_tokens : Option ℤ

unfoldable pub new_row : ℕ → ℕ → NewJob → IngestionJob
new_row now id new = record {
  id = id;
  status = new.status;
  source_kind = new.source_kind;
  blob_key = new.blob_key;
  source_url = new.source_url;
  source_text = new.source_text;
  content_type = new.content_type;
  original_filename = new.original_filename;
  llama_parse_tier = new.llama_parse_tier;
  embedding_dimensions = new.embedding_dimensions;
  embedding_pipeline = new.embedding_pipeline;
  macro_splitter = new.macro_splitter;
  embedder_provider = new.embedder_provider;
  openai_embedding_model = new.openai_embedding_model;
  jina_embedding_model = new.jina_embedding_model;
  late_chunk_min_tokens = new.late_chunk_min_tokens;
  late_chunk_max_tokens = new.late_chunk_max_tokens;
  error_message = none;
  chunks_emitted = 0;
  created_at = now;
  updated_at = now;
}

abbrev add_row : IngestionJob → Table → Option IngestionJob → Result Table
add_row row jobs none = ok (jobs ++ row ∷ [])
add_row row jobs (some old) = err (other_error (codes "IntegrityError"))

-- `create` and the commit behind it
unfoldable pub create : ℕ → ℕ → NewJob → Table → Result Table
unfolding new_row get_by_id
create now id new jobs = add_row (new_row now id new) jobs (get_by_id id jobs)

-- `update(…).where(id == job_id)`
unfoldable pub update_where : ℕ → (IngestionJob → IngestionJob) → Table → Table
update_where id f [] = []
update_where id f (job ∷ jobs) = (if job.id == id then f job else job) ∷ update_where id f jobs

-- `if error_message is not None: values["error_message"] = error_message`
abbrev pub or_error : Option Error → Option Error → Option Error
or_error none old = old
or_error (some e) old = some e

unfoldable pub set_status : ℕ → JobStatus → Option Error → IngestionJob → IngestionJob
set_status now status error job = record job {
  status = status;
  error_message = or_error error job.error_message;
  updated_at = now;
}

unfoldable pub update_status : ℕ → ℕ → JobStatus → Option Error → Table → Table
unfolding update_where set_status
update_status now id status error jobs = update_where id (set_status now status error) jobs

unfoldable pub add_chunks : ℕ → ℕ → IngestionJob → IngestionJob
add_chunks now delta job = record job {
  chunks_emitted = job.chunks_emitted + delta;
  updated_at = now;
}

-- `increment_chunks`
unfoldable pub increment_chunks : ℕ → ℕ → ℕ → Table → Table
unfolding update_where add_chunks
increment_chunks now id delta jobs = update_where id (add_chunks now delta) jobs
