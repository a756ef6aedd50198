-- ===== src/Ingest/Submit.antt =====
-- application/use_cases/ingestion/submit.py: the three use cases that store a job and queue it. The
-- new id (`uuid4()`) and the database's clock are arguments.
pub mod Laws
use rag_document_processor.Prelude.{
  ℕ, Bool, not, Option, none, some, List, [], ◌∷◌, ◌++◌, length, if◌then◌else◌,
}
use rag_document_processor.Prelude.Int.{pos, lt_ℤ}
use rag_document_processor.Prelude.Text.{Text, codes, one_of, or_text, strip}
use rag_document_processor.Prelude.Uuid.{uuid_text}
use rag_document_processor.Domain.Exceptions.{
  Error, file_too_large, unsupported_mime_type, Result, ok, err, ◌>>=◌, ◌>>◌, guard,
}
use rag_document_processor.Domain.Entities.{SourceKind, file, url, text, pending}
use rag_document_processor.Options.Choices.{Settings, Overrides}
use rag_document_processor.Jobs.{Table, NewJob, create}
use rag_document_processor.Ingest.Fields.{
  RawFields, JobFields, coerce_llama_parse_tier, prepare_ingest_embedding_fields,
}
use rag_document_processor.Ingest.Mime.{normalize_ctype, allowed_mime_set}
use rag_document_processor.Ingest.Segments.{text_payload}
use rag_document_processor.Ingest.Ports.{Ports, World}

-- The arguments of `jobs.create` that the three use cases share.
abbrev pub new_job : SourceKind → Option Text → JobFields → NewJob
new_job kind tier fields = record {
  source_kind = kind;
  status = pending;
  blob_key = none;
  source_url = none;
  source_text = none;
  content_type = none;
  original_filename = none;
  llama_parse_tier = tier;
  embedding_dimensions = fields.embedding_dimensions;
  embedding_pipeline = fields.overrides.embedding_pipeline;
  macro_splitter = fields.overrides.macro_splitter;
  embedder_provider = fields.overrides.embedder_provider;
  openai_embedding_model = fields.overrides.openai_embedding_model;
  jina_embedding_model = fields.overrides.jina_embedding_model;
  late_chunk_min_tokens = fields.overrides.late_chunk_min_tokens;
  late_chunk_max_tokens = fields.overrides.late_chunk_max_tokens;
}

-- What is checked before anything is stored: the tier and the fields of the job.
unfoldable pub check_fields : Settings → RawFields → Result (Option Text × JobFields)
check_fields settings raw = do
  tier ← coerce_llama_parse_tier raw.llama_parse_tier
  fields ← prepare_ingest_embedding_fields settings raw
  ok (tier, fields)

-- The checks of a file: its size and its content type come first.
unfoldable pub check_file :
    Settings → Option Text → List ℕ → RawFields → Result (Text × Option Text × JobFields)
check_file settings content_type bytes raw = do
  guard (not (lt_ℤ settings.max_upload_bytes (pos (length bytes)))) file_too_large
  let ctype = normalize_ctype content_type
  guard (one_of ctype (allowed_mime_set settings)) (unsupported_mime_type ctype)
  checked ← check_fields settings raw
  ok (ctype, checked.0, checked.1)

-- f"{job_id}/{filename or 'upload'}"
unfoldable pub blob_key_of : ℕ → Option Text → Text
blob_key_of job_id filename = uuid_text job_id ++ 47 ∷ or_text filename (codes "upload")

module _ (P : Ports) (settings : Settings) (now job_id : ℕ) where
  unfoldable pub enqueue_job : World P Table → Result ℕ × World P Table
  enqueue_job w = elim (P.enqueue job_id w.queue) [
    | err e ↦ (err e, w)
    | ok queue ↦ (ok job_id, record w { queue = queue })
  ]

  -- The row is committed before the task is queued.
  unfoldable pub create_and_enqueue : NewJob → World P Table → Result ℕ × World P Table
  unfolding enqueue_job
  create_and_enqueue new w = elim (create now job_id new w.jobs) [
    | err e ↦ (err e, w)
    | ok jobs ↦ enqueue_job (record w { jobs = jobs })
  ]

  abbrev pub stored_file : Option Text → Text → Option Text → JobFields → NewJob
  stored_file filename ctype tier fields = record (new_job file tier fields) {
    blob_key = some (blob_key_of job_id filename);
    content_type = some ctype;
    original_filename = filename;
  }

  unfoldable pub put_and_create :
      Option Text
      → List ℕ
      → Text
      → Option Text
      → JobFields
      → World P Table
      → Result ℕ × World P Table
  unfolding create_and_enqueue
  put_and_create filename bytes ctype tier fields w =
      elim (P.put (blob_key_of job_id filename) bytes ctype w.blobs) [
        | err e ↦ (err e, w)
        | ok blobs ↦
            create_and_enqueue (stored_file filename ctype tier fields) (record w { blobs = blobs })
      ]

  -- `SubmitFileIngestionUseCase.execute`
  unfoldable pub submit_file :
      Option Text → Option Text → List ℕ → RawFields → World P Table → Result ℕ × World P Table
  unfolding put_and_create
  submit_file filename content_type bytes raw w =
      elim (check_file settings content_type bytes raw) [
        | err e ↦ (err e, w)
        | ok (ctype, tier, fields) ↦ put_and_create filename bytes ctype tier fields w
      ]

  -- `SubmitUrlIngestionUseCase.execute`
  unfoldable pub submit_url : Text → RawFields → World P Table → Result ℕ × World P Table
  unfolding create_and_enqueue
  submit_url source raw w = elim (check_fields settings raw) [
    | err e ↦ (err e, w)
    | ok (tier, fields) ↦
        create_and_enqueue (record (new_job url tier fields) { source_url = some (strip source) }) w
  ]

  -- `SubmitTextIngestionUseCase.execute`
  unfoldable pub submit_text : List Text → RawFields → World P Table → Result ℕ × World P Table
  unfolding create_and_enqueue
  submit_text texts raw w = elim (check_fields settings raw) [
    | err e ↦ (err e, w)
    | ok (tier, fields) ↦
        create_and_enqueue
          (record (new_job text tier fields) {
            source_text = some (text_payload texts);
            content_type = some (codes "text/plain");
          })
          w
  ]
