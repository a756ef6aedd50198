-- ===== src/Ingest/Lifecycle.antt =====
-- The service in motion: the endpoints of presentation/api/v1/ingest.py and the Celery tasks of
-- workers/tasks.py change one world, a step at a time, in any order. A task that runs to its
-- end is one step; `Parallel` takes the tasks of different jobs apart. Two workers on one job at the
-- same time are not a run here.
pub mod Steps
pub mod Rows
pub mod Streams
use rag_document_processor.Prelude.{ℕ, ◌≡◌, ◌≢◌, ◌<◌, Option, none, some, List}
use rag_document_processor.Prelude.Text.{Text}
use rag_document_processor.Prelude.Uuid.{uuid_count}
use rag_document_processor.Domain.Entities.{IngestionJob, processing, completed}
use rag_document_processor.Options.Choices.{Settings}
use rag_document_processor.Jobs.{Table, get_by_id, update_status}
use rag_document_processor.Ingest.Fields.{RawFields}
use rag_document_processor.Ingest.Ports.{Ports, World}
use rag_document_processor.Ingest.Submit.{submit_file, submit_url, submit_text}
use rag_document_processor.Ingest.Process.{execute}
use rag_document_processor.Ingest.Process.Writes.{Writes}

module _ (P : Ports) (settings : Settings) where
  -- A request of a client, a task that a worker runs to its end, or one whose worker dies after the job
  -- is marked: then the sink holds whatever was written so far.
  pub data Step (w : World P Table) : World P Table → Type 0 where
    file_submitted :
        (now job_id : ℕ) (filename content_type : Option Text) (bytes : List ℕ) (raw : RawFields)
        → Step w (submit_file P settings now job_id filename content_type bytes raw w).1
    url_submitted :
        (now job_id : ℕ) (source : Text) (raw : RawFields)
        → Step w (submit_url P settings now job_id source raw w).1
    text_submitted :
        (now job_id : ℕ) (texts : List Text) (raw : RawFields)
        → Step w (submit_text P settings now job_id texts raw w).1
    worked :
        (started ended job_id : ℕ)
        → job_id < uuid_count
        → Step w (execute P settings started ended job_id w)
    died :
        (started job_id : ℕ) (job : IngestionJob) (sink : P.Sink)
        → job_id < uuid_count
        → Writes P job_id w.sink sink
        → get_by_id job_id w.jobs ≡ some job
        → job.status ≢ completed
        → Step w
            (record w { jobs = update_status started job_id processing none w.jobs; sink = sink })

  pub data Reach (w : World P Table) : World P Table → Type 0 where
    here : Reach w w
    next : {u v : World P Table} → Reach w u → Step u v → Reach w v
