-- ===== src/Workers.antt =====
-- workers/tasks.py, and `Container.aclose` of core/container.py: what a Celery worker does with the
-- messages of its queue. A message is off the queue before its task runs, whatever becomes of the task.
pub mod Laws
pub mod Backlog
use rag_document_processor.Prelude.{
  ℕ, Bool, true, false, Option, none, some, List, [], ◌∷◌, if◌then◌else◌,
}
use rag_document_processor.Prelude.Text.{Text, codes, text_eq}
use rag_document_processor.Prelude.Uuid.Read.{uuid_of}
use rag_document_processor.Domain.Exceptions.{Result, ok, err, other_error}
use rag_document_processor.Options.Choices.{Settings}
use rag_document_processor.Pipelines.Factory.{Pipeline}
use rag_document_processor.Jobs.{Table}
use rag_document_processor.Ingest.Ports.{World}
use rag_document_processor.Ingest.Process.{execute}
use rag_document_processor.TaskQueue.{Message, make_celery}
use rag_document_processor.Service.{Deployment, build_container, build_default_pipeline}

-- What `build_container` opens, and `aclose` closes
pub data Resource : Type 0 where
  httpx_client redis engine : Resource

-- The resources are closed one after the other, until one raises; what stays open is returned.
unfoldable pub close_all :
    (Resource → Result (Unit {0})) → List Resource → Result (Unit {0}) × List Resource
close_all close [] = (ok tt, [])
close_all close (r ∷ rs) = elim (close r) [ err e ↦ (err e, r ∷ rs) | ok _ ↦ close_all close rs ]

abbrev pub opened : List Resource
opened = httpx_client ∷ redis ∷ engine ∷ []

-- `Container.aclose`
unfoldable pub aclose : (Resource → Result (Unit {0})) → Result (Unit {0}) × List Resource
unfolding close_all
aclose close = close_all close opened

-- What `finally` leaves of the exceptions: one of the last statements hides that of the body.
abbrev pub after_finally : Result (Unit {0}) → Result (Unit {0}) → Result (Unit {0})
after_finally body (ok _) = body
after_finally body (err e) = err e

module _ (settings : Settings) (D : Deployment) (close : Resource → Result (Unit {0})) where
  abbrev pub Service : Type 0
  Service = World (build_container settings D) Table

  -- How a task went, what it made of the service, and which resources are open at its end
  pub record Run : Type 0 where
    pub outcome : Result (Unit {0})
    pub world : Service
    pub left_open : List Resource

  -- The use case reads the id before anything else.
  abbrev pub run_use_case : ℕ → ℕ → Result ℕ → Service → Result (Unit {0}) × Service
  run_use_case started ended (err e) w = (err e, w)
  run_use_case started ended (ok id) w =
      (ok tt, execute (build_container settings D) settings started ended id w)

  abbrev pub within_container : ℕ → ℕ → Text → Result Pipeline → Service → Run
  within_container started ended job_id (err e) w = record {
    outcome = err e;
    world = w;
    left_open = opened;
  }
  within_container started ended job_id (ok _) w =
      let body = run_use_case started ended (uuid_of job_id) w in
      let closed = aclose close in
      record { outcome = after_finally body.0 closed.0; world = body.1; left_open = closed.1 }

  -- `_async_process`: the container is built before the `try`.
  unfoldable pub async_process : ℕ → ℕ → Text → Service → Run
  async_process started ended job_id w =
      within_container started ended job_id (build_default_pipeline settings D) w

  -- Only `process_ingestion_job` is registered, and it takes one argument.
  abbrev pub call_task : ℕ → ℕ → Bool → List Text → Service → Run
  call_task started ended true (job_id ∷ []) w = async_process started ended job_id w
  call_task started ended true [] w = record {
    outcome = err (other_error (codes "TypeError"));
    world = w;
    left_open = [];
  }
  call_task started ended true (a ∷ b ∷ rest) w = record {
    outcome = err (other_error (codes "TypeError"));
    world = w;
    left_open = [];
  }
  call_task started ended false args w = record {
    outcome = err (other_error (codes "NotRegistered"));
    world = w;
    left_open = [];
  }

  unfoldable pub run_message : ℕ → ℕ → Message → Service → Run
  run_message started ended m w =
      call_task started ended
        (text_eq m.task (codes "rag_document_processor.workers.tasks.process_ingestion_job")) m.args
        w

  abbrev pub with_taken : ℕ → ℕ → Option (Message × D.celery.State) → Service → Service
  with_taken started ended none w = w
  with_taken started ended (some (m, rest)) w =
      (run_message started ended m (record w { queue = rest })).world

  -- A worker takes the next message of the default queue, if there is one, and runs its task.
  unfoldable pub work : ℕ → ℕ → Service → Service
  work started ended w =
      with_taken started ended
        (D.celery.take (make_celery D.celery_environ).task_default_queue w.queue) w

  -- One message for each pair of times of the database's clock
  unfoldable pub work_off : List (ℕ × ℕ) → Service → Service
  work_off [] w = w
  work_off ((started, ended) ∷ times) w = work_off times (work started ended w)
