-- ===== src/TaskQueue.antt =====
-- infrastructure/queue/celery_task_queue.py, and `make_celery` of workers/celery_app.py. Celery with its
-- broker is a parameter.
use rag_document_processor.Prelude.{ℕ, ◌≡◌, Option, none, some, List, [], ◌∷◌, ◌++◌}
use rag_document_processor.Prelude.Text.{Text, codes}
use rag_document_processor.Prelude.Uuid.{uuid_text}
use rag_document_processor.Domain.Exceptions.{Result, ok}

-- What a message holds: the name of the task and its arguments
pub record Message : Type 0 where
  pub task : Text
  pub args : List Text

-- `send_task` takes the name of the task, its arguments and the queue; `take` gives a worker the next
-- message of a queue, which is off the queue before its task runs.
pub record Celery : Type 1 where
  pub State : Type 0
  pub send_task : Text → List Text → Text → State → Result State
  pub take : Text → State → Option (Message × State)

-- The messages of a queue stand in the broker in the order in which they were sent.
pub record IsCelery (C : Celery) : Type 0 where
  pub waiting : Text → C.State → List Message
  pub sends :
      {task queue : Text} {args : List Text} {s t : C.State}
      → C.send_task task args queue s ≡ ok t
      → waiting queue t ≡ waiting queue s ++ record { task = task; args = args } ∷ []
  pub takes :
      {queue : Text} {m : Message} {rest : List Message} {s : C.State}
      → waiting queue s ≡ m ∷ rest
      → (t : C.State) × (C.take queue s ≡ some (m, t)) × (waiting queue t ≡ rest)
  pub rests : {queue : Text} {s : C.State} → waiting queue s ≡ [] → C.take queue s ≡ none

-- The variables of `os.environ` that `make_celery` reads, and what it sets
pub record CeleryEnviron : Type 0 where
  pub celery_broker_url : Option Text
  pub celery_result_backend : Option Text
  pub celery_task_default_queue : Option Text

pub record CeleryConf : Type 0 where
  pub broker : Text
  pub backend : Text
  pub task_default_queue : Text
  pub imports : List Text

-- `os.environ.get(name, default)`
abbrev pub get_or : Option Text → Text → Text
get_or none default = default
get_or (some value) default = value

unfoldable pub make_celery : CeleryEnviron → CeleryConf
make_celery env = record {
  broker = get_or env.celery_broker_url (codes "redis://localhost:6379/1");
  backend = get_or env.celery_result_backend (codes "redis://localhost:6379/2");
  task_default_queue = get_or env.celery_task_default_queue (codes "ingest");
  imports = codes "rag_document_processor.workers.tasks" ∷ [];
}

-- `CeleryTaskQueue.enqueue_process_job`
unfoldable pub enqueue_process_job : (C : Celery) → CeleryConf → ℕ → C.State → Result C.State
enqueue_process_job C conf job_id =
    C.send_task (codes "rag_document_processor.workers.tasks.process_ingestion_job")
      (uuid_text job_id ∷ []) conf.task_default_queue
