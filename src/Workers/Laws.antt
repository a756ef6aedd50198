-- ===== src/Workers/Laws.antt =====
-- What becomes of the jobs whose tasks are queued.
use rag_document_processor.Prelude.{
  ℕ, ◌<◌, ◌≡◌, ◌≢◌, ◌⊎◌, inl, inr, refl, sym, ◌∙◌, Bool-cases, ◌==◌, arith, none, some, List, [],
  ◌∷◌, map, length, All,
}
use mathlib.Core.Path.{subst}
use rag_document_processor.Prelude.Text.{codes}
use rag_document_processor.Prelude.Text.Laws.{text_eq_refl}
use rag_document_processor.Prelude.Uuid.{uuid_count, uuid_text}
use rag_document_processor.Prelude.Uuid.Read.{uuid_of-uuid_text}
use rag_document_processor.Domain.Exceptions.{Result, ok, err}
use rag_document_processor.Domain.Entities.{
  IngestionJob, JobStatus, pending, processing, completed, failed,
}
use rag_document_processor.Options.Choices.{Settings}
use rag_document_processor.Pipelines.Factory.{Pipeline}
use rag_document_processor.Jobs.{Table, get_by_id}
use rag_document_processor.Ingest.Ports.{Ports, World}
use rag_document_processor.Ingest.Process.{attempt, execute, run_unless_completed, run_job}
use rag_document_processor.Ingest.Process.Laws.{Ends, execute_idle, execute-Ends, execute-other}
use rag_document_processor.Ingest.Lifecycle.Steps.{status_cases}
use rag_document_processor.TaskQueue.{Message, IsCelery, make_celery}
use rag_document_processor.Service.{Deployment, build_container, build_default_pipeline}
use rag_document_processor.Workers.{Resource, async_process, run_message, work, work_off}

-- A row that a worker has brought to an end
abbrev pub Settled : ℕ → Table → Type 0
Settled id jobs =
    (job : IngestionJob) × (get_by_id id jobs ≡ some job)
    × ((job.status ≡ completed) ⊎ (job.status ≡ failed))

abbrev pub IsThere : ℕ → Table → Type 0
IsThere id jobs = (job : IngestionJob) × (get_by_id id jobs ≡ some job)

Ends-settled :
    (before after : IngestionJob) (outcome : Result ℕ)
    → Ends before outcome after
    → (after.status ≡ completed) ⊎ (after.status ≡ failed)
Ends-settled before after (ok n) (status, _, _) = inl status
Ends-settled before after (err e) (status, _, _) = inr status

pub same_or_not : (m n : ℕ) → (m ≡ n) ⊎ (m ≢ n)
same_or_not m n = elim (Bool-cases (m == n)) [
  | inl same ↦ inl (ground arith)
  | inr other ↦ inr (λ e. ground arith)
]

module _ (P : Ports) (settings : Settings) (started ended : ℕ) (w : World P Table) where
  -- A job that is there ends completed or failed.
  pub execute-Settled :
      (id : ℕ) → IsThere id w.jobs → Settled id (execute P settings started ended id w).jobs
  execute-Settled id (job, found) = elim (status_cases job.status) [
    | inl status ↦
        rw (execute_idle P settings started ended id w (inr (job, found, status)))
          (job, found, inl status)
    | inr open_ ↦
        let (after, there, ends, _) = execute-Ends P settings started ended id w job found open_ in
        (after, there, Ends-settled job after (attempt P settings job w.blobs w.sink).0 ends)
  ]

  -- A row is lost to no run, and one that has ended stays ended.
  pub execute-IsThere :
      (id j : ℕ) → IsThere j w.jobs → IsThere j (execute P settings started ended id w).jobs
  execute-IsThere id j (job, found) = elim (same_or_not j id) [
    | inl same ↦
        let (after, there, _) = execute-Settled j (job, found) in
        (
          after,
          subst (λ i. get_by_id j (execute P settings started ended i w).jobs ≡ some after) same
              there,
        )
    | inr other ↦ (job, execute-other P settings started ended id j w other ∙ found)
  ]

  pub execute_keeps-Settled :
      (id j : ℕ) → Settled j w.jobs → Settled j (execute P settings started ended id w).jobs
  execute_keeps-Settled id j (job, found, status) = elim (same_or_not j id) [
    | inl same ↦
        subst (λ i. Settled j (execute P settings started ended i w).jobs) same
          (execute-Settled j (job, found))
    | inr other ↦ (job, execute-other P settings started ended id j w other ∙ found, status)
  ]

  pub execute-queue : (id : ℕ) → (execute P settings started ended id w).queue ≡ w.queue
  unfolding execute run_job
  execute-queue id =
      elim (get_by_id id w.jobs)
        as (λ found.
          (elim found as (λ x. World P Table) [
            | none ↦ w
            | some job ↦ run_unless_completed P settings started ended job job.status w
          ]).queue
          ≡ w.queue) [ none ↦ refl | some job ↦ run_queue job job.status ]
    where
      run_queue :
          (job : IngestionJob) (status : JobStatus)
          → (run_unless_completed P settings started ended job status w).queue ≡ w.queue
      run_queue job pending = refl
      run_queue job processing = refl
      run_queue job completed = refl
      run_queue job failed = refl

pub All-each :
    (F G : ℕ → Type 0) → ((id : ℕ) → F id → G id) → (ids : List ℕ) → All F ids → All G ids
All-each F G step [] all = tt
All-each F G step (id ∷ ids) (one, rest) = (step id one, All-each F G step ids rest)

-- The message that is sent for a job
abbrev pub message_of : ℕ → Message
message_of id = record {
  task = codes "rag_document_processor.workers.tasks.process_ingestion_job";
  args = uuid_text id ∷ [];
}

module _ (settings : Settings) (D : Deployment) (close : Resource → Result (Unit {0}))
    (sound : IsCelery D.celery) (pipeline : Pipeline)
    (built : build_default_pipeline settings D ≡ ok pipeline) where
  abbrev P : Ports
  P = build_container settings D

  -- The tasks of the jobs that wait in the queue of the workers
  abbrev pub Queued : List ℕ → D.celery.State → Type 0
  Queued ids s =
      sound.waiting (make_celery D.celery_environ).task_default_queue s ≡ map message_of ids

  -- The message of a job runs the use case on it.
  run_message_lem :
      (started ended id : ℕ) (w : World P Table)
      → id < uuid_count
      → (run_message settings D close started ended (message_of id) w).world
        ≡ execute P settings started ended id w
  unfolding run_message async_process
  run_message_lem started ended id w small =
      rw (text_eq_refl (message_of id).task, built, uuid_of-uuid_text id small) refl

  pub work_first :
      (started ended id : ℕ) (ids : List ℕ) (w : World P Table)
      → id < uuid_count
      → Queued (id ∷ ids) w.queue
      → (t : D.celery.State) × (work settings D close started ended w
          ≡ execute P settings started ended id (record w { queue = t }))
        × Queued ids (execute P settings started ended id (record w { queue = t })).queue
  unfolding work
  work_first started ended id ids w small queued =
      let (t, taken, rest) = sound.takes queued in
      let u = record w { queue = t } in
      (
        t,
        rw taken (run_message_lem started ended id u small),
        rw (execute-queue P settings started ended u id) rest,
      )

  -- A row that has ended stays so while the queue is worked off.
  pub work_off-keeps :
      (times : List (ℕ × ℕ)) (ids : List ℕ) (w : World P Table) (j : ℕ)
      → length times ≡ length ids
      → All (λ id. id < uuid_count) ids
      → Queued ids w.queue
      → Settled j w.jobs
      → Settled j (work_off settings D close times w).jobs
  unfolding work_off
  work_off-keeps [] [] w j count small queued settled = settled
  work_off-keeps ((started, ended) ∷ times) (id ∷ ids) w j count (first, small) queued settled =
      let (t, now, rest) = work_first started ended id ids w first queued in
      let u = record w { queue = t } in
      rw (now, work_off)
        (work_off-keeps times ids (execute P settings started ended id u) j (omega (arith, count))
          small rest (execute_keeps-Settled P settings started ended u id j settled))
  work_off-keeps [] (id ∷ ids) w j count small queued settled = ground arith
  work_off-keeps (time ∷ times) [] w j count small queued settled = ground arith

  -- If the default pipeline of the deployment can be built, then a worker that takes as many messages as
  -- there are empties its queue, and every job whose task was queued, where its row is there, ends
  -- completed or failed, in whatever order the tasks stand and however often one is queued.
  pub work_off-Settled :
      (times : List (ℕ × ℕ)) (ids : List ℕ) (w : World P Table)
      → length times ≡ length ids
      → All (λ id. id < uuid_count) ids
      → All (λ id. IsThere id w.jobs) ids
      → Queued ids w.queue
      → Queued [] (work_off settings D close times w).queue
        × All (λ id. Settled id (work_off settings D close times w).jobs) ids
  unfolding work_off
  work_off-Settled [] [] w count small there queued = (queued, tt)
  work_off-Settled ((started, ended) ∷ times) (id ∷ ids) w count (first, small) (row, there)
        queued =
      let (t, now, rest) = work_first started ended id ids w first queued in
      let u = record w { queue = t } in
      let v = execute P settings started ended id u in
      let fewer : length times ≡ length ids = omega (arith, count) in
      let (empty, others) =
        work_off-Settled times ids v fewer small
          (All-each (λ j. IsThere j w.jobs) (λ j. IsThere j v.jobs)
            (execute-IsThere P settings started ended u id) ids there)
          rest in
      subst
        (λ x.
          Queued [] (work_off settings D close times x).queue
          × All (λ i. Settled i (work_off settings D close times x).jobs) (id ∷ ids))
        (sym now)
        (
          empty,
          (
            work_off-keeps times ids v id fewer small rest
                (execute-Settled P settings started ended u id row),
            others,
          ),
        )
  work_off-Settled [] (id ∷ ids) w count small there queued = ground arith
  work_off-Settled (time ∷ times) [] w count small there queued = ground arith
