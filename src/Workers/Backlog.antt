-- ===== src/Workers/Backlog.antt =====
-- The API and a worker in turn, where the broker takes every task and no worker dies: a job that was
-- accepted is not forgotten.
pub mod Turns
use rag_document_processor.Prelude.{
  ℕ, ◌<◌, ◌≡◌, ◌≢◌, ◌⊎◌, inl, inr, refl, sym, ap, ◌∙◌, ◌==◌, if◌then◌else◌, arith, Option, none,
  some, List, [], ◌∷◌, ◌++◌, map, length, All, Any, Any-append_last, All-append_last,
}
use mathlib.Core.Path.{subst}
use rag_document_processor.Prelude.Text.{Text}
use rag_document_processor.Prelude.Uuid.{uuid_count}
use rag_document_processor.Domain.Exceptions.{Error, Result, ok, err}
use rag_document_processor.Domain.Entities.{IngestionJob}
use rag_document_processor.Options.Choices.{Settings}
use rag_document_processor.Pipelines.Factory.{Pipeline}
use rag_document_processor.Jobs.{Table, NewJob, get_by_id, new_row}
use rag_document_processor.Ingest.Fields.{RawFields}
use rag_document_processor.Ingest.Ports.{Ports, World}
use rag_document_processor.Ingest.Process.{execute}
use rag_document_processor.Ingest.Process.Laws.{execute-other}
use rag_document_processor.Ingest.Submit.{submit_file, submit_url, submit_text, stored_file}
use rag_document_processor.Ingest.Submit.Laws.{
  Stored, url_job, text_job, submit_file_lem, submit_url_lem, submit_text_lem,
}
use rag_document_processor.TaskQueue.{IsCelery, enqueue_process_job, make_celery}
use rag_document_processor.Service.{Deployment, build_container, build_default_pipeline}
use rag_document_processor.Workers.{Resource, work, work_off}
use rag_document_processor.Workers.Laws.{
  Settled, IsThere, same_or_not, message_of, Queued, All-each, execute-Settled, execute-IsThere,
  execute_keeps-Settled, work_first, work_off-keeps, work_off-Settled,
}

Any-append_left : (F : ℕ → Type 0) (ids : List ℕ) (id : ℕ) → Any F ids → Any F (ids ++ id ∷ [])
Any-append_left F (i ∷ ids) id (inl here) = inl here
Any-append_left F (i ∷ ids) id (inr there) = inr (Any-append_left F ids id there)
Any-append_left F [] id h = elim h [ ]

map-append_last :
    (ids : List ℕ) (id : ℕ)
    → map message_of (ids ++ id ∷ []) ≡ map message_of ids ++ message_of id ∷ []
map-append_last [] id = refl
map-append_last (i ∷ ids) id = ap (λ rest. message_of i ∷ rest) (map-append_last ids id)

module _ (settings : Settings) (D : Deployment) (close : Resource → Result (Unit {0})) where
  abbrev pub P : Ports
  P = build_container settings D

  -- A request is answered, or a worker takes the next message and runs its task to the end.
  pub data Turn (w : World P Table) : World P Table → Type 0 where
    file_sent :
        (now job_id : ℕ) (filename content_type : Option Text) (bytes : List ℕ) (raw : RawFields)
        → job_id < uuid_count
        → Turn w (submit_file P settings now job_id filename content_type bytes raw w).1
    url_sent :
        (now job_id : ℕ) (source : Text) (raw : RawFields)
        → job_id < uuid_count
        → Turn w (submit_url P settings now job_id source raw w).1
    texts_sent :
        (now job_id : ℕ) (texts : List Text) (raw : RawFields)
        → job_id < uuid_count
        → Turn w (submit_text P settings now job_id texts raw w).1
    task_run : (started ended : ℕ) → Turn w (work settings D close started ended w)

  pub data Serves (w : World P Table) : World P Table → Type 0 where
    start : Serves w w
    then_ : {u v : World P Table} → Serves w u → Turn u v → Serves w v

  module _ (sound : IsCelery D.celery) (pipeline : Pipeline)
      (built : build_default_pipeline settings D ≡ ok pipeline) where
    abbrev pub InQueue : List ℕ → World P Table → Type 0
    InQueue ids w = Queued settings D close sound pipeline built ids w.queue

    -- Every row has ended, or its task waits.
    pub record Backlog (w : World P Table) : Type 0 where
      pub ids : List ℕ
      pub queued : InQueue ids w
      pub small : All (λ i. i < uuid_count) ids
      pub rows : All (λ i. IsThere i w.jobs) ids
      pub covered : (j : ℕ) → IsThere j w.jobs → Settled j w.jobs ⊎ Any (λ i. i ≡ j) ids

    -- Only the table and the queue count.
    pub same-Backlog :
        (w v : World P Table) → v.jobs ≡ w.jobs → v.queue ≡ w.queue → Backlog w → Backlog v
    same-Backlog w v jobs queue b = record {
      ids = b.ids;
      queued = rw queue b.queued;
      small = b.small;
      rows = rw jobs b.rows;
      covered = rw jobs b.covered;
    }

    module _ (w : World P Table) (now id : ℕ) (new : NewJob) (jobs : Table)
        (reads : (j : ℕ)
          → get_by_id j jobs
            ≡ (if id == j then some (new_row now id new) else get_by_id j w.jobs)) where
      reads_new : get_by_id id jobs ≡ some (new_row now id new)
      reads_new = ground (arith, reads id)

      reads_old : (j : ℕ) → j ≢ id → get_by_id j jobs ≡ get_by_id j w.jobs
      reads_old j other = ground (arith, reads j)

      still-IsThere : (j : ℕ) → IsThere j w.jobs → IsThere j jobs
      still-IsThere j (job, found) = elim (same_or_not j id) [
        | inl same ↦ (new_row now id new, rw same reads_new)
        | inr other ↦ (job, reads_old j other ∙ found)
      ]

      -- The new row waits, and the others are as they were.
      pub added-Backlog :
          (queue : D.celery.State)
          → id < uuid_count
          → P.enqueue id w.queue ≡ ok queue
          → Backlog w
          → Backlog (record w { jobs = jobs; queue = queue })
      unfolding enqueue_process_job
      added-Backlog queue fits sent b = record {
        ids = b.ids ++ id ∷ [];
        queued =
            sound.sends sent
            ∙ ap (λ ms. ms ++ message_of id ∷ []) b.queued
            ∙ sym (map-append_last b.ids id);
        small = All-append_last (λ i. i < uuid_count) b.ids id b.small fits;
        rows =
            All-append_last (λ i. IsThere i jobs) b.ids id
              (All-each (λ i. IsThere i w.jobs) (λ i. IsThere i jobs) still-IsThere b.ids b.rows)
              (new_row now id new, reads_new);
        covered = λ j there. elim (same_or_not j id) [
          | inl same ↦ inr (Any-append_last (λ i. i ≡ j) b.ids id (sym same))
          | inr other ↦ old_covered j other there
        ];
      }
        where
          old_covered :
              (j : ℕ)
              → j ≢ id
              → IsThere j jobs
              → Settled j jobs ⊎ Any (λ i. i ≡ j) (b.ids ++ id ∷ [])
          old_covered j other (job, found) =
              elim (b.covered j (job, sym (reads_old j other) ∙ found)) [
                | inl (row, before, ended) ↦ inl (row, reads_old j other ∙ before, ended)
                | inr waits ↦ inr (Any-append_left (λ i. i ≡ j) b.ids id waits)
              ]
