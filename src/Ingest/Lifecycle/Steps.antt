-- ===== src/Ingest/Lifecycle/Steps.antt =====
-- What a step may do to the table of jobs, however the ports behave.
use rag_document_processor.Prelude.{
  ℕ, ◌≡◌, ◌≢◌, refl, sym, ap, ◌∙◌, Option, none, some, List, arith, ◌==◌, ==_iff, if◌then◌else◌,
  inl, inr, ◌⊎◌,
}
use rag_document_processor.Prelude.Text.{Text}
use rag_document_processor.Domain.Exceptions.{Result}
use rag_document_processor.Domain.Entities.{
  IngestionJob, JobStatus, pending, processing, completed, failed,
}
use rag_document_processor.Options.Choices.{Settings}
use rag_document_processor.Jobs.{Table, NewJob, get_by_id, new_row, set_status}
use rag_document_processor.Jobs.Laws.{get_by_id-update_status}
use rag_document_processor.Ingest.Fields.{JobFields}
use rag_document_processor.Ingest.Ports.{Ports, World}
use rag_document_processor.Ingest.Process.{attempt, execute}
use rag_document_processor.Ingest.Process.Laws.{execute_idle, execute-other}
use rag_document_processor.Ingest.Process.Row.{final_row, get_by_id-execute}
use rag_document_processor.Ingest.Submit.{submit_file, submit_url, submit_text, stored_file}
use rag_document_processor.Ingest.Submit.Laws.{
  Stored, url_job, text_job, FileStored, submit_file_lem, submit_url_lem, submit_text_lem,
}
use rag_document_processor.Ingest.Lifecycle.{
  Step, file_submitted, url_submitted, text_submitted, worked, died,
}

-- What a worker makes of a row: it marks it, and ends it completed or failed.
pub data Ran (job : IngestionJob) : IngestionJob → Type 0 where
  begun : (started : ℕ) → Ran job (set_status started processing none job)
  ended : (started ended : ℕ) (outcome : Result ℕ) → Ran job (final_row started ended outcome job)

-- The table reads as it did; or it has a new pending row; or a worker has run a row that was not
-- completed.
pub data TableStep (t t' : Table) : Type 0 where
  same : ((j : ℕ) → get_by_id j t' ≡ get_by_id j t) → TableStep t t'
  added :
      (now id : ℕ) (new : NewJob)
      → get_by_id id t ≡ none
      → new.status ≡ pending
      → ((j : ℕ) → get_by_id j t' ≡ (if id == j then some (new_row now id new) else get_by_id j t))
      → TableStep t t'
  ran :
      (id : ℕ) (job job' : IngestionJob)
      → get_by_id id t ≡ some job
      → job.status ≢ completed
      → Ran job job'
      → ((j : ℕ) → get_by_id j t' ≡ (if id == j then some job' else get_by_id j t))
      → TableStep t t'

same_table : {t t' : Table} → t' ≡ t → TableStep t t'
same_table e = same (λ j. ap (get_by_id j) e)

if_at :
    (id j : ℕ) (at here other : Option IngestionJob)
    → (id ≡ j → at ≡ here)
    → (j ≢ id → at ≡ other)
    → at ≡ (if id == j then here else other)
if_at id j at here other eq neq = ground arith

pub status_cases : (s : JobStatus) → (s ≡ completed) ⊎ (s ≢ completed)
status_cases pending = inr (λ e. cc)
status_cases processing = inr (λ e. cc)
status_cases completed = inl refl
status_cases failed = inr (λ e. cc)

pub row_cases :
    (found : Option IngestionJob) → (found ≡ none) ⊎ ((job : IngestionJob) × (found ≡ some job))
row_cases none = inl refl
row_cases (some job) = inr (job, refl)

module _ (P : Ports) (settings : Settings) where
  stored_table :
      (w : World P Table) (r : Result ℕ × World P Table) (now id : ℕ) (new : NewJob)
      → new.status ≡ pending
      → Stored P settings now id new w r
      → TableStep w.jobs r.1.jobs
  stored_table w r now id new first (jobs, fresh, reads, inl (e, refused, left)) =
      added now id new fresh first (λ j. ap (λ p. get_by_id j p.1.jobs) left ∙ reads j)
  stored_table w r now id new first (jobs, fresh, reads, inr (queue, queued, left)) =
      added now id new fresh first (λ j. ap (λ p. get_by_id j p.1.jobs) left ∙ reads j)

  file_table :
      (w : World P Table) (r : Result ℕ × World P Table) (now id : ℕ) (filename : Option Text)
      (bytes : List ℕ) (ctype : Text) (tier : Option Text) (fields : JobFields)
      → FileStored P settings now id filename bytes ctype tier fields w r
      → TableStep w.jobs r.1.jobs
  file_table w r now id filename bytes ctype tier fields (blobs, put, inl (e, left)) =
      same_table (ap (λ p. p.1.jobs) left)
  file_table w r now id filename bytes ctype tier fields (blobs, put, inr stored) =
      stored_table (record w { blobs = blobs }) r now id
        (stored_file P settings now id filename ctype tier fields) refl stored

  execute_table :
      (started ended_ id : ℕ) (w : World P Table)
      → TableStep w.jobs (execute P settings started ended_ id w).jobs
  execute_table started ended_ id w = elim (row_cases (get_by_id id w.jobs)) [
    | inl missing ↦
        same_table (ap (λ v. v.jobs) (execute_idle P settings started ended_ id w (inl missing)))
    | inr (job, found) ↦ elim (status_cases job.status) [
      | inl done ↦
          same_table (
            ap (λ v. v.jobs) (execute_idle P settings started ended_ id w (inr (job, found, done))))
      | inr open_ ↦
          ran id job (final_row started ended_ (attempt P settings job w.blobs w.sink).0 job) found
            open_ (ended started ended_ (attempt P settings job w.blobs w.sink).0)
            (λ j.
              if_at id j (get_by_id j (execute P settings started ended_ id w).jobs)
                (some (final_row started ended_ (attempt P settings job w.blobs w.sink).0 job))
                (get_by_id j w.jobs)
                (λ e.
                  ap (λ k. get_by_id k (execute P settings started ended_ id w).jobs) (sym e)
                  ∙ get_by_id-execute P settings started ended_ id w job found open_)
                (execute-other P settings started ended_ id j w))
    ]
  ]

  -- However the ports behave, each step of the service leaves the table of jobs reading as it did, or
  -- with one more row, pending and of a new id, or with one row that was not completed marked as
  -- processing, or ended with the outcome of a run.
  pub Step-TableStep : (w v : World P Table) → Step P settings w v → TableStep w.jobs v.jobs
  Step-TableStep w v (file_submitted now id filename content_type bytes raw) =
      elim (submit_file_lem P settings now id filename content_type bytes raw w) [
        | inl (e, left) ↦ same_table (ap (λ p. p.1.jobs) left)
        | inr (ctype, tier, fields, checked, left) ↦
            file_table w (submit_file P settings now id filename content_type bytes raw w) now id
              filename bytes ctype tier fields left
      ]
  Step-TableStep w v (url_submitted now id source raw) =
      elim (submit_url_lem P settings now id source raw w) [
        | inl (e, left) ↦ same_table (ap (λ p. p.1.jobs) left)
        | inr (tier, fields, checked, stored) ↦
            stored_table w (submit_url P settings now id source raw w) now id
              (url_job P settings now id source tier fields) refl stored
      ]
  Step-TableStep w v (text_submitted now id texts raw) =
      elim (submit_text_lem P settings now id texts raw w) [
        | inl (e, left) ↦ same_table (ap (λ p. p.1.jobs) left)
        | inr (tier, fields, checked, stored) ↦
            stored_table w (submit_text P settings now id texts raw w) now id
              (text_job P settings now id texts tier fields) refl stored
      ]
  Step-TableStep w v (worked started ended_ id small) = execute_table started ended_ id w
  Step-TableStep w v (died started id job sink small writes found open_) =
      ran id job (set_status started processing none job) found open_ (begun started) (λ j.
        ground
          (arith, get_by_id-update_status started id j processing none w.jobs, ==_iff id j, found))
