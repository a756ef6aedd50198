-- ===== src/Ingest/Process/Row.antt =====
-- The very row that `execute` leaves.
use rag_document_processor.Prelude.{ℕ, ◌≡◌, ◌≢◌, true, ◌==◌, none, some, arith}
use rag_document_processor.Domain.Exceptions.{Result, ok, err}
use rag_document_processor.Domain.Entities.{IngestionJob, processing, completed, failed}
use rag_document_processor.Options.Choices.{Settings}
use rag_document_processor.Jobs.{Table, get_by_id, set_status, update_status, add_chunks}
use rag_document_processor.Jobs.Laws.{
  get_by_id-id, get_by_id-update_status, get_by_id-increment_chunks,
}
use rag_document_processor.Ingest.Ports.{Ports, World}
use rag_document_processor.Ingest.Process.{attempt, record_outcome, run_job, execute}
use rag_document_processor.Ingest.Process.Laws.{execute-eq-run_job}

-- The row of a job that started and ended at these times, with this outcome
abbrev pub final_row : ℕ → ℕ → Result ℕ → IngestionJob → IngestionJob
final_row started ended (ok chunks) job =
    set_status ended completed none
      (add_chunks ended chunks (set_status started processing none job))
final_row started ended (err e) job =
    set_status ended failed (some e) (set_status started processing none job)

eq_refl : (n : ℕ) → (n == n) ≡ true
eq_refl n = ground arith

module _ (P : Ports) (settings : Settings) where
  pub record_outcome-final_row :
      (started ended id : ℕ) (job : IngestionJob) (outcome : Result ℕ) (jobs : Table)
      → get_by_id id jobs ≡ some job
      → get_by_id id (
          record_outcome P settings ended id outcome
            (update_status started id processing none jobs))
        ≡ some (final_row started ended outcome job)
  unfolding record_outcome
  record_outcome-final_row started ended id job (ok chunks) jobs h =
      simp (get_by_id-update_status, get_by_id-increment_chunks, eq_refl id, h)
  record_outcome-final_row started ended id job (err e) jobs h =
      simp (get_by_id-update_status, eq_refl id, h)

  pub get_by_id-execute :
      (started ended id : ℕ) (w : World P Table) (job : IngestionJob)
      → get_by_id id w.jobs ≡ some job
      → job.status ≢ completed
      → get_by_id id (execute P settings started ended id w).jobs
        ≡ some (final_row started ended (attempt P settings job w.blobs w.sink).0 job)
  get_by_id-execute started ended id w job h open_ =
      rw (execute-eq-run_job P settings started ended id w job h open_) (
        unfold run_job in
        simp (get_by_id-id id w.jobs job h) (
          record_outcome-final_row started ended id job (attempt P settings job w.blobs w.sink).0
            w.jobs h))
