-- ===== src/Ingest/Process/Laws.antt =====
-- What `execute` leaves behind, whatever the ports do.
use rag_document_processor.Prelude.{
  ℕ, ◌+◌, ◌≡◌, ◌≢◌, refl, inl, inr, ◌⊎◌, true, false, Option, none, some, arith, ◌==◌,
}
use rag_document_processor.Domain.Exceptions.{Result, ok, err}
use rag_document_processor.Domain.Entities.{
  IngestionJob, JobStatus, pending, processing, completed, failed,
}
use rag_document_processor.Options.Choices.{Settings}
use rag_document_processor.Jobs.{Table, get_by_id, set_status, update_status, add_chunks}
use rag_document_processor.Jobs.Laws.{
  get_by_id-id, get_by_id-update_status, get_by_id-increment_chunks,
}
use rag_document_processor.Ingest.Ports.{Ports, World}
use rag_document_processor.Ingest.Process.{
  attempt, record_outcome, run_job, run_unless_completed, execute,
}

-- How a row ends after an attempt: the number of chunks is added and the job is completed, or the
-- exception is stored and the job has failed. A completed job keeps the error of an earlier attempt.
abbrev pub Ends : IngestionJob → Result ℕ → IngestionJob → Type 0
Ends before (ok chunks) after =
    (after.status ≡ completed)
    × (after.chunks_emitted ≡ before.chunks_emitted + chunks)
    × (after.error_message ≡ before.error_message)
Ends before (err e) after =
    (after.status ≡ failed)
    × (after.chunks_emitted ≡ before.chunks_emitted)
    × (after.error_message ≡ some e)

eq_refl : (n : ℕ) → (n == n) ≡ true
eq_refl n = ground arith

ne-false : (m n : ℕ) → n ≢ m → (m == n) ≡ false
ne-false m n h = ground arith

module _ (P : Ports) (settings : Settings) where
  record_outcome-Ends :
      (started ended id : ℕ) (job : IngestionJob) (outcome : Result ℕ) (jobs : Table)
      → get_by_id id jobs ≡ some job
      → (after : IngestionJob) × (get_by_id id (
            record_outcome P settings ended id outcome
              (update_status started id processing none jobs))
          ≡ some after)
        × Ends job outcome after
  unfolding record_outcome
  record_outcome-Ends started ended id job (ok chunks) jobs h = (
    set_status ended completed none
        (add_chunks ended chunks (set_status started processing none job)),
    simp (get_by_id-update_status, get_by_id-increment_chunks, eq_refl id, h),
    unfold set_status add_chunks in (refl, refl, refl),
  )
  record_outcome-Ends started ended id job (err e) jobs h = (
    set_status ended failed (some e) (set_status started processing none job),
    simp (get_by_id-update_status, eq_refl id, h),
    unfold set_status in (refl, refl, refl),
  )

  record_outcome-ne :
      (started ended id j : ℕ) (outcome : Result ℕ) (jobs : Table)
      → j ≢ id
      → get_by_id j (
          record_outcome P settings ended id outcome
            (update_status started id processing none jobs))
        ≡ get_by_id j jobs
  unfolding record_outcome
  record_outcome-ne started ended id j (ok chunks) jobs h =
      simp (get_by_id-update_status, get_by_id-increment_chunks, ne-false id j h)
  record_outcome-ne started ended id j (err e) jobs h =
      simp (get_by_id-update_status, ne-false id j h)

  run_unless_completed-eq :
      (started ended : ℕ) (job : IngestionJob) (w : World P Table) (status : JobStatus)
      → status ≢ completed
      → run_unless_completed P settings started ended job status w
        ≡ run_job P settings started ended job w
  run_unless_completed-eq started ended job w pending h = refl
  run_unless_completed-eq started ended job w processing h = refl
  run_unless_completed-eq started ended job w failed h = refl
  run_unless_completed-eq started ended job w completed h = absurd (h refl)

  pub execute-eq-run_job :
      (started ended id : ℕ) (w : World P Table) (job : IngestionJob)
      → get_by_id id w.jobs ≡ some job
      → job.status ≢ completed
      → execute P settings started ended id w ≡ run_job P settings started ended job w
  unfolding execute
  execute-eq-run_job started ended id w job h open_ =
      rw (h, execute) (run_unless_completed-eq started ended job w job.status open_)

  -- A job that is there and not completed ends completed or failed, as its attempt went, and the sink
  -- is as the attempt left it.
  pub execute-Ends :
      (started ended id : ℕ) (w : World P Table) (job : IngestionJob)
      → get_by_id id w.jobs ≡ some job
      → job.status ≢ completed
      → (after : IngestionJob) × (get_by_id id (execute P settings started ended id w).jobs
          ≡ some after)
        × Ends job (attempt P settings job w.blobs w.sink).0 after
        × ((execute P settings started ended id w).sink ≡ (attempt P settings job w.blobs w.sink).1)
  execute-Ends started ended id w job h open_ =
      let same = get_by_id-id id w.jobs job h in
      let (after, found, ends) =
        record_outcome-Ends started ended id job (attempt P settings job w.blobs w.sink).0 w.jobs
          h in
      (
        after,
        rw (execute-eq-run_job started ended id w job h open_) (unfold run_job in simp same found),
        ends,
        rw (execute-eq-run_job started ended id w job h open_) (unfold run_job in refl),
      )

  run_job-other :
      (started ended : ℕ) (job : IngestionJob) (j : ℕ) (w : World P Table)
      → j ≢ job.id
      → get_by_id j (run_job P settings started ended job w).jobs ≡ get_by_id j w.jobs
  unfolding run_job
  run_job-other started ended job j w h =
      record_outcome-ne started ended job.id j (attempt P settings job w.blobs w.sink).0 w.jobs h

  run_unless_completed-other :
      (started ended : ℕ) (job : IngestionJob) (j : ℕ) (w : World P Table) (status : JobStatus)
      → j ≢ job.id
      → get_by_id j (run_unless_completed P settings started ended job status w).jobs
        ≡ get_by_id j w.jobs
  run_unless_completed-other started ended job j w pending h = run_job-other started ended job j w h
  run_unless_completed-other started ended job j w processing h =
      run_job-other started ended job j w h
  run_unless_completed-other started ended job j w failed h = run_job-other started ended job j w h
  run_unless_completed-other started ended job j w completed h = refl

  -- Processing one job changes no other row.
  pub execute-other :
      (started ended id j : ℕ) (w : World P Table)
      → j ≢ id
      → get_by_id j (execute P settings started ended id w).jobs ≡ get_by_id j w.jobs
  unfolding execute
  execute-other started ended id j w h = go (get_by_id id w.jobs) refl
    where
      go :
          (found : Option IngestionJob)
          → get_by_id id w.jobs ≡ found
          → get_by_id j (execute P settings started ended id w).jobs ≡ get_by_id j w.jobs
      go none found = rw (found, execute) refl
      go (some job) found =
          let same = get_by_id-id id w.jobs job found in
          rw (found, execute)
            (run_unless_completed-other started ended job j w job.status (rw same h))

  -- A missing job and a completed one are left alone, and so is all the rest.
  pub execute_idle :
      (started ended id : ℕ) (w : World P Table)
      → (get_by_id id w.jobs ≡ none)
        ⊎ ((job : IngestionJob) × (get_by_id id w.jobs ≡ some job) × (job.status ≡ completed))
      → execute P settings started ended id w ≡ w
  unfolding execute
  execute_idle started ended id w (inl h) = rw (h, execute)
  execute_idle started ended id w (inr (job, h, done)) = rw (h, execute) (rw done refl)
