-- ===== src/Ingest/Submit/Laws.antt =====
-- What a submission leaves behind, when it succeeds and when it fails.
use rag_document_processor.Prelude.{
  ℕ, ◌≡◌, refl, Option, none, some, List, ◌==◌, if◌then◌else◌, inl, inr, ◌⊎◌,
}
use rag_document_processor.Prelude.Text.{Text, codes, strip}
use rag_document_processor.Domain.Exceptions.{Error, Result, ok, err, Result-cases}
use rag_document_processor.Domain.Entities.{url, text}
use rag_document_processor.Options.Choices.{Settings}
use rag_document_processor.Jobs.{Table, NewJob, get_by_id, new_row, create}
use rag_document_processor.Jobs.Laws.{create-eq, get_by_id-create}
use rag_document_processor.Ingest.Fields.{RawFields, JobFields}
use rag_document_processor.Ingest.Segments.{text_payload}
use rag_document_processor.Ingest.Ports.{Ports, World}
use rag_document_processor.Ingest.Submit.{
  new_job, check_fields, check_file, blob_key_of, enqueue_job, create_and_enqueue, stored_file,
  put_and_create, submit_file, submit_url, submit_text,
}

module _ (P : Ports) (settings : Settings) (now job_id : ℕ) where
  -- The new row is in the table, which had none of that id, and every other row is as it was. The
  -- task is queued after that: if the queue refuses it, the submission fails and the row stays.
  abbrev pub Stored : NewJob → World P Table → Result ℕ × World P Table → Type 0
  Stored new w r =
      (jobs : Table) × (get_by_id job_id w.jobs ≡ none)
      × ((j : ℕ)
          → get_by_id j jobs
            ≡ (if job_id == j then some (new_row now job_id new) else get_by_id j w.jobs))
      × (((e : Error) × (P.enqueue job_id w.queue ≡ err e)
            × (r ≡ (err e, record w { jobs = jobs })))
          ⊎ ((queue : P.Queue) × (P.enqueue job_id w.queue ≡ ok queue)
              × (r ≡ (ok job_id, record w { jobs = jobs; queue = queue }))))

  -- The submission fails and changes nothing.
  abbrev pub Unchanged : World P Table → Result ℕ × World P Table → Type 0
  Unchanged w r = (e : Error) × (r ≡ (err e, w))

  create_and_enqueue_refused :
      (new : NewJob) (w : World P Table) (e : Error)
      → create now job_id new w.jobs ≡ err e
      → create_and_enqueue P settings now job_id new w ≡ (err e, w)
  unfolding create_and_enqueue
  create_and_enqueue_refused new w e h = rw (h, create_and_enqueue)

  create_and_enqueue_unqueued :
      (new : NewJob) (w : World P Table) (jobs : Table) (e : Error)
      → create now job_id new w.jobs ≡ ok jobs
      → P.enqueue job_id w.queue ≡ err e
      → create_and_enqueue P settings now job_id new w ≡ (err e, record w { jobs = jobs })
  unfolding create_and_enqueue enqueue_job
  create_and_enqueue_unqueued new w jobs e h k = rw (h, create_and_enqueue) (rw (k, enqueue_job))

  pub create_and_enqueue_queued :
      (new : NewJob) (w : World P Table) (jobs : Table) (queue : P.Queue)
      → create now job_id new w.jobs ≡ ok jobs
      → P.enqueue job_id w.queue ≡ ok queue
      → create_and_enqueue P settings now job_id new w
        ≡ (ok job_id, record w { jobs = jobs; queue = queue })
  unfolding create_and_enqueue enqueue_job
  create_and_enqueue_queued new w jobs queue h k = rw (h, create_and_enqueue) (rw (k, enqueue_job))

  create_and_enqueue-cases :
      (new : NewJob) (w : World P Table)
      → Unchanged w (create_and_enqueue P settings now job_id new w)
        ⊎ Stored new w (create_and_enqueue P settings now job_id new w)
  create_and_enqueue-cases new w = elim (Result-cases (create now job_id new w.jobs)) [
    | inr (e, h) ↦ inl (e, create_and_enqueue_refused new w e h)
    | inl (jobs, h) ↦
        let fresh = (create-eq now job_id new w.jobs jobs h).0 in
        let read = λ (j : ℕ). get_by_id-create now job_id j new w.jobs jobs h in
        elim (Result-cases (P.enqueue job_id w.queue)) [
          | inr (e, k) ↦
              inr (jobs, fresh, read, inl (e, k, create_and_enqueue_unqueued new w jobs e h k))
          | inl (queue, k) ↦
              inr
                (jobs, fresh, read, inr (queue, k, create_and_enqueue_queued new w jobs queue h k))
        ]
  ]

  abbrev pub url_job : Text → Option Text → JobFields → NewJob
  url_job source tier fields = record (new_job url tier fields) { source_url = some (strip source) }

  abbrev pub text_job : List Text → Option Text → JobFields → NewJob
  text_job texts tier fields = record (new_job text tier fields) {
    source_text = some (text_payload texts);
    content_type = some (codes "text/plain");
  }

  -- A submitted URL either fails and changes nothing, or its fields pass the checks and a pending row
  -- is stored that holds them and the trimmed URL; then the task is queued, or the queue refuses it.
  pub submit_url_lem :
      (source : Text) (raw : RawFields) (w : World P Table)
      → Unchanged w (submit_url P settings now job_id source raw w)
        ⊎ ((tier : Option Text) × (fields : JobFields) × (check_fields settings raw
              ≡ ok (tier, fields))
            × Stored (url_job source tier fields) w (submit_url P settings now job_id source raw w))
  unfolding submit_url
  submit_url_lem source raw w = elim (Result-cases (check_fields settings raw)) [
    | inr (e, h) ↦ inl (e, rw (h, submit_url))
    | inl ((tier, fields), h) ↦
        rw (h, submit_url)
          (elim (create_and_enqueue-cases (url_job source tier fields) w) [
            | inl same ↦ inl same
            | inr stored ↦ inr (tier, fields, refl, stored)
          ])
  ]

  -- Submitted texts either fail and change nothing, or their fields pass the checks and a pending row
  -- is stored that holds them and the payload of the texts; then the task is queued, or the queue
  -- refuses it.
  pub submit_text_lem :
      (texts : List Text) (raw : RawFields) (w : World P Table)
      → Unchanged w (submit_text P settings now job_id texts raw w)
        ⊎ ((tier : Option Text) × (fields : JobFields) × (check_fields settings raw
              ≡ ok (tier, fields))
            × Stored (text_job texts tier fields) w (submit_text P settings now job_id texts raw w))
  unfolding submit_text
  submit_text_lem texts raw w = elim (Result-cases (check_fields settings raw)) [
    | inr (e, h) ↦ inl (e, rw (h, submit_text))
    | inl ((tier, fields), h) ↦
        rw (h, submit_text)
          (elim (create_and_enqueue-cases (text_job texts tier fields) w) [
            | inl same ↦ inl same
            | inr stored ↦ inr (tier, fields, refl, stored)
          ])
  ]

  put_and_create_refused :
      (filename : Option Text) (bytes : List ℕ) (ctype : Text) (tier : Option Text)
      (fields : JobFields) (w : World P Table) (e : Error)
      → P.put (blob_key_of job_id filename) bytes ctype w.blobs ≡ err e
      → put_and_create P settings now job_id filename bytes ctype tier fields w ≡ (err e, w)
  unfolding put_and_create
  put_and_create_refused filename bytes ctype tier fields w e h = rw (h, put_and_create)

  put_and_create_stored :
      (filename : Option Text) (bytes : List ℕ) (ctype : Text) (tier : Option Text)
      (fields : JobFields) (w : World P Table) (blobs : P.Blobs)
      → P.put (blob_key_of job_id filename) bytes ctype w.blobs ≡ ok blobs
      → put_and_create P settings now job_id filename bytes ctype tier fields w
        ≡ create_and_enqueue P settings now job_id
            (stored_file P settings now job_id filename ctype tier fields)
            (record w { blobs = blobs })
  unfolding put_and_create
  put_and_create_stored filename bytes ctype tier fields w blobs h = rw (h, put_and_create)

  -- What a file leaves behind once it is checked: its blob, and then what is left by the row.
  abbrev pub FileStored :
      Option Text
      → List ℕ
      → Text
      → Option Text
      → JobFields
      → World P Table
      → Result ℕ × World P Table
      → Type 0
  FileStored filename bytes ctype tier fields w r =
      (blobs : P.Blobs) × (P.put (blob_key_of job_id filename) bytes ctype w.blobs ≡ ok blobs)
      × (Unchanged (record w { blobs = blobs }) r
          ⊎ Stored (stored_file P settings now job_id filename ctype tier fields)
              (record w { blobs = blobs }) r)

  put_and_create-cases :
      (filename : Option Text) (bytes : List ℕ) (ctype : Text) (tier : Option Text)
      (fields : JobFields) (w : World P Table)
      → Unchanged w (put_and_create P settings now job_id filename bytes ctype tier fields w)
        ⊎ FileStored filename bytes ctype tier fields w
            (put_and_create P settings now job_id filename bytes ctype tier fields w)
  put_and_create-cases filename bytes ctype tier fields w =
      elim (Result-cases (P.put (blob_key_of job_id filename) bytes ctype w.blobs)) [
        | inr (e, h) ↦ inl (e, put_and_create_refused filename bytes ctype tier fields w e h)
        | inl (blobs, h) ↦ inr (
          blobs,
          h,
          rw (put_and_create_stored filename bytes ctype tier fields w blobs h) (
              create_and_enqueue-cases
                (stored_file P settings now job_id filename ctype tier fields)
                (record w { blobs = blobs })),
        )
      ]

  -- A submitted file either fails and changes nothing, or it passes the checks and its blob is stored
  -- under the key of the job; then the table of jobs has that id already and the submission fails, or
  -- a pending row is stored that holds the key, the content type, the name and the checked fields,
  -- and the task is queued, or the queue refuses it.
  pub submit_file_lem :
      (filename content_type : Option Text) (bytes : List ℕ) (raw : RawFields) (w : World P Table)
      → Unchanged w (submit_file P settings now job_id filename content_type bytes raw w)
        ⊎ ((ctype : Text) × (tier : Option Text) × (fields : JobFields) × (check_file settings
                content_type bytes raw
              ≡ ok (ctype, tier, fields))
            × FileStored filename bytes ctype tier fields w
                (submit_file P settings now job_id filename content_type bytes raw w))
  unfolding submit_file
  submit_file_lem filename content_type bytes raw w =
      elim (Result-cases (check_file settings content_type bytes raw)) [
        | inr (e, h) ↦ inl (e, rw (h, submit_file))
        | inl ((ctype, tier, fields), h) ↦
            rw (h, submit_file)
              (elim (put_and_create-cases filename bytes ctype tier fields w) [
                | inl same ↦ inl same
                | inr stored ↦ inr (ctype, tier, fields, refl, stored)
              ])
      ]
