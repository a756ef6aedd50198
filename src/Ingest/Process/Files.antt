-- ===== src/Ingest/Process/Files.antt =====
-- A submitted file on its way to the worker.
use rag_document_processor.Prelude.{
  ℕ, ◌≡◌, refl, ap, ◌∙◌, Option, some, List, [], ◌∷◌, inl, inr, arith, ◌==◌, if◌then◌else◌,
}
use rag_document_processor.Prelude.Text.{Text}
use rag_document_processor.Prelude.Uuid.{uuid_text}
use rag_document_processor.Domain.Exceptions.{Result, ok, ◌>>=◌}
use rag_document_processor.Domain.Entities.{IngestionJob, pending}
use rag_document_processor.Options.Choices.{Settings}
use rag_document_processor.Jobs.{Table, get_by_id, new_row}
use rag_document_processor.Ingest.Fields.{RawFields, JobFields}
use rag_document_processor.Ingest.Ports.{Ports, World}
use rag_document_processor.Ingest.Submit.{check_file, blob_key_of, submit_file, stored_file}
use rag_document_processor.Ingest.Submit.Laws.{FileStored, submit_file_lem}
use rag_document_processor.Ingest.Process.{segments_for, file_segments}

-- What the use cases rely on of a blob storage: a blob that was put is read back.
pub record IsBlobStorage (P : Ports) : Type 0 where
  pub get_bytes-put :
      {key : Text} {bytes : List ℕ} {ctype : Text} {s t : P.Blobs}
      → P.put key bytes ctype s ≡ ok t
      → P.get_bytes key t ≡ ok bytes

module _ (P : Ports) (sound : IsBlobStorage P) (settings : Settings) (now job_id : ℕ) where
  -- What the worker makes of the row of a stored file
  row_of : Option Text → Text → Option Text → JobFields → IngestionJob
  row_of filename ctype tier fields =
      new_row now job_id (stored_file P settings now job_id filename ctype tier fields)

  file_segments-stored :
      (filename : Option Text) (bytes : List ℕ) (ctype : Text) (tier : Option Text)
      (fields : JobFields) (s t : P.Blobs)
      → P.put (blob_key_of job_id filename) bytes ctype s ≡ ok t
      → segments_for P settings
          (row_of filename ctype tier fields).source_kind
          (row_of filename ctype tier fields)
          t
        ≡ (P.extract bytes (some ctype) filename tier >>= λ text. ok (text ∷ []))
  unfolding row_of new_row file_segments blob_key_of uuid_text
  file_segments-stored filename bytes ctype tier fields s t stored =
      rw (sound.get_bytes-put stored) refl

  -- What is left of an accepted file
  abbrev Left :
      Option Text → List ℕ → Text → Option Text → JobFields → Result ℕ × World P Table → Type 0
  Left filename bytes ctype tier fields r =
      (job : IngestionJob) × (get_by_id job_id r.1.jobs ≡ some job)
      × (job.status ≡ pending)
      × (segments_for P settings job.source_kind job r.1.blobs
          ≡ (P.extract bytes (some ctype) filename tier >>= λ text. ok (text ∷ [])))

  Left-accepted :
      (filename : Option Text) (bytes : List ℕ) (ctype : Text) (tier : Option Text)
      (fields : JobFields) (w : World P Table) (r : Result ℕ × World P Table)
      → r.0 ≡ ok job_id
      → FileStored P settings now job_id filename bytes ctype tier fields w r
      → Left filename bytes ctype tier fields r
  unfolding row_of new_row
  Left-accepted filename bytes ctype tier fields w r accepted (blobs, stored, inl (e, left)) =
      cc (accepted, ap (λ p. p.0) left)
  Left-accepted filename bytes ctype tier fields w r accepted
        (blobs, stored, inr (jobs, fresh, reads, inl (e, refused, left))) =
      cc (accepted, ap (λ p. p.0) left)
  Left-accepted filename bytes ctype tier fields w r accepted
        (blobs, stored, inr (jobs, fresh, reads, inr (queue, queued, left))) =
      (
        row_of filename ctype tier fields,
        ap (λ p. get_by_id job_id p.1.jobs) left ∙ (reads job_id ∙ here job_id),
        refl,
        ap
              (λ p.
                segments_for P settings (row_of filename ctype tier fields).source_kind
                  (row_of filename ctype tier fields) p.1.blobs)
              left
            ∙ file_segments-stored filename bytes ctype tier fields w.blobs blobs stored,
      )
    where
      here :
          (n : ℕ)
          → (if n == n then some (row_of filename ctype tier fields) else get_by_id n w.jobs)
            ≡ some (row_of filename ctype tier fields)
      here n = ground arith

  -- With a blob storage that gives back what was put: a file that was accepted is a pending row, and the segments that the worker makes of that row are
  -- the one text that is extracted from the very bytes that were uploaded, with the checked content
  -- type, the file's name and the checked tier.
  pub segments_for-submit_file :
      (filename content_type : Option Text) (bytes : List ℕ) (raw : RawFields) (w : World P Table)
      → (submit_file P settings now job_id filename content_type bytes raw w).0 ≡ ok job_id
      → (ctype : Text) × (tier : Option Text) × (fields : JobFields) × (check_file settings
            content_type bytes raw
          ≡ ok (ctype, tier, fields))
        × ((job : IngestionJob) × (get_by_id job_id
                (submit_file P settings now job_id filename content_type bytes raw w).1.jobs
              ≡ some job)
            × (job.status ≡ pending)
            × (segments_for P settings job.source_kind job
                  (submit_file P settings now job_id filename content_type bytes raw w).1.blobs
                ≡ (P.extract bytes (some ctype) filename tier >>= λ text. ok (text ∷ []))))
  segments_for-submit_file filename content_type bytes raw w accepted =
      elim (submit_file_lem P settings now job_id filename content_type bytes raw w) [
        | inl (e, same) ↦ cc (accepted, ap (λ p. p.0) same)
        | inr (ctype, tier, fields, checked, left) ↦ (
          ctype,
          tier,
          fields,
          checked,
          Left-accepted filename bytes ctype tier fields w
              (submit_file P settings now job_id filename content_type bytes raw w) accepted left,
        )
      ]
