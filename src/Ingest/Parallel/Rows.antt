-- ===== src/Ingest/Parallel/Rows.antt =====
-- The row of a job, and the other rows, under the two transactions of a run.
use rag_document_processor.Prelude.{
  ℕ, ◌≡◌, ◌≢◌, refl, sym, ◌==◌, ==_iff, Bool-cases, false, inl, inr, none, some,
}
use rag_document_processor.Domain.Exceptions.{Error, Result, ok, err}
use rag_document_processor.Domain.Entities.{IngestionJob, processing, completed, failed}
use rag_document_processor.Options.Choices.{Settings}
use rag_document_processor.Jobs.{Table, get_by_id, set_status, update_status, add_chunks}
use rag_document_processor.Jobs.Laws.{get_by_id-update_status, get_by_id-increment_chunks}
use rag_document_processor.Ingest.Ports.{Ports}
use rag_document_processor.Ingest.Process.{record_outcome}

-- What the last transaction does to the row of a job, and to the others.
module _ (P : Ports) (settings : Settings) (ended id : ℕ) (jobs : Table) where
  pub recorded_ok :
      (n : ℕ) (row : IngestionJob)
      → get_by_id id jobs ≡ some row
      → get_by_id id (record_outcome P settings ended id (ok n) jobs)
        ≡ some (set_status ended completed none (add_chunks ended n row))
  unfolding record_outcome
  recorded_ok n row h =
      simp (get_by_id-update_status, get_by_id-increment_chunks, (==_iff id id).1 refl, h)

  pub recorded_err :
      (e : Error) (row : IngestionJob)
      → get_by_id id jobs ≡ some row
      → get_by_id id (record_outcome P settings ended id (err e) jobs)
        ≡ some (set_status ended failed (some e) row)
  unfolding record_outcome
  recorded_err e row h = simp (get_by_id-update_status, (==_iff id id).1 refl, h)

  id_ne : (j : ℕ) → j ≢ id → (id == j) ≡ false
  id_ne j ne = elim (Bool-cases (id == j)) [
    | inl same ↦ absurd (ne (sym ((==_iff id j).0 same)))
    | inr other ↦ other
  ]

  pub recorded_other :
      (out : Result ℕ) (j : ℕ)
      → j ≢ id
      → get_by_id j (record_outcome P settings ended id out jobs) ≡ get_by_id j jobs
  unfolding record_outcome
  recorded_other (ok n) j ne =
      simp (get_by_id-update_status, get_by_id-increment_chunks, id_ne j ne)
  recorded_other (err e) j ne = simp (get_by_id-update_status, id_ne j ne)

  pub marked_other :
      (j : ℕ)
      → j ≢ id
      → get_by_id j (update_status ended id processing none jobs) ≡ get_by_id j jobs
  marked_other j ne = simp (get_by_id-update_status, id_ne j ne)

  pub marked_row :
      (row : IngestionJob)
      → get_by_id id jobs ≡ some row
      → get_by_id id (update_status ended id processing none jobs)
        ≡ some (set_status ended processing none row)
  marked_row row h = simp (get_by_id-update_status, (==_iff id id).1 refl, h)

pub same_row : {a b : IngestionJob} → some a ≡ some b → a ≡ b
same_row e = cc
