-- ===== src/Ingest/Process/Writes.antt =====
-- What a run of a job writes to the sink, however it ends.
use rag_document_processor.Prelude.{
  ℕ, suc, ◌≡◌, Option, none, some, List, [], ◌∷◌, inl, inr, length,
}
use rag_document_processor.Prelude.Int.{ℤ}
use rag_document_processor.Prelude.Text.{Text}
use rag_document_processor.Domain.Exceptions.{Error, Result, ok, err, Result-cases}
use rag_document_processor.Domain.Entities.{IngestionJob}
use rag_document_processor.Options.Choices.{Settings, ResolvedOptions}
use rag_document_processor.Pipelines.Stream.{EmbeddedChunk}
use rag_document_processor.Pipelines.Factory.{build_embedding_pipeline}
use rag_document_processor.Ingest.Ports.{Ports, JobMeta}
use rag_document_processor.Ingest.Process.{
  run_pipeline, emit_all, emit_segments, finalize_sink, segments_for, job_options, job_meta,
  embed_job, attempt,
}

-- A sink after some operations of one job.
pub data Writes (P : Ports) (id : ℕ) (s : P.Sink) : P.Sink → Type 0 where
  nothing : Writes P id s s
  cleared : {t u : P.Sink} → Writes P id s t → P.clear id t ≡ ok u → Writes P id s u
  emitted :
      {t u : P.Sink} (c : EmbeddedChunk JobMeta P.Vector)
      → Writes P id s t
      → P.emit id c t ≡ ok u
      → Writes P id s u
  finalized : {t u : P.Sink} (n : ℕ) → Writes P id s t → P.finalize id n t ≡ ok u → Writes P id s u

module _ (P : Ports) (settings : Settings) where
  emit_all-Writes :
      (id : ℕ) (cs : List (EmbeddedChunk JobMeta P.Vector)) (raised : Option Error) (n : ℕ)
      (s t : P.Sink)
      → Writes P id s t
      → Writes P id s (emit_all P settings id cs raised n t).1
  unfolding emit_all
  emit_all-Writes id [] none n s t h = h
  emit_all-Writes id [] (some e) n s t h = h
  emit_all-Writes id (c ∷ cs) raised n s t h = elim (Result-cases (P.emit id c t)) [
    | inr (e, failed) ↦ rw (failed, emit_all) h
    | inl (u, done) ↦
        rw (done, emit_all) (emit_all-Writes id cs raised (suc n) s u (emitted c h done))
  ]

  finalize_sink-Writes :
      (id : ℕ) (s : P.Sink) (r : Result ℕ × P.Sink)
      → Writes P id s r.1
      → Writes P id s (finalize_sink P settings id r).1
  unfolding finalize_sink
  finalize_sink-Writes id s (err e, t) h = h
  finalize_sink-Writes id s (ok n, t) h = elim (Result-cases (P.finalize id n t)) [
    | inr (e, failed) ↦ rw (failed, finalize_sink) h
    | inl (u, done) ↦ rw (done, finalize_sink) (finalized n h done)
  ]

  emit_segments-Writes :
      (job : IngestionJob) (resolved : ResolvedOptions) (dims : Option ℤ) (n index : ℕ)
      (segments : List Text) (count : ℕ) (s t : P.Sink)
      → Writes P job.id s t
      → Writes P job.id s (emit_segments P settings job resolved dims n index segments count t).1
  unfolding emit_segments
  emit_segments-Writes job resolved dims n index [] count s t h = h
  emit_segments-Writes job resolved dims n index (raw ∷ rest) count s t h =
      let stream =
        run_pipeline P settings (build_embedding_pipeline settings resolved)
          (job_meta job resolved n index) dims raw in
      let after = emit_all-Writes job.id stream.items stream.raised count s t h in
      elim (Result-cases (emit_all P settings job.id stream.items stream.raised count t).0) [
        | inr (e, failed) ↦ rw (failed, emit_segments) after
        | inl (m, done) ↦
            rw (done, emit_segments)
              (emit_segments-Writes job resolved dims n (suc index) rest m s
                (emit_all P settings job.id stream.items stream.raised count t).1 after)
      ]

  embed_job-Writes :
      (job : IngestionJob) (blobs : P.Blobs) (s t : P.Sink)
      → Writes P job.id s t
      → Writes P job.id s (embed_job P settings job blobs t).1
  unfolding embed_job
  embed_job-Writes job blobs s t h =
      elim (Result-cases (segments_for P settings job.source_kind job blobs)) [
        | inr (e, failed) ↦ rw (failed, embed_job) h
        | inl (segments, found) ↦ elim (Result-cases (job_options P settings job)) [
          | inr (e, failed) ↦ rw (found, failed, embed_job) h
          | inl ((resolved, dims), valid) ↦
              rw (found, valid, embed_job)
                (finalize_sink-Writes job.id s
                  (emit_segments P settings job resolved dims (length segments) 0 segments 0 t)
                  (emit_segments-Writes job resolved dims (length segments) 0 segments 0 s t h))
        ]
      ]

  -- However a run ends, what it does to the sink are operations of its own job.
  pub attempt-Writes :
      (job : IngestionJob) (blobs : P.Blobs) (s : P.Sink)
      → Writes P job.id s (attempt P settings job blobs s).1
  unfolding attempt
  attempt-Writes job blobs s = elim (Result-cases (P.clear job.id s)) [
    | inr (e, failed) ↦ rw (failed, attempt) nothing
    | inl (t, done) ↦ rw (done, attempt) (embed_job-Writes job blobs s t (cleared nothing done))
  ]
