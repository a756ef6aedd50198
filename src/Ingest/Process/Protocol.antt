-- ===== src/Ingest/Process/Protocol.antt =====
-- The calls of the sink in a successful attempt: cleared once, one `emit` for every chunk that the
-- pipelines yield, in order, and the end mark with their number.
use rag_document_processor.Prelude.{ℕ, ◌≡◌, inl, inr, Option, List, arith, length}
use rag_document_processor.Prelude.Int.{ℤ}
use rag_document_processor.Prelude.Text.{Text}
use rag_document_processor.Domain.Exceptions.{Error, Result, ok, err, Result-cases}
use rag_document_processor.Domain.Entities.{IngestionJob}
use rag_document_processor.Options.Choices.{Settings, ResolvedOptions}
use rag_document_processor.Ingest.Ports.{Ports}
use rag_document_processor.Ingest.Process.{
  attempt, embed_job, emit_segments, finalize_sink, segments_for, job_options,
}
use rag_document_processor.Ingest.Process.Emits.{Emits, NoneRaised, chunks_of, emit_segments-Emits}

module _ (P : Ports) (settings : Settings) where
  finalize_sink_err :
      (id k : ℕ) (sink : P.Sink) (e : Error)
      → P.finalize id k sink ≡ err e
      → finalize_sink P settings id (ok k, sink) ≡ (err e, sink)
  unfolding finalize_sink
  finalize_sink_err id k sink e h = rw (h, finalize_sink)

  finalize_sink_ok :
      (id k : ℕ) (sink t : P.Sink)
      → P.finalize id k sink ≡ ok t
      → finalize_sink P settings id (ok k, sink) ≡ (ok k, t)
  unfolding finalize_sink
  finalize_sink_ok id k sink t h = rw (h, finalize_sink)

  finalize_sink-ok :
      (id n : ℕ) (r : Result ℕ × P.Sink)
      → (finalize_sink P settings id r).0 ≡ ok n
      → (r.0 ≡ ok n) × (P.finalize id n r.1 ≡ ok (finalize_sink P settings id r).1)
  finalize_sink-ok id n (err e, sink) h = absurd (unfold finalize_sink in cc)
  finalize_sink-ok id n (ok k, sink) h = elim (Result-cases (P.finalize id k sink)) [
    | inr (e, failed) ↦ absurd (cc (rw (finalize_sink_err id k sink e failed) at h))
    | inl (t, done) ↦
        let same : ok k ≡ ok n = rw (finalize_sink_ok id k sink t done) at h in
        (same, rw (finalize_sink_ok id k sink t done) (rw (count_eq same) done))
  ]
    where
      count_eq : {k : ℕ} → ok k ≡ ok n → n ≡ k
      count_eq h = cc

  pub embed_job_segments_err :
      (job : IngestionJob) (blobs : P.Blobs) (sink : P.Sink) (e : Error)
      → segments_for P settings job.source_kind job blobs ≡ err e
      → embed_job P settings job blobs sink ≡ (err e, sink)
  unfolding embed_job
  embed_job_segments_err job blobs sink e h = rw (h, embed_job)

  pub embed_job_options_err :
      (job : IngestionJob) (blobs : P.Blobs) (sink : P.Sink) (segments : List Text) (e : Error)
      → segments_for P settings job.source_kind job blobs ≡ ok segments
      → job_options P settings job ≡ err e
      → embed_job P settings job blobs sink ≡ (err e, sink)
  unfolding embed_job
  embed_job_options_err job blobs sink segments e h k = rw (h, embed_job) (rw (k, embed_job))

  pub embed_job_ok :
      (job : IngestionJob) (blobs : P.Blobs) (sink : P.Sink) (segments : List Text)
      (resolved : ResolvedOptions) (dims : Option ℤ)
      → segments_for P settings job.source_kind job blobs ≡ ok segments
      → job_options P settings job ≡ ok (resolved, dims)
      → embed_job P settings job blobs sink
        ≡ finalize_sink P settings job.id
            (emit_segments P settings job resolved dims (length segments) 0 segments 0 sink)
  unfolding embed_job
  embed_job_ok job blobs sink segments resolved dims h k = rw (h, embed_job) (rw (k, embed_job))

  pub attempt_err :
      (job : IngestionJob) (blobs : P.Blobs) (sink : P.Sink) (e : Error)
      → P.clear job.id sink ≡ err e
      → attempt P settings job blobs sink ≡ (err e, sink)
  unfolding attempt
  attempt_err job blobs sink e h = rw (h, attempt)

  pub attempt_ok :
      (job : IngestionJob) (blobs : P.Blobs) (sink t : P.Sink)
      → P.clear job.id sink ≡ ok t
      → attempt P settings job blobs sink ≡ embed_job P settings job blobs t
  unfolding attempt
  attempt_ok job blobs sink t h = rw (h, attempt)

  -- How the sink is used from `cleared` to `last` when `n` chunks are embedded.
  pub record Protocol (job : IngestionJob) (blobs : P.Blobs) (n : ℕ) (cleared last : P.Sink)
      : Type 0 where
    pub segments : List Text
    pub resolved : ResolvedOptions
    pub dims : Option ℤ
    pub emitted : P.Sink
    pub found : segments_for P settings job.source_kind job blobs ≡ ok segments
    pub options : job_options P settings job ≡ ok (resolved, dims)
    pub complete : NoneRaised P settings job resolved dims (length segments) 0 segments
    pub count : n ≡ length (chunks_of P settings job resolved dims (length segments) 0 segments)
    pub emits :
        Emits P settings job.id
          (chunks_of P settings job resolved dims (length segments) 0 segments)
          cleared
          emitted
    pub finalized : P.finalize job.id n emitted ≡ ok last

  embed_job-Protocol :
      (job : IngestionJob) (blobs : P.Blobs) (n : ℕ) (sink : P.Sink)
      → (embed_job P settings job blobs sink).0 ≡ ok n
      → Protocol job blobs n sink (embed_job P settings job blobs sink).1
  embed_job-Protocol job blobs n sink h =
      elim (Result-cases (segments_for P settings job.source_kind job blobs)) [
        | inr (e, failed) ↦ absurd (cc (h, embed_job_segments_err job blobs sink e failed))
        | inl (segments, found) ↦ elim (Result-cases (job_options P settings job)) [
          | inr (e, failed) ↦
              absurd (cc (h, embed_job_options_err job blobs sink segments e found failed))
          | inl ((resolved, dims), options) ↦
              let same = embed_job_ok job blobs sink segments resolved dims found options in
              let run =
                emit_segments P settings job resolved dims (length segments) 0 segments 0 sink in
              let (done, closed) = finalize_sink-ok job.id n run (rw same at h) in
              let (complete, count, emits) =
                emit_segments-Emits P settings job resolved dims (length segments) 0 segments 0 n
                  sink done in
              record {
                segments = segments;
                resolved = resolved;
                dims = dims;
                emitted = run.1;
                found = found;
                options = options;
                complete = complete;
                count = omega (arith, count);
                emits = emits;
                finalized = rw same closed;
              }
        ]
      ]

  -- An attempt that returns a number has cleared the sink once, emitted exactly the chunks of the
  -- pipelines of its segments, in order, as many as the number says, and then written the end mark
  -- with the number; none of the pipelines raised anything.
  pub attempt-Protocol :
      (job : IngestionJob) (blobs : P.Blobs) (n : ℕ) (sink : P.Sink)
      → (attempt P settings job blobs sink).0 ≡ ok n
      → (cleared : P.Sink) × (P.clear job.id sink ≡ ok cleared)
        × Protocol job blobs n cleared (attempt P settings job blobs sink).1
  attempt-Protocol job blobs n sink h = elim (Result-cases (P.clear job.id sink)) [
    | inr (e, failed) ↦ absurd (cc (h, attempt_err job blobs sink e failed))
    | inl (t, done) ↦
        let same = attempt_ok job blobs sink t done in
        (t, done, rw same (embed_job-Protocol job blobs n t (rw same at h)))
  ]
