-- ===== src/Ingest/Process/Emits.antt =====
-- The chunks that the segments of a job give, and the calls of `emit` in a loop that succeeds: one for
-- each of them, in order.
use mathlib.Core.Path.{subst}
use rag_document_processor.Prelude.{
  ℕ, suc, ◌+◌, ◌≡◌, refl, sym, inl, inr, Option, none, some, List, [], ◌∷◌, ◌++◌, arith, length,
  length-append,
}
use rag_document_processor.Prelude.Int.{ℤ}
use rag_document_processor.Prelude.Text.{Text}
use rag_document_processor.Domain.Exceptions.{Error, ok, err, Result-cases}
use rag_document_processor.Domain.Entities.{IngestionJob}
use rag_document_processor.Options.Choices.{Settings, ResolvedOptions}
use rag_document_processor.Pipelines.Stream.{Stream, EmbeddedChunk}
use rag_document_processor.Pipelines.Factory.{build_embedding_pipeline}
use rag_document_processor.Ingest.Ports.{Ports, JobMeta}
use rag_document_processor.Ingest.Process.{emit_all, emit_segments, run_pipeline, job_meta}

module _ (P : Ports) (settings : Settings) where
  -- The chunks are emitted one after the other, each without an error.
  abbrev pub Emits : ℕ → List (EmbeddedChunk JobMeta P.Vector) → P.Sink → P.Sink → Type 0
  Emits id [] s s' = s ≡ s'
  Emits id (c ∷ cs) s s' = (t : P.Sink) × (P.emit id c s ≡ ok t) × Emits id cs t s'

  Emits-append :
      (id : ℕ) (cs ds : List (EmbeddedChunk JobMeta P.Vector)) (s t u : P.Sink)
      → Emits id cs s t
      → Emits id ds t u
      → Emits id (cs ++ ds) s u
  Emits-append id [] ds s t u h k = subst (λ x. Emits id ds x u) (sym h) k
  Emits-append id (c ∷ cs) ds s t u (s', e, h) k = (s', e, Emits-append id cs ds s' t u h k)

  -- The chunks of one segment, and of all of them
  abbrev pub stream_of :
      IngestionJob
      → ResolvedOptions
      → Option ℤ
      → ℕ
      → ℕ
      → Text
      → Stream (EmbeddedChunk JobMeta P.Vector)
  stream_of job resolved dims n index raw =
      run_pipeline P settings (build_embedding_pipeline settings resolved)
        (job_meta job resolved n index) dims raw

  abbrev pub chunks_of :
      IngestionJob
      → ResolvedOptions
      → Option ℤ
      → ℕ
      → ℕ
      → List Text
      → List (EmbeddedChunk JobMeta P.Vector)
  chunks_of job resolved dims n index [] = []
  chunks_of job resolved dims n index (raw ∷ rest) =
      (stream_of job resolved dims n index raw).items
      ++ chunks_of job resolved dims n (suc index) rest

  -- No pipeline ends with an exception.
  abbrev pub NoneRaised : IngestionJob → ResolvedOptions → Option ℤ → ℕ → ℕ → List Text → Type 0
  NoneRaised job resolved dims n index [] = Unit
  NoneRaised job resolved dims n index (raw ∷ rest) =
      ((stream_of job resolved dims n index raw).raised ≡ none)
      × NoneRaised job resolved dims n (suc index) rest

  emit_all_ok :
      (id : ℕ) (c : EmbeddedChunk JobMeta P.Vector) (cs : List (EmbeddedChunk JobMeta P.Vector))
      (raised : Option Error) (k : ℕ) (sink t : P.Sink)
      → P.emit id c sink ≡ ok t
      → emit_all P settings id (c ∷ cs) raised k sink ≡ emit_all P settings id cs raised (suc k) t
  unfolding emit_all
  emit_all_ok id c cs raised k sink t h = rw (h, emit_all)

  emit_all_err :
      (id : ℕ) (c : EmbeddedChunk JobMeta P.Vector) (cs : List (EmbeddedChunk JobMeta P.Vector))
      (raised : Option Error) (k : ℕ) (sink : P.Sink) (e : Error)
      → P.emit id c sink ≡ err e
      → emit_all P settings id (c ∷ cs) raised k sink ≡ (err e, sink)
  unfolding emit_all
  emit_all_err id c cs raised k sink e h = rw (h, emit_all)

  pub emit_all-Emits :
      (id : ℕ) (cs : List (EmbeddedChunk JobMeta P.Vector)) (raised : Option Error) (k n : ℕ)
      (sink : P.Sink)
      → (emit_all P settings id cs raised k sink).0 ≡ ok n
      → (raised ≡ none)
        × (n ≡ k + length cs)
        × Emits id cs sink (emit_all P settings id cs raised k sink).1
  emit_all-Emits id [] none k n sink h = unfold emit_all in (refl, ground arith, refl)
  emit_all-Emits id [] (some e) k n sink h = absurd (unfold emit_all in cc)
  emit_all-Emits id (c ∷ cs) raised k n sink h = elim (Result-cases (P.emit id c sink)) [
    | inr (e, failed) ↦ absurd (cc (h, emit_all_err id c cs raised k sink e failed))
    | inl (t, done) ↦
        let same = emit_all_ok id c cs raised k sink t done in
        let (finished, count, rest) = emit_all-Emits id cs raised (suc k) n t (rw same at h) in
        (finished, omega (arith, count), (t, done, rw same rest))
  ]

  pub emit_segments_ok :
      (job : IngestionJob) (resolved : ResolvedOptions) (dims : Option ℤ) (n index : ℕ) (raw : Text)
      (rest : List Text) (k k' : ℕ) (sink : P.Sink)
      → (emit_all P settings job.id
          (stream_of job resolved dims n index raw).items
          (stream_of job resolved dims n index raw).raised
          k
          sink).0
        ≡ ok k'
      → emit_segments P settings job resolved dims n index (raw ∷ rest) k sink
        ≡ emit_segments P settings job resolved dims n
            (suc index)
            rest
            k'
            (emit_all P settings job.id
              (stream_of job resolved dims n index raw).items
              (stream_of job resolved dims n index raw).raised
              k
              sink).1
  unfolding emit_segments
  emit_segments_ok job resolved dims n index raw rest k k' sink h = rw (h, emit_segments)

  emit_segments_err :
      (job : IngestionJob) (resolved : ResolvedOptions) (dims : Option ℤ) (n index : ℕ) (raw : Text)
      (rest : List Text) (k : ℕ) (sink : P.Sink) (e : Error)
      → (emit_all P settings job.id
          (stream_of job resolved dims n index raw).items
          (stream_of job resolved dims n index raw).raised
          k
          sink).0
        ≡ err e
      → (emit_segments P settings job resolved dims n index (raw ∷ rest) k sink).0 ≡ err e
  unfolding emit_segments
  emit_segments_err job resolved dims n index raw rest k sink e h = rw (h, emit_segments)

  pub emit_segments-Emits :
      (job : IngestionJob) (resolved : ResolvedOptions) (dims : Option ℤ) (n index : ℕ)
      (segs : List Text) (k m : ℕ) (sink : P.Sink)
      → (emit_segments P settings job resolved dims n index segs k sink).0 ≡ ok m
      → NoneRaised job resolved dims n index segs
        × (m ≡ k + length (chunks_of job resolved dims n index segs))
        × Emits job.id
            (chunks_of job resolved dims n index segs)
            sink
            (emit_segments P settings job resolved dims n index segs k sink).1
  emit_segments-Emits job resolved dims n index [] k m sink h =
      unfold emit_segments in (tt, ground arith, refl)
  emit_segments-Emits job resolved dims n index (raw ∷ rest) k m sink h =
      let s = stream_of job resolved dims n index raw in
      let emitted = emit_all P settings job.id s.items s.raised k sink in
      elim (Result-cases emitted.0) [
        | inr (e, failed) ↦
            absurd (cc (h, emit_segments_err job resolved dims n index raw rest k sink e failed))
        | inl (k', done) ↦
            let same = emit_segments_ok job resolved dims n index raw rest k k' sink done in
            let (r1, c1, e1) = emit_all-Emits job.id s.items s.raised k k' sink done in
            let (r2, c2, e2) =
              emit_segments-Emits job resolved dims n (suc index) rest k' m emitted.1
                (rw same at h) in
            (
              (r1, r2),
              omega (
                arith,
                c1,
                c2,
                length-append s.items (chunks_of job resolved dims n (suc index) rest),
              ),
              rw same (
                  Emits-append job.id s.items (chunks_of job resolved dims n (suc index) rest) sink
                    emitted.1 _ e1 e2),
            )
      ]
