-- ===== src/Ingest/Parallel/Plan.antt =====
-- A plan that runs alone is the attempt of a worker.
use rag_document_processor.Prelude.{
  ℕ, suc, ◌+◌, ◌≡◌, refl, sym, ap, ◌∙◌, inl, inr, Option, none, some, List, [], ◌∷◌, arith, length,
  length-append,
}
use rag_document_processor.Prelude.Int.{ℤ}
use rag_document_processor.Prelude.Text.{Text}
use rag_document_processor.Domain.Exceptions.{Error, Result, ok, err, Result-cases}
use rag_document_processor.Domain.Entities.{IngestionJob}
use rag_document_processor.Options.Choices.{Settings, ResolvedOptions}
use rag_document_processor.Ingest.Ports.{Ports}
use rag_document_processor.Ingest.Process.{
  attempt, embed_job, emit_segments, emit_all, finalize_sink, segments_for, job_options,
}
use rag_document_processor.Ingest.Process.Emits.{stream_of, emit_all-Emits, emit_segments_ok}
use rag_document_processor.Ingest.Process.Protocol.{
  embed_job_segments_err, embed_job_options_err, embed_job_ok, attempt_ok,
}
use rag_document_processor.Ingest.Parallel.{
  Chunk, RunPlan, until_raised, plan_segments, plan, run_plan,
}

module _ (P : Ports) (settings : Settings) where
  abbrev run_whole : ℕ → RunPlan P settings → P.Sink → Result ℕ × P.Sink
  run_whole id p s = run_plan P settings id p.0 p.1 s

  -- The rest of a run after the chunks of a segment.
  abbrev continued : Result ℕ × P.Sink → (ℕ → P.Sink → Result ℕ × P.Sink) → Result ℕ × P.Sink
  continued (err e, s) rest = (err e, s)
  continued (ok k, s) rest = rest k s

  -- A segment whose pipeline raised nothing is followed by the next.
  abbrev resume : ℕ → Option Error → RunPlan P settings → ℕ → P.Sink → Result ℕ × P.Sink
  resume id none p k s = run_whole id p s
  resume id (some e) p k s = (err e, s)

  emit_all-run_plan :
      (id : ℕ) (cs : List (Chunk P settings)) (raised : Option Error) (k : ℕ) (s : P.Sink)
      (p : RunPlan P settings)
      → continued (emit_all P settings id cs raised k s) (resume id raised p)
        ≡ run_whole id (until_raised P settings cs raised p) s
  unfolding emit_all run_plan finalize_sink
  emit_all-run_plan id [] none k s p = refl
  emit_all-run_plan id [] (some e) k s p = refl
  emit_all-run_plan id (c ∷ cs) none k s p = elim (Result-cases (P.emit id c s)) [
    | inr (e, failed) ↦ rw (failed, emit_all, run_plan) refl
    | inl (t, done) ↦ rw (done, emit_all, run_plan) (emit_all-run_plan id cs none (suc k) t p)
  ]
  emit_all-run_plan id (c ∷ cs) (some x) k s p = elim (Result-cases (P.emit id c s)) [
    | inr (e, failed) ↦ rw (failed, emit_all, run_plan) refl
    | inl (t, done) ↦ rw (done, emit_all, run_plan) (emit_all-run_plan id cs (some x) (suc k) t p)
  ]

  continued_err :
      (r : Result ℕ × P.Sink) (rest : ℕ → P.Sink → Result ℕ × P.Sink) (e : Error)
      → r.0 ≡ err e
      → continued r rest ≡ (err e, r.1)
  continued_err (err x, s) rest e h = cc
  continued_err (ok k, s) rest e h = absurd (cc)

  continued_ok :
      (r : Result ℕ × P.Sink) (rest : ℕ → P.Sink → Result ℕ × P.Sink) (k : ℕ)
      → r.0 ≡ ok k
      → continued r rest ≡ rest k r.1
  continued_ok (err x, s) rest k h = absurd (cc)
  continued_ok (ok j, s) rest k h = ap (λ i. rest i s) (same h)
    where
      same : {j k : ℕ} → ok j ≡ ok k → j ≡ k
      same h = cc

  emit_segments_stop :
      (job : IngestionJob) (resolved : ResolvedOptions) (dims : Option ℤ) (n index : ℕ) (raw : Text)
      (rest : List Text) (k : ℕ) (sink : P.Sink) (e : Error)
      → (emit_all P settings job.id
          (stream_of P settings job resolved dims n index raw).items
          (stream_of P settings job resolved dims n index raw).raised
          k
          sink).0
        ≡ err e
      → emit_segments P settings job resolved dims n index (raw ∷ rest) k sink ≡ (
        err e,
        (emit_all P settings job.id
            (stream_of P settings job resolved dims n index raw).items
            (stream_of P settings job resolved dims n index raw).raised
            k
            sink).1,
      )
  unfolding emit_segments
  emit_segments_stop job resolved dims n index raw rest k sink e h = rw (h, emit_segments) refl

  finalize_err :
      (id : ℕ) (e : Error) (s : P.Sink) → finalize_sink P settings id (err e, s) ≡ (err e, s)
  unfolding finalize_sink
  finalize_err id e s = refl

  plan_segments-emit_segments :
      (job : IngestionJob) (resolved : ResolvedOptions) (dims : Option ℤ) (n index : ℕ)
      (segs : List Text) (k : ℕ) (sink : P.Sink)
      → finalize_sink P settings job.id
          (emit_segments P settings job resolved dims n index segs k sink)
        ≡ run_whole job.id (plan_segments P settings job resolved dims n index segs k) sink
  unfolding plan_segments
  plan_segments-emit_segments job resolved dims n index [] k sink =
      unfold emit_segments in unfold run_plan in refl
  plan_segments-emit_segments job resolved dims n index (raw ∷ rest) k sink =
      let s = stream_of P settings job resolved dims n index raw in
      let emitted = emit_all P settings job.id s.items s.raised k sink in
      let later =
        plan_segments P settings job resolved dims n (suc index) rest (k + length s.items) in
      let whole = emit_all-run_plan job.id s.items s.raised k sink later in
      elim (Result-cases emitted.0) [
        | inr (e, failed) ↦
            ap (finalize_sink P settings job.id)
              (emit_segments_stop job resolved dims n index raw rest k sink e failed)
            ∙ (finalize_err job.id e emitted.1 ∙ (sym (continued_err emitted _ e failed) ∙ whole))
        | inl (k', done) ↦
            let (none_raised, count, _) =
              emit_all-Emits P settings job.id s.items s.raised k k' sink done in
            ap (finalize_sink P settings job.id)
              (emit_segments_ok P settings job resolved dims n index raw rest k k' sink done)
            ∙ (plan_segments-emit_segments job resolved dims n (suc index) rest k' emitted.1
                ∙ (ap
                      (λ m.
                        run_whole job.id
                          (plan_segments P settings job resolved dims n (suc index) rest m)
                          emitted.1)
                      count
                    ∙ (sym (ap (λ o. resume job.id o later k' emitted.1) none_raised)
                        ∙ (sym (continued_ok emitted (resume job.id s.raised later) k' done)
                            ∙ whole))))
      ]

  -- What an attempt does after its stream is cleared is its plan.
  embed_job-run_plan :
      (job : IngestionJob) (blobs : P.Blobs) (sink : P.Sink)
      → embed_job P settings job blobs sink ≡ run_whole job.id (plan P settings job blobs) sink
  unfolding plan
  embed_job-run_plan job blobs sink =
      elim (Result-cases (segments_for P settings job.source_kind job blobs)) [
        | inr (e, failed) ↦
            embed_job_segments_err P settings job blobs sink e failed
            ∙ rw (failed, plan) (unfold run_plan in unfold finalize_sink in refl)
        | inl (segments, found) ↦ elim (Result-cases (job_options P settings job)) [
          | inr (e, failed) ↦
              embed_job_options_err P settings job blobs sink segments e found failed
              ∙ rw (found, failed, plan) (unfold run_plan in unfold finalize_sink in refl)
          | inl ((resolved, dims), options) ↦
              embed_job_ok P settings job blobs sink segments resolved dims found options
              ∙ rw (found, options, plan)
                  (plan_segments-emit_segments job resolved dims (length segments) 0 segments 0
                    sink)
        ]
      ]

  -- An attempt clears its stream and runs its plan, whatever fails on the way.
  pub attempt-run_plan :
      (job : IngestionJob) (blobs : P.Blobs) (sink t : P.Sink)
      → P.clear job.id sink ≡ ok t
      → attempt P settings job blobs sink
        ≡ run_plan P settings job.id (plan P settings job blobs).0 (plan P settings job blobs).1 t
  attempt-run_plan job blobs sink t cleared =
      attempt_ok P settings job blobs sink t cleared ∙ embed_job-run_plan job blobs t

  until_raised-count :
      (cs : List (Chunk P settings)) (raised : Option Error) (p : RunPlan P settings) (k m : ℕ)
      → ((j : ℕ) → p.1 ≡ ok j → j ≡ k + length cs + length p.0)
      → (until_raised P settings cs raised p).1 ≡ ok m
      → m ≡ k + length (until_raised P settings cs raised p).0
  until_raised-count cs none (ds, out) k m count h =
      omega (arith, count m h, length-append {0} cs ds)
  until_raised-count cs (some e) p k m count h = absurd (cc)

  plan_segments-count :
      (job : IngestionJob) (resolved : ResolvedOptions) (dims : Option ℤ) (n index : ℕ)
      (segs : List Text) (k m : ℕ)
      → (plan_segments P settings job resolved dims n index segs k).1 ≡ ok m
      → m ≡ k + length (plan_segments P settings job resolved dims n index segs k).0
  unfolding plan_segments
  plan_segments-count job resolved dims n index [] k m h = ground arith
  plan_segments-count job resolved dims n index (raw ∷ rest) k m h =
      let s = stream_of P settings job resolved dims n index raw in
      until_raised-count s.items s.raised
        (plan_segments P settings job resolved dims n (suc index) rest (k + length s.items)) k m
        (λ j. plan_segments-count job resolved dims n (suc index) rest (k + length s.items) j) h

  plan_segments_err :
      (job : IngestionJob) (blobs : P.Blobs) (e : Error)
      → segments_for P settings job.source_kind job blobs ≡ err e
      → plan P settings job blobs ≡ ([], err e)
  unfolding plan
  plan_segments_err job blobs e h = rw (h, plan) refl

  plan_options_err :
      (job : IngestionJob) (blobs : P.Blobs) (segments : List Text) (e : Error)
      → segments_for P settings job.source_kind job blobs ≡ ok segments
      → job_options P settings job ≡ err e
      → plan P settings job blobs ≡ ([], err e)
  unfolding plan
  plan_options_err job blobs segments e h k = rw (h, k, plan) refl

  plan_ok :
      (job : IngestionJob) (blobs : P.Blobs) (segments : List Text) (resolved : ResolvedOptions)
      (dims : Option ℤ)
      → segments_for P settings job.source_kind job blobs ≡ ok segments
      → job_options P settings job ≡ ok (resolved, dims)
      → plan P settings job blobs
        ≡ plan_segments P settings job resolved dims (length segments) 0 segments 0
  unfolding plan
  plan_ok job blobs segments resolved dims h k = rw (h, k, plan) refl

  -- A plan without an exception names the number of its chunks, which are those of the pipelines.
  pub plan-count :
      (job : IngestionJob) (blobs : P.Blobs) (m : ℕ)
      → (plan P settings job blobs).1 ≡ ok m
      → m ≡ length (plan P settings job blobs).0
  plan-count job blobs m h =
      elim (Result-cases (segments_for P settings job.source_kind job blobs)) [
        | inr (e, failed) ↦ absurd (cc (ap (λ p. p.1) (plan_segments_err job blobs e failed), h))
        | inl (segments, found) ↦ elim (Result-cases (job_options P settings job)) [
          | inr (e, failed) ↦
              absurd (cc (ap (λ p. p.1) (plan_options_err job blobs segments e found failed), h))
          | inl ((resolved, dims), options) ↦
              let same = plan_ok job blobs segments resolved dims found options in
              rw same (
                omega (
                  arith,
                  plan_segments-count job resolved dims (length segments) 0 segments 0 m
                      (sym (ap (λ p. p.1) same) ∙ h),
                ))
        ]
      ]
