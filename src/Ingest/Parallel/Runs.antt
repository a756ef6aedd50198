-- ===== src/Ingest/Parallel/Runs.antt =====
-- What the operations of a worker on the sink keep, an exception and its death included.
use mathlib.Core.List.{append-nil, append_assoc, map-append}
use mathlib.Core.Path.{subst}
use rag_document_processor.Prelude.{
  ℕ, suc, ◌<◌, ◌≡◌, ◌≢◌, refl, sym, ap, ◌∙◌, some, List, [], ◌∷◌, ◌++◌, arith, length,
  length-append,
}
use rag_document_processor.Prelude.Uuid.{uuid_count}
use rag_document_processor.Domain.Exceptions.{Error, Result, ok, err}
use rag_document_processor.Domain.Entities.{IngestionJob, completed}
use rag_document_processor.Options.Choices.{Settings}
use rag_document_processor.Jobs.{Table, get_by_id, set_status}
use rag_document_processor.Ingest.Ports.{Ports, JobMeta}
use rag_document_processor.Ingest.Parallel.{
  Chunk, plan, Worker, idle, clearing, emitting, recording, held, System, at,
}
use rag_document_processor.Ingest.Parallel.Apart.{
  Q, chunks, entries, Holds, Roomy, Marked, Local, Inv, Inv-move,
}
use rag_document_processor.Sink.Redis.{Redis, IsRedis, Codec}
use rag_document_processor.Sink.Emit.{stream_key, chunk_fields, done_fields, emit, finalize, clear}
use rag_document_processor.Ingest.Lifecycle.Streams.{stream_key-ne}
use rag_document_processor.Ingest.Parallel.Rows.{same_row}

module _ (P : Ports) (R : Redis) (C : Codec P.Vector JobMeta) (sound : IsRedis R) (maxlen : ℕ)
    (settings : Settings) (blobs : P.Blobs) where
  abbrev pub T : Ports
  T = Q P R C sound maxlen settings blobs

  pub Local-Marked :
      (w : Worker T settings) (job : IngestionJob) (jobs : Table) (s : R.State)
      → held T settings w ≡ some job
      → Local P R C sound maxlen settings blobs w jobs s
      → Marked P R C sound maxlen settings blobs job jobs
  Local-Marked idle job jobs s h l = absurd (cc)
  Local-Marked (clearing k) job jobs s h l =
      subst (λ x. Marked P R C sound maxlen settings blobs x jobs) (same_row h) l
  Local-Marked (emitting k cs out) job jobs s h l =
      subst (λ x. Marked P R C sound maxlen settings blobs x jobs) (same_row h) l.0
  Local-Marked (recording k (ok n)) job jobs s h l =
      subst (λ x. Marked P R C sound maxlen settings blobs x jobs) (same_row h) l.0
  Local-Marked (recording k (err e)) job jobs s h l =
      subst (λ x. Marked P R C sound maxlen settings blobs x jobs) (same_row h) l

  length-entries :
      (job : IngestionJob) (cs : List (Chunk T settings))
      → length (entries P R C sound maxlen settings blobs job cs) ≡ length cs
  length-entries job [] = refl
  length-entries job (c ∷ cs) = ap suc (length-entries job cs)

  fits_before :
      (job : IngestionJob) (done rest : List (Chunk T settings))
      → chunks P R C sound maxlen settings blobs job ≡ done ++ rest
      → Roomy P R C sound maxlen settings blobs job
      → length (entries P R C sound maxlen settings blobs job done) < maxlen
  fits_before job done rest split room =
      omega (arith, length-entries job done, ap length split, length-append {0} done rest, room)

  -- A marked row is not completed.
  not_completed :
      (job row : IngestionJob) (jobs : Table)
      → Marked P R C sound maxlen settings blobs job jobs
      → get_by_id job.id jobs ≡ some row
      → row.status ≢ completed
  unfolding set_status
  not_completed job row jobs (started, there, small) found done =
      let eq = same_row (sym there ∙ found) in cc (ap (λ r. r.status) eq, done)

  module _ (first : Table) (s : System T settings)
      (inv : Inv P R C sound maxlen settings blobs first s) (i : ℕ) (job : IngestionJob)
      (is : held T settings (s.worker i) ≡ some job) where
    pub mine : Marked P R C sound maxlen settings blobs job s.jobs
    mine = Local-Marked (s.worker i) job s.jobs s.sink is (inv.local i)

    pub others :
        (k : ℕ) (other : IngestionJob)
        → k ≢ i
        → held T settings (s.worker k) ≡ some other
        → other.id ≢ job.id
    others k other ne h same = ne (inv.apart k i other job h is same)

    move_sink :
        (sink' : R.State) (w : Worker T settings)
        → ((j : IngestionJob) → held T settings w ≡ some j → j.id ≡ job.id)
        → ((j : ℕ)
            → j < uuid_count
            → j ≢ job.id
            → R.xrange (stream_key j) sink' ≡ R.xrange (stream_key j) s.sink)
        → Local P R C sound maxlen settings blobs w s.jobs sink'
        → Inv P R C sound maxlen settings blobs first
            (record { jobs = s.jobs; sink = sink'; worker = at T settings s.worker i w })
    move_sink sink' w own streams local =
        Inv-move P R C sound maxlen settings blobs first s s.jobs sink' i job.id w others own
          (record { rows = λ j ne. refl; streams = streams }) local
          (λ row found done. absurd (not_completed job row s.jobs mine found done)) inv

    stream_apart : (j : ℕ) → j < uuid_count → j ≢ job.id → stream_key j ≢ stream_key job.id
    stream_apart j small ne = stream_key-ne job.id j mine.2 small (λ e. ne (sym e))

    own_row :
        (w : Worker T settings)
        → held T settings w ≡ some job
        → (j : IngestionJob) → held T settings w ≡ some j
        → j.id ≡ job.id
    own_row w h j h' = ap (λ r. r.id) (same_row (sym h' ∙ h))

    pub no_row : (j : IngestionJob) → held T settings idle ≡ some j → j.id ≡ job.id
    no_row j h = absurd (cc h)

    pub raised-Inv :
        (e : Error)
        → Inv P R C sound maxlen settings blobs first (record {
          jobs = s.jobs;
          sink = s.sink;
          worker = at T settings s.worker i (recording job (err e));
        })
    raised-Inv e =
        move_sink s.sink (recording job (err e)) (own_row (recording job (err e)) refl)
          (λ j small ne. refl) mine

    pub died-Inv :
        Inv P R C sound maxlen settings blobs first
          (record { jobs = s.jobs; sink = s.sink; worker = at T settings s.worker i idle })
    died-Inv = move_sink s.sink idle no_row (λ j small ne. refl) tt

    pub cleared-Inv :
        (sink' : R.State)
        → clear R C maxlen job.id s.sink ≡ ok sink'
        → Inv P R C sound maxlen settings blobs first (record {
          jobs = s.jobs;
          sink = sink';
          worker =
              at T settings s.worker i
                (emitting job (plan T settings job blobs).0 (plan T settings job blobs).1);
        })
    unfolding clear
    cleared-Inv sink' done =
        move_sink sink' (emitting job (plan T settings job blobs).0 (plan T settings job blobs).1)
          (own_row (emitting job (plan T settings job blobs).0 (plan T settings job blobs).1) refl)
          (λ j small ne. sound.xrange-delete_ne done (stream_apart j small ne))
          (mine, ([], refl, refl, λ room. sound.xrange-delete done))

    pub emitted-Inv :
        (c : Chunk T settings) (cs : List (Chunk T settings)) (out : Result ℕ) (sink' : R.State)
        → s.worker i ≡ emitting job (c ∷ cs) out
        → emit R C maxlen job.id c s.sink ≡ ok sink'
        → Inv P R C sound maxlen settings blobs first (record {
          jobs = s.jobs;
          sink = sink';
          worker = at T settings s.worker i (emitting job cs out);
        })
    unfolding emit
    emitted-Inv c cs out sink' stands sent =
        let (_, (done, split, out_eq, holds)) =
          subst (λ w. Local P R C sound maxlen settings blobs w s.jobs s.sink) stands
            (inv.local i) in
        let more = chunk_fields R C maxlen job.id c ∷ [] in
        let fits = λ (room : Roomy P R C sound maxlen settings blobs job).
          fits_before job done (c ∷ cs) split room in
        move_sink sink' (emitting job cs out) (own_row (emitting job cs out) refl)
          (λ j small ne. sound.xrange-xadd_ne sent (stream_apart j small ne))
          (
            mine,
            (
              done ++ c ∷ [],
              split ∙ sym (append_assoc done (c ∷ []) cs),
              out_eq,
              λ room.
                  subst (λ fs. Holds P R C sound maxlen settings blobs job fs sink')
                    (sym (map-append (chunk_fields R C maxlen job.id) done (c ∷ [])))
                    (sound.xrange-xadd sent (holds room) (fits room)),
            ),
          )

    pub finalized-Inv :
        (n : ℕ) (sink' : R.State)
        → s.worker i ≡ emitting job [] (ok n)
        → finalize R C maxlen job.id n s.sink ≡ ok sink'
        → Inv P R C sound maxlen settings blobs first (record {
          jobs = s.jobs;
          sink = sink';
          worker = at T settings s.worker i (recording job (ok n));
        })
    unfolding finalize
    finalized-Inv n sink' stands sent =
        let (_, (done, split, out_eq, holds)) =
          subst (λ w. Local P R C sound maxlen settings blobs w s.jobs s.sink) stands
            (inv.local i) in
        let all : chunks P R C sound maxlen settings blobs job ≡ done = split ∙ append-nil done in
        let fits = λ (room : Roomy P R C sound maxlen settings blobs job).
          fits_before job done [] split room in
        move_sink sink' (recording job (ok n)) (own_row (recording job (ok n)) refl)
          (λ j small ne. sound.xrange-xadd_ne sent (stream_apart j small ne))
          (
            mine,
            (
              out_eq,
              λ room.
                  subst
                    (λ cs.
                      Holds P R C sound maxlen settings blobs job
                        (entries P R C sound maxlen settings blobs job cs
                          ++ done_fields R C maxlen job.id n ∷ [])
                        sink')
                    (sym all) (sound.xrange-xadd sent (holds room) (fits room)),
            ),
          )
