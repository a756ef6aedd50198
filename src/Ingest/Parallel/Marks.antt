-- ===== src/Ingest/Parallel/Marks.antt =====
-- What the two transactions of a run keep: marking a row, and recording the outcome.
use mathlib.Core.Path.{subst}
use rag_document_processor.Prelude.{ℕ, ◌<◌, ◌≡◌, ◌≢◌, refl, sym, ap, ◌∙◌, inr, none, some}
use rag_document_processor.Prelude.Uuid.{uuid_count}
use rag_document_processor.Domain.Exceptions.{Result, ok, err}
use rag_document_processor.Domain.Entities.{IngestionJob, processing}
use rag_document_processor.Options.Choices.{Settings}
use rag_document_processor.Jobs.{Table, get_by_id, set_status, update_status}
use rag_document_processor.Jobs.Laws.{get_by_id-id}
use rag_document_processor.Ingest.Ports.{Ports, JobMeta}
use rag_document_processor.Ingest.Process.{record_outcome}
use rag_document_processor.Ingest.Parallel.{idle, clearing, recording, held, System, at}
use rag_document_processor.Ingest.Parallel.Apart.{Local, Inv, Inv-move}
use rag_document_processor.Sink.Redis.{Redis, IsRedis, Codec}
use rag_document_processor.Ingest.Parallel.Rows.{
  recorded_ok, recorded_err, recorded_other, marked_other, marked_row, same_row,
}
use rag_document_processor.Ingest.Parallel.Runs.{T, mine, others, no_row}

module _ (P : Ports) (R : Redis) (C : Codec P.Vector JobMeta) (sound : IsRedis R) (maxlen : ℕ)
    (settings : Settings) (blobs : P.Blobs) where
  abbrev S : Ports
  S = T P R C sound maxlen settings blobs

  module _ (first : Table) (s : System S settings)
      (inv : Inv P R C sound maxlen settings blobs first s) (i : ℕ) (job : IngestionJob)
      (is : held S settings (s.worker i) ≡ some job) where
    pub recorded-Inv :
        (ended : ℕ) (out : Result ℕ)
        → s.worker i ≡ recording job out
        → Inv P R C sound maxlen settings blobs first (record {
          jobs = record_outcome S settings ended job.id out s.jobs;
          sink = s.sink;
          worker = at S settings s.worker i idle;
        })
    unfolding set_status
    recorded-Inv ended (err e) stands =
        let (started, there, small) = mine P R C sound maxlen settings blobs first s inv i job is in
        Inv-move P R C sound maxlen settings blobs first s
          (record_outcome S settings ended job.id (err e) s.jobs) s.sink i job.id idle
          (others P R C sound maxlen settings blobs first s inv i job is)
          (no_row P R C sound maxlen settings blobs first s inv i job is)
          (record {
            rows = recorded_other S settings ended job.id s.jobs (err e);
            streams = λ j sm ne. refl;
          })
          tt
          (λ row found done.
            let eq =
              same_row (sym (recorded_err S settings ended job.id s.jobs e _ there) ∙ found) in
            cc (ap (λ r. r.status) eq, done))
          inv
    recorded-Inv ended (ok n) stands =
        let (started, there, small) = mine P R C sound maxlen settings blobs first s inv i job is in
        let (_, whole) =
          subst (λ w. Local P R C sound maxlen settings blobs w s.jobs s.sink) stands
            (inv.local i) in
        Inv-move P R C sound maxlen settings blobs first s
          (record_outcome S settings ended job.id (ok n) s.jobs) s.sink i job.id idle
          (others P R C sound maxlen settings blobs first s inv i job is)
          (no_row P R C sound maxlen settings blobs first s inv i job is)
          (record {
            rows = recorded_other S settings ended job.id s.jobs (ok n);
            streams = λ j sm ne. refl;
          })
          tt
          (λ row found done. inr (record {
            job = job;
            started = started;
            ended = ended;
            n = n;
            final = same_row (sym found ∙ recorded_ok S settings ended job.id s.jobs n _ there);
            whole = whole;
            small = small;
          }))
          inv

  pub taken-Inv :
      (first : Table) (s : System S settings) (i started id : ℕ) (job : IngestionJob)
      → Inv P R C sound maxlen settings blobs first s
      → get_by_id id s.jobs ≡ some job
      → id < uuid_count
      → ((k : ℕ) (other : IngestionJob) → held S settings (s.worker k) ≡ some other → other.id ≢ id)
      → Inv P R C sound maxlen settings blobs first (record {
        jobs = update_status started id processing none s.jobs;
        sink = s.sink;
        worker = at S settings s.worker i (clearing job);
      })
  unfolding set_status
  taken-Inv first s i started id job inv found small free =
      let same = get_by_id-id id s.jobs job found in
      let marked = marked_row S settings started id s.jobs job found in
      Inv-move P R C sound maxlen settings blobs first s
        (update_status started id processing none s.jobs) s.sink i id (clearing job)
        (λ k other ne h. free k other h) (λ j h. ap (λ r. r.id) (sym (same_row h)) ∙ same)
        (record { rows = marked_other S settings started id s.jobs; streams = λ j sm ne. refl })
        (
          started,
          subst
              (λ x.
                get_by_id x (update_status started id processing none s.jobs)
                ≡ some (set_status started processing none job))
              (sym same) marked,
          subst (λ x. x < uuid_count) (sym same) small,
        )
        (λ row there done.
          let eq = same_row (sym marked ∙ there) in cc (ap (λ r. r.status) eq, done))
        inv
