-- ===== src/Ingest/Parallel.antt =====
-- Workers that run at the same time, each on a job of its own: the tasks of workers/tasks.py, an
-- operation of the table or of the sink at a time, in any order. What a run does to the sink is laid out
-- beforehand as its plan.
pub mod Plan
pub mod Apart
pub mod Rows
pub mod Runs
pub mod Marks
pub mod Streams
use rag_document_processor.Prelude.{
  ℕ, suc, ◌+◌, ◌≡◌, ◌≢◌, ◌<◌, ◌==◌, Option, none, some, List, [], ◌∷◌, ◌++◌, length, if◌then◌else◌,
}
use rag_document_processor.Prelude.Int.{ℤ}
use rag_document_processor.Prelude.Text.{Text}
use rag_document_processor.Prelude.Uuid.{uuid_count}
use rag_document_processor.Domain.Exceptions.{Error, Result, ok, err}
use rag_document_processor.Domain.Entities.{IngestionJob, processing, completed}
use rag_document_processor.Options.Choices.{Settings, ResolvedOptions}
use rag_document_processor.Jobs.{Table, get_by_id, update_status}
use rag_document_processor.Pipelines.Stream.{EmbeddedChunk}
use rag_document_processor.Ingest.Ports.{Ports, JobMeta}
use rag_document_processor.Ingest.Process.{segments_for, job_options, finalize_sink, record_outcome}
use rag_document_processor.Ingest.Process.Emits.{stream_of}

module _ (P : Ports) (settings : Settings) where
  abbrev pub Chunk : Type 0
  Chunk = EmbeddedChunk JobMeta P.Vector

  -- The chunks that a run emits, one after the other, and then the number that it finalizes the stream
  -- with or the exception that ends it.
  abbrev pub RunPlan : Type 0
  RunPlan = List Chunk × Result ℕ

  abbrev pub before : List Chunk → RunPlan → RunPlan
  before cs (ds, out) = (cs ++ ds, out)

  abbrev pub until_raised : List Chunk → Option Error → RunPlan → RunPlan
  until_raised cs none rest = before cs rest
  until_raised cs (some e) rest = (cs, err e)

  unfoldable pub plan_segments :
      IngestionJob → ResolvedOptions → Option ℤ → ℕ → ℕ → List Text → ℕ → RunPlan
  plan_segments job resolved dims n index [] chunks = ([], ok chunks)
  plan_segments job resolved dims n index (raw ∷ rest) chunks =
      let s = stream_of P settings job resolved dims n index raw in
      until_raised s.items s.raised
        (plan_segments job resolved dims n (suc index) rest (chunks + length s.items))

  -- What follows the `clear` of the stream
  unfoldable pub plan : IngestionJob → P.Blobs → RunPlan
  plan job blobs = elim (segments_for P settings job.source_kind job blobs) [
    | err e ↦ ([], err e)
    | ok segments ↦ elim (job_options P settings job) [
      | err e ↦ ([], err e)
      | ok (resolved, dims) ↦ plan_segments job resolved dims (length segments) 0 segments 0
    ]
  ]

  -- A plan that runs alone
  unfoldable pub run_plan : ℕ → List Chunk → Result ℕ → P.Sink → Result ℕ × P.Sink
  run_plan id [] out sink = finalize_sink P settings id (out, sink)
  run_plan id (c ∷ cs) out sink = elim (P.emit id c sink) [
    | err e ↦ (err e, sink)
    | ok sink' ↦ run_plan id cs out sink'
  ]

  -- Where a worker stands: with the row that it read, and what is left of its plan.
  pub data Worker : Type 0 where
    idle : Worker
    clearing : IngestionJob → Worker
    emitting : IngestionJob → List Chunk → Result ℕ → Worker
    recording : IngestionJob → Result ℕ → Worker

  abbrev pub held : Worker → Option IngestionJob
  held idle = none
  held (clearing job) = some job
  held (emitting job cs out) = some job
  held (recording job out) = some job

  pub record System : Type 0 where
    pub jobs : Table
    pub sink : P.Sink
    pub worker : ℕ → Worker

  abbrev pub at : (ℕ → Worker) → ℕ → Worker → ℕ → Worker
  at workers i w k = if k == i then w else workers k

  -- One step of the worker `i`. The broker hands a job to one worker at a time, and a worker may die.
  pub data Step (blobs : P.Blobs) (s : System) : System → Type 0 where
    taken :
        (i started id : ℕ) (job : IngestionJob)
        → s.worker i ≡ idle
        → get_by_id id s.jobs ≡ some job
        → job.status ≢ completed
        → id < uuid_count
        → ((k : ℕ) (other : IngestionJob) → held (s.worker k) ≡ some other → other.id ≢ id)
        → Step blobs s (record {
          jobs = update_status started id processing none s.jobs;
          sink = s.sink;
          worker = at s.worker i (clearing job);
        })
    cleared :
        (i : ℕ) (job : IngestionJob) (sink : P.Sink)
        → s.worker i ≡ clearing job
        → P.clear job.id s.sink ≡ ok sink
        → Step blobs s (record {
          jobs = s.jobs;
          sink = sink;
          worker = at s.worker i (emitting job (plan job blobs).0 (plan job blobs).1);
        })
    emitted :
        (i : ℕ) (job : IngestionJob) (c : Chunk) (cs : List Chunk) (out : Result ℕ) (sink : P.Sink)
        → s.worker i ≡ emitting job (c ∷ cs) out
        → P.emit job.id c s.sink ≡ ok sink
        → Step blobs s
            (record { jobs = s.jobs; sink = sink; worker = at s.worker i (emitting job cs out) })
    finalized :
        (i : ℕ) (job : IngestionJob) (n : ℕ) (sink : P.Sink)
        → s.worker i ≡ emitting job [] (ok n)
        → P.finalize job.id n s.sink ≡ ok sink
        → Step blobs s
            (record { jobs = s.jobs; sink = sink; worker = at s.worker i (recording job (ok n)) })
    -- An exception of the sink, at any of its operations, or of the pipeline
    raised :
        (i : ℕ) (job : IngestionJob) (e : Error)
        → held (s.worker i) ≡ some job
        → Step blobs s (record {
          jobs = s.jobs;
          sink = s.sink;
          worker = at s.worker i (recording job (err e));
        })
    recorded :
        (i ended : ℕ) (job : IngestionJob) (out : Result ℕ)
        → s.worker i ≡ recording job out
        → Step blobs s (record {
          jobs = record_outcome P settings ended job.id out s.jobs;
          sink = s.sink;
          worker = at s.worker i idle;
        })
    died :
        (i : ℕ) (job : IngestionJob)
        → held (s.worker i) ≡ some job
        → Step blobs s (record { jobs = s.jobs; sink = s.sink; worker = at s.worker i idle })

  pub data Reach (blobs : P.Blobs) (s : System) : System → Type 0 where
    here : Reach blobs s s
    next : {t u : System} → Reach blobs s t → Step blobs t u → Reach blobs s u
