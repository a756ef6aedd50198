-- ===== src/Ingest/Results/Laws.antt =====
-- From the worker through the stream to the client: what a job yields is what its results show.
use rag_document_processor.Prelude.{ℕ, ◌+◌, ◌<◌, ◌≡◌, ◌≢◌, refl, Option, some, List, arith, length}
use rag_document_processor.Prelude.Int.{ℤ}
use rag_document_processor.Prelude.Text.{Text}
use rag_document_processor.Domain.Exceptions.{ok}
use rag_document_processor.Domain.Entities.{IngestionJob, completed}
use rag_document_processor.Options.Choices.{Settings, ResolvedOptions}
use rag_document_processor.Options.Resolve.{resolve_ingest_embedding_options}
use rag_document_processor.Jobs.{Table, get_by_id, set_status, add_chunks}
use rag_document_processor.Jobs.Laws.{get_by_id-id}
use rag_document_processor.Ingest.Ports.{Ports, World, JobMeta}
use rag_document_processor.Ingest.Process.{attempt, execute, segments_for, job_options, run_job}
use rag_document_processor.Ingest.Process.Emits.{chunks_of}
use rag_document_processor.Ingest.Process.Laws.{execute-eq-run_job}
use rag_document_processor.Ingest.Process.Protocol.{attempt-Protocol}
use rag_document_processor.Ingest.Process.Row.{final_row, get_by_id-execute}
use rag_document_processor.Ingest.Results.{
  JobResultsDto, check_ended, model_overrides, results_dto, get_job_results,
}
use rag_document_processor.Sink.Redis.{Redis, IsRedis, Codec, IsCodec}
use rag_document_processor.Sink.Emit.{with_redis}
use rag_document_processor.Sink.Read.{Snapshot, read}
use rag_document_processor.Sink.Laws.{results_from, read-finalize}

module _ (P : Ports) (R : Redis) (C : Codec P.Vector JobMeta) (lawful : IsRedis R)
    (faithful : IsCodec C) (maxlen : ℕ) (settings : Settings) where
  -- The chunks of the pipelines of a job, from what it is given.
  pub record JobChunks (job : IngestionJob) (blobs : P.Blobs) (n : ℕ)
      (snapshot : Snapshot P.Vector C.Object) : Type 0 where
    pub segments : List Text
    pub resolved : ResolvedOptions
    pub dims : Option ℤ
    pub found :
        segments_for (with_redis P R C maxlen) settings job.source_kind job blobs ≡ ok segments
    pub options : job_options (with_redis P R C maxlen) settings job ≡ ok (resolved, dims)
    pub count :
        n
        ≡ length (
            chunks_of
              (with_redis P R C maxlen)
              settings
              job
              resolved
              dims
              (length segments)
              0
              segments)
    pub shown : snapshot ≡ record {
      chunks = results_from R C faithful maxlen 0 (
          chunks_of
            (with_redis P R C maxlen)
            settings
            job
            resolved
            dims
            (length segments)
            0
            segments);
      finalization_metadata = some (faithful.count_object n);
    }

  read-attempt :
      (job : IngestionJob) (blobs : P.Blobs) (n : ℕ) (sink : R.State)
      → (attempt (with_redis P R C maxlen) settings job blobs sink).0 ≡ ok n
      → n < maxlen
      → (snapshot : Snapshot P.Vector C.Object) × (read R C job.id
            (attempt (with_redis P R C maxlen) settings job blobs sink).1
          ≡ ok snapshot)
        × JobChunks job blobs n snapshot
  read-attempt job blobs n sink h room =
      let (cleared, cleans, p) =
        attempt-Protocol (with_redis P R C maxlen) settings job blobs n sink h in
      (
        _,
        read-finalize P R C lawful maxlen settings faithful job.id n
            (chunks_of (with_redis P R C maxlen) settings job p.resolved p.dims (length p.segments)
              0 p.segments)
            sink cleared p.emitted _ cleans p.emits p.finalized (omega (arith, p.count)),
        record {
          segments = p.segments;
          resolved = p.resolved;
          dims = p.dims;
          found = p.found;
          options = p.options;
          count = p.count;
          shown = refl;
        },
      )

  sink-execute :
      (started ended id : ℕ) (w : World (with_redis P R C maxlen) Table) (job : IngestionJob)
      → get_by_id id w.jobs ≡ some job
      → job.status ≢ completed
      → (execute (with_redis P R C maxlen) settings started ended id w).sink
        ≡ (attempt (with_redis P R C maxlen) settings job w.blobs w.sink).1
  sink-execute started ended id w job h open_ =
      rw (execute-eq-run_job (with_redis P R C maxlen) settings started ended id w job h open_)
        (unfold run_job in refl)

  get_job_results_ended :
      (id : ℕ) (jobs : Table) (sink : R.State) (job : IngestionJob) (r : ResolvedOptions)
      (snapshot : Snapshot P.Vector C.Object)
      → get_by_id id jobs ≡ some job
      → check_ended job.status ≡ ok tt
      → resolve_ingest_embedding_options settings (model_overrides job) ≡ ok r
      → read R C id sink ≡ ok snapshot
      → get_job_results (read R C) settings id jobs sink
        ≡ ok (results_dto (read R C) settings job r snapshot)
  unfolding get_job_results
  get_job_results_ended id jobs sink job r snapshot found ended resolves reads =
      rw (found, ended, resolves, reads)

  -- If a worker's run of a job that is there and not completed succeeds, over Redis as documented, with
  -- fewer chunks than the entries that a stream keeps, and the job's options but for its token limits
  -- resolve, then its results show it as completed, with exactly the chunks that the pipelines yield
  -- for its segments, in order and numbered from 0, with the row's count raised by theirs, and with
  -- their number in the end mark.
  pub get_job_results-execute :
      (started ended id n : ℕ) (w : World (with_redis P R C maxlen) Table) (job : IngestionJob)
      (r : ResolvedOptions)
      → get_by_id id w.jobs ≡ some job
      → job.status ≢ completed
      → (attempt (with_redis P R C maxlen) settings job w.blobs w.sink).0 ≡ ok n
      → n < maxlen
      → resolve_ingest_embedding_options settings (model_overrides job) ≡ ok r
      → (dto : JobResultsDto P.Vector C.Object) × (get_job_results
            (read R C)
            settings
            id
            (execute (with_redis P R C maxlen) settings started ended id w).jobs
            (execute (with_redis P R C maxlen) settings started ended id w).sink
          ≡ ok dto)
        × (dto.status ≡ completed)
        × (dto.chunks_emitted ≡ job.chunks_emitted + n)
        × JobChunks job w.blobs n
            (record { chunks = dto.chunks; finalization_metadata = dto.finalization_metadata })
  get_job_results-execute started ended id n w job r found open_ succeeds room resolves =
      let (snapshot, reads, shown) = read-attempt job w.blobs n w.sink succeeds room in
      (
        results_dto (read R C) settings (final_row started ended (ok n) job) r snapshot,
        rw (sink-execute started ended id w job found open_) (
            get_job_results_ended id _ _ (final_row started ended (ok n) job) r snapshot
              (rw succeeds at (
                get_by_id-execute (with_redis P R C maxlen) settings started ended id w job found
                  open_))
              (unfold set_status add_chunks in refl) (unfold set_status add_chunks in resolves)
              (simp (get_by_id-id id w.jobs job found) at reads)),
        unfold set_status add_chunks in refl,
        unfold set_status add_chunks in refl,
        shown,
      )
