-- ===== src/Ingest/Lifecycle/Streams.antt =====
-- The streams of Redis over any run of the service.
use rag_document_processor.Prelude.{
  ℕ, ◌<◌, ◌≡◌, ◌≢◌, refl, sym, ap, ◌∙◌, Option, some, List, inl, inr,
}
use rag_document_processor.Prelude.Text.{Text}
use rag_document_processor.Prelude.Uuid.{uuid_count, uuid_text}
use rag_document_processor.Prelude.Uuid.Laws.{uuid_text-eq}
use rag_document_processor.Domain.Exceptions.{Result}
use rag_document_processor.Domain.Entities.{IngestionJob, completed}
use rag_document_processor.Options.Choices.{Settings}
use rag_document_processor.Jobs.{Table, NewJob, get_by_id}
use rag_document_processor.Jobs.Laws.{get_by_id-id}
use rag_document_processor.Ingest.Fields.{JobFields}
use rag_document_processor.Ingest.Ports.{Ports, World, JobMeta}
use rag_document_processor.Ingest.Process.{execute, run_job}
use rag_document_processor.Ingest.Process.Laws.{execute_idle, execute-eq-run_job}
use rag_document_processor.Ingest.Process.Writes.{
  Writes, nothing, cleared, emitted, finalized, attempt-Writes,
}
use rag_document_processor.Ingest.Submit.{stored_file}
use rag_document_processor.Ingest.Submit.Laws.{
  Stored, FileStored, submit_file_lem, submit_url_lem, submit_text_lem,
}
use rag_document_processor.Ingest.Results.{get_job_results}
use rag_document_processor.Sink.Redis.{Redis, IsRedis, Codec}
use rag_document_processor.Sink.Emit.{stream_key, emit, finalize, clear, with_redis}
use rag_document_processor.Sink.Read.{read}
use rag_document_processor.Ingest.Lifecycle.{
  Step, file_submitted, url_submitted, text_submitted, worked, died, Reach, here, next,
}
use rag_document_processor.Ingest.Lifecycle.Steps.{row_cases, status_cases}
use rag_document_processor.Ingest.Lifecycle.Rows.{Follows-Reach}

pub stream_key-ne :
    (j id : ℕ) → j < uuid_count → id < uuid_count → j ≢ id → stream_key id ≢ stream_key j
stream_key-ne j id small small' apart same = apart (sym (uuid_text-eq id j small' small inner))
  where
    inner : uuid_text id ≡ uuid_text j
    inner = cc

two_rows :
    (id j : ℕ) (job other : IngestionJob) (jobs : Table)
    → get_by_id id jobs ≡ some job
    → get_by_id j jobs ≡ some other
    → job.status ≡ completed
    → other.status ≢ completed
    → j ≢ id
two_rows id j job other jobs found there done open_ same = open_ (ap (λ x. x.status) row ∙ done)
  where
    rows : some other ≡ some job
    rows = sym there ∙ (ap (λ k. get_by_id k jobs) same ∙ found)

    row : other ≡ job
    row = cc (rows)

module _ (P : Ports) (settings : Settings) (w : World P Table) where
  Stored-sink :
      (r : Result ℕ × World P Table) (now id : ℕ) (new : NewJob)
      → Stored P settings now id new w r
      → r.1.sink ≡ w.sink
  Stored-sink r now id new (jobs, fresh, reads, inl (e, refused, left)) = ap (λ p. p.1.sink) left
  Stored-sink r now id new (jobs, fresh, reads, inr (queue, queued, left)) = ap (λ p. p.1.sink) left

module _ (P : Ports) (settings : Settings) (w : World P Table) where
  file_sink :
      (r : Result ℕ × World P Table) (now id : ℕ) (filename : Option Text) (bytes : List ℕ)
      (ctype : Text) (tier : Option Text) (fields : JobFields)
      → FileStored P settings now id filename bytes ctype tier fields w r
      → r.1.sink ≡ w.sink
  file_sink r now id filename bytes ctype tier fields (blobs, put, inl (e, left)) =
      ap (λ p. p.1.sink) left
  file_sink r now id filename bytes ctype tier fields (blobs, put, inr stored) =
      Stored-sink P settings (record w { blobs = blobs }) r now id
        (stored_file P settings now id filename ctype tier fields) stored

module _ (P : Ports) (R : Redis) (C : Codec P.Vector JobMeta) (sound : IsRedis R) (maxlen : ℕ) where
  Writes-xrange :
      (j : ℕ) (other : Text) (s t : R.State)
      → other ≢ stream_key j
      → Writes (with_redis P R C maxlen) j s t
      → R.xrange other t ≡ R.xrange other s
  unfolding emit finalize clear
  Writes-xrange j other s t apart nothing = refl
  Writes-xrange j other s t apart (cleared {t = u} h done) =
      sound.xrange-delete_ne done apart ∙ Writes-xrange j other s u apart h
  Writes-xrange j other s t apart (emitted {t = u} c h done) =
      sound.xrange-xadd_ne done apart ∙ Writes-xrange j other s u apart h
  Writes-xrange j other s t apart (finalized {t = u} n h done) =
      sound.xrange-xadd_ne done apart ∙ Writes-xrange j other s u apart h

  module _ (settings : Settings) where
    -- A run on another job leaves the stream of this one.
    run_job-xrange :
        (started ended_ id : ℕ) (job : IngestionJob) (w : World (with_redis P R C maxlen) Table)
        → stream_key id ≢ stream_key job.id
        → R.xrange
            (stream_key id)
            (run_job (with_redis P R C maxlen) settings started ended_ job w).sink
          ≡ R.xrange (stream_key id) w.sink
    unfolding run_job
    run_job-xrange started ended_ id job w apart =
        Writes-xrange job.id (stream_key id) w.sink _ apart
          (attempt-Writes (with_redis P R C maxlen) settings job w.blobs w.sink)

    execute-xrange :
        (started ended_ id j : ℕ) (job : IngestionJob) (w : World (with_redis P R C maxlen) Table)
        → id < uuid_count
        → j < uuid_count
        → get_by_id id w.jobs ≡ some job
        → job.status ≡ completed
        → R.xrange
            (stream_key id)
            (execute (with_redis P R C maxlen) settings started ended_ j w).sink
          ≡ R.xrange (stream_key id) w.sink
    execute-xrange started ended_ id j job w small small' found done =
        elim (row_cases (get_by_id j w.jobs)) [
          | inl missing ↦
              ap (λ v. R.xrange (stream_key id) v.sink)
                (execute_idle (with_redis P R C maxlen) settings started ended_ j w (inl missing))
          | inr (other, there) ↦ elim (status_cases other.status) [
            | inl ended_already ↦
                ap (λ v. R.xrange (stream_key id) v.sink)
                  (execute_idle (with_redis P R C maxlen) settings started ended_ j w
                    (inr (other, there, ended_already)))
            | inr open_ ↦
                ap (λ v. R.xrange (stream_key id) v.sink)
                  (execute-eq-run_job (with_redis P R C maxlen) settings started ended_ j w other
                    there open_)
                ∙ run_job-xrange started ended_ id other w (
                    rw (get_by_id-id j w.jobs other there) (
                      stream_key-ne j id small' small
                        (two_rows id j job other w.jobs found there done open_)))
          ]
        ]

    Step-xrange :
        (id : ℕ) (job : IngestionJob) (w v : World (with_redis P R C maxlen) Table)
        → id < uuid_count
        → get_by_id id w.jobs ≡ some job
        → job.status ≡ completed
        → Step (with_redis P R C maxlen) settings w v
        → R.xrange (stream_key id) v.sink ≡ R.xrange (stream_key id) w.sink
    Step-xrange id job w v small found done
          (file_submitted now new_id filename content_type bytes raw) =
        elim (submit_file_lem (with_redis P R C maxlen) settings now new_id filename content_type
          bytes raw w) [
            | inl (e, left) ↦ ap (λ p. R.xrange (stream_key id) p.1.sink) left
            | inr (ctype, tier, fields, checked, left) ↦ ap (R.xrange (stream_key id)) (
                file_sink (with_redis P R C maxlen) settings w _ now new_id filename bytes ctype
                  tier fields left)
          ]
    Step-xrange id job w v small found done (url_submitted now new_id source raw) =
        elim (submit_url_lem (with_redis P R C maxlen) settings now new_id source raw w) [
          | inl (e, left) ↦ ap (λ p. R.xrange (stream_key id) p.1.sink) left
          | inr (tier, fields, checked, stored) ↦
              ap (R.xrange (stream_key id))
                (Stored-sink (with_redis P R C maxlen) settings w _ now new_id _ stored)
        ]
    Step-xrange id job w v small found done (text_submitted now new_id texts raw) =
        elim (submit_text_lem (with_redis P R C maxlen) settings now new_id texts raw w) [
          | inl (e, left) ↦ ap (λ p. R.xrange (stream_key id) p.1.sink) left
          | inr (tier, fields, checked, stored) ↦
              ap (R.xrange (stream_key id))
                (Stored-sink (with_redis P R C maxlen) settings w _ now new_id _ stored)
        ]
    Step-xrange id job w v small found done (worked started ended_ j small') =
        execute-xrange started ended_ id j job w small small' found done
    Step-xrange id job w v small found done (died started j other sink small' writes there open_) =
        Writes-xrange j (stream_key id) w.sink sink
          (stream_key-ne j id small' small (two_rows id j job other w.jobs found there done open_))
          writes

    kept_row :
        (id : ℕ) (job : IngestionJob) (w v : World (with_redis P R C maxlen) Table)
        → get_by_id id w.jobs ≡ some job
        → job.status ≡ completed
        → Reach (with_redis P R C maxlen) settings w v
        → get_by_id id v.jobs ≡ some job
    kept_row id job w v found done reach =
        let (job', there, follows) =
          Follows-Reach (with_redis P R C maxlen) settings w v id job reach found in
        elim follows.1 [
          | inl same ↦ there ∙ ap some same
          | inr (open_, taken) ↦ absurd (open_ done)
        ]

    Reach-xrange :
        (id : ℕ) (job : IngestionJob) (w v : World (with_redis P R C maxlen) Table)
        → id < uuid_count
        → get_by_id id w.jobs ≡ some job
        → job.status ≡ completed
        → Reach (with_redis P R C maxlen) settings w v
        → R.xrange (stream_key id) v.sink ≡ R.xrange (stream_key id) w.sink
    Reach-xrange id job w v small found done (here) = refl
    Reach-xrange id job w v small found done (next {u} reach step) =
        Step-xrange id job u v small (kept_row id job w u found done reach) done step
        ∙ Reach-xrange id job w u small found done reach

    -- Over Redis, whose commands each concern their own key: once a job is completed, whose
    -- id is a UUID, the query of its
    -- results answers the same for ever, whatever requests come, whatever other tasks are run or
    -- delivered again, and wherever workers die.
    pub get_job_results-Reach :
        (id : ℕ) (job : IngestionJob) (w v : World (with_redis P R C maxlen) Table)
        → id < uuid_count
        → get_by_id id w.jobs ≡ some job
        → job.status ≡ completed
        → Reach (with_redis P R C maxlen) settings w v
        → get_job_results (read R C) settings id v.jobs v.sink
          ≡ get_job_results (read R C) settings id w.jobs w.sink
    unfolding get_job_results read
    get_job_results-Reach id job w v small found done reach =
        rw
          (
            kept_row id job w v found done reach,
            found,
            Reach-xrange id job w v small found done reach,
          )
          refl
