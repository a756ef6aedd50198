-- ===== src/Ingest/Parallel/Apart.antt =====
-- Workers on different jobs do not disturb one another: what every run over Redis keeps.
use mathlib.Core.Path.{subst}
use rag_document_processor.Prelude.{
  ℕ, ◌<◌, ◌≡◌, ◌≢◌, refl, sym, ap, ◌∙◌, ◌==◌, ==_iff, Bool-cases, ◌⊎◌, inl, inr, none, some, List,
  [], ◌∷◌, ◌++◌, map, length,
}
use rag_document_processor.Prelude.Uuid.{uuid_count}
use rag_document_processor.Domain.Exceptions.{ok, err}
use rag_document_processor.Domain.Entities.{IngestionJob, processing, completed}
use rag_document_processor.Options.Choices.{Settings}
use rag_document_processor.Jobs.{Table, get_by_id, set_status, add_chunks}
use rag_document_processor.Jobs.Laws.{get_by_id-id}
use rag_document_processor.Ingest.Ports.{Ports, JobMeta}
use rag_document_processor.Ingest.Process.Row.{final_row}
use rag_document_processor.Ingest.Parallel.{
  Chunk, plan, Worker, idle, clearing, emitting, recording, held, System, at,
}
use rag_document_processor.Sink.Redis.{Fields, Redis, IsRedis, Codec}
use rag_document_processor.Sink.Emit.{stream_key, chunk_fields, done_fields, with_redis}

module _ (P : Ports) (R : Redis) (C : Codec P.Vector JobMeta) (sound : IsRedis R) (maxlen : ℕ)
    (settings : Settings) (blobs : P.Blobs) where
  abbrev pub Q : Ports
  Q = with_redis P R C maxlen

  abbrev pub chunks : IngestionJob → List (Chunk Q settings)
  chunks job = (plan Q settings job blobs).0

  abbrev pub entries : IngestionJob → List (Chunk Q settings) → List Fields
  entries job cs = map (chunk_fields R C maxlen job.id) cs

  abbrev pub Holds : IngestionJob → List Fields → R.State → Type 0
  Holds job fields s = R.xrange (stream_key job.id) s ≡ ok fields

  -- The stream keeps all entries of a run.
  abbrev pub Roomy : IngestionJob → Type 0
  Roomy job = length (chunks job) < maxlen

  -- The stream of a run that was ended: all chunks of its plan and the end mark
  abbrev pub Ended : IngestionJob → ℕ → R.State → Type 0
  Ended job n s =
      ((plan Q settings job blobs).1 ≡ ok n)
      × (Roomy job → Holds job (entries job (chunks job) ++ done_fields R C maxlen job.id n ∷ []) s)

  -- The row that a worker has marked
  abbrev pub Marked : IngestionJob → Table → Type 0
  Marked job jobs =
      (started : ℕ) × (get_by_id job.id jobs ≡ some (set_status started processing none job))
      × (job.id < uuid_count)

  -- What a worker can rely on where it stands
  abbrev pub Local : Worker Q settings → Table → R.State → Type 0
  Local idle jobs s = Unit
  Local (clearing job) jobs s = Marked job jobs
  Local (emitting job cs out) jobs s =
      Marked job jobs
      × ((done : List (Chunk Q settings)) × (chunks job ≡ done ++ cs)
          × ((plan Q settings job blobs).1 ≡ out)
          × (Roomy job → Holds job (entries job done) s))
  Local (recording job (ok n)) jobs s = Marked job jobs × Ended job n s
  Local (recording job (err e)) jobs s = Marked job jobs

  -- A row that was completed by a worker, of the row that the worker had read
  pub record Completed (row : IngestionJob) (s : R.State) : Type 0 where
    pub job : IngestionJob
    pub started : ℕ
    pub ended : ℕ
    pub n : ℕ
    pub final : row ≡ final_row started ended (ok n) job
    pub whole : Ended job n s
    pub small : job.id < uuid_count

  pub record Inv (first : Table) (s : System Q settings) : Type 0 where
    pub local : (i : ℕ) → Local (s.worker i) s.jobs s.sink
    pub apart :
        (i k : ℕ) (job other : IngestionJob)
        → held Q settings (s.worker i) ≡ some job
        → held Q settings (s.worker k) ≡ some other
        → job.id ≡ other.id
        → i ≡ k
    pub completed_rows :
        (id : ℕ) (row : IngestionJob)
        → get_by_id id s.jobs ≡ some row
        → row.status ≡ completed
        → (get_by_id id first ≡ some row) ⊎ Completed row s.sink

  -- Only the row and the stream of one job have changed.
  pub record Elsewhere (id : ℕ) (jobs jobs' : Table) (s s' : R.State) : Type 0 where
    pub rows : (j : ℕ) → j ≢ id → get_by_id j jobs' ≡ get_by_id j jobs
    pub streams :
        (j : ℕ) → j < uuid_count → j ≢ id → R.xrange (stream_key j) s' ≡ R.xrange (stream_key j) s

  module _ (id : ℕ) (jobs jobs' : Table) (s s' : R.State)
      (only : Elsewhere id jobs jobs' s s') where
    Marked-other : (job : IngestionJob) → job.id ≢ id → Marked job jobs → Marked job jobs'
    Marked-other job ne (started, there, small) = (started, only.rows job.id ne ∙ there, small)

    Holds-other :
        (job : IngestionJob) (fields : List Fields)
        → job.id < uuid_count
        → job.id ≢ id
        → Holds job fields s
        → Holds job fields s'
    Holds-other job fields small ne h = only.streams job.id small ne ∙ h

    Local-other :
        (w : Worker Q settings)
        → ((job : IngestionJob) → held Q settings w ≡ some job → job.id ≢ id)
        → Local w jobs s
        → Local w jobs' s'
    Local-other idle ne h = tt
    Local-other (clearing job) ne h = Marked-other job (ne job refl) h
    Local-other (emitting job cs out) ne (m, (done, split, out_eq, held_)) = (
      Marked-other job (ne job refl) m,
      (
        done,
        split,
        out_eq,
        λ room. Holds-other job (entries job done) m.2 (ne job refl) (held_ room),
      ),
    )
    Local-other (recording job (ok n)) ne (m, (planned, held_)) = (
      Marked-other job (ne job refl) m,
      (planned, λ room. Holds-other job _ m.2 (ne job refl) (held_ room)),
    )
    Local-other (recording job (err e)) ne m = Marked-other job (ne job refl) m

    Completed-other : (row : IngestionJob) → row.id ≢ id → Completed row s → Completed row s'
    unfolding set_status add_chunks
    Completed-other row ne c = record {
      job = c.job;
      started = c.started;
      ended = c.ended;
      n = c.n;
      final = c.final;
      whole = (
        c.whole.0,
        λ room. Holds-other c.job _ c.small (λ e. ne (ap (λ r. r.id) c.final ∙ e)) (c.whole.1 room),
      );
      small = c.small;
    }

  module _ (first : Table) (s : System Q settings) (jobs' : Table) (sink' : R.State) (i id : ℕ)
      (w : Worker Q settings) where
    abbrev pub after : System Q settings
    after = record { jobs = jobs'; sink = sink'; worker = at Q settings s.worker i w }

    at-cases :
        (k : ℕ)
        → ((k ≡ i) × (at Q settings s.worker i w k ≡ w))
          ⊎ ((k ≢ i) × (at Q settings s.worker i w k ≡ s.worker k))
    at-cases k = elim (Bool-cases (k == i)) [
      | inl same ↦ inl ((==_iff k i).0 same, rw same refl)
      | inr other ↦ inr ((λ e. cc (other, (==_iff k i).1 e)), rw other refl)
    ]

    -- One worker moves, which no other worker's job concerns.
    pub Inv-move :
        ((k : ℕ) (other : IngestionJob)
          → k ≢ i
          → held Q settings (s.worker k) ≡ some other
          → other.id ≢ id)
        → ((job : IngestionJob) → held Q settings w ≡ some job → job.id ≡ id)
        → Elsewhere id s.jobs jobs' s.sink sink'
        → Local w jobs' sink'
        → ((row : IngestionJob)
            → get_by_id id jobs' ≡ some row
            → row.status ≡ completed
            → (get_by_id id first ≡ some row) ⊎ Completed row sink')
        → Inv first s
        → Inv first after
    Inv-move others own only here_ ended inv = record {
      local = λ k. elim (at-cases k) [
        | inl (_, eq) ↦ subst (λ v. Local v jobs' sink') (sym eq) here_
        | inr (ne, eq) ↦
            subst (λ v. Local v jobs' sink') (sym eq)
              (Local-other id s.jobs jobs' s.sink sink' only (s.worker k)
                (λ job h. others k job ne h) (inv.local k))
      ];
      apart = λ k l job other hk hl same. elim (at-cases k) [
        | inl (k_eq, k_at) ↦ elim (at-cases l) [
          | inl (l_eq, l_at) ↦ k_eq ∙ sym l_eq
          | inr (l_ne, l_at) ↦ absurd (
              others l other l_ne (ap (held Q settings) (sym l_at) ∙ hl)
                (sym same ∙ own job (ap (held Q settings) (sym k_at) ∙ hk)))
        ]
        | inr (k_ne, k_at) ↦ elim (at-cases l) [
          | inl (l_eq, l_at) ↦ absurd (
              others k job k_ne (ap (held Q settings) (sym k_at) ∙ hk)
                (same ∙ own other (ap (held Q settings) (sym l_at) ∙ hl)))
          | inr (l_ne, l_at) ↦
              inv.apart k l job other (ap (held Q settings) (sym k_at) ∙ hk)
                (ap (held Q settings) (sym l_at) ∙ hl) same
        ]
      ];
      completed_rows = λ j row found done. elim (Bool-cases (j == id)) [
        | inl same ↦
            let eq : j ≡ id = (==_iff j id).0 same in
            elim (ended row (ap (λ x. get_by_id x jobs') (sym eq) ∙ found) done) [
              | inl old ↦ inl (ap (λ x. get_by_id x first) eq ∙ old)
              | inr new ↦ inr new
            ]
        | inr other ↦
            let ne : j ≢ id = λ e. cc (other, (==_iff j id).1 e) in
            let there = sym (only.rows j ne) ∙ found in
            elim (inv.completed_rows j row there done) [
              | inl old ↦ inl old
              | inr new ↦ inr (
                  Completed-other id s.jobs jobs' s.sink sink' only row
                    (λ e. ne (sym (get_by_id-id j jobs' row found) ∙ e)) new)
            ]
      ];
    }
