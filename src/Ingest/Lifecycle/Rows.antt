-- ===== src/Ingest/Lifecycle/Rows.antt =====
-- The rows of the table of jobs over any run of the service.
use rag_document_processor.Prelude.{
  ℕ, ◌≡◌, ◌≢◌, refl, sym, ap, ◌∙◌, Option, none, some, arith, ◌==◌, ==_iff, if◌then◌else◌, inl, inr,
  ◌⊎◌, Bool-cases,
}
use rag_document_processor.Domain.Exceptions.{Error, ok, err}
use rag_document_processor.Domain.Entities.{IngestionJob, pending, processing, completed, failed}
use rag_document_processor.Options.Choices.{Settings}
use rag_document_processor.Jobs.{Table, NewJob, get_by_id, new_row, set_status, add_chunks}
use rag_document_processor.Ingest.Ports.{Ports, World}
use rag_document_processor.Ingest.Lifecycle.{Reach, here, next}
use rag_document_processor.Ingest.Lifecycle.Steps.{
  Ran, begun, ended, TableStep, same, added, ran, Step-TableStep,
}

-- A pending row is as it was created; a processing row counts no chunks; a failed row counts none and
-- says why it failed; a completed row counts what was emitted.
pub data RowState (job : IngestionJob) : Type 0 where
  is_pending :
      job.status ≡ pending
      → job.chunks_emitted ≡ 0
      → job.error_message ≡ none
      → job.updated_at ≡ job.created_at
      → RowState job
  is_processing : job.status ≡ processing → job.chunks_emitted ≡ 0 → RowState job
  is_failed :
      job.status ≡ failed
      → job.chunks_emitted ≡ 0
      → (e : Error) × (job.error_message ≡ some e)
      → RowState job
  is_completed : job.status ≡ completed → RowState job

-- What a client asked for: the fields of a row that no worker writes.
abbrev pub request_of : IngestionJob → IngestionJob
request_of job = record job {
  status = pending;
  error_message = none;
  chunks_emitted = 0;
  updated_at = job.created_at;
}

-- The same request; and either the same row, or one that a worker took up before it was completed.
abbrev pub Follows : IngestionJob → IngestionJob → Type 0
Follows job job' =
    (request_of job' ≡ request_of job)
    × ((job' ≡ job) ⊎ ((job.status ≢ completed) × (job'.status ≢ pending)))

uncounted : (job : IngestionJob) → job.status ≢ completed → RowState job → job.chunks_emitted ≡ 0
uncounted job open_ (is_pending s c e u) = c
uncounted job open_ (is_processing s c) = c
uncounted job open_ (is_failed s c e) = c
uncounted job open_ (is_completed s) = elim (open_ s) [ ]

Ran-RowState : (job job' : IngestionJob) → job.chunks_emitted ≡ 0 → Ran job job' → RowState job'
unfolding set_status
Ran-RowState job job' none_yet (begun started) = is_processing refl none_yet
Ran-RowState job job' none_yet (ended started ended_ (ok chunks)) = is_completed refl
Ran-RowState job job' none_yet (ended started ended_ (err e)) = is_failed refl none_yet (e, refl)

Ran-Follows : (job job' : IngestionJob) → job.status ≢ completed → Ran job job' → Follows job job'
unfolding set_status add_chunks
Ran-Follows job job' open_ (begun started) = (refl, inr (open_, λ e. cc))
Ran-Follows job job' open_ (ended started ended_ (ok chunks)) = (refl, inr (open_, λ e. cc))
Ran-Follows job job' open_ (ended started ended_ (err e)) = (refl, inr (open_, λ e. cc))

change_trans :
    (a b c : IngestionJob)
    → (b ≡ a) ⊎ ((a.status ≢ completed) × (b.status ≢ pending))
    → (c ≡ b) ⊎ ((b.status ≢ completed) × (c.status ≢ pending))
    → (c ≡ a) ⊎ ((a.status ≢ completed) × (c.status ≢ pending))
change_trans a b c (inl e) (inl f) = inl (f ∙ e)
change_trans a b c (inl e) (inr (open_, taken)) = inr (rw (sym (ap (λ x. x.status) e)) open_, taken)
change_trans a b c (inr (open_, first)) (inl f) = inr (open_, rw (ap (λ x. x.status) f) first)
change_trans a b c (inr (open_, first)) (inr (o, taken)) = inr (open_, taken)

Follows-trans : (a b c : IngestionJob) → Follows a b → Follows b c → Follows a c
Follows-trans a b c (r, e) (s, f) = (s ∙ r, change_trans a b c e f)

-- Every row of the table satisfies Q.
abbrev pub Rows : (IngestionJob → Type 0) → Table → Type 0
Rows Q t = (id : ℕ) (job : IngestionJob) → get_by_id id t ≡ some job → Q job

if_some :
    (id j : ℕ) (at : IngestionJob) (other : Option IngestionJob) (job : IngestionJob)
    → (if id == j then some at else other) ≡ some job
    → (at ≡ job) ⊎ (other ≡ some job)
if_some id j at other job h = ground arith

some_inj : {a b : IngestionJob} → some a ≡ some b → a ≡ b
some_inj e = cc

if_cases :
    (id j : ℕ)
    → ((id ≡ j) × ((a b : Option IngestionJob) → (if id == j then a else b) ≡ a))
      ⊎ ((a b : Option IngestionJob) → (if id == j then a else b) ≡ b)
if_cases id j = elim (Bool-cases (id == j)) [
  | inl e ↦ inl (ground (arith, e), λ a b. rw e refl)
  | inr e ↦ inr (λ a b. rw e refl)
]

RowState-new_row :
    (now id : ℕ) (new : NewJob) → new.status ≡ pending → RowState (new_row now id new)
unfolding new_row
RowState-new_row now id new first = is_pending first refl refl refl

RowState-TableStep : (t t' : Table) → TableStep t t' → Rows RowState t → Rows RowState t'
RowState-TableStep t t' (same reads) rows id job found = rows id job (sym (reads id) ∙ found)
RowState-TableStep t t' (added now new_id new fresh first reads) rows id job found =
    elim (if_some new_id id (new_row now new_id new) (get_by_id id t) job
      (sym (reads id) ∙ found)) [
        | inl e ↦ rw (sym e) (RowState-new_row now new_id new first)
        | inr old ↦ rows id job old
      ]
RowState-TableStep t t' (ran ran_id was is was_found open_ run reads) rows id job found =
    elim (if_some ran_id id is (get_by_id id t) job (sym (reads id) ∙ found)) [
      | inl e ↦
          rw (sym e) (Ran-RowState was is (uncounted was open_ (rows ran_id was was_found)) run)
      | inr old ↦ rows id job old
    ]

Follows-TableStep :
    (t t' : Table) (id : ℕ) (job : IngestionJob)
    → TableStep t t'
    → get_by_id id t ≡ some job
    → (job' : IngestionJob) × (get_by_id id t' ≡ some job') × Follows job job'
Follows-TableStep t t' id job (same reads) found = (job, reads id ∙ found, (refl, inl refl))
Follows-TableStep t t' id job (added now new_id new fresh first reads) found =
    (job, ground (arith, reads id, ==_iff new_id id), (refl, inl refl))
Follows-TableStep t t' id job (ran ran_id was is was_found open_ run reads) found =
    elim (if_cases ran_id id) [
      | inl (e, at) ↦ (
        is,
        reads id ∙ at (some is) (get_by_id id t),
        rw (sym (some_inj (sym was_found ∙ (ap (λ k. get_by_id k t) e ∙ found))))
            (Ran-Follows was is open_ run),
      )
      | inr past ↦ (job, reads id ∙ (past (some is) (get_by_id id t) ∙ found), (refl, inl refl))
    ]

module _ (P : Ports) (settings : Settings) (w : World P Table) where
  -- However the ports behave: if every row of the table is in one of the four states above, then so is
  -- every row after any sequence of requests, runs of tasks and deaths of workers.
  pub RowState-Reach :
      (v : World P Table) → Reach P settings w v → Rows RowState w.jobs → Rows RowState v.jobs
  RowState-Reach v (here) rows = rows
  RowState-Reach v (next {u} reach step) rows =
      RowState-TableStep u.jobs v.jobs (Step-TableStep P settings u v step)
        (RowState-Reach u reach rows)

  -- However the ports behave, no row is ever lost: after any sequence of requests, runs of tasks and
  -- deaths of workers the table still has it, with all that the client asked for; and it is the very
  -- row it was, unless it was not completed and a worker has taken it up. So a completed row stays.
  pub Follows-Reach :
      (v : World P Table) (id : ℕ) (job : IngestionJob)
      → Reach P settings w v
      → get_by_id id w.jobs ≡ some job
      → (job' : IngestionJob) × (get_by_id id v.jobs ≡ some job') × Follows job job'
  Follows-Reach v id job (here) found = (job, found, (refl, inl refl))
  Follows-Reach v id job (next {u} reach step) found =
      let (between, held, follows) = Follows-Reach u id job reach found in
      let (last, now, follows') =
        Follows-TableStep u.jobs v.jobs id between (Step-TableStep P settings u v step) held in
      (last, now, Follows-trans job between last follows follows')
