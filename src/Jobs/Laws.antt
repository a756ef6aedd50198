-- ===== src/Jobs/Laws.antt =====
-- Reading the table of jobs after each of its operations.
use rag_document_processor.Prelude.{
  ℕ, ◌≡◌, refl, Option, none, some, [], ◌∷◌, ◌++◌, arith, ==_iff, ◌==◌, if◌then◌else◌,
}
use rag_document_processor.Domain.Exceptions.{Error, ok}
use rag_document_processor.Domain.Entities.{IngestionJob, JobStatus}
use rag_document_processor.Jobs.{
  Table, NewJob, get_by_id, new_row, add_row, create, update_where, set_status, update_status,
  add_chunks, increment_chunks,
}

abbrev pub map_job : (IngestionJob → IngestionJob) → Option IngestionJob → Option IngestionJob
map_job f none = none
map_job f (some job) = some (f job)

-- An update that keeps ids is seen at its own id, and at no other.
pub get_by_id-update_where :
    (id j : ℕ) (f : IngestionJob → IngestionJob) (jobs : Table)
    → ((job : IngestionJob) → (f job).id ≡ job.id)
    → get_by_id j (update_where id f jobs)
      ≡ (if id == j then map_job f (get_by_id j jobs) else get_by_id j jobs)
unfolding get_by_id update_where
get_by_id-update_where id j f [] keeps = ground arith
get_by_id-update_where id j f (job ∷ jobs) keeps =
    ground (arith, get_by_id-update_where id j f jobs keeps, keeps job)

pub get_by_id-update_status :
    (now id j : ℕ) (status : JobStatus) (error : Option Error) (jobs : Table)
    → get_by_id j (update_status now id status error jobs) ≡ (
        if id == j
        then map_job (set_status now status error) (get_by_id j jobs)
        else get_by_id j jobs)
unfolding update_status
get_by_id-update_status now id j status error jobs =
    get_by_id-update_where id j (set_status now status error) jobs
      (λ job. unfold set_status in refl)

pub get_by_id-increment_chunks :
    (now id j delta : ℕ) (jobs : Table)
    → get_by_id j (increment_chunks now id delta jobs)
      ≡ (if id == j then map_job (add_chunks now delta) (get_by_id j jobs) else get_by_id j jobs)
unfolding increment_chunks
get_by_id-increment_chunks now id j delta jobs =
    get_by_id-update_where id j (add_chunks now delta) jobs (λ job. unfold add_chunks in refl)

abbrev or_row : Option IngestionJob → Option IngestionJob → Option IngestionJob
or_row none other = other
or_row (some job) other = some job

get_by_id-append :
    (j : ℕ) (jobs : Table) (row : IngestionJob)
    → get_by_id j (jobs ++ row ∷ [])
      ≡ or_row (get_by_id j jobs) (if row.id == j then some row else none)
unfolding get_by_id
get_by_id-append j [] row = refl
get_by_id-append j (job ∷ jobs) row = ground (arith, get_by_id-append j jobs row)

pub get_by_id-id :
    (id : ℕ) (jobs : Table) (job : IngestionJob) → get_by_id id jobs ≡ some job → job.id ≡ id
unfolding get_by_id
get_by_id-id id [] job h = cc
get_by_id-id id (row ∷ jobs) job h = ground (arith, get_by_id-id id jobs job)

id-new_row : (now id : ℕ) (new : NewJob) → (new_row now id new).id ≡ id
unfolding new_row
id-new_row now id new = refl

pub create-eq :
    (now id : ℕ) (new : NewJob) (jobs jobs' : Table)
    → create now id new jobs ≡ ok jobs'
    → (get_by_id id jobs ≡ none) × (jobs' ≡ jobs ++ new_row now id new ∷ [])
unfolding create
create-eq now id new jobs jobs' h = go (get_by_id id jobs) h
  where
    go :
        (o : Option IngestionJob)
        → add_row (new_row now id new) jobs o ≡ ok jobs'
        → (o ≡ none) × (jobs' ≡ jobs ++ new_row now id new ∷ [])
    go none k = (refl, cc)
    go (some old) k = cc

-- A created row is read back, with what was given and in its first state, and no other row changes.
pub get_by_id-create :
    (now id j : ℕ) (new : NewJob) (jobs jobs' : Table)
    → create now id new jobs ≡ ok jobs'
    → get_by_id j jobs' ≡ (if id == j then some (new_row now id new) else get_by_id j jobs)
get_by_id-create now id j new jobs jobs' h =
    let (fresh, e) = create-eq now id new jobs jobs' h in
    rw e (rw get_by_id-append (ground (arith, id-new_row now id new, fresh, ==_iff id j)))

pub create-fresh :
    (now id : ℕ) (new : NewJob) (jobs : Table)
    → get_by_id id jobs ≡ none
    → create now id new jobs ≡ ok (jobs ++ new_row now id new ∷ [])
unfolding create
create-fresh now id new jobs fresh = rw fresh refl
