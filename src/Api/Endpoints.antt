-- ===== src/Api/Endpoints.antt =====
-- What a client is answered by the endpoints that submit JSON.
use rag_document_processor.Prelude.{
  ℕ, ◌≡◌, refl, ap, Bool, true, false, Option, none, some, List, [], ◌∷◌, ◌++◌, inl, inr, ◌⊎◌,
  if◌then◌else◌,
}
use rag_document_processor.Prelude.Text.{Text}
use rag_document_processor.Domain.Exceptions.{Result, ok, err}
use rag_document_processor.Domain.Entities.{pending}
use rag_document_processor.Options.Choices.{Settings}
use rag_document_processor.Jobs.{Table, NewJob, get_by_id, new_row}
use rag_document_processor.Jobs.Laws.{create-fresh}
use rag_document_processor.Ingest.Fields.{JobFields}
use rag_document_processor.Ingest.Ports.{Ports, World}
use rag_document_processor.Ingest.Submit.{check_fields, create_and_enqueue, submit_url, submit_text}
use rag_document_processor.Ingest.Submit.Laws.{url_job, text_job, create_and_enqueue_queued}
use rag_document_processor.ApiKeys.Access.{granted}
use rag_document_processor.Api.{ErrorReply, error_reply, Reply, replied, refused, invalid_request}
use rag_document_processor.Api.Requests.{
  RequestFields, raw_fields, constraints, validate_tier, with_tier, some_texts, parsed_url,
  validate_fields, UrlIngestRequest, TextIngestRequest, validate_url_request, validate_text_request,
}
use rag_document_processor.Api.Ingest.{
  created, submit_valid_url, submit_valid_text, ingest_url, ingest_text,
}
use rag_document_processor.Api.Checks.{Checks, passes, fails}
use rag_document_processor.Api.Laws.{check_fields-Checks}

validate_fields-cases :
    (body : RequestFields)
    → (validate_fields body ≡ none)
      ⊎ ((tier : Option Text) × (validate_fields body ≡ some (raw_fields body tier)))
unfolding validate_fields
validate_fields-cases body = go (constraints body) (validate_tier body.llama_parse_tier)
  where
    go :
        (b : Bool) (tier : Option (Option Text))
        → ((if b then with_tier body tier else none) ≡ none)
          ⊎ ((t : Option Text) × ((if b then with_tier body tier else none)
                ≡ some (raw_fields body t)))
    go false tier = inl refl
    go true none = inl refl
    go true (some t) = inr (t, refl)

module _ (P : Ports) (settings : Settings) (now job_id : ℕ) (w : World P Table)
    (queue : P.Queue) where
  -- A 422 and nothing has changed; or the id of a new pending row, whose task is queued.
  abbrev pub RefusedOrQueued : Reply ℕ × World P Table → Type 0
  RefusedOrQueued answer =
      ((r : ErrorReply) × (r.status ≡ 422) × (answer ≡ (refused r, w)))
      ⊎ ((new : NewJob) × (new.status ≡ pending)
          × (answer ≡ (
            replied job_id,
            record w { jobs = w.jobs ++ new_row now job_id new ∷ []; queue = queue },
          )))

  refused_or_queued :
      (checked : Result (Option Text × JobFields)) (job_of : Option Text → JobFields → NewJob)
      → ((tier : Option Text) (fields : JobFields) → (job_of tier fields).status ≡ pending)
      → Checks checked
      → get_by_id job_id w.jobs ≡ none
      → P.enqueue job_id w.queue ≡ ok queue
      → RefusedOrQueued (
          created P settings now job_id (elim checked [
            | err e ↦ (err e, w)
            | ok (tier, fields) ↦ create_and_enqueue P settings now job_id (job_of tier fields) w
          ]))
  refused_or_queued (err e) job_of first (fails h) fresh queued = inl (error_reply e, h, refl)
  refused_or_queued (ok (tier, fields)) job_of first passes fresh queued = inr (
    job_of tier fields,
    first tier fields,
    ap (created P settings now job_id) (
        create_and_enqueue_queued P settings now job_id (job_of tier fields) w
          (w.jobs ++ new_row now job_id (job_of tier fields) ∷ []) queue
          (create-fresh now job_id (job_of tier fields) w.jobs fresh) queued),
  )

  submit_valid_text-RefusedOrQueued :
      (body : TextIngestRequest)
      → get_by_id job_id w.jobs ≡ none
      → P.enqueue job_id w.queue ≡ ok queue
      → RefusedOrQueued (submit_valid_text P settings now job_id w (validate_text_request body))
  unfolding validate_text_request submit_text
  submit_valid_text-RefusedOrQueued body fresh queued = go body.texts body.fields
    where
      go :
          (texts : List Text) (fields : RequestFields)
          → RefusedOrQueued (submit_valid_text P settings now job_id w (some_texts texts fields))
      go [] fields = inl (invalid_request, refl, refl)
      go (t ∷ ts) fields = elim (validate_fields-cases fields) [
        | inl bad ↦ rw bad (inl (invalid_request, refl, refl))
        | inr (tier, good) ↦ rw good (
            refused_or_queued (check_fields settings (raw_fields fields tier))
              (text_job P settings now job_id (t ∷ ts)) (λ x y. refl)
              (check_fields-Checks settings fields tier) fresh queued)
      ]

  submit_valid_url-RefusedOrQueued :
      (http_url : Text → Option Text) (body : UrlIngestRequest)
      → get_by_id job_id w.jobs ≡ none
      → P.enqueue job_id w.queue ≡ ok queue
      → RefusedOrQueued
          (submit_valid_url P settings now job_id w (validate_url_request http_url body))
  unfolding validate_url_request submit_url
  submit_valid_url-RefusedOrQueued http_url body fresh queued = go (http_url body.url) body.fields
    where
      go :
          (parsed : Option Text) (fields : RequestFields)
          → RefusedOrQueued (submit_valid_url P settings now job_id w (parsed_url parsed fields))
      go none fields = inl (invalid_request, refl, refl)
      go (some url) fields = elim (validate_fields-cases fields) [
        | inl bad ↦ rw bad (inl (invalid_request, refl, refl))
        | inr (tier, good) ↦ rw good (
            refused_or_queued (check_fields settings (raw_fields fields tier))
              (url_job P settings now job_id url) (λ x y. refl)
              (check_fields-Checks settings fields tier) fresh queued)
      ]

  -- With a key that is accepted, a new id that no job has, and a queue that takes the task: whatever
  -- the body of a request for texts or for a URL holds, the answer is a 422 and nothing has changed, or
  -- it is the id of a new pending row at the end of the table, whose task is queued. No body is
  -- answered with a 500, and none leaves a part of a job behind.
  pub ingest-RefusedOrQueued :
      {K : Type 0} (key : K) (http_url : Text → Option Text) (texts : TextIngestRequest)
      (link : UrlIngestRequest)
      → get_by_id job_id w.jobs ≡ none
      → P.enqueue job_id w.queue ≡ ok queue
      → RefusedOrQueued (ingest_text P settings now job_id (granted key) texts w)
        × RefusedOrQueued (ingest_url P settings now job_id http_url (granted key) link w)
  unfolding ingest_text ingest_url
  ingest-RefusedOrQueued key http_url texts link fresh queued = (
    submit_valid_text-RefusedOrQueued texts fresh queued,
    submit_valid_url-RefusedOrQueued http_url link fresh queued,
  )
