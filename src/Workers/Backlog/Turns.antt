-- ===== src/Workers/Backlog/Turns.antt =====
-- What waits stays known through every request and every task, and is worked off in the end.
use rag_document_processor.Prelude.{
  ℕ, ◌<◌, ◌≡◌, ◌≢◌, ◌⊎◌, inl, inr, refl, sym, ap, ◌∙◌, arith, some, List, [], ◌∷◌, map, length, All,
  Any,
}
use mathlib.Core.Path.{subst}
use rag_document_processor.Prelude.Uuid.{uuid_count}
use rag_document_processor.Domain.Exceptions.{Error, Result, ok, err}
use rag_document_processor.Domain.Entities.{IngestionJob}
use rag_document_processor.Options.Choices.{Settings}
use rag_document_processor.Pipelines.Factory.{Pipeline}
use rag_document_processor.Jobs.{Table, NewJob, get_by_id}
use rag_document_processor.Ingest.Ports.{Ports, World}
use rag_document_processor.Ingest.Process.{execute}
use rag_document_processor.Ingest.Process.Laws.{execute-other}
use rag_document_processor.Ingest.Submit.{submit_file, submit_url, submit_text, stored_file}
use rag_document_processor.Ingest.Submit.Laws.{
  Stored, url_job, text_job, submit_file_lem, submit_url_lem, submit_text_lem,
}
use rag_document_processor.TaskQueue.{IsCelery, make_celery}
use rag_document_processor.Service.{Deployment, build_default_pipeline}
use rag_document_processor.Workers.{Resource, work, work_off}
use rag_document_processor.Workers.Laws.{
  Settled, IsThere, same_or_not, message_of, All-each, execute-Settled, execute-IsThere,
  execute_keeps-Settled, work_first, work_off-keeps, work_off-Settled,
}
use rag_document_processor.Workers.Backlog.{
  P, Turn, Serves, file_sent, url_sent, texts_sent, task_run, start, then_, InQueue, Backlog,
  same-Backlog, added-Backlog,
}

length-map : (ids : List ℕ) → length (map message_of ids) ≡ length ids
length-map [] = refl
length-map (i ∷ ids) = ground (arith, length-map ids)

All-Any : (F : ℕ → Type 0) (j : ℕ) (ids : List ℕ) → All F ids → Any (λ i. i ≡ j) ids → F j
All-Any F j (i ∷ ids) (here, rest) (inl same) = subst F same here
All-Any F j (i ∷ ids) (here, rest) (inr there) = All-Any F j ids rest there
All-Any F j [] all h = elim h [ ]

module _ (settings : Settings) (D : Deployment) (close : Resource → Result (Unit {0}))
    (sound : IsCelery D.celery) (pipeline : Pipeline)
    (built : build_default_pipeline settings D ≡ ok pipeline) where
  abbrev R : Ports
  R = P settings D close

  abbrev Q : List ℕ → World R Table → Type 0
  Q ids w = InQueue settings D close sound pipeline built ids w

  abbrev B : World R Table → Type 0
  B w = Backlog settings D close sound pipeline built w

  -- The broker takes every task.
  abbrev Up : Type 0
  Up = (id : ℕ) (s : D.celery.State) → (t : D.celery.State) × (R.enqueue id s ≡ ok t)

  stored-Backlog :
      (w : World R Table) (r : Result ℕ × World R Table) (now id : ℕ) (new : NewJob)
      → Up
      → id < uuid_count
      → Stored R settings now id new w r
      → B w
      → B r.1
  stored-Backlog w r now id new up fits (jobs, fresh, reads, inr (queue, sent, left)) b =
      subst B (sym (ap (λ p. p.1) left)) (
        added-Backlog settings D close sound pipeline built w now id new jobs reads queue fits sent
          b)
  stored-Backlog w r now id new up fits (jobs, fresh, reads, inl (e, refused, left)) b =
      let (t, taken) = up id w.queue in absurd (differ e t (sym refused ∙ taken))
    where
      differ : (e : Error) (t : D.celery.State) → err e ≢ ok t
      differ e t h = cc

  left-Backlog :
      (w v : World R Table) (r : Result ℕ × World R Table) (e : Error)
      → v.jobs ≡ w.jobs
      → v.queue ≡ w.queue
      → r ≡ (err e, v)
      → B w
      → B r.1
  left-Backlog w v r e jobs queue left b =
      subst B (sym (ap (λ p. p.1) left))
        (same-Backlog settings D close sound pipeline built w v jobs queue b)

  work_idle :
      (started ended : ℕ) (w : World R Table) → Q [] w → work settings D close started ended w ≡ w
  unfolding work
  work_idle started ended w queued = rw (sound.rests queued) refl

  executed_covered :
      (started ended id : ℕ) (ids : List ℕ) (w : World R Table)
      → IsThere id w.jobs
      → ((j : ℕ) → IsThere j w.jobs → Settled j w.jobs ⊎ Any (λ i. i ≡ j) (id ∷ ids))
      → (j : ℕ) → IsThere j (execute R settings started ended id w).jobs
      → Settled j (execute R settings started ended id w).jobs ⊎ Any (λ i. i ≡ j) ids
  executed_covered started ended id ids w row covered j (job, found) = elim (same_or_not j id) [
    | inl same ↦ inl (
        subst (λ i. Settled i (execute R settings started ended id w).jobs) (sym same)
          (execute-Settled R settings started ended w id row))
    | inr other ↦
        elim (covered j (job, sym (execute-other R settings started ended id j w other) ∙ found)) [
          | inl done ↦ inl (execute_keeps-Settled R settings started ended w id j done)
          | inr waits ↦ elim waits [ inl same ↦ absurd (other (sym same)) | inr later ↦ inr later ]
        ]
  ]

  -- A worker ends the job whose task it takes.
  work-Backlog :
      (started ended : ℕ) (w : World R Table) → B w → B (work settings D close started ended w)
  work-Backlog started ended w b = go b.ids b.queued b.small b.rows b.covered
    where
      go :
          (ids : List ℕ)
          → Q ids w
          → All (λ i. i < uuid_count) ids
          → All (λ i. IsThere i w.jobs) ids
          → ((j : ℕ) → IsThere j w.jobs → Settled j w.jobs ⊎ Any (λ i. i ≡ j) ids)
          → B (work settings D close started ended w)
      go [] queued small rows covered = subst B (sym (work_idle started ended w queued)) b
      go (id ∷ ids) queued (fits, small) (row, rows) covered =
          let (t, now, rest) =
            work_first settings D close sound pipeline built started ended id ids w fits queued in
          let u = record w { queue = t } in
          subst B (sym now) (record {
            ids = ids;
            queued = rest;
            small = small;
            rows =
                All-each (λ i. IsThere i w.jobs)
                  (λ i. IsThere i (execute R settings started ended id u).jobs)
                  (execute-IsThere R settings started ended u id) ids rows;
            covered = executed_covered started ended id ids u row covered;
          })

  turn-Backlog : (w v : World R Table) → Up → Turn settings D close w v → B w → B v
  turn-Backlog w v up (file_sent now id filename content_type bytes raw fits) b =
      let r = submit_file R settings now id filename content_type bytes raw w in
      elim (submit_file_lem R settings now id filename content_type bytes raw w) [
        | inl (e, left) ↦ left-Backlog w w r e refl refl left b
        | inr (ctype, tier, fields, checked, (blobs, put, after)) ↦
            let u = record w { blobs = blobs } in
            elim after [
              | inl (e, left) ↦ left-Backlog w u r e refl refl left b
              | inr stored ↦
                  stored-Backlog u r now id
                    (stored_file R settings now id filename ctype tier fields) up fits stored
                    (same-Backlog settings D close sound pipeline built w u refl refl b)
            ]
      ]
  turn-Backlog w v up (url_sent now id source raw fits) b =
      let r = submit_url R settings now id source raw w in
      elim (submit_url_lem R settings now id source raw w) [
        | inl (e, left) ↦ left-Backlog w w r e refl refl left b
        | inr (tier, fields, checked, stored) ↦
            stored-Backlog w r now id (url_job R settings now id source tier fields) up fits stored
              b
      ]
  turn-Backlog w v up (texts_sent now id texts raw fits) b =
      let r = submit_text R settings now id texts raw w in
      elim (submit_text_lem R settings now id texts raw w) [
        | inl (e, left) ↦ left-Backlog w w r e refl refl left b
        | inr (tier, fields, checked, stored) ↦
            stored-Backlog w r now id (text_job R settings now id texts tier fields) up fits stored
              b
      ]
  turn-Backlog w v up (task_run started ended) b = work-Backlog started ended w b

  serves-Backlog : (w v : World R Table) → Up → Serves settings D close w v → B w → B v
  serves-Backlog w v up start b = b
  serves-Backlog w v up (then_ {u} before turn) b =
      turn-Backlog u v up turn (serves-Backlog w u up before b)

  empty-Backlog : (w : World R Table) → w.jobs ≡ [] → Q [] w → B w
  unfolding get_by_id
  empty-Backlog w none_yet idle = record {
    ids = [];
    queued = idle;
    small = tt;
    rows = tt;
    covered = λ j (job, found). absurd (missing j job (ap (get_by_id j) (sym none_yet) ∙ found));
  }
    where
      missing : (j : ℕ) (job : IngestionJob) → get_by_id j [] ≢ some job
      missing j job h = cc

  -- From an empty table and an idle queue, let requests be answered and tasks be run in any order, where
  -- new ids are UUIDs, the broker takes every task and gives them out in order, and the default
  -- pipeline can be built. Then a worker that takes as many more messages as wait leaves the queue
  -- empty, and every job that there is has ended, completed or failed.
  pub work_off-Serves :
      (w v : World R Table) (times : List (ℕ × ℕ)) (j : ℕ)
      → ((id : ℕ) (s : D.celery.State) → (t : D.celery.State) × (R.enqueue id s ≡ ok t))
      → w.jobs ≡ []
      → Q [] w
      → Serves settings D close w v
      → length times
        ≡ length (sound.waiting (make_celery D.celery_environ).task_default_queue v.queue)
      → IsThere j v.jobs
      → Q [] (work_off settings D close times v)
        × Settled j (work_off settings D close times v).jobs
  work_off-Serves w v times j up none_yet idle reach count there =
      let b = serves-Backlog w v up reach (empty-Backlog w none_yet idle) in
      let enough : length times ≡ length b.ids = count ∙ ap length b.queued ∙ length-map b.ids in
      let (empty, ended) =
        work_off-Settled settings D close sound pipeline built times b.ids v enough b.small b.rows
          b.queued in
      (
        empty,
        elim (b.covered j there) [
          | inl done ↦
              work_off-keeps settings D close sound pipeline built times b.ids v j enough b.small
                b.queued done
          | inr waits ↦
              All-Any (λ i. Settled i (work_off settings D close times v).jobs) j b.ids ended waits
        ],
      )
