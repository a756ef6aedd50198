-- ===== src/Ingest/Parallel/Streams.antt =====
-- What clients read of jobs that were run side by side.
use mathlib.Core.Path.{subst}
use rag_document_processor.Prelude.{
  ℕ, ◌+◌, ◌<◌, ◌≡◌, ◌≢◌, refl, sym, ap, ◌∙◌, inl, inr, some, [], length,
}
use rag_document_processor.Domain.Exceptions.{ok}
use rag_document_processor.Domain.Entities.{IngestionJob, completed}
use rag_document_processor.Options.Choices.{Settings}
use rag_document_processor.Jobs.{Table, get_by_id, set_status, add_chunks}
use rag_document_processor.Jobs.Laws.{get_by_id-id}
use rag_document_processor.Ingest.Ports.{Ports, JobMeta}
use rag_document_processor.Ingest.Process.Row.{final_row}
use rag_document_processor.Ingest.Parallel.{
  plan, Worker, idle, held, System, Step, taken, cleared, emitted, finalized, raised, recorded,
  died, Reach, here, next,
}
use rag_document_processor.Ingest.Parallel.Plan.{plan-count}
use rag_document_processor.Ingest.Parallel.Apart.{Q, Ended, Local, Completed, Inv}
use rag_document_processor.Ingest.Parallel.Runs.{
  raised-Inv, died-Inv, cleared-Inv, emitted-Inv, finalized-Inv,
}
use rag_document_processor.Ingest.Parallel.Marks.{recorded-Inv, taken-Inv}
use rag_document_processor.Sink.Redis.{Redis, IsRedis, Codec, IsCodec}
use rag_document_processor.Sink.Read.{read}
use rag_document_processor.Sink.Laws.{results_from, parse_entries_all}

module _ (P : Ports) (R : Redis) (C : Codec P.Vector JobMeta) (sound : IsRedis R) (maxlen : ℕ)
    (settings : Settings) (blobs : P.Blobs) where
  abbrev pub Served : Ports
  Served = Q P R C sound maxlen settings blobs

  held_of :
      (s : System Served settings) (i : ℕ) (w : Worker Served settings) (job : IngestionJob)
      → s.worker i ≡ w
      → held Served settings w ≡ some job
      → held Served settings (s.worker i) ≡ some job
  held_of s i w job stands h = ap (held Served settings) stands ∙ h

  Step-Inv :
      (first : Table) {s t : System Served settings}
      → Inv P R C sound maxlen settings blobs first s
      → Step Served settings blobs s t
      → Inv P R C sound maxlen settings blobs first t
  Step-Inv first {s} inv (taken i started id job free found open_ small alone) =
      taken-Inv P R C sound maxlen settings blobs first s i started id job inv found small alone
  Step-Inv first {s} inv (cleared i job sink stands done) =
      cleared-Inv P R C sound maxlen settings blobs first s inv i job
        (held_of s i _ job stands refl) sink done
  Step-Inv first {s} inv (emitted i job c cs out sink stands done) =
      emitted-Inv P R C sound maxlen settings blobs first s inv i job
        (held_of s i _ job stands refl) c cs out sink stands done
  Step-Inv first {s} inv (finalized i job n sink stands done) =
      finalized-Inv P R C sound maxlen settings blobs first s inv i job
        (held_of s i _ job stands refl) n sink stands done
  Step-Inv first {s} inv (raised i job e stands) =
      raised-Inv P R C sound maxlen settings blobs first s inv i job stands e
  Step-Inv first {s} inv (recorded i ended job out stands) =
      recorded-Inv P R C sound maxlen settings blobs first s inv i job
        (held_of s i _ job stands refl) ended out stands
  Step-Inv first {s} inv (died i job stands) =
      died-Inv P R C sound maxlen settings blobs first s inv i job stands

  Inv-start :
      (s : System Served settings)
      → ((i : ℕ) → s.worker i ≡ idle)
      → Inv P R C sound maxlen settings blobs s.jobs s
  Inv-start s rest = record {
    local =
        λ i. subst (λ w. Local P R C sound maxlen settings blobs w s.jobs s.sink) (sym (rest i)) tt;
    apart = λ i k job other h h' same.
        absurd (none_held (ap (held Served settings) (sym (rest i)) ∙ h));
    completed_rows = λ id row found done. inl found;
  }
    where
      none_held : {job : IngestionJob} → held Served settings idle ≢ some job
      none_held h = cc

  Reach-Inv :
      {s t : System Served settings}
      → ((i : ℕ) → s.worker i ≡ idle)
      → Reach Served settings blobs s t
      → Inv P R C sound maxlen settings blobs s.jobs t
  Reach-Inv {s} rest here = Inv-start s rest
  Reach-Inv {s} rest (next r step) = Step-Inv s.jobs (Reach-Inv rest r) step

  read-Ended :
      (faithful : IsCodec C) (job : IngestionJob) (n : ℕ) (sink : R.State)
      → Ended P R C sound maxlen settings blobs job n sink
      → length (plan Served settings job blobs).0 < maxlen
      → read R C job.id sink
        ≡ ok (record {
          chunks = results_from R C faithful maxlen 0 (plan Served settings job blobs).0;
          finalization_metadata = some (faithful.count_object n);
        })
  unfolding read
  read-Ended faithful job n sink (planned, holds) few =
      rw (holds few)
        (parse_entries_all R C faithful maxlen job.id n [] (plan Served settings job blobs).0)

  -- Workers that start idle, and each of which takes a job that no other one holds, run in any
  -- order of their single operations on the table and on Redis; any of them may raise an exception or
  -- die at any point. Then a row that was not completed at the start and is now has its outcome from
  -- one of them: the row counts the chunks of that run's plan, on top of those of the row that was
  -- read, and if they are fewer than the entries that a stream keeps, its stream reads as all of them,
  -- in order and numbered, with their number in the end mark.
  pub Reach-Completed :
      (faithful : IsCodec C) (s t : System Served settings) (id : ℕ) (row row' : IngestionJob)
      → ((i : ℕ) → s.worker i ≡ idle)
      → Reach Served settings blobs s t
      → get_by_id id s.jobs ≡ some row
      → row.status ≢ completed
      → get_by_id id t.jobs ≡ some row'
      → row'.status ≡ completed
      → (job : IngestionJob) × (started : ℕ) × (ended : ℕ) × (n : ℕ) × (row'
          ≡ final_row started ended (ok n) job)
        × ((plan Served settings job blobs).1 ≡ ok n)
        × (n ≡ length (plan Served settings job blobs).0)
        × (row'.chunks_emitted ≡ job.chunks_emitted + n)
        × (n < maxlen
            → read R C id t.sink
              ≡ ok (record {
                chunks = results_from R C faithful maxlen 0 (plan Served settings job blobs).0;
                finalization_metadata = some (faithful.count_object n);
              }))
  unfolding set_status add_chunks
  Reach-Completed faithful s t id row row' rest reach there open_ found done =
      elim ((Reach-Inv rest reach).completed_rows id row' found done) [
        | inl old ↦ absurd (open_ (ap (λ r. r.status) (same (sym there ∙ old)) ∙ done))
        | inr c ↦ (
          c.job,
          c.started,
          c.ended,
          c.n,
          c.final,
          c.whole.0,
          plan-count Served settings c.job blobs c.n c.whole.0,
          ap (λ r. r.chunks_emitted) c.final,
          λ few.
              ap (λ j. read R C j t.sink) (at_id c)
              ∙ read-Ended faithful c.job c.n t.sink c.whole (
                  subst (λ m. m < maxlen) (plan-count Served settings c.job blobs c.n c.whole.0)
                    few),
        )
      ]
    where
      at_id : (c : Completed P R C sound maxlen settings blobs row' t.sink) → id ≡ c.job.id
      at_id c = sym (get_by_id-id id t.jobs row' found) ∙ ap (λ r. r.id) c.final

      same : {a b : IngestionJob} → some a ≡ some b → a ≡ b
      same e = cc
