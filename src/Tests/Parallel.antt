-- ===== src/Tests/Parallel.antt =====
-- Two workers that run two jobs side by side.
use rag_document_processor.Prelude.{
  ℕ, suc, zero, ◌+◌, ◌<◌, ◌≡◌, ◌≢◌, refl, none, some, [], ◌∷◌, length, arith,
}
use rag_document_processor.Prelude.Text.{codes}
use rag_document_processor.Domain.Exceptions.{ok}
use rag_document_processor.Domain.Entities.{IngestionJob, completed}
use rag_document_processor.Jobs.{
  get_by_id, update_status, set_status, update_where, add_chunks, increment_chunks,
}
use rag_document_processor.Ingest.Ports.{Ports}
use rag_document_processor.Ingest.Process.Row.{final_row}
use rag_document_processor.Ingest.Parallel.{
  Chunk, plan, plan_segments, run_plan, Worker, idle, clearing, emitting, held, System, taken,
  cleared, emitted, finalized, recorded, Reach, here, next, at,
}
use rag_document_processor.Ingest.Parallel.Plan.{attempt-run_plan}
use rag_document_processor.Ingest.Parallel.Streams.{Served, Reach-Completed}
use rag_document_processor.Json.{loads}
use rag_document_processor.Prelude.Int.{pos}
use rag_document_processor.Domain.Entities.{text}
use rag_document_processor.Domain.Exceptions.{jina}
use rag_document_processor.Dimensions.Validate.{validate_embedding_dimensions}
use rag_document_processor.Ingest.Segments.{texts_from_source_text}
use rag_document_processor.LateChunk.Sentences.{simple_token_count}
use rag_document_processor.Options.Choices.{pipeline_of, macro_of, late_chunking, recursive}
use rag_document_processor.Options.Resolve.{
  resolve_late_chunk_tokens, is_text, late_chunking_embedder, select_embedder, model_name,
  resolve_ingest_embedding_options,
}
use rag_document_processor.Pipelines.Factory.{build_embedding_pipeline}
use rag_document_processor.Pipelines.Late.{process}
use rag_document_processor.Ingest.Process.{
  attempt, job_meta, job_options, run_pipeline, record_outcome,
}
use rag_document_processor.Sink.Read.{read}
use rag_document_processor.Sink.Emit.{stream_key, emit, finalize, clear}
use mathlib.Core.Path.{ap}
use rag_document_processor.Sink.Laws.{results_from}
use rag_document_processor.Tests.Fixtures.{settings, ports, job}
use rag_document_processor.Tests.Streams.{
  store, memory, memory-IsRedis, plain_codec, plain_codec-IsCodec,
}

abbrev streaming : Ports
streaming = Served ports memory plain_codec memory-IsRedis 10 settings []

abbrev other_job : IngestionJob
other_job = record job { id = 9 }

abbrev start : System streaming settings
start = record { jobs = job ∷ other_job ∷ []; sink = λ key. []; worker = λ i. idle }

-- The one chunk of a job
abbrev chunk_for : ℕ → Chunk streaming settings
chunk_for id = record {
  text = codes "One two";
  embedding = 7;
  metadata = record {
    base = record {
      job_id = id;
      source_kind = text;
      embedding_pipeline = late_chunking;
      macro_splitter = recursive;
      embedder = jina;
      text_index = 0;
      text_count = none;
      late_chunk_min_tokens = some (pos 1);
      late_chunk_max_tokens = some (pos 4);
      late_chunk_batch_tokens = some (pos 8);
    };
    embedding_dimensions = none;
    chunk_index = 0;
    batch_index = some 0;
    token_count = some 2;
    pipeline = late_chunking;
  };
}

planned : (id : ℕ) → plan streaming settings (record job { id = id }) [] ≡ (chunk_for id ∷ [], ok 1)
unfolding plan plan_segments loads validate_embedding_dimensions job_options run_pipeline
    texts_from_source_text simple_token_count pipeline_of macro_of resolve_late_chunk_tokens is_text
    late_chunking_embedder select_embedder model_name resolve_ingest_embedding_options
    build_embedding_pipeline process job_meta
planned id = refl

nobody : (other : IngestionJob) (id : ℕ) → held streaming settings idle ≡ some other → other.id ≢ id
nobody other id h = absurd (cc h)

id_of : {a b : IngestionJob} → some a ≡ some b → b.id ≡ a.id
id_of h = cc

emits :
    (id : ℕ)
    → ◌≡◌ {A = Worker streaming settings}
        (emitting
          (record job { id = id })
          (plan streaming settings (record job { id = id }) []).0
          (plan streaming settings (record job { id = id }) []).1)
        (emitting (record job { id = id }) (chunk_for id ∷ []) (ok 1))
emits id = ap (λ p. emitting (record job { id = id }) p.0 p.1) (planned id)

one_held :
    (k : ℕ) (other : IngestionJob)
    → held streaming settings (at streaming settings (λ i. idle) 0 (clearing job) k) ≡ some other
    → other.id ≢ 9
one_held zero other h same = omega (arith, id_of h, same)
one_held (suc k) other h same = ground arith

open_job : job.status ≢ completed
open_job h = cc

-- Both are taken and cleared, the second one ends first.
abbrev run : (t : System streaming settings) × Reach streaming settings [] start t
unfolding get_by_id update_status update_where set_status emit finalize clear
run = (
  _,
  next
      (next
        (next
          (next
            (next
              (next
                (next
                  (next
                    (next
                      (next here (
                        taken 0 2 7 job refl refl open_job (omega arith)
                          (λ k other h. nobody other 7 h)))
                      (taken 1 3 9 other_job refl refl open_job (omega arith) one_held))
                    (cleared 0 job _ refl refl))
                  (cleared 1 other_job _ refl refl))
                (emitted 0 job (chunk_for 7) [] (ok 1) _ (emits 7) refl))
              (emitted 1 other_job (chunk_for 9) [] (ok 1) _ (emits 9) refl))
            (finalized 1 other_job 1 _ refl refl))
          (recorded 1 4 other_job (ok 1) refl))
        (finalized 0 job 1 _ refl refl))
      (recorded 0 5 job (ok 1) refl),
)

Reach-Completed_example :
    (job' : IngestionJob) × (started : ℕ) × (ended : ℕ) × (n : ℕ) × (final_row 2 5 (ok 1) job
      ≡ final_row started ended (ok n) job')
    × ((plan streaming settings job' []).1 ≡ ok n)
    × (n ≡ length (plan streaming settings job' []).0)
    × (1 ≡ job'.chunks_emitted + n)
    × (n < 10
        → read memory plain_codec 7 run.0.sink
          ≡ ok (record {
            chunks =
                results_from memory plain_codec plain_codec-IsCodec 10 0
                  (plan streaming settings job' []).0;
            finalization_metadata = some (plain_codec-IsCodec.count_object n);
          }))
unfolding run get_by_id update_status update_where set_status add_chunks increment_chunks
    record_outcome
Reach-Completed_example =
    Reach-Completed ports memory plain_codec memory-IsRedis 10 settings [] plain_codec-IsCodec start
      run.0 7 job (final_row 2 5 (ok 1) job) (λ i. refl) run.1 refl open_job refl refl

attempt-run_plan_example :
    attempt streaming settings job [] (λ key. [])
    ≡ run_plan streaming settings 7
        (plan streaming settings job []).0
        (plan streaming settings job []).1
        (store (stream_key 7) [] (λ key. []))
unfolding clear
attempt-run_plan_example =
    attempt-run_plan streaming settings job [] (λ key. []) (store (stream_key 7) [] (λ key. []))
      refl
