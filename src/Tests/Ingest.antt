-- ===== src/Tests/Ingest.antt =====
-- Jobs from their submission to their end, on small inputs.
use rag_document_processor.Prelude.{ℕ, ◌+◌, ◌≡◌, refl, Option, none, some, List, [], ◌∷◌, arith}
use rag_document_processor.Domain.Exceptions.{ok}
use rag_document_processor.Domain.Entities.{IngestionJob, pending}
use rag_document_processor.Prelude.Text.{codes}
use rag_document_processor.Jobs.{get_by_id, new_row, create}
use rag_document_processor.Dimensions.Validate.{validate_embedding_dimensions}
use rag_document_processor.Ingest.Segments.{texts_from_source_text}
use rag_document_processor.LateChunk.Sentences.{simple_token_count}
use rag_document_processor.Options.Choices.{pipeline_of, macro_of}
use rag_document_processor.Options.Resolve.{
  resolve_late_chunk_tokens, is_text, late_chunking_embedder, select_embedder, model_name,
  resolve_ingest_embedding_options,
}
use rag_document_processor.Pipelines.Factory.{build_embedding_pipeline}
use rag_document_processor.Pipelines.Late.{process}
use rag_document_processor.Prelude.Text.{text_eq, is_space, lstrip, rstrip, strip}
use rag_document_processor.Ingest.Process.{
  job_options, run_pipeline, emit_all, emit_segments, finalize_sink, embed_job, attempt, execute,
}
use rag_document_processor.Json.{loads}
use rag_document_processor.Ingest.Process.Laws.{Ends, execute-Ends, execute-other}
use rag_document_processor.Ingest.Process.Protocol.{Protocol, attempt-Protocol}
use mathlib.Core.Path.{ap}
use mathlib.Core.Logic.{◌⊎◌}
use rag_document_processor.Prelude.Text.{Text}
use rag_document_processor.Ingest.Fields.{JobFields}
use rag_document_processor.Ingest.Submit.{check_file, submit_file}
use rag_document_processor.Ingest.Submit.Laws.{Unchanged, FileStored, submit_file_lem}
use rag_document_processor.Ingest.Status.{
  JobStatusDto, new_overrides, get_job_status, get_job_status-create,
}
use rag_document_processor.Options.Choices.{Overrides, late_chunking}
use rag_document_processor.Ingest.Ports.{Ports, World}
use rag_document_processor.Jobs.{Table}
use rag_document_processor.Domain.Entities.{completed}
use rag_document_processor.Ingest.Results.{JobResultsDto, get_job_results}
use rag_document_processor.Ingest.Results.Laws.{JobChunks, get_job_results-execute}
use rag_document_processor.Sink.Emit.{emit, finalize, clear, with_redis}
use rag_document_processor.Sink.Read.{read}
use rag_document_processor.Tests.Streams.{memory, memory-IsRedis, plain_codec, plain_codec-IsCodec}
use rag_document_processor.Tests.Fixtures.{
  default_options, settings, ports, job, done_job, world, no_fields, text_row,
}

execute-Ends_example :
    (after : IngestionJob) × (get_by_id 7 (execute ports settings 2 3 7 world).jobs ≡ some after)
    × Ends job (attempt ports settings job [] (codes "old" ∷ [])).0 after
    × ((execute ports settings 2 3 7 world).sink
        ≡ (attempt ports settings job [] (codes "old" ∷ [])).1)
unfolding get_by_id
execute-Ends_example = execute-Ends ports settings 2 3 7 world job refl (λ h. cc)

execute-other_example :
    get_by_id 8 (execute ports settings 2 3 7 world).jobs ≡ get_by_id 8 world.jobs
execute-other_example = execute-other ports settings 2 3 7 8 world (λ h. omega (arith, h))

abbrev text_overrides : Overrides
text_overrides = new_overrides text_row

text_resolves : resolve_ingest_embedding_options settings text_overrides ≡ ok default_options
unfolding resolve_ingest_embedding_options resolve_late_chunk_tokens is_text late_chunking_embedder
    select_embedder model_name pipeline_of macro_of text_eq strip lstrip rstrip is_space
text_resolves = refl

get_job_status-create_example :
    (dto : JobStatusDto) × (get_job_status settings 9 (job ∷ new_row 4 9 text_row ∷ []) ≡ ok dto)
    × (dto.job_id ≡ 9)
    × (dto.status ≡ pending)
    × (dto.chunks_emitted ≡ 0)
    × (dto.error_message ≡ none)
    × (dto.embedding_pipeline ≡ late_chunking)
    × (dto.embedding_model ≡ codes "jina-embeddings-v3")
unfolding create get_by_id
get_job_status-create_example =
    get_job_status-create settings 4 9 text_row (job ∷ []) (job ∷ new_row 4 9 text_row ∷ [])
      default_options refl text_resolves

attempt-job : attempt ports settings job [] [] ≡ (ok 1, codes "One two" ∷ codes "end" ∷ [])
unfolding loads validate_embedding_dimensions job_options run_pipeline emit_all emit_segments
    finalize_sink embed_job attempt texts_from_source_text simple_token_count pipeline_of macro_of
    resolve_late_chunk_tokens is_text late_chunking_embedder select_embedder model_name
    resolve_ingest_embedding_options build_embedding_pipeline process
attempt-job = refl

attempt-Protocol_example :
    (cleared : List Text) × (ports.clear 7 [] ≡ ok cleared)
    × Protocol ports settings job [] 1 cleared (attempt ports settings job [] []).1
attempt-Protocol_example = attempt-Protocol ports settings job [] 1 [] (ap (λ r. r.0) attempt-job)

submit_file_lem_example :
    Unchanged ports settings 4 9 world (
      submit_file ports settings 4 9
        (some (codes "f"))
        (some (codes "text/plain"))
        (1 ∷ [])
        no_fields
        world)
    ⊎ ((ctype : Text) × (tier : Option Text) × (fields : JobFields) × (check_file settings
            (some (codes "text/plain"))
            (1 ∷ [])
            no_fields
          ≡ ok (ctype, tier, fields))
        × FileStored ports settings 4 9 (some (codes "f")) (1 ∷ []) ctype tier fields world (
            submit_file ports settings 4 9
              (some (codes "f"))
              (some (codes "text/plain"))
              (1 ∷ [])
              no_fields
              world))
submit_file_lem_example =
    submit_file_lem ports settings 4 9 (some (codes "f")) (some (codes "text/plain")) (1 ∷ [])
      no_fields world

abbrev streaming : Ports
streaming = with_redis ports memory plain_codec 10

abbrev stream_world : World streaming Table
stream_world = record { jobs = job ∷ done_job ∷ []; blobs = []; queue = []; sink = λ key. [] }

streaming-attempt : (attempt streaming settings job [] (λ key. [])).0 ≡ ok 1
unfolding loads validate_embedding_dimensions job_options run_pipeline emit_all emit_segments
    finalize_sink embed_job attempt texts_from_source_text simple_token_count pipeline_of macro_of
    resolve_late_chunk_tokens is_text late_chunking_embedder select_embedder model_name
    resolve_ingest_embedding_options build_embedding_pipeline process emit finalize clear
streaming-attempt = refl

get_job_results-execute_example :
    (dto : JobResultsDto ℕ Text) × (get_job_results
        (read memory plain_codec)
        settings
        7
        (execute streaming settings 2 3 7 stream_world).jobs
        (execute streaming settings 2 3 7 stream_world).sink
      ≡ ok dto)
    × (dto.status ≡ completed)
    × (dto.chunks_emitted ≡ 0 + 1)
    × JobChunks ports memory plain_codec memory-IsRedis plain_codec-IsCodec 10 settings job [] 1
        (record { chunks = dto.chunks; finalization_metadata = dto.finalization_metadata })
unfolding get_by_id
get_job_results-execute_example =
    get_job_results-execute ports memory plain_codec memory-IsRedis plain_codec-IsCodec 10 settings
      2 3 7 1 stream_world job default_options refl (λ h. cc) streaming-attempt (omega arith)
      text_resolves
