-- ===== src/Ingest/Process.antt =====
-- `ProcessIngestionJobUseCase` of application/use_cases/ingestion/process_job.py
pub mod Laws
pub mod Emits
pub mod Protocol
pub mod Row
pub mod Files
pub mod Writes
use rag_document_processor.Prelude.{
  ℕ, zero, suc, ◌+◌, Bool, true, false, ◌&&◌, Option, none, some, List, [], ◌∷◌, ◌++◌, ltb, length,
  if◌then◌else◌,
}
use rag_document_processor.Prelude.Int.{ℤ}
use rag_document_processor.Prelude.Text.{
  Text, codes, text_eq, one_of, starts_with, some_nonempty, after_last,
}
use rag_document_processor.Domain.Exceptions.{
  Error, unsupported_mime_type, value_error, Result, ok, err, ◌>>=◌, ◌>>◌, guard,
}
use rag_document_processor.Domain.Entities.{
  IngestionJob, SourceKind, file, url, text, JobStatus, pending, processing, completed, failed,
}
use rag_document_processor.Options.Choices.{
  PipelineKind, late_chunking, chunk_then_embed, Settings, Overrides, ResolvedOptions,
}
use rag_document_processor.Options.Resolve.{resolve_ingest_embedding_options}
use rag_document_processor.Dimensions.Validate.{
  validate_embedding_dimensions, coalesce_embedding_dimensions,
}
use rag_document_processor.LateChunk.Sentences.{clean}
use rag_document_processor.Pipelines.Stream.{Stream, EmbeddedChunk}
use rag_document_processor.Pipelines.Factory.{
  Pipeline, late_chunking_pipeline, chunk_then_embed_pipeline, build_embedding_pipeline,
}
use rag_document_processor.Pipelines.Late
use rag_document_processor.Pipelines.Plain
use rag_document_processor.Jobs.{Table, get_by_id, update_status, increment_chunks}
use rag_document_processor.Ingest.Mime.{octet_stream, normalize_ctype, allowed_mime_set}
use rag_document_processor.Ingest.Segments.{texts_from_source_text}
use rag_document_processor.Ingest.Ports.{Ports, World, JobMeta}

-- The overrides that a row stores.
abbrev pub overrides_of : IngestionJob → Overrides
overrides_of job = record {
  embedding_pipeline = job.embedding_pipeline;
  macro_splitter = job.macro_splitter;
  embedder_provider = job.embedder_provider;
  openai_embedding_model = job.openai_embedding_model;
  jina_embedding_model = job.jina_embedding_model;
  late_chunk_min_tokens = job.late_chunk_min_tokens;
  late_chunk_max_tokens = job.late_chunk_max_tokens;
}

-- A URL's body of no known type is a PDF document if it begins like one.
unfoldable pub sniff_pdf : Text → List ℕ → Text
sniff_pdf ctype body =
    if text_eq ctype octet_stream && starts_with body (codes "%PDF")
    then codes "application/pdf"
    else ctype

abbrev pub url_mime_set : Settings → List Text
url_mime_set settings = allowed_mime_set settings ++ codes "text/plain" ∷ codes "text/markdown" ∷ []

abbrev pub nonempty_or_raise : Option Text → Text → Result Text
nonempty_or_raise none message = err (value_error message)
nonempty_or_raise (some []) message = err (value_error message)
nonempty_or_raise (some (c ∷ s)) message = ok (c ∷ s)

abbrev pub text_count_of : SourceKind → ℕ → Option ℕ
text_count_of text n = if ltb 1 n then some n else none
text_count_of url n = none
text_count_of file n = none

abbrev pub if_late : PipelineKind → ℤ → Option ℤ
if_late late_chunking z = some z
if_late chunk_then_embed z = none

unfoldable pub job_meta : IngestionJob → ResolvedOptions → ℕ → ℕ → JobMeta
job_meta job resolved n text_index = record {
  job_id = job.id;
  source_kind = job.source_kind;
  embedding_pipeline = resolved.embedding_pipeline;
  macro_splitter = resolved.macro_splitter;
  embedder = resolved.embedder;
  text_index = text_index;
  text_count = text_count_of job.source_kind n;
  late_chunk_min_tokens = if_late resolved.embedding_pipeline resolved.late_chunk_min_tokens;
  late_chunk_max_tokens = if_late resolved.embedding_pipeline resolved.late_chunk_max_tokens;
  late_chunk_batch_tokens = if_late resolved.embedding_pipeline resolved.late_chunk_batch_tokens;
}

-- The sentence chunker passes over blank nodes and trims the others.
abbrev pub chunk_nodes : Result (List Text) → Result (List Text)
chunk_nodes (err e) = err e
chunk_nodes (ok nodes) = ok (clean nodes)

module _ (P : Ports) (settings : Settings) where
  unfoldable pub url_segments : IngestionJob → Result (List Text)
  url_segments job = do
    source ← nonempty_or_raise job.source_url (codes "URL job missing source_url")
    fetched ← P.fetch source
    let ctype = sniff_pdf (normalize_ctype fetched.1) fetched.0
    guard (one_of ctype (url_mime_set settings)) (unsupported_mime_type ctype)
    extracted ←
        P.extract fetched.0 (some ctype) (some_nonempty (after_last 47 [] source))
          job.llama_parse_tier
    ok (extracted ∷ [])

  unfoldable pub file_segments : IngestionJob → P.Blobs → Result (List Text)
  file_segments job blobs = do
    key ← nonempty_or_raise job.blob_key (codes "File job missing blob_key")
    body ← P.get_bytes key blobs
    extracted ← P.extract body job.content_type job.original_filename job.llama_parse_tier
    ok (extracted ∷ [])

  abbrev pub segments_for : SourceKind → IngestionJob → P.Blobs → Result (List Text)
  segments_for text job blobs = ok (texts_from_source_text job.source_text)
  segments_for url job blobs = url_segments job
  segments_for file job blobs = file_segments job blobs

  -- What the job runs with, and its output size
  unfoldable pub job_options : IngestionJob → Result (ResolvedOptions × Option ℤ)
  job_options job = do
    resolved ← resolve_ingest_embedding_options settings (overrides_of job)
    P.construct (build_embedding_pipeline settings resolved)
    let dims = coalesce_embedding_dimensions job.embedding_dimensions settings.embedding_dimensions
    validate_embedding_dimensions resolved.embedder resolved.openai_embedding_model
        resolved.jina_embedding_model dims
    ok (resolved, dims)

  -- `pipeline.process`
  unfoldable pub run_pipeline :
      Pipeline → JobMeta → Option ℤ → Text → Stream (EmbeddedChunk JobMeta P.Vector)
  run_pipeline (late_chunking_pipeline splitter embedder lo hi batch) meta dims raw_text =
      Late.process P.count_tokens (λ texts. P.embed embedder texts true dims) meta dims lo hi batch
        (P.split splitter raw_text)
  run_pipeline (chunk_then_embed_pipeline embedder) meta dims raw_text =
      Plain.process (λ texts. P.embed embedder texts false dims) meta dims
        (chunk_nodes (P.nodes raw_text))

  -- The chunks that the pipeline yields are emitted as they come, until the sink fails or the
  -- pipeline does. The count of the emitted chunks goes on from `chunks`.
  unfoldable pub emit_all :
      ℕ → List (EmbeddedChunk JobMeta P.Vector) → Option Error → ℕ → P.Sink → Result ℕ × P.Sink
  emit_all id [] none chunks sink = (ok chunks, sink)
  emit_all id [] (some e) chunks sink = (err e, sink)
  emit_all id (c ∷ cs) raised chunks sink = elim (P.emit id c sink) [
    | err e ↦ (err e, sink)
    | ok sink' ↦ emit_all id cs raised (suc chunks) sink'
  ]

  -- The loop over the segments; `n` is their number.
  unfoldable pub emit_segments :
      IngestionJob → ResolvedOptions → Option ℤ → ℕ → ℕ → List Text → ℕ → P.Sink → Result ℕ × P.Sink
  emit_segments job resolved dims n index [] chunks sink = (ok chunks, sink)
  emit_segments job resolved dims n index (raw ∷ rest) chunks sink =
      let stream =
        run_pipeline (build_embedding_pipeline settings resolved) (job_meta job resolved n index)
          dims raw in
      let emitted = emit_all job.id stream.items stream.raised chunks sink in
      elim emitted.0 [
        | err e ↦ (err e, emitted.1)
        | ok chunks' ↦ emit_segments job resolved dims n (suc index) rest chunks' emitted.1
      ]

  unfoldable pub finalize_sink : ℕ → Result ℕ × P.Sink → Result ℕ × P.Sink
  finalize_sink id (err e, sink) = (err e, sink)
  finalize_sink id (ok chunks, sink) = elim (P.finalize id chunks sink) [
    | err e ↦ (err e, sink)
    | ok sink' ↦ (ok chunks, sink')
  ]

  -- After the sink is cleared: the segments, the options, the chunks and the end mark
  unfoldable pub embed_job : IngestionJob → P.Blobs → P.Sink → Result ℕ × P.Sink
  embed_job job blobs sink = elim (segments_for job.source_kind job blobs) [
    | err e ↦ (err e, sink)
    | ok segments ↦ elim (job_options job) [
      | err e ↦ (err e, sink)
      | ok (resolved, dims) ↦
          finalize_sink job.id (emit_segments job resolved dims (length segments) 0 segments 0 sink)
    ]
  ]

  -- The body of the `try`: the number of chunks, or the exception
  unfoldable pub attempt : IngestionJob → P.Blobs → P.Sink → Result ℕ × P.Sink
  attempt job blobs sink = elim (P.clear job.id sink) [
    | err e ↦ (err e, sink)
    | ok sink' ↦ embed_job job blobs sink'
  ]

  -- What the table holds at the end, after the last statements of the `try` or of the handler
  unfoldable pub record_outcome : ℕ → ℕ → Result ℕ → Table → Table
  record_outcome now id (ok chunks) jobs =
      update_status now id completed none (increment_chunks now id chunks jobs)
  record_outcome now id (err e) jobs = update_status now id failed (some e) jobs

  unfoldable pub run_job : ℕ → ℕ → IngestionJob → World P Table → World P Table
  run_job started ended job w =
      let outcome = attempt job w.blobs w.sink in
      record w {
        jobs =
            record_outcome ended job.id outcome.0
              (update_status started job.id processing none w.jobs);
        sink = outcome.1;
      }

  abbrev pub run_unless_completed : ℕ → ℕ → IngestionJob → JobStatus → World P Table → World P Table
  run_unless_completed started ended job completed w = w
  run_unless_completed started ended job pending w = run_job started ended job w
  run_unless_completed started ended job processing w = run_job started ended job w
  run_unless_completed started ended job failed w = run_job started ended job w

  -- `execute`, where the database's clock shows `started` before the `try` and `ended` at its end
  unfoldable pub execute : ℕ → ℕ → ℕ → World P Table → World P Table
  execute started ended job_id w = elim (get_by_id job_id w.jobs) [
    | none ↦ w
    | some job ↦ run_unless_completed started ended job job.status w
  ]
