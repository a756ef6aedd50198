-- ===== src/Ingest/Ports.antt =====
-- application/ports/: what the use cases are given, each with a state of its own. The blob storage,
-- the queue, the sink, the fetcher and the extractor are implementations of the repository's ports;
-- `split`, `nodes` and `embed` are third-party code: the LlamaIndex node parsers, the tokenizer and
-- the embedding services. An operation that fails leaves its state as it was.
use rag_document_processor.Prelude.{ℕ, Bool, Option, List}
use rag_document_processor.Prelude.Int.{ℤ}
use rag_document_processor.Prelude.Text.{Text}
use rag_document_processor.Domain.Exceptions.{EmbedderKind, Result}
use rag_document_processor.Domain.Entities.{SourceKind}
use rag_document_processor.Options.Choices.{PipelineKind, MacroKind}
use rag_document_processor.Pipelines.Stream.{EmbeddedChunk}
use rag_document_processor.Pipelines.Factory.{Splitter, Embedder, Pipeline}

-- The metadata that the worker hands to the pipeline (`meta` in process_job.py).
pub record JobMeta : Type 0 where
  pub job_id : ℕ
  pub source_kind : SourceKind
  pub embedding_pipeline : PipelineKind
  pub macro_splitter : MacroKind
  pub embedder : EmbedderKind
  pub text_index : ℕ
  pub text_count : Option ℕ
  pub late_chunk_min_tokens : Option ℤ
  pub late_chunk_max_tokens : Option ℤ
  pub late_chunk_batch_tokens : Option ℤ

pub record Ports : Type 1 where
  pub Blobs : Type 0
  pub Queue : Type 0
  pub Sink : Type 0
  pub Vector : Type 0
  -- IBlobStorage: `put` takes the key, the data and the content type
  pub put : Text → List ℕ → Text → Blobs → Result Blobs
  pub get_bytes : Text → Blobs → Result (List ℕ)
  -- ITaskQueue.enqueue_process_job
  pub enqueue : ℕ → Queue → Result Queue
  -- IEmbeddingSink: `finalize` takes the number of chunks
  pub clear : ℕ → Sink → Result Sink
  pub emit : ℕ → EmbeddedChunk JobMeta Vector → Sink → Result Sink
  pub finalize : ℕ → ℕ → Sink → Result Sink
  -- IUrlFetcher: the body and the content type
  pub fetch : Text → Result (List ℕ × Option Text)
  -- ITextExtractor: the data, its content type, its file name and the tier
  pub extract : List ℕ → Option Text → Option Text → Option Text → Result Text
  -- Building the splitter and the client of a pipeline, which third-party constructors may refuse
  pub construct : Pipeline → Result (Unit {0})
  -- The blocks of a macro splitter, and the segments of the sentence chunker
  pub split : Splitter → Text → Result (List Text)
  pub nodes : Text → Result (List Text)
  pub count_tokens : Text → ℕ
  -- `embed_texts`: the texts, `late_chunking` and `dimensions`
  pub embed : Embedder → List Text → Bool → Option ℤ → Result (List Vector)

-- What a use case changes: the table of jobs and the states behind the ports.
pub record World (P : Ports) (Table : Type 0) : Type 0 where
  pub jobs : Table
  pub blobs : P.Blobs
  pub queue : P.Queue
  pub sink : P.Sink
