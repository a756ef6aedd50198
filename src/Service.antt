-- ===== src/Service.antt =====
-- core/container.py: the ports that the use cases are given, made of the repository's own adapters, for
-- a deployment that stores blobs locally. What the adapters call is a `Deployment`.
use rag_document_processor.Prelude.{
  ℕ, ◌≡◌, refl, Option, none, List, if◌then◌else◌, inl, inr, Bool-cases,
}
use rag_document_processor.Prelude.Text.{Text, truthy}
use rag_document_processor.Domain.Exceptions.{Result, ok, ◌>>=◌, ◌>>◌}
use rag_document_processor.Options.Choices.{Settings, Overrides}
use rag_document_processor.Options.Resolve.{resolve_ingest_embedding_options}
use rag_document_processor.Pipelines.Factory.{Splitter, Pipeline, build_embedding_pipeline}
use rag_document_processor.Ingest.Ports.{Ports, JobMeta}
use rag_document_processor.Sink.Redis.{Redis, Codec}
use rag_document_processor.Sink.Emit.{emit, finalize, clear}
use rag_document_processor.Ingest.Process.Files.{IsBlobStorage}
use rag_document_processor.Storage.{Files, IsFiles, put, get_bytes}
use rag_document_processor.TaskQueue.{Celery, CeleryEnviron, make_celery, enqueue_process_job}
use rag_document_processor.Embedders.{Services, embed_texts}
use rag_document_processor.Extraction.Fetch.{Reply, fetch}
use rag_document_processor.Extraction.Documents.{
  Readers, bare_type, suffix_of, is_plain, local_extract, uses_cloud_parse, cloud_extract,
}

-- `_build_text_extractor`
unfoldable pub build_text_extractor :
    Readers → Settings → List ℕ → Option Text → Option Text → Option Text → Result Text
build_text_extractor R settings data_ content_type filename llama_parse_tier =
    if truthy settings.llama_cloud_api_key
    then cloud_extract R settings data_ content_type filename llama_parse_tier
    else local_extract R data_ content_type filename

-- What third-party code does for the adapters.
pub record Deployment : Type 1 where
  pub Vector : Type 0
  pub redis : Redis
  pub codec : Codec Vector JobMeta
  pub stream_maxlen : ℕ
  pub files : Files
  pub services : Services Vector
  pub readers : Readers
  pub scheme : Text → Text
  pub get : Text → Reply
  -- Celery with its broker, and its environment
  pub celery : Celery
  pub celery_environ : CeleryEnviron
  -- The splitters of LlamaIndex and the tokenizer
  pub construct : Pipeline → Result (Unit {0})
  pub split : Splitter → Text → Result (List Text)
  pub nodes : Text → Result (List Text)
  pub count_tokens : Text → ℕ

-- The ports of `build_container`
abbrev pub build_container : Settings → Deployment → Ports
build_container settings D = record {
  Blobs = D.files.State;
  Queue = D.celery.State;
  Sink = D.redis.State;
  Vector = D.Vector;
  put = λ key data_ content_type blobs. put D.files key data_ blobs;
  get_bytes = λ key blobs. get_bytes D.files key blobs;
  enqueue = enqueue_process_job D.celery (make_celery D.celery_environ);
  clear = clear D.redis D.codec D.stream_maxlen;
  emit = emit D.redis D.codec D.stream_maxlen;
  finalize = finalize D.redis D.codec D.stream_maxlen;
  fetch = fetch D.scheme D.get settings.max_url_fetch_bytes;
  extract = build_text_extractor D.readers settings;
  construct = D.construct;
  split = D.split;
  nodes = D.nodes;
  count_tokens = D.count_tokens;
  embed = embed_texts D.services;
}

abbrev no_choice : Overrides
no_choice = record {
  embedding_pipeline = none;
  macro_splitter = none;
  embedder_provider = none;
  openai_embedding_model = none;
  jina_embedding_model = none;
  late_chunk_min_tokens = none;
  late_chunk_max_tokens = none;
}

-- `_build_embedding_pipeline`: the pipeline of the deployment's defaults, with which `build_container`
-- raises or goes on. No use case is given it.
unfoldable pub build_default_pipeline : Settings → Deployment → Result Pipeline
build_default_pipeline settings D = do
  resolved ← resolve_ingest_embedding_options settings no_choice
  let pipeline = build_embedding_pipeline settings resolved
  D.construct pipeline
  ok pipeline

-- The local storage is one that the use cases can rely on.
pub build_container-IsBlobStorage :
    (settings : Settings) (D : Deployment)
    → IsFiles D.files
    → IsBlobStorage (build_container settings D)
unfolding put get_bytes
build_container-IsBlobStorage settings D sound = record {
  get_bytes-put = λ {key} {bytes} {ctype} {s} {t} h. sound.read-write h;
}

-- The extractor with a fallback does what the one that the container picks does: without a key for
-- LlamaCloud it gives every document to the local extractor.
pub build_text_extractor-eq :
    (R : Readers) (settings : Settings) (data_ : List ℕ) (content_type filename tier : Option Text)
    → build_text_extractor R settings data_ content_type filename tier
      ≡ cloud_extract R settings data_ content_type filename tier
unfolding build_text_extractor cloud_extract uses_cloud_parse local_extract
build_text_extractor-eq R settings data_ content_type filename tier =
    elim (Bool-cases (truthy settings.llama_cloud_api_key)) [
      | inl key ↦ rw key refl
      | inr no_key ↦ elim (Bool-cases (is_plain (bare_type content_type) (suffix_of R filename))) [
        | inl plain ↦ rw (no_key, plain) refl
        | inr other ↦ rw (no_key, other) refl
      ]
    ]
