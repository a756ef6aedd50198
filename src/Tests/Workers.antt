-- ===== src/Tests/Workers.antt =====
-- Texts are submitted, and a worker takes their task from the queue.
use rag_document_processor.Prelude.{
  ℕ, ◌≡◌, refl, sym, ap, length, Option, none, some, List, [], ◌∷◌, ◌++◌, arith,
}
use rag_document_processor.Prelude.Text.{codes}
use rag_document_processor.Domain.Exceptions.{Result, ok}
use rag_document_processor.Jobs.{Table, get_by_id, create}
use rag_document_processor.Ingest.Ports.{World}
use rag_document_processor.Ingest.Submit.{
  submit_text, check_fields, create_and_enqueue, enqueue_job,
}
use rag_document_processor.Prelude.Text.{strip, lower, one_of, text_eq}
use rag_document_processor.Prelude.Uuid.{uuid_text}
use rag_document_processor.Domain.Entities.{IngestionJob}
use rag_document_processor.Options.Choices.{Settings, pipeline_of, macro_of}
use rag_document_processor.Options.Resolve.{
  resolve_late_chunk_tokens, is_text, late_chunking_embedder, select_embedder, model_name,
  resolve_ingest_embedding_options,
}
use rag_document_processor.Options.Coerce.{
  norm_opt_str, is_blank, coerce_embedding_pipeline, coerce_macro_splitter,
  coerce_embedder_provider, coerce_embedding_model, coerce_late_chunk_tokens,
}
use rag_document_processor.Dimensions.Validate.{validate_embedding_dimensions}
use rag_document_processor.Ingest.Fields.{
  coerce_llama_parse_tier, coerce_overrides, check_size, coerce_embedding_dim_int, with_model,
  prepare_ingest_embedding_fields,
}
use rag_document_processor.Pipelines.Factory.{build_embedding_pipeline}
use rag_document_processor.LateChunk.Sentences.{simple_token_count}
use rag_document_processor.TaskQueue.{Message, Celery, IsCelery, enqueue_process_job}
use rag_document_processor.Service.{Deployment, build_container, build_default_pipeline}
use rag_document_processor.Workers.{Resource, opened, async_process, work_off}
use rag_document_processor.Workers.Laws.{Settled}
use rag_document_processor.Workers.Backlog.{texts_sent, start, then_}
use rag_document_processor.Workers.Backlog.Turns.{work_off-Serves}
use rag_document_processor.Tests.Fixtures.{settings, default_options, no_fields}
use rag_document_processor.Tests.Streams.{memory, plain_codec}
use rag_document_processor.Tests.Adapters.{memory_files, services, readers, page}
use rag_document_processor.Extraction.Fetch.{response}

-- One queue, in the order in which the messages came
abbrev next_of : List Message → Option (Message × List Message)
next_of [] = none
next_of (m ∷ rest) = some (m, rest)

abbrev broker : Celery
broker = record {
  State = List Message;
  send_task = λ task args queue s. ok (s ++ record { task = task; args = args } ∷ []);
  take = λ queue s. next_of s;
}

ok_inj : {A : Type 0} {s t : A} → ok s ≡ ok t → t ≡ s
ok_inj h = cc

abbrev broker-IsCelery : IsCelery broker
broker-IsCelery = record {
  waiting = λ queue s. s;
  sends = λ h. ok_inj h;
  takes = λ {queue} {m} {rest} h. (rest, ap next_of h, refl);
  rests = λ h. ap next_of h;
}

abbrev deployment : Deployment
deployment = record {
  Vector = ℕ;
  redis = memory;
  codec = plain_codec;
  stream_maxlen = 10;
  files = memory_files;
  services = services;
  readers = readers;
  scheme = λ url. codes "http";
  get = λ url. response page;
  celery = broker;
  celery_environ = record {
    celery_broker_url = none;
    celery_result_backend = none;
    celery_task_default_queue = none;
  };
  construct = λ pipeline. ok tt;
  split = λ splitter raw. ok (raw ∷ []);
  nodes = λ raw. ok (raw ∷ []);
  count_tokens = simple_token_count;
}

default_built :
    build_default_pipeline settings deployment
    ≡ ok (build_embedding_pipeline settings default_options)
unfolding build_default_pipeline pipeline_of macro_of coerce_embedding_pipeline
    resolve_late_chunk_tokens is_text late_chunking_embedder select_embedder model_name
    resolve_ingest_embedding_options text_eq
default_built = refl

abbrev close : Resource → Result (Unit {0})
close r = ok tt

abbrev nothing_yet : World (build_container settings deployment) Table
nothing_yet = record { jobs = []; blobs = λ path. []; queue = []; sink = λ key. [] }

abbrev one_submitted : World (build_container settings deployment) Table
one_submitted =
    (submit_text (build_container settings deployment) settings 4 7 (codes "a" ∷ []) no_fields
      nothing_yet).1

row_and_task :
    ((job : IngestionJob) × (get_by_id 7 one_submitted.jobs ≡ some job))
    × (length one_submitted.queue ≡ 1)
unfolding submit_text check_fields coerce_llama_parse_tier prepare_ingest_embedding_fields
    coerce_overrides check_size coerce_embedding_dim_int with_model create_and_enqueue enqueue_job
    create get_by_id resolve_ingest_embedding_options resolve_late_chunk_tokens
    validate_embedding_dimensions is_text late_chunking_embedder select_embedder model_name
    pipeline_of macro_of text_eq strip lower one_of coerce_embedding_pipeline coerce_macro_splitter
    coerce_embedder_provider coerce_embedding_model coerce_late_chunk_tokens norm_opt_str is_blank
    enqueue_process_job
row_and_task = ((_, refl), refl)

every_task_taken :
    (id : ℕ) (s : List Message)
    → (t : List Message) × ((build_container settings deployment).enqueue id s ≡ ok t)
unfolding enqueue_process_job
every_task_taken id s = (_, refl)

work_off-Serves_example :
    ((work_off settings deployment close ((5, 6) ∷ []) one_submitted).queue ≡ [])
    × Settled 7 (work_off settings deployment close ((5, 6) ∷ []) one_submitted).jobs
work_off-Serves_example =
    work_off-Serves settings deployment close broker-IsCelery
      (build_embedding_pipeline settings default_options) default_built nothing_yet one_submitted
      ((5, 6) ∷ []) 7 every_task_taken refl refl
      (then_ start (texts_sent 4 7 (codes "a" ∷ []) no_fields (omega arith))) (sym row_and_task.1)
      row_and_task.0

abbrev keyless : Settings
keyless = record settings { jina_api_key = none }

-- Where the default pipeline cannot be built, a task neither reads its job nor closes anything.
keyless_task :
    (async_process keyless deployment close 5 6
      (uuid_text 7)
      (record { jobs = []; blobs = λ path. []; queue = []; sink = λ key. [] })).left_open
    ≡ opened
unfolding async_process build_default_pipeline pipeline_of macro_of coerce_embedding_pipeline
    resolve_late_chunk_tokens is_text late_chunking_embedder select_embedder model_name
    resolve_ingest_embedding_options text_eq
keyless_task = refl
