-- ===== src/Lib.antt =====
-- The ingestion service of the repository: jobs are submitted over HTTP, stored in a table, queued,
-- and processed by a worker that splits, embeds and emits their text.
--
-- The paths below start at src/rag_document_processor/, and each file here names its own code.
--
-- Parts, and how they interact:
--   Prelude           Python's texts and integers, lists and tests that the parts share
--   Domain            domain/: `IngestionJob` with its enumerations, and the exceptions as values of
--                     `Error` in a `Result`
--   Options           core/ingest_embedding_options.py: the `coerce_…` functions keep their names, and
--                     `Resolve` is `resolve_ingest_embedding_options`, cut at its two `if` chains
--                     into `late_chunking_embedder` and `chunk_then_embed_embedder`
--   Dimensions        core/embedding_dimensions.py: `Rules` is the table and its matching, `Validate`
--                     the check of a size
--   LateChunk         infrastructure/pipelines/late_chunk_enhancer.py: `Sentences`, `Merge`, `Enhance`
--                     and `Batch`, with loops by recursion on the list
--   Json              the parts of `json.dumps` and `json.loads` that the payload of texts uses
--   Jobs              infrastructure/db/repositories/job_repo.py over a list of rows
--   Pipelines         infrastructure/pipelines/embedding_pipelines.py and core/pipeline_factory.py: an
--                     asynchronous generator is a `Stream`, its items and the exception that ends it
--   Ingest            application/use_cases/ingestion/: `Fields` and `Submit` are submit.py, `Segments`,
--                     `Mime` and `Process` are process_job.py, `Status` is get_job_status.py, `Ports`
--                     is application/ports/,
--                     `Results` is get_job_results.py, `Lifecycle` puts requests and tasks in a row, and
--                     `Parallel` interleaves the operations of workers on different jobs
--   Sink              infrastructure/sinks/: the Redis stream that the worker writes and the reader of it
--   Splitters         infrastructure/splitters/: the loop over token windows
--   Extraction        infrastructure/extraction/: `Fetch` is the fetcher of URLs, `Documents` both
--                     extractors
--   Embedders         infrastructure/embedders/: the order of what the services answer
--   Storage           infrastructure/storage/local_blob_storage.py; `Bucket` is s3_blob_storage.py
--   Bootstrap         core/db_bootstrap.py: the creation of a missing database
--   Schema            alembic/versions/, at the repository's root, as lists of operations (`Versions`), the columns that
--                     infrastructure/db/models.py declares (`Models`), what the operations are assumed
--                     to do (`Effect`), `alembic upgrade head` (`Head`), the tables that upgrades and
--                     downgrades lead to (`Stages`) and all their sequences (`History`)
--   Startup           `lifespan` of main.py with the migration of the database, and alembic/env.py
--   Config            core/config.py: the validators of `Settings`
--   Service           core/container.py: the ports assembled from the adapters
--   TaskQueue         infrastructure/queue/celery_task_queue.py and workers/celery_app.py
--   Workers           workers/tasks.py: what a worker does with a message; `Backlog` puts requests and
--                     tasks in turn, through the queue
--   Api               presentation/: `Requests` is schemas/ingestion.py, `Ingest`, `Jobs` and `Keys` are the
--                     endpoints of api/v1/, `Catalog` is embedding_catalog.py, and exception_handlers.py is
--                     `error_reply`
--   ApiKeys           application/use_cases/api_keys/manage.py, the repository of the keys, their
--                     hashing, the listing (`Listing`), and the access checks of presentation/deps.py
--   Tests             all of it on small inputs
--
-- A submission (`Ingest.Submit`) reads its fields with Options and Dimensions, stores a row with Jobs
-- and queues its id; the worker (`Ingest.Process.execute`) reads the row, resolves the same options,
-- runs a pipeline for every segment, and emits the chunks to the sink. What is changed, the table and
-- the states behind the ports, is one `World` that every operation takes and returns.
--
-- The adapters fill the ports: `Service.build_container` is a `Ports`, so what is proved of the use
-- cases over any ports holds of them. A submission sends a message to the queue of Celery, and a worker
-- that takes it builds its own container and runs the use case on the id that it holds.
--
-- Parameters: the ports of `Ingest.Ports` with states of any type, and below them what is third-party:
-- Redis and the JSON of floats (`Sink.Redis`), the files (`Storage.Files`), the embedding services, the
-- readers of documents and LlamaCloud, httpx, Celery, the tokenizers and the node parsers. Where a theorem
-- relies on one of these, a record of laws names what is documented of it: `IsRedis`, `IsCodec`,
-- `IsFiles`, `IsBlobStorage`, `IsNewestFirst`, `IsDdl`, `IsHost`, `IsCelery`, `Serves`, or one vector for each text. A port that fails leaves its state as it was.
--
-- Bounds and fuel: there is the fuel of the JSON reader, which is the length of its text, and
-- every item of an array takes a code point at least, and that of the
-- token windows, which is the number of tokens, where each window begins after the one before it, and the rounds of `upgrade_head`, one for each
-- migration and one that finds none. Python's integers are `ℤ`, with no bound.
--
-- Simplifications: a text is its list of code points; `lower` is exact for ASCII, U+0130 and U+212A
-- and leaves other code points; `int(…)` reads ASCII digits, with no limit on their number. An
-- exception keeps what its message is made of, and `error_message` holds the exception. UUIDs and
-- points in time are numbers, a UUID's text is written and read as `str` and `UUID` do, and the clock and new ids are arguments. `json.loads` yields only arrays
-- of strings, since the program treats any other text alike. Of the errors of the database only a key
-- that exists already is modelled. `Rule` leaves out the texts that document it, and `Settings` has
-- the fields of the ingestion and of the access checks.
--
-- Not modelled: two workers at once on one job, requests between the operations of running workers, logging,
-- the choice of the S3 storage in the container, the other forms that Python's `UUID` reads, the offline
-- run of Alembic, which prints SQL, and the scripts for debugging.
-- FastAPI's and pydantic's parsing is theirs.
pub mod Prelude
pub mod Domain
pub mod Options
pub mod Dimensions
pub mod LateChunk
pub mod Json
pub mod Jobs
pub mod Pipelines
pub mod Ingest
pub mod Config
pub mod Api
pub mod Extraction
pub mod Embedders
pub mod Schema
pub mod Service
pub mod Bootstrap
pub mod Storage
pub mod TaskQueue
pub mod Splitters
pub mod Startup
pub mod Workers
pub mod Sink
pub mod ApiKeys
pub mod Tests
