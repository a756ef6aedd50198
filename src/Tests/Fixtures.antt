-- ===== src/Tests/Fixtures.antt =====
-- Settings, ports and rows for the tests: the ports keep what they are given in lists.
use rag_document_processor.Prelude.{ℕ, false, none, some, List, [], ◌∷◌, ◌++◌, map, length}
use rag_document_processor.Prelude.Int.{pos}
use rag_document_processor.Prelude.Text.{Text, codes}
use rag_document_processor.Domain.Exceptions.{ok}
use rag_document_processor.Domain.Entities.{IngestionJob, text, pending, completed}
use rag_document_processor.Options.Choices.{
  Settings, Overrides, ResolvedOptions, late_chunking, recursive,
}
use rag_document_processor.Domain.Exceptions.{jina}
use rag_document_processor.LateChunk.Sentences.{simple_token_count}
use rag_document_processor.Jobs.{Table, NewJob}
use rag_document_processor.Ingest.Fields.{RawFields}
use rag_document_processor.Ingest.Ports.{Ports, World}

abbrev pub settings : Settings
settings = record {
  embedding_pipeline = codes "late_chunking";
  macro_splitter = codes "recursive";
  late_chunk_min_tokens = pos 1;
  late_chunk_max_tokens = pos 4;
  late_chunk_batch_tokens = pos 8;
  jina_api_key = some (codes "k");
  jina_embedding_model = codes "jina-embeddings-v3";
  openai_api_key = none;
  openai_embedding_model = codes "m";
  embedding_dimensions = none;
  llama_parse_tier = codes "agentic";
  llama_cloud_api_key = none;
  max_upload_bytes = pos 9;
  max_url_fetch_bytes = pos 9;
  allowed_upload_content_types = codes "text/plain";
  env = codes "dev";
  database_url = none;
  database_auto_migrate = false;
  database_auto_create = false;
  api_key_admin_secret = none;
}

abbrev pub no_overrides : Overrides
no_overrides = record {
  embedding_pipeline = none;
  macro_splitter = none;
  embedder_provider = none;
  openai_embedding_model = none;
  jina_embedding_model = none;
  late_chunk_min_tokens = none;
  late_chunk_max_tokens = none;
}

abbrev pub jina_job : Overrides
jina_job = record no_overrides { embedder_provider = some (codes "jina") }

abbrev pub default_options : ResolvedOptions
default_options = record {
  embedding_pipeline = late_chunking;
  macro_splitter = recursive;
  embedder = jina;
  openai_embedding_model = codes "m";
  jina_embedding_model = codes "jina-embeddings-v3";
  late_chunk_min_tokens = pos 1;
  late_chunk_max_tokens = pos 4;
  late_chunk_batch_tokens = pos 8;
}

abbrev pub no_fields : RawFields
no_fields = record {
  llama_parse_tier = none;
  embedding_dimensions = none;
  embedding_pipeline = none;
  macro_splitter = none;
  embedder_provider = none;
  embedding_model = none;
  late_chunk_min_tokens = none;
  late_chunk_max_tokens = none;
}

abbrev pub measure : List Text → List ℕ
measure texts = map length texts

-- The sink keeps the texts of its chunks, and every blob is the same.
abbrev pub ports : Ports
ports = record {
  Blobs = List ℕ;
  Queue = List ℕ;
  Sink = List Text;
  Vector = ℕ;
  put = λ key data_ ctype blobs. ok data_;
  get_bytes = λ key blobs. ok blobs;
  enqueue = λ id queue. ok (id ∷ queue);
  clear = λ id sink. ok [];
  emit = λ id chunk sink. ok (sink ++ chunk.text ∷ []);
  finalize = λ id chunks sink. ok (sink ++ codes "end" ∷ []);
  fetch = λ source. ok (codes "hi", none);
  extract = λ body ctype name tier. ok body;
  construct = λ pipeline. ok tt;
  split = λ splitter raw. ok (raw ∷ []);
  nodes = λ raw. ok (raw ∷ []);
  count_tokens = simple_token_count;
  embed = λ embedder texts late dims. ok (measure texts);
}

abbrev pub text_row : NewJob
text_row = record {
  source_kind = text;
  status = pending;
  blob_key = none;
  source_url = none;
  source_text = some (codes "One two");
  content_type = some (codes "text/plain");
  original_filename = none;
  llama_parse_tier = none;
  embedding_dimensions = none;
  embedding_pipeline = none;
  macro_splitter = none;
  embedder_provider = none;
  openai_embedding_model = none;
  jina_embedding_model = none;
  late_chunk_min_tokens = none;
  late_chunk_max_tokens = none;
}

abbrev pub job : IngestionJob
job = record {
  id = 7;
  status = pending;
  source_kind = text;
  blob_key = none;
  source_url = none;
  source_text = some (codes "One two");
  content_type = some (codes "text/plain");
  original_filename = none;
  llama_parse_tier = none;
  embedding_dimensions = none;
  embedding_pipeline = none;
  macro_splitter = none;
  embedder_provider = none;
  openai_embedding_model = none;
  jina_embedding_model = none;
  late_chunk_min_tokens = none;
  late_chunk_max_tokens = none;
  error_message = none;
  chunks_emitted = 0;
  created_at = 1;
  updated_at = 1;
}

abbrev pub done_job : IngestionJob
done_job = record job { id = 8; status = completed }

abbrev pub world : World ports Table
world = record { jobs = job ∷ done_job ∷ []; blobs = []; queue = []; sink = codes "old" ∷ [] }
