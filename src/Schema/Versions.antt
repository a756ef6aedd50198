-- ===== src/Schema/Versions.antt =====
-- alembic/versions/: the six migrations, in the order of their revisions.
use rag_document_processor.Prelude.{true, none, some, List, [], ◌∷◌}
use rag_document_processor.Prelude.Text.{codes}
use rag_document_processor.Schema.{
  uuid, text, boolean, integer, timestamptz, string, ForeignKey, cascade, Column, required,
  optional, keyed, defaulted, create_table, drop_table, add_column, drop_column, create_index,
  create_foreign_key, Migration,
}

-- sa.ForeignKey("users.id", ondelete="CASCADE")
abbrev pub to_users : ForeignKey
to_users = record { table = codes "users"; column = codes "id"; ondelete = cascade }

abbrev pub users_columns : List Column
users_columns =
    keyed (codes "id") uuid
    ∷ record (required (codes "email") (string 320)) { unique = true; index = true }
    ∷ required (codes "hashed_password") (string 255)
    ∷ defaulted (codes "is_active") boolean (codes "true")
    ∷ defaulted (codes "created_at") timestamptz (codes "now()")
    ∷ []

abbrev pub owner : Column
owner = record (required (codes "user_id") uuid) { index = true; foreign_key = some to_users }

abbrev pub initial_job_columns : List Column
initial_job_columns =
    keyed (codes "id") uuid
    ∷ owner
    ∷ record (required (codes "status") (string 32)) { index = true }
    ∷ required (codes "source_kind") (string 16)
    ∷ optional (codes "blob_key") (string 1024)
    ∷ optional (codes "source_url") text
    ∷ optional (codes "source_text") text
    ∷ optional (codes "content_type") (string 255)
    ∷ optional (codes "original_filename") (string 512)
    ∷ optional (codes "error_message") text
    ∷ defaulted (codes "chunks_emitted") integer (codes "0")
    ∷ defaulted (codes "created_at") timestamptz (codes "now()")
    ∷ defaulted (codes "updated_at") timestamptz (codes "now()")
    ∷ []

abbrev pub api_key_columns : List Column
api_key_columns =
    keyed (codes "id") uuid
    ∷ required (codes "name") (string 255)
    ∷ record (required (codes "key_prefix") (string 32)) { index = true }
    ∷ record (required (codes "key_hash") (string 128)) { unique = true; index = true }
    ∷ defaulted (codes "is_active") boolean (codes "true")
    ∷ defaulted (codes "created_at") timestamptz (codes "now()")
    ∷ optional (codes "last_used_at") timestamptz
    ∷ []

-- 001_initial.py
abbrev pub initial : Migration
initial = record {
  revision = codes "001_initial";
  down_revision = none;
  upgrade =
      create_table (codes "users") users_columns
      ∷ create_table (codes "ingestion_jobs") initial_job_columns
      ∷ [];
  downgrade = drop_table (codes "ingestion_jobs") ∷ drop_table (codes "users") ∷ [];
}

-- 002_job_llama_parse_tier.py
abbrev pub job_llama_parse_tier : Migration
job_llama_parse_tier = record {
  revision = codes "002_job_llama_parse_tier";
  down_revision = some (codes "001_initial");
  upgrade =
      add_column (codes "ingestion_jobs") (optional (codes "llama_parse_tier") (string 32)) ∷ [];
  downgrade = drop_column (codes "ingestion_jobs") (codes "llama_parse_tier") ∷ [];
}

-- 003_job_embedding_dimensions.py
abbrev pub job_embedding_dimensions : Migration
job_embedding_dimensions = record {
  revision = codes "003_job_embedding_dimensions";
  down_revision = some (codes "002_job_llama_parse_tier");
  upgrade =
      add_column (codes "ingestion_jobs") (optional (codes "embedding_dimensions") integer) ∷ [];
  downgrade = drop_column (codes "ingestion_jobs") (codes "embedding_dimensions") ∷ [];
}

-- 004_job_ingest_embedding_controls.py
abbrev pub job_embed_controls : Migration
job_embed_controls = record {
  revision = codes "004_job_embed_controls";
  down_revision = some (codes "003_job_embedding_dimensions");
  upgrade =
      add_column (codes "ingestion_jobs") (optional (codes "embedding_pipeline") (string 32))
      ∷ add_column (codes "ingestion_jobs") (optional (codes "macro_splitter") (string 32))
      ∷ add_column (codes "ingestion_jobs") (optional (codes "embedder_provider") (string 16))
      ∷ add_column (codes "ingestion_jobs") (optional (codes "openai_embedding_model") (string 128))
      ∷ add_column (codes "ingestion_jobs") (optional (codes "jina_embedding_model") (string 128))
      ∷ [];
  downgrade =
      drop_column (codes "ingestion_jobs") (codes "jina_embedding_model")
      ∷ drop_column (codes "ingestion_jobs") (codes "openai_embedding_model")
      ∷ drop_column (codes "ingestion_jobs") (codes "embedder_provider")
      ∷ drop_column (codes "ingestion_jobs") (codes "macro_splitter")
      ∷ drop_column (codes "ingestion_jobs") (codes "embedding_pipeline")
      ∷ [];
}

-- 005_api_keys_drop_users.py
abbrev pub api_keys_drop_users : Migration
api_keys_drop_users = record {
  revision = codes "005_api_keys_drop_users";
  down_revision = some (codes "004_job_embed_controls");
  upgrade =
      create_table (codes "api_keys") api_key_columns
      ∷ drop_column (codes "ingestion_jobs") (codes "user_id")
      ∷ drop_table (codes "users")
      ∷ [];
  downgrade =
      create_table (codes "users") users_columns
      ∷ add_column (codes "ingestion_jobs") (optional (codes "user_id") uuid)
      ∷ create_index (codes "ingestion_jobs") (codes "user_id")
      ∷ create_foreign_key (codes "ingestion_jobs") (codes "user_id") to_users
      ∷ drop_table (codes "api_keys")
      ∷ [];
}

-- 006_job_late_chunk_tokens.py
abbrev pub job_late_chunk_tokens : Migration
job_late_chunk_tokens = record {
  revision = codes "006_job_late_chunk_tokens";
  down_revision = some (codes "005_api_keys_drop_users");
  upgrade =
      add_column (codes "ingestion_jobs") (optional (codes "late_chunk_min_tokens") integer)
      ∷ add_column (codes "ingestion_jobs") (optional (codes "late_chunk_max_tokens") integer)
      ∷ [];
  downgrade =
      drop_column (codes "ingestion_jobs") (codes "late_chunk_max_tokens")
      ∷ drop_column (codes "ingestion_jobs") (codes "late_chunk_min_tokens")
      ∷ [];
}

abbrev pub versions : List Migration
versions =
    initial ∷ job_llama_parse_tier ∷ job_embedding_dimensions ∷ job_embed_controls
    ∷ api_keys_drop_users ∷ job_late_chunk_tokens ∷ []
