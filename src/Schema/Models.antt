-- ===== src/Schema/Models.antt =====
-- infrastructure/db/models.py: the columns that the code maps, and when a table has them.
use rag_document_processor.Prelude.{◌≡◌, true, Option, none, some, List, [], ◌∷◌, map, length}
use rag_document_processor.Prelude.Text.{Text, codes}
use rag_document_processor.Schema.{
  uuid, text, boolean, integer, timestamptz, string, Column, required, optional, keyed, defaulted,
  Db, table, column,
}

-- `ApiKeyModel`
abbrev pub api_key_model : List Column
api_key_model =
    keyed (codes "id") uuid
    ∷ required (codes "name") (string 255)
    ∷ record (required (codes "key_prefix") (string 32)) { index = true }
    ∷ record (required (codes "key_hash") (string 128)) { unique = true; index = true }
    ∷ required (codes "is_active") boolean
    ∷ defaulted (codes "created_at") timestamptz (codes "now()")
    ∷ optional (codes "last_used_at") timestamptz
    ∷ []

-- `IngestionJobModel`
abbrev pub ingestion_job_model : List Column
ingestion_job_model =
    keyed (codes "id") uuid
    ∷ record (required (codes "status") (string 32)) { index = true }
    ∷ required (codes "source_kind") (string 16)
    ∷ optional (codes "blob_key") (string 1024)
    ∷ optional (codes "source_url") text
    ∷ optional (codes "source_text") text
    ∷ optional (codes "content_type") (string 255)
    ∷ optional (codes "original_filename") (string 512)
    ∷ optional (codes "error_message") text
    ∷ required (codes "chunks_emitted") integer
    ∷ optional (codes "llama_parse_tier") (string 32)
    ∷ optional (codes "embedding_dimensions") integer
    ∷ optional (codes "embedding_pipeline") (string 32)
    ∷ optional (codes "macro_splitter") (string 32)
    ∷ optional (codes "embedder_provider") (string 16)
    ∷ optional (codes "openai_embedding_model") (string 128)
    ∷ optional (codes "jina_embedding_model") (string 128)
    ∷ optional (codes "late_chunk_min_tokens") integer
    ∷ optional (codes "late_chunk_max_tokens") integer
    ∷ defaulted (codes "created_at") timestamptz (codes "now()")
    ∷ defaulted (codes "updated_at") timestamptz (codes "now()")
    ∷ []

abbrev pub or_own_default : Option Text → Option Text → Option Text
or_own_default none own = none
or_own_default (some wanted) own = own

-- A column of the database, as far as a declared one says it: where no default is declared, the
-- database may have one.
abbrev pub as_declared : Column → Column → Column
as_declared wanted c = record c {
  server_default = or_own_default wanted.server_default c.server_default;
}

abbrev pub declared_part : Column → Option Column → Option Column
declared_part wanted none = none
declared_part wanted (some c) = some (as_declared wanted c)

-- What the table says of each declared column
abbrev pub found_columns : List Column → List Column → List (Option Column)
found_columns model cs = map (λ wanted. declared_part wanted (column wanted.name cs)) model

-- The table has each declared column as declared, and no other.
abbrev pub Declared : List Column → Option (List Column) → Type 0
Declared model none = ⊥
Declared model (some cs) = (found_columns model cs ≡ map some model) × (length cs ≡ length model)

-- Exactly the declared tables, as declared
abbrev pub MatchesModels : Db → Type 0
MatchesModels db =
    Declared ingestion_job_model (table (codes "ingestion_jobs") db)
    × Declared api_key_model (table (codes "api_keys") db)
    × (length db ≡ 2)
