-- ===== src/Schema/Stages.antt =====
-- The tables that any sequence of upgrades and downgrades leads to. `owned` is a schema in which the jobs
-- have had their owner from the start, `restored` one in which a downgrade of 005 has put it back, after
-- the columns of which migration, and `global` one without it; the first digit is the revision.
pub mod Moves
use rag_document_processor.Prelude.{
  ℕ, suc, ◌≡◌, refl, true, Option, none, some, List, [], ◌∷◌, ◌++◌, ◌⊎◌, inl, inr,
}
use rag_document_processor.Prelude.Text.{Text, codes, text_eq}
use rag_document_processor.Schema.{
  SqlType, uuid, integer, string, Column, optional, Migration, Db, table, column, without_column,
}
use rag_document_processor.Schema.Effect.{effects}
use rag_document_processor.Schema.Versions.{
  to_users, users_columns, initial_job_columns, api_key_columns, initial, job_llama_parse_tier,
  job_embedding_dimensions, job_embed_controls, api_keys_drop_users, job_late_chunk_tokens,
  versions,
}
use rag_document_processor.Schema.Models.{MatchesModels}
use rag_document_processor.Schema.Head.{next_of, current_of}

pub data Stage : Type 0 where
  blank : Stage
  owned1 owned2 owned3 owned4 : Stage
  restored11 restored21 restored22 restored31 restored32 restored33 restored41 restored42 restored43
        restored44 :
      Stage
  global5 global6 : Stage

-- The columns that a migration adds
abbrev pub group2 : List Column
group2 = optional (codes "llama_parse_tier") (string 32) ∷ []

abbrev pub group3 : List Column
group3 = optional (codes "embedding_dimensions") integer ∷ []

abbrev pub group4 : List Column
group4 =
    optional (codes "embedding_pipeline") (string 32)
    ∷ optional (codes "macro_splitter") (string 32)
    ∷ optional (codes "embedder_provider") (string 16)
    ∷ optional (codes "openai_embedding_model") (string 128)
    ∷ optional (codes "jina_embedding_model") (string 128)
    ∷ []

abbrev pub group6 : List Column
group6 =
    optional (codes "late_chunk_min_tokens") integer
    ∷ optional (codes "late_chunk_max_tokens") integer
    ∷ []

abbrev pub ownerless : List Column
unfolding without_column
ownerless = without_column (codes "user_id") initial_job_columns

-- The owner of a job, as the downgrade of 005 puts it back
abbrev pub owner_restored : List Column
owner_restored =
    record (optional (codes "user_id") uuid) { index = true; foreign_key = some to_users } ∷ []

abbrev pub form : Stage → Db
form blank = []
form owned1 = (codes "users", users_columns) ∷ (codes "ingestion_jobs", initial_job_columns) ∷ []
form owned2 =
    (codes "users", users_columns) ∷ (codes "ingestion_jobs", initial_job_columns ++ group2) ∷ []
form owned3 =
    (codes "users", users_columns)
    ∷ (codes "ingestion_jobs", initial_job_columns ++ (group2 ++ group3))
    ∷ []
form owned4 =
    (codes "users", users_columns)
    ∷ (codes "ingestion_jobs", initial_job_columns ++ (group2 ++ (group3 ++ group4)))
    ∷ []
form restored11 =
    (codes "ingestion_jobs", ownerless ++ owner_restored) ∷ (codes "users", users_columns) ∷ []
form restored21 =
    (codes "ingestion_jobs", ownerless ++ (owner_restored ++ group2))
    ∷ (codes "users", users_columns)
    ∷ []
form restored22 =
    (codes "ingestion_jobs", ownerless ++ (group2 ++ owner_restored))
    ∷ (codes "users", users_columns)
    ∷ []
form restored31 =
    (codes "ingestion_jobs", ownerless ++ (owner_restored ++ (group2 ++ group3)))
    ∷ (codes "users", users_columns)
    ∷ []
form restored32 =
    (codes "ingestion_jobs", ownerless ++ (group2 ++ (owner_restored ++ group3)))
    ∷ (codes "users", users_columns)
    ∷ []
form restored33 =
    (codes "ingestion_jobs", ownerless ++ (group2 ++ (group3 ++ owner_restored)))
    ∷ (codes "users", users_columns)
    ∷ []
form restored41 =
    (codes "ingestion_jobs", ownerless ++ (owner_restored ++ (group2 ++ (group3 ++ group4))))
    ∷ (codes "users", users_columns)
    ∷ []
form restored42 =
    (codes "ingestion_jobs", ownerless ++ (group2 ++ (owner_restored ++ (group3 ++ group4))))
    ∷ (codes "users", users_columns)
    ∷ []
form restored43 =
    (codes "ingestion_jobs", ownerless ++ (group2 ++ (group3 ++ (owner_restored ++ group4))))
    ∷ (codes "users", users_columns)
    ∷ []
form restored44 =
    (codes "ingestion_jobs", ownerless ++ (group2 ++ (group3 ++ (group4 ++ owner_restored))))
    ∷ (codes "users", users_columns)
    ∷ []
form global5 =
    (codes "ingestion_jobs", ownerless ++ (group2 ++ (group3 ++ group4)))
    ∷ (codes "api_keys", api_key_columns)
    ∷ []
form global6 =
    (codes "ingestion_jobs", ownerless ++ (group2 ++ (group3 ++ (group4 ++ group6))))
    ∷ (codes "api_keys", api_key_columns)
    ∷ []

-- The revision that the database is marked with
abbrev pub revision_of : Stage → Option Text
revision_of blank = none
revision_of owned1 = some initial.revision
revision_of owned2 = some job_llama_parse_tier.revision
revision_of owned3 = some job_embedding_dimensions.revision
revision_of owned4 = some job_embed_controls.revision
revision_of restored11 = some initial.revision
revision_of restored21 = some job_llama_parse_tier.revision
revision_of restored22 = some job_llama_parse_tier.revision
revision_of restored31 = some job_embedding_dimensions.revision
revision_of restored32 = some job_embedding_dimensions.revision
revision_of restored33 = some job_embedding_dimensions.revision
revision_of restored41 = some job_embed_controls.revision
revision_of restored42 = some job_embed_controls.revision
revision_of restored43 = some job_embed_controls.revision
revision_of restored44 = some job_embed_controls.revision
revision_of global5 = some api_keys_drop_users.revision
revision_of global6 = some job_late_chunk_tokens.revision

-- The upgrades that are left
abbrev pub ahead : Stage → ℕ
ahead blank = 6
ahead owned1 = 5
ahead owned2 = 4
ahead owned3 = 3
ahead owned4 = 2
ahead restored11 = 5
ahead restored21 = 4
ahead restored22 = 4
ahead restored31 = 3
ahead restored32 = 3
ahead restored33 = 3
ahead restored41 = 2
ahead restored42 = 2
ahead restored43 = 2
ahead restored44 = 2
ahead global5 = 1
ahead global6 = 0
