-- ===== src/Tests/Schema.antt =====
-- Databases that are migrated and servers that start, on small inputs: a database is its tables, and a
-- server has one.
use rag_document_processor.Prelude.{◌≡◌, refl, true, Option, none, some, [], arith}
use rag_document_processor.Prelude.Text.{
  Text, starts_with, one_of, codes, text_eq, strip, lstrip, rstrip, is_space,
}
use rag_document_processor.Domain.Exceptions.{Result, ok, err, other_error}
use rag_document_processor.Bootstrap.{
  Url, sync_database_url, ensure_postgres_database_exists, create_missing, is_db_name, replace_from,
}
use rag_document_processor.Schema.{Db}
use rag_document_processor.Schema.Effect.{effect, Ddl, IsDdl}
use rag_document_processor.Schema.Versions.{initial, job_llama_parse_tier, job_late_chunk_tokens}
use rag_document_processor.Schema.Models.{MatchesModels}
use rag_document_processor.Schema.Head.{next_of, current_of, run_all, upgrade_head}
use rag_document_processor.Schema.Stages.{form, owned1, owned2}
use rag_document_processor.Schema.History.{
  Reach, created, upgraded, downgraded, upgrade_head-MatchesModels,
}
use rag_document_processor.Startup.{Host, IsHost, StartSettings, Environ, ensure, lifespan}
use rag_document_processor.Startup.Laws.{CanStart, lifespan-MatchesModels}

abbrev or_refused : Option Db → Result Db
or_refused none = err (other_error (codes "ProgrammingError"))
or_refused (some db) = ok db

abbrev memory_ddl : Ddl
memory_ddl = record { State = Db; tables = λ db. db; run = λ op db. or_refused (effect op db) }

or_refused-some : (o : Option Db) (db : Db) → o ≡ some db → or_refused o ≡ ok db
or_refused-some o db h = rw h refl

memory_ddl-IsDdl : IsDdl memory_ddl
memory_ddl-IsDdl = record { runs = λ op s db h. (db, or_refused-some (effect op s) db h, refl) }

-- Up by two migrations, and down by one
abbrev forth_and_back : Reach memory_ddl (some initial.revision) (form owned1)
unfolding next_of current_of run_all effect text_eq
forth_and_back =
    downgraded {s = form owned2} job_llama_parse_tier
      (upgraded {s = form owned1} job_llama_parse_tier
        (upgraded {s = []} initial (created refl refl) refl refl refl) refl refl refl)
      refl refl refl

upgrade_head-MatchesModels_example :
    (t : Db) × (upgrade_head memory_ddl 7 (some initial.revision) (form owned1)
      ≡ ok (some job_late_chunk_tokens.revision, t))
    × MatchesModels t
upgrade_head-MatchesModels_example =
    upgrade_head-MatchesModels memory_ddl memory_ddl-IsDdl 7 (some initial.revision) (form owned1)
      (omega arith) forth_and_back

-- A server whose one database was migrated to 001
abbrev memory_host : Host
memory_host = record {
  State = Db;
  exists = λ name db. ok true;
  execute = λ statement db. ok db;
  tables = λ url db. db;
  revision = λ url db. some initial.revision;
  run = λ url op db. or_refused (effect op db);
}

memory_host-IsHost : IsHost memory_host
memory_host-IsHost = record {
  migrates = λ url. record { runs = λ op s db h. (db, or_refused-some (effect op s) db h, refl) };
  creates = λ name url {s} {t} h. (same h, refl);
}
  where
    same : {s t : Db} → ok s ≡ ok t → t ≡ s
    same h = cc

abbrev started : StartSettings
started = record {
  database_auto_create = true;
  database_auto_migrate = true;
  database_url_sync = none;
  database_url = some (codes "postgresql+asyncpg://db/rag");
  ini_found = true;
}

abbrev rag_url : Text → Option Url
rag_url s = some (record { backend_name = codes "postgresql"; database = some (codes "rag") })

can_start : CanStart memory_host memory_host-IsHost rag_url started
unfolding sync_database_url replace_from starts_with one_of text_eq strip lstrip rstrip is_space
    ensure ensure_postgres_database_exists is_db_name create_missing
can_start = record {
  migrate = refl;
  ini = refl;
  usable = refl;
  not_blank = refl;
  ensured = λ s. (s, refl);
}

abbrev no_urls : Environ
no_urls = record { database_url_sync = none; database_url = none }

lifespan-MatchesModels_example :
    (t : Db) × (lifespan memory_host rag_url started no_urls (form owned1) ≡ (no_urls, ok t))
    × MatchesModels t
lifespan-MatchesModels_example =
    lifespan-MatchesModels memory_host memory_host-IsHost rag_url started can_start no_urls
      (form owned1) forth_and_back
