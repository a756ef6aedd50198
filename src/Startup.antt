-- ===== src/Startup.antt =====
-- The start of the service: `lifespan` of main.py up to the container, `run_alembic_upgrade_head` of
-- core/db_bootstrap.py, and alembic/env.py where it runs online. The database server is a `Host`.
pub mod Laws
use rag_document_processor.Prelude.{
  ℕ, Bool, true, false, not, ◌&&◌, ◌||◌, ◌≡◌, Option, none, some, List, [], ◌∷◌, if◌then◌else◌,
}
use rag_document_processor.Prelude.Text.{Text, codes, text_eq, nonempty, truthy, or_text, strip}
use rag_document_processor.Domain.Exceptions.{
  Result, ok, err, ◌>>=◌, value_error, runtime_error, other_error,
}
use rag_document_processor.Bootstrap.{
  Server, Url, replace_from, sync_database_url, ensure_postgres_database_exists, create_statement,
}
use rag_document_processor.Schema.{Op, Db}
use rag_document_processor.Schema.Effect.{Ddl, IsDdl}
use rag_document_processor.Schema.Head.{upgrade_head}

-- A server with its databases, each by the URL that it is reached under; a database that is not there
-- has no tables and no revision.
pub record Host : Type 1 where
  pub State : Type 0
  pub exists : Text → State → Result Bool
  pub execute : Text → State → Result State
  pub tables : Text → State → Db
  pub revision : Text → State → Option Text
  pub run : Text → Op → State → Result State

abbrev pub server_of : Host → Server
server_of H = record { State = H.State; exists = H.exists; execute = H.execute }

abbrev pub ddl_of : Host → Text → Ddl
ddl_of H url = record { State = H.State; tables = H.tables url; run = H.run url }

-- A new database is empty, and the others stay as they are.
pub record IsHost (H : Host) : Type 0 where
  pub migrates : (url : Text) → IsDdl (ddl_of H url)
  pub creates :
      (name url : Text) {s t : H.State}
      → H.execute (create_statement name) s ≡ ok t
      → (H.tables url t ≡ H.tables url s) × (H.revision url t ≡ H.revision url s)

-- The two variables of `os.environ` that are read
pub record Environ : Type 0 where
  pub database_url_sync : Option Text
  pub database_url : Option Text

abbrev pub sync_url_of : Environ → Text
unfolding replace_from
sync_url_of env =
    if truthy env.database_url_sync
    then strip (or_text env.database_url_sync [])
    else replace_from (codes "+asyncpg") (codes "+psycopg2") 0 (strip (or_text env.database_url []))

abbrev pub checked_url : Text → Result Text
checked_url url =
    if nonempty url then ok url else err (runtime_error (codes "Alembic needs a database URL"))

-- `get_url` of alembic/env.py
unfoldable pub get_url : Environ → Result Text
get_url env = checked_url (sync_url_of env)

-- `_database_url_sync_env`: the variable is set for the body, and put back however the body ends.
unfoldable pub database_url_sync_env :
    {A : Type 0} → Text → Environ → (Environ → Environ × Result A) → Environ × Result A
database_url_sync_env url env body =
    let (left, result) = body (record env { database_url_sync = some url }) in
    (record left { database_url_sync = env.database_url_sync }, result)

-- What of the settings is read here, and whether alembic.ini is there
pub record StartSettings : Type 0 where
  pub database_auto_create : Bool
  pub database_auto_migrate : Bool
  pub database_url_sync : Option Text
  pub database_url : Option Text
  pub ini_found : Bool

module _ (H : Host) (make_url : Text → Option Url) (settings : StartSettings) where
  unfoldable pub ensure : H.State → Result H.State
  ensure =
      ensure_postgres_database_exists (server_of H) make_url settings.database_auto_create
        settings.database_url_sync settings.database_url

  -- `run_migrations_online`: there are six migrations, and the last round finds none.
  unfoldable pub run_migrations_online : Environ → H.State → Result (Option Text × H.State)
  run_migrations_online env s = do
    ready ← ensure s
    url ← get_url env
    upgrade_head (ddl_of H url) 7 (H.revision url ready) ready

  abbrev pub unusable : Text → Bool
  unusable url = not (nonempty url) || text_eq url (codes "+psycopg2")

  unfoldable pub run_alembic_upgrade_head : Environ → H.State → Environ × Result H.State
  run_alembic_upgrade_head env s =
      let url = sync_database_url settings.database_url_sync settings.database_url in
      if not settings.ini_found
      then (env, err (other_error (codes "FileNotFoundError")))
      else if unusable url
      then (env, err (value_error (codes "Cannot derive sync database URL for migrations")))
      else database_url_sync_env url env
          (λ set. (set, run_migrations_online set s >>= λ (r, t). ok t))

  abbrev pub migrate_if_set : Environ → Result H.State → Environ × Result H.State
  migrate_if_set env (err e) = (env, err e)
  migrate_if_set env (ok t) =
      if settings.database_auto_migrate then run_alembic_upgrade_head env t else (env, ok t)

  -- `lifespan` up to the container: an exception ends the start.
  unfoldable pub lifespan : Environ → H.State → Environ × Result H.State
  lifespan env s = migrate_if_set env (if settings.database_auto_create then ensure s else ok s)
