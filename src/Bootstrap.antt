-- ===== src/Bootstrap.antt =====
-- core/db_bootstrap.py: the name of the database, and its creation where it is missing. `make_url` and
-- the server are parameters.
pub mod Laws
use rag_document_processor.Prelude.{
  ℕ, zero, suc, ◌-◌, ◌≡◌, Bool, true, false, not, ◌&&◌, ◌||◌, Option, none, some, List, [], ◌∷◌,
  ◌++◌, leb, length, if◌then◌else◌, ◌==◌,
}
use rag_document_processor.Prelude.Text.{
  Text, codes, text_eq, one_of, nonempty, truthy, or_text, starts_with,
}
use rag_document_processor.Domain.Exceptions.{Result, ok, err, ◌>>=◌, value_error}

-- `s.replace(old, new)` for an `old` that is not empty: `skip` code points belong to a match still.
unfoldable pub replace_from : Text → Text → ℕ → Text → Text
replace_from old new skip [] = []
replace_from old new (suc skip) (c ∷ s) = replace_from old new skip s
replace_from old new zero (c ∷ s) =
    let matched = replace_from old new (length old - 1) s in
    let rest = replace_from old new zero s in
    if starts_with (c ∷ s) old then new ++ matched else c ∷ rest

-- `_sync_database_url`, of `database_url_sync` and `database_url`
unfoldable pub sync_database_url : Option Text → Option Text → Text
sync_database_url sync url =
    if truthy sync
    then or_text sync []
    else replace_from (codes "+asyncpg") (codes "+psycopg2") 0 (or_text url [])

-- What is read of SQLAlchemy's `URL`
pub record Url : Type 0 where
  pub backend_name : Text
  pub database : Option Text

abbrev pub is_letter : ℕ → Bool
is_letter c = (leb 65 c && leb c 90) || (leb 97 c && leb c 122) || c == 95

abbrev pub is_word : ℕ → Bool
is_word c = is_letter c || (leb 48 c && leb c 57)

abbrev pub all_words : Text → Bool
all_words [] = true
all_words (c ∷ s) = is_word c && all_words s

-- `_PG_DB_NAME.fullmatch`: [A-Za-z_][A-Za-z0-9_]{0,62}
unfoldable pub is_db_name : Text → Bool
is_db_name [] = false
is_db_name (c ∷ s) = is_letter c && all_words s && leb (length s) 62

pub record Server : Type 1 where
  pub State : Type 0
  -- SELECT 1 FROM pg_database WHERE datname = :name
  pub exists : Text → State → Result Bool
  -- a statement that is run as it is
  pub execute : Text → State → Result State

-- f'CREATE DATABASE "{dbname}"'
unfoldable pub create_statement : Text → Text
create_statement name = codes "CREATE DATABASE \"" ++ name ++ codes "\""

module _ (S : Server) where
  abbrev pub create_unless : Bool → Text → S.State → Result S.State
  create_unless true name s = ok s
  create_unless false name s = S.execute (create_statement name) s

  unfoldable pub create_missing : Text → S.State → Result S.State
  create_missing name s = S.exists name s >>= λ there. create_unless there name s

  abbrev pub ensure_named : Text → S.State → Result S.State
  ensure_named name s =
      if one_of name (codes "postgres" ∷ codes "template0" ∷ codes "template1" ∷ [])
      then ok s
      else if is_db_name name
      then create_missing name s
      else err (value_error (codes "database_auto_create only supports simple names"))

  abbrev pub ensure_in : Option Url → S.State → Result S.State
  ensure_in none s = ok s
  ensure_in (some url) s =
      if text_eq url.backend_name (codes "postgresql") && truthy url.database
      then ensure_named (or_text url.database []) s
      else ok s

  -- `ensure_postgres_database_exists`: `none` is a URL that `make_url` refuses
  unfoldable pub ensure_postgres_database_exists :
      (Text → Option Url) → Bool → Option Text → Option Text → S.State → Result S.State
  ensure_postgres_database_exists make_url auto_create sync url s =
      let sync_url = sync_database_url sync url in
      if auto_create && nonempty sync_url && not (text_eq sync_url (codes "+psycopg2"))
      then ensure_in (make_url sync_url) s
      else ok s
