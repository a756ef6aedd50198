-- ===== src/ApiKeys.antt =====
-- infrastructure/db/repositories/api_key_repo.py over the table `api_keys`, as a list of rows in the
-- order of their creation, infrastructure/security/api_key_hashing.py, and the use cases of
-- application/use_cases/api_keys/manage.py. Of the errors of the database only those of a key or a
-- hash that is there already are modelled.
pub mod Access
pub mod Laws
pub mod Listing
use rag_document_processor.Prelude.{
  ℕ, zero, suc, Bool, true, false, ◌&&◌, ◌||◌, Option, none, some, List, [], ◌∷◌, ◌++◌, ◌==◌, map,
  if◌then◌else◌,
}
use rag_document_processor.Prelude.Text.{Text, codes, text_eq, or_text, strip}
use rag_document_processor.Domain.Exceptions.{
  Error, other_error, api_key_not_found, Result, ok, err,
}
use rag_document_processor.Domain.Entities.{ApiKey}

-- A row of `api_keys`
pub record ApiKeyRow : Type 0 where
  pub id : ℕ
  pub name : Text
  pub key_prefix : Text
  pub key_hash : Text
  pub is_active : Bool
  pub created_at : ℕ
  pub last_used_at : Option ℕ

-- `_entity_from_row`
abbrev pub entity_from_row : ApiKeyRow → ApiKey
entity_from_row row = record {
  id = row.id;
  name = row.name;
  key_prefix = row.key_prefix;
  is_active = row.is_active;
  created_at = row.created_at;
  last_used_at = row.last_used_at;
}

-- The primary key, and the unique hash
unfoldable pub is_taken : ℕ → Text → List ApiKeyRow → Bool
is_taken id hash [] = false
is_taken id hash (row ∷ rows) = row.id == id || text_eq row.key_hash hash || is_taken id hash rows

abbrev pub active_row : ℕ → ℕ → Text → Text → Text → ApiKeyRow
active_row now id name prefix hash = record {
  id = id;
  name = name;
  key_prefix = prefix;
  key_hash = hash;
  is_active = true;
  created_at = now;
  last_used_at = none;
}

unfoldable pub add_key : ApiKeyRow → List ApiKeyRow → Result (List ApiKeyRow)
add_key row rows =
    if is_taken row.id row.key_hash rows
    then err (other_error (codes "IntegrityError"))
    else ok (rows ++ row ∷ [])

unfoldable pub get_active_by_hash : Text → List ApiKeyRow → Option ApiKey
get_active_by_hash hash [] = none
get_active_by_hash hash (row ∷ rows) =
    if text_eq row.key_hash hash && row.is_active
    then some (entity_from_row row)
    else get_active_by_hash hash rows

-- `update(…).where(id == key_id, is_active)` and the count of its rows
unfoldable pub deactivate : ℕ → List ApiKeyRow → List ApiKeyRow
deactivate id [] = []
deactivate id (row ∷ rows) =
    (if row.id == id && row.is_active then record row { is_active = false } else row)
    ∷ deactivate id rows

unfoldable pub has_active : ℕ → List ApiKeyRow → Bool
has_active id [] = false
has_active id (row ∷ rows) = (row.id == id && row.is_active) || has_active id rows

unfoldable pub touch_last_used : ℕ → ℕ → List ApiKeyRow → List ApiKeyRow
touch_last_used now id [] = []
touch_last_used now id (row ∷ rows) =
    (if row.id == id then record row { last_used_at = some now } else row)
    ∷ touch_last_used now id rows

abbrev pub take_codes : ℕ → Text → Text
take_codes zero s = []
take_codes (suc n) [] = []
take_codes (suc n) (c ∷ s) = c ∷ take_codes n s

module _ (hash : Text → Text) where
  -- SHA-256 in hexadecimal is `hash`.
  unfoldable pub hash_api_key : Text → Text
  hash_api_key raw_key = hash (strip raw_key)

  -- `generate_api_key`: the raw key, of which `token` is the random part
  abbrev pub raw_key_of : Text → Text
  raw_key_of token = codes "rag_" ++ token

  abbrev pub shown_once : Text → Result (List ApiKeyRow) → Result (Text × List ApiKeyRow)
  shown_once raw (err e) = err e
  shown_once raw (ok rows) = ok (raw, rows)

  -- `CreateApiKeyUseCase.execute`, which answers with the raw key
  unfoldable pub create_api_key :
      ℕ → ℕ → Text → Text → List ApiKeyRow → Result (Text × List ApiKeyRow)
  create_api_key now id token name rows = shown_once (raw_key_of token) (
      add_key
        (active_row now id (or_text (some (strip name)) (codes "unnamed"))
          (take_codes 12 (raw_key_of token)) (hash_api_key (raw_key_of token)))
        rows)

-- `RevokeApiKeyUseCase.execute`
unfoldable pub revoke_api_key : ℕ → List ApiKeyRow → Result (List ApiKeyRow)
revoke_api_key id rows =
    if has_active id rows then ok (deactivate id rows) else err api_key_not_found
