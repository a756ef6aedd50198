-- ===== src/ApiKeys/Listing.antt =====
-- The listing of keys: `list_all` of api_key_repo.py and `ListApiKeysUseCase` of manage.py. The order
-- in which the database gives the rows is a parameter. A point in time stands for its ISO text.
pub mod Laws
use rag_document_processor.Prelude.{ℕ, ◌≤◌, Bool, Option, List, [], ◌∷◌, map}
use rag_document_processor.Prelude.Text.{Text}
use rag_document_processor.Domain.Entities.{ApiKey}
use rag_document_processor.ApiKeys.{ApiKeyRow, entity_from_row}
use mathlib.Core.List.{Permᴰ}

-- `ApiKeyDTO`
pub record ApiKeyDto : Type 0 where
  pub id : ℕ
  pub name : Text
  pub key_prefix : Text
  pub is_active : Bool
  pub created_at : ℕ
  pub last_used_at : Option ℕ

-- `_to_dto`
unfoldable pub to_dto : ApiKey → ApiKeyDto
to_dto key = record {
  id = key.id;
  name = key.name;
  key_prefix = key.key_prefix;
  is_active = key.is_active;
  created_at = key.created_at;
  last_used_at = key.last_used_at;
}

-- No later row is newer.
abbrev pub NotNewer : ApiKeyRow → List ApiKeyRow → Type 0
NotNewer row [] = Unit
NotNewer row (r ∷ rows) = (r.created_at ≤ row.created_at) × NotNewer row rows

abbrev pub NewestFirst : List ApiKeyRow → Type 0
NewestFirst [] = Unit
NewestFirst (row ∷ rows) = NotNewer row rows × NewestFirst rows

-- `ORDER BY created_at DESC`: all rows, the newest first. Rows of one time come in any order.
pub record IsNewestFirst (ordered : List ApiKeyRow → List ApiKeyRow) : Type 0 where
  pub permuted : (rows : List ApiKeyRow) → Permᴰ rows (ordered rows)
  pub newest_first : (rows : List ApiKeyRow) → NewestFirst (ordered rows)

module _ (ordered : List ApiKeyRow → List ApiKeyRow) where
  unfoldable pub list_all : List ApiKeyRow → List ApiKey
  list_all rows = map entity_from_row (ordered rows)

  -- `ListApiKeysUseCase.execute`
  unfoldable pub list_api_keys : List ApiKeyRow → List ApiKeyDto
  unfolding list_all to_dto
  list_api_keys rows = map to_dto (list_all rows)
