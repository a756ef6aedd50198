-- ===== src/ApiKeys/Access.antt =====
-- `require_api_key` and `require_admin` of presentation/deps.py. A refusal is a 401.
use rag_document_processor.Prelude.{
  ℕ, Bool, true, false, ◌&&◌, ltb, Option, none, some, List, [], ◌∷◌, if◌then◌else◌,
}
use rag_document_processor.Prelude.Text.{Text, codes, text_eq, nonempty, strip}
use rag_document_processor.Domain.Exceptions.{Error, other_error}
use rag_document_processor.Domain.Entities.{ApiKey}
use rag_document_processor.ApiKeys.{ApiKeyRow, hash_api_key, get_active_by_hash, touch_last_used}

-- `HTTPException(401)` by its detail, and any other exception
pub data Access {ℓ} (A : Type ℓ) : Type ℓ where
  granted : A → Access A
  unauthorized : Text → Access A
  raised : Error → Access A

module _ (hash : Text → Text) where
  abbrev pub found_key : ℕ → List ApiKeyRow → Option ApiKey → Access (ApiKey × List ApiKeyRow)
  found_key now rows none = unauthorized (codes "Invalid API key")
  found_key now rows (some key) = granted (key, touch_last_used now key.id rows)

  -- A missing header, or a blank one, never reaches the table.
  unfoldable pub require_api_key :
      ℕ → Option Text → List ApiKeyRow → Access (ApiKey × List ApiKeyRow)
  require_api_key now none rows = unauthorized (codes "Missing API key")
  require_api_key now (some api_key) rows =
      if nonempty (strip api_key)
      then found_key now rows (get_active_by_hash (hash_api_key hash api_key) rows)
      else unauthorized (codes "Missing API key")

abbrev pub admin_refusal : Access (Unit {0})
admin_refusal = unauthorized (codes "Invalid admin secret")

abbrev pub is_ascii : Text → Bool
is_ascii [] = true
is_ascii (c ∷ s) = ltb c 128 && is_ascii s

-- `secrets.compare_digest`, which raises a TypeError on texts that are not ASCII
unfoldable pub compare_digest : Text → Text → Option Bool
compare_digest a b = if is_ascii a && is_ascii b then some (text_eq a b) else none

abbrev pub admin_answer : Option Bool → Access (Unit {0})
admin_answer none = raised (other_error (codes "TypeError"))
admin_answer (some true) = granted tt
admin_answer (some false) = admin_refusal

-- `require_admin`: the configured secret, and that of the header
unfoldable pub require_admin : Option Text → Option Text → Access (Unit {0})
require_admin none secret = admin_refusal
require_admin (some configured) none = admin_refusal
require_admin (some configured) (some secret) =
    if nonempty configured && nonempty secret
    then admin_answer (compare_digest secret configured)
    else admin_refusal
