-- ===== src/Api/Keys.antt =====
-- presentation/api/v1/api_keys.py: minting, listing and revoking keys, behind the administrator's secret. The
-- answer to a minted key is its raw text here; the other fields of the response are those of its row.
use rag_document_processor.Prelude.{ℕ, ◌&&◌, Option, none, some, List, leb, length, if◌then◌else◌}
use rag_document_processor.Prelude.Text.{Text}
use rag_document_processor.Domain.Exceptions.{Result, ok, err}
use rag_document_processor.ApiKeys.{ApiKeyRow, create_api_key, revoke_api_key}
use rag_document_processor.ApiKeys.Listing.{ApiKeyDto, list_api_keys}
use rag_document_processor.ApiKeys.Access.{require_admin}
use rag_document_processor.Api.{Reply, replied, refused, error_reply, refusal, invalid_request}

abbrev pub minted : List ApiKeyRow → Result (Text × List ApiKeyRow) → Reply Text × List ApiKeyRow
minted rows (ok (raw, rows')) = (replied raw, rows')
minted rows (err e) = (refused (error_reply e), rows)

abbrev pub revoked : List ApiKeyRow → Result (List ApiKeyRow) → Reply (Unit {0}) × List ApiKeyRow
revoked rows (ok rows') = (replied tt, rows')
revoked rows (err e) = (refused (error_reply e), rows)

abbrev pub or_refusal :
    {A : Type 0}
    → Option (Reply A)
    → List ApiKeyRow
    → Reply A × List ApiKeyRow
    → Reply A × List ApiKeyRow
or_refusal none rows answer = answer
or_refusal (some reply) rows answer = (reply, rows)

-- The secret is the configured one and that of the header; the name has 1 to 255 code points.
unfoldable pub post_api_key :
    (Text → Text)
    → Option Text
    → Option Text
    → ℕ
    → ℕ
    → Text
    → Text
    → List ApiKeyRow
    → Reply Text × List ApiKeyRow
post_api_key hash configured secret now id token name rows =
    or_refusal (refusal (require_admin configured secret)) rows (
      if leb 1 (length name) && leb (length name) 255
      then minted rows (create_api_key hash now id token name rows)
      else (refused invalid_request, rows))

unfoldable pub delete_api_key :
    Option Text → Option Text → ℕ → List ApiKeyRow → Reply (Unit {0}) × List ApiKeyRow
delete_api_key configured secret id rows =
    or_refusal (refusal (require_admin configured secret)) rows
      (revoked rows (revoke_api_key id rows))

unfoldable pub get_api_keys :
    (List ApiKeyRow → List ApiKeyRow)
    → Option Text
    → Option Text
    → List ApiKeyRow
    → Reply (List ApiKeyDto) × List ApiKeyRow
get_api_keys ordered configured secret rows =
    or_refusal (refusal (require_admin configured secret)) rows
      (replied (list_api_keys ordered rows), rows)
