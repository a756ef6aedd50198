-- ===== src/Tests/Keys.antt =====
-- API keys on small inputs, where the hash of a key is the key.
use rag_document_processor.Prelude.{
  ◌≡◌, ◌≢◌, ◌↔◌, refl, true, false, some, none, List, [], ◌∷◌, arith, ◌≤◌, leb, leb→le,
  leb-false→lt, Bool-cases, inl, inr, All, Any, if◌then◌else◌,
}
use rag_document_processor.Prelude.Text.{
  Text, codes, nonempty, strip, or_text, text_eq, lstrip, rstrip, is_space,
}
use rag_document_processor.Domain.Exceptions.{ok}
use rag_document_processor.Domain.Entities.{ApiKey}
use rag_document_processor.ApiKeys.{
  ApiKeyRow, entity_from_row, active_row, is_taken, add_key, get_active_by_hash, deactivate,
  has_active, touch_last_used, hash_api_key, create_api_key, revoke_api_key,
}
use rag_document_processor.ApiKeys.Access.{granted, is_ascii, require_api_key, require_admin}
use mathlib.Core.List.Permᴰ
use mathlib.Core.List.{Permᴰ}
use rag_document_processor.ApiKeys.Listing.{
  ApiKeyDto, NotNewer, NewestFirst, IsNewestFirst, list_api_keys,
}
use rag_document_processor.ApiKeys.Listing.Laws.{
  list_api_keys-create_api_key, list_api_keys-revoke_api_key,
}
use rag_document_processor.ApiKeys.Laws.{
  require_api_key-revoke_api_key, require_api_key_kept, require_api_key-create_api_key,
  require_admin_iff,
}

abbrev same : Text → Text
same s = s

abbrev first : ApiKeyRow
first = active_row 1 1 (codes "a") (codes "rag_") (codes "rag_x")

abbrev second : ApiKeyRow
second = active_row 2 2 (codes "b") (codes "rag_") (codes "rag_y")

abbrev revoked_first : List ApiKeyRow
revoked_first = record first { is_active = false } ∷ second ∷ []

first_revoked : revoke_api_key 1 (first ∷ second ∷ []) ≡ ok revoked_first
unfolding revoke_api_key has_active deactivate
first_revoked = refl

second_granted :
    require_api_key same 5 (some (codes "rag_y")) revoked_first
    ≡ granted (entity_from_row second, touch_last_used 5 2 revoked_first)
unfolding require_api_key get_active_by_hash hash_api_key text_eq strip lstrip rstrip is_space
second_granted = refl

require_api_key-revoke_api_key_example : (entity_from_row second).id ≢ first.id
require_api_key-revoke_api_key_example =
    require_api_key-revoke_api_key same 1 5 (some (codes "rag_y")) (first ∷ second ∷ [])
      revoked_first (touch_last_used 5 2 revoked_first) (entity_from_row second) first_revoked
      second_granted

require_api_key_kept_example :
    require_api_key same 5 (some (codes "rag_y")) revoked_first
    ≡ granted (entity_from_row second, touch_last_used 5 2 revoked_first)
unfolding require_api_key get_active_by_hash hash_api_key text_eq strip lstrip rstrip is_space
require_api_key_kept_example =
    require_api_key_kept same 1 5 (codes "rag_y") (first ∷ second ∷ []) revoked_first
      (touch_last_used 5 2 (first ∷ second ∷ [])) (entity_from_row second) first_revoked refl
      (λ h. omega (arith, h))

abbrev third : ApiKeyRow
third = active_row 3 3 (codes "c") (codes "rag_z") (codes "rag_z")

third_created :
    create_api_key same 3 3 (codes "z") (codes " c ") (first ∷ [])
    ≡ ok (codes "rag_z", first ∷ third ∷ [])
unfolding create_api_key add_key is_taken hash_api_key text_eq strip lstrip rstrip is_space
third_created = refl

require_api_key-create_api_key_example :
    (key : ApiKey) × (require_api_key same 4 (some (codes "rag_z")) (first ∷ third ∷ [])
      ≡ granted (key, touch_last_used 4 3 (first ∷ third ∷ [])))
    × (key.id ≡ 3)
    × (key.name ≡ or_text (some (strip (codes " c "))) (codes "unnamed"))
require_api_key-create_api_key_example =
    require_api_key-create_api_key same 3 4 3 (codes "z") (codes " c ") (codes "rag_z") (first ∷ [])
      (first ∷ third ∷ []) third_created

require_admin_iff_example : (require_admin (some (codes "s")) (some (codes "s")) ≡ granted tt) ↔ (
    (some (codes "s") ≡ some (codes "s"))
    × (nonempty (codes "s") ≡ true)
    × (is_ascii (codes "s") ≡ true))
require_admin_iff_example = require_admin_iff (some (codes "s")) (codes "s")

-- An insertion sort by time, the newest first
insert : ApiKeyRow → List ApiKeyRow → List ApiKeyRow
insert row [] = row ∷ []
insert row (r ∷ rows) =
    if leb r.created_at row.created_at then row ∷ r ∷ rows else r ∷ insert row rows

order : List ApiKeyRow → List ApiKeyRow
order [] = []
order (row ∷ rows) = insert row (order rows)

insert-Permᴰ : (row : ApiKeyRow) (rows : List ApiKeyRow) → Permᴰ (row ∷ rows) (insert row rows)
unfolding insert
insert-Permᴰ row [] = Permᴰ.refl (row ∷ [])
insert-Permᴰ row (r ∷ rows) = elim (Bool-cases (leb r.created_at row.created_at)) [
  | inl first ↦ rw first (Permᴰ.refl (row ∷ r ∷ rows))
  | inr later ↦
      rw later (Permᴰ.trans (Permᴰ.swap refl refl) (Permᴰ.cons refl (insert-Permᴰ row rows)))
]

order-Permᴰ : (rows : List ApiKeyRow) → Permᴰ rows (order rows)
unfolding order
order-Permᴰ [] = Permᴰ.nil
order-Permᴰ (row ∷ rows) =
    Permᴰ.trans (Permᴰ.cons refl (order-Permᴰ rows)) (insert-Permᴰ row (order rows))

NotNewer-insert :
    (x row : ApiKeyRow) (rows : List ApiKeyRow)
    → row.created_at ≤ x.created_at
    → NotNewer x rows
    → NotNewer x (insert row rows)
unfolding insert
NotNewer-insert x row [] le h = (le, tt)
NotNewer-insert x row (r ∷ rows) le (p, h) = elim (Bool-cases (leb r.created_at row.created_at)) [
  | inl first ↦ rw first (le, (p, h))
  | inr later ↦ rw later (p, NotNewer-insert x row rows le h)
]

NotNewer-weaken :
    (x y : ApiKeyRow) (rows : List ApiKeyRow)
    → x.created_at ≤ y.created_at
    → NotNewer x rows
    → NotNewer y rows
NotNewer-weaken x y [] le h = tt
NotNewer-weaken x y (r ∷ rows) le (p, h) = (omega (arith, p, le), NotNewer-weaken x y rows le h)

insert-NewestFirst :
    (row : ApiKeyRow) (rows : List ApiKeyRow) → NewestFirst rows → NewestFirst (insert row rows)
unfolding insert
insert-NewestFirst row [] h = (tt, tt)
insert-NewestFirst row (r ∷ rows) (n, h) = elim (Bool-cases (leb r.created_at row.created_at)) [
  | inl first ↦
      let le = leb→le r.created_at row.created_at first in
      rw first ((le, NotNewer-weaken r row rows le n), (n, h))
  | inr later ↦ rw later (
    NotNewer-insert r row rows (omega (arith, leb-false→lt r.created_at row.created_at later)) n,
    insert-NewestFirst row rows h,
  )
]

order-NewestFirst : (rows : List ApiKeyRow) → NewestFirst (order rows)
unfolding order
order-NewestFirst [] = tt
order-NewestFirst (row ∷ rows) = insert-NewestFirst row (order rows) (order-NewestFirst rows)

order-IsNewestFirst : IsNewestFirst order
order-IsNewestFirst = record { permuted = order-Permᴰ; newest_first = order-NewestFirst }

list_api_keys-create_api_key_example :
    (d : ApiKeyDto) × (rest : List ApiKeyDto) × (list_api_keys order (first ∷ third ∷ [])
      ≡ d ∷ rest)
    × (d.id ≡ 3)
    × (d.created_at ≡ 3)
    × (d.is_active ≡ true)
    × (d.last_used_at ≡ none)
list_api_keys-create_api_key_example =
    list_api_keys-create_api_key order order-IsNewestFirst same 3 3 (codes "z") (codes " c ")
      (codes "rag_z") (first ∷ []) (first ∷ third ∷ []) (omega arith, tt) third_created

list_api_keys-revoke_api_key_example :
    Any (λ d. d.id ≡ 1) (list_api_keys order revoked_first)
    × All (λ d. d.id ≡ 1 → d.is_active ≡ false) (list_api_keys order revoked_first)
list_api_keys-revoke_api_key_example =
    list_api_keys-revoke_api_key order order-IsNewestFirst 1 (first ∷ second ∷ []) revoked_first
      first_revoked
