-- ===== src/ApiKeys/Laws.antt =====
-- Who gets access: a created key does until it is revoked, and its revocation concerns no other key.
use rag_document_processor.Prelude.{
  ℕ, ◌≡◌, ◌≢◌, ◌↔◌, refl, sym, ap, true, false, Option, none, some, List, [], ◌∷◌, ◌++◌, arith,
  Bool-cases, inl, inr,
}
use rag_document_processor.Prelude.Text.{
  Text, text_eq, nonempty, is_space, lstrip, rstrip_cons, rstrip, strip, or_text, codes,
}
use rag_document_processor.Prelude.Text.Laws.{text_eq_refl, text_eq-eq}
use rag_document_processor.Domain.Exceptions.{api_key_not_found, ok, err}
use rag_document_processor.Domain.Entities.{ApiKey}
use rag_document_processor.ApiKeys.{
  ApiKeyRow, entity_from_row, is_taken, active_row, add_key, get_active_by_hash, deactivate,
  has_active, touch_last_used, take_codes, hash_api_key, raw_key_of, create_api_key, revoke_api_key,
}
use rag_document_processor.ApiKeys.Access.{
  granted, require_api_key, is_ascii, compare_digest, require_admin,
}

deactivate_inactive : (id : ℕ) (rows : List ApiKeyRow) → has_active id (deactivate id rows) ≡ false
unfolding has_active deactivate
deactivate_inactive id [] = refl
deactivate_inactive id (row ∷ rows) = ground (arith, deactivate_inactive id rows)

get_active_by_hash-deactivate :
    (id : ℕ) (hash : Text) (rows : List ApiKeyRow) (key : ApiKey)
    → get_active_by_hash hash (deactivate id rows) ≡ some key
    → key.id ≢ id
unfolding get_active_by_hash deactivate
get_active_by_hash-deactivate id hash [] key h = cc
get_active_by_hash-deactivate id hash (row ∷ rows) key h =
    ground (arith, get_active_by_hash-deactivate id hash rows key)

get_active_by_hash-deactivate_other :
    (id : ℕ) (hash : Text) (rows : List ApiKeyRow) (key : ApiKey)
    → get_active_by_hash hash rows ≡ some key
    → key.id ≢ id
    → get_active_by_hash hash (deactivate id rows) ≡ some key
unfolding get_active_by_hash deactivate
get_active_by_hash-deactivate_other id hash [] key h ne = cc
get_active_by_hash-deactivate_other id hash (row ∷ rows) key h ne =
    ground (arith, get_active_by_hash-deactivate_other id hash rows key)

get_active_by_hash-append :
    (id : ℕ) (hash : Text) (rows : List ApiKeyRow) (row : ApiKeyRow)
    → is_taken id hash rows ≡ false
    → row.key_hash ≡ hash
    → row.is_active ≡ true
    → get_active_by_hash hash (rows ++ row ∷ []) ≡ some (entity_from_row row)
unfolding get_active_by_hash is_taken
get_active_by_hash-append id hash [] row free same active = rw (same, active, text_eq_refl hash)
get_active_by_hash-append id hash (r ∷ rows) row free same active =
    ground (arith, get_active_by_hash-append id hash rows row)

nonempty-strip_r : (t : Text) → nonempty (strip (114 ∷ t)) ≡ true
unfolding strip lstrip rstrip is_space
nonempty-strip_r t = go (rstrip t)
  where
    go : (s : Text) → nonempty (rstrip_cons 114 s) ≡ true
    go [] = refl
    go (c ∷ s) = refl

pub revoke_api_key-eq :
    (id : ℕ) (rows rows' : List ApiKeyRow)
    → revoke_api_key id rows ≡ ok rows'
    → rows' ≡ deactivate id rows
unfolding revoke_api_key
revoke_api_key-eq id rows rows' h = ground arith

-- A second revocation finds no active key.
pub revoke_api_key-revoke_api_key :
    (id : ℕ) (rows rows' : List ApiKeyRow)
    → revoke_api_key id rows ≡ ok rows'
    → revoke_api_key id rows' ≡ err api_key_not_found
unfolding revoke_api_key
revoke_api_key-revoke_api_key id rows rows' h =
    rw (revoke_api_key-eq id rows rows' h) (rw (deactivate_inactive id rows))

module _ (hash : Text → Text) where
  pub require_api_key-found :
      (now : ℕ) (header : Option Text) (rows rows' : List ApiKeyRow) (key : ApiKey)
      → require_api_key hash now header rows ≡ granted (key, rows')
      → (raw : Text) × (header ≡ some raw)
        × (nonempty (strip raw) ≡ true)
        × (get_active_by_hash (hash_api_key hash raw) rows ≡ some key)
        × (rows' ≡ touch_last_used now key.id rows)
  unfolding require_api_key
  require_api_key-found now none rows rows' key h = absurd (ground arith)
  require_api_key-found now (some raw) rows rows' key h =
      (raw, refl, ground arith, ground arith, ground arith)

  require_api_key_granted :
      (now : ℕ) (raw : Text) (rows : List ApiKeyRow) (key : ApiKey)
      → nonempty (strip raw) ≡ true
      → get_active_by_hash (hash_api_key hash raw) rows ≡ some key
      → require_api_key hash now (some raw) rows ≡ granted (key, touch_last_used now key.id rows)
  unfolding require_api_key
  require_api_key_granted now raw rows key full found = rw (full, found)

  -- After its revocation a key opens nothing, whatever the header is.
  pub require_api_key-revoke_api_key :
      (id now : ℕ) (header : Option Text) (rows rows' rows'' : List ApiKeyRow) (key : ApiKey)
      → revoke_api_key id rows ≡ ok rows'
      → require_api_key hash now header rows' ≡ granted (key, rows'')
      → key.id ≢ id
  require_api_key-revoke_api_key id now header rows rows' rows'' key revoked h =
      let (raw, _, _, found, _) = require_api_key-found now header rows' rows'' key h in
      get_active_by_hash-deactivate id (hash_api_key hash raw) rows key
        (rw (revoke_api_key-eq id rows rows' revoked) at found)

  -- The revocation of a key takes no other key its access.
  pub require_api_key_kept :
      (id now : ℕ) (raw : Text) (rows rows' rows'' : List ApiKeyRow) (key : ApiKey)
      → revoke_api_key id rows ≡ ok rows'
      → require_api_key hash now (some raw) rows ≡ granted (key, rows'')
      → key.id ≢ id
      → require_api_key hash now (some raw) rows' ≡ granted (key, touch_last_used now key.id rows')
  require_api_key_kept id now raw rows rows' rows'' key revoked h ne =
      let (raw', same, full, found, _) = require_api_key-found now (some raw) rows rows'' key h in
      let eq : raw' ≡ raw = cc same in
      let kept =
        get_active_by_hash-deactivate_other id (hash_api_key hash raw') rows key found ne in
      rw (revoke_api_key-eq id rows rows' revoked)
        (require_api_key_granted now raw (deactivate id rows) key (rw eq at full) (rw eq at kept))

  -- The row of a new key
  abbrev pub new_key : ℕ → ℕ → Text → Text → ApiKeyRow
  new_key now id token name =
      active_row now id (or_text (some (strip name)) (codes "unnamed"))
        (take_codes 12 (raw_key_of hash token)) (hash_api_key hash (raw_key_of hash token))

  pub create_api_key-eq :
      (now id : ℕ) (token name raw : Text) (rows rows' : List ApiKeyRow)
      → create_api_key hash now id token name rows ≡ ok (raw, rows')
      → (raw ≡ raw_key_of hash token)
        × (is_taken id (hash_api_key hash (raw_key_of hash token)) rows ≡ false)
        × (rows' ≡ rows ++ new_key now id token name ∷ [])
  unfolding create_api_key add_key
  create_api_key-eq now id token name raw rows rows' h =
      elim (Bool-cases (is_taken id (hash_api_key hash (raw_key_of hash token)) rows)) [
        | inl taken ↦ absurd (cc (rw taken at h))
        | inr free ↦ let k = rw free at h in (cc k, free, cc k)
      ]

  -- A key that was just created opens the service, under its own id and with the trimmed name.
  pub require_api_key-create_api_key :
      (now later id : ℕ) (token name raw : Text) (rows rows' : List ApiKeyRow)
      → create_api_key hash now id token name rows ≡ ok (raw, rows')
      → (key : ApiKey) × (require_api_key hash later (some raw) rows'
          ≡ granted (key, touch_last_used later id rows'))
        × (key.id ≡ id)
        × (key.name ≡ or_text (some (strip name)) (codes "unnamed"))
  require_api_key-create_api_key now later id token name raw rows rows' h =
      let (raw_eq, free, rows_eq) = create_api_key-eq now id token name raw rows rows' h in
      (
        entity_from_row (new_key now id token name),
        rw (raw_eq, rows_eq)
            (require_api_key_granted later (raw_key_of hash token)
              (rows ++ new_key now id token name ∷ []) (entity_from_row (new_key now id token name))
              (nonempty-strip_r _)
              (get_active_by_hash-append id (hash_api_key hash (raw_key_of hash token)) rows
                (new_key now id token name) free refl refl)),
        refl,
        refl,
      )

-- The admin endpoints open exactly with the configured secret, which is not empty and ASCII.
pub require_admin_iff :
    (configured : Option Text) (secret : Text)
    → (require_admin configured (some secret) ≡ granted tt)
      ↔ ((configured ≡ some secret) × (nonempty secret ≡ true) × (is_ascii secret ≡ true))
unfolding require_admin compare_digest
require_admin_iff none secret = ((λ h. absurd (ground arith)), (λ h. absurd (ground arith)))
require_admin_iff (some configured) secret = (
  (λ h.
      let equal : text_eq secret configured ≡ true = ground arith in
      (ap some (sym (text_eq-eq secret configured equal)), ground arith, ground arith)),
  (λ (same, full, plain). ground (arith, text_eq_refl secret)),
)
