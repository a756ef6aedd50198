-- ===== src/ApiKeys/Listing/Laws.antt =====
-- What the listing shows after keys were created, used and revoked.
use rag_document_processor.Prelude.{
  ℕ, ◌≡◌, refl, true, false, Option, some, none, List, [], ◌∷◌, ◌++◌, arith, ◌⊎◌, inl, inr, All,
  ◌<◌, ◌&&◌, ap, Bool-cases, ◌≤◌, Any, All-Permᴰ, Any-Permᴰ, Any-append_last, All-append_last,
  All-map, Any-map,
}
use rag_document_processor.Prelude.Text.{Text, text_eq}
use rag_document_processor.Domain.Exceptions.{ok}
use rag_document_processor.Domain.Entities.{ApiKey}
use rag_document_processor.ApiKeys.{
  ApiKeyRow, entity_from_row, deactivate, has_active, revoke_api_key, create_api_key,
  get_active_by_hash, touch_last_used, hash_api_key,
}
use rag_document_processor.ApiKeys.Access.{granted, require_api_key}
use rag_document_processor.ApiKeys.Laws.{
  revoke_api_key-eq, create_api_key-eq, new_key, require_api_key-found,
}
use rag_document_processor.ApiKeys.Listing.{
  ApiKeyDto, to_dto, NotNewer, NewestFirst, IsNewestFirst, list_all, list_api_keys,
}
use mathlib.Core.List.{map}

deactivate-All :
    (id : ℕ) (rows : List ApiKeyRow)
    → All (λ r. r.id ≡ id → r.is_active ≡ false) (deactivate id rows)
unfolding deactivate
deactivate-All id [] = tt
deactivate-All id (row ∷ rows) = ((λ same. ground arith), deactivate-All id rows)

deactivate-Any :
    (id : ℕ) (rows : List ApiKeyRow)
    → has_active id rows ≡ true
    → Any (λ r. r.id ≡ id) (deactivate id rows)
unfolding deactivate has_active
deactivate-Any id [] h = cc
deactivate-Any id (row ∷ rows) h = elim (Bool-cases (has_active id rows)) [
  | inl rest ↦ inr (deactivate-Any id rows rest)
  | inr rest ↦ inl (ground arith)
]

touch-Any :
    (now : ℕ) (hash : Text) (rows : List ApiKeyRow) (key : ApiKey)
    → get_active_by_hash hash rows ≡ some key
    → Any
        (λ r. (r.id ≡ key.id) × (r.is_active ≡ true) × (r.last_used_at ≡ some now))
        (touch_last_used now key.id rows)
unfolding get_active_by_hash touch_last_used
touch-Any now hash [] key h = cc
touch-Any now hash (row ∷ rows) key h =
    elim (Bool-cases (text_eq row.key_hash hash && row.is_active)) [
      | inl this ↦ inl (ground arith, ground arith, ground arith)
      | inr other ↦ inr (touch-Any now hash rows key (rw other at h))
    ]

revoke_api_key-there :
    (id : ℕ) (rows rows' : List ApiKeyRow)
    → revoke_api_key id rows ≡ ok rows'
    → has_active id rows ≡ true
unfolding revoke_api_key
revoke_api_key-there id rows rows' h = ground arith

either :
    (row : ApiKeyRow) (rows : List ApiKeyRow)
    → All (λ r. r.created_at < row.created_at) rows
    → All (λ r. (r ≡ row) ⊎ (r.created_at < row.created_at)) rows
either row [] h = tt
either row (r ∷ rows) (less, h) = (inr less, either row rows h)

-- The head of rows that are ordered so
newest :
    (row : ApiKeyRow) (rows : List ApiKeyRow)
    → NewestFirst rows
    → Any (λ r. r ≡ row) rows
    → All (λ r. (r ≡ row) ⊎ (r.created_at < row.created_at)) rows
    → (rest : List ApiKeyRow) × (rows ≡ row ∷ rest)
newest row [] down there known = elim there [ ]
newest row (r ∷ rows) down (inl same) known = (rows, ap (λ x. x ∷ rows) same)
newest row (r ∷ rows) down (inr there) (inl same, known) = (rows, ap (λ x. x ∷ rows) same)
newest row (r ∷ rows) (down, rest) (inr there) (inr older, known) =
    absurd (omega (arith, no_newer rows down there))
  where
    no_newer :
        (rs : List ApiKeyRow)
        → NotNewer r rs
        → Any (λ x. x ≡ row) rs
        → row.created_at ≤ r.created_at
    no_newer [] d t = elim t [ ]
    no_newer (x ∷ rs) (le, d) (inl same) = rw (← same) le
    no_newer (x ∷ rs) (le, d) (inr t) = no_newer rs d t

module _ (ordered : List ApiKeyRow → List ApiKeyRow) (sound : IsNewestFirst ordered) where
  listed-Any :
      (Q : ApiKeyDto → Type 0) (rows : List ApiKeyRow)
      → Any (λ r. Q (to_dto (entity_from_row r))) rows
      → Any Q (list_api_keys ordered rows)
  unfolding list_api_keys list_all
  listed-Any Q rows h =
      Any-map to_dto (λ k. Q (to_dto k)) Q (λ k q. q) (map entity_from_row (ordered rows))
        (Any-map entity_from_row (λ r. Q (to_dto (entity_from_row r))) (λ k. Q (to_dto k))
          (λ r q. q) (ordered rows)
          (Any-Permᴰ (λ r. Q (to_dto (entity_from_row r))) (sound.permuted rows) h))

  listed-All :
      (Q : ApiKeyDto → Type 0) (rows : List ApiKeyRow)
      → All (λ r. Q (to_dto (entity_from_row r))) rows
      → All Q (list_api_keys ordered rows)
  unfolding list_api_keys list_all
  listed-All Q rows h =
      All-map to_dto (λ k. Q (to_dto k)) Q (λ k q. q) (map entity_from_row (ordered rows))
        (All-map entity_from_row (λ r. Q (to_dto (entity_from_row r))) (λ k. Q (to_dto k))
          (λ r q. q) (ordered rows)
          (All-Permᴰ (λ r. Q (to_dto (entity_from_row r))) (sound.permuted rows) h))

  -- After its revocation a key is still listed, and nowhere as active.
  pub list_api_keys-revoke_api_key :
      (id : ℕ) (rows rows' : List ApiKeyRow)
      → revoke_api_key id rows ≡ ok rows'
      → Any (λ d. d.id ≡ id) (list_api_keys ordered rows')
        × All (λ d. d.id ≡ id → d.is_active ≡ false) (list_api_keys ordered rows')
  unfolding to_dto
  list_api_keys-revoke_api_key id rows rows' h =
      let eq = revoke_api_key-eq id rows rows' h in
      rw eq (
        listed-Any (λ d. d.id ≡ id) (deactivate id rows)
            (deactivate-Any id rows (revoke_api_key-there id rows rows' h)),
        listed-All (λ d. d.id ≡ id → d.is_active ≡ false) (deactivate id rows)
            (deactivate-All id rows),
      )

  -- A key that has just opened the service is listed as active, and as used at that time.
  pub list_api_keys-require_api_key :
      (hash : Text → Text) (now : ℕ) (header : Option Text) (rows rows' : List ApiKeyRow)
      (key : ApiKey)
      → require_api_key hash now header rows ≡ granted (key, rows')
      → Any
          (λ d. (d.id ≡ key.id) × (d.is_active ≡ true) × (d.last_used_at ≡ some now))
          (list_api_keys ordered rows')
  unfolding to_dto
  list_api_keys-require_api_key hash now header rows rows' key h =
      let (raw, _, _, found, touched) = require_api_key-found hash now header rows rows' key h in
      rw touched (
        listed-Any (λ d. (d.id ≡ key.id) × (d.is_active ≡ true) × (d.last_used_at ≡ some now))
          (touch_last_used now key.id rows) (touch-Any now (hash_api_key hash raw) rows key found))

  list_api_keys-append :
      (row : ApiKeyRow) (rows : List ApiKeyRow)
      → All (λ r. r.created_at < row.created_at) rows
      → (rest : List ApiKeyDto) × (list_api_keys ordered (rows ++ row ∷ [])
          ≡ to_dto (entity_from_row row) ∷ rest)
  unfolding list_api_keys list_all
  list_api_keys-append row rows older =
      let d = sound.permuted (rows ++ row ∷ []) in
      let (rest, eq) =
        newest row (ordered (rows ++ row ∷ [])) (sound.newest_first (rows ++ row ∷ []))
          (Any-Permᴰ (λ r. r ≡ row) d (Any-append_last (λ r. r ≡ row) rows row refl))
          (All-Permᴰ (λ r. (r ≡ row) ⊎ (r.created_at < row.created_at)) d
            (All-append_last (λ r. (r ≡ row) ⊎ (r.created_at < row.created_at)) rows row
              (either row rows older) (inl refl))) in
      (map to_dto (map entity_from_row rest), ap (λ rs. map to_dto (map entity_from_row rs)) eq)

  -- A key that is created after all others heads the listing, active and never used.
  pub list_api_keys-create_api_key :
      (hash : Text → Text) (now id : ℕ) (token name raw : Text) (rows rows' : List ApiKeyRow)
      → All (λ r. r.created_at < now) rows
      → create_api_key hash now id token name rows ≡ ok (raw, rows')
      → (d : ApiKeyDto) × (rest : List ApiKeyDto) × (list_api_keys ordered rows' ≡ d ∷ rest)
        × (d.id ≡ id)
        × (d.created_at ≡ now)
        × (d.is_active ≡ true)
        × (d.last_used_at ≡ none)
  unfolding to_dto
  list_api_keys-create_api_key hash now id token name raw rows rows' older h =
      let (_, _, eq) = create_api_key-eq hash now id token name raw rows rows' h in
      let (rest, listed) = list_api_keys-append (new_key hash now id token name) rows older in
      (
        to_dto (entity_from_row (new_key hash now id token name)),
        rest,
        rw eq listed,
        refl,
        refl,
        refl,
        refl,
      )
