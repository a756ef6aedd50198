-- ===== src/Storage/Bucket.antt =====
-- infrastructure/storage/s3_blob_storage.py. The client of S3 is a parameter; the flag is the field
-- `_bucket_ready` of the storage, and each operation opens a client of its own.
use rag_document_processor.Prelude.{
  ℕ, ◌≡◌, refl, Bool, true, false, List, [], ◌∷◌, if◌then◌else◌, inl, inr, Bool-cases, ap, sym, ◌∙◌,
}
use rag_document_processor.Prelude.Text.{Text, codes, one_of}
use rag_document_processor.Domain.Exceptions.{Error, Result, ok, err, ◌>>=◌, other_error, >>=-eq-ok}

-- How a request ends: well, with a `ClientError` of this code, or with another exception.
pub data Reply (A : Type 0) : Type 0 where
  done : A → Reply A
  client_error : Text → Reply A
  raised : Error → Reply A

pub record Client : Type 1 where
  pub State : Type 0
  pub head_bucket : State → Reply (Unit {0})
  pub create_bucket : State → Reply State
  -- the key, the data and the content type
  pub put_object : Text → List ℕ → Text → State → Result State
  pub get_object : Text → State → Result (List ℕ)
  pub delete_object : Text → State → Result State

module _ (S : Client) where
  abbrev pub Storage : Type 0
  Storage = Bool × S.State

  -- Another process may have made the bucket in the meantime.
  abbrev pub made_by_another : Text → S.State → Result Storage
  made_by_another code s =
      if one_of code (codes "BucketAlreadyOwnedByYou" ∷ codes "BucketAlreadyExists" ∷ [])
      then ok (true, s)
      else err (other_error (codes "ClientError"))

  unfoldable pub make_bucket : S.State → Result Storage
  make_bucket s = elim (S.create_bucket s) [
    | done t ↦ ok (true, t)
    | client_error code ↦ made_by_another code s
    | raised e ↦ err e
  ]

  -- `_ensure_bucket`
  unfoldable pub ensure_bucket : Storage → Result Storage
  unfolding make_bucket
  ensure_bucket (true, s) = ok (true, s)
  ensure_bucket (false, s) = elim (S.head_bucket s) [
    | done u ↦ ok (true, s)
    | client_error code ↦ make_bucket s
    | raised e ↦ err e
  ]

  abbrev pub kept : Storage → Result S.State → Result Storage
  kept (ready, s) (ok t) = ok (ready, t)
  kept (ready, s) (err e) = err e

  unfoldable pub put_blob : Text → List ℕ → Text → Storage → Result Storage
  put_blob key data_ content_type storage =
      ensure_bucket storage >>= λ ready. kept ready (S.put_object key data_ content_type ready.1)

  unfoldable pub get_blob : Text → Storage → Result (List ℕ)
  get_blob key storage = ensure_bucket storage >>= λ ready. S.get_object key ready.1

  unfoldable pub delete_blob : Text → Storage → Result Storage
  delete_blob key storage =
      ensure_bucket storage >>= λ ready. kept ready (S.delete_object key ready.1)

  first_ok : {a b : Storage} → ok a ≡ ok b → a.0 ≡ true → b.0 ≡ true
  first_ok {a} {b} h k = ap (λ (p : Storage). p.0) (sym same) ∙ k
    where
      same : a ≡ b
      same = cc

  made_by_another-ready :
      (code : Text) (s : S.State) (ready : Storage)
      → made_by_another code s ≡ ok ready
      → ready.0 ≡ true
  made_by_another-ready code s ready h =
      elim (Bool-cases
        (one_of code (codes "BucketAlreadyOwnedByYou" ∷ codes "BucketAlreadyExists" ∷ []))) [
          | inl there ↦ first_ok (rw there at h) refl
          | inr other ↦ cc (rw other at h)
        ]

  make_bucket-ready : (s : S.State) (ready : Storage) → make_bucket s ≡ ok ready → ready.0 ≡ true
  unfolding make_bucket
  make_bucket-ready s ready h = go (S.create_bucket s) refl
    where
      go : (r : Reply S.State) → S.create_bucket s ≡ r → ready.0 ≡ true
      go (done t) e = first_ok (rw (e, make_bucket) at h) refl
      go (client_error code) e = made_by_another-ready code s ready (rw (e, make_bucket) at h)
      go (raised x) e = cc (rw (e, make_bucket) at h)

  ensure_bucket-ready :
      (storage ready : Storage) → ensure_bucket storage ≡ ok ready → ready.0 ≡ true
  unfolding ensure_bucket
  ensure_bucket-ready (true, s) ready h = first_ok h refl
  ensure_bucket-ready (false, s) ready h = go (S.head_bucket s) refl
    where
      go : (r : Reply (Unit {0})) → S.head_bucket s ≡ r → ready.0 ≡ true
      go (done u) e = first_ok (rw (e, ensure_bucket) at h) refl
      go (client_error code) e = make_bucket-ready s ready (rw (e, ensure_bucket) at h)
      go (raised x) e = cc (rw (e, ensure_bucket) at h)

-- What S3 promises: an object that was put is there.
pub record IsClient (S : Client) : Type 0 where
  pub get-put :
      {key : Text} {data_ : List ℕ} {content_type : Text} {s t : S.State}
      → S.put_object key data_ content_type s ≡ ok t
      → S.get_object key t ≡ ok data_

module _ (S : Client) (sound : IsClient S) where
  kept-ok :
      (ready after : Storage S) (r : Result S.State)
      → kept S ready r ≡ ok after
      → (t : S.State) × (r ≡ ok t) × (after ≡ (ready.0, t))
  kept-ok ready after (ok t) h = (t, refl, cc)
  kept-ok ready after (err e) h = cc

  -- A blob that was put is read back, and the bucket is looked for no more.
  pub get_blob-put_blob :
      (key : Text) (data_ : List ℕ) (content_type : Text) (storage after : Storage S)
      → put_blob S key data_ content_type storage ≡ ok after
      → (get_blob S key after ≡ ok data_) × (after.0 ≡ true)
  unfolding put_blob get_blob ensure_bucket
  get_blob-put_blob key data_ content_type storage after h =
      let (ready, ensured, rest) =
        >>=-eq-ok (ensure_bucket S storage)
          (λ ready. kept S ready (S.put_object key data_ content_type ready.1)) h in
      let (t, stored, same) =
        kept-ok ready after (S.put_object key data_ content_type ready.1) rest in
      let now : after ≡ (true, t) =
        same ∙ ap (λ (b : Bool). (b, t)) (ensure_bucket-ready S storage ready ensured) in
      rw now (sound.get-put stored, refl)
