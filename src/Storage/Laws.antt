-- ===== src/Storage/Laws.antt =====
-- Where a blob goes, and that the blobs of two jobs do not meet.
use Prim.Native.Nat.{◌%◌, ◌/◌, ◌^◌}
use rag_document_processor.Prelude.{
  ℕ, zero, suc, ◌+◌, ◌<◌, ◌≡◌, ◌≢◌, refl, sym, ap, ◌∙◌, false, Option, List, [], ◌∷◌, ◌++◌, ◌==◌,
  ltb, if◌then◌else◌, arith, All, All-append, Bool-cases, inl, inr,
}
use rag_document_processor.Prelude.Text.{Text, codes, before, contains, starts_with, or_text}
use rag_document_processor.Prelude.Uuid.{uuid_count, hex_digits, uuid_text}
use rag_document_processor.Prelude.Uuid.Laws.{uuid_text-eq}
use rag_document_processor.Domain.Exceptions.{ok}
use rag_document_processor.Ingest.Submit.{blob_key_of}
use rag_document_processor.Storage.{
  strip_dots, strip_slashes, safe_path, Files, IsFiles, put, get_bytes,
}

strip_dots-cons : (c : ℕ) (s : Text) → (c == 46) ≡ false → strip_dots (c ∷ s) ≡ c ∷ strip_dots s
unfolding strip_dots
strip_dots-cons c [] other = refl
strip_dots-cons c (d ∷ s) other = rw other refl

contains-strip_dots : (s : Text) → contains (strip_dots s) (46 ∷ 46 ∷ []) ≡ false
unfolding strip_dots contains starts_with
contains-strip_dots [] = refl
contains-strip_dots (c ∷ []) = ground arith
contains-strip_dots (c ∷ d ∷ s) = elim (Bool-cases (d == 46)) [
  | inl dot ↦ ground (arith, dot, contains-strip_dots s, contains-strip_dots (d ∷ s))
  | inr no_dot ↦ ground (arith, no_dot, strip_dots-cons d s no_dot, contains-strip_dots (d ∷ s))
]

contains-strip_slashes : (t s : Text) → contains t s ≡ false → contains (strip_slashes t) s ≡ false
unfolding strip_slashes contains
contains-strip_slashes [] s h = h
contains-strip_slashes (c ∷ t) s h = ground (arith, h, contains-strip_slashes t s)

first-strip_slashes :
    (t : Text)
    → (starts_with (strip_slashes t) (47 ∷ []) ≡ false)
      × (starts_with (strip_slashes t) (92 ∷ []) ≡ false)
unfolding strip_slashes starts_with
first-strip_slashes [] = (refl, refl)
first-strip_slashes (c ∷ t) = ground (arith, first-strip_slashes t)

-- Whatever the key, the path below the base folder has no ".." in it and begins with neither slash: it
-- leads nowhere outside that folder.
pub safe_path-Confined :
    (key : Text)
    → (contains (safe_path key) (codes "..") ≡ false)
      × (starts_with (safe_path key) (codes "/") ≡ false)
      × (starts_with (safe_path key) (codes "\\") ≡ false)
unfolding safe_path
safe_path-Confined key =
    let (slash, backslash) = first-strip_slashes (strip_dots key) in
    (
      contains-strip_slashes (strip_dots key) (46 ∷ 46 ∷ []) (contains-strip_dots key),
      slash,
      backslash,
    )

-- Neither a dot nor a slash
abbrev Plain : ℕ → Type 0
Plain c = ((c == 46) ≡ false) × ((c == 47) ≡ false) × ((c == 92) ≡ false)

digit-Plain : (d : ℕ) → d < 16 → Plain (if ltb d 10 then d + 48 else d + 87)
digit-Plain d small = ground (arith, small)

hex_digits-Plain : (width n : ℕ) → All Plain (hex_digits width n)
unfolding hex_digits
hex_digits-Plain zero n = tt
hex_digits-Plain (suc width) n =
    All-append Plain (hex_digits width (n / 16)) _ (hex_digits-Plain width (n / 16))
      (digit-Plain (n % 16) (omega arith), tt)

dashed :
    (a b c d e : Text)
    → All Plain a
    → All Plain b
    → All Plain c
    → All Plain d
    → All Plain e
    → All Plain (a ++ 45 ∷ (b ++ 45 ∷ (c ++ 45 ∷ (d ++ 45 ∷ e))))
dashed a b c d e pa pb pc pd pe = All-append Plain a _ pa (
  dash,
  All-append Plain b _ pb
      (dash, All-append Plain c _ pc (dash, All-append Plain d _ pd (dash, pe))),
)
  where
    dash : Plain 45
    dash = (refl, refl, refl)

uuid_text-Plain : (id : ℕ) → All Plain (uuid_text id)
unfolding uuid_text
uuid_text-Plain id =
    dashed (hex_digits 8 (id / 16 ^ 24)) (hex_digits 4 (id / 16 ^ 20)) (hex_digits 4 (id / 16 ^ 16))
      (hex_digits 4 (id / 16 ^ 12)) (hex_digits 12 id) (hex_digits-Plain 8 _) (hex_digits-Plain 4 _)
      (hex_digits-Plain 4 _) (hex_digits-Plain 4 _) (hex_digits-Plain 12 _)

uuid_text-cons : (id : ℕ) → (c : ℕ) × (s : Text) × (uuid_text id ≡ c ∷ s)
unfolding uuid_text
uuid_text-cons id = (_, _, refl)

strip_dots-Plain : (u t : Text) → All Plain u → strip_dots (u ++ t) ≡ u ++ strip_dots t
strip_dots-Plain [] t h = refl
strip_dots-Plain (c ∷ u) t ((no_dot, no_slash, no_backslash), h) =
    strip_dots-cons c (u ++ t) no_dot ∙ ap (λ (r : Text). c ∷ r) (strip_dots-Plain u t h)

strip_slashes-Plain : (c : ℕ) (s : Text) → Plain c → strip_slashes (c ∷ s) ≡ c ∷ s
unfolding strip_slashes
strip_slashes-Plain c s (dot, slash, backslash) = rw (slash, backslash) refl

before-Plain : (u t : Text) → All Plain u → before 47 (u ++ 47 ∷ t) ≡ u
unfolding before
before-Plain [] t h = refl
before-Plain (c ∷ u) t ((dot, slash, backslash), h) = rw (slash, before-Plain u t h) refl

safe_path-Plain :
    (c : ℕ) (u f : Text)
    → All Plain (c ∷ u)
    → safe_path ((c ∷ u) ++ 47 ∷ f) ≡ (c ∷ u) ++ 47 ∷ strip_dots f
unfolding safe_path
safe_path-Plain c u f (p, h) =
    ap strip_slashes (
      strip_dots-Plain (c ∷ u) (47 ∷ f) (p, h)
      ∙ ap (λ (r : Text). (c ∷ u) ++ r) (strip_dots-cons 47 f refl))
    ∙ strip_slashes-Plain c (u ++ 47 ∷ strip_dots f) p

-- The blob of a job lies in the folder that its id names.
safe_path-folder :
    (id : ℕ) (f : Text) → before 47 (safe_path (uuid_text id ++ 47 ∷ f)) ≡ uuid_text id
safe_path-folder id f = go (uuid_text id) (uuid_text-cons id) (uuid_text-Plain id)
  where
    go :
        (u : Text)
        → (c : ℕ) × (s : Text) × (u ≡ c ∷ s)
        → All Plain u
        → before 47 (safe_path (u ++ 47 ∷ f)) ≡ u
    go [] (c, s, e) h = cc
    go (c ∷ u) e h =
        ap (before 47) (safe_path-Plain c u f h) ∙ before-Plain (c ∷ u) (strip_dots f) h

module _ (F : Files) (sound : IsFiles F) where
  -- Over files that keep what is written, in folders that do not meet: a blob that was put under the
  -- key of a job is read back under it, and the blob of any other job reads as it did, whatever the
  -- two file names are. Both ids are UUIDs.
  pub get_bytes-put :
      (job_id other_id : ℕ) (filename other : Option Text) (data_ : List ℕ) (s t : F.State)
      → put F (blob_key_of job_id filename) data_ s ≡ ok t
      → job_id < uuid_count
      → other_id < uuid_count
      → other_id ≢ job_id
      → (get_bytes F (blob_key_of job_id filename) t ≡ ok data_)
        × (get_bytes F (blob_key_of other_id other) t ≡ get_bytes F (blob_key_of other_id other) s)
  unfolding put get_bytes blob_key_of
  get_bytes-put job_id other_id filename other data_ s t stored small small' apart =
      let mine = or_text filename (codes "upload") in
      let theirs = or_text other (codes "upload") in
      (
        sound.read-write stored,
        sound.read-write_ne stored (λ same. apart (
            uuid_text-eq other_id job_id small' small
              (sym (safe_path-folder other_id theirs) ∙ (same ∙ safe_path-folder job_id mine)))),
      )
