-- ===== src/Storage.antt =====
-- infrastructure/storage/local_blob_storage.py. The files under the base folder are a parameter: a path
-- is written relative to it, and a write makes the folders that are missing.
pub mod Laws
pub mod Bucket
use rag_document_processor.Prelude.{
  ℕ, ◌≡◌, ◌≢◌, Bool, true, false, ◌&&◌, ◌||◌, List, [], ◌∷◌, ◌==◌, if◌then◌else◌,
}
use rag_document_processor.Prelude.Text.{Text, codes, before}
use rag_document_processor.Domain.Exceptions.{Result, ok, err, ◌>>=◌}

-- key.replace("..", "")
unfoldable pub strip_dots : Text → Text
strip_dots [] = []
strip_dots (c ∷ []) = c ∷ []
strip_dots (c ∷ d ∷ s) =
    let rest = strip_dots (d ∷ s) in
    let skipped = strip_dots s in if c == 46 && d == 46 then skipped else c ∷ rest

-- .lstrip("/\\")
unfoldable pub strip_slashes : Text → Text
strip_slashes [] = []
strip_slashes (c ∷ s) = let rest = strip_slashes s in if c == 47 || c == 92 then rest else c ∷ s

-- `_path`, below the base folder
unfoldable pub safe_path : Text → Text
unfolding strip_dots strip_slashes
safe_path key = strip_slashes (strip_dots key)

pub record Files : Type 1 where
  pub State : Type 0
  pub write : Text → List ℕ → State → Result State
  pub read : Text → State → Result (List ℕ)
  pub exists : Text → State → Bool
  pub unlink : Text → State → Result State

-- What a file system promises: what was written is read again, and a write concerns no file below
-- another folder.
pub record IsFiles (F : Files) : Type 0 where
  pub read-write :
      {path : Text} {data_ : List ℕ} {s t : F.State}
      → F.write path data_ s ≡ ok t
      → F.read path t ≡ ok data_
  pub read-write_ne :
      {path other : Text} {data_ : List ℕ} {s t : F.State}
      → F.write path data_ s ≡ ok t
      → before 47 other ≢ before 47 path
      → F.read other t ≡ F.read other s

module _ (F : Files) where
  unfoldable pub put : Text → List ℕ → F.State → Result F.State
  put key data_ s = F.write (safe_path key) data_ s

  unfoldable pub get_bytes : Text → F.State → Result (List ℕ)
  get_bytes key s = F.read (safe_path key) s

  unfoldable pub delete : Text → F.State → Result F.State
  delete key s =
      let gone = F.unlink (safe_path key) s in if F.exists (safe_path key) s then gone else ok s
