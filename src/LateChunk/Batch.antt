-- ===== src/LateChunk/Batch.antt =====
-- `batch_chunks` of late_chunk_enhancer.py
pub mod Laws
use rag_document_processor.Prelude.{
  ℕ, zero, suc, ◌+◌, Bool, true, false, ◌&&◌, List, [], ◌∷◌, ◌++◌, ltb, if◌then◌else◌,
}
use rag_document_processor.Prelude.Int.{ℤ, pos, negsuc}
use rag_document_processor.Prelude.Text.{Text, codes, nonempty, strip}
use rag_document_processor.Domain.Exceptions.{Result, ok, err, value_error}

abbrev pub has_items {ℓ} : {A : Type ℓ} → List A → Bool
has_items [] = false
has_items (x ∷ xs) = true

module _ (count_tokens : Text → ℕ) where
  -- The loop and the `if current` after it: the batches from here on.
  unfoldable pub batch_loop : ℕ → List Text → ℕ → List Text → List (List Text)
  unfolding strip
  batch_loop max_batch_tokens current current_tokens [] =
      if has_items current then current ∷ [] else []
  batch_loop max_batch_tokens current current_tokens (chunk ∷ chunks) =
      let skipped = batch_loop max_batch_tokens current current_tokens chunks in
      let tokens = count_tokens chunk in
      let fresh = current ∷ batch_loop max_batch_tokens (chunk ∷ []) tokens chunks in
      let grown =
        batch_loop max_batch_tokens (current ++ chunk ∷ []) (current_tokens + tokens) chunks in
      if nonempty (strip chunk)
      then (if has_items current && ltb max_batch_tokens (current_tokens + tokens)
          then fresh
          else grown)
      else skipped

  unfoldable pub batch_chunks : ℤ → List Text → Result (List (List Text))
  unfolding batch_loop
  batch_chunks (negsuc n) chunks = err (value_error (codes "max_batch_tokens must be >= 1"))
  batch_chunks (pos zero) chunks = err (value_error (codes "max_batch_tokens must be >= 1"))
  batch_chunks (pos (suc n)) chunks = ok (batch_loop (suc n) [] 0 chunks)
