-- ===== src/LateChunk/Enhance.antt =====
-- `_split_oversized` and `enhance_chunks` of late_chunk_enhancer.py
pub mod Content
use rag_document_processor.Prelude.{ℕ, List, [], ◌∷◌, ◌++◌, if◌then◌else◌}
use rag_document_processor.Prelude.Int.{ℤ, pos, le_ℤ}
use rag_document_processor.Prelude.Text.{Text, nonempty, strip}
use rag_document_processor.Domain.Exceptions.{Result, ok, ◌>>=◌}
use rag_document_processor.LateChunk.Sentences.{sentences, dedupe_adjacent}
use rag_document_processor.LateChunk.Merge.{merge_segments}

-- the default of `join_with`, which `_split_oversized` uses
abbrev pub newline : Text
newline = 10 ∷ []

module _ (count_tokens : Text → ℕ) where
  -- `if len(parts) <= 1`
  abbrev pub split_parts : ℤ → Text → List Text → Result (List Text)
  split_parts max_tokens chunk [] = ok (chunk ∷ [])
  split_parts max_tokens chunk (p ∷ []) = ok (chunk ∷ [])
  split_parts max_tokens chunk (p ∷ q ∷ parts) =
      merge_segments count_tokens newline (pos 1) max_tokens (p ∷ q ∷ parts)

  unfoldable pub split_oversized : ℤ → Text → Result (List Text)
  unfolding merge_segments sentences
  split_oversized max_tokens chunk =
      if le_ℤ (pos (count_tokens chunk)) max_tokens
      then ok (chunk ∷ [])
      else split_parts max_tokens chunk (sentences chunk)

  -- The loop over the chunks: a blank chunk is passed over, any other is trimmed and split.
  unfoldable pub expand : ℤ → List Text → Result (List Text)
  unfolding split_oversized strip
  expand max_tokens [] = ok []
  expand max_tokens (chunk ∷ chunks) =
      let rest = expand max_tokens chunks in
      if nonempty (strip chunk)
      then (split_oversized max_tokens (strip chunk) >>= λ parts.
          rest >>= λ more. ok (parts ++ more))
      else rest

  unfoldable pub enhance_chunks : ℤ → ℤ → Text → List Text → Result (List Text)
  unfolding expand dedupe_adjacent merge_segments
  enhance_chunks min_tokens max_tokens join_with chunks = do
    expanded ← expand max_tokens chunks
    merge_segments count_tokens join_with min_tokens max_tokens (dedupe_adjacent expanded)
