-- ===== src/LateChunk/Merge.antt =====
-- `merge_segments` of late_chunk_enhancer.py
pub mod Steps
pub mod Content
pub mod Bounds
use rag_document_processor.Prelude.{
  ℕ, zero, suc, ◌+◌, Bool, ◌&&◌, List, [], ◌∷◌, ◌++◌, ltb, leb, if◌then◌else◌,
}
use rag_document_processor.Prelude.Int.{ℤ, pos, negsuc}
use rag_document_processor.Prelude.Text.{Text, codes, nonempty}
use rag_document_processor.Domain.Exceptions.{Result, ok, err, value_error}
use rag_document_processor.LateChunk.Sentences.{clean}

-- What the loop does with the next segment.
pub data MergeStep : Type 0 where
  extend finish force : MergeStep

unfoldable pub merge_step : ℕ → ℕ → ℕ → ℕ → MergeStep
merge_step min_tokens max_tokens current_tokens seg_tokens =
    if leb (current_tokens + seg_tokens) max_tokens
    then extend
    else if leb min_tokens current_tokens
    then finish
    else force

-- f"{a}{join_with}{b}"
abbrev pub join_two : Text → Text → Text → Text
join_two join_with a b = a ++ (join_with ++ b)

module _ (count_tokens : Text → ℕ) (join_with : Text) (min_tokens max_tokens : ℕ) where
  -- The loop and the `if current` after it: the chunks from here on.
  unfoldable pub merge_loop : Text → ℕ → List Text → List Text
  unfolding merge_step
  merge_loop current current_tokens [] = if nonempty current then current ∷ [] else []
  merge_loop current current_tokens (seg ∷ segs) =
      elim (merge_step min_tokens max_tokens current_tokens (count_tokens seg)) [
        | extend ↦
            merge_loop (join_two join_with current seg) (current_tokens + count_tokens seg) segs
        | finish ↦ current ∷ merge_loop seg (count_tokens seg) segs
        | force ↦ join_two join_with current seg ∷ merge_loop [] 0 segs
      ]

  -- A last chunk below the minimum goes into the one before it.
  unfoldable pub merge_tail : List Text → List Text
  merge_tail [] = []
  merge_tail (a ∷ []) = a ∷ []
  merge_tail (a ∷ b ∷ []) =
      if ltb (count_tokens b) min_tokens then join_two join_with a b ∷ [] else a ∷ b ∷ []
  merge_tail (a ∷ b ∷ c ∷ rest) = a ∷ merge_tail (b ∷ c ∷ rest)

  unfoldable pub merge_clean : List Text → List Text
  unfolding merge_loop merge_tail
  merge_clean [] = []
  merge_clean (seg ∷ segs) = merge_tail (merge_loop seg (count_tokens seg) segs)

-- The two checks, which come after the return for no segments.
unfoldable pub merge_checked : (Text → ℕ) → Text → ℤ → ℤ → List Text → Result (List Text)
unfolding merge_clean
merge_checked count_tokens join_with min_tokens max_tokens [] = ok []
merge_checked count_tokens join_with min_tokens (negsuc n) (seg ∷ segs) =
    err (value_error (codes "max_tokens must be >= 1"))
merge_checked count_tokens join_with min_tokens (pos zero) (seg ∷ segs) =
    err (value_error (codes "max_tokens must be >= 1"))
merge_checked count_tokens join_with (negsuc n) (pos (suc m)) (seg ∷ segs) =
    err (value_error (codes "min_tokens must be >= 0"))
merge_checked count_tokens join_with (pos n) (pos (suc m)) (seg ∷ segs) =
    ok (merge_clean count_tokens join_with n (suc m) (seg ∷ segs))

unfoldable pub merge_segments : (Text → ℕ) → Text → ℤ → ℤ → List Text → Result (List Text)
unfolding merge_checked clean
merge_segments count_tokens join_with min_tokens max_tokens segments =
    merge_checked count_tokens join_with min_tokens max_tokens (clean segments)
