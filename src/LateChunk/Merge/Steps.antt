-- ===== src/LateChunk/Merge/Steps.antt =====
-- The loop of `merge_segments`, one equation for each of its three steps.
use rag_document_processor.Prelude.{ℕ, ◌+◌, ◌≡◌, refl, inl, inr, ◌⊎◌, List, [], ◌∷◌, arith}
use rag_document_processor.Prelude.Text.{Text}
use rag_document_processor.LateChunk.Merge.{
  MergeStep, extend, finish, force, merge_step, join_two, merge_loop,
}

pub MergeStep-cases : (s : MergeStep) → (s ≡ extend) ⊎ ((s ≡ finish) ⊎ (s ≡ force))
MergeStep-cases extend = inl refl
MergeStep-cases finish = inr (inl refl)
MergeStep-cases force = inr (inr refl)

module _ (count_tokens : Text → ℕ) (join_with : Text) (min_tokens max_tokens : ℕ) (current : Text)
    (n : ℕ) (seg : Text) (segs : List Text) where
  abbrev step : MergeStep
  step = merge_step min_tokens max_tokens n (count_tokens seg)

  abbrev loop : Text → ℕ → List Text → List Text
  loop = merge_loop count_tokens join_with min_tokens max_tokens

  pub merge_loop-extend :
      step ≡ extend
      → merge_loop count_tokens join_with min_tokens max_tokens current n (seg ∷ segs)
        ≡ loop (join_two join_with current seg) (n + count_tokens seg) segs
  unfolding merge_loop
  merge_loop-extend e = ground arith

  pub merge_loop-finish :
      step ≡ finish → loop current n (seg ∷ segs) ≡ current ∷ loop seg (count_tokens seg) segs
  unfolding merge_loop
  merge_loop-finish e = ground arith

  pub merge_loop-force :
      step ≡ force → loop current n (seg ∷ segs) ≡ join_two join_with current seg ∷ loop [] 0 segs
  unfolding merge_loop
  merge_loop-force e = ground arith
