-- ===== src/LateChunk/Merge/Content.antt =====
-- `merge_segments` neither loses, nor repeats, nor reorders text.
use mathlib.Core.List.{append-nil, append_assoc}
use rag_document_processor.Prelude.{
  ℕ, zero, suc, ◌+◌, sym, ◌≡◌, refl, ◌∙◌, inl, inr, List, [], ◌∷◌, ◌++◌, Bool-cases, ltb,
}
use rag_document_processor.Prelude.Int.{ℤ, pos, negsuc}
use rag_document_processor.Prelude.Text.{Text, nonempty, strip}
use rag_document_processor.Prelude.Text.Laws.{
  squeeze, squeeze-append, squeeze-nil, squeeze-strip, squeeze_of_blank, concat,
}
use rag_document_processor.Domain.Exceptions.{ok}
use rag_document_processor.LateChunk.Sentences.{clean}
use rag_document_processor.LateChunk.Merge.Steps.{
  MergeStep-cases, merge_loop-extend, merge_loop-finish, merge_loop-force,
}
use rag_document_processor.LateChunk.Merge.{
  merge_step, join_two, merge_loop, merge_tail, merge_clean, merge_checked, merge_segments,
}

pub squeeze-concat_cons :
    (s : Text) (ss : List Text) → squeeze (concat (s ∷ ss)) ≡ squeeze s ++ squeeze (concat ss)
squeeze-concat_cons s ss = squeeze-append s (concat ss)

pub squeeze-concat-append :
    (ss ts : List Text) → squeeze (concat (ss ++ ts)) ≡ squeeze (concat ss) ++ squeeze (concat ts)
squeeze-concat-append [] ts = rw squeeze-nil
squeeze-concat-append (s ∷ ss) ts = simp (squeeze-append, squeeze-concat-append ss ts, append_assoc)

pub squeeze-clean : (ps : List Text) → squeeze (concat (clean ps)) ≡ squeeze (concat ps)
unfolding clean
squeeze-clean [] = refl
squeeze-clean (p ∷ ps) = elim (Bool-cases (nonempty (strip p))) [
  | inl full ↦ rw full (simp (squeeze-append, squeeze-strip, squeeze-clean ps))
  | inr blank ↦ rw blank (simp (squeeze-append, squeeze_of_blank p blank, squeeze-clean ps))
]

module _ (count_tokens : Text → ℕ) (join_with : Text) (space : squeeze join_with ≡ [])
    (min_tokens max_tokens : ℕ) where
  squeeze-merge_loop :
      (current : Text) (n : ℕ) (segs : List Text)
      → squeeze (concat (merge_loop count_tokens join_with min_tokens max_tokens current n segs))
        ≡ squeeze current ++ squeeze (concat segs)
  squeeze-merge_loop [] n [] = unfold merge_loop in rw (squeeze-nil)
  squeeze-merge_loop (c ∷ current) n [] = unfold merge_loop in squeeze-concat_cons (c ∷ current) []
  squeeze-merge_loop current n (seg ∷ segs) =
      elim (MergeStep-cases (merge_step min_tokens max_tokens n (count_tokens seg))) [
        | inl e ↦
            rw (merge_loop-extend count_tokens join_with min_tokens max_tokens current n seg segs e)
              (rw (squeeze-merge_loop (join_two join_with current seg) (n + count_tokens seg) segs)
                (simp (squeeze-append, space, append_assoc)))
        | inr (inl e) ↦
            rw (merge_loop-finish count_tokens join_with min_tokens max_tokens current n seg segs e)
              (simp (squeeze-append, squeeze-merge_loop seg (count_tokens seg) segs))
        | inr (inr e) ↦
            rw (merge_loop-force count_tokens join_with min_tokens max_tokens current n seg segs e)
              (simp
                (squeeze-append, space, squeeze-merge_loop [] 0 segs, squeeze-nil, append_assoc))
      ]

  squeeze-merge_tail :
      (chunks : List Text)
      → squeeze (concat (merge_tail count_tokens join_with min_tokens max_tokens chunks))
        ≡ squeeze (concat chunks)
  unfolding merge_tail
  squeeze-merge_tail [] = refl
  squeeze-merge_tail (a ∷ []) = refl
  squeeze-merge_tail (a ∷ b ∷ []) = elim (Bool-cases (ltb (count_tokens b) min_tokens)) [
    | inl p ↦ rw p (simp (squeeze-append, space, append-nil))
    | inr p ↦ rw p
  ]
  squeeze-merge_tail (a ∷ b ∷ c ∷ rest) = simp (squeeze-append, squeeze-merge_tail (b ∷ c ∷ rest))

  squeeze-merge_clean :
      (segs : List Text)
      → squeeze (concat (merge_clean count_tokens join_with min_tokens max_tokens segs))
        ≡ squeeze (concat segs)
  unfolding merge_clean
  squeeze-merge_clean [] = refl
  squeeze-merge_clean (seg ∷ segs) =
      squeeze-merge_tail
        (merge_loop count_tokens join_with min_tokens max_tokens seg (count_tokens seg) segs)
      ∙ (squeeze-merge_loop seg (count_tokens seg) segs ∙ sym (squeeze-concat_cons seg segs))

squeeze-merge_checked :
    (count_tokens : Text → ℕ) (join_with : Text) (min_tokens max_tokens : ℤ) (segs : List Text)
    {chunks : List Text}
    → squeeze join_with ≡ []
    → merge_checked count_tokens join_with min_tokens max_tokens segs ≡ ok chunks
    → squeeze (concat chunks) ≡ squeeze (concat segs)
unfolding merge_checked
squeeze-merge_checked count join lo hi [] space h = cc
squeeze-merge_checked count join lo (negsuc n) (seg ∷ segs) space h = cc
squeeze-merge_checked count join lo (pos zero) (seg ∷ segs) space h = cc
squeeze-merge_checked count join (negsuc n) (pos (suc m)) (seg ∷ segs) space h = cc
squeeze-merge_checked count join (pos n) (pos (suc m)) (seg ∷ segs) space h =
    cc (squeeze-merge_clean count join space n (suc m) (seg ∷ segs))

-- The chunks hold the code points of the segments that are no spaces, each once and in order,
-- whatever the token counter and the bounds, if the text that joins segments is made of spaces.
pub squeeze-merge_segments :
    (count_tokens : Text → ℕ) (join_with : Text) (min_tokens max_tokens : ℤ) (segments : List Text)
    {chunks : List Text}
    → squeeze join_with ≡ []
    → merge_segments count_tokens join_with min_tokens max_tokens segments ≡ ok chunks
    → squeeze (concat chunks) ≡ squeeze (concat segments)
unfolding merge_segments
squeeze-merge_segments count join lo hi segments space h =
    squeeze-merge_checked count join lo hi (clean segments) space h ∙ squeeze-clean segments

merge_checked_total :
    (count : Text → ℕ) (join_with : Text) (n m : ℕ) (segs : List Text)
    → (out : List Text) × (merge_checked count join_with (pos n) (pos (suc m)) segs ≡ ok out)
unfolding merge_checked
merge_checked_total count join n m [] = ([], refl)
merge_checked_total count join n m (seg ∷ segs) =
    (merge_clean count join n (suc m) (seg ∷ segs), refl)

pub merge_segments_total :
    (count : Text → ℕ) (join_with : Text) (n m : ℕ) (segs : List Text)
    → (out : List Text) × (merge_segments count join_with (pos n) (pos (suc m)) segs ≡ ok out)
unfolding merge_segments
merge_segments_total count join n m segs = merge_checked_total count join n m (clean segs)
