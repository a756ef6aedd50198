-- ===== src/LateChunk/Batch/Laws.antt =====
-- `batch_chunks` keeps every chunk in order, keeps to the budget, and starts a batch only when the
-- next chunk no longer fits.
use mathlib.Core.List.{append_assoc}
use rag_document_processor.Prelude.{
  ℕ, suc, ◌+◌, ◌≤◌, ◌<◌, ◌≡◌, refl, ◌∙◌, ap, inl, inr, ◌⊎◌, Bool, true, false, ◌&&◌, List, [], ◌∷◌,
  ◌++◌, arith, Bool-cases, ltb, length, keep, concat, All,
}
use rag_document_processor.Prelude.Int.{pos}
use rag_document_processor.Prelude.Text.{Text, nonempty, strip}
use rag_document_processor.Domain.Exceptions.{ok}
use rag_document_processor.LateChunk.Batch.{has_items, batch_loop, batch_chunks}

-- `chunk.strip()` is not empty
abbrev pub is_full : Text → Bool
is_full chunk = nonempty (strip chunk)

module _ (count_tokens : Text → ℕ) where
  abbrev pub total : List Text → ℕ
  total [] = 0
  total (c ∷ cs) = count_tokens c + total cs

  total-append : (xs ys : List Text) → total (xs ++ ys) ≡ total xs + total ys
  total-append [] ys = omega arith
  total-append (x ∷ xs) ys = omega (arith, total-append xs ys)

  -- One step of the loop: a blank chunk is passed over, a chunk that would pass the budget of a
  -- batch in progress starts a new one, and any other joins the batch.
  batch_loop-cases :
      (m : ℕ) (current : List Text) (n : ℕ) (chunk : Text) (chunks : List Text)
      → ((is_full chunk ≡ false)
          × (batch_loop count_tokens m current n (chunk ∷ chunks)
              ≡ batch_loop count_tokens m current n chunks))
        ⊎ ((is_full chunk ≡ true)
            × (has_items current ≡ true)
            × (m < n + count_tokens chunk)
            × (batch_loop count_tokens m current n (chunk ∷ chunks)
                ≡ current ∷ batch_loop count_tokens m (chunk ∷ []) (count_tokens chunk) chunks))
        ⊎ ((is_full chunk ≡ true)
            × ((has_items current ≡ false) ⊎ (n + count_tokens chunk ≤ m))
            × (batch_loop count_tokens m current n (chunk ∷ chunks)
                ≡ batch_loop count_tokens m
                    (current ++ chunk ∷ [])
                    (n + count_tokens chunk)
                    chunks))
  unfolding batch_loop
  batch_loop-cases m current n chunk chunks = elim (Bool-cases (is_full chunk)) [
    | inr blank ↦ inl (blank, rw blank)
    | inl full ↦ elim (Bool-cases (has_items current && ltb m (n + count_tokens chunk))) [
      | inl over ↦ inr (inl (full, ground arith, ground arith, rw (full, over)))
      | inr fits ↦ inr (inr (full, ground arith, rw (full, fits)))
    ]
  ]

  concat-batch_loop :
      (m : ℕ) (current : List Text) (n : ℕ) (chunks : List Text)
      → concat (batch_loop count_tokens m current n chunks) ≡ current ++ keep is_full chunks
  concat-batch_loop m [] n [] = unfold batch_loop in refl
  concat-batch_loop m (c ∷ cs) n [] = unfold batch_loop in refl
  concat-batch_loop m current n (chunk ∷ chunks) =
      elim (batch_loop-cases m current n chunk chunks) [
        | inl (blank, e) ↦ rw (e, blank) (concat-batch_loop m current n chunks)
        | inr (inl (full, _, _, e)) ↦
            rw (e, full)
              (ap (λ t. current ++ t)
                (concat-batch_loop m (chunk ∷ []) (count_tokens chunk) chunks))
        | inr (inr (full, _, e)) ↦
            rw (e, full)
              (concat-batch_loop m (current ++ chunk ∷ []) (n + count_tokens chunk) chunks
                ∙ append_assoc current (chunk ∷ []) (keep is_full chunks))
      ]

  -- A batch holds a chunk, and keeps to the budget unless that is its only one.
  abbrev pub Fits : ℕ → List Text → Type 0
  Fits m b = (has_items b ≡ true) × ((total b ≤ m) ⊎ (length b ≡ 1))

  -- The batch in progress is empty or fits.
  abbrev FitsSoFar : ℕ → List Text → Type 0
  FitsSoFar m [] = Unit
  FitsSoFar m (c ∷ cs) = Fits m (c ∷ cs)

  FitsSoFar-Fits :
      (m : ℕ) (current : List Text)
      → has_items current ≡ true
      → FitsSoFar m current
      → Fits m current
  FitsSoFar-Fits m [] some h = cc
  FitsSoFar-Fits m (c ∷ cs) some h = h

  Fits-snoc :
      (m n : ℕ) (current : List Text) (chunk : Text)
      → n ≡ total current
      → (has_items current ≡ false) ⊎ (n + count_tokens chunk ≤ m)
      → FitsSoFar m (current ++ chunk ∷ [])
  Fits-snoc m n [] chunk e h = (refl, inr refl)
  Fits-snoc m n (c ∷ cs) chunk e (inl empty) = cc
  Fits-snoc m n (c ∷ cs) chunk e (inr fits) =
      (refl, inl (omega (arith, total-append (c ∷ cs) (chunk ∷ []))))

  batch_loop-Fits :
      (m : ℕ) (current : List Text) (n : ℕ) (chunks : List Text)
      → n ≡ total current
      → FitsSoFar m current
      → All (Fits m) (batch_loop count_tokens m current n chunks)
  batch_loop-Fits m [] n [] e h = unfold batch_loop in tt
  batch_loop-Fits m (c ∷ cs) n [] e h = unfold batch_loop in (h, tt)
  batch_loop-Fits m current n (chunk ∷ chunks) e h =
      elim (batch_loop-cases m current n chunk chunks) [
        | inl (_, s) ↦ rw s (batch_loop-Fits m current n chunks e h)
        | inr (inl (_, some, _, s)) ↦ rw s (
          FitsSoFar-Fits m current some h,
          batch_loop-Fits m (chunk ∷ []) (count_tokens chunk) chunks (omega arith) (refl, inr refl),
        )
        | inr (inr (_, fits, s)) ↦ rw s (
            batch_loop-Fits m (current ++ chunk ∷ []) (n + count_tokens chunk) chunks
              (omega (arith, total-append current (chunk ∷ [])))
              (Fits-snoc m n current chunk e fits))
      ]

  -- The first chunk of the second batch would have passed the budget of the first.
  abbrev pub Overflows : ℕ → List Text → List Text → Type 0
  Overflows m b [] = ⊥
  Overflows m b (c ∷ cs) = m < total b + count_tokens c

  abbrev pub IsPacked : ℕ → List (List Text) → Type 0
  IsPacked m [] = Unit
  IsPacked m (b ∷ []) = Unit
  IsPacked m (b ∷ b' ∷ bs) = Overflows m b b' × IsPacked m (b' ∷ bs)

  batch_loop-IsPacked_after :
      (m : ℕ) (b : List Text) (c : Text) (cs : List Text) (n : ℕ) (chunks : List Text)
      → n ≡ total (c ∷ cs)
      → m < total b + count_tokens c
      → IsPacked m (b ∷ batch_loop count_tokens m (c ∷ cs) n chunks)
  batch_loop-IsPacked_after m b c cs n [] e h = unfold batch_loop in (h, tt)
  batch_loop-IsPacked_after m b c cs n (chunk ∷ chunks) e h =
      elim (batch_loop-cases m (c ∷ cs) n chunk chunks) [
        | inl (_, s) ↦ rw s (batch_loop-IsPacked_after m b c cs n chunks e h)
        | inr (inl (_, _, over, s)) ↦ rw s (
          h,
          batch_loop-IsPacked_after m (c ∷ cs) chunk [] (count_tokens chunk) chunks (omega arith)
              (omega arith),
        )
        | inr (inr (_, _, s)) ↦ rw s (
            batch_loop-IsPacked_after m b c (cs ++ chunk ∷ []) (n + count_tokens chunk) chunks
              (omega (arith, total-append (c ∷ cs) (chunk ∷ []))) h)
      ]

  batch_loop-IsPacked :
      (m : ℕ) (current : List Text) (n : ℕ) (chunks : List Text)
      → n ≡ total current
      → IsPacked m (batch_loop count_tokens m current n chunks)
  batch_loop-IsPacked m [] n [] e = unfold batch_loop in tt
  batch_loop-IsPacked m (c ∷ cs) n [] e = unfold batch_loop in tt
  batch_loop-IsPacked m current n (chunk ∷ chunks) e =
      elim (batch_loop-cases m current n chunk chunks) [
        | inl (_, s) ↦ rw s (batch_loop-IsPacked m current n chunks e)
        | inr (inl (_, _, over, s)) ↦ rw s (
            batch_loop-IsPacked_after m current chunk [] (count_tokens chunk) chunks (omega arith)
              (omega arith))
        | inr (inr (_, _, s)) ↦ rw s (
            batch_loop-IsPacked m (current ++ chunk ∷ []) (n + count_tokens chunk) chunks
              (omega (arith, total-append current (chunk ∷ []))))
      ]

  -- With a positive budget `batch_chunks` returns batches, which together are the chunks that are
  -- not blank, in order. Each batch holds a chunk and keeps to the budget, unless it is a single
  -- chunk; and a batch ends only where the next chunk would have passed its budget.
  pub batch_chunks_lem :
      (m : ℕ) (chunks : List Text)
      → (batches : List (List Text)) × (batch_chunks count_tokens (pos (suc m)) chunks ≡ ok batches)
        × (concat batches ≡ keep is_full chunks)
        × All (Fits (suc m)) batches
        × IsPacked (suc m) batches
  unfolding batch_chunks
  batch_chunks_lem m chunks = (
    batch_loop count_tokens (suc m) [] 0 chunks,
    refl,
    concat-batch_loop (suc m) [] 0 chunks,
    batch_loop-Fits (suc m) [] 0 chunks refl tt,
    batch_loop-IsPacked (suc m) [] 0 chunks refl,
  )
