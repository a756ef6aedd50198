-- ===== src/LateChunk/Merge/Bounds.antt =====
-- How many tokens the chunks of `merge_segments` have, where the token counter adds up over a join.
use rag_document_processor.Prelude.{
  ℕ, zero, suc, ◌+◌, ◌≤◌, ◌<◌, ◌≡◌, refl, sym, inl, inr, Bool, true, false, List, [], ◌∷◌, ◌++◌,
  arith, Bool-cases, ltb, ltb→lt, ltb-false→le, All,
}
use rag_document_processor.Prelude.Int.{pos}
use rag_document_processor.Prelude.Text.{Text}
use rag_document_processor.Domain.Exceptions.{ok}
use rag_document_processor.LateChunk.Sentences.{clean, words, simple_token_count}
use rag_document_processor.LateChunk.Merge.{
  extend, finish, force, merge_step, join_two, merge_loop, merge_tail, merge_clean, merge_checked,
  merge_segments,
}
use rag_document_processor.LateChunk.Merge.Steps.{
  MergeStep-cases, merge_loop-extend, merge_loop-finish, merge_loop-force,
}

-- The counter finds nothing in the empty text, and in two joined texts what it finds in each.
pub record IsAdditive (count_tokens : Text → ℕ) (join_with : Text) : Type 0 where
  pub at_nil : count_tokens [] ≡ 0
  pub at_join :
      (a b : Text) → count_tokens (a ++ (join_with ++ b)) ≡ count_tokens a + count_tokens b

step_extend : (lo hi n k : ℕ) → merge_step lo hi n k ≡ extend → n + k ≤ hi
unfolding merge_step
step_extend lo hi n k h = ground arith

step_finish : (lo hi n k : ℕ) → merge_step lo hi n k ≡ finish → (hi < n + k) × (lo ≤ n)
unfolding merge_step
step_finish lo hi n k h = ground arith

step_force : (lo hi n k : ℕ) → merge_step lo hi n k ≡ force → (hi < n + k) × (n < lo)
unfolding merge_step
step_force lo hi n k h = ground arith

merge_checked-eq :
    (count : Text → ℕ) (join : Text) (lo hi : ℕ) (segs : List Text) {chunks : List Text}
    → merge_checked count join (pos lo) (pos hi) segs ≡ ok chunks
    → chunks ≡ merge_clean count join lo hi segs
unfolding merge_checked merge_clean
merge_checked-eq count join lo hi [] h = cc
merge_checked-eq count join lo zero (seg ∷ segs) h = cc
merge_checked-eq count join lo (suc hi) (seg ∷ segs) h = cc

module _ (count : Text → ℕ) (join : Text) (additive : IsAdditive count join) (lo hi : ℕ) where
  -- Every chunk but the last has the minimum.
  abbrev AllButLast : List Text → Type 0
  AllButLast [] = Unit
  AllButLast (a ∷ []) = Unit
  AllButLast (a ∷ b ∷ rest) = (lo ≤ count a) × AllButLast (b ∷ rest)

  AllButLast-cons :
      (a : Text) (rest : List Text) → lo ≤ count a → AllButLast rest → AllButLast (a ∷ rest)
  AllButLast-cons a [] h k = tt
  AllButLast-cons a (b ∷ rest) h k = (h, k)

  merge_loop-AllButLast :
      lo ≤ hi
      → (current : Text) (n : ℕ) (segs : List Text) → n ≡ count current
      → AllButLast (merge_loop count join lo hi current n segs)
  merge_loop-AllButLast le [] n [] e = unfold merge_loop in tt
  merge_loop-AllButLast le (c ∷ current) n [] e = unfold merge_loop in tt
  merge_loop-AllButLast le current n (seg ∷ segs) e =
      elim (MergeStep-cases (merge_step lo hi n (count seg))) [
        | inl s ↦ rw (merge_loop-extend count join lo hi current n seg segs s) (
            merge_loop-AllButLast le (join_two join current seg) (n + count seg) segs
              (omega (arith, additive.at_join current seg)))
        | inr (inl s) ↦ rw (merge_loop-finish count join lo hi current n seg segs s) (
            AllButLast-cons current _ (omega (arith, step_finish lo hi n (count seg) s))
              (merge_loop-AllButLast le seg (count seg) segs refl))
        | inr (inr s) ↦ rw (merge_loop-force count join lo hi current n seg segs s) (
            AllButLast-cons (join_two join current seg) _
              (omega (arith, additive.at_join current seg, step_force lo hi n (count seg) s))
              (merge_loop-AllButLast le [] 0 segs (sym additive.at_nil)))
      ]

  -- There is one chunk at most, or every chunk has the minimum.
  abbrev pub NoFragments : List Text → Type 0
  NoFragments [] = Unit
  NoFragments (a ∷ []) = Unit
  NoFragments (a ∷ b ∷ rest) = All (λ c. lo ≤ count c) (a ∷ b ∷ rest)

  All-NoFragments : (chunks : List Text) → All (λ c. lo ≤ count c) chunks → NoFragments chunks
  All-NoFragments [] h = tt
  All-NoFragments (a ∷ []) h = tt
  All-NoFragments (a ∷ b ∷ rest) h = h

  merge_tail-All :
      (a : Text) (rest : List Text)
      → lo ≤ count a
      → AllButLast (a ∷ rest)
      → All (λ c. lo ≤ count c) (merge_tail count join lo hi (a ∷ rest))
  unfolding merge_tail
  merge_tail-All a [] h k = (h, tt)
  merge_tail-All a (b ∷ []) h k = elim (Bool-cases (ltb (count b) lo)) [
    | inl p ↦ rw p (omega (arith, additive.at_join a b), tt)
    | inr p ↦ rw p (h, (omega (arith, ltb-false→le (count b) lo p), tt))
  ]
  merge_tail-All a (b ∷ c ∷ rest) h k = (h, merge_tail-All b (c ∷ rest) k.1.0 k.1)

  merge_tail-NoFragments :
      (chunks : List Text) → AllButLast chunks → NoFragments (merge_tail count join lo hi chunks)
  merge_tail-NoFragments [] k = unfold merge_tail in tt
  merge_tail-NoFragments (a ∷ []) k = unfold merge_tail in tt
  merge_tail-NoFragments (a ∷ b ∷ rest) k = All-NoFragments _ (merge_tail-All a (b ∷ rest) k.0 k)

  merge_clean-NoFragments :
      lo ≤ hi → (segs : List Text) → NoFragments (merge_clean count join lo hi segs)
  unfolding merge_clean
  merge_clean-NoFragments le [] = tt
  merge_clean-NoFragments le (seg ∷ segs) =
      merge_tail-NoFragments (merge_loop count join lo hi seg (count seg) segs)
        (merge_loop-AllButLast le seg (count seg) segs refl)

  -- At most the maximum, and what a forced segment adds.
  abbrev AtMost : ℕ → List Text → Type 0
  AtMost k = All (λ c. count c ≤ k)

  merge_loop-AtMost :
      (current : Text) (n : ℕ) (segs : List Text)
      → n ≡ count current
      → n ≤ hi
      → AtMost hi segs
      → AtMost (hi + lo) (merge_loop count join lo hi current n segs)
  merge_loop-AtMost [] n [] e le h = unfold merge_loop in tt
  merge_loop-AtMost (c ∷ current) n [] e le h = unfold merge_loop in (omega arith, tt)
  merge_loop-AtMost current n (seg ∷ segs) e le h =
      elim (MergeStep-cases (merge_step lo hi n (count seg))) [
        | inl s ↦ rw (merge_loop-extend count join lo hi current n seg segs s) (
            merge_loop-AtMost (join_two join current seg) (n + count seg) segs
              (omega (arith, additive.at_join current seg)) (step_extend lo hi n (count seg) s) h.1)
        | inr (inl s) ↦
            rw (merge_loop-finish count join lo hi current n seg segs s)
              (omega arith, merge_loop-AtMost seg (count seg) segs refl h.0 h.1)
        | inr (inr s) ↦ rw (merge_loop-force count join lo hi current n seg segs s) (
          omega (arith, additive.at_join current seg, step_force lo hi n (count seg) s, h.0),
          merge_loop-AtMost [] 0 segs (sym additive.at_nil) (omega arith) h.1,
        )
      ]

  AtMost-weaken : (k l : ℕ) (chunks : List Text) → k ≤ l → AtMost k chunks → AtMost l chunks
  AtMost-weaken k l [] le h = tt
  AtMost-weaken k l (c ∷ cs) le h = (omega (arith, h.0), AtMost-weaken k l cs le h.1)

  merge_tail-AtMost :
      (k : ℕ) (chunks : List Text)
      → AtMost k chunks
      → AtMost (k + lo) (merge_tail count join lo hi chunks)
  unfolding merge_tail
  merge_tail-AtMost k [] h = tt
  merge_tail-AtMost k (a ∷ []) h = (omega (arith, h.0), tt)
  merge_tail-AtMost k (a ∷ b ∷ []) h = elim (Bool-cases (ltb (count b) lo)) [
    | inl p ↦ rw p (omega (arith, additive.at_join a b, ltb→lt (count b) lo p, h.0), tt)
    | inr p ↦ rw p (AtMost-weaken k (k + lo) (a ∷ b ∷ []) (omega arith) h)
  ]
  merge_tail-AtMost k (a ∷ b ∷ c ∷ rest) h =
      (omega (arith, h.0), merge_tail-AtMost k (b ∷ c ∷ rest) h.1)

  merge_clean-AtMost :
      (segs : List Text)
      → AtMost hi segs
      → AtMost (hi + lo + lo) (merge_clean count join lo hi segs)
  unfolding merge_clean
  merge_clean-AtMost [] h = tt
  merge_clean-AtMost (seg ∷ segs) h =
      merge_tail-AtMost (hi + lo) (merge_loop count join lo hi seg (count seg) segs)
        (merge_loop-AtMost seg (count seg) segs refl h.0 h.1)

  -- If the counter adds up over a join and the minimum is at most the maximum, then every chunk has
  -- the minimum of tokens, or there is one chunk at most.
  pub merge_segments-NoFragments :
      (segments : List Text) {chunks : List Text}
      → lo ≤ hi
      → merge_segments count join (pos lo) (pos hi) segments ≡ ok chunks
      → NoFragments chunks
  unfolding merge_segments
  merge_segments-NoFragments segments le h =
      rw (merge_checked-eq count join lo hi (clean segments) h)
        (merge_clean-NoFragments le (clean segments))

  -- If the counter adds up over a join and every trimmed segment keeps to the maximum, then a chunk
  -- passes the maximum by twice the minimum at most.
  pub merge_segments-AtMost :
      (segments : List Text) {chunks : List Text}
      → All (λ s. count s ≤ hi) (clean segments)
      → merge_segments count join (pos lo) (pos hi) segments ≡ ok chunks
      → All (λ c. count c ≤ hi + lo + lo) chunks
  unfolding merge_segments
  merge_segments-AtMost segments small h =
      rw (merge_checked-eq count join lo hi (clean segments) h)
        (merge_clean-AtMost (clean segments) small)

words-append_newline :
    (inside : Bool) (a b : Text) → words inside (a ++ (10 ∷ b)) ≡ words inside a + words false b
unfolding words
words-append_newline inside [] b = omega arith
words-append_newline inside (c ∷ a) b =
    ground (arith, words-append_newline false a b, words-append_newline true a b)

-- The default counter is such a counter, over the default join.
pub simple_token_count-IsAdditive : IsAdditive simple_token_count (10 ∷ [])
unfolding simple_token_count
simple_token_count-IsAdditive = record {
  at_nil = refl;
  at_join = λ a b. words-append_newline false a b;
}
