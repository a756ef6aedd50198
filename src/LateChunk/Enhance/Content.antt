-- ===== src/LateChunk/Enhance/Content.antt =====
-- `enhance_chunks` neither loses, nor repeats, nor reorders text, but for adjacent repetitions.
use rag_document_processor.Prelude.{
  ℕ, suc, ◌≡◌, refl, ◌∙◌, sym, ap, inl, inr, ◌⊎◌, true, List, [], ◌∷◌, ◌++◌, arith, Bool-cases,
}
use rag_document_processor.Prelude.Int.{ℤ, pos, le_ℤ}
use rag_document_processor.Prelude.Text.{Text, nonempty, is_space, strip}
use rag_document_processor.Prelude.Text.Laws.{
  squeeze, squeeze-strip, squeeze_of_blank, squeeze-cons, squeeze-cons_space, concat, concat_single,
}
use rag_document_processor.Domain.Exceptions.{Result, ok, err, ◌>>=◌}
use rag_document_processor.LateChunk.Sentences.{
  Mode, no_separator, spaces, newlines, Scan, keep_char, skip_char, cut_spaces, cut_newlines, scan,
  split_sentences, onto_first, clean, or_whole, sentences_of, sentences, dedupe_adjacent,
}
use rag_document_processor.LateChunk.Sentences.Runs.{unroll, heads, NoRepeats, dedupe_adjacent-runs}
use rag_document_processor.LateChunk.Merge.Content.{
  squeeze-concat_cons, squeeze-concat-append, squeeze-clean, squeeze-merge_segments,
  merge_segments_total,
}
use rag_document_processor.LateChunk.Enhance.{
  newline, split_parts, split_oversized, expand, enhance_chunks,
}

pub squeeze-newline : squeeze newline ≡ []
unfolding squeeze
squeeze-newline = refl

Scan-cases :
    (a : Scan) → (a ≡ keep_char) ⊎ ((a ≡ skip_char) ⊎ ((a ≡ cut_spaces) ⊎ (a ≡ cut_newlines)))
Scan-cases keep_char = inl refl
Scan-cases skip_char = inr (inl refl)
Scan-cases cut_spaces = inr (inr (inl refl))
Scan-cases cut_newlines = inr (inr (inr refl))

-- The scan drops nothing but spaces.
scan_skip : (m : Mode) (p c : ℕ) (s : Text) → scan m p c s ≡ skip_char → is_space c ≡ true
unfolding scan
scan_skip no_separator p c s h = ground arith
scan_skip spaces p c s h = ground arith
scan_skip newlines p c s h = ground arith

scan_cut_spaces : (m : Mode) (p c : ℕ) (s : Text) → scan m p c s ≡ cut_spaces → is_space c ≡ true
unfolding scan
scan_cut_spaces m p c s h = ground arith

scan_cut_newlines :
    (m : Mode) (p c : ℕ) (s : Text) → scan m p c s ≡ cut_newlines → is_space c ≡ true
unfolding scan
scan_cut_newlines m p c s h = ground arith

concat-onto_first : (c : ℕ) (ps : List Text) → concat (onto_first c ps) ≡ c ∷ concat ps
concat-onto_first c [] = refl
concat-onto_first c (p ∷ ps) = refl

squeeze-split_sentences :
    (m : Mode) (p : ℕ) (s : Text) → squeeze (concat (split_sentences m p s)) ≡ squeeze s
unfolding split_sentences
squeeze-split_sentences m p [] = refl
squeeze-split_sentences m p (c ∷ s) = elim (Scan-cases (scan m p c s)) [
  | inl e ↦
      rw (e, split_sentences)
        (rw concat-onto_first (squeeze-cons c _ s (squeeze-split_sentences no_separator c s)))
  | inr (inl e) ↦
      rw (e, split_sentences)
        (squeeze-split_sentences m c s ∙ sym (squeeze-cons_space c s (scan_skip m p c s e)))
  | inr (inr (inl e)) ↦
      rw (e, split_sentences)
        (squeeze-split_sentences spaces c s
          ∙ sym (squeeze-cons_space c s (scan_cut_spaces m p c s e)))
  | inr (inr (inr e)) ↦
      rw (e, split_sentences)
        (squeeze-split_sentences newlines c s
          ∙ sym (squeeze-cons_space c s (scan_cut_newlines m p c s e)))
]

squeeze-or_whole :
    (ps : List Text) (t : Text)
    → squeeze (concat ps) ≡ squeeze t
    → squeeze (concat (or_whole ps t)) ≡ squeeze t
squeeze-or_whole [] t h = ap squeeze (concat_single t)
squeeze-or_whole (p ∷ ps) t h = h

squeeze-sentences_of : (t : Text) → squeeze (concat (sentences_of t)) ≡ squeeze t
squeeze-sentences_of [] = refl
squeeze-sentences_of (c ∷ s) =
    squeeze-or_whole (clean (split_sentences no_separator 0 (c ∷ s))) (c ∷ s) (
      squeeze-clean (split_sentences no_separator 0 (c ∷ s))
      ∙ squeeze-split_sentences no_separator 0 (c ∷ s))

-- The sentences of a block hold its text.
pub squeeze-sentences : (block : Text) → squeeze (concat (sentences block)) ≡ squeeze block
unfolding sentences
squeeze-sentences block = squeeze-sentences_of (strip block) ∙ squeeze-strip block

-- A successful step of the loop.
expand_step :
    (r s : Result (List Text)) {out : List Text}
    → (r >>= λ a. s >>= λ b. ok (a ++ b)) ≡ ok out
    → (a : List Text) × (b : List Text) × (r ≡ ok a) × (s ≡ ok b) × (a ++ b ≡ out)
expand_step (ok a) (ok b) h = (a, b, refl, refl, cc)
expand_step (ok a) (err e) h = cc
expand_step (err e) s h = cc

module _ (count_tokens : Text → ℕ) where
  squeeze-split_parts :
      (max_tokens : ℤ) (chunk : Text) (ps : List Text) {out : List Text}
      → squeeze (concat ps) ≡ squeeze chunk
      → split_parts count_tokens max_tokens chunk ps ≡ ok out
      → squeeze (concat out) ≡ squeeze chunk
  squeeze-split_parts m chunk [] e h = cc (ap squeeze (concat_single chunk))
  squeeze-split_parts m chunk (p ∷ []) e h = cc (ap squeeze (concat_single chunk))
  squeeze-split_parts m chunk (p ∷ q ∷ ps) e h =
      squeeze-merge_segments count_tokens newline (pos 1) m (p ∷ q ∷ ps) squeeze-newline h ∙ e

  squeeze-split_oversized :
      (max_tokens : ℤ) (chunk : Text) {out : List Text}
      → split_oversized count_tokens max_tokens chunk ≡ ok out
      → squeeze (concat out) ≡ squeeze chunk
  unfolding split_oversized
  squeeze-split_oversized m chunk h = elim (Bool-cases (le_ℤ (pos (count_tokens chunk)) m)) [
    | inl e ↦ cc (ap squeeze (concat_single chunk), rw e at h)
    | inr e ↦ squeeze-split_parts m chunk (sentences chunk) (squeeze-sentences chunk) (rw e at h)
  ]

  -- Splitting alone keeps all of the text.
  pub squeeze-expand :
      (max_tokens : ℤ) (chunks : List Text) {out : List Text}
      → expand count_tokens max_tokens chunks ≡ ok out
      → squeeze (concat out) ≡ squeeze (concat chunks)
  unfolding expand
  squeeze-expand m [] h = cc
  squeeze-expand m (chunk ∷ chunks) h = elim (Bool-cases (nonempty (strip chunk))) [
    | inl full ↦
        let (a, b, ra, rb, e) =
          expand_step (split_oversized count_tokens m (strip chunk)) (expand count_tokens m chunks)
            (rw full at h) in
        rw (← e) (
          squeeze-concat-append a b
          ∙ (ap (λ t. t ++ squeeze (concat b))
                (squeeze-split_oversized m (strip chunk) ra ∙ squeeze-strip chunk)
              ∙ (ap (λ t. squeeze chunk ++ t) (squeeze-expand m chunks rb)
                  ∙ sym (squeeze-concat_cons chunk chunks))))
    | inr blank ↦
        squeeze-expand m chunks (rw blank at h)
        ∙ sym (
            squeeze-concat_cons chunk chunks
            ∙ ap (λ t. t ++ squeeze (concat chunks)) (squeeze_of_blank chunk blank))
  ]

-- With a positive maximum and a minimum that is not negative nothing is raised.
split_parts_total :
    (count : Text → ℕ) (m : ℕ) (chunk : Text) (ps : List Text)
    → (out : List Text) × (split_parts count (pos (suc m)) chunk ps ≡ ok out)
split_parts_total count m chunk [] = (chunk ∷ [], refl)
split_parts_total count m chunk (p ∷ []) = (chunk ∷ [], refl)
split_parts_total count m chunk (p ∷ q ∷ ps) = merge_segments_total count newline 1 m (p ∷ q ∷ ps)

split_oversized_total :
    (count : Text → ℕ) (m : ℕ) (chunk : Text)
    → (out : List Text) × (split_oversized count (pos (suc m)) chunk ≡ ok out)
unfolding split_oversized
split_oversized_total count m chunk = elim (Bool-cases (le_ℤ (pos (count chunk)) (pos (suc m)))) [
  | inl e ↦ (chunk ∷ [], rw e)
  | inr e ↦ rw e (split_parts_total count m chunk (sentences chunk))
]

expand_total :
    (count : Text → ℕ) (m : ℕ) (chunks : List Text)
    → (out : List Text) × (expand count (pos (suc m)) chunks ≡ ok out)
unfolding expand
expand_total count m [] = ([], refl)
expand_total count m (chunk ∷ chunks) = elim (Bool-cases (nonempty (strip chunk))) [
  | inl full ↦
      let (a, ea) = split_oversized_total count m (strip chunk) in
      let (b, eb) = expand_total count m chunks in (a ++ b, rw (full, ea, eb))
  | inr blank ↦ rw blank (expand_total count m chunks)
]

-- With a positive maximum and a minimum that is not negative, `enhance_chunks` raises nothing. Up to
-- spaces the expanded chunks hold the text of the given ones; they are runs of equal chunks, where no
-- run is of the same chunk as the one before it; and what is returned holds, up to spaces, the text
-- of one chunk of each run, in order.
pub squeeze-enhance_chunks :
    (count_tokens : Text → ℕ) (min_tokens max_tokens : ℕ) (join_with : Text) (chunks : List Text)
    → squeeze join_with ≡ []
    → (expanded out : List Text) × (runs : List (Text × ℕ)) × (expand count_tokens
          (pos (suc max_tokens))
          chunks
        ≡ ok expanded)
      × (enhance_chunks count_tokens (pos min_tokens) (pos (suc max_tokens)) join_with chunks
          ≡ ok out)
      × (squeeze (concat expanded) ≡ squeeze (concat chunks))
      × (expanded ≡ unroll runs)
      × NoRepeats (heads runs)
      × (squeeze (concat out) ≡ squeeze (concat (heads runs)))
unfolding enhance_chunks
squeeze-enhance_chunks count n m join chunks space =
    let (expanded, ee) = expand_total count m chunks in
    let (out, eo) = merge_segments_total count join n m (dedupe_adjacent expanded) in
    let (runs, all, kept, apart) = dedupe_adjacent-runs expanded in
    (
      expanded,
      out,
      runs,
      ee,
      rw ee eo,
      squeeze-expand count (pos (suc m)) chunks ee,
      all,
      apart,
      squeeze-merge_segments count join (pos n) (pos (suc m)) (dedupe_adjacent expanded) space eo
          ∙ ap (λ ss. squeeze (concat ss)) kept,
    )
