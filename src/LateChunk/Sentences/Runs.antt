-- ===== src/LateChunk/Sentences/Runs.antt =====
-- `_dedupe_adjacent` against the runs of equal segments.
use rag_document_processor.Prelude.{
  ℕ, zero, suc, ◌≡◌, ◌≢◌, refl, ap, List, [], ◌∷◌, ◌++◌, Bool-cases, inl, inr,
}
use rag_document_processor.Prelude.Text.{Text, text_eq}
use rag_document_processor.Prelude.Text.Laws.{text_eq_refl, text_eq-eq}
use rag_document_processor.LateChunk.Sentences.{dedupe_after, dedupe_adjacent}

abbrev pub copies : ℕ → Text → List Text
copies zero s = []
copies (suc n) s = s ∷ copies n s

-- A run is a segment and how often it is repeated.
abbrev pub unroll : List (Text × ℕ) → List Text
unroll [] = []
unroll ((s, n) ∷ runs) = s ∷ (copies n s ++ unroll runs)

abbrev pub heads : List (Text × ℕ) → List Text
heads [] = []
heads ((s, n) ∷ runs) = s ∷ heads runs

-- No segment equals the one before it.
abbrev pub Differs : Text → List Text → Type 0
Differs s [] = Unit
Differs s (t ∷ ts) = s ≢ t

abbrev pub NoRepeats : List Text → Type 0
NoRepeats [] = Unit
NoRepeats (s ∷ ss) = Differs s ss × NoRepeats ss

dedupe_after-runs :
    (last : Text) (segs : List Text)
    → (n : ℕ) × (runs : List (Text × ℕ)) × (segs ≡ copies n last ++ unroll runs)
      × (dedupe_after last segs ≡ heads runs)
      × NoRepeats (last ∷ heads runs)
unfolding dedupe_after
dedupe_after-runs last [] = (zero, [], refl, refl, (tt, tt))
dedupe_after-runs last (seg ∷ segs) = elim (Bool-cases (text_eq last seg)) [
  | inl same ↦
      let (n, runs, all, kept, apart) = dedupe_after-runs last segs in
      (suc n, runs, cc (text_eq-eq last seg same, all), rw same kept, apart)
  | inr other ↦
      let (n, runs, all, kept, apart) = dedupe_after-runs seg segs in
      (
        zero,
        (seg, n) ∷ runs,
        ap (λ ss. seg ∷ ss) all,
        rw other (ap (λ ss. seg ∷ ss) kept),
        ((λ e. cc (e, other, text_eq_refl last)), apart),
      )
]

-- What is kept is one segment of each run of equal ones.
pub dedupe_adjacent-runs :
    (segs : List Text)
    → (runs : List (Text × ℕ)) × (segs ≡ unroll runs)
      × (dedupe_adjacent segs ≡ heads runs)
      × NoRepeats (heads runs)
unfolding dedupe_adjacent
dedupe_adjacent-runs [] = ([], refl, refl, tt)
dedupe_adjacent-runs (seg ∷ segs) =
    let (n, runs, all, kept, apart) = dedupe_after-runs seg segs in
    ((seg, n) ∷ runs, ap (λ ss. seg ∷ ss) all, ap (λ ss. seg ∷ ss) kept, apart)
