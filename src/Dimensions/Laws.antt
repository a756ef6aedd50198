-- ===== src/Dimensions/Laws.antt =====
-- When a size is accepted, and what an error says.
use rag_document_processor.Prelude.{
  ℕ, ◌≤◌, ◌≡◌, ◌≢◌, refl, ◌↔◌, true, Option, none, some, List, [], ◌∷◌, arith, inl, inr, Bool-cases,
}
use rag_document_processor.Prelude.Int.{ℤ, pos, le_ℤ}
use rag_document_processor.Prelude.Text.{Text, strip, lower, one_of}
use rag_document_processor.Domain.Exceptions.{
  EmbedderKind, openai, jina, Error, ok, err, invalid_embedding_dimensions, out_of_range,
  placeholder_model_id, model_does_not_support_custom_dimensions, DimensionsPayload,
}
use rag_document_processor.Options.Choices.{schema_placeholder_model_names}
use rag_document_processor.Dimensions.Rules.{
  Rule, openai_embedding_dimension_rules, jina_embedding_dimension_rules, first_match,
  match_openai_rule, match_jina_rule, matches,
}
use rag_document_processor.Dimensions.Validate.{
  rule_range, matryoshka_dimension_range, active_model, mismatch, check_dimension,
  validate_embedding_dimensions,
}

check_dimension_ok :
    (e : EmbedderKind) (model : Text) (dim : ℤ) (range : Option (ℕ × ℕ))
    → check_dimension e model dim range ≡ ok tt
    → (lo : ℕ) × (hi : ℕ) × (range ≡ some (lo, hi))
      × (le_ℤ (pos lo) dim ≡ true)
      × (le_ℤ dim (pos hi) ≡ true)
unfolding check_dimension
check_dimension_ok e model dim none h = absurd (ground arith)
check_dimension_ok e model dim (some (lo, hi)) h = (lo, hi, refl, ground arith, ground arith)

ranged_ok :
    (e : EmbedderKind) (model : Text) (dim : ℤ) (lo hi : ℕ)
    → le_ℤ (pos lo) dim ≡ true
    → le_ℤ dim (pos hi) ≡ true
    → check_dimension e model dim (some (lo, hi)) ≡ ok tt
unfolding check_dimension
ranged_ok e model dim lo hi a b = ground arith

-- A size is accepted exactly if the active model has a range and the size lies in it, ends included.
pub validate_iff :
    (e : EmbedderKind) (openai_model jina_model : Text) (dim : ℤ)
    → (validate_embedding_dimensions e openai_model jina_model (some dim) ≡ ok tt) ↔ (
        (lo : ℕ) × (hi : ℕ) × (matryoshka_dimension_range e openai_model jina_model ≡ some (lo, hi))
        × (le_ℤ (pos lo) dim ≡ true)
        × (le_ℤ dim (pos hi) ≡ true))
unfolding validate_embedding_dimensions
validate_iff e openai_model jina_model dim = (
  λ h.
      check_dimension_ok e (strip (active_model e openai_model jina_model)) dim
        (matryoshka_dimension_range e openai_model jina_model) h,
  λ (lo, hi, ranged, a, b).
      rw ranged (ranged_ok e (strip (active_model e openai_model jina_model)) dim lo hi a b),
)

abbrev pub Reported : DimensionsPayload → Option (ℕ × ℕ) → Type 0
Reported p none =
    (p.reason ≢ out_of_range)
    × (p.allowed_dimensions_min ≡ none)
    × (p.allowed_dimensions_max ≡ none)
Reported p (some (lo, hi)) =
    (p.reason ≡ out_of_range)
    × (p.allowed_dimensions_min ≡ some (pos lo))
    × (p.allowed_dimensions_max ≡ some (pos hi))

check_dimension_err :
    (e : EmbedderKind) (model : Text) (dim : ℤ) (range : Option (ℕ × ℕ)) (x : Error)
    → check_dimension e model dim range ≡ err x
    → (p : DimensionsPayload) × (x ≡ invalid_embedding_dimensions p)
      × (p.active_embedder ≡ e)
      × (p.embedding_model ≡ model)
      × (p.requested_dimensions ≡ dim)
      × Reported p range
unfolding check_dimension mismatch
check_dimension_err e model dim none x h =
    elim (Bool-cases (one_of (lower model) schema_placeholder_model_names)) [
      | inl b ↦ (
        mismatch e model dim placeholder_model_id none,
        cc (rw b at h),
        refl,
        refl,
        refl,
        ((λ k. cc), refl, refl),
      )
      | inr b ↦ (
        mismatch e model dim model_does_not_support_custom_dimensions none,
        cc (rw b at h),
        refl,
        refl,
        refl,
        ((λ k. cc), refl, refl),
      )
    ]
check_dimension_err e model dim (some (lo, hi)) x h = (
  mismatch e model dim out_of_range (some (lo, hi)),
  ground arith,
  refl,
  refl,
  refl,
  (refl, refl, refl),
)

-- A rejected size is reported with the active embedder, the trimmed name of its model, the size, and
-- the range of the model if it has one: then the reason is that the size is out of the range.
pub validate_err :
    (e : EmbedderKind) (openai_model jina_model : Text) (dim : ℤ) (x : Error)
    → validate_embedding_dimensions e openai_model jina_model (some dim) ≡ err x
    → (p : DimensionsPayload) × (x ≡ invalid_embedding_dimensions p)
      × (p.active_embedder ≡ e)
      × (p.embedding_model ≡ strip (active_model e openai_model jina_model))
      × (p.requested_dimensions ≡ dim)
      × Reported p (matryoshka_dimension_range e openai_model jina_model)
unfolding validate_embedding_dimensions
validate_err e openai_model jina_model dim x h =
    check_dimension_err e (strip (active_model e openai_model jina_model)) dim
      (matryoshka_dimension_range e openai_model jina_model) x h

-- The ranges of the rules
abbrev Bounded : List Rule → Type 0
Bounded [] = Unit
Bounded (r ∷ rs) = (1 ≤ r.min_dim) × (r.min_dim ≤ r.max_dim) × (r.max_dim ≤ 3072) × Bounded rs

first_match-Bounded :
    (rules : List Rule) (model : Text) (lo hi : ℕ)
    → Bounded rules
    → rule_range (first_match rules model) ≡ some (lo, hi)
    → (1 ≤ lo) × (lo ≤ hi) × (hi ≤ 3072)
unfolding first_match
first_match-Bounded [] model lo hi b h = cc
first_match-Bounded (r ∷ rs) model lo hi (b1, b2, b3, b) h = elim (Bool-cases (matches r model)) [
  | inl e ↦ ground (arith)
  | inr e ↦ first_match-Bounded rs model lo hi b (rw e at h)
]

-- Every range is of positive sizes up to 3072, and not empty.
pub range-Bounded :
    (e : EmbedderKind) (openai_model jina_model : Text) (lo hi : ℕ)
    → matryoshka_dimension_range e openai_model jina_model ≡ some (lo, hi)
    → (1 ≤ lo) × (lo ≤ hi) × (hi ≤ 3072)
unfolding matryoshka_dimension_range match_openai_rule match_jina_rule
range-Bounded openai openai_model jina_model lo hi h =
    first_match-Bounded openai_embedding_dimension_rules openai_model lo hi
      (omega arith, omega arith, omega arith, (omega arith, omega arith, omega arith, tt)) h
range-Bounded jina openai_model jina_model lo hi h =
    first_match-Bounded jina_embedding_dimension_rules jina_model lo hi
      (
        omega arith,
        omega arith,
        omega arith,
        (
          omega arith,
          omega arith,
          omega arith,
          (
            omega arith,
            omega arith,
            omega arith,
            (
              omega arith,
              omega arith,
              omega arith,
              (omega arith, omega arith, omega arith, (omega arith, omega arith, omega arith, tt)),
            ),
          ),
        ),
      )
      h
