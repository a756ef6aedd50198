-- ===== src/Api/Catalog/Laws.antt =====
-- The catalogue of sizes against the sizes that requests are checked with.
use rag_document_processor.Prelude.{
  ◌≡◌, refl, ◌∙◌, false, List, [], ◌∷◌, ◌++◌, map, arith, ◌||◌, ◌&&◌, not, Bool-cases, inl, inr,
  All, Bool,
}
use rag_document_processor.Prelude.Text.{Text, codes, strip, lower, ends_with, contains}
use rag_document_processor.Domain.Exceptions.{EmbedderKind, openai, jina}
use rag_document_processor.Dimensions.Rules.{
  Rule, any_in, extra, first_match, match_openai_rule, match_jina_rule,
  openai_embedding_dimension_rules, jina_embedding_dimension_rules,
}
use rag_document_processor.Dimensions.Validate.{
  rule_range, matryoshka_dimension_range, active_model,
}
use rag_document_processor.Api.Catalog.{
  rule_item, list_embedding_dimension_constraints, same_provider, advertised, listed_elsewhere,
}

module _ (provider : EmbedderKind) (model_id : Text) where
  abbrev Unlisted : Rule → Type 0
  Unlisted r = any_in r.model_id_substrings_any (lower (strip model_id)) ≡ false

  -- What matches a rule contains one of its parts.
  abbrev Plain : Rule → Type 0
  Plain r =
      (extra r.extra_match (lower (strip model_id))
        && not (any_in r.model_id_substrings_any (lower (strip model_id))))
      ≡ false

  advertised-first_match :
      (rules others : List Rule)
      → All Plain rules
      → All Unlisted others
      → advertised model_id (map rule_item (rules ++ others))
        ≡ rule_range (first_match rules model_id)
  unfolding advertised first_match rule_item
  advertised-first_match [] [] plain unlisted = refl
  advertised-first_match [] (o ∷ others) plain (missing, unlisted) =
      rw missing (advertised-first_match [] others tt unlisted)
  advertised-first_match (r ∷ rules) others (p, plain) unlisted =
      elim (Bool-cases (any_in r.model_id_substrings_any (lower (strip model_id)))) [
        | inl there ↦ rw there refl
        | inr missing ↦
            let no_extra : extra r.extra_match (lower (strip model_id)) ≡ false =
              ground (arith, p, missing) in
            rw (missing, no_extra) (advertised-first_match rules others plain unlisted)
      ]

  -- The items in front, if the model's id contains none of their parts, are passed over.
  advertised-skip :
      (front rules : List Rule)
      → All Unlisted front
      → advertised model_id (map rule_item (front ++ rules))
        ≡ advertised model_id (map rule_item rules)
  unfolding advertised rule_item
  advertised-skip [] rules unlisted = refl
  advertised-skip (r ∷ front) rules (missing, unlisted) =
      rw missing (advertised-skip front rules unlisted)

  -- No item of another provider
  abbrev Foreign : Rule → Type 0
  Foreign r = same_provider r.provider provider ≡ false

  listed_elsewhere-append :
      (xs ys : List Rule)
      → listed_elsewhere provider model_id (map rule_item (xs ++ ys)) ≡ false
      → (listed_elsewhere provider model_id (map rule_item xs) ≡ false)
        × (listed_elsewhere provider model_id (map rule_item ys) ≡ false)
  unfolding listed_elsewhere
  listed_elsewhere-append [] ys h = (refl, h)
  listed_elsewhere-append (x ∷ xs) ys h = ground (arith, h, listed_elsewhere-append xs ys)

  Foreign-Unlisted :
      (rules : List Rule)
      → All Foreign rules
      → listed_elsewhere provider model_id (map rule_item rules) ≡ false
      → All Unlisted rules
  unfolding listed_elsewhere rule_item
  Foreign-Unlisted [] foreign h = tt
  Foreign-Unlisted (r ∷ rules) (f, foreign) h =
      (ground (arith, f, h), Foreign-Unlisted rules foreign (ground (arith, f, h)))

-- A short form of an OpenAI model: an id that ends with `3-small` or `3-large`, and does not contain
-- the part that the catalogue lists for that model.
abbrev pub short_id : EmbedderKind → Text → Bool
short_id openai model_id =
    let ml = lower (strip model_id) in
    (ends_with ml (codes "3-small") && not (contains ml (codes "embedding-3-small")))
    || (ends_with ml (codes "3-large") && not (contains ml (codes "embedding-3-large")))
short_id jina model_id = false

-- A client that reads the catalogue by its documentation finds for the active model the very limits
-- that a request is checked with, or finds none exactly where the model takes no size, if the
-- model's id contains no part that is listed for the other provider, and is no short form of an OpenAI
-- model.
pub advertised-range :
    (provider : EmbedderKind) (openai_model jina_model : Text)
    → short_id provider (active_model provider openai_model jina_model) ≡ false
    → listed_elsewhere provider
        (active_model provider openai_model jina_model)
        list_embedding_dimension_constraints
      ≡ false
    → advertised
        (active_model provider openai_model jina_model)
        list_embedding_dimension_constraints
      ≡ matryoshka_dimension_range provider openai_model jina_model
unfolding list_embedding_dimension_constraints matryoshka_dimension_range match_openai_rule
    match_jina_rule any_in
advertised-range openai model jina_model long own =
    advertised-first_match openai model openai_embedding_dimension_rules
      jina_embedding_dimension_rules (ground arith, (ground arith, tt))
      (Foreign-Unlisted openai model jina_embedding_dimension_rules
        (refl, (refl, (refl, (refl, (refl, (refl, tt))))))
        (listed_elsewhere-append openai model openai_embedding_dimension_rules
          jina_embedding_dimension_rules own).1)
advertised-range jina openai_model model long own =
    advertised-skip jina model openai_embedding_dimension_rules jina_embedding_dimension_rules (
      Foreign-Unlisted jina model openai_embedding_dimension_rules (refl, (refl, tt))
        (listed_elsewhere-append jina model openai_embedding_dimension_rules
          jina_embedding_dimension_rules own).0)
    ∙ advertised-first_match jina model jina_embedding_dimension_rules []
        (refl, (refl, (refl, (refl, (refl, (refl, tt)))))) tt
