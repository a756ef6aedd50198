-- ===== src/Api/Catalog.antt =====
-- presentation/api/v1/embedding_catalog.py: the public catalogue of output sizes, and its reading by a
-- client that goes by the documentation of the endpoint. The texts that only explain a rule (`match`,
-- `notes`) are left out.
pub mod Laws
use rag_document_processor.Prelude.{
  ℕ, ◌&&◌, ◌||◌, not, Bool, true, false, Option, none, some, List, [], ◌∷◌, map, if◌then◌else◌,
}
use rag_document_processor.Prelude.Text.{Text, strip, lower}
use rag_document_processor.Domain.Exceptions.{EmbedderKind, openai, jina}
use rag_document_processor.Dimensions.Rules.{Rule, any_in, public_embedding_dimension_rules}

-- `EmbeddingDimensionRuleItem`
pub record RuleItem : Type 0 where
  pub provider : EmbedderKind
  pub label : Text
  pub model_id_substrings_any : List Text
  pub model_example_ids : List Text
  pub min_dimensions : ℕ
  pub max_dimensions : ℕ
  pub recommended_dimensions : Option (List ℕ)

-- `list(r.recommended_dims) if r.recommended_dims else None`
abbrev pub some_dims : Option (List ℕ) → Option (List ℕ)
some_dims none = none
some_dims (some []) = none
some_dims (some (d ∷ ds)) = some (d ∷ ds)

unfoldable pub rule_item : Rule → RuleItem
rule_item r = record {
  provider = r.provider;
  label = r.label;
  model_id_substrings_any = r.model_id_substrings_any;
  model_example_ids = r.model_example_ids;
  min_dimensions = r.min_dim;
  max_dimensions = r.max_dim;
  recommended_dimensions = some_dims r.recommended_dims;
}

-- The response of the endpoint
unfoldable pub list_embedding_dimension_constraints : List RuleItem
unfolding rule_item
list_embedding_dimension_constraints = map rule_item public_embedding_dimension_rules

abbrev pub same_provider : EmbedderKind → EmbedderKind → Bool
same_provider openai openai = true
same_provider jina jina = true
same_provider openai jina = false
same_provider jina openai = false

-- The reading that the documentation of the endpoint gives: the limits of the first item of which the
-- model's id contains a part, whatever the case of its letters.
unfoldable pub advertised : Text → List RuleItem → Option (ℕ × ℕ)
advertised model_id [] = none
advertised model_id (item ∷ items) =
    if any_in item.model_id_substrings_any (lower (strip model_id))
    then some (item.min_dimensions, item.max_dimensions)
    else advertised model_id items

-- The model's id contains a part of an item of another provider.
unfoldable pub listed_elsewhere : EmbedderKind → Text → List RuleItem → Bool
listed_elsewhere provider model_id [] = false
listed_elsewhere provider model_id (item ∷ items) =
    (not (same_provider item.provider provider)
      && any_in item.model_id_substrings_any (lower (strip model_id)))
    || listed_elsewhere provider model_id items
