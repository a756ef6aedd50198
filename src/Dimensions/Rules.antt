-- ===== src/Dimensions/Rules.antt =====
-- The rules of core/embedding_dimensions.py and their matching. The texts that only document a rule
-- (`match_description`, `notes`) are left out.
use rag_document_processor.Prelude.{
  ℕ, Bool, false, ◌||◌, Option, none, some, List, [], ◌∷◌, ◌++◌, if◌then◌else◌,
}
use rag_document_processor.Prelude.Text.{Text, codes, strip, lower, contains, ends_with}
use rag_document_processor.Domain.Exceptions.{EmbedderKind, openai, jina}

pub record Rule : Type 0 where
  pub provider : EmbedderKind
  pub label : Text
  pub model_id_substrings_any : List Text
  pub model_example_ids : List Text
  pub min_dim : ℕ
  pub max_dim : ℕ
  pub recommended_dims : Option (List ℕ)
  pub extra_match : Option (Text → Bool)

-- `any(s in ml for s in …)`
unfoldable pub any_in : List Text → Text → Bool
unfolding contains
any_in [] ml = false
any_in (s ∷ ss) ml = contains ml s || any_in ss ml

abbrev pub extra : Option (Text → Bool) → Text → Bool
extra none ml = false
extra (some p) ml = p ml

-- `EmbeddingDimensionRule.matches`
unfoldable pub matches : Rule → Text → Bool
unfolding any_in strip lower
matches rule model_id =
    let ml = lower (strip model_id) in
    any_in rule.model_id_substrings_any ml || extra rule.extra_match ml

abbrev pub openai_3_small : Rule
openai_3_small = record {
  provider = openai;
  label = codes "OpenAI text-embedding-3-small";
  model_id_substrings_any = codes "embedding-3-small" ∷ [];
  model_example_ids = codes "text-embedding-3-small" ∷ [];
  min_dim = 256;
  max_dim = 1536;
  recommended_dims = none;
  extra_match = some (λ ml. ends_with ml (codes "3-small"));
}

abbrev pub openai_3_large : Rule
openai_3_large = record {
  provider = openai;
  label = codes "OpenAI text-embedding-3-large";
  model_id_substrings_any = codes "embedding-3-large" ∷ [];
  model_example_ids = codes "text-embedding-3-large" ∷ [];
  min_dim = 256;
  max_dim = 3072;
  recommended_dims = none;
  extra_match = some (λ ml. ends_with ml (codes "3-large"));
}

abbrev pub openai_embedding_dimension_rules : List Rule
openai_embedding_dimension_rules = openai_3_small ∷ openai_3_large ∷ []

abbrev pub jina_v5_nano : Rule
jina_v5_nano = record {
  provider = jina;
  label = codes "Jina embeddings v5 (text/omni nano)";
  model_id_substrings_any =
      codes "jina-embeddings-v5-text-nano" ∷ codes "jina-embeddings-v5-omni-nano" ∷ [];
  model_example_ids =
      codes "jina-embeddings-v5-text-nano" ∷ codes "jina-ai/jina-embeddings-v5-text-nano" ∷ [];
  min_dim = 1;
  max_dim = 768;
  recommended_dims = some (256 ∷ 512 ∷ 768 ∷ []);
  extra_match = none;
}

abbrev pub jina_v5_small : Rule
jina_v5_small = record {
  provider = jina;
  label = codes "Jina embeddings v5 (text/omni small)";
  model_id_substrings_any =
      codes "jina-embeddings-v5-text-small" ∷ codes "jina-embeddings-v5-omni-small" ∷ [];
  model_example_ids =
      codes "jina-embeddings-v5-text-small" ∷ codes "jina-ai/jina-embeddings-v5-text-small" ∷ [];
  min_dim = 1;
  max_dim = 1024;
  recommended_dims = some (256 ∷ 512 ∷ 768 ∷ 1024 ∷ []);
  extra_match = none;
}

abbrev pub jina_v3 : Rule
jina_v3 = record {
  provider = jina;
  label = codes "Jina embeddings v3 (Matryoshka)";
  model_id_substrings_any = codes "jina-embeddings-v3" ∷ [];
  model_example_ids = codes "jina-embeddings-v3" ∷ codes "jina-ai/jina-embeddings-v3" ∷ [];
  min_dim = 32;
  max_dim = 1024;
  recommended_dims = some (32 ∷ 64 ∷ 128 ∷ 256 ∷ 512 ∷ 768 ∷ 1024 ∷ []);
  extra_match = none;
}

abbrev pub jina_v4 : Rule
jina_v4 = record {
  provider = jina;
  label = codes "Jina embeddings v4 (Matryoshka)";
  model_id_substrings_any = codes "jina-embeddings-v4" ∷ [];
  model_example_ids = codes "jina-embeddings-v4" ∷ [];
  min_dim = 128;
  max_dim = 1024;
  recommended_dims = none;
  extra_match = none;
}

abbrev pub jina_v2 : Rule
jina_v2 = record {
  provider = jina;
  label = codes "Jina embeddings v2 family";
  model_id_substrings_any = codes "jina-embeddings-v2" ∷ [];
  model_example_ids = codes "jina-embeddings-v2-base-en" ∷ [];
  min_dim = 256;
  max_dim = 1024;
  recommended_dims = none;
  extra_match = none;
}

abbrev pub jina_embeddings_fallback : Rule
jina_embeddings_fallback = record {
  provider = jina;
  label = codes "Other Jina `jina-embeddings-*` models";
  model_id_substrings_any = codes "jina-embeddings" ∷ [];
  model_example_ids = codes "jina-embeddings-v6" ∷ [];
  min_dim = 256;
  max_dim = 1024;
  recommended_dims = none;
  extra_match = none;
}

abbrev pub jina_embedding_dimension_rules : List Rule
jina_embedding_dimension_rules =
    jina_v5_nano ∷ jina_v5_small ∷ jina_v3 ∷ jina_v4 ∷ jina_v2 ∷ jina_embeddings_fallback ∷ []

abbrev pub public_embedding_dimension_rules : List Rule
public_embedding_dimension_rules =
    openai_embedding_dimension_rules ++ jina_embedding_dimension_rules

-- The loop that `_match_openai_rule` and `_match_jina_rule` share: the first rule that matches.
unfoldable pub first_match : List Rule → Text → Option Rule
unfolding matches
first_match [] model = none
first_match (rule ∷ rules) model = if matches rule model then some rule else first_match rules model

unfoldable pub match_openai_rule : Text → Option Rule
unfolding first_match
match_openai_rule model = first_match openai_embedding_dimension_rules model

unfoldable pub match_jina_rule : Text → Option Rule
unfolding first_match
match_jina_rule model = first_match jina_embedding_dimension_rules model
