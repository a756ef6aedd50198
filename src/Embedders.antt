-- ===== src/Embedders.antt =====
-- infrastructure/embedders/: `JinaEmbedder` and `OpenAIEmbedder`. The two services are parameters: what
-- each answers to a payload, or the exception that its client raises.
use mathlib.Core.List.{Permᴰ}
use rag_document_processor.Prelude.{
  ℕ, suc, ◌≡◌, refl, Bool, true, false, Option, none, some, List, [], ◌∷◌, sort_by, Ascending,
  sort_by-Permᴰ, arith,
}
use rag_document_processor.Prelude.Int.{ℤ}
use rag_document_processor.Prelude.Text.{Text, codes}
use rag_document_processor.Domain.Exceptions.{
  Result, ok, err, ◌>>=◌, value_error, other_error, or_raise,
}
use rag_document_processor.Pipelines.Factory.{Embedder, jina_embedder, openai_embedder}

-- What a request holds; OpenAI's has no `late_chunking`.
pub record Payload : Type 0 where
  pub model : Text
  pub input : List Text
  pub late_chunking : Option Bool
  pub dimensions : Option ℤ

-- An item of Jina's JSON, where either key may be missing
pub record JinaItem (V : Type 0) : Type 0 where
  pub index : Option ℕ
  pub embedding : Option V

pub record OpenaiItem (V : Type 0) : Type 0 where
  pub index : ℕ
  pub embedding : V

pub record Services (V : Type 0) : Type 0 where
  -- the API key and the payload; `none` is a reply without the key "data"
  pub jina_post : Text → Payload → Result (Option (List (JinaItem V)))
  pub openai_create : Text → Payload → Result (List (OpenaiItem V))

abbrev pub or_zero : Option ℕ → ℕ
or_zero none = 0
or_zero (some n) = n

abbrev pub or_no_items : {V : Type 0} → Option (List (JinaItem V)) → List (JinaItem V)
or_no_items none = []
or_no_items (some items) = items

module _ {V : Type 0} where
  -- `item["embedding"]` of each item
  unfoldable pub embeddings : List (JinaItem V) → Result (List V)
  embeddings [] = ok []
  embeddings (item ∷ items) = do
    v ← or_raise item.embedding (other_error (codes "KeyError"))
    vs ← embeddings items
    ok (v ∷ vs)

  unfoldable pub openai_embeddings : List (OpenaiItem V) → List V
  openai_embeddings [] = []
  openai_embeddings (item ∷ items) = item.embedding ∷ openai_embeddings items

  module _ (S : Services V) (api_key model : Text) where
    -- `JinaEmbedder.embed_texts`
    unfoldable pub jina_embed : List Text → Bool → Option ℤ → Result (List V)
    jina_embed [] late dimensions = ok []
    jina_embed (t ∷ ts) late dimensions =
        S.jina_post api_key (record {
          model = model;
          input = t ∷ ts;
          late_chunking = some late;
          dimensions = dimensions;
        })
        >>= λ reply. embeddings (sort_by (λ item. or_zero item.index) (or_no_items reply))

    -- `OpenAIEmbedder.embed_texts`
    unfoldable pub openai_embed : List Text → Bool → Option ℤ → Result (List V)
    openai_embed texts true dimensions =
        err (value_error (codes "OpenAI embedder does not support late_chunking"))
    openai_embed [] false dimensions = ok []
    openai_embed (t ∷ ts) false dimensions =
        S.openai_create api_key
          (record { model = model; input = t ∷ ts; late_chunking = none; dimensions = dimensions })
        >>= λ items. ok (openai_embeddings (sort_by (λ item. item.index) items))

  unfoldable pub embed_texts : Services V → Embedder → List Text → Bool → Option ℤ → Result (List V)
  embed_texts S (jina_embedder api_key model) texts late dimensions =
      jina_embed S api_key model texts late dimensions
  embed_texts S (openai_embedder api_key model) texts late dimensions =
      openai_embed S api_key model texts late dimensions

  -- The items of these embeddings, each with its place, from `n` on
  abbrev pub jina_items : ℕ → List V → List (JinaItem V)
  jina_items n [] = []
  jina_items n (v ∷ vs) = record { index = some n; embedding = some v } ∷ jina_items (suc n) vs

  abbrev pub openai_items : ℕ → List V → List (OpenaiItem V)
  openai_items n [] = []
  openai_items n (v ∷ vs) = record { index = n; embedding = v } ∷ openai_items (suc n) vs

  -- The service answers the request with these embeddings: each item names the place of its text, and
  -- the items come in any order.
  abbrev pub Answers : Services V → Embedder → List Text → Bool → Option ℤ → List V → Type 0
  Answers S (jina_embedder api_key model) texts late dimensions vs =
      (items : List (JinaItem V)) × (S.jina_post api_key (record {
        model = model;
        input = texts;
        late_chunking = some late;
        dimensions = dimensions;
      })
        ≡ ok (some items))
      × Permᴰ (jina_items 0 vs) items
  Answers S (openai_embedder api_key model) texts late dimensions vs =
      (items : List (OpenaiItem V)) × (late ≡ false)
      × (S.openai_create api_key
            (record { model = model; input = texts; late_chunking = none; dimensions = dimensions })
          ≡ ok items)
      × Permᴰ (openai_items 0 vs) items

  jina_items-Ascending :
      (n : ℕ) (vs : List V) → Ascending (λ item. or_zero item.index) (jina_items n vs)
  jina_items-Ascending n [] = tt
  jina_items-Ascending n (v ∷ []) = (tt, tt)
  jina_items-Ascending n (v ∷ w ∷ vs) = (omega arith, jina_items-Ascending (suc n) (w ∷ vs))

  openai_items-Ascending :
      (n : ℕ) (vs : List V) → Ascending (λ item. item.index) (openai_items n vs)
  openai_items-Ascending n [] = tt
  openai_items-Ascending n (v ∷ []) = (tt, tt)
  openai_items-Ascending n (v ∷ w ∷ vs) = (omega arith, openai_items-Ascending (suc n) (w ∷ vs))

  embeddings-jina_items : (n : ℕ) (vs : List V) → embeddings (jina_items n vs) ≡ ok vs
  unfolding embeddings
  embeddings-jina_items n [] = refl
  embeddings-jina_items n (v ∷ vs) = rw (embeddings-jina_items (suc n) vs) refl

  openai_embeddings-openai_items :
      (n : ℕ) (vs : List V) → openai_embeddings (openai_items n vs) ≡ vs
  unfolding openai_embeddings
  openai_embeddings-openai_items n [] = refl
  openai_embeddings-openai_items n (v ∷ vs) = rw (openai_embeddings-openai_items (suc n) vs) refl

  -- If the service of the embedder answers a request for some texts with one item for each embedding,
  -- in any order, each naming the place of its text, then `embed_texts` returns the embeddings in the
  -- order of the texts.
  pub embed_texts-Answers :
      (S : Services V) (embedder : Embedder) (t : Text) (ts : List Text) (late : Bool)
      (dimensions : Option ℤ) (vs : List V)
      → Answers S embedder (t ∷ ts) late dimensions vs
      → embed_texts S embedder (t ∷ ts) late dimensions ≡ ok vs
  unfolding embed_texts jina_embed openai_embed
  embed_texts-Answers S (jina_embedder api_key model) t ts late dimensions vs
        (items, answer, order) =
      rw (answer, sort_by-Permᴰ (λ item. or_zero item.index) order (jina_items-Ascending 0 vs))
        (embeddings-jina_items 0 vs)
  embed_texts-Answers S (openai_embedder api_key model) t ts false dimensions vs
        (items, now, answer, order) =
      rw (answer, sort_by-Permᴰ (λ item. item.index) order (openai_items-Ascending 0 vs))
        (rw (openai_embeddings-openai_items 0 vs) refl)
  embed_texts-Answers S (openai_embedder api_key model) t ts true dimensions vs
        (items, now, answer, order) =
      cc
