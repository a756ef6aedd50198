-- ===== src/Pipelines/Late/Laws.antt =====
-- The chunks of the late chunking pipeline: their texts, their order and their numbers.
use rag_document_processor.Prelude.{
  ℕ, suc, ◌≡◌, refl, sym, ap, Option, none, List, [], ◌∷◌, ◌++◌, arith, length, keep, concat, inl,
  inr,
}
use rag_document_processor.Prelude.Int.{ℤ, pos}
use rag_document_processor.Prelude.Text.{Text}
use rag_document_processor.Prelude.Text.Laws.{squeeze}
use rag_document_processor.Domain.Exceptions.{Result, ok, err, Result-cases}
use rag_document_processor.LateChunk.Sentences.{clean, dedupe_adjacent}
use rag_document_processor.LateChunk.Merge.{merge_segments, merge_checked}
use rag_document_processor.LateChunk.Enhance.{newline, expand, enhance_chunks}
use rag_document_processor.LateChunk.Enhance.Content.{squeeze-enhance_chunks}
use rag_document_processor.LateChunk.Batch.{batch_chunks}
use rag_document_processor.LateChunk.Batch.Laws.{is_full, batch_chunks_lem}
use rag_document_processor.Pipelines.Stream.{Stream, EmbeddedChunk}
use rag_document_processor.Pipelines.Late.{
  embedded, yield_batch, embed_batches, embed_all, batch_all, enhance_all, process,
}

module _ {M V : Type 0} where
  abbrev pub texts_of : List (EmbeddedChunk M V) → List Text
  texts_of [] = []
  texts_of (c ∷ cs) = c.text ∷ texts_of cs

  -- The chunks are numbered from `k` on.
  abbrev pub Numbered : ℕ → List (EmbeddedChunk M V) → Type 0
  Numbered k [] = Unit
  Numbered k (c ∷ cs) = (c.metadata.chunk_index ≡ k) × Numbered (suc k) cs

module _ {M V : Type 0} (count_tokens : Text → ℕ) (embed_texts : List Text → Result (List V))
    (metadata : M) (dimensions : Option ℤ) where
  yield_batch-Numbered :
      (b k : ℕ) (ts : List Text) (vs : List V) (rest : ℕ → Stream (EmbeddedChunk M V))
      → ((next : ℕ) → Numbered next (rest next).items)
      → Numbered k (yield_batch count_tokens embed_texts metadata dimensions b k ts vs rest).items
  unfolding yield_batch embedded
  yield_batch-Numbered b k [] [] rest h = h k
  yield_batch-Numbered b k [] (v ∷ vs) rest h = tt
  yield_batch-Numbered b k (t ∷ ts) [] rest h = tt
  yield_batch-Numbered b k (t ∷ ts) (v ∷ vs) rest h =
      (refl, yield_batch-Numbered b (suc k) ts vs rest h)

  embed_batches-Numbered :
      (b k : ℕ) (batches : List (List Text))
      → Numbered k (embed_batches count_tokens embed_texts metadata dimensions b k batches).items
  unfolding embed_batches
  embed_batches-Numbered b k [] = tt
  embed_batches-Numbered b k (batch ∷ batches) = elim (Result-cases (embed_texts batch)) [
    | inr (e, failed) ↦ rw (failed, embed_batches) tt
    | inl (vs, done) ↦
        rw (done, embed_batches)
          (yield_batch-Numbered b k batch vs _
            (λ next. embed_batches-Numbered (suc b) next batches))
  ]

  yield_batch-texts :
      (b k : ℕ) (ts : List Text) (vs : List V) (rest : ℕ → Stream (EmbeddedChunk M V))
      (more : List Text)
      → length vs ≡ length ts
      → ((next : ℕ) → ((rest next).raised ≡ none) × (texts_of (rest next).items ≡ more))
      → ((yield_batch count_tokens embed_texts metadata dimensions b k ts vs rest).raised ≡ none)
        × (texts_of (yield_batch count_tokens embed_texts metadata dimensions b k ts vs rest).items
            ≡ ts ++ more)
  unfolding yield_batch embedded
  yield_batch-texts b k [] [] rest more e h = h k
  yield_batch-texts b k [] (v ∷ vs) rest more e h = absurd (omega (arith, e))
  yield_batch-texts b k (t ∷ ts) [] rest more e h = absurd (omega (arith, e))
  yield_batch-texts b k (t ∷ ts) (v ∷ vs) rest more e h =
      let (none_raised, same) = yield_batch-texts b (suc k) ts vs rest more (omega (arith, e)) h in
      (none_raised, ap (λ l. t ∷ l) same)

  embed_batches-texts :
      (b k : ℕ) (batches : List (List Text))
      → ((ts : List Text) → (vs : List V) × (embed_texts ts ≡ ok vs) × (length vs ≡ length ts))
      → ((embed_batches count_tokens embed_texts metadata dimensions b k batches).raised ≡ none)
        × (texts_of (embed_batches count_tokens embed_texts metadata dimensions b k batches).items
            ≡ concat batches)
  unfolding embed_batches
  embed_batches-texts b k [] works = (refl, refl)
  embed_batches-texts b k (batch ∷ batches) works =
      let (vs, done, same) = works batch in
      rw (done, embed_batches)
        (yield_batch-texts b k batch vs _ (concat batches) same
          (λ next. embed_batches-texts (suc b) next batches works))

  embed_all-Numbered :
      (r : Result (List (List Text)))
      → Numbered 0 (embed_all count_tokens embed_texts metadata dimensions r).items
  embed_all-Numbered (err e) = tt
  embed_all-Numbered (ok batches) = embed_batches-Numbered 0 0 batches

  batch_all-Numbered :
      (batch_tokens : ℤ) (r : Result (List Text))
      → Numbered 0 (batch_all count_tokens embed_texts metadata dimensions batch_tokens r).items
  batch_all-Numbered batch_tokens (err e) = tt
  batch_all-Numbered batch_tokens (ok []) = tt
  batch_all-Numbered batch_tokens (ok (c ∷ cs)) =
      embed_all-Numbered (batch_chunks count_tokens batch_tokens (c ∷ cs))

  enhance_all-Numbered :
      (lo hi batch : ℤ) (chunks : List Text)
      → Numbered 0
          (enhance_all count_tokens embed_texts metadata dimensions lo hi batch chunks).items
  enhance_all-Numbered lo hi batch [] = tt
  enhance_all-Numbered lo hi batch (c ∷ cs) =
      batch_all-Numbered batch (enhance_chunks count_tokens lo hi newline (c ∷ cs))

  -- The chunks that the pipeline yields are numbered 0, 1, 2, … over all its batches, also when an
  -- exception ends it early.
  pub process-Numbered :
      (lo hi batch : ℤ) (blocks : Result (List Text))
      → Numbered 0 (process count_tokens embed_texts metadata dimensions lo hi batch blocks).items
  unfolding process
  process-Numbered lo hi batch (err e) = tt
  process-Numbered lo hi batch (ok blocks) =
      enhance_all-Numbered lo hi batch (dedupe_adjacent (clean blocks))

  -- Nothing is raised, and the texts are these.
  abbrev pub Yields : Stream (EmbeddedChunk M V) → List Text → Type 0
  Yields s ts = (s.raised ≡ none) × (texts_of s.items ≡ ts)

  batch_all-Yields :
      (m : ℕ) (out : List Text)
      → ((ts : List Text) → (vs : List V) × (embed_texts ts ≡ ok vs) × (length vs ≡ length ts))
      → Yields
          (batch_all count_tokens embed_texts metadata dimensions (pos (suc m)) (ok out))
          (keep is_full out)
  batch_all-Yields m [] works = (refl, refl)
  batch_all-Yields m (c ∷ cs) works =
      let (batches, e, same, _, _) = batch_chunks_lem count_tokens m (c ∷ cs) in
      rw (e, sym same) (embed_batches-texts 0 0 batches works)

  enhance_all-Yields :
      (lo hi m : ℕ) (chunks out : List Text)
      → ((ts : List Text) → (vs : List V) × (embed_texts ts ≡ ok vs) × (length vs ≡ length ts))
      → enhance_chunks count_tokens (pos lo) (pos (suc hi)) newline chunks ≡ ok out
      → Yields
          (enhance_all count_tokens embed_texts metadata dimensions
            (pos lo)
            (pos (suc hi))
            (pos (suc m))
            chunks)
          (keep is_full out)
  unfolding enhance_chunks expand dedupe_adjacent merge_segments merge_checked clean
  enhance_all-Yields lo hi m [] out works e = (refl, ap (keep is_full) (nothing out e))
    where
      nothing : (o : List Text) → ok [] ≡ ok o → [] ≡ o
      nothing o h = cc
  enhance_all-Yields lo hi m (c ∷ cs) out works e = rw e (batch_all-Yields m out works)

  -- If every request for vectors is answered by one vector for each text, the maximum and the budget
  -- of a batch are positive and the minimum is not negative, then the pipeline raises nothing:
  -- `enhance_chunks` returns, and each of its chunks that is not blank is yielded, in order.
  pub process-Yields :
      (lo hi m : ℕ) (blocks : List Text)
      → ((ts : List Text) → (vs : List V) × (embed_texts ts ≡ ok vs) × (length vs ≡ length ts))
      → (out : List Text) × (enhance_chunks count_tokens
            (pos lo)
            (pos (suc hi))
            newline
            (dedupe_adjacent (clean blocks))
          ≡ ok out)
        × Yields
            (process count_tokens embed_texts metadata dimensions
              (pos lo)
              (pos (suc hi))
              (pos (suc m))
              (ok blocks))
            (keep is_full out)
  unfolding process squeeze
  process-Yields lo hi m blocks works =
      let (_, out, _, _, e, _, _, _, _) =
        squeeze-enhance_chunks count_tokens lo hi newline (dedupe_adjacent (clean blocks))
          newline-squeeze in
      (out, e, enhance_all-Yields lo hi m (dedupe_adjacent (clean blocks)) out works e)
    where
      newline-squeeze : squeeze newline ≡ []
      newline-squeeze = refl
