-- ===== src/Pipelines/Plain/Laws.antt =====
-- The chunks of the plain pipeline: one for each segment, in order.
use rag_document_processor.Prelude.{ℕ, suc, ◌≡◌, refl, ap, Option, none, List, [], ◌∷◌, map}
use rag_document_processor.Prelude.Int.{ℤ}
use rag_document_processor.Prelude.Text.{Text}
use rag_document_processor.Domain.Exceptions.{Result, ok}
use rag_document_processor.Pipelines.Stream.{EmbeddedChunk}
use rag_document_processor.Pipelines.Late.Laws.{texts_of, Numbered}
use rag_document_processor.Pipelines.Plain.{embedded, embed_segments, process}

module _ {M V : Type 0} (embed_texts : List Text → Result (List V)) (metadata : M)
    (dimensions : Option ℤ) where
  abbrev pub vectors_of : List (EmbeddedChunk M V) → List V
  vectors_of [] = []
  vectors_of (c ∷ cs) = c.embedding ∷ vectors_of cs

  embed_segments_lem :
      (vector : Text → V) (k : ℕ) (segs : List Text)
      → ((seg : Text) → embed_texts (seg ∷ []) ≡ ok (vector seg ∷ []))
      → ((embed_segments embed_texts metadata dimensions k segs).raised ≡ none)
        × (texts_of (embed_segments embed_texts metadata dimensions k segs).items ≡ segs)
        × (vectors_of (embed_segments embed_texts metadata dimensions k segs).items
            ≡ map vector segs)
        × Numbered k (embed_segments embed_texts metadata dimensions k segs).items
  unfolding embed_segments embedded
  embed_segments_lem vector k [] works = (refl, refl, refl, tt)
  embed_segments_lem vector k (seg ∷ segs) works =
      let (finished, texts, vectors, numbered) = embed_segments_lem vector (suc k) segs works in
      rw (works seg, embed_segments)
        (finished, ap (λ l. seg ∷ l) texts, ap (λ l. vector seg ∷ l) vectors, (refl, numbered))

  -- If the request for one text is answered by its vector, then the pipeline raises nothing and
  -- yields one chunk for each segment: its text, its vector, and its number from 0 on.
  pub process-segments :
      (vector : Text → V) (segs : List Text)
      → ((seg : Text) → embed_texts (seg ∷ []) ≡ ok (vector seg ∷ []))
      → ((process embed_texts metadata dimensions (ok segs)).raised ≡ none)
        × (texts_of (process embed_texts metadata dimensions (ok segs)).items ≡ segs)
        × (vectors_of (process embed_texts metadata dimensions (ok segs)).items ≡ map vector segs)
        × Numbered 0 (process embed_texts metadata dimensions (ok segs)).items
  unfolding process
  process-segments vector segs works = embed_segments_lem vector 0 segs works
