-- ===== src/Tests/Texts.antt =====
-- Chunks, batches and JSON on small inputs.
use rag_document_processor.Prelude.{
  ℕ, suc, ◌+◌, ◌≤◌, ◌≡◌, refl, ap, none, some, List, [], ◌∷◌, arith, length, keep, concat, All, map,
}
use rag_document_processor.Prelude.Int.{pos}
use rag_document_processor.Prelude.Text.{Text, codes, nonempty}
use rag_document_processor.Prelude.Text.Laws.{squeeze}
use rag_document_processor.Domain.Exceptions.{ok}
use rag_document_processor.LateChunk.Sentences.Runs.{unroll, heads, NoRepeats}
use rag_document_processor.LateChunk.Merge.Content.{squeeze-merge_segments}
use rag_document_processor.LateChunk.Merge.Bounds.{
  NoFragments, simple_token_count-IsAdditive, merge_segments-NoFragments, merge_segments-AtMost,
}
use rag_document_processor.LateChunk.Enhance.{newline}
use rag_document_processor.LateChunk.Enhance.Content.{squeeze-enhance_chunks}
use rag_document_processor.LateChunk.Batch.Laws.{is_full, Fits, IsPacked, batch_chunks_lem}
use rag_document_processor.Pipelines.Plain
use rag_document_processor.Pipelines.Plain.Laws.{vectors_of, process-segments}
use rag_document_processor.Pipelines.Late.Laws.{
  texts_of, Numbered, Yields, process-Numbered, process-Yields,
}
use rag_document_processor.Ingest.Segments.{
  or_one_empty, texts_from_source_text, text_payload, texts_from_source_text-text_payload,
}
use rag_document_processor.Tests.Fixtures.{measure}
use rag_document_processor.LateChunk.Batch.{batch_chunks}
use rag_document_processor.LateChunk.Enhance.{expand, enhance_chunks}
use rag_document_processor.LateChunk.Merge.{merge_segments}
use rag_document_processor.LateChunk.Sentences.{simple_token_count, clean, dedupe_adjacent}
use rag_document_processor.Pipelines.Late.{process}

abbrev three : List Text
three = codes "a b" ∷ codes "c" ∷ codes "d e f" ∷ []

merge_three :
    merge_segments simple_token_count newline (pos 2) (pos 3) three
    ≡ ok ((97 ∷ 32 ∷ 98 ∷ 10 ∷ 99 ∷ []) ∷ codes "d e f" ∷ [])
unfolding merge_segments simple_token_count
merge_three = refl

squeeze-merge_segments_example :
    squeeze (concat ((97 ∷ 32 ∷ 98 ∷ 10 ∷ 99 ∷ []) ∷ codes "d e f" ∷ [])) ≡ squeeze (concat three)
unfolding squeeze
squeeze-merge_segments_example =
    squeeze-merge_segments simple_token_count newline (pos 2) (pos 3) three refl merge_three

merge_segments-NoFragments_example :
    NoFragments simple_token_count newline simple_token_count-IsAdditive 2 3
      ((97 ∷ 32 ∷ 98 ∷ 10 ∷ 99 ∷ []) ∷ codes "d e f" ∷ [])
merge_segments-NoFragments_example =
    merge_segments-NoFragments simple_token_count newline simple_token_count-IsAdditive 2 3 three
      (omega arith) merge_three

merge_segments-AtMost_example :
    All (λ c. simple_token_count c ≤ 3 + 2 + 2) ((97 ∷ 32 ∷ 98 ∷ 10 ∷ 99 ∷ []) ∷ codes "d e f" ∷ [])
unfolding merge_segments simple_token_count
merge_segments-AtMost_example =
    merge_segments-AtMost simple_token_count newline simple_token_count-IsAdditive 2 3 three
      (omega arith, (omega arith, (omega arith, tt))) merge_three

-- A splitter that overlaps by a whole block
abbrev repeated : List Text
repeated = codes "a b" ∷ codes "d e f" ∷ codes "d e f" ∷ []

squeeze-enhance_chunks_example :
    (expanded out : List Text) × (runs : List (Text × ℕ)) × (expand simple_token_count
        (pos 3)
        repeated
      ≡ ok expanded)
    × (enhance_chunks simple_token_count (pos 2) (pos 3) newline repeated ≡ ok out)
    × (squeeze (concat expanded) ≡ squeeze (concat repeated))
    × (expanded ≡ unroll runs)
    × NoRepeats (heads runs)
    × (squeeze (concat out) ≡ squeeze (concat (heads runs)))
unfolding squeeze
squeeze-enhance_chunks_example = squeeze-enhance_chunks simple_token_count 2 2 newline repeated refl

batch_chunks_lem_example :
    (batches : List (List Text)) × (batch_chunks simple_token_count (pos 4) three ≡ ok batches)
    × (concat batches ≡ keep is_full three)
    × All (Fits simple_token_count 4) batches
    × IsPacked simple_token_count 4 batches
batch_chunks_lem_example = batch_chunks_lem simple_token_count 3 three

abbrev meta : ℕ
meta = 5

length-map : (ts : List Text) → length (map length ts) ≡ length ts
length-map [] = refl
length-map (t ∷ ts) = ap suc (length-map ts)

process-Numbered_example :
    Numbered 0
      (process simple_token_count
        (λ texts. ok (measure texts))
        meta
        none
        (pos 2)
        (pos 3)
        (pos 4)
        (ok three)).items
process-Numbered_example =
    process-Numbered simple_token_count (λ texts. ok (measure texts)) meta none (pos 2) (pos 3)
      (pos 4) (ok three)

process-Yields_example :
    (out : List Text) × (enhance_chunks simple_token_count
        (pos 2)
        (pos 3)
        newline
        (dedupe_adjacent (clean three))
      ≡ ok out)
    × Yields simple_token_count
        (λ texts. ok (measure texts))
        meta
        none
        (process simple_token_count
          (λ texts. ok (measure texts))
          meta
          none
          (pos 2)
          (pos 3)
          (pos 4)
          (ok three))
        (keep is_full out)
process-Yields_example =
    process-Yields simple_token_count (λ texts. ok (measure texts)) meta none 2 2 3 three
      (λ ts. (measure ts, refl, length-map ts))

texts_from_source_text-text_payload_example :
    texts_from_source_text (some (text_payload (codes "a" ∷ [] ∷ codes "b" ∷ [])))
    ≡ or_one_empty (keep nonempty (codes "a" ∷ [] ∷ codes "b" ∷ []))
texts_from_source_text-text_payload_example =
    texts_from_source_text-text_payload (codes "a" ∷ [] ∷ codes "b" ∷ [])

process-segments_example :
    ((Plain.process (λ texts. ok (measure texts)) meta none (ok three)).raised ≡ none)
    × (texts_of (Plain.process (λ texts. ok (measure texts)) meta none (ok three)).items ≡ three)
    × (vectors_of
          (λ texts. ok (measure texts))
          meta
          none
          (Plain.process (λ texts. ok (measure texts)) meta none (ok three)).items
        ≡ map length three)
    × Numbered 0 (Plain.process (λ texts. ok (measure texts)) meta none (ok three)).items
process-segments_example =
    process-segments (λ texts. ok (measure texts)) meta none length three (λ seg. refl)
