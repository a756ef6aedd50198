-- ===== src/Ingest/Segments.antt =====
-- `texts_from_source_text` of application/use_cases/ingestion/process_job.py
use rag_document_processor.Prelude.{◌≡◌, refl, ap, ◌∙◌, Option, none, some, List, [], ◌∷◌, keep}
use rag_document_processor.Prelude.Text.{Text, nonempty}
use rag_document_processor.Json.{dumps, loads}
use rag_document_processor.Json.RoundTrip.{loads-dumps}

abbrev pub or_one_empty : List Text → List Text
or_one_empty [] = [] ∷ []
or_one_empty (s ∷ ss) = s ∷ ss

abbrev or_raw : Text → Option (List Text) → List Text
or_raw raw none = raw ∷ []
or_raw raw (some segments) = or_one_empty segments

abbrev segments_of_raw : Text → List Text
segments_of_raw [] = [] ∷ []
segments_of_raw (c ∷ raw) = or_raw (c ∷ raw) (loads (c ∷ raw))

unfoldable pub texts_from_source_text : Option Text → List Text
texts_from_source_text none = [] ∷ []
texts_from_source_text (some raw) = segments_of_raw raw

-- `[t for t in texts if t]` and its JSON, which the submission of texts stores
unfoldable pub text_payload : List Text → Text
text_payload texts = dumps (keep nonempty texts)

dumps-cons :
    (segs : List Text) → segments_of_raw (dumps segs) ≡ or_raw (dumps segs) (loads (dumps segs))
unfolding dumps
dumps-cons [] = refl
dumps-cons (s ∷ ss) = refl

-- The worker reads the texts that were submitted, but for the empty ones; where no text is left it
-- reads one empty text.
pub texts_from_source_text-text_payload :
    (texts : List Text)
    → texts_from_source_text (some (text_payload texts)) ≡ or_one_empty (keep nonempty texts)
unfolding texts_from_source_text text_payload
texts_from_source_text-text_payload texts =
    dumps-cons (keep nonempty texts)
    ∙ ap (or_raw (dumps (keep nonempty texts))) (loads-dumps (keep nonempty texts))
