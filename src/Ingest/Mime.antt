-- ===== src/Ingest/Mime.antt =====
-- Content types: `_normalize_ctype` of process_job.py, which submit.py writes out, and
-- `Settings.allowed_mime_set` of core/config.py.
use rag_document_processor.Prelude.{Option, List}
use rag_document_processor.Prelude.Text.{Text, codes, or_text, strip, lower, before, split_on}
use rag_document_processor.Options.Choices.{Settings}
use rag_document_processor.LateChunk.Sentences.{clean}

abbrev pub octet_stream : Text
octet_stream = codes "application/octet-stream"

unfoldable pub normalize_ctype : Option Text → Text
unfolding before strip lower
normalize_ctype ctype = lower (strip (before 59 (or_text ctype octet_stream)))

unfoldable pub allowed_mime_set : Settings → List Text
unfolding split_on clean
allowed_mime_set settings = clean (split_on 44 settings.allowed_upload_content_types)
