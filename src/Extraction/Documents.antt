-- ===== src/Extraction/Documents.antt =====
-- `LlamaIndexTextExtractor` of llama_index_extractor.py and `LlamaCloudParseExtractor` of
-- llama_cloud_parse_extractor.py. The readers of LlamaIndex on a temporary file, LlamaCloud's service,
-- `Path(…).suffix` and `bytes.decode` are parameters.
pub mod Laws
use rag_document_processor.Prelude.{
  ℕ, ◌≡◌, Bool, true, false, ◌&&◌, ◌||◌, not, Option, none, some, List, [], ◌∷◌, ◌++◌, keep, map,
  sort_by, if◌then◌else◌,
}
use rag_document_processor.Prelude.Text.{
  Text, codes, text_eq, one_of, nonempty, truthy, or_text, strip, lower, before,
}
use rag_document_processor.Domain.Exceptions.{
  Result, ok, err, ◌>>=◌, ◌>>◌, guard, unsupported_mime_type, runtime_error,
}
use rag_document_processor.Options.Choices.{Settings}

pub record MarkdownPage : Type 0 where
  pub page_number : ℕ
  pub success : Bool
  pub markdown : Text
  pub header : Option Text
  pub footer : Option Text

pub record TextPage : Type 0 where
  pub page_number : ℕ
  pub text : Text

-- The attributes of LlamaCloud's reply that are read.
pub record Parsed : Type 0 where
  pub markdown : Option (List MarkdownPage)
  pub text : Option (List TextPage)

-- "\n\n".join(parts)
unfoldable pub join_blocks : List Text → Text
join_blocks [] = []
join_blocks (p ∷ []) = p
join_blocks (p ∷ q ∷ ps) = p ++ 10 ∷ 10 ∷ join_blocks (q ∷ ps)

abbrev pub with_header : Option Text → Text → Text
with_header header body = if truthy header then or_text header [] ++ 10 ∷ 10 ∷ body else body

abbrev pub with_footer : Option Text → Text → Text
with_footer footer body = if truthy footer then body ++ 10 ∷ 10 ∷ or_text footer [] else body

abbrev pub page_body : MarkdownPage → Text
page_body page = with_footer page.footer (with_header page.header page.markdown)

-- The parts of the pages that were parsed
unfoldable pub markdown_parts : Option (List MarkdownPage) → List Text
markdown_parts none = []
markdown_parts (some pages) =
    map page_body (keep (λ page. page.success) (sort_by (λ page. page.page_number) pages))

-- where the reply has no text, or none of its pages
unfoldable pub text_of_pages : Option (List TextPage) → Text
text_of_pages none = []
text_of_pages (some pages) =
    join_blocks (map (λ page. page.text) (sort_by (λ page. page.page_number) pages))

abbrev pub first_parts : List Text → Text → Text
first_parts [] other = other
first_parts (p ∷ ps) other = join_blocks (p ∷ ps)

-- `_parse_response_to_text`
unfoldable pub parse_response_to_text : Parsed → Text
parse_response_to_text parsed =
    first_parts (markdown_parts parsed.markdown) (text_of_pages parsed.text)

abbrev pub pdf_type : Text
pdf_type = codes "application/pdf"

abbrev pub docx_type : Text
docx_type = codes "application/vnd.openxmlformats-officedocument.wordprocessingml.document"

abbrev pub is_plain : Text → Text → Bool
is_plain ctype suffix =
    one_of ctype (codes "text/plain" ∷ codes "text/markdown" ∷ [])
    || one_of suffix (codes ".txt" ∷ codes ".md" ∷ [])

abbrev pub is_pdf : Text → Text → Bool
is_pdf ctype suffix = text_eq ctype pdf_type || text_eq suffix (codes ".pdf")

abbrev pub is_docx : Text → Text → Bool
is_docx ctype suffix = text_eq ctype docx_type || text_eq suffix (codes ".docx")

-- `_default_upload_name`
unfoldable pub default_upload_name : Text → Text → Option Text → Text
default_upload_name ctype suffix filename =
    if truthy filename
    then or_text filename []
    else if one_of suffix (codes ".pdf" ∷ codes ".docx" ∷ [])
    then codes "document" ++ suffix
    else if text_eq ctype pdf_type
    then codes "document.pdf"
    else if text_eq ctype docx_type
    then codes "document.docx"
    else codes "document.bin"

-- `ctype or (…)`
abbrev pub upload_type : Text → Text → Text
upload_type [] suffix =
    if text_eq suffix (codes ".pdf")
    then pdf_type
    else if text_eq suffix (codes ".docx")
    then docx_type
    else codes "application/octet-stream"
upload_type (c ∷ ctype) suffix = c ∷ ctype

-- `["text"] if … == "fast" else ["markdown", "text"]`
unfoldable pub expand_of : Text → List Text
expand_of tier =
    if text_eq (lower (strip tier)) (codes "fast")
    then codes "text" ∷ []
    else codes "markdown" ∷ codes "text" ∷ []

-- `(content_type or "").split(";")[0].strip().lower()`
unfoldable pub bare_type : Option Text → Text
bare_type content_type = lower (strip (before 59 (or_text content_type [])))

-- What the extractors call.
pub record Readers : Type 0 where
  -- Path(name).suffix
  pub suffix : Text → Text
  -- data.decode("utf-8", errors="replace")
  pub decode : List ℕ → Text
  -- The texts of the documents that a reader loads
  pub load_pdf : List ℕ → Result (List Text)
  pub load_docx : List ℕ → Result (List Text)
  -- `client.parsing.parse`: the key, the name, the data, the type, the tier and `expand`
  pub parse : Text → Text → List ℕ → Text → Text → List Text → Result Parsed

module _ (R : Readers) where
  abbrev pub suffix_of : Option Text → Text
  suffix_of filename = lower (R.suffix (or_text filename []))

  -- `LlamaIndexTextExtractor.extract`
  unfoldable pub local_extract : List ℕ → Option Text → Option Text → Result Text
  local_extract data_ content_type filename =
      let ctype = bare_type content_type in
      let suffix = suffix_of filename in
      if is_plain ctype suffix
      then ok (R.decode data_)
      else if is_pdf ctype suffix
      then (R.load_pdf data_ >>= λ docs. ok (join_blocks docs))
      else if is_docx ctype suffix
      then (R.load_docx data_ >>= λ docs. ok (join_blocks docs))
      else err (unsupported_mime_type (or_text content_type []))

  -- `_uses_cloud_parse`
  unfoldable pub uses_cloud_parse : Settings → Text → Text → Bool
  uses_cloud_parse settings ctype suffix =
      truthy settings.llama_cloud_api_key && (is_pdf ctype suffix || is_docx ctype suffix)

  -- The part of `LlamaCloudParseExtractor.extract` that LlamaCloud is for
  unfoldable pub cloud_parse :
      Settings → List ℕ → Text → Text → Option Text → Option Text → Result Text
  cloud_parse settings data_ ctype suffix filename llama_parse_tier = do
    let tier = or_text llama_parse_tier settings.llama_parse_tier
    parsed ←
        R.parse (or_text settings.llama_cloud_api_key [])
          (default_upload_name ctype suffix filename) data_ (upload_type ctype suffix) tier
          (expand_of tier)
    guard (nonempty (strip (parse_response_to_text parsed)))
        (runtime_error (codes "LlamaCloud parse returned no text or markdown content"))
    ok (parse_response_to_text parsed)

  -- `LlamaCloudParseExtractor.extract`, with the other extractor as its fallback
  unfoldable pub cloud_extract :
      Settings → List ℕ → Option Text → Option Text → Option Text → Result Text
  cloud_extract settings data_ content_type filename llama_parse_tier =
      let ctype = bare_type content_type in
      let suffix = suffix_of filename in
      if is_plain ctype suffix
      then ok (R.decode data_)
      else if uses_cloud_parse settings ctype suffix
      then cloud_parse settings data_ ctype suffix filename llama_parse_tier
      else local_extract data_ content_type filename
