-- ===== src/Extraction/Documents/Laws.antt =====
-- What LlamaCloud is asked for, and what becomes of its pages.
use mathlib.Core.List.{Permᴰ}
use rag_document_processor.Prelude.{
  ℕ, ◌≡◌, Bool, true, false, ◌&&◌, Option, none, some, List, [], ◌∷◌, map, keep, Ascending,
  if◌then◌else◌,
}
use rag_document_processor.Prelude.Text.{Text, codes, text_eq, one_of, nonempty, strip, lower}
use rag_document_processor.Domain.Exceptions.{Result, ok, err, runtime_error}
use rag_document_processor.Extraction.Documents.{
  Readers, MarkdownPage, TextPage, page_body, join_blocks, pdf_type, docx_type,
}

-- A document as LlamaCloud reads it, its pages in order
pub record Document : Type 0 where
  pub markdown : List MarkdownPage
  pub text : List TextPage
  pub markdown_order : Ascending (λ (p : MarkdownPage). p.page_number) markdown
  pub text_order : Ascending (λ (p : TextPage). p.page_number) text

abbrev pub is_fast : Text → Bool
is_fast tier = text_eq (lower (strip tier)) (codes "fast")

-- The service parses an upload into a document. It answers a request with what `expand` names, each
-- list of pages in any order, but of a request for markdown with the fast tier nothing is known:
-- LlamaCloud refuses it.
pub record Serves (R : Readers) (key name : Text) (data_ : List ℕ) (kind tier : Text) (D : Document)
    : Type 0 where
  pub markdown : List MarkdownPage
  pub text : List TextPage
  pub markdown_pages : Permᴰ D.markdown markdown
  pub text_pages : Permᴰ D.text text
  pub answers :
      (expand : List Text)
      → (is_fast tier && one_of (codes "markdown") expand) ≡ false
      → R.parse key name data_ kind tier expand
        ≡ ok (record {
          markdown = if one_of (codes "markdown") expand then some markdown else none;
          text = if one_of (codes "text") expand then some text else none;
        })

-- The type that a PDF or DOCX document is sent with: its own, or that of its suffix
pub data Kind (ctype suffix : Text) : Text → Type 0 where
  typed_pdf : ctype ≡ pdf_type → Kind ctype suffix pdf_type
  typed_docx : ctype ≡ docx_type → Kind ctype suffix docx_type
  suffixed_pdf : ctype ≡ [] → suffix ≡ codes ".pdf" → Kind ctype suffix pdf_type
  suffixed_docx : ctype ≡ [] → suffix ≡ codes ".docx" → Kind ctype suffix docx_type

-- The name that it is sent with: its own, or one that goes by its type
pub data Name (ctype suffix : Text) : Option Text → Text → Type 0 where
  own_name : (c : ℕ) (name : Text) → Name ctype suffix (some (c ∷ name)) (c ∷ name)
  pdf_name : ctype ≡ pdf_type → suffix ≡ [] → Name ctype suffix none (codes "document.pdf")
  docx_name : ctype ≡ docx_type → suffix ≡ [] → Name ctype suffix none (codes "document.docx")

abbrev pub plain_text : List TextPage → Text
plain_text pages = join_blocks (map (λ (p : TextPage). p.text) pages)

-- The pages that could be parsed as markdown, or the plain text where there is none of these
abbrev pub or_plain : List Text → Text → Text
or_plain [] plain = plain
or_plain (p ∷ ps) plain = join_blocks (p ∷ ps)

abbrev pub text_for : Bool → Document → Text
text_for true D = plain_text D.text
text_for false D =
    or_plain (map page_body (keep (λ (p : MarkdownPage). p.success) D.markdown)) (plain_text D.text)

abbrev pub or_no_content : Text → Result Text
or_no_content text =
    if nonempty (strip text)
    then ok text
    else err (runtime_error (codes "LlamaCloud parse returned no text or markdown content"))
