-- ===== src/Tests/Adapters.antt =====
-- The adapters on small inputs: windows, a fetched body, embeddings, a parsed document, stored blobs.
use mathlib.Core.List.{Permᴰ}
use rag_document_processor.Prelude.{
  ℕ, ◌+◌, ◌-◌, suc, ◌≤◌, ◌≡◌, ◌≢◌, refl, sym, ap, ◌∙◌, true, false, ◌&&◌, Option, none, some, List,
  [], ◌∷◌, map, concat, length, arith, if◌then◌else◌, inl, inr, Bool-cases,
}
use rag_document_processor.Prelude.Int.{pos}
use rag_document_processor.Prelude.Text.{
  Text, codes, text_eq, one_of, before, strip, lower, contains, starts_with,
}
use rag_document_processor.Prelude.Text.Laws.{text_eq_refl, text_eq-eq}
use rag_document_processor.Domain.Exceptions.{Result, ok, err, other_error}
use rag_document_processor.Options.Choices.{Settings}
use rag_document_processor.Options.Coerce.{int_of_text}
use rag_document_processor.LateChunk.Sentences.{clean}
use rag_document_processor.Splitters.{token_windows, token_split}
use rag_document_processor.Splitters.Windows.{
  Covered, token_split-Covered, token_windows-fuel, one_apart, token_windows-one_apart,
}
use rag_document_processor.Extraction.Fetch.{
  Response, response, plain_ctype, check_length, read_parts, read_response, fetch, fetch-bound,
}
use rag_document_processor.Extraction.Documents.{
  Readers, Parsed, MarkdownPage, TextPage, join_blocks, bare_type, local_extract, uses_cloud_parse,
  cloud_extract,
}
use rag_document_processor.Extraction.Documents.Laws.{Document, is_fast}
use rag_document_processor.Pipelines.Factory.{jina_embedder}
use rag_document_processor.Embedders.{Services, JinaItem, embed_texts, embed_texts-Answers}
use rag_document_processor.Ingest.Submit.{blob_key_of}
use rag_document_processor.Storage.{safe_path, Files, IsFiles, put, get_bytes}
use rag_document_processor.Storage.Laws.{safe_path-Confined, get_bytes-put}
use rag_document_processor.Tests.Fixtures.{settings}

-- Each code point is a token.
abbrev whole : Text → Text
whole s = s

token_split-Covered_example :
    (windows : List Text) × (token_split whole whole 3 1 (codes "abcde")
      ≡ clean (map whole windows))
    × Covered 3 1 (codes "abcde") windows
token_split-Covered_example = token_split-Covered whole whole 3 1 (codes "abcde") (omega arith)

token_windows-fuel_example :
    token_windows 3 1 (codes "abcde") (length (codes "abcde") + 4) 0
    ≡ token_windows 3 1 (codes "abcde") (length (codes "abcde")) 0
token_windows-fuel_example = token_windows-fuel 3 1 (codes "abcde") 4

token_windows-one_apart_example :
    (token_windows 2 128 (codes "abcde") (length (codes "abcde")) 0
      ≡ one_apart 2 (codes "abcde") 0 (suc (length (codes "abcde") - 2)))
    × (length (token_windows 2 128 (codes "abcde") (length (codes "abcde")) 0)
        ≡ suc (length (codes "abcde") - 2))
token_windows-one_apart_example =
    token_windows-one_apart 2 128 (codes "abcde") (omega arith) (omega arith) (omega arith)

abbrev pub page : Response
page = record {
  content_length = some (codes "3");
  content_type = some (codes "text/plain; charset=utf-8");
  parts = codes "ab" ∷ codes "c" ∷ [];
  broken = none;
}

page_fetched :
    fetch (before 58) (λ url. response page) (pos 4) (codes "http://a")
    ≡ ok (codes "abc", some (codes "text/plain"))
unfolding fetch read_response read_parts check_length one_of text_eq before int_of_text strip
page_fetched = refl

fetch-bound_example :
    (one_of (before 58 (codes "http://a")) (codes "http" ∷ codes "https" ∷ []) ≡ true)
    × ((r : Response) × (response page ≡ response r)
        × (r.broken ≡ none)
        × (codes "abc" ≡ concat r.parts)
        × (length (codes "abc") ≤ 4)
        × (some (codes "text/plain") ≡ plain_ctype r.content_type))
fetch-bound_example =
    fetch-bound (before 58) (λ url. response page) 4 (codes "http://a") (codes "abc")
      (some (codes "text/plain")) page_fetched

abbrev swapped : List (JinaItem ℕ)
swapped =
    record { index = some 1; embedding = some 8 }
    ∷ record { index = some 0; embedding = some 9 }
    ∷ []

abbrev pub services : Services ℕ
services = record {
  jina_post = λ key payload. ok (some swapped);
  openai_create = λ key payload. err (other_error (codes "AuthenticationError"));
}

embed_texts-Answers_example :
    embed_texts services
      (jina_embedder (codes "k") (codes "m"))
      (codes "a" ∷ codes "b" ∷ [])
      true
      none
    ≡ ok (9 ∷ 8 ∷ [])
embed_texts-Answers_example =
    embed_texts-Answers services (jina_embedder (codes "k") (codes "m")) (codes "a")
      (codes "b" ∷ []) true none (9 ∷ 8 ∷ []) (swapped, refl, Permᴰ.swap refl refl)

abbrev pub readers : Readers
readers = record {
  suffix = λ name. codes ".pdf";
  decode = whole;
  load_pdf = λ data_. ok (data_ ∷ []);
  load_docx = λ data_. ok (data_ ∷ []);
  parse = λ key name data_ ctype tier expand. ok (record { markdown = none; text = none });
}

abbrev pdf : Option Text
pdf = some (codes "application/pdf")

pdf_extracted :
    cloud_extract readers settings (codes "abc") pdf (some (codes "f.pdf")) none ≡ ok (codes "abc")
unfolding cloud_extract uses_cloud_parse local_extract one_of bare_type lower strip before
    join_blocks
pdf_extracted = refl

-- LlamaCloud reads a document of two pages, and answers with the second one in front.
abbrev first_page : TextPage
first_page = record { page_number = 1; text = codes "a" }

abbrev second_page : TextPage
second_page = record { page_number = 2; text = codes "b" }

abbrev only_markdown : MarkdownPage
only_markdown = record {
  page_number = 1;
  success = true;
  markdown = codes "# a";
  header = none;
  footer = none;
}

abbrev two_pages : Document
two_pages = record {
  markdown = only_markdown ∷ [];
  text = first_page ∷ second_page ∷ [];
  markdown_order = (tt, tt);
  text_order = (omega arith, (tt, tt));
}

abbrev cloud_reply : List Text → Result Parsed
cloud_reply expand = ok (record {
  markdown = if one_of (codes "markdown") expand then some (only_markdown ∷ []) else none;
  text = if one_of (codes "text") expand then some (second_page ∷ first_page ∷ []) else none;
})

abbrev cloud_readers : Readers
cloud_readers = record readers {
  parse = λ key name data_ ctype tier expand.
      if is_fast tier && one_of (codes "markdown") expand
      then err (other_error (codes "BadRequestError"))
      else cloud_reply expand;
}

abbrev with_cloud : Settings
with_cloud = record settings { llama_cloud_api_key = some (codes "k") }

safe_path-Confined_example :
    (contains (safe_path (codes "/a/../b")) (codes "..") ≡ false)
    × (starts_with (safe_path (codes "/a/../b")) (codes "/") ≡ false)
    × (starts_with (safe_path (codes "/a/../b")) (codes "\\") ≡ false)
safe_path-Confined_example = safe_path-Confined (codes "/a/../b")

-- Files in memory
abbrev Disk : Type 0
Disk = Text → List ℕ

abbrev save : Text → List ℕ → Disk → Disk
save path data_ s other = if text_eq other path then data_ else s other

abbrev pub memory_files : Files
memory_files = record {
  State = Disk;
  write = λ path data_ s. ok (save path data_ s);
  read = λ path s. ok (s path);
  exists = λ path s. true;
  unlink = λ path s. ok (save path [] s);
}

same_disk : {s t : Disk} → ok s ≡ ok t → (path : Text) → t path ≡ s path
same_disk {s} {t} h path = ap (λ (f : Disk). f path) (sym stored)
  where
    stored : s ≡ t
    stored = cc

other_file :
    (path other : Text) (data_ : List ℕ) (s : Disk)
    → before 47 other ≢ before 47 path
    → save path data_ s other ≡ s other
other_file path other data_ s apart = elim (Bool-cases (text_eq other path)) [
  | inl same ↦ absurd (apart (ap (before 47) (text_eq-eq other path same)))
  | inr differs ↦ rw differs
]

saved : (path : Text) (data_ : List ℕ) (s : Disk) → save path data_ s path ≡ data_
saved path data_ s = rw (text_eq_refl path)

memory_files-IsFiles : IsFiles memory_files
memory_files-IsFiles = record {
  read-write = λ {path} {data_} {s} {t} h. ap ok (same_disk h path ∙ saved path data_ s);
  read-write_ne = λ {path} {other} {data_} {s} {t} h apart.
      ap ok (same_disk h other ∙ other_file path other data_ s apart);
}

get_bytes-put_example :
    (get_bytes memory_files
        (blob_key_of 1 (some (codes "f")))
        (save (safe_path (blob_key_of 1 (some (codes "f")))) (codes "abc") (λ path. []))
      ≡ ok (codes "abc"))
    × (get_bytes memory_files
          (blob_key_of 2 none)
          (save (safe_path (blob_key_of 1 (some (codes "f")))) (codes "abc") (λ path. []))
        ≡ get_bytes memory_files (blob_key_of 2 none) (λ path. []))
unfolding put
get_bytes-put_example =
    get_bytes-put memory_files memory_files-IsFiles 1 2 (some (codes "f")) none (codes "abc")
      (λ path. []) (save (safe_path (blob_key_of 1 (some (codes "f")))) (codes "abc") (λ path. []))
      refl (omega arith) (omega arith) (λ same. omega (arith, same))
