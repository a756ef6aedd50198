-- ===== src/LateChunk/Sentences.antt =====
-- `simple_token_count`, `chars_for_tokens`, `_sentences` and `_dedupe_adjacent` of
-- late_chunk_enhancer.py
pub mod Runs
use Prim.Native.Nat.{max}
use rag_document_processor.Prelude.{
  ℕ, suc, ◌*◌, Bool, true, false, ◌&&◌, ◌||◌, List, [], ◌∷◌, ◌==◌, if◌then◌else◌,
}
use rag_document_processor.Prelude.Int.{ℤ, pos, negsuc}
use rag_document_processor.Prelude.Text.{Text, text_eq, nonempty, is_space, strip}

-- The words that `\S+` finds; `inside` tells that the last code point belongs to a word.
unfoldable pub words : Bool → Text → ℕ
unfolding is_space
words inside [] = 0
words inside (c ∷ s) =
    let gap = words false s in
    let more = words true s in if is_space c then gap else if inside then more else suc more

unfoldable pub simple_token_count : Text → ℕ
unfolding words
simple_token_count text = words false text

abbrev pub chars_per_token : ℕ
chars_per_token = 4

-- `max(1, tokens * _CHARS_PER_TOKEN)`
unfoldable pub chars_for_tokens : ℤ → ℕ
chars_for_tokens (pos tokens) = max 1 (tokens * chars_per_token)
chars_for_tokens (negsuc n) = 1

-- `[.!?]`
unfoldable pub ends_sentence : ℕ → Bool
ends_sentence c = c == 46 || c == 33 || c == 63

-- The separator that the scan stands in: none, `\s+` or `\n{2,}`.
pub data Mode : Type 0 where
  no_separator spaces newlines : Mode

-- What the scan does with one code point.
pub data Scan : Type 0 where
  keep_char skip_char cut_spaces cut_newlines : Scan

abbrev pub starts_newline : Text → Bool
starts_newline [] = false
starts_newline (c ∷ s) = c == 10

abbrev pub continues : Mode → ℕ → Bool
continues no_separator c = false
continues spaces c = is_space c
continues newlines c = c == 10

unfoldable pub scan : Mode → ℕ → ℕ → Text → Scan
unfolding ends_sentence is_space
scan mode previous c s =
    if continues mode c
    then skip_char
    else if ends_sentence previous && is_space c
    then cut_spaces
    else if c == 10 && starts_newline s
    then cut_newlines
    else keep_char

abbrev pub onto_first : ℕ → List Text → List Text
onto_first c [] = (c ∷ []) ∷ []
onto_first c (p ∷ ps) = (c ∷ p) ∷ ps

-- `re.split(r"(?<=[.!?])\s+|\n{2,}", text)`, after the code point `previous`
unfoldable pub split_sentences : Mode → ℕ → Text → List Text
unfolding scan
split_sentences mode previous [] = [] ∷ []
split_sentences mode previous (c ∷ s) = elim (scan mode previous c s) [
  | keep_char ↦ onto_first c (split_sentences no_separator c s)
  | skip_char ↦ split_sentences mode c s
  | cut_spaces ↦ [] ∷ split_sentences spaces c s
  | cut_newlines ↦ [] ∷ split_sentences newlines c s
]

-- `[p.strip() for p in parts if p.strip()]`
unfoldable pub clean : List Text → List Text
unfolding strip
clean [] = []
clean (p ∷ ps) = if nonempty (strip p) then strip p ∷ clean ps else clean ps

abbrev pub or_whole : List Text → Text → List Text
or_whole [] text = text ∷ []
or_whole (p ∷ ps) text = p ∷ ps

abbrev pub sentences_of : Text → List Text
sentences_of [] = []
sentences_of (c ∷ s) = or_whole (clean (split_sentences no_separator 0 (c ∷ s))) (c ∷ s)

-- `_sentences`
unfoldable pub sentences : Text → List Text
unfolding clean split_sentences strip
sentences block = sentences_of (strip block)

-- The rest of `_dedupe_adjacent`, after the kept segment `last`
unfoldable pub dedupe_after : Text → List Text → List Text
unfolding text_eq
dedupe_after last [] = []
dedupe_after last (seg ∷ segs) =
    let skipped = dedupe_after last segs in
    let kept = dedupe_after seg segs in if text_eq last seg then skipped else seg ∷ kept

unfoldable pub dedupe_adjacent : List Text → List Text
unfolding dedupe_after
dedupe_adjacent [] = []
dedupe_adjacent (seg ∷ segs) = seg ∷ dedupe_after seg segs
