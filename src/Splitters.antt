-- ===== src/Splitters.antt =====
-- infrastructure/splitters/: the splitters' own code. The node parsers of LlamaIndex and tiktoken's
-- encoding are parameters. The limits of a job are at least 1 and the overlap is 128, so both are
-- natural numbers here.
pub mod Windows
use Prim.Native.Nat.{min, max}
use rag_document_processor.Prelude.{
  ℕ, zero, suc, ◌+◌, ◌-◌, List, [], ◌∷◌, map, length, ltb, leb, take, drop, if◌then◌else◌,
}
use rag_document_processor.Prelude.Text.{Text}
use rag_document_processor.LateChunk.Sentences.{clean}

-- `RecursiveMacroSplitter.split`, `SemanticMacroSplitter.split` and `RecursiveSentenceChunker.chunk`:
-- the contents of the nodes, trimmed, without the blank ones
unfoldable pub node_texts : (Text → List Text) → Text → List Text
node_texts nodes text = clean (nodes text)

module _ {Token : Type 0} where
  -- tokens[first:last]
  abbrev pub slice : ℕ → ℕ → List Token → List Token
  slice first last tokens = take (last - first) (drop first tokens)

  -- The windows of `TokenAwareMacroSplitter.split` from `start` on; each turn of the loop takes one
  -- unit of fuel.
  unfoldable pub token_windows : ℕ → ℕ → List Token → ℕ → ℕ → List (List Token)
  token_windows max_tokens overlap tokens zero start = []
  token_windows max_tokens overlap tokens (suc fuel) start =
      let end = min (start + max_tokens) (length tokens) in
      let rest = token_windows max_tokens overlap tokens fuel (max (end - overlap) (start + 1)) in
      if ltb start (length tokens)
      then slice start end tokens ∷ (if leb (length tokens) end then [] else rest)
      else []

  -- `TokenAwareMacroSplitter.split`, of `encode` and `decode`
  unfoldable pub token_split : (Text → List Token) → (List Token → Text) → ℕ → ℕ → Text → List Text
  token_split encode decode max_tokens overlap text =
      let tokens = encode text in
      clean (map decode (token_windows max_tokens overlap tokens (length tokens) 0))
