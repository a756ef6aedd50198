-- ===== src/Json.antt =====
-- The part of Python's `json` that text ingestion uses: `json.dumps(segments, ensure_ascii=False)`
-- on a list of texts, and `json.loads` as far as it tells whether a text is such a list. Any other
-- JSON text and a text that is no JSON are `none` alike, since the program treats them alike.
pub mod RoundTrip
use rag_document_processor.Prelude.{
  ℕ, zero, suc, ◌+◌, ◌-◌, ◌*◌, Bool, true, false, ◌&&◌, ◌||◌, Option, none, some, List, [], ◌∷◌,
  ◌++◌, leb, ltb, ◌==◌, if◌then◌else◌, length,
}
use rag_document_processor.Prelude.Text.{Text}

-- One hexadecimal digit, in lower case
abbrev pub hex_char : ℕ → ℕ
hex_char d = if ltb d 10 then d + 48 else d + 87

-- What `dumps` writes for one code point: an escape for a quote, a backslash and a control.
unfoldable pub escape : ℕ → Text
escape c =
    if c == 34
    then 92 ∷ 34 ∷ []
    else if c == 92
    then 92 ∷ 92 ∷ []
    else if c == 10
    then 92 ∷ 110 ∷ []
    else if c == 13
    then 92 ∷ 114 ∷ []
    else if c == 9
    then 92 ∷ 116 ∷ []
    else if c == 12
    then 92 ∷ 102 ∷ []
    else if c == 8
    then 92 ∷ 98 ∷ []
    else if ltb c 16
    then 92 ∷ 117 ∷ 48 ∷ 48 ∷ 48 ∷ hex_char c ∷ []
    else if ltb c 32
    then 92 ∷ 117 ∷ 48 ∷ 48 ∷ 49 ∷ hex_char (c - 16) ∷ []
    else c ∷ []

unfoldable pub escape_all : Text → Text
unfolding escape
escape_all [] = []
escape_all (c ∷ s) = escape c ++ escape_all s

abbrev pub quote : Text → Text
quote s = 34 ∷ (escape_all s ++ 34 ∷ [])

-- The items from the second on, each behind `", "`, and the bracket
unfoldable pub dumps_rest : List Text → Text
unfolding escape_all
dumps_rest [] = 93 ∷ []
dumps_rest (s ∷ ss) = 44 ∷ 32 ∷ (quote s ++ dumps_rest ss)

-- `json.dumps(segments, ensure_ascii=False)`
unfoldable pub dumps : List Text → Text
unfolding dumps_rest
dumps [] = 91 ∷ 93 ∷ []
dumps (s ∷ ss) = 91 ∷ (quote s ++ dumps_rest ss)

-- Where the reading of a string stands: `hex k acc` waits for `k + 1` digits of a `\u` escape, and
-- the modes after it wait for the second half of a surrogate pair whose first half is `high`.
pub data StringMode : Type 0 where
  plain escaped : StringMode
  hex : ℕ → ℕ → StringMode
  after_high after_high_slash : ℕ → StringMode
  low_hex : ℕ → ℕ → ℕ → StringMode

-- What one code point does: it ends the string, is an error, or adds to the value.
pub data StringStep : Type 0 where
  stop : Text → StringStep
  fail : StringStep
  go : Text → StringMode → StringStep

abbrev pub hex_digit : ℕ → Option ℕ
hex_digit c =
    if leb 48 c && leb c 57
    then some (c - 48)
    else if leb 97 c && leb c 102
    then some (c - 87)
    else if leb 65 c && leb c 70
    then some (c - 55)
    else none

-- `out` was read before this code point
abbrev pub plain_step : Text → ℕ → StringStep
plain_step out c =
    if c == 34
    then stop out
    else if c == 92
    then go out escaped
    else if ltb c 32
    then fail
    else go (out ++ c ∷ []) plain

abbrev pub escaped_step : Text → ℕ → StringStep
escaped_step out c =
    if c == 34 || c == 92 || c == 47
    then go (out ++ c ∷ []) plain
    else if c == 110
    then go (out ++ 10 ∷ []) plain
    else if c == 114
    then go (out ++ 13 ∷ []) plain
    else if c == 116
    then go (out ++ 9 ∷ []) plain
    else if c == 102
    then go (out ++ 12 ∷ []) plain
    else if c == 98
    then go (out ++ 8 ∷ []) plain
    else if c == 117
    then go out (hex 3 0)
    else fail

-- A whole `\u` escape: the first half of a pair waits for the second.
abbrev pub unit_step : Text → ℕ → StringStep
unit_step out u =
    if leb 0xd800 u && leb u 0xdbff then go out (after_high u) else go (out ++ u ∷ []) plain

abbrev pub hex_step : ℕ → ℕ → Option ℕ → StringStep
hex_step k acc none = fail
hex_step zero acc (some d) = unit_step [] (acc * 16 + d)
hex_step (suc k) acc (some d) = go [] (hex k (acc * 16 + d))

abbrev pub pair_step : ℕ → ℕ → StringStep
pair_step high u =
    if leb 0xdc00 u && leb u 0xdfff
    then go ((0x10000 + (high - 0xd800) * 1024 + (u - 0xdc00)) ∷ []) plain
    else unit_step (high ∷ []) u

abbrev pub low_hex_step : ℕ → ℕ → ℕ → Option ℕ → StringStep
low_hex_step high k acc none = fail
low_hex_step high zero acc (some d) = pair_step high (acc * 16 + d)
low_hex_step high (suc k) acc (some d) = go [] (low_hex high k (acc * 16 + d))

unfoldable pub string_step : StringMode → ℕ → StringStep
string_step plain c = plain_step [] c
string_step escaped c = escaped_step [] c
string_step (hex k acc) c = hex_step k acc (hex_digit c)
string_step (after_high high) c =
    if c == 92 then go [] (after_high_slash high) else plain_step (high ∷ []) c
string_step (after_high_slash high) c =
    if c == 117 then go [] (low_hex high 3 0) else escaped_step (high ∷ []) c
string_step (low_hex high k acc) c = low_hex_step high k acc (hex_digit c)

abbrev pub onto_read : Text → Option (Text × Text) → Option (Text × Text)
onto_read out none = none
onto_read out (some (value, rest)) = some (out ++ value, rest)

-- The value of a string up to its closing quote, and what follows.
unfoldable pub read_string : StringMode → Text → Option (Text × Text)
unfolding string_step
read_string mode [] = none
read_string mode (c ∷ s) = elim (string_step mode c) [
  | stop out ↦ some (out, s)
  | fail ↦ none
  | go out next ↦ onto_read out (read_string next s)
]

-- JSON's blanks
unfoldable pub skip_blanks : Text → Text
skip_blanks [] = []
skip_blanks (c ∷ s) = if c == 32 || c == 9 || c == 10 || c == 13 then skip_blanks s else c ∷ s

abbrev pub only_blanks : Text → Option (List Text)
only_blanks [] = some []
only_blanks (c ∷ s) = none

abbrev pub onto_items : Text → Option (List Text) → Option (List Text)
onto_items value none = none
onto_items value (some values) = some (value ∷ values)

-- The items of an array, from the quote of one; the fuel bounds their number.
unfoldable pub read_items : ℕ → Text → Option (List Text)
unfolding read_string skip_blanks
read_items zero s = none
read_items (suc fuel) [] = none
read_items (suc fuel) (c ∷ s) =
    if c == 34
    then elim (read_string plain s) [
      | none ↦ none
      | some (value, rest) ↦ onto_items value (elim (skip_blanks rest) [
        | [] ↦ none
        | d ∷ t ↦ elim (d == 93) [
          | true ↦ only_blanks (skip_blanks t)
          | false ↦ elim (d == 44) [ true ↦ read_items fuel (skip_blanks t) | false ↦ none ]
        ]
      ])
    ]
    else none

abbrev pub read_array : Text → Option (List Text)
read_array [] = none
read_array (c ∷ s) =
    if c == 93 then only_blanks (skip_blanks s) else read_items (suc (length s)) (c ∷ s)

abbrev pub read_value : Text → Option (List Text)
read_value [] = none
read_value (c ∷ s) = if c == 91 then read_array (skip_blanks s) else none

-- `json.loads(raw)`, if it is a list of texts
unfoldable pub loads : Text → Option (List Text)
unfolding read_items skip_blanks
loads raw = read_value (skip_blanks raw)
