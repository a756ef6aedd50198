-- ===== src/Options/Coerce.antt =====
-- The `coerce_…` functions of core/ingest_embedding_options.py: a field of a request is trimmed,
-- read and checked.
use rag_document_processor.Prelude.{
  ℕ, zero, suc, ◌+◌, ◌-◌, ◌*◌, Bool, true, false, not, ◌&&◌, ◌||◌, Option, none, some, [], ◌∷◌, ltb,
  leb, ◌==◌, if◌then◌else◌, length, is_some,
}
use rag_document_processor.Prelude.Int.{ℤ, pos, negsuc, lt_ℤ}
use rag_document_processor.Prelude.Text.{Text, one_of, nonempty, strip, lower}
use rag_document_processor.Domain.Exceptions
use rag_document_processor.Domain.Exceptions.{Field, OptionsProblem, Error, Result, ok, err}
use rag_document_processor.Options.Choices.{
  pipeline_of, macro_of, embedder_of, schema_placeholder_model_names,
}

abbrev pub invalid : OptionsProblem → Error
invalid = Exceptions.invalid_ingest_embedding_options

abbrev pub some_text : Text → Option Text
some_text [] = none
some_text (c ∷ s) = some (c ∷ s)

-- `_norm_opt_str`
unfoldable pub norm_opt_str : Option Text → Option Text
unfolding strip
norm_opt_str none = none
norm_opt_str (some v) = some_text (strip v)

-- A trimmed name, in lower case, if it is in the set that `known` tells.
abbrev pub coerce_name :
    (Text → Bool) → (Text → OptionsProblem) → Option Text → Result (Option Text)
coerce_name known problem none = ok none
coerce_name known problem (some s) =
    if known (lower s) then ok (some (lower s)) else err (invalid (problem s))

unfoldable pub coerce_embedding_pipeline : Option Text → Result (Option Text)
unfolding norm_opt_str
coerce_embedding_pipeline raw =
    coerce_name (λ s. is_some (pipeline_of s)) Exceptions.bad_pipeline (norm_opt_str raw)

unfoldable pub coerce_macro_splitter : Option Text → Result (Option Text)
unfolding norm_opt_str
coerce_macro_splitter raw =
    coerce_name (λ s. is_some (macro_of s)) Exceptions.bad_macro (norm_opt_str raw)

unfoldable pub coerce_embedder_provider : Option Text → Result (Option Text)
unfolding norm_opt_str
coerce_embedder_provider raw =
    coerce_name (λ s. is_some (embedder_of s)) Exceptions.bad_provider (norm_opt_str raw)

abbrev pub model_max_len : ℕ
model_max_len = 128

abbrev pub check_model : Field → Option Text → Result (Option Text)
check_model field none = ok none
check_model field (some s) =
    if ltb model_max_len (length s)
    then err (invalid (Exceptions.model_too_long field))
    else if one_of (lower s) schema_placeholder_model_names
    then err (invalid (Exceptions.placeholder_model field s))
    else ok (some s)

-- with the default `max_len`, which every caller uses
unfoldable pub coerce_embedding_model : Option Text → Field → Result (Option Text)
unfolding norm_opt_str
coerce_embedding_model raw field = check_model field (norm_opt_str raw)

-- `int | str`
pub data RawInt : Type 0 where
  int : ℤ → RawInt
  str : Text → RawInt

-- The digits of `int(s)`: `after` tells that the last code point was a digit, after which one
-- underscore may stand.
unfoldable pub int_digits : ℕ → Bool → Text → Option ℕ
int_digits acc after [] = if after then some acc else none
int_digits acc after (c ∷ s) =
    let digit = int_digits (acc * 10 + (c - 48)) true s in
    let underscore = int_digits acc false s in
    if leb 48 c && leb c 57 then digit else if after && c == 95 then underscore else none

abbrev pub negate : ℕ → ℤ
negate zero = pos zero
negate (suc n) = negsuc n

abbrev pub map_int : (ℕ → ℤ) → Option ℕ → Option ℤ
map_int f none = none
map_int f (some n) = some (f n)

-- `int(s)` on a trimmed text of ASCII digits, with a sign or without
unfoldable pub int_of_text : Text → Option ℤ
unfolding int_digits
int_of_text [] = none
int_of_text (c ∷ s) =
    if c == 43
    then map_int pos (int_digits 0 false s)
    else if c == 45
    then map_int negate (int_digits 0 false s)
    else map_int pos (int_digits 0 false (c ∷ s))

-- `int(str(raw).strip())`
unfoldable pub int_of_raw : RawInt → Option ℤ
unfolding int_of_text strip
int_of_raw (int z) = some z
int_of_raw (str s) = int_of_text (strip s)

-- `raw is None or (isinstance(raw, str) and not str(raw).strip())`
unfoldable pub is_blank : Option RawInt → Bool
unfolding strip
is_blank none = true
is_blank (some (int z)) = false
is_blank (some (str s)) = not (nonempty (strip s))

abbrev pub late_chunk_token_min : ℤ
late_chunk_token_min = pos 1

abbrev pub late_chunk_token_max : ℤ
late_chunk_token_max = pos 8192

abbrev pub check_tokens : Field → Option ℤ → Result (Option ℤ)
check_tokens field none = err (invalid (Exceptions.not_an_integer field))
check_tokens field (some value) =
    if lt_ℤ value late_chunk_token_min || lt_ℤ late_chunk_token_max value
    then err (invalid (Exceptions.tokens_out_of_range field value))
    else ok (some value)

abbrev pub read_raw : Option RawInt → Option ℤ
read_raw none = none
read_raw (some raw) = int_of_raw raw

unfoldable pub coerce_late_chunk_tokens : Option RawInt → Field → Result (Option ℤ)
unfolding is_blank int_of_raw
coerce_late_chunk_tokens raw field =
    if is_blank raw then ok none else check_tokens field (read_raw raw)
