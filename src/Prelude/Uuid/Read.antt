-- ===== src/Prelude/Uuid/Read.antt =====
-- `UUID(text)`: the dashes are left out, and 32 hexadecimal digits must be left. What else Python
-- takes, braces, a `urn:` in front and the spellings of `int`, is an error here: a message holds what
-- `str` gives.
use Prim.Native.Nat.{ℕ, zero, suc, ◌+◌, ◌-◌, ◌*◌, ◌/◌, ◌%◌, ◌^◌, ◌<◌}
use mathlib.Core.Path.{◌≡◌, refl, sym, ap, ◌∙◌}
use mathlib.Core.List.{[], ◌∷◌, ◌++◌, append_assoc, append-nil}
use native.Mathlib.Omega.{arith}
use native.Mathlib.Nat.{div-div-eq-div-mul}
use rag_document_processor.Prelude.Tests.{ltb, ◌==◌, if◌then◌else◌}
use rag_document_processor.Prelude.Text.{Text, codes}
use rag_document_processor.Prelude.Uuid.{uuid_count, hex_digits, uuid_text}
use rag_document_processor.Prelude.Uuid.Laws.{quotient, none_above}
use rag_document_processor.Domain.Exceptions.{Result, ok, err, value_error}

-- What a code point is in the text of a UUID
pub data Mark : Type 0 where
  dash other : Mark
  digit : ℕ → Mark

unfoldable pub mark_of : ℕ → Mark
mark_of c =
    if c == 45
    then dash
    else if ltb c 48
    then other
    else if ltb c 58
    then digit (c - 48)
    else if ltb c 65
    then other
    else if ltb c 71
    then digit (c - 55)
    else if ltb c 97
    then other
    else if ltb c 103
    then digit (c - 87)
    else other

abbrev pub badly_formed : Result ℕ
badly_formed = err (value_error (codes "badly formed hexadecimal UUID string"))

-- The number that was read so far, and how many digits must still come
unfoldable pub read_digits : ℕ → ℕ → Text → Result ℕ
unfolding mark_of
read_digits n zero [] = ok n
read_digits n (suc left) [] = badly_formed
read_digits n zero (c ∷ s) = elim (mark_of c) [
  | dash ↦ read_digits n zero s
  | other ↦ badly_formed
  | digit d ↦ badly_formed
]
read_digits n (suc left) (c ∷ s) = elim (mark_of c) [
  | dash ↦ read_digits n (suc left) s
  | other ↦ badly_formed
  | digit d ↦ read_digits (n * 16 + d) left s
]

unfoldable pub uuid_of : Text → Result ℕ
unfolding read_digits
uuid_of s = read_digits 0 32 s

mark_of-digit : (d : ℕ) → d < 16 → mark_of (if ltb d 10 then d + 48 else d + 87) ≡ digit d
unfolding mark_of
mark_of-digit d h = ground arith

read_last :
    (n left : ℕ) (s : Text)
    → read_digits (n / 16) (suc left) ((if ltb (n % 16) 10 then n % 16 + 48 else n % 16 + 87) ∷ s)
      ≡ read_digits n left s
unfolding read_digits
read_last n left s =
    rw (mark_of-digit (n % 16) (omega arith), read_digits)
      (ap (λ k. read_digits k left s) (omega arith))

-- The digits of a number are read onto what stands before them.
read_digits-hex_digits :
    (width left n m k : ℕ) (s : Text)
    → m ≡ n / 16 ^ width
    → k ≡ width + left
    → read_digits m k (hex_digits width n ++ s) ≡ read_digits n left s
unfolding hex_digits
read_digits-hex_digits zero left n m k s front count =
    ap (λ i. read_digits i k s) (omega (arith, front))
    ∙ ap (λ i. read_digits n i s) (omega (arith, count))
read_digits-hex_digits (suc width) left n m k s front count =
    let last = if ltb (n % 16) 10 then n % 16 + 48 else n % 16 + 87 in
    ap (read_digits m k) (append_assoc (hex_digits width (n / 16)) (last ∷ []) s)
    ∙ read_digits-hex_digits width (suc left) (n / 16) m k (last ∷ s) (front ∙ quotient width n)
        (omega (arith, count))
    ∙ read_last n left s

read_dash : (n left : ℕ) (s : Text) → read_digits n left (45 ∷ s) ≡ read_digits n left s
unfolding read_digits
read_dash n zero s = refl
read_dash n (suc left) s = refl

-- A part of the text, and the dash behind it
read_part :
    (width left n m k : ℕ) (s : Text)
    → m ≡ n / 16 ^ width
    → k ≡ width + left
    → read_digits m k (hex_digits width n ++ 45 ∷ s) ≡ read_digits n left s
read_part width left n m k s front count =
    read_digits-hex_digits width left n m k (45 ∷ s) front count ∙ read_dash n left s

read_end : (n : ℕ) → read_digits n 0 [] ≡ ok n
unfolding read_digits
read_end n = refl

part_below : (id a b : ℕ) → id / (a * b) ≡ id / a / b
part_below id a b = sym (div-div-eq-div-mul id a b)

-- `UUID(str(id))` is `id`.
pub uuid_of-uuid_text : (id : ℕ) → id < uuid_count → uuid_of (uuid_text id) ≡ ok id
unfolding uuid_of uuid_text
uuid_of-uuid_text id small =
    let last = hex_digits 12 id in
    let fourth = hex_digits 4 (id / 16 ^ 12) ++ 45 ∷ last in
    let third = hex_digits 4 (id / 16 ^ 16) ++ 45 ∷ fourth in
    let second = hex_digits 4 (id / 16 ^ 20) ++ 45 ∷ third in
    read_part 8 24 (id / 16 ^ 24) 0 32 second
      (sym (none_above id small) ∙ part_below id (16 ^ 24) (16 ^ 8)) refl
    ∙ read_part 4 20 (id / 16 ^ 20) (id / 16 ^ 24) 24 third (part_below id (16 ^ 20) (16 ^ 4)) refl
    ∙ read_part 4 16 (id / 16 ^ 16) (id / 16 ^ 20) 20 fourth (part_below id (16 ^ 16) (16 ^ 4)) refl
    ∙ read_part 4 12 (id / 16 ^ 12) (id / 16 ^ 16) 16 last (part_below id (16 ^ 12) (16 ^ 4)) refl
    ∙ ap (read_digits (id / 16 ^ 12) 12) (sym (append-nil last))
    ∙ read_digits-hex_digits 12 0 id (id / 16 ^ 12) 12 [] refl refl
    ∙ read_end id
