-- ===== src/Prelude/Text.antt =====
-- Python's `str` as a list of code points, with the methods that the program calls.
pub mod Laws
use Prim.Native.Char.{code}
use Prim.Native.Nat.{ℕ, zero, suc, ◌+◌}
use Prim.Native.String.{String}
use mathlib.Core.Path.{◌≡◌, refl, ap}
use mathlib.Core.Logic.{◌↔◌}
use mathlib.Core.Bool.{Bool, true, false, not, ◌&&◌, ◌||◌}
use mathlib.Core.Option.{Option, none, some}
use mathlib.Core.List.{List, [], ◌∷◌, ◌++◌, flat_map}
use native.Mathlib.Omega.{arith}
use rag_document_processor.Prelude.Tests.{leb, ltb, ◌==◌, if◌then◌else◌}

abbrev pub Text : Type 0
Text = List ℕ

-- The code points of a literal.
abbrev pub codes : String → Text
codes String.[] = []
codes (String.◌∷◌ c s) = code c ∷ codes s

-- `s == t`
unfoldable pub text_eq : Text → Text → Bool
text_eq [] [] = true
text_eq [] (d ∷ t) = false
text_eq (c ∷ s) [] = false
text_eq (c ∷ s) (d ∷ t) = c == d && text_eq s t

-- `s in (…)`, on a tuple or a set of texts
unfoldable pub one_of : Text → List Text → Bool
unfolding text_eq
one_of s [] = false
one_of s (t ∷ ts) = text_eq s t || one_of s ts

-- `bool(s)`
abbrev pub nonempty : Text → Bool
nonempty [] = false
nonempty (c ∷ s) = true

-- `bool(s)`, where `s` may be `None`
abbrev pub truthy : Option Text → Bool
truthy none = false
truthy (some s) = nonempty s

-- `s or d`, where `s` may be `None`
abbrev pub or_text : Option Text → Text → Text
or_text none d = d
or_text (some []) d = d
or_text (some (c ∷ s)) d = c ∷ s

-- The code points that `str.strip` takes away: those of `str.isspace`.
unfoldable pub is_space : ℕ → Bool
is_space c =
    (leb 9 c && leb c 13)
    || (leb 28 c && leb c 32)
    || c == 133
    || c == 160
    || c == 5760
    || (leb 8192 c && leb c 8202)
    || c == 8232
    || c == 8233
    || c == 8239
    || c == 8287
    || c == 12288

unfoldable pub lstrip : Text → Text
unfolding is_space
lstrip [] = []
lstrip (c ∷ s) = if is_space c then lstrip s else c ∷ s

-- `c` in front of a text whose end is stripped already
abbrev pub rstrip_cons : ℕ → Text → Text
rstrip_cons c [] = if is_space c then [] else c ∷ []
rstrip_cons c (d ∷ s) = c ∷ d ∷ s

unfoldable pub rstrip : Text → Text
unfolding is_space
rstrip [] = []
rstrip (c ∷ s) = rstrip_cons c (rstrip s)

-- `s.strip()`
unfoldable pub strip : Text → Text
unfolding lstrip rstrip
strip s = rstrip (lstrip s)

-- The lower case of one code point: an ASCII letter, and the two others whose lower case holds an
-- ASCII letter (U+0130 and U+212A). Every other code point is left as it is.
unfoldable pub lower_char : ℕ → Text
lower_char c =
    if leb 65 c && leb c 90
    then (c + 32) ∷ []
    else if c == 304
    then 105 ∷ 775 ∷ []
    else if c == 8490
    then 107 ∷ []
    else c ∷ []

-- `s.lower()`
unfoldable pub lower : Text → Text
unfolding lower_char
lower [] = []
lower (c ∷ s) = lower_char c ++ lower s

-- `t.startswith(s)`
unfoldable pub starts_with : Text → Text → Bool
starts_with t [] = true
starts_with [] (c ∷ s) = false
starts_with (d ∷ t) (c ∷ s) = c == d && starts_with t s

-- `s in t`
unfoldable pub contains : Text → Text → Bool
unfolding starts_with
contains [] s = starts_with [] s
contains (d ∷ t) s = starts_with (d ∷ t) s || contains t s

-- `t.endswith(s)`
unfoldable pub ends_with : Text → Text → Bool
unfolding text_eq
ends_with [] s = text_eq [] s
ends_with (d ∷ t) s = text_eq (d ∷ t) s || ends_with t s

-- `s.split(sep)[0]`
unfoldable pub before : ℕ → Text → Text
before sep [] = []
before sep (c ∷ s) = let rest = before sep s in if c == sep then [] else c ∷ rest

abbrev onto_part : ℕ → List Text → List Text
onto_part c [] = (c ∷ []) ∷ []
onto_part c (p ∷ ps) = (c ∷ p) ∷ ps

-- `s.split(sep)`
unfoldable pub split_on : ℕ → Text → List Text
split_on sep [] = [] ∷ []
split_on sep (c ∷ s) = let rest = split_on sep s in if c == sep then [] ∷ rest else onto_part c rest

-- `s.rsplit(sep, maxsplit=1)[-1]`, from the part `last` that was read since the last separator
unfoldable pub after_last : ℕ → Text → Text → Text
after_last sep last [] = last
after_last sep last (c ∷ s) = after_last sep (if c == sep then [] else last ++ c ∷ []) s

-- `s or None`
abbrev pub some_nonempty : Text → Option Text
some_nonempty [] = none
some_nonempty (c ∷ s) = some (c ∷ s)
