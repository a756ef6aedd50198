-- ===== src/Prelude/Text/Laws.antt =====
-- Laws of the methods of `str`.
use Prim.Native.Nat.{ℕ}
use mathlib.Core.Path.{◌≡◌, refl, ap, ◌∙◌}
use mathlib.Core.Logic.{◌↔◌, inl, inr}
use mathlib.Core.Bool.{true, false, not}
use mathlib.Core.List.{[], ◌∷◌, ◌++◌, append-nil}
use native.Mathlib.Omega.{arith}
use rag_document_processor.Prelude.Tests.{Bool-cases}
pub use rag_document_processor.Prelude.Lists.{concat}
use rag_document_processor.Prelude.Lists.{keep, keep-append}
use rag_document_processor.Prelude.Text.{
  Text, text_eq, nonempty, is_space, lstrip, rstrip, rstrip_cons, strip,
}

pub text_eq_refl : (s : Text) → text_eq s s ≡ true
unfolding text_eq
text_eq_refl [] = refl
text_eq_refl (c ∷ s) = ground (arith, text_eq_refl s)

pub text_eq-eq : (s t : Text) → text_eq s t ≡ true → s ≡ t
unfolding text_eq
text_eq-eq [] [] h = refl
text_eq-eq [] (d ∷ t) h = cc
text_eq-eq (c ∷ s) [] h = cc
text_eq-eq (c ∷ s) (d ∷ t) h = ground (arith, text_eq-eq s t)

pub text_eq_iff : (s t : Text) → (text_eq s t ≡ true) ↔ (s ≡ t)
text_eq_iff s t = (text_eq-eq s t, λ e. rw e (text_eq_refl t))

-- The first code point, if there is one, is no space.
abbrev pub StartsClean : Text → Type 0
StartsClean [] = Unit
StartsClean (c ∷ s) = is_space c ≡ false

pub lstrip-StartsClean : (s : Text) → StartsClean (lstrip s)
unfolding lstrip
lstrip-StartsClean [] = tt
lstrip-StartsClean (c ∷ s) = elim (Bool-cases (is_space c)) [
  | inl p ↦ rw p (lstrip-StartsClean s)
  | inr p ↦ rw p p
]

pub lstrip_of_StartsClean : (s : Text) → StartsClean s → lstrip s ≡ s
unfolding lstrip
lstrip_of_StartsClean [] h = refl
lstrip_of_StartsClean (c ∷ s) h = rw h

rstrip_cons-StartsClean : (c : ℕ) (t : Text) → is_space c ≡ false → StartsClean (rstrip_cons c t)
rstrip_cons-StartsClean c [] h = rw h h
rstrip_cons-StartsClean c (d ∷ t) h = h

rstrip-StartsClean : (s : Text) → StartsClean s → StartsClean (rstrip s)
unfolding rstrip
rstrip-StartsClean [] h = tt
rstrip-StartsClean (c ∷ s) h = rstrip_cons-StartsClean c (rstrip s) h

rstrip-rstrip_cons : (c : ℕ) (t : Text) → rstrip t ≡ t → rstrip (rstrip_cons c t) ≡ rstrip_cons c t
unfolding rstrip
rstrip-rstrip_cons c [] h = elim (Bool-cases (is_space c)) [ inl p ↦ rw p | inr p ↦ rw (p, p) ]
rstrip-rstrip_cons c (d ∷ t) h = rw h

rstrip-rstrip : (s : Text) → rstrip (rstrip s) ≡ rstrip s
unfolding rstrip
rstrip-rstrip [] = refl
rstrip-rstrip (c ∷ s) = rstrip-rstrip_cons c (rstrip s) (rstrip-rstrip s)

-- `s.strip().strip() == s.strip()`
pub strip-strip : (s : Text) → strip (strip s) ≡ strip s
unfolding strip
strip-strip s =
    ap rstrip (lstrip_of_StartsClean _ (rstrip-StartsClean (lstrip s) (lstrip-StartsClean s)))
    ∙ rstrip-rstrip (lstrip s)

-- The code points of a text that are no spaces, in order.
unfoldable pub squeeze : Text → Text
unfolding is_space
squeeze s = keep (λ c. not (is_space c)) s

pub squeeze-append : (s t : Text) → squeeze (s ++ t) ≡ squeeze s ++ squeeze t
unfolding squeeze
squeeze-append s t = keep-append (λ c. not (is_space c)) s t

squeeze-lstrip : (s : Text) → squeeze (lstrip s) ≡ squeeze s
unfolding lstrip squeeze
squeeze-lstrip [] = refl
squeeze-lstrip (c ∷ s) = ground (arith, squeeze-lstrip s)

squeeze-rstrip_cons : (c : ℕ) (t : Text) → squeeze (rstrip_cons c t) ≡ squeeze (c ∷ t)
unfolding squeeze
squeeze-rstrip_cons c [] = ground arith
squeeze-rstrip_cons c (d ∷ t) = refl

pub squeeze-cons : (c : ℕ) (s t : Text) → squeeze s ≡ squeeze t → squeeze (c ∷ s) ≡ squeeze (c ∷ t)
unfolding squeeze
squeeze-cons c s t h = ground arith

squeeze-rstrip : (s : Text) → squeeze (rstrip s) ≡ squeeze s
unfolding rstrip
squeeze-rstrip [] = refl
squeeze-rstrip (c ∷ s) =
    squeeze-rstrip_cons c (rstrip s) ∙ squeeze-cons c (rstrip s) s (squeeze-rstrip s)

pub squeeze-strip : (s : Text) → squeeze (strip s) ≡ squeeze s
unfolding strip
squeeze-strip s = squeeze-rstrip (lstrip s) ∙ squeeze-lstrip s

pub squeeze-nil : squeeze [] ≡ []
unfolding squeeze
squeeze-nil = refl

pub squeeze_of_blank : (s : Text) → nonempty (strip s) ≡ false → squeeze s ≡ []
squeeze_of_blank s h = blank (strip s) h (squeeze-strip s)
  where
    blank : (t : Text) → nonempty t ≡ false → squeeze t ≡ squeeze s → squeeze s ≡ []
    blank [] h e = cc (squeeze-nil)
    blank (c ∷ t) h e = cc

pub squeeze-cons_space : (c : ℕ) (s : Text) → is_space c ≡ true → squeeze (c ∷ s) ≡ squeeze s
unfolding squeeze
squeeze-cons_space c s h = ground arith

pub concat_single : (s : Text) → concat (s ∷ []) ≡ s
concat_single s = append-nil s
