-- ===== src/Prelude/Slices.antt =====
-- Parts of a list by position.
use Prim.Native.Nat.{ℕ, zero, suc, ◌+◌, ◌≤◌}
use mathlib.Core.Path.{◌≡◌, refl, sym, ap, ◌∙◌}
use mathlib.Core.List.{List, [], ◌∷◌, ◌++◌}
use native.Mathlib.Omega.{arith}
use rag_document_processor.Prelude.Lists.{length}

module _ {ℓ} {A : Type ℓ} where
  abbrev pub take : ℕ → List A → List A
  take zero xs = []
  take (suc n) [] = []
  take (suc n) (x ∷ xs) = x ∷ take n xs

  abbrev pub drop : ℕ → List A → List A
  drop zero xs = xs
  drop (suc n) [] = []
  drop (suc n) (x ∷ xs) = drop n xs

  pub take-drop : (n : ℕ) (xs : List A) → take n xs ++ drop n xs ≡ xs
  take-drop zero xs = refl
  take-drop (suc n) [] = refl
  take-drop (suc n) (x ∷ xs) = ground (arith, take-drop n xs)

  drop_nil : (n : ℕ) → [] ≡ drop n []
  drop_nil zero = refl
  drop_nil (suc n) = refl

  pub drop-drop : (m n k : ℕ) (xs : List A) → k ≡ n + m → drop m (drop n xs) ≡ drop k xs
  drop-drop m zero k xs e = ap (λ i. drop i xs) (omega (arith, e))
  drop-drop m (suc n) k [] e = sym (drop_nil m) ∙ drop_nil k
  drop-drop m (suc n) zero (x ∷ xs) e = absurd (omega (arith, e))
  drop-drop m (suc n) (suc k) (x ∷ xs) e = drop-drop m n k xs (omega (arith, e))

  pub drop-take : (m n k : ℕ) (xs : List A) → k ≡ m + n → drop m (take k xs) ≡ take n (drop m xs)
  drop-take zero n k xs e = ap (λ i. take i xs) (omega (arith, e))
  drop-take (suc m) n zero xs e = absurd (omega (arith, e))
  drop-take (suc m) zero (suc k) [] e = refl
  drop-take (suc m) (suc n) (suc k) [] e = refl
  drop-take (suc m) n (suc k) (x ∷ xs) e = drop-take m n k xs (omega (arith, e))

  pub length-take : (n : ℕ) (xs : List A) → length (take n xs) ≤ n
  length-take zero xs = omega arith
  length-take (suc n) [] = omega arith
  length-take (suc n) (x ∷ xs) = omega (arith, length-take n xs)

  pub drop_all : (n : ℕ) (xs : List A) → length xs ≤ n → drop n xs ≡ []
  drop_all zero [] h = refl
  drop_all zero (x ∷ xs) h = absurd (omega (arith, h))
  drop_all (suc n) [] h = refl
  drop_all (suc n) (x ∷ xs) h = drop_all n xs (omega (arith, h))
