-- ===== src/Prelude/Perm.antt =====
-- What holds of all items, or of one item, holds in any order of them.
use mathlib.Core.Path.{subst}
use mathlib.Core.Logic.{◌⊎◌, inl, inr}
use mathlib.Core.List.{List, [], ◌∷◌, ◌++◌, map, Permᴰ}
use rag_document_processor.Prelude.Lists.{All}

-- Some item meets `P`.
abbrev pub Any {ℓ} : {A : Type ℓ} → (A → Type 0) → List A → Type 0
Any P [] = ⊥
Any P (x ∷ xs) = P x ⊎ Any P xs

module _ {A : Type 0} (P : A → Type 0) where
  pub All-Permᴰ : {xs ys : List A} → Permᴰ xs ys → All P xs → All P ys
  All-Permᴰ (Permᴰ.nil) h = tt
  All-Permᴰ (Permᴰ.cons e d) (p, h) = (subst P e p, All-Permᴰ d h)
  All-Permᴰ (Permᴰ.swap e f) (p, (q, h)) = (subst P f q, (subst P e p, h))
  All-Permᴰ (Permᴰ.trans d e) h = All-Permᴰ e (All-Permᴰ d h)

  pub Any-Permᴰ : {xs ys : List A} → Permᴰ xs ys → Any P xs → Any P ys
  Any-Permᴰ (Permᴰ.nil) h = h
  Any-Permᴰ (Permᴰ.cons e d) (inl p) = inl (subst P e p)
  Any-Permᴰ (Permᴰ.cons e d) (inr h) = inr (Any-Permᴰ d h)
  Any-Permᴰ (Permᴰ.swap e f) (inl p) = inr (inl (subst P e p))
  Any-Permᴰ (Permᴰ.swap e f) (inr (inl q)) = inl (subst P f q)
  Any-Permᴰ (Permᴰ.swap e f) (inr (inr h)) = inr (inr h)
  Any-Permᴰ (Permᴰ.trans d e) h = Any-Permᴰ e (Any-Permᴰ d h)

  pub Any-append_last : (xs : List A) (x : A) → P x → Any P (xs ++ x ∷ [])
  Any-append_last [] x p = inl p
  Any-append_last (y ∷ xs) x p = inr (Any-append_last xs x p)

  pub All-append_last : (xs : List A) (x : A) → All P xs → P x → All P (xs ++ x ∷ [])
  All-append_last [] x h p = (p, tt)
  All-append_last (y ∷ xs) x (q, h) p = (q, All-append_last xs x h p)

module _ {A B : Type 0} (f : A → B) where
  -- A statement on each image
  pub All-map :
      (P : A → Type 0) (Q : B → Type 0)
      → ((a : A) → P a → Q (f a))
      → (xs : List A) → All P xs
      → All Q (map f xs)
  All-map P Q step [] h = tt
  All-map P Q step (x ∷ xs) (p, h) = (step x p, All-map P Q step xs h)

  pub Any-map :
      (P : A → Type 0) (Q : B → Type 0)
      → ((a : A) → P a → Q (f a))
      → (xs : List A) → Any P xs
      → Any Q (map f xs)
  Any-map P Q step (x ∷ xs) (inl p) = inl (step x p)
  Any-map P Q step (x ∷ xs) (inr h) = inr (Any-map P Q step xs h)
  Any-map P Q step [] h = elim h [ ]
