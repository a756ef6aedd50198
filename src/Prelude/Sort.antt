-- ===== src/Prelude/Sort.antt =====
-- `sorted(xs, key=…)`: a stable sort by a number.
use Prim.Native.Nat.{ℕ, ◌<◌}
use mathlib.Core.Path.{◌≡◌, refl, sym, ap, ◌∙◌, subst}
use mathlib.Core.Logic.{◌≢◌}
use mathlib.Core.List.{List, [], ◌∷◌, Permᴰ}
use native.Mathlib.Omega.{arith}
use rag_document_processor.Prelude.Tests.{leb, if◌then◌else◌}
use rag_document_processor.Prelude.Lists.{All}
use rag_document_processor.Prelude.Perm.{All-Permᴰ}

module _ {A : Type 0} (key : A → ℕ) where
  unfoldable pub insert_by : A → List A → List A
  insert_by x [] = x ∷ []
  insert_by x (y ∷ ys) =
      let rest = insert_by x ys in if leb (key x) (key y) then x ∷ y ∷ ys else y ∷ rest

  unfoldable pub sort_by : List A → List A
  sort_by [] = []
  sort_by (x ∷ xs) = insert_by x (sort_by xs)

  -- No two items have one key.
  abbrev pub Apart : List A → Type 0
  Apart [] = Unit
  Apart (x ∷ xs) = All (λ y. key x ≢ key y) xs × Apart xs

  -- Each key is less than the next.
  abbrev pub Below : A → List A → Type 0
  Below x [] = Unit
  Below x (y ∷ ys) = key x < key y

  abbrev pub Ascending : List A → Type 0
  Ascending [] = Unit
  Ascending (x ∷ xs) = Below x xs × Ascending xs

  insert_insert :
      (x y : A) (zs : List A)
      → key x ≢ key y
      → insert_by x (insert_by y zs) ≡ insert_by y (insert_by x zs)
  unfolding insert_by
  insert_insert x y [] apart = ground arith
  insert_insert x y (z ∷ zs) apart = ground (arith, insert_insert x y zs apart)

  sort_Ascending : (xs : List A) → Ascending xs → sort_by xs ≡ xs
  unfolding sort_by insert_by
  sort_Ascending [] up = refl
  sort_Ascending (x ∷ []) up = refl
  sort_Ascending (x ∷ y ∷ ys) (less, up) = rw (sort_Ascending (y ∷ ys) up) (ground (arith, less))

  Apart-Permᴰ : {xs ys : List A} → Permᴰ xs ys → Apart xs → Apart ys
  Apart-Permᴰ (Permᴰ.nil) h = tt
  Apart-Permᴰ (Permᴰ.cons {b} {l₁ = l} e d) (p, h) = (
    All-Permᴰ (λ y. key b ≢ key y) d (subst (λ x. All (λ y. key x ≢ key y) l) e p),
    Apart-Permᴰ d h,
  )
  Apart-Permᴰ (Permᴰ.swap {a} {b} {l} e f) ((apart, al), (bl, h)) = (
    (
      (λ same. apart (ap key e ∙ (sym same ∙ sym (ap key f)))),
      subst (λ x. All (λ y. key x ≢ key y) l) f bl,
    ),
    (subst (λ x. All (λ y. key x ≢ key y) l) e al, h),
  )
  Apart-Permᴰ (Permᴰ.trans d e) h = Apart-Permᴰ e (Apart-Permᴰ d h)

  -- Items of distinct keys are sorted in one way, whatever order they come in.
  sort_Permᴰ : {xs ys : List A} → Permᴰ xs ys → Apart xs → sort_by xs ≡ sort_by ys
  unfolding sort_by
  sort_Permᴰ (Permᴰ.nil) h = refl
  sort_Permᴰ (Permᴰ.cons e d) (p, h) = cc (e, sort_Permᴰ d h)
  sort_Permᴰ (Permᴰ.swap {a} {b} {l} e f) ((apart, al), h) =
      insert_insert a b (sort_by l) apart ∙ cc (e, f)
  sort_Permᴰ (Permᴰ.trans d e) h = sort_Permᴰ d h ∙ sort_Permᴰ e (Apart-Permᴰ d h)

  Ascending-Below :
      (k x : A) (xs : List A)
      → Ascending (x ∷ xs)
      → key k < key x
      → All (λ y. key k ≢ key y) (x ∷ xs)
  Ascending-Below k x [] up less = ((λ e. omega (arith, e, less)), tt)
  Ascending-Below k x (y ∷ ys) (below, up) less =
      ((λ e. omega (arith, e, less)), Ascending-Below k y ys up (omega (arith, less, below)))

  Apart-Ascending : (xs : List A) → Ascending xs → Apart xs
  Apart-Ascending [] up = tt
  Apart-Ascending (x ∷ []) up = (tt, tt)
  Apart-Ascending (x ∷ y ∷ ys) (less, up) =
      (Ascending-Below x y ys up less, Apart-Ascending (y ∷ ys) up)

  -- The items of a list of ascending keys come out in its order, whatever order they come in.
  pub sort_by-Permᴰ : {xs ys : List A} → Permᴰ xs ys → Ascending xs → sort_by ys ≡ xs
  sort_by-Permᴰ {xs} d up = sym (sort_Permᴰ d (Apart-Ascending xs up)) ∙ sort_Ascending xs up
