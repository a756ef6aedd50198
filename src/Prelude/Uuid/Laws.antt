-- ===== src/Prelude/Uuid/Laws.antt =====
-- Two UUIDs with one text are the same.
use Prim.Native.Nat.{ℕ, zero, suc, ◌+◌, ◌*◌, ◌/◌, ◌%◌, ◌^◌, ◌<◌}
use mathlib.Core.Path.{◌≡◌, refl, sym, ap, ◌∙◌}
use mathlib.Core.List.{[], ◌∷◌, ◌++◌}
use native.Mathlib.Omega.{arith}
use native.Mathlib.Nat.{div-div-eq-div-mul}
use native.Mathlib.Numerals.{unary_clauses}
use rag_document_processor.Prelude.Tests.{ltb, if◌then◌else◌}
use rag_document_processor.Prelude.Lists.{length, length-append}
use rag_document_processor.Prelude.Text.{Text}
use rag_document_processor.Prelude.Uuid.{uuid_count, hex_digits, uuid_text}

-- Where two parts have one length, the parts of one text are the same.
append_inj : (a b c d : Text) → length a ≡ length b → a ++ c ≡ b ++ d → (a ≡ b) × (c ≡ d)
append_inj [] [] c d h e = (refl, e)
append_inj [] (y ∷ b) c d h e = cc
append_inj (x ∷ a) [] c d h e = cc
append_inj (x ∷ a) (y ∷ b) c d h e = ground (arith, h, e, append_inj a b c d)

length-hex_digits : (width n : ℕ) → length (hex_digits width n) ≡ width
unfolding hex_digits
length-hex_digits zero n = refl
length-hex_digits (suc width) n = omega (
  arith,
  length-append (hex_digits width (n / 16))
      ((if ltb (n % 16) 10 then n % 16 + 48 else n % 16 + 87) ∷ []),
  length-hex_digits width (n / 16),
)

digit_inj :
    (a b : ℕ)
    → a < 16
    → b < 16
    → (if ltb a 10 then a + 48 else a + 87) ≡ (if ltb b 10 then b + 48 else b + 87)
    → a ≡ b
digit_inj a b h k e = ground arith

hex_cons :
    (width m n : ℕ)
    → hex_digits (suc width) m ≡ hex_digits (suc width) n
    → (hex_digits width (m / 16) ≡ hex_digits width (n / 16)) × (m % 16 ≡ n % 16)
unfolding hex_digits
hex_cons width m n e =
    let (front, last) =
      append_inj (hex_digits width (m / 16)) (hex_digits width (n / 16))
        ((if ltb (m % 16) 10 then m % 16 + 48 else m % 16 + 87) ∷ [])
        ((if ltb (n % 16) 10 then n % 16 + 48 else n % 16 + 87) ∷ [])
        (length-hex_digits width (m / 16) ∙ sym (length-hex_digits width (n / 16))) e in
    (front, digit_inj (m % 16) (n % 16) (omega arith) (omega arith) (ap first last))
  where
    first : Text → ℕ
    first [] = 0
    first (c ∷ s) = c

pub quotient : (width m : ℕ) → m / 16 ^ suc width ≡ m / 16 / 16 ^ width
quotient width m =
    ap (λ k. m / k) (simp unary_clauses (omega arith)) ∙ sym (div-div-eq-div-mul m 16 (16 ^ width))

-- Two numbers whose last digits agree, and what stands before them, are the same.
hex_digits-eq :
    (width m n : ℕ)
    → hex_digits width m ≡ hex_digits width n
    → m / 16 ^ width ≡ n / 16 ^ width
    → m ≡ n
hex_digits-eq zero m n e q = omega (arith, q)
hex_digits-eq (suc width) m n e q =
    let (front, last) = hex_cons width m n e in
    let rest =
      hex_digits-eq width (m / 16) (n / 16) front
        (sym (quotient width m) ∙ (q ∙ quotient width n)) in
    omega (arith, rest, last)

-- A part of `width` digits, a dash and the rest
cut :
    (width m n : ℕ) (s t : Text)
    → hex_digits width m ++ 45 ∷ s ≡ hex_digits width n ++ 45 ∷ t
    → (hex_digits width m ≡ hex_digits width n) × (s ≡ t)
cut width m n s t e =
    let (front, rest) =
      append_inj (hex_digits width m) (hex_digits width n) (45 ∷ s) (45 ∷ t)
        (length-hex_digits width m ∙ sym (length-hex_digits width n)) e in
    (front, ap tail rest)
  where
    tail : Text → Text
    tail [] = []
    tail (c ∷ r) = r

above : (m n a b : ℕ) → m / (a * b) ≡ n / (a * b) → m / a / b ≡ n / a / b
above m n a b q = div-div-eq-div-mul m a b ∙ (q ∙ sym (div-div-eq-div-mul n a b))

pub none_above : (m : ℕ) → m < uuid_count → m / 16 ^ 32 ≡ 0
none_above m small = omega (arith, small)

pub uuid_text-eq : (m n : ℕ) → m < uuid_count → n < uuid_count → uuid_text m ≡ uuid_text n → m ≡ n
unfolding uuid_text
uuid_text-eq m n small small' e =
    let (p1, r1) = cut 8 (m / 16 ^ 24) (n / 16 ^ 24) _ _ e in
    let (p2, r2) = cut 4 (m / 16 ^ 20) (n / 16 ^ 20) _ _ r1 in
    let (p3, r3) = cut 4 (m / 16 ^ 16) (n / 16 ^ 16) _ _ r2 in
    let (p4, p5) = cut 4 (m / 16 ^ 12) (n / 16 ^ 12) _ _ r3 in
    let q24 =
      hex_digits-eq 8 (m / 16 ^ 24) (n / 16 ^ 24) p1
        (above m n (16 ^ 24) (16 ^ 8) (none_above m small ∙ sym (none_above n small'))) in
    let q20 = hex_digits-eq 4 (m / 16 ^ 20) (n / 16 ^ 20) p2 (above m n (16 ^ 20) (16 ^ 4) q24) in
    let q16 = hex_digits-eq 4 (m / 16 ^ 16) (n / 16 ^ 16) p3 (above m n (16 ^ 16) (16 ^ 4) q20) in
    let q12 = hex_digits-eq 4 (m / 16 ^ 12) (n / 16 ^ 12) p4 (above m n (16 ^ 12) (16 ^ 4) q16) in
    hex_digits-eq 12 m n p5 q12
