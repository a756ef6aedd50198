-- ===== src/Prelude/Int.antt =====
-- Python's `int`: `negsuc n` is -(n + 1). The program compares and prints integers, and adds none.
use Prim.Native.Nat.{ℕ}
use mathlib.Core.Path.{◌≡◌}
use native.Mathlib.Omega.{arith}
use mathlib.Core.Bool.{Bool, true, false, not}
use rag_document_processor.Prelude.Tests.{leb}

pub data ℤ : Type 0 where
  pos : ℕ → ℤ
  negsuc : ℕ → ℤ

-- `a <= b`
abbrev pub le_ℤ : ℤ → ℤ → Bool
le_ℤ (pos m) (pos n) = leb m n
le_ℤ (pos m) (negsuc n) = false
le_ℤ (negsuc m) (pos n) = true
le_ℤ (negsuc m) (negsuc n) = leb n m

-- `a < b`
abbrev pub lt_ℤ : ℤ → ℤ → Bool
lt_ℤ a b = not (le_ℤ b a)

pub le_ℤ_trans : (a b c : ℤ) → le_ℤ a b ≡ true → le_ℤ b c ≡ true → le_ℤ a c ≡ true
le_ℤ_trans a b c h k = ground arith
