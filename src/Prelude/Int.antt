-- ===== src/Prelude/Int.antt =====
-- Go's `int`, under the library's names. `negsuc n` is -(n + 1). The program only stores,
-- compares and prints these numbers.
use mathlib.Core.Bool.{Bool, true, false}
use mathlib.Core.Path.{◌≡◌, ap, subst}
use mathlib.Core.Logic.{◌↔◌}
use native.Mathlib.Omega.{arith}
use Prim.Native.Nat.{ℕ}
use go_run.Prelude.Tests.{◌==◌, ltb}

pub data ℤ : Type 0 where
  pos : ℕ → ℤ
  negsuc : ℕ → ℤ

abbrev pub int_eq : ℤ → ℤ → Bool
int_eq (pos m) (pos n) = m == n
int_eq (negsuc m) (negsuc n) = m == n
int_eq _ _ = false

abbrev pub int_less : ℤ → ℤ → Bool
int_less (pos m) (pos n) = ltb m n
int_less (pos m) (negsuc n) = false
int_less (negsuc m) (pos n) = true
int_less (negsuc m) (negsuc n) = ltb n m

pub int_eq_refl : (n : ℤ) → int_eq n n ≡ true
int_eq_refl (pos n) = ground arith
int_eq_refl (negsuc n) = ground arith

int_eq→eq : (m n : ℤ) → int_eq m n ≡ true → m ≡ n
int_eq→eq (pos m) (pos n) e = ap pos (ground (arith, e))
int_eq→eq (negsuc m) (negsuc n) e = ap negsuc (ground (arith, e))
int_eq→eq (pos m) (negsuc n) e = ground (arith, e)
int_eq→eq (negsuc m) (pos n) e = ground (arith, e)

pub int_eq_iff : (m n : ℤ) → (int_eq m n ≡ true) ↔ (m ≡ n)
int_eq_iff m n = (int_eq→eq m n, λ e. subst (λ x. int_eq m x ≡ true) e (int_eq_refl m))
