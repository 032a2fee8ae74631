-- ===== src/Prelude/Powers.antt =====
-- Powers of two, and the blocks into which a power of two cuts the numbers.
use Prim.Native.Nat.{ℕ, zero, suc, ◌+◌, ◌-◌, ◌*◌, ◌/◌, ◌^◌, ◌≤◌, ◌<◌}
use mathlib.Core.Path.{◌≡◌, ap, ◌∙◌}
use native.Mathlib.Omega.{arith}
use native.Mathlib.Decide.{dec_le}
use native.Mathlib.Nat.{
  two-pow-succ, div-eq_of_lt-le, div-mul-le_self, lt-div-mul-add, mul-le-mul_right,
  pow-le-pow_right,
}

pub pow_pos : (n : ℕ) → 0 < 2 ^ n
pow_pos zero = omega arith
pow_pos (suc n) = omega (arith, two-pow-succ n, pow_pos n)

pub pow_double : (n : ℕ) → 2 ^ suc n ≡ 2 ^ n + 2 ^ n
pow_double n = two-pow-succ n

pub pow-add : (m n : ℕ) → 2 ^ (m + n) ≡ 2 ^ m * 2 ^ n
pow-add zero n = let e : zero + n ≡ n = omega arith in rw e (omega arith)
pow-add (suc m) n =
    let e : suc m + n ≡ suc (m + n) = omega arith in
    rw (e, two-pow-succ (m + n), two-pow-succ m) (omega (arith, pow-add m n))

-- A larger power is a multiple of a smaller one.
pub pow_split : (m n : ℕ) → m ≤ n → 2 ^ n ≡ 2 ^ (n - m) * 2 ^ m
pow_split m n h = let e : n ≡ n - m + m = omega arith in ap (λ k. 2 ^ k) e ∙ pow-add (n - m) m

pub pow_mono : (m n : ℕ) → m ≤ n → 2 ^ m ≤ 2 ^ n
pow_mono m n h = pow-le-pow_right {n = 2} (omega arith) h

pub pow_lt : (m n : ℕ) → m < n → 2 ^ m < 2 ^ n
pow_lt m n h = omega (arith, pow_mono (suc m) n h, two-pow-succ m, pow_pos m)

-- The start of the block of width `w` that holds `x`.
abbrev pub block : ℕ → ℕ → ℕ
block w x = x / w * w

module _ (w : ℕ) (pos : 0 < w) where
  pub block-le : (x : ℕ) → block w x ≤ x
  block-le x = div-mul-le_self x w

  pub lt-block : (x : ℕ) → x < block w x + w
  lt-block x = lt-div-mul-add {a = x} pos

  -- Two points of the grid of step `w` are equal or `w` apart.
  pub grid_gap : (m n : ℕ) → m * w < n * w → m * w + w ≤ n * w
  grid_gap m n h = elim (dec_le n m) [
    | yes p ↦ absurd (omega (arith, mul-le-mul_right w p))
    | no p ↦ let q : suc m ≤ n = omega arith in omega (arith, mul-le-mul_right w q)
  ]

  pub block_unique : (n x : ℕ) → n * w ≤ x → x < n * w + w → block w x ≡ n * w
  block_unique n x h k = ap (λ (t : ℕ). t * w) (div-eq_of_lt-le {k = n} w {m = x} h (omega arith))
