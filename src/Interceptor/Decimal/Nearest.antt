-- ===== src/Interceptor/Decimal/Nearest.antt =====
-- Rounding to the precision of the context.
use native.Mathlib.Nat.{mul_assoc, pow-suc}
use qwed_a2a.Prelude.{◌∙◌, ap, ℕ, ◌⊎◌, zero, suc, ◌+◌, ◌-◌, ◌*◌, ◌%◌, ◌^◌, ◌≤◌, ◌≡◌, arith, nat-Eq}
use qwed_a2a.Interceptor.Decimal.{Number, precision, smallest}

-- A quotient is nearest to a fraction when it is off by at most a half.
pub record IsNearest (c m quotient : ℕ) : Type 0 where
  pub not_above : 2 * (quotient * m) ≤ 2 * c + m
  pub not_below : 2 * c ≤ 2 * (quotient * m) + m

ten_add : (a b : ℕ) → 10 ^ (a + b) ≡ 10 ^ a * 10 ^ b
ten_add a zero =
    let same : a + 0 ≡ a = omega arith in
    let times : 10 ^ a ≡ 10 ^ a * 1 = omega arith in ap (λ n. 10 ^ n) same ∙ times
ten_add a (suc b) =
    let same : a + suc b ≡ suc (a + b) = omega arith in
    let times : 10 ^ (a + b) * 10 ≡ 10 ^ a * 10 ^ suc b =
      rw (ten_add a b, pow-suc 10 b) (mul_assoc (10 ^ a) (10 ^ b) 10) in
    ap (λ n. 10 ^ n) same ∙ pow-suc 10 (a + b) ∙ times

pub ten_times : (p k : ℕ) → k ≤ p → 10 ^ p ≡ 10 ^ (p - k) * 10 ^ k
ten_times p k h =
    let same : p ≡ p - k + k = omega arith in ap (λ n. 10 ^ n) same ∙ ten_add (p - k) k

-- A result of the context: of the exact number as few digits are dropped as keep it within the
-- precision and the smallest exponent, rounding to nearest and a tie to even, and the result has the
-- value that is left.
pub record IsRounded (n r : Number) : Type 0 where
  pub dropped : ℕ
  pub kept : ℕ
  pub fewest :
      (dropped ≡ 0)
      ⊎ ((n.places ≡ smallest + dropped) ⊎ (10 ^ (precision + dropped) ≤ 10 * n.coefficient))
  pub nearest : IsNearest n.coefficient (10 ^ dropped) kept
  pub tie_to_even : 2 * (n.coefficient % 10 ^ dropped) ≡ 10 ^ dropped → kept % 2 ≡ 0
  pub short : kept ≤ 10 ^ precision
  pub is_value : r.coefficient * 10 ^ n.places ≡ kept * 10 ^ dropped * 10 ^ r.places
