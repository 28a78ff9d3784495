-- ===== src/Interceptor/Decimal/Exact.antt =====
-- Where the arithmetic of the context is exact.
use native.Mathlib.Nat.{div-lt_iff_lt-mul, pow-suc, one-le-pow}
use qwed_a2a.Prelude.{
  ℕ, zero, suc, ◌+◌, ◌-◌, ◌*◌, ◌/◌, ◌^◌, ◌≤◌, ◌<◌, ◌≡◌, refl, sym, true, false, some, arith, ltb,
  leb, if◌then◌else◌, nat-Eq,
}
use qwed_a2a.Interceptor.Decimal.{
  Number, digits, digits_in, precision, smallest, drop_half_even, round_by, excess, is_too_large,
  fix, exact_sum, quantize,
}

pub digits_in_step :
    (fuel n : ℕ) → digits_in (suc fuel) n ≡ (if ltb n 10 then 1 else suc (digits_in fuel (n / 10)))
unfolding digits_in
digits_in_step fuel n = ground arith

digits_in-le : (fuel n k : ℕ) → n < 10 ^ suc k → digits_in fuel n ≤ suc k
unfolding digits_in
digits_in-le zero n k small = omega arith
digits_in-le (suc fuel) n zero small = rw (digits_in_step fuel n) (ground arith)
digits_in-le (suc fuel) n (suc k) small =
    let tenth : n / 10 < 10 ^ suc k =
      (div-lt_iff_lt-mul (omega arith)).1 (rw (sym (pow-suc 10 (suc k))) small) in
    let rest = digits_in-le fuel (n / 10) k tenth in
    rw (digits_in_step fuel n) (ground (arith, rest))

digits-le : (n : ℕ) → n < 10 ^ precision → digits n ≤ precision
unfolding digits
digits-le n small = digits_in-le n n 27 small

drop_nothing : (c : ℕ) → drop_half_even c 0 ≡ c
unfolding drop_half_even
drop_nothing c = ground arith

no_excess : (n : Number) → digits n.coefficient ≤ precision → n.places ≤ smallest → excess n ≡ 0
unfolding excess
no_excess n short fine = ground arith

not_too_large : (n : Number) → digits n.coefficient ≤ precision → is_too_large n ≡ false
unfolding is_too_large
not_too_large n short = ground arith

round_by_nothing : (n : Number) → round_by 0 n ≡ n
unfolding round_by
round_by_nothing n = rw (drop_nothing n.coefficient) (ground arith)

-- A number within the precision stays as it is.
pub fix-exact : (n : Number) → n.coefficient < 10 ^ precision → n.places ≤ smallest → fix n ≡ some n
unfolding fix
fix-exact n short fine =
    let d = digits-le n.coefficient short in
    rw (not_too_large n d, no_excess n d fine, round_by_nothing n, not_too_large n d) refl

-- Hundredths of a number with at most two places.
abbrev pub hundredths : Number → ℕ
hundredths n = n.coefficient * 10 ^ (2 - n.places)

le-mul_right : (c x : ℕ) → 1 ≤ x → c ≤ c * x
le-mul_right c zero h = absurd (omega arith)
le-mul_right c (suc x) h = omega arith

pub le-hundredths : (n : Number) → n.coefficient ≤ hundredths n
le-hundredths n =
    le-mul_right n.coefficient (10 ^ (2 - n.places)) (one-le-pow (2 - n.places) 10 (omega arith))

aligned :
    (c d p q : ℕ)
    → p ≤ 2
    → q ≤ 2
    → (c * 10 ^ (q - p) + d * 10 ^ (p - q)) * 10 ^ (2 - (if leb p q then q else p))
      ≡ c * 10 ^ (2 - p) + d * 10 ^ (2 - q)
aligned c d zero zero s t = omega arith
aligned c d zero (suc zero) s t = omega arith
aligned c d zero (suc (suc zero)) s t = omega arith
aligned c d (suc zero) zero s t = omega arith
aligned c d (suc zero) (suc zero) s t = omega arith
aligned c d (suc zero) (suc (suc zero)) s t = omega arith
aligned c d (suc (suc zero)) zero s t = omega arith
aligned c d (suc (suc zero)) (suc zero) s t = omega arith
aligned c d (suc (suc zero)) (suc (suc zero)) s t = omega arith
aligned c d p (suc (suc (suc q))) s t = absurd (omega arith)
aligned c d (suc (suc (suc p))) q s t = absurd (omega arith)

pub hundredths-exact_sum :
    (a b : Number)
    → a.places ≤ 2
    → b.places ≤ 2
    → hundredths (exact_sum a b) ≡ hundredths a + hundredths b
unfolding exact_sum
hundredths-exact_sum a b s t = aligned a.coefficient b.coefficient a.places b.places s t

pub places-exact_sum : (a b : Number) → a.places ≤ 2 → b.places ≤ 2 → (exact_sum a b).places ≤ 2
unfolding exact_sum
places-exact_sum a b s t = ground arith

pub quantize-exact :
    (n : Number) → n.places ≤ 2 → hundredths n < 10 ^ precision → quantize n ≡ some (hundredths n)
unfolding quantize
quantize-exact n places small =
    let within : leb n.places 2 ≡ true = ground arith in
    let fits : ltb (hundredths n) (10 ^ precision) ≡ true = ground arith in rw (within, fits) refl
