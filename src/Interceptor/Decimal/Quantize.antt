-- ===== src/Interceptor/Decimal/Quantize.antt =====
-- Rounding to hundredths, against the rule of ROUND_HALF_UP.
use native.Mathlib.Nat.{mul_assoc, div-add-mod', mod-lt, one-le-pow, mul-le-mul_right}
use mathlib.Core.Option.{some-injective}
use qwed_a2a.Prelude.{
  sym, ◌∙◌, ap, subst, ℕ, suc, ◌+◌, ◌-◌, ◌*◌, ◌%◌, ◌^◌, ◌≤◌, ◌<◌, ◌≡◌, ◌↔◌, inl, inr, some, arith,
  ltb, leb, if◌then◌else◌, Bool-cases,
}
use qwed_a2a.Interceptor.Decimal.{Number, drop_half_up, quantize, precision, within_precision}
use qwed_a2a.Interceptor.Decimal.Nearest.{ten_times}

-- The integer nearest to the fraction `c / m`, the upper one of two that are as near.
pub record IsHalfUp (c m q : ℕ) : Type 0 where
  pub not_above : 2 * (q * m) ≤ 2 * c + m
  pub above_below : 2 * c < 2 * (q * m) + m

-- There is one at most.
le-IsHalfUp : (c m q r : ℕ) → IsHalfUp c m q → IsHalfUp c m r → q ≤ r
le-IsHalfUp c m q r h k = elim (Bool-cases (leb q r)) [
  | inl fits ↦ ground arith
  | inr over ↦
      let next : suc r ≤ q = ground arith in
      let wide : suc r * m ≤ q * m = mul-le-mul_right m next in
      absurd (omega (arith, wide, h.not_above, k.above_below))
]

IsHalfUp-unique : (c m q r : ℕ) → IsHalfUp c m q → IsHalfUp c m r → q ≡ r
IsHalfUp-unique c m q r h k = omega (arith, le-IsHalfUp c m q r h k, le-IsHalfUp c m r q k h)

drop_half_up-IsHalfUp : (c k : ℕ) → IsHalfUp c (10 ^ k) (drop_half_up c k)
unfolding drop_half_up
drop_half_up-IsHalfUp c k =
    let m = 10 ^ k in
    let positive : 0 < m = one-le-pow k 10 (omega arith) in
    let is = div-add-mod' c m in
    let small = mod-lt c positive in
    elim (Bool-cases (leb m (2 * (c % m)))) [
      | inl up ↦ rw up (record {
        not_above = ground (arith, is, small);
        above_below = ground (arith, is, small);
      })
      | inr down ↦
          rw down (record { not_above = ground (arith, is); above_below = ground (arith, is) })
    ]

hundredths_lem : (c p q : ℕ) → 0 < p → q * p ≡ 100 → IsHalfUp (c * 100) p (c * q)
hundredths_lem c p q positive is =
    let same : c * q * p ≡ c * 100 = mul_assoc c q p ∙ ap (λ n. c * n) is in
    record { not_above = omega (arith, same); above_below = omega (arith, same) }

-- The hundredths of a number, before the test of the precision.
abbrev hundredths : Number → ℕ
hundredths n =
    if leb n.places 2
    then n.coefficient * 10 ^ (2 - n.places)
    else drop_half_up n.coefficient (n.places - 2)

hundredths-IsHalfUp : (n : Number) → IsHalfUp (n.coefficient * 100) (10 ^ n.places) (hundredths n)
hundredths-IsHalfUp n = elim (Bool-cases (leb n.places 2)) [
  | inl few ↦
      let whole = ten_times 2 n.places (ground arith) in
      rw few (
        hundredths_lem n.coefficient (10 ^ n.places) (10 ^ (2 - n.places))
          (one-le-pow n.places 10 (omega arith)) (sym whole))
  | inr many ↦
      let apart = ten_times n.places 2 (ground arith) in
      let near = drop_half_up-IsHalfUp n.coefficient (n.places - 2) in
      rw (many, apart)
        (record {
          not_above = ground (arith, near.not_above);
          above_below = ground (arith, near.above_below);
        })
]

within_precision_iff :
    (a cents : ℕ) → (within_precision a ≡ some cents) ↔ ((cents < 10 ^ precision) × (a ≡ cents))
within_precision_iff a cents = elim (Bool-cases (ltb a (10 ^ precision))) [
  | inl fits ↦ rw fits (
    (λ h. let is = some-injective a cents h in (ground (arith, is), is)),
    (λ (small, is). ap some is),
  )
  | inr over ↦ rw over ((λ h. absurd (cc)), (λ (small, is). absurd (ground (arith, is))))
]

-- Rounding a number to hundredths gives a result exactly if that has at most 28 digits and is the
-- integer nearest to the exact number of hundredths, the upper one of two that are as near.
pub quantize_iff :
    (n : Number) (cents : ℕ)
    → (quantize n ≡ some cents)
      ↔ ((cents < 10 ^ precision) × IsHalfUp (n.coefficient * 100) (10 ^ n.places) cents)
unfolding quantize
quantize_iff n cents =
    let (to, from) = within_precision_iff (hundredths n) cents in
    let rounded = hundredths-IsHalfUp n in
    (
      (λ h.
          let (small, is) = to h in
          (small, subst (IsHalfUp (n.coefficient * 100) (10 ^ n.places)) is rounded)),
      (λ (small, near). from (
        small,
        IsHalfUp-unique (n.coefficient * 100) (10 ^ n.places) (hundredths n) cents rounded near,
      )),
    )
