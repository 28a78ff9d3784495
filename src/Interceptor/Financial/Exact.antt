-- ===== src/Interceptor/Financial/Exact.antt =====
-- The financial engine against exact arithmetic in hundredths.
use qwed_a2a.Prelude.{
  ℕ, ◌+◌, ◌-◌, ◌*◌, ◌^◌, ◌≤◌, ◌<◌, ◌≡◌, ◌↔◌, inl, inr, refl, ◌∙◌, ap, subst, Option, some, List, [],
  ◌∷◌, arith, Bool-cases, All,
}
use qwed_a2a.Prelude.Text.{lit}
use qwed_a2a.Interceptor.Message.{Value, Fields, get}
use qwed_a2a.Interceptor.Claim.{Unicode}
use qwed_a2a.Interceptor.Decimal.{Number, precision, mul, plus, exact_sum, quantize}
use qwed_a2a.Interceptor.Decimal.Exact.{
  fix-exact, hundredths, le-hundredths, hundredths-exact_sum, places-exact_sum, quantize-exact,
}
use qwed_a2a.Interceptor.Financial.{
  accepted, FinancialClaim, validate, plus_product, sum_items, zero_total, finance_result, differ,
  compare_totals, quantize_total, compare_claim, verify_claim, verify_financial,
}
use qwed_a2a.Interceptor.Financial.Verified.{Verifies}

-- An amount with at most two places, and a whole quantity.
abbrev pub IsPriced : Number × Number → Type 0
IsPriced (amount, quantity) = (amount.places ≤ 2) × (quantity.places ≡ 0)

-- The exact total in hundredths.
abbrev pub exact_total : List (Number × Number) → ℕ
exact_total [] = 0
exact_total ((amount, quantity) ∷ factors) =
    hundredths amount * quantity.coefficient + exact_total factors

plus-exact :
    (a b : Number)
    → a.places ≤ 2
    → b.places ≤ 2
    → hundredths a + hundredths b < 10 ^ precision
    → plus a b ≡ some (exact_sum a b)
unfolding plus
plus-exact a b s t small =
    let total = exact_sum a b in
    let is = hundredths-exact_sum a b s t in
    fix-exact total (omega (arith, le-hundredths total, is))
      (omega (arith, places-exact_sum a b s t))

scaled_product : (c d p : ℕ) → c * d * 10 ^ (2 - (p + 0)) ≡ c * 10 ^ (2 - p) * d
scaled_product c d p = grind arith

product_of : Number → Number → Number
product_of a q = record {
  coefficient = a.coefficient * q.coefficient;
  places = a.places + q.places;
}

hundredths-product_of :
    (a q : Number) → q.places ≡ 0 → hundredths (product_of a q) ≡ hundredths a * q.coefficient
unfolding product_of
hundredths-product_of a q whole = rw whole (scaled_product a.coefficient q.coefficient a.places)

places-product_of : (a q : Number) → a.places ≤ 2 → q.places ≡ 0 → (product_of a q).places ≤ 2
unfolding product_of
places-product_of a q s whole = omega arith

mul-exact :
    (a q : Number)
    → a.places ≤ 2
    → q.places ≡ 0
    → hundredths a * q.coefficient < 10 ^ precision
    → mul a q ≡ some (product_of a q)
unfolding mul product_of
mul-exact a q s whole small =
    let product = product_of a q in
    fix-exact product (omega (arith, le-hundredths product, hundredths-product_of a q whole))
      (omega arith)

-- What a running total is, when it is exact.
record Exact (o : Option Number) (cents : ℕ) : Type 0 where
  total : Number
  is_total : o ≡ some total
  few_places : total.places ≤ 2
  is_cents : hundredths total ≡ cents

sum_items-Exact :
    (o : Option Number) (cents : ℕ) (factors : List (Number × Number))
    → Exact o cents
    → All IsPriced factors
    → cents + exact_total factors < 10 ^ precision
    → Exact (sum_items o factors) (cents + exact_total factors)
unfolding sum_items
sum_items-Exact o cents [] e priced small = subst (λ n. Exact o n) (omega arith) e
sum_items-Exact o cents ((amount, quantity) ∷ factors) e ((places, whole), priced) small =
    let item_cents = hundredths amount * quantity.coefficient in
    let product = product_of amount quantity in
    let is_product = mul-exact amount quantity places whole (omega arith) in
    let few : product.places ≤ 2 = places-product_of amount quantity places whole in
    let is_sum : plus_product o (mul amount quantity) ≡ some (exact_sum e.total product) =
      rw (e.is_total, is_product)
        (plus-exact e.total product e.few_places few
          (omega (arith, e.is_cents, hundredths-product_of amount quantity whole))) in
    let next : Exact (plus_product o (mul amount quantity)) (cents + item_cents) = record {
      total = exact_sum e.total product;
      is_total = is_sum;
      few_places = places-exact_sum e.total product e.few_places few;
      is_cents = omega (
        arith,
        hundredths-exact_sum e.total product e.few_places few,
        e.is_cents,
        hundredths-product_of amount quantity whole,
      );
    } in
    subst (λ n. Exact (sum_items (plus_product o (mul amount quantity)) factors) n) (omega arith)
      (sum_items-Exact (plus_product o (mul amount quantity)) (cents + item_cents) factors next
        priced (omega arith))

compare_totals_iff :
    (v : Value) (a b : ℕ) → Verifies (compare_totals v a (some b)) ↔ ((a ≤ b + 1) × (b ≤ a + 1))
unfolding compare_totals differ finance_result
compare_totals_iff v a b = elim (Bool-cases (differ a b)) [
  | inl far ↦ rw far ((λ h. absurd (cc)), (λ h. absurd (ground arith)))
  | inr near ↦ rw near ((λ h. (ground arith, ground arith)), (λ h. refl))
]

-- For a valid payload with amounts and a claimed total of at most two places and whole quantities,
-- if the exact total and the claim are below ten to the 26th, then the financial engine verifies
-- exactly if the sum of amount times quantity in whole hundredths and the claim in hundredths
-- differ by at most one: on such data the decimal arithmetic is exact.
pub verify_financial-exact :
    (u : Unicode) (payload : Fields) (claim : FinancialClaim)
    → validate u (get (lit "data") payload) ≡ accepted claim
    → All IsPriced claim.line_items
    → claim.claimed.places ≤ 2
    → exact_total claim.line_items < 10 ^ precision
    → hundredths claim.claimed < 10 ^ precision
    → Verifies (verify_financial u payload) ↔ (
        (exact_total claim.line_items ≤ hundredths claim.claimed + 1)
        × (hundredths claim.claimed ≤ exact_total claim.line_items + 1))
unfolding verify_financial verify_claim compare_claim quantize_total
verify_financial-exact u payload claim valid priced places small small' =
    let e =
      sum_items-Exact (some zero_total) 0 claim.line_items
        (record { total = zero_total; is_total = refl; few_places = omega arith; is_cents = refl })
        priced (omega (arith, small)) in
    let computed : quantize e.total ≡ some (exact_total claim.line_items) =
      quantize-exact e.total e.few_places (omega (arith, e.is_cents, small))
      ∙ ap (λ n. some n) (omega (arith, e.is_cents)) in
    rw (valid, e.is_total, computed, quantize-exact claim.claimed places small')
      (compare_totals_iff claim.claimed_total (exact_total claim.line_items)
        (hundredths claim.claimed))
