-- ===== src/Interceptor/Financial/Verified.antt =====
-- When the financial engine verifies a payload.
use qwed_a2a.Prelude.{ℕ, ◌+◌, ◌≤◌, ◌≡◌, inl, inr, refl, true, Option, none, some, arith, Bool-cases}
use qwed_a2a.Prelude.Text.{lit}
use qwed_a2a.Interceptor.Message.{Value, Fields, get, totals_verified, Outcome, returned, raising}
use qwed_a2a.Interceptor.Claim.{Unicode}
use qwed_a2a.Interceptor.Decimal.{Number, quantize}
use qwed_a2a.Interceptor.Financial.{
  Checked, refused, accepted, FinancialClaim, validate, sum_items, zero_total, finance_result,
  differ, compare_totals, quantize_total, compare_claim, verify_claim, verify_financial,
}

-- The payload is valid, and the computed and the claimed total, both rounded to hundredths, differ by
-- at most one hundredth.
pub record Agrees (u : Unicode) (payload : Fields) : Type 0 where
  pub claim : FinancialClaim
  pub total : Number
  pub computed : ℕ
  pub claimed : ℕ
  pub is_valid : validate u (get (lit "data") payload) ≡ accepted claim
  pub is_total : sum_items (some zero_total) claim.line_items ≡ some total
  pub is_computed : quantize total ≡ some computed
  pub is_claimed : quantize claim.claimed ≡ some claimed
  pub not_below : computed ≤ claimed + 1
  pub not_above : claimed ≤ computed + 1

abbrev pub Verifies : Outcome → Type 0
Verifies (returned r) = r.verified ≡ true
Verifies (raising e) = ⊥

abbrev pub passed : Outcome
unfolding finance_result
passed = returned (finance_result true none totals_verified)

compare_totals-Verifies :
    (v : Value) (computed : ℕ) (o : Option ℕ)
    → Verifies (compare_totals v computed o)
    → (claimed : ℕ) × (o ≡ some claimed) × (computed ≤ claimed + 1) × (claimed ≤ computed + 1)
unfolding compare_totals differ finance_result
compare_totals-Verifies v computed none = λ h. absurd (cc)
compare_totals-Verifies v computed (some claimed) = elim (Bool-cases (differ computed claimed)) [
  | inl far ↦ rw far (λ h. absurd (cc))
  | inr near ↦ λ h. (claimed, refl, ground arith, ground arith)
]

quantize_total-Verifies :
    (claim : FinancialClaim) (o : Option ℕ)
    → Verifies (quantize_total claim o)
    → (computed : ℕ) × (o ≡ some computed)
      × Verifies (compare_totals claim.claimed_total computed (quantize claim.claimed))
unfolding quantize_total
quantize_total-Verifies claim none h = elim h [ ]
quantize_total-Verifies claim (some computed) h = (computed, refl, h)

compare_claim-Verifies :
    (claim : FinancialClaim) (o : Option Number)
    → Verifies (compare_claim claim o)
    → (total : Number) × (o ≡ some total) × Verifies (quantize_total claim (quantize total))
unfolding compare_claim
compare_claim-Verifies claim none h = elim h [ ]
compare_claim-Verifies claim (some total) h = (total, refl, h)

verify_claim-Verifies :
    (c : Checked FinancialClaim)
    → Verifies (verify_claim c)
    → (claim : FinancialClaim) × (c ≡ accepted claim)
      × Verifies (compare_claim claim (sum_items (some zero_total) claim.line_items))
unfolding verify_claim finance_result
verify_claim-Verifies (refused reason) h = absurd (cc)
verify_claim-Verifies (accepted claim) h = (claim, refl, h)

-- If the engine verifies, the totals agree.
pub verify_financial-Agrees :
    (u : Unicode) (payload : Fields) → Verifies (verify_financial u payload) → Agrees u payload
unfolding verify_financial
verify_financial-Agrees u payload h =
    let (claim, valid, h1) = verify_claim-Verifies (validate u (get (lit "data") payload)) h in
    let (total, is_total, h2) =
      compare_claim-Verifies claim (sum_items (some zero_total) claim.line_items) h1 in
    let (computed, is_computed, h3) = quantize_total-Verifies claim (quantize total) h2 in
    let (claimed, is_claimed, below, above) =
      compare_totals-Verifies claim.claimed_total computed (quantize claim.claimed) h3 in
    record {
      claim = claim;
      total = total;
      computed = computed;
      claimed = claimed;
      is_valid = valid;
      is_total = is_total;
      is_computed = is_computed;
      is_claimed = is_claimed;
      not_below = below;
      not_above = above;
    }
