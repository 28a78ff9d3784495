-- ===== src/Interceptor/Financial.antt =====
-- `_verify_financial`: the validation of a payload, its total, and the comparison with the claim. A text
-- is read as a decimal once, where the code reads it again for the total.
pub mod Verified
pub mod Exact
mod Examples
use qwed_a2a.Prelude.{
  ℕ, zero, suc, ◌+◌, ◌-◌, ◌*◌, ◌^◌, Bool, true, false, ◌&&◌, ◌||◌, Option, none, some, List, [],
  ◌∷◌, ltb, leb, if◌then◌else◌, length,
}
use qwed_a2a.Prelude.Int.{ℤ, pos, negsuc}
use qwed_a2a.Prelude.Text.{Text, lit, text-Eq}
use qwed_a2a.Interceptor.Message.{
  Value, null, boolean, integer, float, string, array, object, Items, no_items, item, Fields,
  no_fields, get, EngineReason, data_not_mapping, line_items_not_list, total_missing,
  total_malformed, total_not_finite, total_negative, line_items_missing, line_item_not_mapping,
  amount_missing, quantity_null, line_item_malformed, line_item_not_finite, line_item_negative,
  totals_verified, hallucination, EngineResult, unverified, Outcome, returned, raising,
}
use qwed_a2a.Interceptor.Claim.{Unicode}
use qwed_a2a.Interceptor.Decimal.{
  Number, Decimal, finite, infinity, not_a_number, mul, plus, quantize, parse,
}

-- `str` of an integer raises `ValueError` from this on.
unfoldable pub unprintable : ℕ
unprintable = 10 ^ 4300

unfoldable pub decimal_of_ℕ : Bool → ℕ → Option Decimal
decimal_of_ℕ negative n =
    if leb unprintable n
    then none
    else some (finite negative (record { coefficient = n; places = 0 }))

-- `Decimal(str(v))`, with `none` for an exception that the code catches. The text of a boolean, of
-- None, of a list and of a dict is no number.
unfoldable pub decimal_of : Unicode → Value → Option Decimal
decimal_of u null = none
decimal_of u (boolean b) = none
decimal_of u (integer (pos n)) = decimal_of_ℕ false n
decimal_of u (integer (negsuc n)) = decimal_of_ℕ true (suc n)
decimal_of u (float repr) = parse u repr
decimal_of u (string text) = parse u text
decimal_of u (array items) = none
decimal_of u (object _) = none

-- A check's refusal, or what it lets through.
pub data Checked {ℓ} (A : Type ℓ) : Type ℓ where
  refused : EngineReason → Checked A
  accepted : A → Checked A

abbrev is_finite : Decimal → Bool
is_finite (finite negative n) = true
is_finite infinity = false
is_finite not_a_number = false

-- `d < 0` of a finite decimal.
abbrev is_negative : Decimal → Bool
is_negative (finite negative n) = negative && ltb 0 n.coefficient
is_negative infinity = false
is_negative not_a_number = false

abbrev magnitude : Decimal → Number
magnitude (finite negative n) = n
magnitude infinity = record { coefficient = 0; places = 0 }
magnitude not_a_number = record { coefficient = 0; places = 0 }

-- The claimed total.
unfoldable pub check_total : Option Decimal → Checked Number
check_total none = refused total_malformed
check_total (some d) =
    if is_finite d
    then if is_negative d then refused total_negative else accepted (magnitude d)
    else refused total_not_finite

-- An amount and a quantity.
unfoldable pub check_factors : Option Decimal → Option Decimal → Checked (Number × Number)
check_factors none quantity = refused line_item_malformed
check_factors (some amount) none = refused line_item_malformed
check_factors (some amount) (some quantity) =
    if is_finite amount && is_finite quantity
    then if is_negative amount || is_negative quantity
      then refused line_item_negative
      else accepted (magnitude amount, magnitude quantity)
    else refused line_item_not_finite

-- `_validate_line_item`, from the tests for null on.
unfoldable pub check_fields : Unicode → Option Value → Option Value → Checked (Number × Number)
unfolding check_factors
check_fields u none quantity = refused amount_missing
check_fields u (some null) quantity = refused amount_missing
check_fields u (some amount) (some null) = refused quantity_null
check_fields u (some amount) (some quantity) =
    check_factors (decimal_of u amount) (decimal_of u quantity)
check_fields u (some amount) none =
    check_factors (decimal_of u amount)
      (some (finite false (record { coefficient = 1; places = 0 })))

-- `_validate_line_item`
unfoldable pub validate_line_item : Unicode → Value → Checked (Number × Number)
unfolding check_fields lit
validate_line_item u (object fields) =
    check_fields u (get (lit "amount") fields) (get (lit "quantity") fields)
validate_line_item u _ = refused line_item_not_mapping

abbrev prepend :
    Checked (Number × Number) → Checked (List (Number × Number)) → Checked (List (Number × Number))
prepend (refused reason) rest = refused reason
prepend (accepted factors) (refused reason) = refused reason
prepend (accepted factors) (accepted rest) = accepted (factors ∷ rest)

unfoldable pub validate_line_items : Unicode → Items → Checked (List (Number × Number))
validate_line_items u no_items = accepted []
validate_line_items u (item v vs) = prepend (validate_line_item u v) (validate_line_items u vs)

-- A valid payload: the claimed total, as it was given and as a number, and the line items.
pub record FinancialClaim : Type 0 where
  pub claimed_total : Value
  pub claimed : Number
  pub line_items : List (Number × Number)

abbrev with_items : Value → Number → Checked (List (Number × Number)) → Checked FinancialClaim
with_items v claimed (refused reason) = refused reason
with_items v claimed (accepted factors) =
    accepted (record { claimed_total = v; claimed = claimed; line_items = factors })

unfoldable pub check_items : Unicode → Value → Checked Number → Items → Checked FinancialClaim
check_items u v (refused reason) items = refused reason
check_items u v (accepted claimed) no_items = refused line_items_missing
check_items u v (accepted claimed) (item w ws) =
    with_items v claimed (validate_line_items u (item w ws))

unfoldable pub check_claim : Unicode → Option Value → Items → Checked FinancialClaim
unfolding check_items check_total
check_claim u none items = refused total_missing
check_claim u (some null) items = refused total_missing
check_claim u (some v) items = check_items u v (check_total (decimal_of u v)) items

unfoldable pub check_data : Unicode → Option Value → Option Value → Checked FinancialClaim
unfolding check_claim
check_data u claimed none = check_claim u claimed no_items
check_data u claimed (some (array items)) = check_claim u claimed items
check_data u claimed (some _) = refused line_items_not_list

-- `_validate_financial_payload`
unfoldable pub validate : Unicode → Option Value → Checked FinancialClaim
unfolding check_data lit
validate u none = check_data u none none
validate u (some (object fields)) =
    check_data u (get (lit "claimed_total") fields) (get (lit "line_items") fields)
validate u (some _) = refused data_not_mapping

-- `computed_total += amount * quantity`; `none` is `Overflow`, which ends the loop.
abbrev pub plus_product : Option Number → Option Number → Option Number
plus_product none product = none
plus_product (some total) none = none
plus_product (some total) (some product) = plus total product

unfoldable pub sum_items : Option Number → List (Number × Number) → Option Number
sum_items total [] = total
sum_items total ((amount, quantity) ∷ factors) =
    sum_items (plus_product total (mul amount quantity)) factors

unfoldable pub finance_result : Bool → Option Text → EngineReason → EngineResult
unfolding lit
finance_result verified status reason = record {
  verified = verified;
  engine = lit "finance_guard";
  status = status;
  reason = some reason;
}

-- Whether two totals, in hundredths, differ by more than the tolerance of one.
unfoldable pub differ : ℕ → ℕ → Bool
differ a b = ltb (a + 1) b || ltb (b + 1) a

unfoldable pub compare_totals : Value → ℕ → Option ℕ → Outcome
unfolding finance_result lit
compare_totals v computed none =
    returned (finance_result false (some (lit "unverifiable")) total_malformed)
compare_totals v computed (some claimed) =
    if differ computed claimed
    then returned (finance_result false none (hallucination v computed))
    else returned (finance_result true none totals_verified)

unfoldable pub quantize_total : FinancialClaim → Option ℕ → Outcome
unfolding lit compare_totals
quantize_total claim none = raising (lit "InvalidOperation")
quantize_total claim (some computed) =
    compare_totals claim.claimed_total computed (quantize claim.claimed)

unfoldable pub compare_claim : FinancialClaim → Option Number → Outcome
unfolding lit quantize_total
compare_claim claim none = raising (lit "Overflow")
compare_claim claim (some total) = quantize_total claim (quantize total)

abbrev pub zero_total : Number
zero_total = record { coefficient = 0; places = 0 }

unfoldable pub verify_claim : Checked FinancialClaim → Outcome
unfolding lit compare_claim finance_result
verify_claim (refused reason) = returned (finance_result false (some (lit "unverifiable")) reason)
verify_claim (accepted claim) = compare_claim claim (sum_items (some zero_total) claim.line_items)

-- `_verify_financial`
unfoldable pub verify_financial : Unicode → Fields → Outcome
unfolding verify_claim validate lit
verify_financial u payload = verify_claim (validate u (get (lit "data") payload))
