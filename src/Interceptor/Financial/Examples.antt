-- ===== src/Interceptor/Financial/Examples.antt =====
-- The financial engine on an invoice, and roundings.
use qwed_a2a.Strip.{strip, strip_left, strip_right}
use qwed_a2a.Prelude.{◌*◌, ◌^◌, ◌<◌, ◌≤◌, ◌≡◌, ◌↔◌, refl, some, [], ◌∷◌, arith, nat-Eq}
use qwed_a2a.Prelude.Text.{lit, text-Eq, text_eq}
use qwed_a2a.Interceptor.Message.{string, get}
use qwed_a2a.Interceptor.Claim.{filter, all}
use qwed_a2a.Interceptor.Decimal.{
  Number, precision, quantize, parse, parse_signed, parse_unsigned, parse_finite, of_digits, after,
  take_digits, fraction, parse_exponent, signed_exponent, value_from, is_representable, scaled,
  digits, digits_in, numeric_text, to_ascii, drop_half_up,
}
use qwed_a2a.Interceptor.Decimal.Quantize.{IsHalfUp, quantize_iff}
use qwed_a2a.Interceptor.Financial.{
  accepted, FinancialClaim, validate, check_data, check_claim, check_items, check_total,
  validate_line_items, validate_line_item, check_fields, check_factors, decimal_of,
  verify_financial,
}
use qwed_a2a.Interceptor.Financial.Verified.{Verifies}
use qwed_a2a.Interceptor.Financial.Exact.{verify_financial-exact}
use qwed_a2a.Interceptor.Examples.{engines, invoice, three_items}

abbrev claim : FinancialClaim
unfolding lit
claim = record {
  claimed_total = string (lit "30");
  claimed = record { coefficient = 30; places = 0 };
  line_items =
      (record { coefficient = 1000; places = 2 }, record { coefficient = 3; places = 0 }) ∷ [];
}

invoice-accepted : validate engines.unicode (get (lit "data") invoice) ≡ accepted claim
unfolding claim invoice three_items lit get text_eq validate check_data check_claim check_items
    check_total validate_line_items validate_line_item check_fields check_factors decimal_of parse
    parse_signed parse_unsigned parse_finite of_digits after take_digits fraction parse_exponent
    signed_exponent value_from is_representable scaled digits digits_in numeric_text to_ascii strip
    strip_left strip_right filter all
invoice-accepted = refl

verify_financial-exact_example :
    Verifies (verify_financial engines.unicode invoice) ↔ ((3000 ≤ 3001) × (3000 ≤ 3001))
unfolding claim
verify_financial-exact_example =
    verify_financial-exact engines.unicode invoice claim invoice-accepted ((omega arith, refl), tt)
      (omega arith) (omega arith) (omega arith)

-- 2.005 is 201 hundredths.
abbrev half_up : Number
half_up = record { coefficient = 2005; places = 3 }

half_up_quantized : quantize half_up ≡ some 201
unfolding quantize drop_half_up
half_up_quantized = refl

quantize_iff_example :
    (quantize half_up ≡ some 201) ↔ ((201 < 10 ^ precision) × IsHalfUp (2005 * 100) (10 ^ 3) 201)
quantize_iff_example = quantize_iff half_up 201

-- Of 29 digits the last is dropped, to the even neighbour.
abbrev long : Number
long = record { coefficient = 12345678901234567890123456785; places = 2 }

abbrev shortened : Number
shortened = record { coefficient = 1234567890123456789012345678; places = 1 }
