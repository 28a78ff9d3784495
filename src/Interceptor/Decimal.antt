-- ===== src/Interceptor/Decimal.antt =====
-- Python's `decimal` as the financial engine uses it: `Decimal(text)`, and `*`, `+` and `quantize` under
-- the default context on numbers that are finite and not negative. Such a number counts by its value
-- alone, so it is a coefficient and a number of decimal places.
pub mod Exact
pub mod Nearest
pub mod Quantize
use qwed_a2a.Prelude.{
  ℕ, zero, suc, ◌+◌, ◌-◌, ◌*◌, ◌/◌, ◌%◌, ◌^◌, Bool, true, false, not, ◌&&◌, ◌||◌, Option, none,
  some, List, [], ◌∷◌, ◌++◌, map, ltb, leb, if◌then◌else◌, ◌==◌, nat-Eq, length,
}
use qwed_a2a.Prelude.Text.{Text, lit, text-Eq}
use qwed_a2a.Strip.{strip}
use qwed_a2a.Interceptor.Claim.{Unicode, within, is_ascii, lower, filter, all}

pub record Number : Type 0 where
  pub coefficient : ℕ
  pub places : ℕ

pub data Decimal : Type 0 where
  finite : Bool → Number → Decimal
  infinity not_a_number : Decimal

-- The number of digits of a coefficient; the fuel is the coefficient.
unfoldable pub digits_in : ℕ → ℕ → ℕ
digits_in zero n = 1
digits_in (suc fuel) n = elim (ltb n 10) [ true ↦ 1 | false ↦ suc (digits_in fuel (n / 10)) ]

unfoldable pub digits : ℕ → ℕ
digits n = digits_in n n

-- `prec`, `Emax + 1` and `-Etiny` of the default context.
abbrev pub precision : ℕ
precision = 28

abbrev pub largest : ℕ
largest = 1000000

abbrev pub smallest : ℕ
smallest = 1000026

-- The last digits dropped by ROUND_HALF_EVEN.
unfoldable pub drop_half_even : ℕ → ℕ → ℕ
drop_half_even c k =
    let quotient = c / 10 ^ k in
    let twice = 2 * (c % 10 ^ k) in
    if ltb (10 ^ k) twice || twice == 10 ^ k && quotient % 2 == 1 then suc quotient else quotient

-- The last digits dropped by ROUND_HALF_UP.
unfoldable pub drop_half_up : ℕ → ℕ → ℕ
drop_half_up c k = if leb (10 ^ k) (2 * (c % 10 ^ k)) then suc (c / 10 ^ k) else c / 10 ^ k

unfoldable pub round_by : ℕ → Number → Number
round_by k n =
    if leb k n.places
    then record { coefficient = drop_half_even n.coefficient k; places = n.places - k }
    else record { coefficient = drop_half_even n.coefficient k * 10 ^ (k - n.places); places = 0 }

-- How many digits go beyond the precision or the smallest exponent.
unfoldable pub excess : Number → ℕ
excess n =
    let long = digits n.coefficient - precision in
    let fine = n.places - smallest in if leb long fine then fine else long

unfoldable pub is_too_large : Number → Bool
is_too_large n = ltb (n.places + largest) (digits n.coefficient)

abbrev unless_too_large : Number → Option Number
unless_too_large n = if is_too_large n then none else some n

-- A result of the context; `none` is the exception `Overflow`.
unfoldable pub fix : Number → Option Number
fix n = if is_too_large n then none else unless_too_large (round_by (excess n) n)

unfoldable pub mul : Number → Number → Option Number
mul a b = fix (record { coefficient = a.coefficient * b.coefficient; places = a.places + b.places })

unfoldable pub exact_sum : Number → Number → Number
exact_sum a b = record {
  coefficient =
      a.coefficient * 10 ^ (b.places - a.places) + b.coefficient * 10 ^ (a.places - b.places);
  places = if leb a.places b.places then b.places else a.places;
}

unfoldable pub plus : Number → Number → Option Number
plus a b = fix (exact_sum a b)

abbrev within_precision : ℕ → Option ℕ
within_precision cents = if ltb cents (10 ^ precision) then some cents else none

-- `quantize(Decimal("0.01"), rounding=ROUND_HALF_UP)`, in hundredths; `none` is `InvalidOperation`.
unfoldable pub quantize : Number → Option ℕ
quantize n = within_precision (
    if leb n.places 2
    then n.coefficient * 10 ^ (2 - n.places)
    else drop_half_up n.coefficient (n.places - 2))

-- A character as ASCII: a decimal digit of any script is the digit; a space stands for what is refused.
abbrev digit_or_space : Option ℕ → ℕ
digit_or_space none = 32
digit_or_space (some digit) = 48 + digit

unfoldable pub to_ascii : Unicode → ℕ → ℕ
to_ascii u c = if is_ascii c then c else digit_or_space (u.to_decimal c)

-- What `Decimal` reads of a text: no spaces around it, no underscores, in lower case.
unfoldable pub numeric_text : Unicode → Text → Text
numeric_text u t =
    map (λ c. lower (to_ascii u c)) (filter (λ c. not (c == 95)) (strip u.is_space t))

abbrev is_digit : ℕ → Bool
is_digit c = within 48 57 c

-- The digits that a text begins with, and the rest.
unfoldable pub take_digits : Text → Text × Text
take_digits [] = ([], [])
take_digits (c ∷ cs) =
    let (found, rest) = take_digits cs in if is_digit c then (c ∷ found, rest) else ([], c ∷ cs)

unfoldable pub value_from : ℕ → Text → ℕ
value_from n [] = n
value_from n (c ∷ cs) = value_from (10 * n + (c - 48)) cs

-- An exponent: its sign and magnitude; `none` for a malformed one.
abbrev pub Exponent : Type 0
Exponent = Bool × ℕ

abbrev whole_number : Bool → Text × Text → Option Exponent
whole_number negative ([], rest) = none
whole_number negative (c ∷ cs, []) = some (negative, value_from 0 (c ∷ cs))
whole_number negative (c ∷ cs, r ∷ rs) = none

unfoldable pub signed_exponent : Text → Option Exponent
signed_exponent [] = none
signed_exponent (c ∷ cs) =
    if c == 45
    then whole_number true (take_digits cs)
    else if c == 43
    then whole_number false (take_digits cs)
    else whole_number false (take_digits (c ∷ cs))

unfoldable pub parse_exponent : Text → Option Exponent
unfolding signed_exponent
parse_exponent [] = some (false, 0)
parse_exponent (c ∷ cs) = if c == 101 then signed_exponent cs else none

-- The digits behind a point, and the rest.
unfoldable pub fraction : Text → Text × Text
fraction [] = ([], [])
fraction (c ∷ cs) = if c == 46 then take_digits cs else ([], c ∷ cs)

unfoldable pub scaled : ℕ → ℕ → Exponent → Number
scaled c f (true, m) = record { coefficient = c; places = f + m }
scaled c f (false, m) = record { coefficient = c * 10 ^ (m - f); places = f - m }

-- Whether a coefficient with some places and an exponent has an exact `Decimal`.
unfoldable pub is_representable : ℕ → ℕ → Exponent → Bool
is_representable c f (true, m) =
    leb (f + m) 1999999999999999997 && leb (digits c) (f + m + 1000000000000000000)
is_representable c f (false, m) =
    leb f (m + 1999999999999999997) && leb (digits c + m) (f + 1000000000000000000)

unfoldable pub of_digits : Bool → Text → ℕ → Option Exponent → Option Decimal
of_digits negative [] f e = none
of_digits negative (c ∷ cs) f none = none
of_digits negative (c ∷ cs) f (some e) =
    let n = value_from 0 (c ∷ cs) in
    if is_representable n f e then some (finite negative (scaled n f e)) else none

unfoldable pub parse_finite : Bool → Text → Option Decimal
unfolding of_digits
parse_finite negative t =
    let (whole, rest) = take_digits t in
    let (part, rest') = fraction rest in
    of_digits negative (whole ++ part) (length part) (parse_exponent rest')

-- The text behind a prefix.
unfoldable pub after : Text → Text → Option Text
after [] t = some t
after (p ∷ ps) [] = none
after (p ∷ ps) (c ∷ cs) = if p == c then after ps cs else none

abbrev all_digits : Option Text → Bool
all_digits none = false
all_digits (some t) = all is_digit t

unfoldable pub parse_unsigned : Bool → Text → Option Decimal
unfolding lit parse_finite
parse_unsigned negative t =
    if t == lit "inf" || t == lit "infinity"
    then some infinity
    else if all_digits (after (lit "nan") t) || all_digits (after (lit "snan") t)
    then some not_a_number
    else parse_finite negative t

unfoldable pub parse_signed : Text → Option Decimal
unfolding parse_unsigned
parse_signed [] = none
parse_signed (c ∷ cs) =
    if c == 45
    then parse_unsigned true cs
    else if c == 43
    then parse_unsigned false cs
    else parse_unsigned false (c ∷ cs)

-- `Decimal(text)`, with `none` for `InvalidOperation`.
unfoldable pub parse : Unicode → Text → Option Decimal
unfolding parse_signed numeric_text
parse u t = parse_signed (numeric_text u t)
