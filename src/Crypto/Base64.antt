-- ===== src/Crypto/Base64.antt =====
-- `_b64_decode_strict` and `_b64url_uint`: base64 without repair. Bytes are numbers below 256, and a `ValueError` is `none`.
pub mod Encoded
use qwed_a2a.Prelude.{
  ℕ, zero, suc, ◌+◌, ◌-◌, ◌*◌, ◌/◌, ◌%◌, Bool, true, false, not, ◌&&◌, ◌||◌, Option, none, some,
  List, [], ◌∷◌, ◌++◌, ltb, leb, if◌then◌else◌, ◌==◌, nat-Eq, length, map,
}
use qwed_a2a.Prelude.Text.{Text}
use qwed_a2a.Interceptor.Claim.{within, all}

-- `_B64_STD_ALPHABET.find(char)`, with `none` for -1.
unfoldable pub find_char : ℕ → Option ℕ
find_char c =
    if within 65 90 c
    then some (c - 65)
    else if within 97 122 c
    then some (c - 71)
    else if within 48 57 c
    then some (c + 4)
    else if c == 43
    then some 62
    else if c == 47
    then some 63
    else none

abbrev prepend : Option ℕ → Option (List ℕ) → Option (List ℕ)
prepend none rest = none
prepend (some v) none = none
prepend (some v) (some vs) = some (v ∷ vs)

-- The values of the characters.
unfoldable pub find_all : Text → Option (List ℕ)
find_all [] = some []
find_all (c ∷ cs) = prepend (find_char c) (find_all cs)

abbrev trim : ℕ → Text → Text
trim c [] = if c == 61 then [] else c ∷ []
trim c (r ∷ rs) = c ∷ (r ∷ rs)

-- `padded.rstrip("=")`
unfoldable pub strip_padding : Text → Text
strip_padding [] = []
strip_padding (c ∷ cs) = trim c (strip_padding cs)

abbrev with_bytes : List ℕ → Option (List ℕ) → Option (List ℕ)
with_bytes bytes none = none
with_bytes bytes (some rest) = some (bytes ++ rest)

-- Four values give three bytes; a tail of two or three gives one or two, and of one an error. The
-- shifts and masks are written as products, quotients and remainders.
unfoldable pub decode_values : List ℕ → Option (List ℕ)
decode_values [] = some []
decode_values (a ∷ []) = none
decode_values (a ∷ (b ∷ [])) = let n = a * 262144 + b * 4096 in some (n / 65536 % 256 ∷ [])
decode_values (a ∷ (b ∷ (c ∷ []))) =
    let n = a * 262144 + b * 4096 + c * 64 in some (n / 65536 % 256 ∷ (n / 256 % 256 ∷ []))
decode_values (a ∷ (b ∷ (c ∷ (d ∷ vs)))) =
    let n = a * 262144 + b * 4096 + c * 64 + d in
    with_bytes (n / 65536 % 256 ∷ (n / 256 % 256 ∷ (n % 256 ∷ []))) (decode_values vs)

abbrev decode_found : Option (List ℕ) → Option (List ℕ)
decode_found none = none
decode_found (some values) = decode_values values

-- `_b64_decode_strict`
unfoldable pub b64_decode_strict : Text → Option (List ℕ)
unfolding find_all strip_padding decode_values
b64_decode_strict padded =
    if length padded % 4 == 0 then decode_found (find_all (strip_padding padded)) else none

-- A character of `_B64_ALPHABET_SET`, or the padding.
unfoldable pub is_b64url : ℕ → Bool
is_b64url c = within 65 90 c || within 97 122 c || within 48 57 c || c == 45 || c == 95 || c == 61

-- `_B64URL_TO_B64_TABLE`
unfoldable pub to_standard : ℕ → ℕ
to_standard c = if c == 45 then 43 else if c == 95 then 47 else c

-- `"=" * (-n % 4)`
unfoldable pub padding : ℕ → Text
padding n =
    if n % 4 == 1
    then 61 ∷ (61 ∷ (61 ∷ []))
    else if n % 4 == 2
    then 61 ∷ (61 ∷ [])
    else if n % 4 == 3
    then 61 ∷ []
    else []

-- `int.from_bytes(raw, "big")`
unfoldable pub from_bytes : ℕ → List ℕ → ℕ
from_bytes n [] = n
from_bytes n (b ∷ bs) = from_bytes (n * 256 + b) bs

abbrev number_of : Option (List ℕ) → Option ℕ
number_of none = none
number_of (some raw) = some (from_bytes 0 raw)

abbrev is_empty : Text → Bool
is_empty [] = true
is_empty (c ∷ cs) = false

-- `_b64url_uint`
unfoldable pub b64url_uint : Text → Option ℕ
unfolding b64_decode_strict from_bytes
b64url_uint s =
    if is_empty s || not (all is_b64url s)
    then none
    else let canonical = map to_standard s in
      number_of (b64_decode_strict (canonical ++ padding (length canonical)))
