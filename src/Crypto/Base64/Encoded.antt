-- ===== src/Crypto/Base64/Encoded.antt =====
-- Decoding against base64url encoding without padding, as RFC 4648 describes it.
use qwed_a2a.Prelude.{
  ℕ, ◌+◌, ◌-◌, ◌*◌, ◌/◌, ◌%◌, ◌<◌, ◌≡◌, inl, inr, refl, ap, true, false, some, List, [], ◌∷◌, ◌++◌,
  arith, ltb, if◌then◌else◌, ◌==◌, nat-Eq, length, length-append, map, All, Bool-cases,
}
use qwed_a2a.Prelude.Text.{Text}
use qwed_a2a.Interceptor.Claim.{all}
use qwed_a2a.Crypto.Base64.{
  find_char, find_all, trim, strip_padding, decode_values, b64_decode_strict, is_b64url,
  to_standard, padding, from_bytes, is_empty, b64url_uint,
}

-- Three bytes are four values of six bits.
abbrev encode_values : List ℕ → List ℕ
encode_values [] = []
encode_values (a ∷ []) = a / 4 ∷ (a % 4 * 16 ∷ [])
encode_values (a ∷ (b ∷ [])) = a / 4 ∷ ((a % 4 * 16 + b / 16) ∷ (b % 16 * 4 ∷ []))
encode_values (a ∷ (b ∷ (c ∷ bs))) =
    a / 4 ∷ ((a % 4 * 16 + b / 16) ∷ ((b % 16 * 4 + c / 64) ∷ (c % 64 ∷ encode_values bs)))

abbrev url_char : ℕ → ℕ
url_char v =
    if ltb v 26
    then v + 65
    else if ltb v 52
    then v + 71
    else if ltb v 62
    then v - 4
    else if v == 62
    then 45
    else 95

-- The text of bytes.
abbrev pub encode : List ℕ → Text
encode bs = map url_char (encode_values bs)

abbrev pub AllBytes : List ℕ → Type 0
AllBytes bs = All (λ b. b < 256) bs

decode-encode_values : (bs : List ℕ) → AllBytes bs → decode_values (encode_values bs) ≡ some bs
unfolding decode_values
decode-encode_values [] bytes = refl
decode-encode_values (a ∷ []) (p, bytes) =
    let first : (a / 4 * 262144 + a % 4 * 16 * 4096) / 65536 % 256 ≡ a = omega arith in
    ap (λ x. some (x ∷ [])) first
decode-encode_values (a ∷ (b ∷ [])) (p, (q, bytes)) =
    let n = a / 4 * 262144 + (a % 4 * 16 + b / 16) * 4096 + b % 16 * 4 * 64 in
    let first : n / 65536 % 256 ≡ a = omega arith in
    let second : n / 256 % 256 ≡ b = omega arith in rw (first, second) refl
decode-encode_values (a ∷ (b ∷ (c ∷ bs))) (p, (q, (r, bytes))) =
    let n = a / 4 * 262144 + (a % 4 * 16 + b / 16) * 4096 + (b % 16 * 4 + c / 64) * 64 + c % 64 in
    let first : n / 65536 % 256 ≡ a = omega arith in
    let second : n / 256 % 256 ≡ b = omega arith in
    let third : n % 256 ≡ c = omega arith in
    rw (first, second, third, decode-encode_values bs bytes) refl

find_char-url_char : (v : ℕ) → v < 64 → find_char (to_standard (url_char v)) ≡ some v
unfolding find_char to_standard
find_char-url_char v small = ground arith

is_b64url-url_char : (v : ℕ) → v < 64 → is_b64url (url_char v) ≡ true
unfolding is_b64url
is_b64url-url_char v small = ground arith

not_padding : (v : ℕ) → v < 64 → (to_standard (url_char v) == 61) ≡ false
unfolding to_standard
not_padding v small = ground arith

-- Values of six bits.
abbrev AllSix : List ℕ → Type 0
AllSix vs = All (λ v. v < 64) vs

AllSix-encode_values : (bs : List ℕ) → AllBytes bs → AllSix (encode_values bs)
AllSix-encode_values [] bytes = tt
AllSix-encode_values (a ∷ []) (p, bytes) = (omega arith, (omega arith, tt))
AllSix-encode_values (a ∷ (b ∷ [])) (p, (q, bytes)) =
    (omega arith, (omega arith, (omega arith, tt)))
AllSix-encode_values (a ∷ (b ∷ (c ∷ bs))) (p, (q, (r, bytes))) =
    (omega arith, (omega arith, (omega arith, (omega arith, AllSix-encode_values bs bytes))))

-- The text of values in the standard alphabet.
abbrev standard_text : List ℕ → Text
standard_text vs = map to_standard (map url_char vs)

find_all-standard_text : (vs : List ℕ) → AllSix vs → find_all (standard_text vs) ≡ some vs
unfolding find_all
find_all-standard_text [] six = refl
find_all-standard_text (v ∷ vs) (small, six) =
    rw (find_char-url_char v small, find_all-standard_text vs six) refl

all-is_b64url : (vs : List ℕ) → AllSix vs → all is_b64url (map url_char vs) ≡ true
unfolding all
all-is_b64url [] six = refl
all-is_b64url (v ∷ vs) (small, six) = rw (is_b64url-url_char v small, all-is_b64url vs six) refl

strip_padding-padding : (n : ℕ) → strip_padding (padding n) ≡ []
unfolding strip_padding padding
strip_padding-padding n = elim (Bool-cases (n % 4 == 1)) [
  | inl one ↦ rw one refl
  | inr other ↦ elim (Bool-cases (n % 4 == 2)) [
    | inl two ↦ rw (other, two) refl
    | inr other' ↦ elim (Bool-cases (n % 4 == 3)) [
      | inl three ↦ rw (other, other', three) refl
      | inr none' ↦ rw (other, other', none') refl
    ]
  ]
]

trim_idle : (c : ℕ) (cs : Text) → (c == 61) ≡ false → trim c cs ≡ c ∷ cs
trim_idle c [] h = rw h refl
trim_idle c (d ∷ ds) h = refl

strip_padding-standard_text :
    (vs : List ℕ) (n : ℕ)
    → AllSix vs
    → strip_padding (standard_text vs ++ padding n) ≡ standard_text vs
unfolding strip_padding
strip_padding-standard_text [] n six = strip_padding-padding n
strip_padding-standard_text (v ∷ vs) n (small, six) =
    rw (strip_padding-standard_text vs n six)
      (trim_idle (to_standard (url_char v)) (standard_text vs) (not_padding v small))

length-map : (f : ℕ → ℕ) (t : Text) → length (map f t) ≡ length t
length-map f [] = refl
length-map f (c ∷ cs) = omega (arith, length-map f cs)

length-padding : (n : ℕ) → (n + length (padding n)) % 4 ≡ 0
unfolding padding
length-padding n = ground arith

b64_decode_strict-encode :
    (bs : List ℕ)
    → AllBytes bs
    → b64_decode_strict
        (map to_standard (encode bs) ++ padding (length (map to_standard (encode bs))))
      ≡ some bs
unfolding b64_decode_strict
b64_decode_strict-encode bs bytes =
    let text = standard_text (encode_values bs) in
    let six = AllSix-encode_values bs bytes in
    let whole : (length (text ++ padding (length text)) % 4 == 0) ≡ true =
      ground (arith, length-append text (padding (length text)), length-padding (length text)) in
    rw
      (
        whole,
        strip_padding-standard_text (encode_values bs) (length text) six,
        find_all-standard_text (encode_values bs) six,
      )
      (decode-encode_values bs bytes)

encode_is_not_empty : (b : ℕ) (bs : List ℕ) → is_empty (encode (b ∷ bs)) ≡ false
encode_is_not_empty a [] = refl
encode_is_not_empty a (b ∷ []) = refl
encode_is_not_empty a (b ∷ (c ∷ bs)) = refl

-- If bytes, at least one, are encoded as base64url without padding, as RFC 4648 describes it, then
-- _b64url_uint reads the number that the bytes stand for.
pub b64url_uint-encode :
    (b : ℕ) (bs : List ℕ)
    → AllBytes (b ∷ bs)
    → b64url_uint (encode (b ∷ bs)) ≡ some (from_bytes 0 (b ∷ bs))
unfolding b64url_uint
b64url_uint-encode b bs bytes =
    let six = AllSix-encode_values (b ∷ bs) bytes in
    rw
      (
        encode_is_not_empty b bs,
        all-is_b64url (encode_values (b ∷ bs)) six,
        b64_decode_strict-encode (b ∷ bs) bytes,
      )
      refl
