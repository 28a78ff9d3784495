-- ===== src/Crypto/Jwk.antt =====
-- `get_public_key_jwk`: the key that a service publishes, and that its peers read.
use native.Mathlib.Nat.{pow-suc, mul_assoc}
use qwed_a2a.Prelude.{
  ℕ, zero, suc, ◌+◌, ◌*◌, ◌/◌, ◌%◌, ◌^◌, ◌<◌, ◌≡◌, refl, sym, ap, ◌∙◌, Bool, true, Option, none,
  some, List, [], ◌∷◌, arith, ltb, if◌then◌else◌, length,
}
use qwed_a2a.Prelude.Text.{Text, lit, text-Eq, text_eq}
use qwed_a2a.Interceptor.Message.{Value, string, object, Fields, no_fields, field, get}
use qwed_a2a.Crypto.Service.{Jwt, KeyPair}
use qwed_a2a.Crypto.Base64.{from_bytes, b64url_uint}
use qwed_a2a.Crypto.Base64.Encoded.{encode, AllBytes, b64url_uint-encode}
use qwed_a2a.Crypto.Issuers.{is_text, jwk_to_public_pem}
use qwed_a2a.Crypto.KeyPair.{Keys, KeyError, KeyStore, KeyResult, ready, failing, ensure_key_pair}

-- The `k` lowest bytes of a number in front of `bs`, the highest first.
unfoldable pub big_endian : ℕ → ℕ → List ℕ → List ℕ
big_endian zero n bs = bs
big_endian (suc k) n bs = big_endian k (n / 256) (n % 256 ∷ bs)

-- `n.to_bytes(k, byteorder="big")`, with `none` for the `OverflowError`.
unfoldable pub to_bytes : ℕ → ℕ → Option (List ℕ)
unfolding big_endian
to_bytes k n = if ltb n (256 ^ k) then some (big_endian k n []) else none

-- A JWK, the `RuntimeError` of a missing key, or the `OverflowError` of a coordinate.
pub data Published : Type 0 where
  published : Value → Published
  no_key : KeyError → Published
  too_large : Published

-- `base64.urlsafe_b64encode(x).rstrip(b"=")` is `encode`.
unfoldable pub jwk_fields : List ℕ → List ℕ → Text → Fields
unfolding lit
jwk_fields x y key_id = field (lit "kty") (string (lit "EC")) (
    field (lit "crv") (string (lit "P-256")) (
      field (lit "x") (string (encode x)) (
        field (lit "y") (string (encode y)) (
          field (lit "kid") (string key_id) (
            field (lit "use") (string (lit "sig"))
              (field (lit "alg") (string (lit "ES256")) no_fields))))))

unfoldable pub jwk_of_bytes : Option (List ℕ) → Option (List ℕ) → Text → Published
unfolding jwk_fields
jwk_of_bytes (some x) (some y) key_id = published (object (jwk_fields x y key_id))
jwk_of_bytes none y key_id = too_large
jwk_of_bytes (some x) none key_id = too_large

module _ (j : Jwt) (lib : Keys j) where
  unfoldable pub jwk_of : KeyPair j → Published
  unfolding jwk_of_bytes
  jwk_of keys =
      let (x, y) = lib.coordinates keys.public_key in
      jwk_of_bytes (to_bytes 32 x) (to_bytes 32 y) keys.key_id

  unfoldable pub jwk_of_result : KeyResult j → Published
  unfolding jwk_of
  jwk_of_result (ready keys) = jwk_of keys
  jwk_of_result (failing e) = no_key e

  -- `get_public_key_jwk`
  unfoldable pub get_public_key_jwk : Bool → Text → KeyStore j → KeyStore j × Published
  unfolding jwk_of_result
  get_public_key_jwk has_crypto env s =
      let (s', result) = ensure_key_pair j lib has_crypto env s in (s', jwk_of_result result)

to_bytes_fits : (k n : ℕ) → n < 256 ^ k → to_bytes k n ≡ some (big_endian k n [])
unfolding to_bytes
to_bytes_fits k n h = ground arith

from_bytes-big_endian :
    (k n m : ℕ) (bs : List ℕ)
    → n < 256 ^ k
    → from_bytes m (big_endian k n bs) ≡ from_bytes (m * 256 ^ k + n) bs
unfolding big_endian from_bytes
from_bytes-big_endian zero n m bs h =
    let same : m ≡ m * 256 ^ 0 + n = omega arith in ap (λ x. from_bytes x bs) same
from_bytes-big_endian (suc k) n m bs h =
    let top : 256 ^ suc k ≡ 256 ^ k * 256 = pow-suc 256 k in
    let shifted : m * 256 ^ suc k ≡ m * 256 ^ k * 256 = rw top (sym (mul_assoc m (256 ^ k) 256)) in
    let same : (m * 256 ^ k + n / 256) * 256 + n % 256 ≡ m * 256 ^ suc k + n =
      omega (arith, shifted) in
    from_bytes-big_endian k (n / 256) m (n % 256 ∷ bs) (omega (arith, top))
    ∙ ap (λ x. from_bytes x bs) same

AllBytes-big_endian : (k n : ℕ) (bs : List ℕ) → AllBytes bs → AllBytes (big_endian k n bs)
unfolding big_endian
AllBytes-big_endian zero n bs h = h
AllBytes-big_endian (suc k) n bs h = AllBytes-big_endian k (n / 256) (n % 256 ∷ bs) (omega arith, h)

-- Reading back bytes that were encoded, at least one.
b64url_uint-encode_cons :
    (bs : List ℕ) → AllBytes bs → 0 < length bs → b64url_uint (encode bs) ≡ some (from_bytes 0 bs)
b64url_uint-encode_cons [] bytes h = absurd (omega arith)
b64url_uint-encode_cons (b ∷ bs) bytes h = b64url_uint-encode b bs bytes

length-big_endian : (k n : ℕ) (bs : List ℕ) → length (big_endian k n bs) ≡ k + length bs
unfolding big_endian
length-big_endian zero n bs = omega arith
length-big_endian (suc k) n bs = omega (arith, length-big_endian k (n / 256) (n % 256 ∷ bs))

-- A coordinate that fits into 32 bytes reads back.
coordinate_round_trip : (n : ℕ) → n < 256 ^ 32 → b64url_uint (encode (big_endian 32 n [])) ≡ some n
coordinate_round_trip n h =
    let bs = big_endian 32 n [] in
    let value : from_bytes 0 bs ≡ from_bytes (0 * 256 ^ 32 + n) [] =
      from_bytes-big_endian 32 n 0 [] h in
    let whole : from_bytes (0 * 256 ^ 32 + n) [] ≡ n = unfold from_bytes in omega arith in
    b64url_uint-encode_cons bs (AllBytes-big_endian 32 n [] tt)
      (omega (arith, length-big_endian 32 n []))
    ∙ ap some (value ∙ whole)

-- The two coordinates, read from the fields of a published JWK.
jwk_fields_read :
    (x y : List ℕ) (key_id : Text)
    → let jwk = jwk_fields x y key_id in
      (is_text (lit "EC") (get (lit "kty") jwk) ≡ true)
      × (is_text (lit "P-256") (get (lit "crv") jwk) ≡ true)
      × (get (lit "x") jwk ≡ some (string (encode x)))
      × (get (lit "y") jwk ≡ some (string (encode y)))
      × (get (lit "kid") jwk ≡ some (string key_id))
unfolding jwk_fields get lit text_eq is_text
jwk_fields_read x y key_id = (refl, refl, refl, refl, refl)

module _ (j : Jwt) (lib : Keys j) (keys : KeyPair j) where
  -- The coordinates of a key are those of a point of P-256, and the point gives the key back.
  pub record IsP256 : Type 0 where
    pub x_fits : (lib.coordinates keys.public_key).0 < 256 ^ 32
    pub y_fits : (lib.coordinates keys.public_key).1 < 256 ^ 32
    pub is_point :
        (let (x, y) = lib.coordinates keys.public_key in lib.public_key x y) ≡ some keys.public_key

  -- What a published JWK says, to those who read it.
  pub record Publishes (jwk : Fields) : Type 0 where
    pub is_published : jwk_of j lib keys ≡ published (object jwk)
    pub reads_key : jwk_to_public_pem j lib.public_key (object jwk) ≡ some keys.public_key
    pub reads_kid : get (lit "kid") jwk ≡ some (string keys.key_id)

  pub jwk_of-Publishes :
      IsP256
      → Publishes (
          jwk_fields
            (big_endian 32 (lib.coordinates keys.public_key).0 [])
            (big_endian 32 (lib.coordinates keys.public_key).1 [])
            keys.key_id)
  unfolding jwk_of jwk_of_bytes jwk_to_public_pem
  jwk_of-Publishes h =
      let (x, y) = lib.coordinates keys.public_key in
      let (kty, crv, at_x, at_y, at_kid) =
        jwk_fields_read (big_endian 32 x []) (big_endian 32 y []) keys.key_id in
      record {
        is_published = rw (to_bytes_fits 32 x h.x_fits, to_bytes_fits 32 y h.y_fits) refl;
        reads_key =
            rw
              (
                kty,
                crv,
                at_x,
                at_y,
                coordinate_round_trip x h.x_fits,
                coordinate_round_trip y h.y_fits,
              )
              h.is_point;
        reads_kid = at_kid;
      }
