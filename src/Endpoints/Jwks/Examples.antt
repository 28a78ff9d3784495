-- ===== src/Endpoints/Jwks/Examples.antt =====
-- Two nodes: one signs and publishes its key, the other registers the key and verifies.
use qwed_a2a.Prelude.{ℕ, ◌≡◌, refl, true, none, some, [], ◌∷◌, arith}
use qwed_a2a.Prelude.Text.{Text, lit, text_eq, text-Eq}
use qwed_a2a.Strip.{strip, strip_left, strip_right}
use qwed_a2a.Dict.{lookup, insert, drop_where}
use qwed_a2a.Interceptor.Message.{JsonLoaded, undecodable, Value}
use qwed_a2a.Schema.{verified, status_of_value, status_value}
use qwed_a2a.Crypto.Jti.{expiry_of, check_and_register}
use qwed_a2a.Crypto.Service.{KeyPair, CryptoService, new_service}
use qwed_a2a.Crypto.Sign.{
  SignRequest, ok, claims_of, encode_or_release, reserve_and_sign, sign_verdict,
}
use qwed_a2a.Crypto.KeyPair.{Keys, p256, KeyStore, ensure_loaded, ensure_key_pair}
use qwed_a2a.Crypto.Issuers.{nonempty_str, load_trusted_issuers}
use qwed_a2a.Crypto.Verify.{verify_attestation}
use qwed_a2a.Crypto.Verify.RoundTrip.{context_of, Verifies}
use qwed_a2a.Crypto.Sample.{sample_jwt, sample_keys, sample-Decodes, pack, fields}
use qwed_a2a.Interceptor.Examples.{engines}
use qwed_a2a.Endpoints.Jwks.{key_set, jwks_endpoint}
use qwed_a2a.Endpoints.Jwks.Peer.{registration, verify_attestation-jwks_endpoint}

abbrev first_of : Text → ℕ
first_of [] = 0
first_of (c ∷ cs) = c

-- A key is a text of one character, its first coordinate.
abbrev pub lib : Keys sample_jwt
lib = record {
  load_pem = λ pem. some (p256 pem);
  public_of = λ key. key;
  der = λ key. key;
  sha256 = λ bytes. bytes;
  coordinates = λ key. (first_of key, 5);
  public_key = λ x y. some (x ∷ []);
}

abbrev store : KeyStore sample_jwt
store = record { issuer_id = lit "node"; pem_key = none; key_pair = some sample_keys }

abbrev node : CryptoService sample_jwt
node = new_service sample_jwt (lit "node") 300 (lit "prod") (some sample_keys)

abbrev other_keys : KeyPair sample_jwt
other_keys = record { key_id = 1 ∷ []; private_key = 9 ∷ []; public_key = 9 ∷ [] }

abbrev pub peer : CryptoService sample_jwt
peer = new_service sample_jwt (lit "peer") 300 (lit "prod") (some other_keys)

abbrev pub fingerprint : Text → Text
fingerprint key = key

abbrev request : SignRequest
request = record {
  trace_id = lit "a2a_1";
  verdict_status = lit "verified";
  engine = lit "finance";
  sender_id = lit "a";
  receiver_id = lit "b";
  payload_hash = lit "h";
  session_id = none;
}

abbrev token : Text
token = pack (fields (7 ∷ []) (8 ∷ []) (claims_of sample_jwt node request verified 5))

abbrev pub no_json : Text → JsonLoaded
no_json text = undecodable

signed : (sign_verdict sample_jwt node request 5000000 5000000).1 ≡ ok token
unfolding sign_verdict reserve_and_sign encode_or_release claims_of check_and_register lookup insert
    drop_where lit text_eq expiry_of status_of_value status_value
signed = refl

verify_attestation-jwks_endpoint_example :
    (document : Value) × ((jwks_endpoint sample_jwt lib true (lit "") store).1 ≡ key_set document)
    × Verifies sample_jwt node request 5000000
        (verify_attestation sample_jwt fingerprint peer
          (load_trusted_issuers sample_jwt lib.public_key engines.unicode no_json
            (some (registration (lit "node") (lit "prod") document))
            (lit ""))
          6000000
          token
          (context_of request)).1
unfolding lit nonempty_str strip strip_left strip_right ensure_key_pair ensure_loaded lookup
    claims_of status_value text_eq
verify_attestation-jwks_endpoint_example =
    verify_attestation-jwks_endpoint sample_jwt lib fingerprint engines.unicode no_json node peer
      request true (lit "") (lit "") store 5000000 5000000 6000000 sample_keys token refl
      (record { x_fits = omega arith; y_fits = omega arith; is_point = refl })
      (sample-Decodes (7 ∷ []) (8 ∷ [])) refl signed (λ h. absurd (cc)) (omega arith) (omega arith)
      refl refl (refl, λ h. absurd (cc)) tt (λ held h. absurd (cc))
