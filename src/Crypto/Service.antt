-- ===== src/Crypto/Service.antt =====
-- The state and the data of `A2ACryptoService`.
--
-- PyJWT and the key objects are parameters: `Jwt` holds what the service calls of them.
use qwed_a2a.Prelude.{ℕ, ◌*◌, Option}
use qwed_a2a.Prelude.Text.{Text}
use qwed_a2a.Crypto.Jti.{JtiRegistry, no_jtis}
use qwed_a2a.Trust.Bucket.{ticks_per_second}

-- The `qwed_a2a` block of a token. `verdict` is the wire value.
pub record QwedClaims : Type 0 where
  pub version : Text
  pub verdict : Text
  pub engine : Text
  pub sender : Text
  pub receiver : Text
  pub deployment_id : Text
  pub session_id : Option Text

-- The top-level claims, times in seconds, and the block.
pub record Claims : Type 0 where
  pub iss : Text
  pub sub : Text
  pub iat : ℕ
  pub exp : ℕ
  pub jti : Text
  pub qwed_a2a : QwedClaims

-- What comes of decoding a token with one key. A payload that is no object, or whose top-level
-- claims do not have the types of `_AttestationEnvelope`, is `malformed`; a block that does not fit
-- `_QwedA2AClaims` is the `none` of `complete`, which also has the header's key id.
pub data Decoded : Type 0 where
  complete : (iss sub jti : Text) (exp : ℕ) → Option QwedClaims → Option Text → Decoded
  malformed expired invalid : Decoded

-- `jwt.encode` under a private key and a key id, with `none` for an exception, and
-- `jwt.decode_complete` followed by the typed reading of the claims, at a time of the clock.
pub record Jwt : Type 1 where
  pub PrivateKey : Type 0
  pub PublicKey : Type 0
  pub encode : Text → PrivateKey → Claims → Option Text
  pub decode : ℕ → PublicKey → Text → Decoded

pub record KeyPair (j : Jwt) : Type 0 where
  pub key_id : Text
  pub private_key : j.PrivateKey
  pub public_key : j.PublicKey

-- `key_pair` is what `_ensure_key_pair` returns, with `none` for its `RuntimeError`; the deployment
-- id is the module's constant.
pub record CryptoService (j : Jwt) : Type 0 where
  pub issuer_id : Text
  pub validity_seconds : ℕ
  pub deployment_id : Text
  pub key_pair : Option (KeyPair j)
  pub issued_registry : JtiRegistry
  pub jti_registry : JtiRegistry

-- A service with the default registries, whose retention time is the validity.
abbrev pub new_service : (j : Jwt) → Text → ℕ → Text → Option (KeyPair j) → CryptoService j
new_service j issuer_id validity_seconds deployment_id key_pair = record {
  issuer_id = issuer_id;
  validity_seconds = validity_seconds;
  deployment_id = deployment_id;
  key_pair = key_pair;
  issued_registry = no_jtis (validity_seconds * ticks_per_second);
  jti_registry = no_jtis (validity_seconds * ticks_per_second);
}
