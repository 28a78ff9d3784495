-- ===== src/Crypto/Sign.antt =====
-- `A2ACryptoService.sign_verdict`: issuing a token for a verdict.
pub mod Once
use qwed_a2a.Prelude.{
  ℕ, ◌+◌, ◌*◌, ◌/◌, ◌<◌, ◌≤◌, ◌≡◌, refl, ◌≢◌, Bool, true, Option, none, some, arith, if◌then◌else◌,
  Bool-cases, inl, inr, ==_iff, List, [], ◌∷◌,
}
use qwed_a2a.Prelude.Text.{Text, lit, text-Eq}
use qwed_a2a.Dict.{lookup, lookup-erase, erase-Unique, Unique}
use qwed_a2a.Schema.{VerdictStatus, status_of_value, status_value}
use qwed_a2a.Trust.Bucket.{ticks_per_second}
use qwed_a2a.Crypto.Jti.{JtiRegistry, check_and_register, release, expiry_of}
use qwed_a2a.Crypto.Jti.Replay.{check_iff, check-Unique, lookup-check, registered}
use qwed_a2a.Crypto.Service.{Jwt, KeyPair, CryptoService, Claims}

pub data SignError : Type 0 where
  unknown_verdict no_key duplicate_trace encoding_failed : SignError

pub data Signed : Type 0 where
  ok : Text → Signed
  err : SignError → Signed

-- What is signed: the arguments of `sign_verdict`.
pub record SignRequest : Type 0 where
  pub trace_id : Text
  pub verdict_status : Text
  pub engine : Text
  pub sender_id : Text
  pub receiver_id : Text
  pub payload_hash : Text
  pub session_id : Option Text

unfoldable pub claims_of : (j : Jwt) → CryptoService j → SignRequest → VerdictStatus → ℕ → Claims
claims_of j s q verdict now = record {
  iss = s.issuer_id;
  sub = q.payload_hash;
  iat = now;
  exp = now + s.validity_seconds;
  jti = q.trace_id;
  qwed_a2a = record {
    version = lit "1.0";
    verdict = status_value verdict;
    engine = q.engine;
    sender = q.sender_id;
    receiver = q.receiver_id;
    deployment_id = s.deployment_id;
    session_id = q.session_id;
  };
}

-- `wall` is the reading for the token's times, `wall_registry` the one that the registry takes.
abbrev pub expiry : (j : Jwt) → CryptoService j → ℕ → ℕ
expiry j s wall = (wall / ticks_per_second + s.validity_seconds) * ticks_per_second

-- After the reservation: encode, and roll the reservation back on an exception.
unfoldable pub encode_or_release :
    (j : Jwt) → CryptoService j → Text → Option Text → CryptoService j × Signed
encode_or_release j s trace_id none =
    (record s { issued_registry = release trace_id s.issued_registry }, err encoding_failed)
encode_or_release j s trace_id (some token) = (s, ok token)

unfoldable pub reserve_and_sign :
    (j : Jwt)
    → CryptoService j
    → SignRequest
    → VerdictStatus
    → KeyPair j
    → ℕ
    → ℕ
    → CryptoService j × Signed
reserve_and_sign j s q verdict keys wall wall_registry =
    let (registry, fresh) =
      check_and_register q.trace_id wall_registry (some (expiry j s wall)) s.issued_registry in
    let reserved : CryptoService j = record s { issued_registry = registry } in
    if fresh
    then encode_or_release j reserved q.trace_id
        (j.encode keys.key_id keys.private_key (claims_of j s q verdict (wall / ticks_per_second)))
    else (reserved, err duplicate_trace)

abbrev pub sign_with :
    (j : Jwt)
    → CryptoService j
    → SignRequest
    → Option VerdictStatus
    → Option (KeyPair j)
    → ℕ
    → ℕ
    → CryptoService j × Signed
sign_with j s q none keys wall wall_registry = (s, err unknown_verdict)
sign_with j s q (some verdict) none wall wall_registry = (s, err no_key)
sign_with j s q (some verdict) (some keys) wall wall_registry =
    reserve_and_sign j s q verdict keys wall wall_registry

unfoldable pub sign_verdict :
    (j : Jwt) → CryptoService j → SignRequest → ℕ → ℕ → CryptoService j × Signed
sign_verdict j s q wall wall_registry =
    sign_with j s q (status_of_value q.verdict_status) s.key_pair wall wall_registry
