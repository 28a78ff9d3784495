-- ===== src/Crypto/Verify.antt =====
-- `A2ACryptoService.verify_attestation` and its parts: candidate keys, one attempt, the checks on
-- verified claims, and the admission of what verified.
pub mod Accept
mod Bound
pub mod Effect
pub mod Replay
pub mod RoundTrip
pub mod Keys
use qwed_a2a.Prelude.{
  ℕ, ◌*◌, Bool, true, false, not, Option, none, some, List, [], ◌∷◌, ◌++◌, if◌then◌else◌, is_some,
  ◌==◌,
}
use qwed_a2a.Prelude.Text.{Text, text-Eq}
use qwed_a2a.Dict.{Dict, lookup, insert}
use qwed_a2a.Schema.{VerdictStatus, status_of_value, admissible}
use qwed_a2a.Trust.Bucket.{ticks_per_second}
use qwed_a2a.Crypto.Jti.{check_and_register}
use qwed_a2a.Crypto.Service.{
  Jwt, KeyPair, CryptoService, QwedClaims, Decoded, complete, malformed, expired, invalid,
}

-- A registered peer as `_load_trusted_issuers` returns it: its id, its deployment and its keys, each
-- with the key id registered for it.
pub record Issuer (j : Jwt) : Type 0 where
  pub issuer_id : Text
  pub deployment_id : Text
  pub keys : List (j.PublicKey × Option Text)

pub record Candidate (j : Jwt) : Type 0 where
  pub owner : Text
  pub key : j.PublicKey
  pub deployment_id : Text
  pub kid : Option Text

-- The values of the context that a token is held to. `payload_hash` is the hash of its payload.
pub record AttestationContext : Type 0 where
  pub sender_agent_id : Text
  pub receiver_agent_id : Text
  pub payload_hash : Text
  pub session_id : Option Text

pub data VerifyError : Type 0 where
  no_keys expired_token kid_mismatch no_trusted_key : VerifyError
  invalid_claims deployment_mismatch sender_mismatch receiver_mismatch : VerifyError
  payload_mismatch session_mismatch missing_jti replay : VerifyError

pub data Verified : Type 0 where
  accepted : QwedClaims → Verified
  rejected : VerifyError → Verified

module _ (j : Jwt) (fingerprint : j.PublicKey → Text) where
  -- The keys of one issuer, behind the candidates found before it. A key that is registered under
  -- another identity is skipped.
  unfoldable pub add_keys :
      Issuer j
      → List (j.PublicKey × Option Text)
      → Dict Text Text
      → List (Candidate j) × Dict Text Text
  add_keys issuer [] seen = ([], seen)
  add_keys issuer ((key, kid) ∷ keys) seen =
      let candidate : Candidate j = record {
        owner = issuer.issuer_id;
        key = key;
        deployment_id = issuer.deployment_id;
        kid = kid;
      } in
      elim (lookup (fingerprint key) seen) [
        | none ↦
            let (rest, seen') =
              add_keys issuer keys (insert (fingerprint key) issuer.issuer_id seen) in
            (candidate ∷ rest, seen')
        | some owner ↦
            let (rest, seen') = add_keys issuer keys seen in
            (if owner == issuer.issuer_id then candidate ∷ rest else rest, seen')
      ]

  unfoldable pub add_issuers : List (Issuer j) → Dict Text Text → List (Candidate j)
  add_issuers [] seen = []
  add_issuers (issuer ∷ issuers) seen =
      let (own, seen') = add_keys issuer issuer.keys seen in own ++ add_issuers issuers seen'

  -- `_candidate_keys`: the local key first, when there is one.
  unfoldable pub local_first :
      Option (KeyPair j) → CryptoService j → List (Issuer j) → List (Candidate j)
  local_first none s issuers = add_issuers issuers []
  local_first (some keys) s issuers =
      let candidate : Candidate j = record {
        owner = s.issuer_id;
        key = keys.public_key;
        deployment_id = s.deployment_id;
        kid = some keys.key_id;
      } in
      candidate ∷ add_issuers issuers (insert (fingerprint keys.public_key) s.issuer_id [])

  unfoldable pub candidate_keys : CryptoService j → List (Issuer j) → List (Candidate j)
  unfolding local_first
  candidate_keys s issuers = local_first s.key_pair s issuers

-- The envelope of a token whose signature verified: issuer, subject, identifier, expiry in seconds,
-- and the block.
pub record Envelope : Type 0 where
  pub iss : Text
  pub sub : Text
  pub jti : Text
  pub exp : ℕ
  pub block : Option QwedClaims

pub data Attempt : Type 0 where
  verified : Envelope → Attempt
  kid_differs has_expired no_match : Attempt

-- `token_kid is not None and token_kid != expected_kid`
unfoldable pub kid_conflicts : Option Text → Option Text → Bool
kid_conflicts none expected_kid = false
kid_conflicts (some kid) none = true
kid_conflicts (some kid) (some expected_kid) = not (kid == expected_kid)

unfoldable pub bind : Text → Option Text → Decoded → Attempt
bind owner expected_kid invalid = no_match
bind owner expected_kid malformed = no_match
bind owner expected_kid expired = has_expired
bind owner expected_kid (complete iss sub jti exp block kid) =
    if not (iss == owner)
    then no_match
    else if kid_conflicts kid expected_kid
    then kid_differs
    else verified (record { iss = iss; sub = sub; jti = jti; exp = exp; block = block })

unfoldable pub attempt_candidate : (j : Jwt) → ℕ → Text → Candidate j → Attempt
unfolding bind
attempt_candidate j now token candidate =
    bind candidate.owner candidate.kid (j.decode now candidate.key token)

-- `_QwedA2AClaims.model_validate`: the verdict is one that `VerdictStatus` reads.
unfoldable pub valid_block : Option QwedClaims → Option QwedClaims
valid_block none = none
valid_block (some claims) = if is_some (status_of_value claims.verdict) then some claims else none

-- `context.session_id is not None and claims.session_id != context.session_id`
unfoldable pub session_differs : Option Text → Option Text → Bool
session_differs none session_id = false
session_differs (some expected) none = true
session_differs (some expected) (some session_id) = not (session_id == expected)

abbrev pub is_empty : Text → Bool
is_empty [] = true
is_empty (c ∷ cs) = false

-- `f"{iss}\0{jti}" if iss != self.issuer_id else jti`
unfoldable pub registry_key : Text → Text → Text → Text
registry_key issuer_id iss jti = if iss == issuer_id then jti else iss ++ (0 ∷ jti)

unfoldable pub check_block :
    (j : Jwt)
    → CryptoService j
    → ℕ
    → Text
    → AttestationContext
    → Envelope
    → Option QwedClaims
    → CryptoService j × Verified
check_block j s now deployment_id context e none = (s, rejected invalid_claims)
check_block j s now deployment_id context e (some claims) =
    if not (claims.deployment_id == deployment_id)
    then (s, rejected deployment_mismatch)
    else if not (claims.sender == context.sender_agent_id)
    then (s, rejected sender_mismatch)
    else if not (claims.receiver == context.receiver_agent_id)
    then (s, rejected receiver_mismatch)
    else if not (e.sub == context.payload_hash)
    then (s, rejected payload_mismatch)
    else if session_differs context.session_id claims.session_id
    then (s, rejected session_mismatch)
    else if is_empty e.jti
    then (s, rejected missing_jti)
    else let (registry, fresh) =
        check_and_register (registry_key s.issuer_id e.iss e.jti) now
          (some (e.exp * ticks_per_second)) s.jti_registry in
      (record s { jti_registry = registry }, if fresh then accepted claims else rejected replay)

unfoldable pub check_verified_claims :
    (j : Jwt)
    → CryptoService j
    → ℕ
    → Text
    → AttestationContext
    → Envelope
    → CryptoService j × Verified
check_verified_claims j s now deployment_id context e =
    check_block j s now deployment_id context e (valid_block e.block)

-- The loop over the candidates, with what was seen so far.
unfoldable pub try_candidates :
    (j : Jwt)
    → CryptoService j
    → ℕ
    → Text
    → AttestationContext
    → List (Candidate j)
    → Bool
    → Bool
    → CryptoService j × Verified
try_candidates j s now token context [] expired_seen mismatch_seen = (
  s,
  rejected (
      if expired_seen
      then expired_token
      else if mismatch_seen
      then kid_mismatch
      else no_trusted_key),
)
try_candidates j s now token context (c ∷ cs) expired_seen mismatch_seen =
    elim (attempt_candidate j now token c) [
      | verified e ↦ check_verified_claims j s now c.deployment_id context e
      | kid_differs ↦ try_candidates j s now token context cs expired_seen true
      | has_expired ↦ try_candidates j s now token context cs true mismatch_seen
      | no_match ↦ try_candidates j s now token context cs expired_seen mismatch_seen
    ]

-- `if not candidates`
unfoldable pub try_all :
    (j : Jwt)
    → CryptoService j
    → ℕ
    → Text
    → AttestationContext
    → List (Candidate j)
    → CryptoService j × Verified
try_all j s now token context [] = (s, rejected no_keys)
try_all j s now token context (c ∷ cs) = try_candidates j s now token context (c ∷ cs) false false

unfoldable pub verify_attestation :
    (j : Jwt)
    → (j.PublicKey → Text)
    → CryptoService j
    → List (Issuer j)
    → ℕ
    → Text
    → AttestationContext
    → CryptoService j × Verified
unfolding try_all
verify_attestation j fingerprint s issuers now token context =
    try_all j s now token context (candidate_keys j fingerprint s issuers)

abbrev admits : Option VerdictStatus → Bool
admits none = false
admits (some status) = admissible status

-- `is_admissible`, on the claims of a successful verification.
unfoldable pub is_admissible : QwedClaims → Bool
is_admissible claims = admits (status_of_value claims.verdict)
