-- ===== src/Crypto/Verify/RoundTrip.antt =====
-- A service verifies what it signs.
use mathlib.Core.Option.{some-injective}
use qwed_a2a.Prelude.{
  ℕ, ◌*◌, ◌/◌, ◌<◌, ◌≤◌, ◌≡◌, ◌≢◌, refl, sym, ◌∙◌, ap, subst, true, false, Option, none, some, List,
  [], ◌∷◌, ◌==◌, ==_iff,
}
use qwed_a2a.Prelude.Text.{Text, text-Eq}
use qwed_a2a.Dict.{Unique, lookup, insert}
use qwed_a2a.Schema.{VerdictStatus, status_of_value, admissible, status_of_value-status_value}
use qwed_a2a.Trust.Bucket.{ticks_per_second}
use qwed_a2a.Crypto.Jti.{check_and_register}
use qwed_a2a.Crypto.Jti.Replay.{check_iff}
use qwed_a2a.Crypto.Service.{Jwt, KeyPair, CryptoService, Claims, complete}
use qwed_a2a.Crypto.Sign.{SignRequest, ok, claims_of, expiry, sign_verdict}
use qwed_a2a.Crypto.Sign.Once.{sign_verdict-changes, sign_verdict-ok, Issued}
use qwed_a2a.Crypto.Verify.{
  Issuer, Candidate, AttestationContext, Verified, accepted, candidate_keys, local_first,
  add_issuers, Envelope, Attempt, bind, kid_conflicts, attempt_candidate, valid_block,
  session_differs, is_empty, registry_key, check_block, check_verified_claims, try_candidates,
  try_all, verify_attestation, is_admissible,
}

-- The context in which a signed verdict is to be verified.
abbrev pub context_of : SignRequest → AttestationContext
context_of q = record {
  sender_agent_id = q.sender_id;
  receiver_agent_id = q.receiver_id;
  payload_hash = q.payload_hash;
  session_id = q.session_id;
}

-- What the service relies on of PyJWT: under the public key of a pair, a token encoded with its
-- private key and key id decodes to the claims that were encoded, from the second of its issue, since
-- PyJWT refuses a token whose `iat` lies ahead of the clock, and as long as it has not expired.
abbrev pub Decodes : (j : Jwt) → KeyPair j → Type 0
Decodes j keys =
    (claims : Claims) (token : Text) (now : ℕ)
    → j.encode keys.key_id keys.private_key claims ≡ some token
    → claims.iat * ticks_per_second ≤ now
    → now < claims.exp * ticks_per_second
    → j.decode now keys.public_key token
      ≡ complete claims.iss claims.sub claims.jti claims.exp (some claims.qwed_a2a)
          (some keys.key_id)

same_text : (t : Text) → (t == t) ≡ true
same_text t = (==_iff t t).1 refl

session_matches : (o : Option Text) → session_differs o o ≡ false
unfolding session_differs
session_matches none = refl
session_matches (some t) = rw (same_text t) refl

not_empty : (t : Text) → t ≢ [] → is_empty t ≡ false
not_empty [] h = absurd (h refl)
not_empty (c ∷ cs) h = refl

-- The start of the second that the clock reads at `wall`, which is the `iat` of what is signed then.
abbrev pub issued_at : ℕ → ℕ
issued_at wall = wall / ticks_per_second * ticks_per_second

-- The candidate of a service's key pair.
abbrev pub own_candidate : (j : Jwt) → CryptoService j → KeyPair j → Candidate j
own_candidate j s keys = record {
  owner = s.issuer_id;
  key = keys.public_key;
  deployment_id = s.deployment_id;
  kid = some keys.key_id;
}

module _ (j : Jwt) (s : CryptoService j) (q : SignRequest) (status : VerdictStatus)
    (wall now : ℕ) where
  abbrev pub claims : Claims
  claims = claims_of j s q status (wall / ticks_per_second)

  abbrev pub own_envelope : Envelope
  own_envelope = record {
    iss = claims.iss;
    sub = claims.sub;
    jti = claims.jti;
    exp = claims.exp;
    block = some claims.qwed_a2a;
  }

  valid_own : valid_block (some claims.qwed_a2a) ≡ some claims.qwed_a2a
  unfolding valid_block claims_of
  valid_own = rw (status_of_value-status_value status) refl

  -- What the checks say of the envelope, in a service that has not registered it.
  pub check_signed :
      (b : CryptoService j)
      → q.trace_id ≢ []
      → (check_and_register
          (registry_key b.issuer_id s.issuer_id q.trace_id)
          now
          (some (claims.exp * ticks_per_second))
          b.jti_registry).1
        ≡ true
      → (check_verified_claims j b now s.deployment_id (context_of q) own_envelope).1
        ≡ accepted claims.qwed_a2a
  unfolding check_verified_claims check_block claims_of
  check_signed b named fresh =
      rw
        (
          valid_own,
          same_text s.deployment_id,
          same_text q.sender_id,
          same_text q.receiver_id,
          same_text q.payload_hash,
          session_matches q.session_id,
          not_empty q.trace_id named,
          fresh,
        )
        refl

  own_registry_key : registry_key s.issuer_id s.issuer_id q.trace_id ≡ q.trace_id
  unfolding registry_key
  own_registry_key = rw (same_text s.issuer_id) refl

  -- The own key comes first among the candidates.
  own_first :
      (fingerprint : j.PublicKey → Text) (issuers : List (Issuer j)) (keys : KeyPair j)
      (o : Option (KeyPair j))
      → o ≡ some keys
      → (rest : List (Candidate j)) × (local_first j fingerprint o s issuers
          ≡ own_candidate j s keys ∷ rest)
  unfolding local_first
  own_first fingerprint issuers keys none h = absurd (cc)
  own_first fingerprint issuers keys (some k) h = (
    _,
    ap
        (λ k.
          own_candidate j s k
          ∷ add_issuers j fingerprint issuers (insert (fingerprint k.public_key) s.issuer_id []))
        (some-injective k keys h),
  )

  pub attempt_own :
      (keys : KeyPair j) (token : Text)
      → j.decode now keys.public_key token
        ≡ complete claims.iss claims.sub claims.jti claims.exp
            (some claims.qwed_a2a)
            (some keys.key_id)
      → attempt_candidate j now token (own_candidate j s keys) ≡ Attempt.verified own_envelope
  unfolding attempt_candidate bind kid_conflicts claims_of
  attempt_own keys token decoded = rw (decoded, same_text s.issuer_id, same_text keys.key_id) refl

  pub try_own :
      (token : Text) (context : AttestationContext) (candidates rest : List (Candidate j))
      (c : Candidate j) (e : Envelope)
      → candidates ≡ c ∷ rest
      → attempt_candidate j now token c ≡ Attempt.verified e
      → try_all j s now token context candidates
        ≡ check_verified_claims j s now c.deployment_id context e
  unfolding try_all try_candidates
  try_own token context candidates rest c e is first = rw (is, try_candidates, first) refl

  verify_own :
      (fingerprint : j.PublicKey → Text) (issuers : List (Issuer j)) (keys : KeyPair j)
      (token : Text)
      → s.key_pair ≡ some keys
      → j.decode now keys.public_key token
        ≡ complete claims.iss claims.sub claims.jti claims.exp
            (some claims.qwed_a2a)
            (some keys.key_id)
      → q.trace_id ≢ []
      → (check_and_register q.trace_id now (some (claims.exp * ticks_per_second)) s.jti_registry).1
        ≡ true
      → (verify_attestation j fingerprint s issuers now token (context_of q)).1
        ≡ accepted claims.qwed_a2a
  unfolding verify_attestation candidate_keys
  verify_own fingerprint issuers keys token has decoded named fresh =
      let (rest, is) = own_first fingerprint issuers keys s.key_pair has in
      ap (λ r. r.1)
        (try_own token (context_of q) (candidate_keys j fingerprint s issuers) rest
          (own_candidate j s keys) own_envelope is (attempt_own keys token decoded))
      ∙ check_signed s named (rw own_registry_key fresh)

  pub verdict_read : is_admissible claims.qwed_a2a ≡ admissible status
  unfolding is_admissible claims_of
  verdict_read = rw (status_of_value-status_value status) refl

-- What verifying a token returned by `sign_verdict` gives: the block that was signed.
abbrev pub Verifies : (j : Jwt) → CryptoService j → SignRequest → ℕ → Verified → Type 0
Verifies j s q wall result =
    (status : VerdictStatus) × (status_of_value q.verdict_status ≡ some status)
    × (result ≡ accepted (claims_of j s q status (wall / ticks_per_second)).qwed_a2a)
    × (is_admissible (claims_of j s q status (wall / ticks_per_second)).qwed_a2a
        ≡ admissible status)

-- The encoding of an issued token, under the key pair that the service has.
pub encoded_under_keys :
    (j : Jwt) (s : CryptoService j) (q : SignRequest) (wall wall_registry : ℕ) (keys : KeyPair j)
    (token : Text)
    → s.key_pair ≡ some keys
    → (issued : Issued j s q wall wall_registry token)
    → j.encode keys.key_id keys.private_key
        (claims_of j s q issued.status (wall / ticks_per_second))
      ≡ some token
encoded_under_keys j s q wall wall_registry keys token has issued =
    subst
      (λ (k : KeyPair j).
        j.encode k.key_id k.private_key (claims_of j s q issued.status (wall / ticks_per_second))
        ≡ some token)
      (some-injective issued.keys keys (sym issued.has_keys ∙ has)) issued.encoded

-- If sign_verdict returns a token, the trace id is not empty, and tokens of the key pair decode to
-- what was encoded between their issue and their expiry, then the same service, asked from the
-- second on in which it was signed and before the token expires and with no live entry of the trace
-- in its registry, accepts the token in the context it was signed for, whatever peers are
-- configured, and the claims are those that were signed and are admissible exactly if the verdict
-- asked for is.
pub verify_attestation-sign_verdict :
    (j : Jwt) (fingerprint : j.PublicKey → Text) (s : CryptoService j) (issuers : List (Issuer j))
    (q : SignRequest) (wall wall_registry now : ℕ) (keys : KeyPair j) (token : Text)
    → Decodes j keys
    → s.key_pair ≡ some keys
    → (sign_verdict j s q wall wall_registry).1 ≡ ok token
    → q.trace_id ≢ []
    → issued_at wall ≤ now
    → now < expiry j s wall
    → Unique s.jti_registry.seen
    → ((held : ℕ) → lookup q.trace_id s.jti_registry.seen ≡ some held → held ≤ now)
    → Verifies j s q wall
        (verify_attestation j fingerprint
          (sign_verdict j s q wall wall_registry).0
          issuers
          now
          token
          (context_of q)).1
unfolding claims_of
verify_attestation-sign_verdict j fingerprint s issuers q wall wall_registry now keys token decodes
      has signed named begun soon u free =
    let issued = sign_verdict-ok j s q wall wall_registry token signed in
    let block = claims j s q issued.status wall now in
    let encoded = encoded_under_keys j s q wall wall_registry keys token has issued in
    let (r, changed) = sign_verdict-changes j s q wall wall_registry in
    let fresh =
      (check_iff q.trace_id now (some (block.exp * ticks_per_second)) s.jti_registry u).1 free in
    (
      issued.status,
      issued.is_status,
      subst
          (λ (x : CryptoService j).
            (verify_attestation j fingerprint x issuers now token (context_of q)).1
            ≡ accepted block.qwed_a2a)
          (sym changed)
          (verify_own j (record s { issued_registry = r }) q issued.status wall now fingerprint
            issuers keys token has (decodes block token now encoded begun soon) named fresh),
      verdict_read j s q issued.status wall now,
    )
