-- ===== src/Endpoints/Jwks/Peer.antt =====
-- A node accepts what a peer signs, when it has registered the key set that the peer publishes.
use qwed_a2a.Prelude.{
  ℕ, ◌*◌, ◌<◌, ◌≤◌, ◌≡◌, ◌≢◌, refl, ◌∙◌, ap, Bool, false, Option, none, some, [], ◌∷◌, arith, ◌==◌,
  ==_iff,
}
use qwed_a2a.Prelude.Text.{Text, lit, text-Eq, text_eq}
use qwed_a2a.Dict.{Unique, lookup, insert}
use qwed_a2a.Interceptor.Claim.{Unicode}
use qwed_a2a.Interceptor.Message.{
  JsonLoaded, Value, string, array, object, no_items, item, Fields, no_fields, field, get,
}
use qwed_a2a.Schema.{VerdictStatus}
use qwed_a2a.Trust.Bucket.{ticks_per_second}
use qwed_a2a.Crypto.Jti.Replay.{check_iff}
use qwed_a2a.Crypto.Service.{Jwt, KeyPair, CryptoService, invalid}
use qwed_a2a.Crypto.Sign.{SignRequest, ok, claims_of, expiry, sign_verdict}
use qwed_a2a.Crypto.Sign.Once.{sign_verdict-ok}
use qwed_a2a.Crypto.Issuers.{
  nonempty_str, normalize_issuer_entry, usable_keys, issuers_of, normalize_entries,
  load_trusted_issuers,
}
use qwed_a2a.Crypto.KeyPair.{Keys, KeyStore, ready, ensure_key_pair}
use qwed_a2a.Crypto.Jwk.{jwk_of_result, IsP256, Publishes, jwk_of-Publishes, get_public_key_jwk}
use qwed_a2a.Crypto.Verify.{
  Issuer, add_keys, add_issuers, local_first, candidate_keys, Attempt, no_match, bind,
  attempt_candidate, registry_key, try_all, try_candidates, verify_attestation,
  check_verified_claims,
}
use qwed_a2a.Crypto.Verify.RoundTrip.{
  context_of, Decodes, issued_at, claims, own_envelope, own_candidate, check_signed,
  encoded_under_keys, attempt_own, try_own, verdict_read, Verifies,
}
use qwed_a2a.Endpoints.Jwks.{key_set, key_set_of, jwks_endpoint}

-- The configuration of one peer: its id, its deployment, and the key set that it publishes.
abbrev pub registration : Text → Text → Value → Value
unfolding lit
registration issuer_id deployment_id document = object (
    field issuer_id
      (object (
        field (lit "deployment_id") (string deployment_id) (field (lit "jwks") document no_fields)))
      no_fields)

not_same : (s t : Text) → s ≢ t → (s == t) ≡ false
not_same s t h = ground (arith, ==_iff s t)

abbrev document_of : Fields → Value
unfolding lit
document_of jwk = object (field (lit "keys") (array (item (object jwk) no_items)) no_fields)

abbrev peer : (j : Jwt) → KeyPair j → Text → Text → Issuer j
peer j keys issuer_id deployment_id = record {
  issuer_id = issuer_id;
  deployment_id = deployment_id;
  keys = (keys.public_key, some keys.key_id) ∷ [];
}

seen_other : (s t owner : Text) → s ≢ t → lookup t (insert s owner []) ≡ none
unfolding lookup insert
seen_other s t owner h = rw (not_same s t h) refl

module _ (j : Jwt) (lib : Keys j) (keys : KeyPair j) where
  jwks_endpoint_answers :
      (has_crypto : Bool) (env : Text) (store : KeyStore j)
      → (ensure_key_pair j lib has_crypto env store).1 ≡ ready keys
      → IsP256 j lib keys
      → (jwk : Fields) × Publishes j lib keys jwk
        × ((jwks_endpoint j lib has_crypto env store).1 ≡ key_set (document_of jwk))
  unfolding jwks_endpoint get_public_key_jwk jwk_of_result key_set_of
  jwks_endpoint_answers has_crypto env store is_ready point =
      let publishes = jwk_of-Publishes j lib keys point in
      (_, publishes, rw (is_ready, publishes.is_published) refl)

  registration_loads :
      (u : Unicode) (loads : Text → JsonLoaded) (env_raw issuer_id deployment_id : Text)
      (jwk : Fields)
      → Publishes j lib keys jwk
      → nonempty_str u (some (string issuer_id)) ≡ some issuer_id
      → nonempty_str u (some (string deployment_id)) ≡ some deployment_id
      → load_trusted_issuers j lib.public_key u loads
          (some (registration issuer_id deployment_id (document_of jwk)))
          env_raw
        ≡ peer j keys issuer_id deployment_id ∷ []
  unfolding load_trusted_issuers issuers_of normalize_entries normalize_issuer_entry usable_keys get
      lit text_eq
  registration_loads u loads env_raw issuer_id deployment_id jwk publishes named placed =
      rw (named, placed, publishes.reads_key, publishes.reads_kid) refl

-- The local key comes first, if there is one, and the key of the peer next.
peer_candidates :
    (j : Jwt) (fingerprint : j.PublicKey → Text) (a b : CryptoService j) (keys kb : KeyPair j)
    → fingerprint kb.public_key ≢ fingerprint keys.public_key
    → local_first j fingerprint (some kb) b (peer j keys a.issuer_id a.deployment_id ∷ [])
      ≡ own_candidate j b kb ∷ (own_candidate j a keys ∷ [])
unfolding local_first add_issuers add_keys
peer_candidates j fingerprint a b keys kb distinct =
    rw
      (
        local_first,
        add_issuers,
        add_keys,
        seen_other (fingerprint kb.public_key) (fingerprint keys.public_key) b.issuer_id distinct,
      )
      refl

-- What the checks of a peer need of its local key: the token does not verify under it, and it is not
-- the key that is registered.
abbrev pub IsOther :
    (j : Jwt) → (j.PublicKey → Text) → KeyPair j → Text → ℕ → Option (KeyPair j) → Type 0
IsOther j fingerprint keys token now none = Unit
IsOther j fingerprint keys token now (some kb) =
    (j.decode now kb.public_key token ≡ invalid)
    × (fingerprint kb.public_key ≢ fingerprint keys.public_key)

module _ (j : Jwt) (fingerprint : j.PublicKey → Text) (a b : CryptoService j) (q : SignRequest)
    (status : VerdictStatus) (wall now : ℕ) (keys : KeyPair j) (token : Text) where
  local_refused :
      (kb : KeyPair j)
      → j.decode now kb.public_key token ≡ invalid
      → attempt_candidate j now token (own_candidate j b kb) ≡ no_match
  unfolding attempt_candidate bind
  local_refused kb refused = rw refused refl

  -- The peer's key is tried, after the local one if there is one.
  try_peer :
      (o : Option (KeyPair j))
      → IsOther j fingerprint keys token now o
      → attempt_candidate j now token (own_candidate j a keys)
        ≡ Attempt.verified (own_envelope j a q status wall now)
      → try_all j b now token
          (context_of q)
          (local_first j fingerprint o b (peer j keys a.issuer_id a.deployment_id ∷ []))
        ≡ check_verified_claims j b now a.deployment_id
            (context_of q)
            (own_envelope j a q status wall now)
  unfolding try_all try_candidates
  try_peer none other first =
      try_own j b q status wall now token (context_of q) _ [] (own_candidate j a keys) _
        (unfold local_first add_issuers add_keys lookup in refl) first
  try_peer (some kb) (refused, distinct) first =
      rw
        (
          peer_candidates j fingerprint a b keys kb distinct,
          try_candidates,
          local_refused kb refused,
          try_candidates,
          first,
        )
        refl

-- If a node has its key pair, a key of P-256, then its JWKS endpoint answers with a document, and
-- if the node signs a verdict under a trace that is not empty, and tokens of the key pair decode to
-- what was encoded between their issue and their expiry, then another node that registers the
-- document for the id and the deployment of the first, neither of them blank, asked from the second
-- on in which it was signed and before the token expires and with no live entry of issuer and trace
-- in its registry, accepts the token in the context it was signed for, with the claims that were
-- signed, provided that the token does not verify under the key of the other node and that key has
-- another fingerprint.
pub verify_attestation-jwks_endpoint :
    (j : Jwt) (lib : Keys j) (fingerprint : j.PublicKey → Text) (u : Unicode)
    (loads : Text → JsonLoaded) (a b : CryptoService j) (q : SignRequest) (has_crypto : Bool)
    (env env_raw : Text) (store : KeyStore j) (wall wall_registry now : ℕ) (keys : KeyPair j)
    (token : Text)
    → (ensure_key_pair j lib has_crypto env store).1 ≡ ready keys
    → IsP256 j lib keys
    → Decodes j keys
    → a.key_pair ≡ some keys
    → (sign_verdict j a q wall wall_registry).1 ≡ ok token
    → q.trace_id ≢ []
    → issued_at wall ≤ now
    → now < expiry j a wall
    → nonempty_str u (some (string a.issuer_id)) ≡ some a.issuer_id
    → nonempty_str u (some (string a.deployment_id)) ≡ some a.deployment_id
    → IsOther j fingerprint keys token now b.key_pair
    → Unique b.jti_registry.seen
    → ((held : ℕ)
        → lookup (registry_key b.issuer_id a.issuer_id q.trace_id) b.jti_registry.seen ≡ some held
        → held ≤ now)
    → (document : Value) × ((jwks_endpoint j lib has_crypto env store).1 ≡ key_set document)
      × Verifies j a q wall
          (verify_attestation j fingerprint b
            (load_trusted_issuers j lib.public_key u loads
              (some (registration a.issuer_id a.deployment_id document))
              env_raw)
            now
            token
            (context_of q)).1
unfolding verify_attestation candidate_keys claims_of
verify_attestation-jwks_endpoint j lib fingerprint u loads a b q has_crypto env env_raw store wall
      wall_registry now keys token is_ready point decodes has signed named begun soon issuer
      deployment other unique free =
    let (jwk, publishes, answers) =
      jwks_endpoint_answers j lib keys has_crypto env store is_ready point in
    let loaded =
      registration_loads j lib keys u loads env_raw a.issuer_id a.deployment_id jwk publishes issuer
        deployment in
    let issued = sign_verdict-ok j a q wall wall_registry token signed in
    let block = claims j a q issued.status wall now in
    let decoded =
      decodes block token now (encoded_under_keys j a q wall wall_registry keys token has issued)
        begun soon in
    let first = attempt_own j a q issued.status wall now keys token decoded in
    let fresh =
      (check_iff (registry_key b.issuer_id a.issuer_id q.trace_id) now
          (some (block.exp * ticks_per_second)) b.jti_registry unique).1
        free in
    (
      document_of jwk,
      answers,
      (
        issued.status,
        issued.is_status,
        rw loaded (
            ap (λ r. r.1)
              (try_peer j fingerprint a b q issued.status wall now keys token b.key_pair other
                first)
            ∙ check_signed j a q issued.status wall now b named fresh),
        verdict_read j a q issued.status wall now,
      ),
    )
