-- ===== src/Crypto/Examples.antt =====
-- The theorems about tokens and their registry at small inputs.
use qwed_a2a.Trust.Bucket.{ticks_per_second}
use qwed_a2a.Prelude.{contains, nat-Eq, ◌*◌, ◌≢◌, ℕ, ◌≡◌, refl, false, none, some, [], ◌∷◌, arith}
use qwed_a2a.Prelude.Text.{Text, lit, text-Eq, text_eq}
use qwed_a2a.Dict.{lookup, insert, drop_where}
use qwed_a2a.Crypto.Jti.{no_jtis, expiry_of, check_and_register}
use qwed_a2a.Crypto.Jti.Replay.{check, withdraw, run, replay_denied, expiry_of_covers}
use qwed_a2a.Schema.{verified, status_of_value, status_value}
use qwed_a2a.Crypto.Service.{CryptoService, QwedClaims, new_service}
use qwed_a2a.Crypto.Sign.{
  SignRequest, ok, claims_of, encode_or_release, reserve_and_sign, sign_verdict,
}
use qwed_a2a.Crypto.Sign.Once.{sign_all, no_second_token}
use qwed_a2a.Crypto.Verify.{
  accepted, verify_attestation, candidate_keys, local_first, try_all, try_candidates,
  attempt_candidate, bind, kid_conflicts, check_verified_claims, valid_block, check_block,
  session_differs, registry_key, add_issuers,
}
use qwed_a2a.Crypto.Verify.Accept.{Accepted, verify_attestation-accepted}
use qwed_a2a.Crypto.Verify.Replay.{slot_key, Call, verify_all, verify_attestation-no_replay}
use qwed_a2a.Crypto.Verify.RoundTrip.{context_of, Verifies, verify_attestation-sign_verdict}
use qwed_a2a.Crypto.Verify.Effect.{Effect, verify_attestation-Effect}
use qwed_a2a.Crypto.Verify.Keys.{registry_key-injective}
use qwed_a2a.Crypto.Sample.{sample_jwt, sample_keys, sample-Decodes, pack, fields}

abbrev token_id : Text
token_id = lit "a2a_1"

abbrev other_id : Text
other_id = lit "a2a_2"

-- The token lives longer than the retention time, and is refused to its own end.
replay_denied_example :
    (check_and_register token_id 900 none (
      run
        (check other_id 500 none ∷ withdraw other_id ∷ [])
        (check_and_register token_id 7 (some 1000) (no_jtis 300)).0)).1
    ≡ false
unfolding check_and_register lookup insert drop_where lit text_eq expiry_of
replay_denied_example =
    replay_denied token_id 7 900 (some 1000) none (check other_id 500 none ∷ withdraw other_id ∷ [])
      (no_jtis 300) tt refl (ground arith) (omega arith)

-- A service with a key, a verdict to sign, and calls that verify its token.
abbrev service : CryptoService sample_jwt
service = new_service sample_jwt (lit "node") 300 (lit "prod") (some sample_keys)

abbrev request : Text → SignRequest
request trace_id = record {
  trace_id = trace_id;
  verdict_status = lit "verified";
  engine = lit "finance";
  sender_id = lit "a";
  receiver_id = lit "b";
  payload_hash = lit "h";
  session_id = none;
}

abbrev fingerprint : Text → Text
fingerprint key = key

abbrev token : Text → Text
token trace_id =
    pack (fields (7 ∷ []) (8 ∷ []) (claims_of sample_jwt service (request trace_id) verified 5))

abbrev signed : CryptoService sample_jwt
signed = (sign_verdict sample_jwt service (request token_id) 5000000 5000000).0

abbrev call : ℕ → Text → Call sample_jwt
call now trace_id = record {
  issuers = [];
  now = now;
  token = token trace_id;
  context = context_of (request trace_id);
}

abbrev block : Text → QwedClaims
block trace_id = (claims_of sample_jwt service (request trace_id) verified 5).qwed_a2a

first_signed :
    (sign_verdict sample_jwt service (request token_id) 5000000 5000000).1 ≡ ok (token token_id)
unfolding sign_verdict reserve_and_sign encode_or_release claims_of check_and_register lookup insert
    drop_where lit text_eq expiry_of status_of_value status_value
first_signed = refl

verify_attestation-sign_verdict_example :
    Verifies sample_jwt service
      (request token_id)
      5000000
      (verify_attestation sample_jwt fingerprint signed [] 6000000
        (token token_id)
        (context_of (request token_id))).1
unfolding lit lookup
verify_attestation-sign_verdict_example =
    verify_attestation-sign_verdict sample_jwt fingerprint service [] (request token_id) 5000000
      5000000 6000000 sample_keys (token token_id) (sample-Decodes (7 ∷ []) (8 ∷ [])) refl
      first_signed (λ h. absurd (cc)) (omega arith) (omega arith) tt (λ held h. absurd (cc))

no_second_token_example :
    (sign_verdict sample_jwt
      (sign_all sample_jwt ((request other_id, 6000000, 6000000) ∷ []) signed)
      (request token_id)
      200000000
      200000000).1
    ≢ ok (token token_id)
unfolding expiry_of
no_second_token_example =
    no_second_token sample_jwt service (request token_id) (request token_id) 5000000 5000000
      200000000 200000000 ((request other_id, 6000000, 6000000) ∷ []) (token token_id)
      (token token_id) tt first_signed (ground arith) refl (omega arith)

accepts :
    (verify_attestation sample_jwt fingerprint service [] 6000000
      (token token_id)
      (context_of (request token_id))).1
    ≡ accepted (block token_id)
unfolding verify_attestation candidate_keys local_first try_all try_candidates attempt_candidate
    bind kid_conflicts check_verified_claims valid_block check_block session_differs registry_key
    add_issuers claims_of check_and_register lookup insert drop_where lit text_eq expiry_of
    status_of_value status_value
accepts = refl

verify_attestation-accepted_example :
    Accepted sample_jwt fingerprint service [] 6000000
      (token token_id)
      (context_of (request token_id))
      (block token_id)
verify_attestation-accepted_example =
    verify_attestation-accepted sample_jwt fingerprint service [] 6000000 (token token_id)
      (context_of (request token_id)) (block token_id) accepts

abbrev third_id : Text
third_id = lit "a2a_3"

-- After the first token and another one, a third is accepted too, under another key.
abbrev later : CryptoService sample_jwt
later =
    verify_all sample_jwt fingerprint (call 7000000 other_id ∷ [])
      (verify_attestation sample_jwt fingerprint service [] 6000000 (token token_id)
        (context_of (request token_id))).0

later_accepts :
    (verify_attestation sample_jwt fingerprint later [] 8000000
      (token third_id)
      (context_of (request third_id))).1
    ≡ accepted (block third_id)
unfolding verify_attestation verify_all candidate_keys local_first try_all try_candidates
    attempt_candidate bind kid_conflicts check_verified_claims valid_block check_block
    session_differs registry_key add_issuers claims_of check_and_register lookup insert drop_where
    lit text_eq expiry_of status_of_value status_value
later_accepts = refl

third_accepted :
    Accepted sample_jwt fingerprint later [] 8000000
      (token third_id)
      (context_of (request third_id))
      (block third_id)
third_accepted =
    verify_attestation-accepted sample_jwt fingerprint later [] 8000000 (token third_id)
      (context_of (request third_id)) (block third_id) later_accepts

verify_attestation-no_replay_example :
    slot_key sample_jwt service third_accepted.candidate.owner third_accepted.jti
    ≢ slot_key sample_jwt service verify_attestation-accepted_example.candidate.owner
        verify_attestation-accepted_example.jti
verify_attestation-no_replay_example =
    let slot =
      expiry_of_covers 6000000 300000000
        (verify_attestation-accepted_example.exp * ticks_per_second) in
    verify_attestation-no_replay sample_jwt fingerprint service (call 6000000 token_id)
      (call 8000000 third_id) (call 7000000 other_id ∷ []) (block token_id) (block third_id) tt
      verify_attestation-accepted_example ((omega (arith, slot)), tt) (omega (arith, slot))
      third_accepted

verify_attestation-Effect_example :
    Effect sample_jwt service 6000000
      (token token_id)
      (context_of (request other_id))
      (candidate_keys sample_jwt fingerprint service [])
      (verify_attestation sample_jwt fingerprint service [] 6000000
        (token token_id)
        (context_of (request other_id)))
verify_attestation-Effect_example =
    verify_attestation-Effect sample_jwt service 6000000 fingerprint [] (token token_id)
      (context_of (request other_id))

registry_key-injective_example : (lit "peer" ≡ lit "peer") × (lit "x" ≡ lit "x")
unfolding lit contains
registry_key-injective_example =
    registry_key-injective (lit "node") (lit "peer") (lit "peer") (lit "x") (lit "x") refl refl refl
      refl refl
