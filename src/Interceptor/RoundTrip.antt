-- ===== src/Interceptor/RoundTrip.antt =====
-- A verdict's token, given to the verification of attestations.
use qwed_a2a.Prelude.{List, refl, ℕ, ◌≤◌, ◌<◌, ◌≡◌, ◌≢◌, inl, inr, sym, ◌∙◌, ap, none, some, []}
use qwed_a2a.Prelude.Text.{Text, text-Eq}
use mathlib.Core.Option.{some-injective}
use qwed_a2a.Dict.{Unique, lookup}
use qwed_a2a.Schema.{unverifiable, admissible, status_of_value-status_value}
use qwed_a2a.Crypto.Service.{Jwt, KeyPair, CryptoService, QwedClaims}
use qwed_a2a.Crypto.Sign.{expiry, claims_of}
use qwed_a2a.Crypto.Verify.{Issuer, AttestationContext, accepted, verify_attestation, is_admissible}
use qwed_a2a.Crypto.Verify.RoundTrip.{Decodes, issued_at, verify_attestation-sign_verdict}
use qwed_a2a.Interceptor.Message.{AgentMessage}
use qwed_a2a.Interceptor.Pipeline.{VerificationVerdict, Times, Interceptor, intercept}
use qwed_a2a.Interceptor.Decide.{Engines, payload_hash, Run}
use qwed_a2a.Interceptor.Attested.{request_of, intercept-Attests}

-- The context that a receiver expects of a message with a payload hash.
abbrev pub expected : AgentMessage → Text → AttestationContext
expected message hash = record {
  sender_agent_id = message.sender_agent_id;
  receiver_agent_id = message.receiver_agent_id;
  payload_hash = hash;
  session_id = none;
}

-- A token that the service accepts for the message, with claims that permit acting exactly if the
-- verdict does.
pub record Confirmed (j : Jwt) (fingerprint : j.PublicKey → Text) (crypto : CryptoService j)
    (issuers : List (Issuer j)) (now : ℕ) (engines : Engines) (message : AgentMessage)
    (v : VerificationVerdict) : Type 0 where
  pub hash : Text
  pub token : Text
  pub claims : QwedClaims
  pub is_hash : payload_hash engines message.payload ≡ some hash
  pub is_token : v.attestation_jwt ≡ some token
  pub is_accepted :
      (verify_attestation j fingerprint crypto issuers now token (expected message hash)).1
      ≡ accepted claims
  pub same_engine : claims.engine ≡ v.engine_used
  pub same_admission : is_admissible claims ≡ admissible v.status

-- If intercept returns a verdict other than unverifiable under a trace that is not empty, and
-- tokens of the key pair decode to what was encoded between their issue and their expiry, then the
-- same service, asked from the second on in which it was signed and before the token expires and
-- with no live entry of the trace in its registry, accepts the token for the message, and the
-- accepted claims name the engine of the verdict and are admissible exactly if the verdict is.
pub intercept-Confirmed :
    (j : Jwt) (fingerprint : j.PublicKey → Text) (engines : Engines) (i : Interceptor j)
    (message : AgentMessage) (trace_id : Text) (run : Run) (t : Times) (v : VerificationVerdict)
    (issuers : List (Issuer j)) (now : ℕ) (keys : KeyPair j)
    → Decodes j keys
    → i.crypto.key_pair ≡ some keys
    → (intercept j engines i message trace_id run t).1 ≡ some v
    → v.status ≢ unverifiable
    → trace_id ≢ []
    → issued_at t.wall ≤ now
    → now < expiry j i.crypto t.wall
    → Unique i.crypto.jti_registry.seen
    → ((held : ℕ) → lookup trace_id i.crypto.jti_registry.seen ≡ some held → held ≤ now)
    → Confirmed j fingerprint
        (intercept j engines i message trace_id run t).0.crypto
        issuers
        now
        engines
        message
        v
unfolding claims_of
intercept-Confirmed j fingerprint engines i message trace_id run t v issuers now keys decodes has
      returned due named begun soon u free =
    let (attests, _, same_trace) =
      intercept-Attests j engines i message trace_id run t v returned in
    elim attests [
      | inl (none_due, _, _) ↦ absurd (due none_due)
      | inr (hash, token, _, is_hash, is_token, is_signed) ↦
          let q = request_of message v hash in
          let (status, known, result, admits) =
            verify_attestation-sign_verdict j fingerprint i.crypto issuers q t.wall t.wall_registry
              now keys token decodes has (ap (λ r. r.1) is_signed) (λ e. named (sym same_trace ∙ e))
              begun soon u
              (λ held e.
                free held (ap (λ x. lookup x i.crypto.jti_registry.seen) (sym same_trace) ∙ e)) in
          let same_status : status ≡ v.status =
            some-injective status v.status (sym known ∙ status_of_value-status_value v.status) in
          record {
            hash = hash;
            token = token;
            claims = _;
            is_hash = is_hash;
            is_token = is_token;
            is_accepted =
                ap
                  (λ r.
                    (verify_attestation j fingerprint r.0 issuers now token
                      (expected message hash)).1)
                  (sym is_signed)
                ∙ result;
            same_engine = refl;
            same_admission = admits ∙ ap admissible same_status;
          }
    ]
