-- ===== src/Crypto/Verify/Accept.antt =====
-- What an accepted attestation guarantees.
use mathlib.Core.List.{Memᴰ}
use qwed_a2a.Prelude.{
  sym, ◌∙◌, ap, subst, ℕ, ◌≡◌, ◌≢◌, inl, inr, Bool, true, false, Option, some, List, [], arith,
  is_some, if◌then◌else◌,
}
use qwed_a2a.Prelude.Text.{Text, text-Eq}
use qwed_a2a.Schema.{status_of_value}
use qwed_a2a.Crypto.Service.{Jwt, CryptoService, QwedClaims, complete}
use qwed_a2a.Crypto.Verify.Effect.{registration, verify_attestation-Effect}
use qwed_a2a.Crypto.Verify.{
  VerifyError, rejected, replay, Issuer, Candidate, AttestationContext, accepted, candidate_keys,
  verify_attestation,
}

-- What holds when a call accepts a token: a configured key decodes it, and what it says is bound to
-- that key and to the context.
pub record Accepted (j : Jwt) (fingerprint : j.PublicKey → Text) (s : CryptoService j)
    (issuers : List (Issuer j)) (now : ℕ) (token : Text) (context : AttestationContext)
    (claims : QwedClaims) : Type 0 where
  pub candidate : Candidate j
  pub is_configured : Memᴰ candidate (candidate_keys j fingerprint s issuers)
  pub jti : Text
  pub exp : ℕ
  pub kid : Option Text
  pub is_decoded :
      j.decode now candidate.key token
      ≡ complete candidate.owner context.payload_hash jti exp (some claims) kid
  pub same_kid : (k : Text) → kid ≡ some k → candidate.kid ≡ some k
  pub same_deployment : claims.deployment_id ≡ candidate.deployment_id
  pub same_sender : claims.sender ≡ context.sender_agent_id
  pub same_receiver : claims.receiver ≡ context.receiver_agent_id
  pub same_session : (x : Text) → context.session_id ≡ some x → claims.session_id ≡ some x
  pub known_verdict : is_some (status_of_value claims.verdict) ≡ true
  pub has_jti : jti ≢ []
  pub is_fresh : (registration j s now candidate.owner jti exp).1 ≡ true
  pub registry_left :
      (verify_attestation j fingerprint s issuers now token context).0.jti_registry
      ≡ (registration j s now candidate.owner jti exp).0

rejected_lem : (err : VerifyError) (claims : QwedClaims) → rejected err ≢ accepted claims
rejected_lem err claims h = absurd (cc)

accepted_lem :
    (fresh : Bool) (c claims : QwedClaims)
    → (if fresh then accepted c else rejected replay) ≡ accepted claims
    → (fresh ≡ true) × (c ≡ claims)
accepted_lem true c claims h = ground arith
accepted_lem false c claims h = absurd (cc)

-- If verify_attestation accepts a token, then a configured key decodes it, its issuer owns that
-- key, a key id that it names is the registered one of that key, its deployment, sender, receiver
-- and payload hash are the expected ones and so is its session if the context has one, its verdict
-- is a known one, and its identifier is not empty, was accepted by the registry and is registered.
pub verify_attestation-accepted :
    (j : Jwt) (fingerprint : j.PublicKey → Text) (s : CryptoService j) (issuers : List (Issuer j))
    (now : ℕ) (token : Text) (context : AttestationContext) (claims : QwedClaims)
    → (verify_attestation j fingerprint s issuers now token context).1 ≡ accepted claims
    → Accepted j fingerprint s issuers now token context claims
verify_attestation-accepted j fingerprint s issuers now token context claims h =
    elim (verify_attestation-Effect j s now fingerprint issuers token context) [
      | inl (err, is, _) ↦ absurd (rejected_lem err claims (sym (ap (λ r. r.1) is) ∙ h))
      | inr a ↦
          let (fresh, same) =
            accepted_lem (registration j s now a.candidate.owner a.jti a.exp).1 a.claims claims
              (sym (ap (λ r. r.1) a.answers) ∙ h) in
          subst (Accepted j fingerprint s issuers now token context) same (record {
            candidate = a.candidate;
            is_configured = a.is_candidate;
            jti = a.jti;
            exp = a.exp;
            kid = a.kid;
            is_decoded = a.is_decoded;
            same_kid = a.same_kid;
            same_deployment = a.same_deployment;
            same_sender = a.same_sender;
            same_receiver = a.same_receiver;
            same_session = a.same_session;
            known_verdict = a.known_verdict;
            has_jti = a.has_jti;
            is_fresh = fresh;
            registry_left = ap (λ r. r.0.jti_registry) a.answers;
          })
    ]
