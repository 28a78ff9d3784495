-- ===== src/Crypto/Verify/Effect.antt =====
-- What a verification leaves of the service: the registry is asked last, of a token that has passed
-- every other check.
use mathlib.Core.List.{Memᴰ}
use qwed_a2a.Prelude.{
  ◌*◌, ◌∙◌, ap, ℕ, ◌≡◌, ◌≢◌, ◌⊎◌, inl, inr, refl, Bool, true, false, not, Option, none, some, List,
  [], ◌∷◌, arith, if◌then◌else◌, is_some, ◌==◌, ==_iff,
}
use qwed_a2a.Prelude.Text.{Text, text-Eq}
use qwed_a2a.Schema.{status_of_value}
use qwed_a2a.Trust.Bucket.{ticks_per_second}
use qwed_a2a.Crypto.Jti.{JtiRegistry, check_and_register}
use qwed_a2a.Crypto.Service.{Jwt, CryptoService, QwedClaims, complete}
use qwed_a2a.Crypto.Verify.{
  Issuer, Candidate, AttestationContext, VerifyError, deployment_mismatch, invalid_claims,
  missing_jti, payload_mismatch, receiver_mismatch, sender_mismatch, session_mismatch,
  expired_token, kid_mismatch, no_trusted_key, no_keys, replay, Verified, accepted, rejected,
  candidate_keys, Envelope, verified, registry_key, attempt_candidate, valid_block, session_differs,
  is_empty, check_block, check_verified_claims, try_candidates, try_all, verify_attestation,
}
use qwed_a2a.Crypto.Verify.Bound.{
  valid_block-some, nonempty, session_same, kid_same, bind-verified, Attempt-cases,
}

-- The registration of an attestation.
abbrev pub registration : (j : Jwt) → CryptoService j → ℕ → Text → Text → ℕ → JtiRegistry × Bool
registration j s now iss jti exp =
    check_and_register (registry_key s.issuer_id iss jti) now (some (exp * ticks_per_second))
      s.jti_registry

-- The service after the registration of an identifier of an issuer, and the answer that follows.
abbrev pub after_registration :
    (j : Jwt) → CryptoService j → ℕ → Text → Text → ℕ → QwedClaims → CryptoService j × Verified
after_registration j s now iss jti exp claims = (
  record s { jti_registry = (registration j s now iss jti exp).0 },
  if (registration j s now iss jti exp).1 then accepted claims else rejected replay,
)

-- A call that asks the registry: one of the candidates decodes the token, what it says is bound to
-- that candidate and to the context, and the registry decides the answer.
pub record Asked (j : Jwt) (s : CryptoService j) (now : ℕ) (token : Text)
    (context : AttestationContext) (candidates : List (Candidate j))
    (r : CryptoService j × Verified) : Type 0 where
  pub candidate : Candidate j
  pub is_candidate : Memᴰ candidate candidates
  pub jti : Text
  pub exp : ℕ
  pub kid : Option Text
  pub claims : QwedClaims
  pub is_decoded :
      j.decode now candidate.key token
      ≡ complete candidate.owner context.payload_hash jti exp (some claims) kid
  pub same_kid : (k : Text) → kid ≡ some k → candidate.kid ≡ some k
  pub same_deployment : claims.deployment_id ≡ candidate.deployment_id
  pub same_sender : claims.sender ≡ context.sender_agent_id
  pub same_receiver : claims.receiver ≡ context.receiver_agent_id
  pub same_session : (x : Text) → context.session_id ≡ some x → claims.session_id ≡ some x
  pub known_verdict : is_some (status_of_value claims.verdict) ≡ true
  pub has_jti : jti ≢ []
  pub answers : r ≡ after_registration j s now candidate.owner jti exp claims

-- A refusal for another reason than replay, which leaves the service as it was.
abbrev pub Refused : (j : Jwt) → CryptoService j → CryptoService j × Verified → Type 0
Refused j s r = (err : VerifyError) × (r ≡ (s, rejected err)) × (err ≢ replay)

abbrev pub Effect :
    (j : Jwt)
    → CryptoService j
    → ℕ
    → Text
    → AttestationContext
    → List (Candidate j)
    → CryptoService j × Verified
    → Type 0
Effect j s now token context candidates r = Refused j s r ⊎ Asked j s now token context candidates r

same_of_not : (x y : Text) → not (x == y) ≡ false → x ≡ y
same_of_not x y h = ground (arith, ==_iff x y)

module _ (j : Jwt) (s : CryptoService j) (now : ℕ) where
  -- The checks of a block, all passed.
  abbrev Passed :
      Text → AttestationContext → Envelope → QwedClaims → CryptoService j × Verified → Type 0
  Passed deployment_id context e c r =
      (c.deployment_id ≡ deployment_id)
      × (c.sender ≡ context.sender_agent_id)
      × (c.receiver ≡ context.receiver_agent_id)
      × (e.sub ≡ context.payload_hash)
      × (session_differs context.session_id c.session_id ≡ false)
      × (is_empty e.jti ≡ false)
      × (r ≡ after_registration j s now e.iss e.jti e.exp c)

  -- One check: it refuses, or the rest goes on.
  guard :
      (P : CryptoService j × Verified → Type 0) (b : Bool) (err : VerifyError)
      {r : CryptoService j × Verified}
      → err ≢ replay
      → (b ≡ false → Refused j s r ⊎ P r)
      → let r' = if b then (s, rejected err) else r in Refused j s r' ⊎ P r'
  guard P true err other rest = inl (err, refl, other)
  guard P false err other rest = rest refl

  check_block-Passed :
      (deployment_id : Text) (context : AttestationContext) (e : Envelope) (c : QwedClaims)
      → let r = check_block j s now deployment_id context e (some c) in
        Refused j s r ⊎ Passed deployment_id context e c r
  unfolding check_block
  check_block-Passed deployment_id context e c =
      let P = Passed deployment_id context e c in
      guard P (not (c.deployment_id == deployment_id)) deployment_mismatch (λ h. absurd (cc))
        (λ d.
          guard P (not (c.sender == context.sender_agent_id)) sender_mismatch (λ h. absurd (cc))
            (λ f.
              guard P (not (c.receiver == context.receiver_agent_id)) receiver_mismatch
                (λ h. absurd (cc))
                (λ t.
                  guard P (not (e.sub == context.payload_hash)) payload_mismatch (λ h. absurd (cc))
                    (λ p.
                      guard P (session_differs context.session_id c.session_id) session_mismatch
                        (λ h. absurd (cc))
                        (λ session.
                          guard P (is_empty e.jti) missing_jti (λ h. absurd (cc))
                            (λ named. inr (
                              same_of_not c.deployment_id deployment_id d,
                              same_of_not c.sender context.sender_agent_id f,
                              same_of_not c.receiver context.receiver_agent_id t,
                              same_of_not e.sub context.payload_hash p,
                              session,
                              named,
                              refl,
                            )))))))

  -- What the verified claims of a candidate come to.
  check_verified_claims-Effect :
      (token : Text) (context : AttestationContext) (candidates : List (Candidate j))
      (c : Candidate j) (e : Envelope) (o : Option QwedClaims)
      → Memᴰ c candidates
      → attempt_candidate j now token c ≡ verified e
      → valid_block e.block ≡ o
      → Effect j s now token context candidates (check_block j s now c.deployment_id context e o)
  unfolding check_block attempt_candidate
  check_verified_claims-Effect token context candidates c e none m is v =
      inl (invalid_claims, refl, λ h. absurd (cc))
  check_verified_claims-Effect token context candidates c e (some claims) m is v =
      elim (check_block-Passed c.deployment_id context e claims) [
        | inl refused ↦ inl refused
        | inr (dep, sender, receiver, sub, session, named, is_r) ↦
            let (carried, known) = valid_block-some e.block claims v in
            let (kid, decoded, agrees, owner) =
              bind-verified c.owner c.kid (j.decode now c.key token) e is in
            inr (record {
              candidate = c;
              is_candidate = m;
              jti = e.jti;
              exp = e.exp;
              kid = kid;
              claims = claims;
              is_decoded =
                  decoded
                  ∙ ap (λ b. complete c.owner e.sub e.jti e.exp b kid) carried
                  ∙ ap (λ b. complete c.owner b e.jti e.exp (some claims) kid) sub;
              same_kid = λ k is_k. kid_same kid c.kid k agrees is_k;
              same_deployment = dep;
              same_sender = sender;
              same_receiver = receiver;
              same_session =
                  λ x is_x. session_same context.session_id claims.session_id x session is_x;
              known_verdict = known;
              has_jti = nonempty e.jti named;
              answers = is_r ∙ ap (λ i. after_registration j s now i e.jti e.exp claims) owner;
            })
      ]

  Effect-later :
      (token : Text) (context : AttestationContext) (candidates : List (Candidate j))
      (c : Candidate j) (r : CryptoService j × Verified)
      → Effect j s now token context candidates r
      → Effect j s now token context (c ∷ candidates) r
  Effect-later token context candidates c r (inl refused) = inl refused
  Effect-later token context candidates c r (inr asked) = inr (record {
    candidate = asked.candidate;
    is_candidate = Memᴰ.tail asked.is_candidate;
    jti = asked.jti;
    exp = asked.exp;
    kid = asked.kid;
    claims = asked.claims;
    is_decoded = asked.is_decoded;
    same_kid = asked.same_kid;
    same_deployment = asked.same_deployment;
    same_sender = asked.same_sender;
    same_receiver = asked.same_receiver;
    same_session = asked.same_session;
    known_verdict = asked.known_verdict;
    has_jti = asked.has_jti;
    answers = asked.answers;
  })

  exhausted :
      (ex mi : Bool)
      → Refused j s
          (s, rejected (if ex then expired_token else if mi then kid_mismatch else no_trusted_key))
  exhausted true mi = (expired_token, refl, λ h. absurd (cc))
  exhausted false true = (kid_mismatch, refl, λ h. absurd (cc))
  exhausted false false = (no_trusted_key, refl, λ h. absurd (cc))

  try_candidates-Effect :
      (token : Text) (context : AttestationContext) (candidates : List (Candidate j)) (ex mi : Bool)
      → Effect j s now token context candidates
          (try_candidates j s now token context candidates ex mi)
  unfolding try_candidates check_verified_claims
  try_candidates-Effect token context [] ex mi = inl (exhausted ex mi)
  try_candidates-Effect token context (c ∷ cs) ex mi =
      let later = λ (ex' mi' : Bool).
        Effect-later token context cs c _ (try_candidates-Effect token context cs ex' mi') in
      elim (Attempt-cases (attempt_candidate j now token c)) [
        | inl (e, is) ↦
            rw (try_candidates, is)
              (check_verified_claims-Effect token context (c ∷ cs) c e (valid_block e.block)
                (Memᴰ.head refl) is refl)
        | inr (inl is) ↦ rw (try_candidates, is) (later ex true)
        | inr (inr (inl is)) ↦ rw (try_candidates, is) (later true mi)
        | inr (inr (inr is)) ↦ rw (try_candidates, is) (later ex mi)
      ]

  try_all-Effect :
      (token : Text) (context : AttestationContext) (candidates : List (Candidate j))
      → Effect j s now token context candidates (try_all j s now token context candidates)
  unfolding try_all
  try_all-Effect token context [] = inl (no_keys, refl, λ h. absurd (cc))
  try_all-Effect token context (c ∷ cs) = try_candidates-Effect token context (c ∷ cs) false false

  -- verify_attestation either refuses for a reason other than replay and leaves the service as it
  -- was, or a configured key decodes the token, every check of its claims against that key and the
  -- context has passed, and the service is changed by one registration of the identifier under its
  -- issuer with the expiry of the token, and nothing else, with which the token is accepted if the
  -- registry lets it through, and otherwise refused as a replay.
  pub verify_attestation-Effect :
      (fingerprint : j.PublicKey → Text) (issuers : List (Issuer j)) (token : Text)
      (context : AttestationContext)
      → Effect j s now token context
          (candidate_keys j fingerprint s issuers)
          (verify_attestation j fingerprint s issuers now token context)
  unfolding verify_attestation try_all
  verify_attestation-Effect fingerprint issuers token context =
      try_all-Effect token context (candidate_keys j fingerprint s issuers)
