-- ===== src/Crypto/Verify/Replay.antt =====
-- Why no attestation is accepted twice.
use qwed_a2a.Prelude.{ℕ, ◌*◌, ◌<◌, ◌≡◌, ◌≢◌, inl, inr, refl, ◌∙◌, ap, some, List, [], ◌∷◌, arith}
use qwed_a2a.Prelude.Text.{Text, text-Eq}
use qwed_a2a.Dict.{Unique, lookup}
use qwed_a2a.Trust.Bucket.{ticks_per_second}
use qwed_a2a.Crypto.Jti.{expiry_of}
use qwed_a2a.Crypto.Jti.Replay.{check_iff, check-Unique, lookup-check, registered}
use qwed_a2a.Crypto.Service.{Jwt, CryptoService, QwedClaims}
use qwed_a2a.Crypto.Verify.{
  Issuer, Candidate, AttestationContext, Verified, registry_key, verify_attestation,
}
use qwed_a2a.Crypto.Verify.Accept.{Accepted}
use qwed_a2a.Crypto.Verify.Effect.{Effect, verify_attestation-Effect}

-- The registry holds a key until a time.
abbrev pub Holds : (j : Jwt) → Text → ℕ → CryptoService j → Type 0
Holds j key held s = Unique s.jti_registry.seen × (lookup key s.jti_registry.seen ≡ some held)

-- A call of `verify_attestation`: the peers, the clock's reading, the token and the context.
pub record Call (j : Jwt) : Type 0 where
  pub issuers : List (Issuer j)
  pub now : ℕ
  pub token : Text
  pub context : AttestationContext

unfoldable pub verify_all :
    (j : Jwt) → (j.PublicKey → Text) → List (Call j) → CryptoService j → CryptoService j
verify_all j fingerprint [] s = s
verify_all j fingerprint (c ∷ cs) s =
    verify_all j fingerprint cs
      (verify_attestation j fingerprint s c.issuers c.now c.token c.context).0

abbrev pub BeforeAll : (j : Jwt) → ℕ → List (Call j) → Type 0
BeforeAll j held [] = Unit
BeforeAll j held (c ∷ cs) = (c.now < held) × BeforeAll j held cs

Effect-keeps :
    (j : Jwt) (s : CryptoService j) (now : ℕ) (token : Text) (context : AttestationContext)
    (candidates : List (Candidate j)) (r : CryptoService j × Verified) (key : Text) (held : ℕ)
    → Effect j s now token context candidates r
    → Holds j key held s
    → now < held
    → Holds j key held r.0
Effect-keeps j s now token context candidates r key held (inl (err, is, other)) h alive = rw is h
Effect-keeps j s now token context candidates r key held (inr a) h alive =
    let slot = registry_key s.issuer_id a.candidate.owner a.jti in
    let valid_until = some (a.exp * ticks_per_second) in
    rw a.answers (
      check-Unique slot now valid_until s.jti_registry h.0,
      lookup-check key slot now valid_until s.jti_registry h.0 h.1 alive,
    )

Effect-issuer :
    (j : Jwt) (s : CryptoService j) (now : ℕ) (token : Text) (context : AttestationContext)
    (candidates : List (Candidate j)) (r : CryptoService j × Verified)
    → Effect j s now token context candidates r
    → r.0.issuer_id ≡ s.issuer_id
Effect-issuer j s now token context candidates r (inl (err, is, other)) = rw is refl
Effect-issuer j s now token context candidates r (inr a) = rw a.answers refl

verify_all-keeps :
    (j : Jwt) (fingerprint : j.PublicKey → Text) (cs : List (Call j)) (s : CryptoService j)
    (key : Text) (held : ℕ)
    → Holds j key held s
    → BeforeAll j held cs
    → Holds j key held (verify_all j fingerprint cs s)
      × ((verify_all j fingerprint cs s).issuer_id ≡ s.issuer_id)
unfolding verify_all
verify_all-keeps j fingerprint [] s key held h b = (h, refl)
verify_all-keeps j fingerprint (c ∷ cs) s key held h b =
    let r = verify_attestation j fingerprint s c.issuers c.now c.token c.context in
    let effect = verify_attestation-Effect j s c.now fingerprint c.issuers c.token c.context in
    let h' = Effect-keeps j s c.now c.token c.context _ r key held effect h b.0 in
    let (h'', same) = verify_all-keeps j fingerprint cs r.0 key held h' b.1 in
    (h'', same ∙ Effect-issuer j s c.now c.token c.context _ r effect)

-- When the registry lets go of an accepted token.
abbrev pub held_until : (j : Jwt) → CryptoService j → ℕ → ℕ → ℕ
held_until j s now exp = expiry_of now (some (exp * ticks_per_second)) s.jti_registry.ttl

-- The key under which the service registers an identifier of an issuer.
abbrev pub slot_key : (j : Jwt) → CryptoService j → Text → Text → Text
slot_key j s iss jti = registry_key s.issuer_id iss jti

-- If the registry lists no identifier twice and a token is accepted, then until its slot ends (the
-- later of its expiry and the retention time), no token that registers under the same key is
-- accepted, whatever calls of verify_attestation read the clock before that and come in between.
pub verify_attestation-no_replay :
    (j : Jwt) (fingerprint : j.PublicKey → Text) (s : CryptoService j) (first second : Call j)
    (between : List (Call j)) (claims claims' : QwedClaims)
    → Unique s.jti_registry.seen
    → (a : Accepted j fingerprint s first.issuers first.now first.token first.context claims)
    → BeforeAll j (held_until j s first.now a.exp) between
    → second.now < held_until j s first.now a.exp
    → (b : Accepted j fingerprint
        (verify_all j fingerprint between
          (verify_attestation j fingerprint s first.issuers first.now first.token first.context).0)
        second.issuers
        second.now
        second.token
        second.context
        claims')
    → slot_key j s b.candidate.owner b.jti ≢ slot_key j s a.candidate.owner a.jti
verify_attestation-no_replay j fingerprint s first second between claims claims' u a before soon b
      same =
    let s1 =
      (verify_attestation j fingerprint s first.issuers first.now first.token first.context).0 in
    let key = slot_key j s a.candidate.owner a.jti in
    let held = held_until j s first.now a.exp in
    let holds : Holds j key held s1 = rw a.registry_left (
      check-Unique key first.now (some (a.exp * ticks_per_second)) s.jti_registry u,
      registered key first.now (some (a.exp * ticks_per_second)) s.jti_registry a.is_fresh,
    ) in
    let s2 = verify_all j fingerprint between s1 in
    let (later, issuer) = verify_all-keeps j fingerprint between s1 key held holds before in
    let issuer' = Effect-issuer j s first.now first.token first.context _ _ (
      verify_attestation-Effect j s first.now fingerprint first.issuers first.token
        first.context) in
    let key' : slot_key j s2 b.candidate.owner b.jti ≡ key =
      ap (λ i. registry_key i b.candidate.owner b.jti) (issuer ∙ issuer') ∙ same in
    let late =
      (check_iff (slot_key j s2 b.candidate.owner b.jti) second.now
          (some (b.exp * ticks_per_second)) s2.jti_registry later.0).0
        b.is_fresh held (rw key' later.1) in
    absurd (omega arith)
