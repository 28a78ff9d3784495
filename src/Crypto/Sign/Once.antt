-- ===== src/Crypto/Sign/Once.antt =====
-- What `sign_verdict` promises: a token only for a known verdict, one for a trace, and a trace that is
-- free again if encoding fails.
use qwed_a2a.Prelude.{
  ℕ, ◌/◌, ◌<◌, ◌≤◌, ◌≡◌, refl, ◌≢◌, Bool, true, Option, none, some, arith, Bool-cases, inl, inr,
  ==_iff, List, [], ◌∷◌,
}
use qwed_a2a.Prelude.Text.{Text, text-Eq}
use qwed_a2a.Dict.{lookup, lookup-erase, erase-Unique, Unique}
use qwed_a2a.Schema.{VerdictStatus, status_of_value}
use qwed_a2a.Trust.Bucket.{ticks_per_second}
use qwed_a2a.Crypto.Jti.{JtiRegistry, check_and_register, release, expiry_of}
use qwed_a2a.Crypto.Jti.Replay.{check_iff, check-Unique, lookup-check, registered}
use qwed_a2a.Crypto.Service.{Jwt, KeyPair, CryptoService}
use qwed_a2a.Crypto.Sign.{
  ok, err, SignRequest, claims_of, expiry, encode_or_release, reserve_and_sign, sign_with,
  sign_verdict, encoding_failed, ok, err,
}

-- What a successful call has done.
pub record Issued (j : Jwt) (s : CryptoService j) (q : SignRequest) (wall wall_registry : ℕ)
    (token : Text) : Type 0 where
  pub status : VerdictStatus
  pub is_status : status_of_value q.verdict_status ≡ some status
  pub keys : KeyPair j
  pub has_keys : s.key_pair ≡ some keys
  pub reserved :
      (check_and_register q.trace_id wall_registry (some (expiry j s wall)) s.issued_registry).1
      ≡ true
  pub encoded :
      j.encode keys.key_id keys.private_key (claims_of j s q status (wall / ticks_per_second))
      ≡ some token
  pub left :
      (sign_verdict j s q wall wall_registry).0.issued_registry
      ≡ (check_and_register q.trace_id wall_registry (some (expiry j s wall)) s.issued_registry).0

-- The issuance record holds a trace until a time.
abbrev pub Holds : (j : Jwt) → Text → ℕ → CryptoService j → Type 0
Holds j trace held s =
    Unique s.issued_registry.seen × (lookup trace s.issued_registry.seen ≡ some held)

module _ (j : Jwt) (s : CryptoService j) (q : SignRequest) (wall wall_registry : ℕ) where
  abbrev attempt : JtiRegistry × Bool
  attempt = check_and_register q.trace_id wall_registry (some (expiry j s wall)) s.issued_registry

  reserve-ok :
      (verdict : VerdictStatus) (keys : KeyPair j) (token : Text)
      → (reserve_and_sign j s q verdict keys wall wall_registry).1 ≡ ok token
      → (attempt.1 ≡ true)
        × (j.encode keys.key_id keys.private_key (claims_of j s q verdict (wall / ticks_per_second))
            ≡ some token)
        × ((reserve_and_sign j s q verdict keys wall wall_registry).0.issued_registry ≡ attempt.0)
  unfolding reserve_and_sign encode_or_release
  reserve-ok verdict keys token h = ground arith

  sign_with-ok :
      (o : Option VerdictStatus) (k : Option (KeyPair j)) (token : Text)
      → (sign_with j s q o k wall wall_registry).1 ≡ ok token
      → (verdict : VerdictStatus) × (o ≡ some verdict)
        × ((keys : KeyPair j) × (k ≡ some keys)
            × (attempt.1 ≡ true)
            × (j.encode keys.key_id keys.private_key
                  (claims_of j s q verdict (wall / ticks_per_second))
                ≡ some token)
            × ((sign_with j s q o k wall wall_registry).0.issued_registry ≡ attempt.0))
  sign_with-ok none k token h = absurd (cc)
  sign_with-ok (some verdict) none token h = absurd (cc)
  sign_with-ok (some verdict) (some keys) token h =
      let (fresh, encoded, left) = reserve-ok verdict keys token h in
      (verdict, refl, (keys, refl, fresh, encoded, left))

  -- If sign_verdict returns a token, then the verdict is a known one, the service has a key pair,
  -- the issuance record accepted the trace, the token is the encoding of the claims of the request
  -- under the private key and its key id, and the issuance record is what the registration left.
  pub sign_verdict-ok :
      (token : Text)
      → (sign_verdict j s q wall wall_registry).1 ≡ ok token
      → Issued j s q wall wall_registry token
  unfolding sign_verdict
  sign_verdict-ok token h =
      let (verdict, known, (keys, has, fresh, encoded, left)) =
        sign_with-ok (status_of_value q.verdict_status) s.key_pair token h in
      record {
        status = verdict;
        is_status = known;
        keys = keys;
        has_keys = has;
        reserved = fresh;
        encoded = encoded;
        left = left;
      }

  -- A trace that is held is not reserved again.
  held_refused :
      (trace : Text) (held : ℕ)
      → Holds j trace held s
      → wall_registry < held
      → attempt.1 ≡ true
      → q.trace_id ≢ trace
  held_refused trace held h alive fresh same =
      let late =
        (check_iff q.trace_id wall_registry (some (expiry j s wall)) s.issued_registry h.0).0 fresh
          held (rw same h.1) in
      absurd (omega arith)

  reserve-keeps :
      (verdict : VerdictStatus) (keys : KeyPair j) (trace : Text) (held : ℕ)
      → Holds j trace held s
      → wall_registry < held
      → Holds j trace held (reserve_and_sign j s q verdict keys wall wall_registry).0
  unfolding reserve_and_sign encode_or_release release
  reserve-keeps verdict keys trace held h alive = ground (
    arith,
    ==_iff q.trace_id trace,
    held_refused trace held h alive,
    check-Unique q.trace_id wall_registry (some (expiry j s wall)) s.issued_registry h.0,
    lookup-check trace q.trace_id wall_registry (some (expiry j s wall)) s.issued_registry h.0 h.1
        alive,
    lookup-erase q.trace_id trace attempt.0.seen,
    erase-Unique q.trace_id attempt.0.seen,
  )

  sign_with-keeps :
      (o : Option VerdictStatus) (k : Option (KeyPair j)) (trace : Text) (held : ℕ)
      → Holds j trace held s
      → wall_registry < held
      → Holds j trace held (sign_with j s q o k wall wall_registry).0
  sign_with-keeps none k trace held h alive = h
  sign_with-keeps (some verdict) none trace held h alive = h
  sign_with-keeps (some verdict) (some keys) trace held h alive =
      reserve-keeps verdict keys trace held h alive

-- Calls of `sign_verdict`, each with its two clock readings.
pub sign_all : (j : Jwt) → List (SignRequest × ℕ × ℕ) → CryptoService j → CryptoService j
sign_all j [] s = s
sign_all j ((q, wall, wall_registry) ∷ qs) s =
    sign_all j qs (sign_verdict j s q wall wall_registry).0

abbrev pub BeforeAll : ℕ → List (SignRequest × ℕ × ℕ) → Type 0
BeforeAll held [] = Unit
BeforeAll held ((_, _, wall_registry) ∷ qs) = (wall_registry < held) × BeforeAll held qs

sign_all-keeps :
    (j : Jwt) (qs : List (SignRequest × ℕ × ℕ)) (s : CryptoService j) (trace : Text) (held : ℕ)
    → Holds j trace held s
    → BeforeAll held qs
    → Holds j trace held (sign_all j qs s)
unfolding sign_all sign_verdict
sign_all-keeps j [] s trace held h b = h
sign_all-keeps j ((q, wall, wall_registry) ∷ qs) s trace held h b =
    sign_all-keeps j qs (sign_verdict j s q wall wall_registry).0 trace held
      (sign_with-keeps j s q wall wall_registry (status_of_value q.verdict_status) s.key_pair trace
        held h b.0)
      b.1

-- When the issuance record lets go of a trace that was signed.
abbrev pub held_until : (j : Jwt) → CryptoService j → ℕ → ℕ → ℕ
held_until j s wall wall_registry =
    expiry_of wall_registry (some (expiry j s wall)) s.issued_registry.ttl

-- If the issuance record lists no trace twice and a token is issued for a trace, then until its
-- slot ends, no second token is issued for that trace, whatever is signed in between and whatever
-- verdict is asked for.
pub no_second_token :
    (j : Jwt) (s : CryptoService j) (q q' : SignRequest)
    (wall wall_registry wall' wall_registry' : ℕ) (qs : List (SignRequest × ℕ × ℕ))
    (token token' : Text)
    → Unique s.issued_registry.seen
    → (sign_verdict j s q wall wall_registry).1 ≡ ok token
    → BeforeAll (held_until j s wall wall_registry) qs
    → q'.trace_id ≡ q.trace_id
    → wall_registry' < held_until j s wall wall_registry
    → (sign_verdict j
        (sign_all j qs (sign_verdict j s q wall wall_registry).0)
        q'
        wall'
        wall_registry').1
      ≢ ok token'
no_second_token j s q q' wall wall_registry wall' wall_registry' qs token token' u first between
      same soon second =
    let issued = sign_verdict-ok j s q wall wall_registry token first in
    let s1 = (sign_verdict j s q wall wall_registry).0 in
    let holds : Holds j q.trace_id (held_until j s wall wall_registry) s1 = rw issued.left (
      check-Unique q.trace_id wall_registry (some (expiry j s wall)) s.issued_registry u,
      registered q.trace_id wall_registry (some (expiry j s wall)) s.issued_registry
          issued.reserved,
    ) in
    let later =
      sign_all-keeps j qs s1 q.trace_id (held_until j s wall wall_registry) holds between in
    let again = sign_verdict-ok j (sign_all j qs s1) q' wall' wall_registry' token' second in
    held_refused j (sign_all j qs s1) q' wall' wall_registry' q.trace_id
      (held_until j s wall wall_registry) later soon again.reserved same

-- The slot outlives the token.
pub held_until-covers :
    (j : Jwt) (s : CryptoService j) (wall wall_registry : ℕ)
    → expiry j s wall ≤ held_until j s wall wall_registry
unfolding expiry_of
held_until-covers j s wall wall_registry = ground arith

sign_with-rolls_back :
    (j : Jwt) (s : CryptoService j) (q : SignRequest) (wall wall_registry : ℕ)
    (o : Option VerdictStatus) (k : Option (KeyPair j))
    → (sign_with j s q o k wall wall_registry).1 ≡ err encoding_failed
    → lookup q.trace_id (sign_with j s q o k wall wall_registry).0.issued_registry.seen ≡ none
unfolding reserve_and_sign encode_or_release release
sign_with-rolls_back j s q wall wall_registry none k h = absurd (cc)
sign_with-rolls_back j s q wall wall_registry (some verdict) none h = absurd (cc)
sign_with-rolls_back j s q wall wall_registry (some verdict) (some keys) h = ground (
  arith,
  ==_iff q.trace_id q.trace_id,
  lookup-erase q.trace_id q.trace_id (attempt j s q wall wall_registry).0.seen,
)

encode-changes :
    (j : Jwt) (s : CryptoService j) (r : JtiRegistry) (trace_id : Text) (o : Option Text)
    → (r' : JtiRegistry) × ((encode_or_release j (record s { issued_registry = r }) trace_id o).0
        ≡ (record s { issued_registry = r' }))
unfolding encode_or_release
encode-changes j s r trace_id none = (release trace_id r, refl)
encode-changes j s r trace_id (some token) = (r, refl)

reserve-changes :
    (j : Jwt) (s : CryptoService j) (q : SignRequest) (wall wall_registry : ℕ)
    (verdict : VerdictStatus) (keys : KeyPair j)
    → (r : JtiRegistry) × ((reserve_and_sign j s q verdict keys wall wall_registry).0
        ≡ (record s { issued_registry = r }))
unfolding reserve_and_sign claims_of
reserve-changes j s q wall wall_registry verdict keys =
    let (registry, fresh) = attempt j s q wall wall_registry in
    let now = wall / ticks_per_second in
    let reserved : CryptoService j = record s { issued_registry = registry } in
    let encoded = j.encode keys.key_id keys.private_key (claims_of j reserved q verdict now) in
    elim (Bool-cases fresh) [
      | inl new ↦ let (r, is) = encode-changes j s registry q.trace_id encoded in (r, rw new is)
      | inr old ↦ (registry, rw old refl)
    ]

sign_with-changes :
    (j : Jwt) (s : CryptoService j) (q : SignRequest) (wall wall_registry : ℕ)
    (o : Option VerdictStatus) (k : Option (KeyPair j))
    → (r : JtiRegistry) × ((sign_with j s q o k wall wall_registry).0
        ≡ (record s { issued_registry = r }))
unfolding reserve_and_sign
sign_with-changes j s q wall wall_registry none k = (s.issued_registry, refl)
sign_with-changes j s q wall wall_registry (some verdict) none = (s.issued_registry, refl)
sign_with-changes j s q wall wall_registry (some verdict) (some keys) =
    reserve-changes j s q wall wall_registry verdict keys

-- Signing changes only the issuance record.
pub sign_verdict-changes :
    (j : Jwt) (s : CryptoService j) (q : SignRequest) (wall wall_registry : ℕ)
    → (r : JtiRegistry) × ((sign_verdict j s q wall wall_registry).0
        ≡ (record s { issued_registry = r }))
unfolding sign_verdict
sign_verdict-changes j s q wall wall_registry =
    sign_with-changes j s q wall wall_registry (status_of_value q.verdict_status) s.key_pair

-- If encoding fails, the trace is free again.
pub sign_verdict-rolls_back :
    (j : Jwt) (s : CryptoService j) (q : SignRequest) (wall wall_registry : ℕ)
    → (sign_verdict j s q wall wall_registry).1 ≡ err encoding_failed
    → lookup q.trace_id (sign_verdict j s q wall wall_registry).0.issued_registry.seen ≡ none
unfolding sign_verdict
sign_verdict-rolls_back j s q wall wall_registry h =
    sign_with-rolls_back j s q wall wall_registry (status_of_value q.verdict_status) s.key_pair h
