-- ===== src/Crypto/Sample.antt =====
-- A token library for examples: a token lists its fields, each behind its length, the first of them
-- the signing key, which is its own public key.
use mathlib.Core.Option.{some-injective}
use qwed_a2a.Prelude.{
  subst, ℕ, zero, suc, ◌*◌, ◌<◌, ◌≤◌, ◌≡◌, refl, ap, ◌∙◌, Option, none, some, List, [], ◌∷◌, ◌++◌,
  arith, if◌then◌else◌, ◌==◌, ==_iff, leb, ltb, length, take, drop,
}
use qwed_a2a.Prelude.Text.{Text, text-Eq}
use qwed_a2a.Trust.Bucket.{ticks_per_second}
use qwed_a2a.Crypto.Service.{Jwt, KeyPair, Claims, Decoded, complete, expired, invalid}
use qwed_a2a.Crypto.Verify.RoundTrip.{Decodes}

abbrev pub pack : List Text → Text
pack [] = []
pack (t ∷ ts) = length t ∷ (t ++ pack ts)

abbrev unpack : ℕ → Text → List Text
unpack zero xs = []
unpack (suc n) [] = []
unpack (suc n) (x ∷ xs) = take x xs ∷ unpack n (drop x xs)

take-append : (t u : Text) → take (length t) (t ++ u) ≡ t
take-append [] u = refl
take-append (c ∷ t) u = ap (λ x. c ∷ x) (take-append t u)

drop-append : (t u : Text) → drop (length t) (t ++ u) ≡ u
drop-append [] u = refl
drop-append (c ∷ t) u = drop-append t u

unpack-pack : (ts : List Text) → unpack (length ts) (pack ts) ≡ ts
unpack-pack [] = refl
unpack-pack (t ∷ ts) = rw (take-append, drop-append, unpack-pack ts) refl

abbrev session_field : Option Text → Text
session_field none = []
session_field (some t) = 1 ∷ t

abbrev read_session : Text → Option Text
read_session [] = none
read_session (c ∷ t) = some t

read_session-session_field : (o : Option Text) → read_session (session_field o) ≡ o
read_session-session_field none = refl
read_session-session_field (some t) = refl

abbrev pub fields : Text → Text → Claims → List Text
fields key_id key c =
    key
    ∷ key_id
    ∷ c.iss
    ∷ c.sub
    ∷ (c.iat ∷ [])
    ∷ (c.exp ∷ [])
    ∷ c.jti
    ∷ c.qwed_a2a.version
    ∷ c.qwed_a2a.verdict
    ∷ c.qwed_a2a.engine
    ∷ c.qwed_a2a.sender
    ∷ c.qwed_a2a.receiver
    ∷ c.qwed_a2a.deployment_id
    ∷ session_field c.qwed_a2a.session_id
    ∷ []

abbrev read_fields : ℕ → Text → List Text → Decoded
read_fields now key
      (signer
        ∷ key_id
        ∷ iss
        ∷ sub
        ∷ (iat ∷ [])
        ∷ (exp ∷ [])
        ∷ jti
        ∷ version
        ∷ verdict
        ∷ engine
        ∷ sender
        ∷ receiver
        ∷ deployment_id
        ∷ session
        ∷ []) =
    if signer == key
    then if ltb now (iat * ticks_per_second)
      then invalid
      else if leb (exp * ticks_per_second) now
      then expired
      else complete iss sub jti exp
          (some (record {
            version = version;
            verdict = verdict;
            engine = engine;
            sender = sender;
            receiver = receiver;
            deployment_id = deployment_id;
            session_id = read_session session;
          }))
          (some key_id)
    else invalid
read_fields now key _ = invalid

abbrev pub sample_jwt : Jwt
sample_jwt = record {
  PrivateKey = Text;
  PublicKey = Text;
  encode = λ key_id key claims. some (pack (fields key_id key claims));
  decode = λ now key token. read_fields now key (unpack 14 token);
}

abbrev pub sample_pair : Text → Text → KeyPair sample_jwt
sample_pair key_id key = record { key_id = key_id; private_key = key; public_key = key }

abbrev pub sample_keys : KeyPair sample_jwt
sample_keys = sample_pair (7 ∷ []) (8 ∷ [])

read_fields-fields :
    (key_id key : Text) (claims : Claims) (now : ℕ)
    → claims.iat * ticks_per_second ≤ now
    → now < claims.exp * ticks_per_second
    → read_fields now key (fields key_id key claims)
      ≡ complete claims.iss claims.sub claims.jti claims.exp (some claims.qwed_a2a) (some key_id)
read_fields-fields key_id key claims now begun alive =
    rw (read_session-session_field claims.qwed_a2a.session_id) (ground (arith, ==_iff key key))

pub sample-Decodes : (key_id key : Text) → Decodes sample_jwt (sample_pair key_id key)
sample-Decodes key_id key claims token now encoded begun alive =
    let ts = fields key_id key claims in
    subst
      (λ t.
        read_fields now key (unpack 14 t)
        ≡ complete claims.iss claims.sub claims.jti claims.exp (some claims.qwed_a2a) (some key_id))
      (some-injective (pack ts) token encoded)
      (ap (read_fields now key) (unpack-pack ts)
        ∙ read_fields-fields key_id key claims now begun alive)
