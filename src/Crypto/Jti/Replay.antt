-- ===== src/Crypto/Jti/Replay.antt =====
-- What `JtiRegistry` promises: no token identifier is accepted twice while the first token that
-- carried it lives, expired entries are dropped, and nothing else is refused.
use qwed_a2a.Prelude.{
  ℕ, ◌+◌, ◌≤◌, ◌<◌, ◌≡◌, ◌≢◌, ◌↔◌, refl, inl, inr, true, false, Option, none, some, List, [], ◌∷◌,
  arith, ==_iff, leb, is_some, if◌then◌else◌, Bool-cases,
}
use qwed_a2a.Prelude.Text.{Text, text-Eq}
use qwed_a2a.Dict.{
  lookup, insert, Unique, Each, unless, lookup-insert, lookup-erase, lookup-drop_where,
  insert-Unique, erase-Unique, drop_where-Unique, insert-Each,
}
use qwed_a2a.Crypto.Jti.{JtiRegistry, expiry_of, evict, check_and_register, release}

-- The entry of an identifier, unless it has expired.
abbrev pub live : Text → ℕ → JtiRegistry → Option ℕ
live jti now r = unless (λ expiry. leb expiry now) (lookup jti r.seen)

lookup-evict :
    (jti : Text) (now : ℕ) (r : JtiRegistry)
    → Unique r.seen
    → lookup jti (evict now r).seen ≡ live jti now r
unfolding evict
lookup-evict jti now r u = lookup-drop_where _ jti r.seen u

check_lem :
    (jti : Text) (now : ℕ) (valid_until : Option ℕ) (r : JtiRegistry)
    → check_and_register jti now valid_until r ≡ (
        if is_some (lookup jti (evict now r).seen) then (evict now r, false) else (
          record r { seen = insert jti (expiry_of now valid_until r.ttl) (evict now r).seen },
          true,
        ))
unfolding check_and_register evict
check_lem jti now valid_until r = refl

evict-Unique : (now : ℕ) (r : JtiRegistry) → Unique r.seen → Unique (evict now r).seen
unfolding evict
evict-Unique now r u = drop_where-Unique _ r.seen u

expired_iff :
    (now : ℕ) (o : Option ℕ)
    → (is_some (unless (λ expiry. leb expiry now) o) ≡ false)
      ↔ ((expiry : ℕ) → o ≡ some expiry → expiry ≤ now)
expired_iff now none = (λ h expiry e. absurd (cc), λ h. refl)
expired_iff now (some x) = (λ h expiry e. ground arith, λ h. ground (arith, h x refl))

pub accepted_iff :
    (jti : Text) (now : ℕ) (valid_until : Option ℕ) (r : JtiRegistry)
    → ((check_and_register jti now valid_until r).1 ≡ true)
      ↔ (is_some (lookup jti (evict now r).seen) ≡ false)
accepted_iff jti now valid_until r = rw (check_lem jti now valid_until r) (ground arith)

-- A registry that lists no identifier twice accepts an identifier exactly if any entry of it has
-- expired.
pub check_iff :
    (jti : Text) (now : ℕ) (valid_until : Option ℕ) (r : JtiRegistry)
    → Unique r.seen
    → ((check_and_register jti now valid_until r).1 ≡ true)
      ↔ ((expiry : ℕ) → lookup jti r.seen ≡ some expiry → expiry ≤ now)
check_iff jti now valid_until r u =
    let test : (is_some (lookup jti (evict now r).seen) ≡ false)
        ↔ ((expiry : ℕ) → lookup jti r.seen ≡ some expiry → expiry ≤ now) =
      rw (lookup-evict jti now r u) (expired_iff now (lookup jti r.seen)) in
    let accepted = accepted_iff jti now valid_until r in
    (λ h. test.0 (accepted.0 h), λ h. accepted.1 (test.1 h))

pub check-Unique :
    (jti : Text) (now : ℕ) (valid_until : Option ℕ) (r : JtiRegistry)
    → Unique r.seen
    → Unique (check_and_register jti now valid_until r).0.seen
check-Unique jti now valid_until r u = elim (Bool-cases (is_some (lookup jti (evict now r).seen))) [
  | inl known ↦ rw (check_lem jti now valid_until r, known) (evict-Unique now r u)
  | inr new ↦
      rw (check_lem jti now valid_until r, new)
        (insert-Unique jti _ (evict now r).seen (evict-Unique now r u))
]

-- The entry of an identifier after a call for another one, or for itself.
pub lookup-check :
    (j jti : Text) (now : ℕ) (valid_until : Option ℕ) (r : JtiRegistry) {expiry : ℕ}
    → Unique r.seen
    → lookup j r.seen ≡ some expiry
    → now < expiry
    → lookup j (check_and_register jti now valid_until r).0.seen ≡ some expiry
lookup-check j jti now valid_until r {expiry} u found alive =
    let kept : lookup j (evict now r).seen ≡ some expiry =
      rw (lookup-evict j now r u, found) (ground arith) in
    elim (Bool-cases (is_some (lookup jti (evict now r).seen))) [
      | inl known ↦ rw (check_lem jti now valid_until r, known) kept
      | inr new ↦
          rw (check_lem jti now valid_until r, new, lookup-insert) (ground (arith, ==_iff jti j))
    ]

-- Calls of the registry.
pub data Use : Type 0 where
  check : Text → ℕ → Option ℕ → Use
  withdraw : Text → Use

pub run : List Use → JtiRegistry → JtiRegistry
run [] r = r
run (check jti now valid_until ∷ us) r = run us (check_and_register jti now valid_until r).0
run (withdraw jti ∷ us) r = run us (release jti r)

-- Every call reads the clock before `expiry`, and none withdraws the identifier.
abbrev pub Before : Text → ℕ → List Use → Type 0
Before jti expiry [] = Unit
Before jti expiry (check j now valid_until ∷ us) = (now < expiry) × Before jti expiry us
Before jti expiry (withdraw j ∷ us) = (j ≢ jti) × Before jti expiry us

entry_stays :
    (jti : Text) (expiry : ℕ) (us : List Use) (r : JtiRegistry)
    → Unique r.seen
    → lookup jti r.seen ≡ some expiry
    → Before jti expiry us
    → Unique (run us r).seen × (lookup jti (run us r).seen ≡ some expiry)
unfolding run release
entry_stays jti expiry [] r u found h = (u, found)
entry_stays jti expiry (check j now valid_until ∷ us) r u found h =
    entry_stays jti expiry us (check_and_register j now valid_until r).0
      (check-Unique j now valid_until r u) (lookup-check jti j now valid_until r u found h.0) h.1
entry_stays jti expiry (withdraw j ∷ us) r u found h =
    entry_stays jti expiry us (release j r) (erase-Unique j r.seen u)
      (rw lookup-erase (ground (arith, ==_iff j jti))) h.1

pub registered :
    (jti : Text) (now : ℕ) (valid_until : Option ℕ) (r : JtiRegistry)
    → (check_and_register jti now valid_until r).1 ≡ true
    → lookup jti (check_and_register jti now valid_until r).0.seen
      ≡ some (expiry_of now valid_until r.ttl)
registered jti now valid_until r h =
    let new = (accepted_iff jti now valid_until r).0 h in
    rw (check_lem jti now valid_until r, new, lookup-insert) (ground (arith, ==_iff jti jti))

-- If a registry lists no identifier twice and accepts an identifier, then it refuses that
-- identifier at every time before the end of its retention (the later of now plus the retention
-- time and the expiry given), whatever calls come in between that read the clock before that end
-- and do not withdraw that identifier.
pub replay_denied :
    (jti : Text) (now later : ℕ) (valid_until other : Option ℕ) (us : List Use) (r : JtiRegistry)
    → Unique r.seen
    → (check_and_register jti now valid_until r).1 ≡ true
    → Before jti (expiry_of now valid_until r.ttl) us
    → later < expiry_of now valid_until r.ttl
    → (check_and_register jti later other (run us (check_and_register jti now valid_until r).0)).1
      ≡ false
replay_denied jti now later valid_until other us r u accepted h alive =
    let (u', found) =
      entry_stays jti (expiry_of now valid_until r.ttl) us
        (check_and_register jti now valid_until r).0 (check-Unique jti now valid_until r u)
        (registered jti now valid_until r accepted) h in
    let r' = run us (check_and_register jti now valid_until r).0 in
    rw (check_lem jti later other r', lookup-evict jti later r' u', found) (ground arith)

-- The slot is kept at least for the retention time and at least to the token's expiry.
pub expiry_of_covers :
    (now ttl : ℕ) (valid_until : ℕ)
    → (now + ttl ≤ expiry_of now (some valid_until) ttl)
      × (valid_until ≤ expiry_of now (some valid_until) ttl)
unfolding expiry_of
expiry_of_covers now ttl valid_until = ground arith

expiry_of-later :
    (now : ℕ) (valid_until : Option ℕ) (ttl : ℕ) → 0 < ttl → now < expiry_of now valid_until ttl
unfolding expiry_of
expiry_of-later now valid_until ttl pos = ground arith

evicted_live :
    (now : ℕ) (r : JtiRegistry) → Unique r.seen → Each (λ expiry. now < expiry) (evict now r).seen
evicted_live now r u j expiry h = ground (arith, lookup-evict j now r u)

-- If a registry lists no identifier twice and its retention time is positive, then after
-- check_and_register every entry expires in the future, so expired entries do not accumulate.
check_keeps_live :
    (jti : Text) (now : ℕ) (valid_until : Option ℕ) (r : JtiRegistry)
    → Unique r.seen
    → 0 < r.ttl
    → Each (λ expiry. now < expiry) (check_and_register jti now valid_until r).0.seen
check_keeps_live jti now valid_until r u pos =
    elim (Bool-cases (is_some (lookup jti (evict now r).seen))) [
      | inl known ↦ rw (check_lem jti now valid_until r, known) (evicted_live now r u)
      | inr new ↦
          rw (check_lem jti now valid_until r, new)
            (insert-Each (λ expiry. now < expiry) jti (expiry_of now valid_until r.ttl)
              (evict now r).seen (evicted_live now r u) (expiry_of-later now valid_until r.ttl pos))
    ]
