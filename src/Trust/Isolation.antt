-- ===== src/Trust/Isolation.antt =====
-- What an answer of `TrustBoundary.evaluate` does not depend on: an expired grant, and, for a sender
-- that is not trusted, whatever is configured for the receiver.
use qwed_a2a.Prelude.{
  ℕ, ◌≡◌, refl, inl, inr, Bool, false, not, Option, some, arith, Bool-cases, ==_iff,
}
use qwed_a2a.Prelude.Text.{Text, Pair, text-Eq, pair-Eq}
use qwed_a2a.Dict.{Dict, lookup, erase, drop_where, lookup-erase}
use qwed_a2a.Trust.Entry.{TrustEntry, is_valid, nullify_if_expired, sender_scope_blocks}
use qwed_a2a.Trust.Decision.{Live, Live-cases}
use qwed_a2a.Trust.Trace.{swept}
use qwed_a2a.Trust.{
  TrustBoundary, Readings, check_trust, admit, take_token, evict_cold_buckets, evict_expired_trust,
  evaluate, within_minute,
}

-- The boundary with other trust entries.
abbrev pub with_entries : Dict Text TrustEntry → TrustBoundary → TrustBoundary
with_entries d b = record b { trusted_agents = d }

-- The rate limiter does not read the trust entries.
take_token-with_entries :
    (q : Pair) (now : ℕ) (d : Dict Text TrustEntry) (b : TrustBoundary)
    → ((take_token q now (with_entries d b)).1 ≡ (take_token q now b).1)
      × ((take_token q now (with_entries d b)).0.max_requests_per_minute
          ≡ (take_token q now b).0.max_requests_per_minute)
unfolding take_token
take_token-with_entries q now d b = (refl, refl)

swept-with_entries :
    (t : Readings) (d : Dict Text TrustEntry) (b : TrustBoundary)
    → (d' : Dict Text TrustEntry) × (swept t (with_entries d b) ≡ with_entries d' (swept t b))
unfolding evict_cold_buckets evict_expired_trust
swept-with_entries t d b =
    elim (Bool-cases (within_minute t.mono_trust b.last_trust_eviction_mono)) [
      | inl soon ↦ elim (Bool-cases (within_minute t.mono b.last_eviction)) [
        | inl fresh ↦ (d, rw (soon, fresh))
        | inr stale ↦ (d, rw (soon, stale))
      ]
      | inr due ↦ elim (Bool-cases (within_minute t.mono b.last_eviction)) [
        | inl fresh ↦ (drop_where (λ entry. not (is_valid entry t.wall)) d, rw (due, fresh))
        | inr stale ↦ (drop_where (λ entry. not (is_valid entry t.wall)) d, rw (due, stale))
      ]
    ]

admit-with_entries :
    (s r : Text) (t : Readings) (d : Dict Text TrustEntry) (b : TrustBoundary)
    → (admit s r t (with_entries d b)).1 ≡ (admit s r t b).1
unfolding admit
admit-with_entries s r t d b =
    let (d', e) = swept-with_entries t d b in
    let same = take_token-with_entries (s, r) t.mono d' (swept t b) in
    rw (e, same.0, same.1) (ground arith)

expired_is_none :
    (a j : Text) (now : ℕ) (e : TrustEntry) (b : TrustBoundary)
    → lookup a b.trusted_agents ≡ some e
    → is_valid e now ≡ false
    → nullify_if_expired (lookup j (erase a b.trusted_agents)) now
      ≡ nullify_if_expired (lookup j b.trusted_agents) now
unfolding nullify_if_expired
expired_is_none a j now e b found expired = rw lookup-erase (ground (arith, ==_iff a j))

check_trust-expired :
    (a s r : Text) (p : Option Text) (now : ℕ) (enforce : Bool) (e : TrustEntry) (b : TrustBoundary)
    → lookup a b.trusted_agents ≡ some e
    → is_valid e now ≡ false
    → check_trust s r p now enforce (with_entries (erase a b.trusted_agents) b)
      ≡ check_trust s r p now enforce b
unfolding check_trust
check_trust-expired a s r p now enforce e b found expired =
    rw (expired_is_none a s now e b found expired, expired_is_none a r now e b found expired)

-- If an agent has a grant that has expired, evaluate gives the answer that it gives with the grant
-- removed.
pub evaluate-expired :
    (a s r : Text) (p : Option Text) (t : Readings) (e : TrustEntry) (b : TrustBoundary)
    → lookup a b.trusted_agents ≡ some e
    → is_valid e t.wall ≡ false
    → (evaluate s r p t (with_entries (erase a b.trusted_agents) b)).1 ≡ (evaluate s r p t b).1
unfolding evaluate
evaluate-expired a s r p t e b found expired =
    rw (check_trust-expired a s r p t.wall (not b.default_allow) e b found expired)
      (ground (arith, admit-with_entries s r t (erase a b.trusted_agents) b))

-- With default_allow unset, a sender without an unexpired grant is refused, and the answer stays
-- the same when the entries of all other agents, the receiver among them, are changed in any way.
pub evaluate-untrusted_sender :
    (s r : Text) (p : Option Text) (t : Readings) (d : Dict Text TrustEntry) (b : TrustBoundary)
    → b.default_allow ≡ false
    → ((e : TrustEntry) → ¬ Live b s t.wall e)
    → lookup s d ≡ lookup s b.trusted_agents
    → ((evaluate s r p t b).1.0 ≡ false)
      × ((evaluate s r p t (with_entries d b)).1 ≡ (evaluate s r p t b).1)
unfolding evaluate check_trust sender_scope_blocks
evaluate-untrusted_sender s r p t d b closed never same = elim (Live-cases s t.wall b) [
  | inl (e, found, live) ↦ absurd (never e live)
  | inr (gone, _) ↦ ground arith
]
