-- ===== src/Trust/Trace.antt =====
-- Calls of `TrustBoundary` from any number of threads: since each method runs under the lock, they
-- are a sequence of calls. The well-formedness of the boundary, which every call keeps.
use qwed_a2a.Prelude.{
  ℕ, ◌≤◌, ◌*◌, ◌≡◌, refl, inl, inr, Bool, true, Option, none, List, [], ◌∷◌, arith, contains,
  contains-add, contains-discard, Bool-cases, is_some,
}
use qwed_a2a.Prelude.Int.{ℤ}
use qwed_a2a.Prelude.Text.{Text, Pair, text-Eq, pair-Eq}
use qwed_a2a.Dict.{
  Dict, lookup, Unique, lookup-insert, lookup-erase, lookup-drop_where, insert-Unique, erase-Unique,
  drop_where-Unique,
}
use qwed_a2a.Trust.Bucket.{TokenBucket, ticks_per_second}
use qwed_a2a.Trust.Entry.{Scope}
use qwed_a2a.Trust.Room.{
  AreBuckets, IsPairBucket-later, drop_cold-AreBuckets, take_token-AreBuckets,
}
use qwed_a2a.Trust.Decision.{evaluate_decides}
use qwed_a2a.Trust.{
  TrustBoundary, Readings, init, block_agent, trust_agent, revoke_agent, block_pair, unblock_pair,
  evict_expired_trust, evict_cold_buckets, take_token, admit, evaluate, within_minute,
}

-- A call, with what it reads of the clocks.
pub data Call : Type 0 where
  block : Text → Call
  trust : Text → Scope → Scope → Option ℤ → Text → ℕ → Call
  revoke : Text → Call
  block_two unblock_two : Text → Text → Call
  ask : Text → Text → Option Text → Readings → Call

unfoldable pub step : Call → TrustBoundary → TrustBoundary
step (block a) b = block_agent a b
step (trust a receivers types until by now) b = trust_agent a receivers types until by now b
step (revoke a) b = (revoke_agent a b).0
step (block_two s r) b = block_pair s r b
step (unblock_two s r) b = unblock_pair s r b
step (ask s r p t) b = (evaluate s r p t b).0

unfoldable pub run : List Call → TrustBoundary → TrustBoundary
run [] b = b
run (c ∷ cs) b = run cs (step c b)

-- When the boundary has last read the monotonic clock, if that was at `now` before the call.
abbrev pub after_call : Call → ℕ → ℕ
after_call (ask s r p t) now = t.mono
after_call _ now = now

-- The monotonic clock does not go back: the readings of the calls rise from `start` to `end`.
abbrev pub InOrder : ℕ → List Call → ℕ → Type 0
InOrder start [] end = start ≤ end
InOrder start (c ∷ cs) end = (start ≤ after_call c start) × InOrder (after_call c start) cs end

-- No agent has two entries, none is both blocked and trusted, and each bucket is one that
-- `evaluate` could have left.
pub record IsWellFormed (now : ℕ) (b : TrustBoundary) : Type 0 where
  pub distinct : Unique b.trusted_agents
  pub disjoint : (a : Text) → contains a b.blocked_agents ≡ true → lookup a b.trusted_agents ≡ none
  pub buckets : AreBuckets b.max_requests_per_minute now b.rate_limits
  pub ttl : b.eviction_ttl ≡ 300 * ticks_per_second

pub IsWellFormed-init : (max : ℕ) (allow : Bool) → IsWellFormed 0 (init max allow)
unfolding init contains lookup
IsWellFormed-init max allow = record {
  distinct = tt;
  disjoint = λ a h. refl;
  buckets = record { distinct = tt; each = λ p k h. cc };
  ttl = refl;
}

AreBuckets-later :
    (max now later : ℕ) (d : Dict Pair TokenBucket)
    → now ≤ later
    → AreBuckets max now d
    → AreBuckets max later d
AreBuckets-later max now later d h v = record {
  distinct = v.distinct;
  each = λ p k found. IsPairBucket-later max now later k h (v.each p k found);
}

module _ (now : ℕ) (b : TrustBoundary) (w : IsWellFormed now b) where
  block_agent-IsWellFormed : (a : Text) → IsWellFormed now (block_agent a b)
  unfolding block_agent
  block_agent-IsWellFormed a = record {
    distinct = erase-Unique a b.trusted_agents w.distinct;
    disjoint =
        λ j h. rw lookup-erase (ground (arith, contains-add a j b.blocked_agents, w.disjoint j));
    buckets = w.buckets;
    ttl = w.ttl;
  }

  trust_agent-IsWellFormed :
      (a : Text) (receivers types : Scope) (until : Option ℤ) (by : Text) (at : ℕ)
      → IsWellFormed now (trust_agent a receivers types until by at b)
  unfolding trust_agent
  trust_agent-IsWellFormed a receivers types until by at = record {
    distinct = insert-Unique a _ b.trusted_agents w.distinct;
    disjoint = λ j h.
        rw lookup-insert (ground (arith, contains-discard a j b.blocked_agents, w.disjoint j));
    buckets = w.buckets;
    ttl = w.ttl;
  }

  revoke_agent-IsWellFormed : (a : Text) → IsWellFormed now (revoke_agent a b).0
  unfolding revoke_agent
  revoke_agent-IsWellFormed a = elim (Bool-cases (is_some (lookup a b.trusted_agents))) [
    | inl known ↦ rw known (record {
      distinct = erase-Unique a b.trusted_agents w.distinct;
      disjoint = λ j h. rw lookup-erase (ground (arith, w.disjoint j));
      buckets = w.buckets;
      ttl = w.ttl;
    })
    | inr unknown ↦ rw unknown w
  ]

  pub evict_expired-IsWellFormed :
      (wall mono : ℕ) → IsWellFormed now (evict_expired_trust wall mono b)
  unfolding evict_expired_trust
  evict_expired-IsWellFormed wall mono =
      elim (Bool-cases (within_minute mono b.last_trust_eviction_mono)) [
        | inl soon ↦ rw soon w
        | inr due ↦ rw due (record {
          distinct = drop_where-Unique _ b.trusted_agents w.distinct;
          disjoint = λ j h. rw (lookup-drop_where, w.distinct) (rw (w.disjoint j h));
          buckets = w.buckets;
          ttl = w.ttl;
        })
      ]

  evict_cold-IsWellFormed : IsWellFormed now (evict_cold_buckets now b)
  unfolding evict_cold_buckets
  evict_cold-IsWellFormed = elim (Bool-cases (within_minute now b.last_eviction)) [
    | inl soon ↦ rw soon w
    | inr due ↦ rw due (record {
      distinct = w.distinct;
      disjoint = w.disjoint;
      buckets = drop_cold-AreBuckets b now w.buckets;
      ttl = w.ttl;
    })
  ]

  take_token-IsWellFormed : (p : Pair) → IsWellFormed now (take_token p now b).0
  unfolding take_token
  take_token-IsWellFormed p = record {
    distinct = w.distinct;
    disjoint = w.disjoint;
    buckets = take_token-AreBuckets b now p w.buckets;
    ttl = w.ttl;
  }

  pub IsWellFormed-later : (later : ℕ) → now ≤ later → IsWellFormed later b
  IsWellFormed-later later h = record {
    distinct = w.distinct;
    disjoint = w.disjoint;
    buckets = AreBuckets-later b.max_requests_per_minute now later b.rate_limits h w.buckets;
    ttl = w.ttl;
  }

-- The two evictions and the token of a call that the checks let through.
abbrev pub swept : Readings → TrustBoundary → TrustBoundary
swept t b = evict_cold_buckets t.mono (evict_expired_trust t.wall t.mono_trust b)

pub admit_lem :
    (s r : Text) (t : Readings) (b : TrustBoundary)
    → let (b', allowed) = take_token (s, r) t.mono (swept t b) in
      ((admit s r t b).0 ≡ b') × ((admit s r t b).1.0 ≡ allowed)
unfolding admit
admit_lem s r t b = ground arith

module _ (s r : Text) (p : Option Text) (t : Readings) {now : ℕ} (b : TrustBoundary)
    (w : IsWellFormed now b) (h : now ≤ t.mono) where
  pub swept-IsWellFormed : IsWellFormed t.mono (swept t b)
  swept-IsWellFormed = evict_cold-IsWellFormed t.mono (evict_expired_trust t.wall t.mono_trust b) (
      evict_expired-IsWellFormed t.mono b (IsWellFormed-later now b w t.mono h) t.wall t.mono_trust)

  evaluate-IsWellFormed : IsWellFormed t.mono (evaluate s r p t b).0
  evaluate-IsWellFormed = elim (evaluate_decides s r p t b) [
    | inl (_, e) ↦
        rw (e, (admit_lem s r t b).0)
          (take_token-IsWellFormed t.mono (swept t b) swept-IsWellFormed (s, r))
    | inr (_, (reason, e)) ↦ rw e (IsWellFormed-later now b w t.mono h)
  ]

pub step-IsWellFormed :
    (c : Call) {now : ℕ} (b : TrustBoundary)
    → IsWellFormed now b
    → now ≤ after_call c now
    → IsWellFormed (after_call c now) (step c b)
unfolding step block_pair unblock_pair
step-IsWellFormed (block a) {now} b w h = block_agent-IsWellFormed now b w a
step-IsWellFormed (trust a receivers types until by at) {now} b w h =
    trust_agent-IsWellFormed now b w a receivers types until by at
step-IsWellFormed (revoke a) {now} b w h = revoke_agent-IsWellFormed now b w a
step-IsWellFormed (block_two s r) b w h = record {
  distinct = w.distinct;
  disjoint = w.disjoint;
  buckets = w.buckets;
  ttl = w.ttl;
}
step-IsWellFormed (unblock_two s r) b w h = record {
  distinct = w.distinct;
  disjoint = w.disjoint;
  buckets = w.buckets;
  ttl = w.ttl;
}
step-IsWellFormed (ask s r p t) b w h = evaluate-IsWellFormed s r p t b w h

-- From a well-formed boundary, any calls in the order of the monotonic clock lead to a well-formed
-- one: no agent has two entries, none is both blocked and trusted, no pair has two buckets, and
-- each bucket has the capacity and rate of its boundary, holds between zero and its capacity, and
-- was last refilled in the past.
pub run-IsWellFormed :
    (cs : List Call) {start end : ℕ} (b : TrustBoundary)
    → IsWellFormed start b
    → InOrder start cs end
    → IsWellFormed end (run cs b)
unfolding run
run-IsWellFormed [] {start} {end} b w o = IsWellFormed-later start b w end o
run-IsWellFormed (c ∷ cs) b w o = run-IsWellFormed cs (step c b) (step-IsWellFormed c b w o.0) o.1
