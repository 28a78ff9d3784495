-- ===== src/Trust/RateLimit.antt =====
-- How many requests of a pair `TrustBoundary` lets through in a period, whatever else is called in
-- between.
use qwed_a2a.Prelude.{
  ℕ, ◌+◌, ◌-◌, ◌*◌, ◌≤◌, ◌≡◌, ◌↔◌, refl, sym, ap, ◌∙◌, inl, inr, Bool, true, ◌&&◌, Option, none,
  some, List, [], ◌∷◌, arith, Bool-cases, ◌==◌, if◌then◌else◌,
}
use qwed_a2a.Prelude.Text.{Text, Pair, text-Eq, pair-Eq}
use qwed_a2a.Dict.{lookup}
use qwed_a2a.Trust.Bucket.{TokenBucket, one_token}
use qwed_a2a.Trust.Room.{room, room_of, IsPairBucket, evict_cold-room, take_token-room}
use qwed_a2a.Trust.Decision.{evaluate_decides, Permits}
use qwed_a2a.Trust.Trace.{
  Call, ask, step, run, InOrder, after_call, IsWellFormed, IsWellFormed-later, swept,
  swept-IsWellFormed, admit_lem, step-IsWellFormed, evict_expired-IsWellFormed,
}
use qwed_a2a.Trust.{
  TrustBoundary, Readings, block_agent, trust_agent, revoke_agent, block_pair, unblock_pair,
  evict_expired_trust, evict_cold_buckets, take_token, evaluate, within_minute,
}

-- Whether a call is a request of the pair that is let through.
pub given : Pair → Call → TrustBoundary → ℕ
given q (ask s r p t) b = if (s, r) == q && (evaluate s r p t b).1.0 then 1 else 0
given q _ b = 0

pub granted : Pair → List Call → TrustBoundary → ℕ
unfolding given
granted q [] b = 0
granted q (c ∷ cs) b = given q c b + granted q cs (step c b)

grow : (x y z c : ℕ) → x ≤ y → y ≤ z → (z - x) * c ≡ (y - x) * c + (z - y) * c
grow x y z c h k = grind arith

-- A bucket gains at most `max` units in a tick.
room_of-grows :
    (max now later : ℕ) (o : Option TokenBucket)
    → ((k : TokenBucket) → o ≡ some k → IsPairBucket max now k)
    → now ≤ later
    → room_of max o later ≤ room_of max o now + (later - now) * max
room_of-grows max now later none each h = omega arith
room_of-grows max now later (some k) each h =
    let v : IsPairBucket max now k = each k refl in
    rw v.rate (omega (arith, grow k.last_refill now later max v.past h, v.capacity))

expired-room :
    (wall mono now : ℕ) (b : TrustBoundary) (q : Pair)
    → room (evict_expired_trust wall mono b) q now ≡ room b q now
unfolding evict_expired_trust
expired-room wall mono now b q = elim (Bool-cases (within_minute mono b.last_trust_eviction_mono)) [
  | inl soon ↦ rw soon
  | inr due ↦ rw due
]

swept-room :
    (t : Readings) {now : ℕ} (b : TrustBoundary) (q : Pair)
    → IsWellFormed now b
    → now ≤ t.mono
    → room (swept t b) q t.mono ≡ room b q t.mono
swept-room t {now} b q w h =
    let w' =
      evict_expired-IsWellFormed t.mono b (IsWellFormed-later now b w t.mono h) t.wall
        t.mono_trust in
    evict_cold-room (evict_expired_trust t.wall t.mono_trust b) t.mono q w'.buckets w'.ttl
    ∙ expired-room t.wall t.mono_trust t.mono b q

max-swept :
    (t : Readings) (b : TrustBoundary)
    → (swept t b).max_requests_per_minute ≡ b.max_requests_per_minute
unfolding evict_cold_buckets evict_expired_trust
max-swept t b = ground arith

max-take_token :
    (p : Pair) (now : ℕ) (b : TrustBoundary)
    → (take_token p now b).0.max_requests_per_minute ≡ b.max_requests_per_minute
unfolding take_token
max-take_token p now b = refl

max-evaluate :
    (s r : Text) (p : Option Text) (t : Readings) (b : TrustBoundary)
    → (evaluate s r p t b).0.max_requests_per_minute ≡ b.max_requests_per_minute
max-evaluate s r p t b = elim (evaluate_decides s r p t b) [
  | inl (_, e) ↦
      rw (e, (admit_lem s r t b).0) (max-take_token (s, r) t.mono (swept t b) ∙ max-swept t b)
  | inr (_, (reason, e)) ↦ rw e
]

max-step :
    (c : Call) (b : TrustBoundary) → (step c b).max_requests_per_minute ≡ b.max_requests_per_minute
unfolding step block_agent trust_agent revoke_agent block_pair unblock_pair
max-step (ask s r p t) b = max-evaluate s r p t b
max-step _ b = ground arith

in_tokens :
    (x y : ℕ) (test : Bool)
    → x ≡ y + (if test then one_token else 0)
    → x ≡ y + (if test then 1 else 0) * one_token
in_tokens x y test h = ground arith

-- A request that is let through costs its pair one token.
evaluate-room :
    (q : Pair) (s r : Text) (p : Option Text) (t : Readings) {now : ℕ} (b : TrustBoundary)
    → IsWellFormed now b
    → now ≤ t.mono
    → room b q t.mono
      ≡ room (evaluate s r p t b).0 q t.mono
        + (if (s, r) == q && (evaluate s r p t b).1.0 then 1 else 0) * one_token
evaluate-room q s r p t b w h = elim (evaluate_decides s r p t b) [
  | inl (_, e) ↦
      let w' = swept-IsWellFormed s r p t b w h in
      let taken = (take_token-room (swept t b) t.mono (s, r) q w'.buckets).0 in
      rw (e, (admit_lem s r t b).0, (admit_lem s r t b).1)
        (in_tokens _ _ _ (sym (swept-room t b q w h) ∙ taken))
  | inr (_, (reason, e)) ↦ rw e (in_tokens _ _ _ (ground arith))
]

-- Nothing else costs a pair anything.
step-room :
    (q : Pair) (c : Call) {now : ℕ} (b : TrustBoundary)
    → IsWellFormed now b
    → now ≤ after_call c now
    → room b q (after_call c now) ≡ room (step c b) q (after_call c now) + given q c b * one_token
unfolding step given block_agent trust_agent revoke_agent block_pair unblock_pair
step-room q (ask s r p t) b w h = evaluate-room q s r p t b w h
step-room q _ b w h = ground arith

InOrder-le : (cs : List Call) (start end : ℕ) → InOrder start cs end → start ≤ end
InOrder-le [] start end o = o
InOrder-le (c ∷ cs) start end o = omega (arith, InOrder-le cs (after_call c start) end o.1)

room_of-le :
    (max now : ℕ) (o : Option TokenBucket)
    → ((k : TokenBucket) → o ≡ some k → IsPairBucket max now k)
    → room_of max o now ≤ max * one_token
room_of-le max now none each = omega arith
room_of-le max now (some k) each =
    let v : IsPairBucket max now k = each k refl in omega (arith, v.capacity)

room-le :
    (b : TrustBoundary) (q : Pair) (now : ℕ)
    → IsWellFormed now b
    → room b q now ≤ b.max_requests_per_minute * one_token
room-le b q now w =
    room_of-le b.max_requests_per_minute now (lookup q b.rate_limits) (w.buckets.each q)

-- A pair's room and what it is granted come from its first room and from the refill.
granted-room :
    (q : Pair) (cs : List Call) {start : ℕ} (end : ℕ) (b : TrustBoundary)
    → IsWellFormed start b
    → InOrder start cs end
    → granted q cs b * one_token + room (run cs b) q end
      ≤ room b q start + (end - start) * b.max_requests_per_minute
unfolding granted run
granted-room q [] {start} end b w o = omega (
  arith,
  room_of-grows b.max_requests_per_minute start end (lookup q b.rate_limits) (w.buckets.each q) o,
)
granted-room q (c ∷ cs) {start} end b w o =
    let rest = granted-room q cs end (step c b) (step-IsWellFormed c b w o.0) o.1 in
    let first =
      room_of-grows b.max_requests_per_minute start (after_call c start) (lookup q b.rate_limits)
        (w.buckets.each q) o.0 in
    let parts =
      grow start (after_call c start) end b.max_requests_per_minute o.0 (InOrder-le cs _ end o.1) in
    omega (
      arith,
      step-room q c b w o.0,
      ap (λ (m : ℕ). (end - after_call c start) * m) (max-step c b),
      first,
      rest,
      parts,
    )

-- Whatever calls of the boundary are made and in whatever order threads make them, if the boundary
-- is well formed at the start and the monotonic clock does not go back, the requests of one sender
-- and receiver that are let through between two times number at most max_requests_per_minute plus
-- what that many a minute refill in between, evictions of idle buckets included.
pub granted-le :
    (q : Pair) (cs : List Call) (start end : ℕ) (b : TrustBoundary)
    → IsWellFormed start b
    → InOrder start cs end
    → granted q cs b * one_token
      ≤ b.max_requests_per_minute * one_token + (end - start) * b.max_requests_per_minute
granted-le q cs start end b w o = omega (arith, granted-room q cs end b w o, room-le b q start w)

-- In a well-formed boundary and with a clock that does not go back, evaluate lets a request through
-- exactly if the checks permit it and its pair holds at least one token, where a pair without a
-- stored bucket holds a full one.
pub evaluate_iff :
    (s r : Text) (p : Option Text) (t : Readings) {now : ℕ} (b : TrustBoundary)
    → IsWellFormed now b
    → now ≤ t.mono
    → ((evaluate s r p t b).1.0 ≡ true)
      ↔ (Permits s r p t.wall b × (one_token ≤ room b (s, r) t.mono))
evaluate_iff s r p t b w h = elim (evaluate_decides s r p t b) [
  | inl (permitted, e) ↦
      let w' = swept-IsWellFormed s r p t b w h in
      let test = (take_token-room (swept t b) t.mono (s, r) (s, r) w'.buckets).1 in
      rw (e, (admit_lem s r t b).1, test, swept-room t b (s, r) w h)
        (λ enough. (permitted, ground arith), λ both. ground arith)
  | inr (refused, (reason, e)) ↦ rw e (λ never. cc, λ both. absurd (refused both.0))
]
