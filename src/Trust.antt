-- ===== src/Trust.antt =====
-- `TrustBoundary` of src/qwed_a2a/security/trust_boundary.py: the state and the methods.
--
-- `_locked` runs each method under the boundary's lock, so a method is one step here, and what
-- threads do is a sequence of steps (Trust/Trace). Log calls are left out. A clock is read once for
-- each call of `time.time()` and `time.monotonic()` and comes as an argument.
pub mod Bucket
pub mod Load
pub mod Entry
pub mod Decision
pub mod Isolation
pub mod Room
pub mod Trace
pub mod RateLimit
pub mod Revocation
mod Examples
use qwed_a2a.Prelude.{
  ℕ, ◌+◌, ◌*◌, Bool, true, false, not, ◌&&◌, Option, none, some, List, [], ◌∷◌, ltb, leb,
  if◌then◌else◌, contains, add, discard, is_some,
}
use qwed_a2a.Prelude.Int.{ℤ, pos}
use qwed_a2a.Prelude.Text.{Text, Pair, text-Eq, pair-Eq}
use qwed_a2a.Dict.{Dict, lookup, insert, erase, drop_where}
use Bucket.{TokenBucket, consume, ticks_per_second, one_token}
use Entry.{
  TrustEntry, Scope, redact, is_valid, sender_scope_blocks, receiver_scope_blocks,
  nullify_if_expired,
}

-- A reading of `None` for the last eviction is the source's minus infinity.
pub record TrustBoundary : Type 0 where
  pub max_requests_per_minute : ℕ
  pub default_allow : Bool
  pub blocked_agents : List Text
  pub trusted_agents : Dict Text TrustEntry
  pub blocked_pairs : List Pair
  pub rate_limits : Dict Pair TokenBucket
  pub eviction_ttl : ℕ
  pub last_eviction : Option ℕ
  pub last_trust_eviction_mono : Option ℕ

-- The rejection messages, with the values that they interpolate.
pub data Reason : Type 0 where
  sender_blocked receiver_blocked : Text → Reason
  pair_blocked : Text → Text → Reason
  sender_scope not_in_allowlist receiver_scope : Text → Reason
  rate_limited : Text → Text → ℕ → Reason

-- The clock readings of one call of `evaluate`: `time.time()`, and `time.monotonic()` as read for
-- the trust eviction and for the buckets.
pub record Readings : Type 0 where
  pub wall : ℕ
  pub mono_trust : ℕ
  pub mono : ℕ

unfoldable pub init : ℕ → Bool → TrustBoundary
init max_requests_per_minute default_allow = record {
  max_requests_per_minute = max_requests_per_minute;
  default_allow = default_allow;
  blocked_agents = [];
  trusted_agents = [];
  blocked_pairs = [];
  rate_limits = [];
  eviction_ttl = 300 * ticks_per_second;
  last_eviction = none;
  last_trust_eviction_mono = none;
}

unfoldable pub block_agent : Text → TrustBoundary → TrustBoundary
block_agent agent_id b = record b {
  blocked_agents = add agent_id b.blocked_agents;
  trusted_agents = erase agent_id b.trusted_agents;
}

-- `now` is the time of the grant.
unfoldable pub trust_agent :
    Text → Scope → Scope → Option ℤ → Text → ℕ → TrustBoundary → TrustBoundary
trust_agent agent_id allowed_receivers allowed_payload_types valid_until granted_by now b =
    let entry : TrustEntry = record {
      agent_id = agent_id;
      allowed_receivers = allowed_receivers;
      allowed_payload_types = allowed_payload_types;
      valid_until = valid_until;
      granted_by = granted_by;
      granted_at = now;
    } in
    record b {
      trusted_agents = insert agent_id entry b.trusted_agents;
      blocked_agents = discard agent_id b.blocked_agents;
    }

unfoldable pub revoke_agent : Text → TrustBoundary → TrustBoundary × Bool
revoke_agent agent_id b =
    if is_some (lookup agent_id b.trusted_agents)
    then (record b { trusted_agents = erase agent_id b.trusted_agents }, true)
    else (b, false)

unfoldable pub block_pair : Text → Text → TrustBoundary → TrustBoundary
block_pair sender_id receiver_id b = record b {
  blocked_pairs = add (sender_id, receiver_id) b.blocked_pairs;
}

unfoldable pub unblock_pair : Text → Text → TrustBoundary → TrustBoundary
unblock_pair sender_id receiver_id b = record b {
  blocked_pairs = discard (sender_id, receiver_id) b.blocked_pairs;
}

abbrev valid_entry : Option TrustEntry → ℕ → Bool
valid_entry none now = false
valid_entry (some e) now = is_valid e now

unfoldable pub is_trusted : Text → ℕ → TrustBoundary → Bool
is_trusted agent_id now b = valid_entry (lookup agent_id b.trusted_agents) now

-- The loop of `_count_trusted_agents`.
unfoldable pub count_valid : ℕ → Dict Text TrustEntry → ℕ
count_valid now [] = 0
count_valid now ((_, e) ∷ d) = (if is_valid e now then 1 else 0) + count_valid now d

unfoldable pub trusted_agent_count : ℕ → TrustBoundary → ℕ
unfolding count_valid
trusted_agent_count now b = count_valid now b.trusted_agents

-- `now - last < 60.0`
abbrev pub within_minute : ℕ → Option ℕ → Bool
within_minute now none = false
within_minute now (some last) = ltb now (last + 60 * ticks_per_second)

unfoldable pub evict_expired_trust : ℕ → ℕ → TrustBoundary → TrustBoundary
evict_expired_trust now mono b =
    if within_minute mono b.last_trust_eviction_mono then b else record b {
      last_trust_eviction_mono = some mono;
      trusted_agents = drop_where (λ entry. not (is_valid entry now)) b.trusted_agents;
    }

unfoldable pub evict_cold_buckets : ℕ → TrustBoundary → TrustBoundary
evict_cold_buckets now b = if within_minute now b.last_eviction then b else record b {
  last_eviction = some now;
  rate_limits = drop_where (λ bucket. ltb (bucket.last_refill + b.eviction_ttl) now) b.rate_limits;
}

unfoldable pub check_trust : Text → Text → Option Text → ℕ → Bool → TrustBoundary → Option Reason
check_trust sender_id receiver_id payload_type now enforce_allowlist b =
    let sender_entry = nullify_if_expired (lookup sender_id b.trusted_agents) now in
    let receiver_entry = nullify_if_expired (lookup receiver_id b.trusted_agents) now in
    if sender_scope_blocks sender_entry receiver_id payload_type
    then some (sender_scope (redact sender_id))
    else if enforce_allowlist && not (is_some sender_entry)
    then some (not_in_allowlist (redact sender_id))
    else if receiver_scope_blocks receiver_entry sender_id payload_type
    then some (receiver_scope (redact receiver_id))
    else none

-- `TokenBucket(tokens=max, capacity=max, refill_rate=max / 60.0, last_refill=now)`
abbrev pub fresh_bucket : ℕ → ℕ → TokenBucket
fresh_bucket max_requests_per_minute now = record {
  tokens = pos (max_requests_per_minute * one_token);
  capacity = max_requests_per_minute * one_token;
  refill_rate = max_requests_per_minute;
  last_refill = now;
}

abbrev pub bucket_or_fresh : Option TokenBucket → ℕ → ℕ → TokenBucket
bucket_or_fresh none max_requests_per_minute now = fresh_bucket max_requests_per_minute now
bucket_or_fresh (some bucket) max_requests_per_minute now = bucket

-- The part of `evaluate` that takes a token, from the bucket of the pair or from a new one.
unfoldable pub take_token : Pair → ℕ → TrustBoundary → TrustBoundary × Bool
take_token pair now b =
    let bucket = bucket_or_fresh (lookup pair b.rate_limits) b.max_requests_per_minute now in
    let (bucket', allowed) = consume bucket now in
    (record b { rate_limits = insert pair bucket' b.rate_limits }, allowed)

-- The part of `evaluate` that only an allowed pair reaches.
unfoldable pub admit :
    Text → Text → Readings → TrustBoundary → TrustBoundary × (Bool × Option Reason)
admit sender_id receiver_id t b =
    let evicted = evict_cold_buckets t.mono (evict_expired_trust t.wall t.mono_trust b) in
    let (b', allowed) = take_token (sender_id, receiver_id) t.mono evicted in
    if not allowed
    then (
      b',
      (
        false,
        some (rate_limited (redact sender_id) (redact receiver_id) b'.max_requests_per_minute),
      ),
    )
    else (b', (true, none))

abbrev rejected : TrustBoundary → Reason → TrustBoundary × (Bool × Option Reason)
rejected b reason = (b, (false, some reason))

abbrev after_check :
    Option Reason
    → TrustBoundary × (Bool × Option Reason)
    → TrustBoundary
    → TrustBoundary × (Bool × Option Reason)
after_check (some reason) admitted b = rejected b reason
after_check none admitted b = admitted

unfoldable pub evaluate :
    Text → Text → Option Text → Readings → TrustBoundary → TrustBoundary × (Bool × Option Reason)
evaluate sender_id receiver_id payload_type t b =
    if contains sender_id b.blocked_agents
    then rejected b (sender_blocked (redact sender_id))
    else if contains receiver_id b.blocked_agents
    then rejected b (receiver_blocked (redact receiver_id))
    else if contains (sender_id, receiver_id) b.blocked_pairs
    then rejected b (pair_blocked (redact sender_id) (redact receiver_id))
    else after_check (check_trust sender_id receiver_id payload_type t.wall (not b.default_allow) b)
        (admit sender_id receiver_id t b) b
