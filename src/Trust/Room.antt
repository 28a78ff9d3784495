-- ===== src/Trust/Room.antt =====
-- How many tokens a pair has, whether its bucket is stored or was evicted: eviction of cold buckets
-- cannot be observed, and a call of `take_token` takes one token from its own pair or none.
use qwed_a2a.Prelude.{
  ℕ, ◌+◌, ◌-◌, ◌*◌, ◌≤◌, ◌<◌, ◌≡◌, refl, sym, ap, ◌∙◌, inl, inr, Bool, ◌&&◌, Option, none, some,
  arith, leb, ltb, Bool-cases, Option-cases, ◌==◌, ==_iff, if◌then◌else◌,
}
use qwed_a2a.Prelude.Text.{Pair, text-Eq, pair-Eq}
use qwed_a2a.Dict.{
  Dict, lookup, drop_where, Unique, lookup-insert, lookup-drop_where, insert-Unique, insert-Each,
  drop_where-Unique, unless,
}
use qwed_a2a.Trust.Bucket.{TokenBucket, consume, one_token, ticks_per_second}
use qwed_a2a.Trust.Bucket.Level.{IsSound, level, consume_lem}
use qwed_a2a.Trust.{
  TrustBoundary, evict_cold_buckets, take_token, fresh_bucket, bucket_or_fresh, within_minute,
}

-- A bucket as `evaluate` makes and keeps it.
pub record IsPairBucket (max now : ℕ) (k : TokenBucket) : Type 0 where
  pub capacity : k.capacity ≡ max * one_token
  pub rate : k.refill_rate ≡ max
  pub sound : IsSound k
  pub past : k.last_refill ≤ now

pub record AreBuckets (max now : ℕ) (d : Dict Pair TokenBucket) : Type 0 where
  pub distinct : Unique d
  pub each : (p : Pair) (k : TokenBucket) → lookup p d ≡ some k → IsPairBucket max now k

-- The units that a pair has at a time: a full bucket's where none is stored.
abbrev pub room_of : ℕ → Option TokenBucket → ℕ → ℕ
room_of max none now = max * one_token
room_of max (some k) now = level k now

abbrev pub room : TrustBoundary → Pair → ℕ → ℕ
room b p now = room_of b.max_requests_per_minute (lookup p b.rate_limits) now

mul_le : (a b c : ℕ) → a ≤ b → a * c ≤ b * c
mul_le a b c h = grind arith

full_when_cold :
    (max now : ℕ) (k : TokenBucket)
    → IsPairBucket max now k
    → k.last_refill + 300 * ticks_per_second < now
    → level k now ≡ max * one_token
full_when_cold max now k h cold = omega (
  arith,
  mul_le (300 * ticks_per_second) (now - k.last_refill) k.refill_rate (omega arith),
  h.capacity,
  h.rate,
)

-- What `consume` takes from the room, and the bucket that it leaves.
consume-room :
    (max now : ℕ) (k : TokenBucket)
    → IsPairBucket max now k
    → (level k now ≡ level (consume k now).0 now + (if (consume k now).1 then one_token else 0))
      × ((consume k now).1 ≡ leb one_token (level k now))
consume-room max now k h = rw (consume_lem k now h.sound h.past) (ground arith)

consume-IsPairBucket :
    (max now : ℕ) (k : TokenBucket)
    → IsPairBucket max now k
    → IsPairBucket max now (consume k now).0
consume-IsPairBucket max now k h = rw (consume_lem k now h.sound h.past) (ground arith)

fresh-IsPairBucket : (max now : ℕ) → IsPairBucket max now (fresh_bucket max now)
fresh-IsPairBucket max now = omega arith

pub IsPairBucket-later :
    (max now later : ℕ) (k : TokenBucket)
    → now ≤ later
    → IsPairBucket max now k
    → IsPairBucket max later k
IsPairBucket-later max now later k h v = record {
  capacity = v.capacity;
  rate = v.rate;
  sound = v.sound;
  past = omega arith;
}

module _ (b : TrustBoundary) (now : ℕ) where
  abbrev Buckets : Type 0
  Buckets = AreBuckets b.max_requests_per_minute now b.rate_limits

  abbrev is_cold : TokenBucket → Bool
  is_cold k = ltb (k.last_refill + b.eviction_ttl) now

  -- Dropping a cold bucket leaves its pair the same room: a full bucket's.
  drop_cold-room_of :
      (o : Option TokenBucket)
      → ((k : TokenBucket) → o ≡ some k → IsPairBucket b.max_requests_per_minute now k)
      → b.eviction_ttl ≡ 300 * ticks_per_second
      → room_of b.max_requests_per_minute (unless is_cold o) now
        ≡ room_of b.max_requests_per_minute o now
  drop_cold-room_of none each ttl = refl
  drop_cold-room_of (some k) each ttl = elim (Bool-cases (is_cold k)) [
    | inl cold ↦
        rw cold (sym (full_when_cold b.max_requests_per_minute now k (each k refl) (ground arith)))
    | inr warm ↦ rw warm
  ]

  pub evict_cold-room :
      (p : Pair)
      → Buckets
      → b.eviction_ttl ≡ 300 * ticks_per_second
      → room (evict_cold_buckets now b) p now ≡ room b p now
  unfolding evict_cold_buckets
  evict_cold-room p v ttl = elim (Bool-cases (within_minute now b.last_eviction)) [
    | inl soon ↦ rw soon
    | inr due ↦
        rw (due, lookup-drop_where, v.distinct)
          (drop_cold-room_of (lookup p b.rate_limits) (v.each p) ttl)
  ]

  pub drop_cold-AreBuckets :
      Buckets → AreBuckets b.max_requests_per_minute now (drop_where is_cold b.rate_limits)
  drop_cold-AreBuckets v = record {
    distinct = drop_where-Unique is_cold b.rate_limits v.distinct;
    each =
        λ p k h. v.each p k (ground (arith, lookup-drop_where is_cold p b.rate_limits v.distinct));
  }

  module _ (pair : Pair) where
    abbrev own_bucket : TokenBucket
    own_bucket = bucket_or_fresh (lookup pair b.rate_limits) b.max_requests_per_minute now

    own_bucket-IsPairBucket : Buckets → IsPairBucket b.max_requests_per_minute now own_bucket
    own_bucket-IsPairBucket v = elim (Option-cases (lookup pair b.rate_limits)) [
      | inl absent ↦ rw absent (fresh-IsPairBucket b.max_requests_per_minute now)
      | inr (k, found) ↦ rw found (v.each pair k found)
    ]

    own_bucket-room : level own_bucket now ≡ room b pair now
    own_bucket-room = elim (Option-cases (lookup pair b.rate_limits)) [
      | inl absent ↦ rw absent (omega arith)
      | inr (k, found) ↦ rw found
    ]

    pub take_token-AreBuckets :
        Buckets → AreBuckets b.max_requests_per_minute now (take_token pair now b).0.rate_limits
    unfolding take_token
    take_token-AreBuckets v = record {
      distinct = insert-Unique pair (consume own_bucket now).0 b.rate_limits v.distinct;
      each =
          insert-Each (IsPairBucket b.max_requests_per_minute now) pair (consume own_bucket now).0
            b.rate_limits v.each
            (consume-IsPairBucket b.max_requests_per_minute now own_bucket
              (own_bucket-IsPairBucket v));
    }

    -- A token is given exactly if the pair has one, and only that pair's room shrinks.
    pub take_token-room :
        (p : Pair)
        → Buckets
        → (room b p now
            ≡ room (take_token pair now b).0 p now
              + (if pair == p && (take_token pair now b).1 then one_token else 0))
          × ((take_token pair now b).1 ≡ leb one_token (room b pair now))
    unfolding take_token
    take_token-room p v =
        let (taken, given) =
          consume-room b.max_requests_per_minute now own_bucket (own_bucket-IsPairBucket v) in
        let test = given ∙ ap (leb one_token) own_bucket-room in
        elim (Bool-cases (pair == p)) [
          | inl same ↦
              rw (lookup-insert, same, ← (==_iff pair p).0 same) (sym own_bucket-room ∙ taken, test)
          | inr other ↦ rw (lookup-insert, other) (omega arith, test)
        ]
