-- ===== src/Trust/Bucket/Level.antt =====
-- What `consume` does to a bucket that holds no debt, on a clock that does not go back.
use Prim.Native.Nat.{min}
use qwed_a2a.Prelude.{ℕ, ◌+◌, ◌-◌, ◌*◌, ◌≤◌, ◌≡◌, true, false, arith, leb, if◌then◌else◌}
use qwed_a2a.Prelude.Int.{pos, pos_part, neg_part, ◌*ℤ◌, ◌+ℤ◌}
use qwed_a2a.Trust.Bucket.{TokenBucket, consume, one_token, refilled}

pub record IsSound (b : TokenBucket) : Type 0 where
  pub no_debt : neg_part b.tokens ≡ 0
  pub fits : pos_part b.tokens ≤ b.capacity

-- The units that a bucket holds at a time.
abbrev pub level : TokenBucket → ℕ → ℕ
level b now = min b.capacity (pos_part b.tokens + (now - b.last_refill) * b.refill_rate)

refilled-level :
    (b : TokenBucket) (now : ℕ)
    → IsSound b
    → b.last_refill ≤ now
    → refilled b now ≡ pos (level b now)
unfolding ◌*ℤ◌ ◌+ℤ◌
refilled-level b now s h = grind arith

pub consume_lem :
    (b : TokenBucket) (now : ℕ)
    → IsSound b
    → b.last_refill ≤ now
    → consume b now ≡ (
        if leb one_token (level b now)
        then (record b { tokens = pos (level b now - one_token); last_refill = now }, true)
        else (record b { tokens = pos (level b now); last_refill = now }, false))
unfolding consume
consume_lem b now s h = rw (refilled-level b now s h) (ground arith)
