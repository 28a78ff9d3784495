-- ===== src/Trust/Bucket.antt =====
-- `TokenBucket` of src/qwed_a2a/security/trust_boundary.py, the rate limiter of one agent pair.
--
-- Time is counted in ticks. The source keeps fractional tokens in a float and refills
-- `max_requests_per_minute / 60.0` of them in a second; here a token is `one_token` units, so that a
-- tick refills a whole number of units and no rounding occurs.
pub mod Level
use qwed_a2a.Prelude.{ℕ, ◌*◌, Bool, true, false, if◌then◌else◌}
use qwed_a2a.Prelude.Int.{ℤ, pos, sub_ℕ, ◌+ℤ◌, ◌-ℤ◌, ◌*ℤ◌, leb_ℤ}

-- The resolution of the clocks: microseconds.
abbrev pub ticks_per_second : ℕ
ticks_per_second = 1000000

-- The units of one token: at `r` requests a minute, a tick refills `r` units.
abbrev pub one_token : ℕ
one_token = 60 * ticks_per_second

pub record TokenBucket : Type 0 where
  pub tokens : ℤ
  pub capacity : ℕ
  pub refill_rate : ℕ
  pub last_refill : ℕ

abbrev min_ℤ : ℤ → ℤ → ℤ
min_ℤ a b = if leb_ℤ a b then a else b

-- `min(self.capacity, self.tokens + elapsed * self.refill_rate)`
abbrev refilled : TokenBucket → ℕ → ℤ
refilled b now = min_ℤ (pos b.capacity) (b.tokens +ℤ sub_ℕ now b.last_refill *ℤ pos b.refill_rate)

unfoldable pub consume : TokenBucket → ℕ → TokenBucket × Bool
unfolding ◌+ℤ◌ ◌-ℤ◌ ◌*ℤ◌
consume b now =
    let filled = refilled b now in
    if leb_ℤ (pos one_token) filled
    then (record b { tokens = filled -ℤ pos one_token; last_refill = now }, true)
    else (record b { tokens = filled; last_refill = now }, false)
