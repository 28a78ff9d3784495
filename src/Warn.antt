-- ===== src/Warn.antt =====
-- The warnings about a bad configuration, `_warn_api_keys_misconfigured` of
-- src/qwed_a2a/protocol/endpoints.py and `_warn_issuers_misconfigured` of
-- src/qwed_a2a/security/crypto.py, which come at most once a minute.
mod Examples
use qwed_a2a.Prelude.{
  ℕ, ◌+◌, ◌-◌, ◌*◌, ◌≤◌, ◌<◌, ◌≡◌, inl, inr, refl, Bool, true, false, not, Option, none, some, List,
  [], ◌∷◌, arith, ltb, if◌then◌else◌, Bool-cases, ◌++◌, length, All,
}
use qwed_a2a.Trust.Bucket.{ticks_per_second}

abbrev pub warn_interval : ℕ
warn_interval = 60 * ticks_per_second

-- Whether a warning is due, by the time of the last one.
unfoldable pub is_due : ℕ → Option ℕ → Bool
is_due now none = true
is_due now (some last) = not (ltb now (last + warn_interval))

-- One call: the time of the last warning, and whether it was logged.
abbrev rate_limited : ℕ → Option ℕ → Option ℕ × Bool
rate_limited now last = if is_due now last then (some now, true) else (last, false)

-- `_warn_api_keys_misconfigured`
unfoldable pub warn_api_keys_misconfigured : ℕ → Option ℕ → Option ℕ × Bool
warn_api_keys_misconfigured now last = rate_limited now last

-- `_warn_issuers_misconfigured`
unfoldable pub warn_issuers_misconfigured : ℕ → Option ℕ → Option ℕ × Bool
warn_issuers_misconfigured now last = rate_limited now last

-- The warnings that calls of `_warn_issuers_misconfigured` at these times log.
unfoldable pub warned : List ℕ → Option ℕ → List ℕ
warned [] last = []
warned (now ∷ later) last =
    let (last', logged) = warn_issuers_misconfigured now last in
    let rest = warned later last' in if logged then now ∷ rest else rest

-- Times of which each is at least a minute after the one before.
abbrev Apart : Option ℕ → List ℕ → Type 0
Apart last [] = Unit
Apart none (t ∷ ts) = Apart (some t) ts
Apart (some last) (t ∷ ts) = (last + warn_interval ≤ t) × Apart (some t) ts

warned-Apart : (times : List ℕ) (last : Option ℕ) → Apart last (warned times last)
unfolding warned is_due warn_issuers_misconfigured
warned-Apart [] last = tt
warned-Apart (now ∷ later) none = warned-Apart later (some now)
warned-Apart (now ∷ later) (some last) = elim (Bool-cases (ltb now (last + warn_interval))) [
  | inl soon ↦ rw soon (warned-Apart later (some last))
  | inr due ↦ rw due (ground arith, warned-Apart later (some now))
]

All-warned :
    (end : ℕ) (times : List ℕ) (last : Option ℕ)
    → All (λ t. t ≤ end) times
    → All (λ t. t ≤ end) (warned times last)
unfolding warned warn_issuers_misconfigured
All-warned end [] last h = tt
All-warned end (now ∷ later) last (here, h) = elim (Bool-cases (is_due now last)) [
  | inl due ↦ rw due (here, All-warned end later (some now) h)
  | inr soon ↦ rw soon (All-warned end later last h)
]

spaced_fit :
    (last end : ℕ) (ts : List ℕ)
    → Apart (some last) ts
    → All (λ t. t ≤ end) ts
    → last ≤ end
    → last + length ts * warn_interval ≤ end
spaced_fit last end [] a h fits = omega arith
spaced_fit last end (t ∷ ts) (far, a) (here, h) fits = omega (arith, spaced_fit t end ts a h here)

-- Whatever calls of _warn_issuers_misconfigured read the clock up to some time, and in whatever
-- order their turns come, the warnings that they log after one at a given time fit in between at a
-- minute each, so that such calls, which run one after another, log at most one warning a minute.
pub length-warned :
    (times : List ℕ) (last end : ℕ)
    → All (λ t. t ≤ end) times
    → last ≤ end
    → last + length (warned times (some last)) * warn_interval ≤ end
length-warned times last end h fits =
    spaced_fit last end (warned times (some last)) (warned-Apart times (some last))
      (All-warned end times (some last) h) fits

-- The pieces of calls without a lock: a call tests whether a warning is due, and later logs it.
pub data Piece : Type 0 where
  test : ℕ → Piece
  log : Piece

-- What such pieces log, in the order in which the threads run them; `pending` is who has found a
-- warning due and has not logged it.
unfoldable pub logged_unlocked : List Piece → Option ℕ → List ℕ → List ℕ
unfolding is_due
logged_unlocked [] last pending = []
logged_unlocked (test now ∷ pieces) last pending =
    logged_unlocked pieces last (if is_due now last then pending ++ (now ∷ []) else pending)
logged_unlocked (log ∷ pieces) last [] = logged_unlocked pieces last []
logged_unlocked (log ∷ pieces) last (now ∷ pending) =
    now ∷ logged_unlocked pieces (some now) pending
