-- ===== src/Endpoints/Limits.antt =====
-- The limits on the size of a request: the declared length, and the body as it comes in.
use qwed_a2a.Prelude.{
  ℕ, ◌+◌, ◌≤◌, inl, inr, Bool, false, not, Option, none, some, List, [], ◌∷◌, arith, ltb,
  if◌then◌else◌, length, Bool-cases,
}
use qwed_a2a.Prelude.Text.{Text}
use qwed_a2a.Interceptor.Claim.{within, all}
use qwed_a2a.Interceptor.Decimal.{value_from}

abbrev pub envelope_allowance_bytes : ℕ
envelope_allowance_bytes = 65536

-- The limit of `size_limited_handler`.
unfoldable pub body_limit : ℕ → ℕ
body_limit max_payload_size_bytes = max_payload_size_bytes + envelope_allowance_bytes

-- What is raised: a 400, a 413, or the `ValueError` of `int` on more than 4300 digits.
pub data Rejection : Type 0 where
  invalid_length body_too_large too_many_digits : Rejection

abbrev is_ascii_digits : Text → Bool
is_ascii_digits [] = false
is_ascii_digits (c ∷ cs) = all (λ d. within 48 57 d) (c ∷ cs)

-- `_reject_declared_oversize`
unfoldable pub reject_declared_oversize : Option Text → ℕ → Option Rejection
reject_declared_oversize none limit = none
reject_declared_oversize (some declared) limit =
    if not (is_ascii_digits declared)
    then some invalid_length
    else if ltb 4300 (length declared)
    then some too_many_digits
    else if ltb limit (value_from 0 declared)
    then some body_too_large
    else none

-- An ASGI message: a piece of the body, of a length, or another event.
pub data Received : Type 0 where
  http_request : ℕ → Received
  other_event : Received

-- `capped`: the bytes received so far, and what is handed on; `none` is the 413.
unfoldable pub capped_receive : ℕ → ℕ → Received → ℕ × Option Received
capped_receive limit received other_event = (received, some other_event)
capped_receive limit received (http_request body) =
    (received + body, (if ltb limit (received + body) then none else some (http_request body)))

abbrev hand_on : Option Received → List Received → List Received
hand_on none later = []
hand_on (some message) later = message ∷ later

-- What the application reads until it is stopped.
unfoldable pub read_all : ℕ → ℕ → List Received → List Received
read_all limit received [] = []
read_all limit received (message ∷ messages) =
    let (received', o) = capped_receive limit received message in
    hand_on o (read_all limit received' messages)

abbrev pub body_bytes : List Received → ℕ
body_bytes [] = 0
body_bytes (http_request body ∷ messages) = body + body_bytes messages
body_bytes (other_event ∷ messages) = body_bytes messages

-- Of a body no more than the limit gets through.
read_all-within :
    (limit received : ℕ) (messages : List Received)
    → received ≤ limit
    → received + body_bytes (read_all limit received messages) ≤ limit
unfolding read_all capped_receive
read_all-within limit received [] h = omega arith
read_all-within limit received (other_event ∷ messages) h =
    read_all-within limit received messages h
read_all-within limit received (http_request body ∷ messages) h =
    elim (Bool-cases (ltb limit (received + body))) [
      | inl over ↦ rw over (omega arith)
      | inr fits ↦
          rw fits (omega (arith, read_all-within limit (received + body) messages (ground arith)))
    ]

-- Whatever the body comes in as, the pieces that capped_receive hands on before it raises add up to
-- no more than the limit.
body_bytes-read_all :
    (limit : ℕ) (messages : List Received) → body_bytes (read_all limit 0 messages) ≤ limit
body_bytes-read_all limit messages = omega (arith, read_all-within limit 0 messages (omega arith))
