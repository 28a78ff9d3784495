-- ===== src/Telemetry.antt =====
-- `InterceptMetrics` and `record_intercept` of src/qwed_a2a/utils/telemetry.py.
--
-- Latencies are counted in whole units, so that their sum is exact. The logging and Sentry calls are
-- left out.
pub mod Report
use qwed_a2a.Prelude.{ℕ, ◌+◌, ◌≡◌, refl, Option, none, some, [], ◌∷◌, arith}
use qwed_a2a.Prelude.Text.{Text, text-Eq}
use qwed_a2a.Dict.{Dict, lookup, insert}
use qwed_a2a.Schema.{VerdictStatus, verified, blocked, unverifiable, heuristic_pass, error}

pub record InterceptMetrics : Type 0 where
  pub total_intercepts : ℕ
  pub total_verified : ℕ
  pub total_blocked : ℕ
  pub total_unverifiable : ℕ
  pub total_heuristic_pass : ℕ
  pub total_errors : ℕ
  pub total_latency : ℕ
  pub by_engine : Dict Text ℕ
  pub by_sender : Dict Text ℕ

abbrev pub no_metrics : InterceptMetrics
no_metrics = record {
  total_intercepts = 0;
  total_verified = 0;
  total_blocked = 0;
  total_unverifiable = 0;
  total_heuristic_pass = 0;
  total_errors = 0;
  total_latency = 0;
  by_engine = [];
  by_sender = [];
}

-- `reset_metrics`
abbrev reset_metrics : InterceptMetrics → InterceptMetrics
reset_metrics m = no_metrics

-- `d.get(k, 0)`
abbrev pub get_or_zero : Option ℕ → ℕ
get_or_zero none = 0
get_or_zero (some n) = n

-- `d[k] = d.get(k, 0) + 1`
unfoldable pub bump : Text → Dict Text ℕ → Dict Text ℕ
bump k d = insert k (get_or_zero (lookup k d) + 1) d

unfoldable pub count_status : VerdictStatus → InterceptMetrics → InterceptMetrics
count_status verified m = record m { total_verified = m.total_verified + 1 }
count_status blocked m = record m { total_blocked = m.total_blocked + 1 }
count_status unverifiable m = record m { total_unverifiable = m.total_unverifiable + 1 }
count_status heuristic_pass m = record m { total_heuristic_pass = m.total_heuristic_pass + 1 }
count_status error m = record m { total_errors = m.total_errors + 1 }

-- `if engine:` is false for `None` and for the empty text.
unfoldable pub count_engine : Option Text → InterceptMetrics → InterceptMetrics
count_engine none m = m
count_engine (some []) m = m
count_engine (some (c ∷ cs)) m = record m { by_engine = bump (c ∷ cs) m.by_engine }

unfoldable pub record_intercept :
    VerdictStatus → Option Text → Text → ℕ → InterceptMetrics → InterceptMetrics
unfolding count_status count_engine
record_intercept status engine sender_id latency m = count_engine engine (
    count_status status (record m {
      total_intercepts = m.total_intercepts + 1;
      total_latency = m.total_latency + latency;
      by_sender = bump sender_id m.by_sender;
    }))

-- The sum of the counts of a dict.
abbrev pub total : Dict Text ℕ → ℕ
total [] = 0
total ((_, n) ∷ d) = n + total d

total-bump : (k : Text) (d : Dict Text ℕ) → total (bump k d) ≡ total d + 1
unfolding bump insert lookup
total-bump k [] = omega arith
total-bump k ((j, n) ∷ d) = ground (arith, total-bump k d)

-- Every intercept is counted once by its outcome and once by its sender, and by its engine if it
-- has one.
pub record IsConsistent (m : InterceptMetrics) : Type 0 where
  pub outcomes :
      m.total_intercepts
      ≡ m.total_verified + m.total_blocked + m.total_unverifiable + m.total_heuristic_pass
        + m.total_errors
  pub senders : total m.by_sender ≡ m.total_intercepts

-- If the outcome counters add up to the number of intercepts and so do the counts by sender, then
-- they still do after record_intercept.
pub record_intercept-IsConsistent :
    (s : VerdictStatus) (engine : Option Text) (sender : Text) (latency : ℕ) (m : InterceptMetrics)
    → IsConsistent m
    → IsConsistent (record_intercept s engine sender latency m)
unfolding record_intercept
record_intercept-IsConsistent s engine sender latency m c =
    ground (arith, total-bump sender m.by_sender)

-- Metrics that were reset are consistent.
reset_metrics-IsConsistent : (m : InterceptMetrics) → IsConsistent (reset_metrics m)
reset_metrics-IsConsistent m = record { outcomes = refl; senders = refl }
