-- ===== src/Telemetry/Report.antt =====
-- What the metrics endpoint reports: the properties of `InterceptMetrics` and `to_dict`.
--
-- A float quotient is the pair of the numbers that are divided.
use qwed_a2a.Prelude.{
  ℕ, ◌≤◌, ◌<◌, inl, inr, [], ◌∷◌, arith, if◌then◌else◌, ◌==◌, nat-Eq, Bool-cases,
}
use qwed_a2a.Prelude.Int.{pos}
use qwed_a2a.Prelude.Text.{Text, lit}
use qwed_a2a.Dict.{Dict}
use qwed_a2a.Interceptor.Message.{Value, integer, float, object, Fields, no_fields, field}
use qwed_a2a.Telemetry.{InterceptMetrics, IsConsistent}

unfoldable pub average_latency : InterceptMetrics → ℕ × ℕ
average_latency m =
    if m.total_intercepts == 0 then (0, 1) else (m.total_latency, m.total_intercepts)

unfoldable pub block_rate : InterceptMetrics → ℕ × ℕ
block_rate m = if m.total_intercepts == 0 then (0, 1) else (m.total_blocked, m.total_intercepts)

-- `dict(self.by_engine)`
unfoldable pub counts : Dict Text ℕ → Fields
counts [] = no_fields
counts ((k, n) ∷ d) = field k (integer (pos n)) (counts d)

-- `rounded` divides and rounds to a number of places, and gives the `repr`.
unfoldable pub to_dict : (ℕ → ℕ × ℕ → Text) → InterceptMetrics → Value
unfolding lit average_latency block_rate counts
to_dict rounded m = object (
    field (lit "total_intercepts") (integer (pos m.total_intercepts)) (
      field (lit "total_verified") (integer (pos m.total_verified)) (
        field (lit "total_forwarded") (integer (pos m.total_verified)) (
          field (lit "total_blocked") (integer (pos m.total_blocked)) (
            field (lit "total_unverifiable") (integer (pos m.total_unverifiable)) (
              field (lit "total_heuristic_pass") (integer (pos m.total_heuristic_pass)) (
                field (lit "total_errors") (integer (pos m.total_errors)) (
                  field (lit "average_latency_ms") (float (rounded 2 (average_latency m))) (
                    field (lit "block_rate") (float (rounded 4 (block_rate m))) (
                      field (lit "by_engine") (object (counts m.by_engine))
                        (field (lit "by_sender") (object (counts m.by_sender)) no_fields)))))))))))

-- The block rate of consistent metrics is a rate: the divisor is positive, and the quotient is at
-- most one.
pub block_rate_bounds :
    (m : InterceptMetrics)
    → IsConsistent m
    → (0 < (block_rate m).1) × ((block_rate m).0 ≤ (block_rate m).1)
unfolding block_rate
block_rate_bounds m c = elim (Bool-cases (m.total_intercepts == 0)) [
  | inl none' ↦ rw none' (omega arith, omega arith)
  | inr some' ↦ rw some' (ground arith, omega (arith, c.outcomes))
]
