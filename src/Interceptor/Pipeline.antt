-- ===== src/Interceptor/Pipeline.antt =====
-- `A2AVerificationInterceptor.intercept`: what becomes of a message.
--
-- Every branch of the source ends in `_build_verdict` and `_record`; here `decide` says what the
-- branch passes to them, and `deliver` calls them.
use qwed_a2a.Prelude.{ℕ, Option, none, some, [], ◌∷◌, if◌then◌else◌, ◌==◌}
use qwed_a2a.Prelude.Text.{Text, text-Eq}
use qwed_a2a.Schema.{VerdictStatus, unverifiable, status_value, status-Eq}
use qwed_a2a.Telemetry.{InterceptMetrics, record_intercept}
use qwed_a2a.Trust.{TrustBoundary, Readings}
use qwed_a2a.Crypto.Service.{Jwt, CryptoService}
use qwed_a2a.Crypto.Sign.{SignRequest, Signed, ok, err, sign_verdict}
use qwed_a2a.Interceptor.Message.{AgentMessage, EngineResult}
use qwed_a2a.Interceptor.Decide.{
  InterceptorConfig, Engines, payload_hash, Run, VerdictReason, Decision, decide,
}

pub record VerificationVerdict : Type 0 where
  pub status : VerdictStatus
  pub reason : Option VerdictReason
  pub audit_trace_id : Text
  pub attestation_jwt : Option Text
  pub engine_used : Text
  pub details : Option EngineResult

abbrev pub verdict_of : Text → Decision → Option Text → VerificationVerdict
verdict_of trace_id d attestation_jwt = record {
  status = d.status;
  reason = d.reason;
  audit_trace_id = trace_id;
  attestation_jwt = attestation_jwt;
  engine_used = d.engine;
  details = d.details;
}

-- The arguments of `sign_verdict` in `_build_verdict`.
abbrev pub sign_request : AgentMessage → Text → Decision → Text → SignRequest
sign_request message trace_id d hash = record {
  trace_id = trace_id;
  verdict_status = status_value d.status;
  engine = d.engine;
  sender_id = message.sender_agent_id;
  receiver_id = message.receiver_agent_id;
  payload_hash = hash;
  session_id = none;
}

-- The clock readings of one call: those of the trust boundary, the two of signing, and the time
-- that the call took.
pub record Times : Type 0 where
  pub trust : Readings
  pub wall : ℕ
  pub wall_registry : ℕ
  pub latency : ℕ

-- An empty token is refused, and an exception of signing too: `none` is the `RuntimeError`.
unfoldable pub attested : Text → Decision → Signed → Option VerificationVerdict
attested trace_id d (ok []) = none
attested trace_id d (ok (c ∷ cs)) = some (verdict_of trace_id d (some (c ∷ cs)))
attested trace_id d (err e) = none

unfoldable pub build_signed :
    (j : Jwt)
    → CryptoService j
    → AgentMessage
    → Text
    → Decision
    → Times
    → Option Text
    → CryptoService j × Option VerificationVerdict
build_signed j crypto message trace_id d t none = (crypto, none)
build_signed j crypto message trace_id d t (some hash) =
    let (crypto', token) =
      sign_verdict j crypto (sign_request message trace_id d hash) t.wall t.wall_registry in
    (crypto', attested trace_id d token)

unfoldable pub build_verdict :
    (j : Jwt)
    → Engines
    → CryptoService j
    → AgentMessage
    → Text
    → Decision
    → Times
    → CryptoService j × Option VerificationVerdict
build_verdict j engines crypto message trace_id d t =
    if d.status == unverifiable
    then (crypto, some (verdict_of trace_id d none))
    else build_signed j crypto message trace_id d t (payload_hash engines message.payload)

-- The interceptor and the process-wide metrics.
pub record Interceptor (j : Jwt) : Type 0 where
  pub config : InterceptorConfig
  pub trust : TrustBoundary
  pub crypto : CryptoService j
  pub metrics : InterceptMetrics

-- `_record`, unless building the verdict raised.
unfoldable pub count_verdict :
    Text → ℕ → Option VerificationVerdict → InterceptMetrics → InterceptMetrics
count_verdict sender_id latency none metrics = metrics
count_verdict sender_id latency (some v) metrics =
    record_intercept v.status (some v.engine_used) sender_id latency metrics

unfoldable pub deliver :
    (j : Jwt)
    → Engines
    → Interceptor j
    → AgentMessage
    → Text
    → Times
    → TrustBoundary
    → Decision
    → Interceptor j × Option VerificationVerdict
deliver j engines i message trace_id t trust d =
    let (crypto, verdict) = build_verdict j engines i.crypto message trace_id d t in
    (
      record {
        config = i.config;
        trust = trust;
        crypto = crypto;
        metrics = count_verdict message.sender_agent_id t.latency verdict i.metrics;
      },
      verdict,
    )

-- `intercept`, with `none` for the `RuntimeError` of a verdict that cannot be signed.
unfoldable pub intercept :
    (j : Jwt)
    → Engines
    → Interceptor j
    → AgentMessage
    → Text
    → Run
    → Times
    → Interceptor j × Option VerificationVerdict
intercept j engines i message trace_id run t =
    let (trust, d) = decide engines i.config message run t.trust i.trust in
    deliver j engines i message trace_id t trust d
