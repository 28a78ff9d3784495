-- ===== src/Interceptor/Decide.antt =====
-- What `A2AVerificationInterceptor.intercept` decides on a message: the size limit, the trust boundary,
-- the engine that the message goes to, and the status that follows from how its run ends.
use qwed_a2a.Prelude.{ℕ, Bool, false, not, Option, none, some, ltb, if◌then◌else◌, ◌==◌, ◌++◌}
use qwed_a2a.Prelude.Text.{Text, lit, text-Eq}
use qwed_a2a.Schema.{
  PayloadType, financial_transaction, logic_assertion, code_execution, data_query, general,
  type_value, VerdictStatus, verified, blocked, unverifiable, heuristic_pass, error, status-Eq,
}
use qwed_a2a.Trust.{TrustBoundary, Readings, Reason, evaluate}
use qwed_a2a.Interceptor.Message.{
  Fields, AgentMessage, EngineReason, no_engine, EngineResult, unverified, Outcome, returned,
  raising,
}
use qwed_a2a.Interceptor.Claim.{Unicode}
use qwed_a2a.Interceptor.Financial.{verify_financial}
use qwed_a2a.Interceptor.Logic.{verify_logic}
use qwed_a2a.Interceptor.Code.{Scanner, utf8_length, verify_code}

pub record InterceptorConfig : Type 0 where
  pub enable_financial_verification : Bool
  pub enable_logic_verification : Bool
  pub enable_code_verification : Bool
  pub max_payload_size_bytes : ℕ
  pub engine_timeout_seconds : Text

-- What the pipeline calls: the Unicode tables, the parser and the searches of the code guard,
-- `json.dumps` in its compact and in its sorted form (with `none` for an exception), and SHA-256 in
-- hexadecimal.
pub record Engines : Type 1 where
  pub unicode : Unicode
  pub scanner : Scanner
  pub dumps : Fields → Option Text
  pub dumps_sorted : Fields → Option Text
  pub sha256 : Text → Text

abbrev pub max_code_bytes : ℕ
max_code_bytes = 262144

-- `_payload_size`
abbrev measure : Option Text → Option ℕ
measure none = none
measure (some encoded) = some (utf8_length encoded)

unfoldable pub payload_size : Engines → Fields → Option ℕ
payload_size engines payload = measure (engines.dumps payload)

-- `A2ACryptoService.payload_hash`
abbrev hash_content : Engines → Option Text → Option Text
hash_content engines none = none
hash_content engines (some content) = some (lit "sha256:" ++ engines.sha256 content)

unfoldable pub payload_hash : Engines → Fields → Option Text
payload_hash engines payload = hash_content engines (engines.dumps_sorted payload)

unfoldable pub passthrough : EngineResult
unfolding lit
passthrough = unverified (lit "passthrough") (some (lit "unverifiable")) no_engine

unfoldable pub route : Engines → InterceptorConfig → Fields → PayloadType → Outcome
route engines config payload financial_transaction =
    if config.enable_financial_verification
    then verify_financial engines.unicode payload
    else returned passthrough
route engines config payload logic_assertion =
    returned (
      if config.enable_logic_verification
      then verify_logic engines.unicode payload
      else passthrough)
route engines config payload code_execution = returned (
    if config.enable_code_verification
    then verify_code engines.scanner max_code_bytes payload
    else passthrough)
route engines config payload data_query = returned passthrough
route engines config payload general = returned passthrough

unfoldable pub route_to_engine : Engines → InterceptorConfig → AgentMessage → Outcome
unfolding route
route_to_engine engines config message = route engines config message.payload message.payload_type

-- How `_run_engine` ends: no slot was free, the budget ran out, the run raised an exception of a
-- type before or besides the engine's own, or the engine ended by itself.
pub data Run : Type 0 where
  busy timed_out completed : Run
  raised : Text → Run

-- The reasons of verdicts, with the values that they interpolate.
pub data VerdictReason : Type 0 where
  unserializable engines_saturated : VerdictReason
  oversized : ℕ → ℕ → VerdictReason
  trust_violation : Option Reason → VerdictReason
  engine_timed_out engine_raised : Text → VerdictReason
  of_engine : EngineReason → VerdictReason
  transfer_blocked : Option EngineReason → Text → VerdictReason

-- What a branch passes to `_build_verdict`.
pub record Decision : Type 0 where
  pub status : VerdictStatus
  pub reason : Option VerdictReason
  pub engine : Text
  pub details : Option EngineResult

abbrev without_details : VerdictStatus → VerdictReason → Text → Decision
without_details status reason engine = record {
  status = status;
  reason = some reason;
  engine = engine;
  details = none;
}

-- `engine_result.get("status") == text`
unfoldable pub has_status : Text → Option Text → Bool
has_status text none = false
has_status text (some status) = status == text

abbrev given_reason : Option EngineReason → Option VerdictReason
given_reason none = none
given_reason (some reason) = some (of_engine reason)

unfoldable pub of_result : AgentMessage → EngineResult → Decision
of_result message r =
    if has_status (lit "unverifiable") r.status
    then record {
      status = unverifiable;
      reason = given_reason r.reason;
      engine = r.engine;
      details = some r;
    }
    else if has_status (lit "heuristic_pass") r.status
    then record {
      status = heuristic_pass;
      reason = given_reason r.reason;
      engine = r.engine;
      details = some r;
    }
    else if r.verified
    then record { status = verified; reason = none; engine = r.engine; details = some r }
    else record {
      status = blocked;
      reason = some (transfer_blocked r.reason message.sender_agent_id);
      engine = r.engine;
      details = some r;
    }

-- What the engine itself returns or raises.
unfoldable pub of_outcome : AgentMessage → Outcome → Decision
unfolding of_result
of_outcome message (returned r) = of_result message r
of_outcome message (raising exc_type) =
    without_details error (engine_raised exc_type) (lit "error_handler")

unfoldable pub of_run : Engines → InterceptorConfig → AgentMessage → Run → Decision
of_run engines config message timed_out =
    without_details error (engine_timed_out config.engine_timeout_seconds) (lit "engine_timeout")
of_run engines config message busy = without_details error engines_saturated (lit "engine_busy")
of_run engines config message (raised exc_type) =
    without_details error (engine_raised exc_type) (lit "error_handler")
of_run engines config message completed =
    of_outcome message (route_to_engine engines config message)

-- From the trust boundary on.
unfoldable pub decide_trusted :
    Engines
    → InterceptorConfig
    → AgentMessage
    → Run
    → Readings
    → TrustBoundary
    → TrustBoundary × Decision
decide_trusted engines config message run t trust =
    let (trust', (allowed, reason)) =
      evaluate message.sender_agent_id message.receiver_agent_id
        (some (type_value message.payload_type)) t trust in
    (
      trust',
      if not allowed
          then without_details blocked (trust_violation reason) (lit "trust_boundary")
          else of_run engines config message run,
    )

unfoldable pub decide_sized :
    Engines
    → InterceptorConfig
    → AgentMessage
    → Run
    → Readings
    → TrustBoundary
    → Option ℕ
    → TrustBoundary × Decision
decide_sized engines config message run t trust none =
    (trust, without_details unverifiable unserializable (lit "size_limit"))
decide_sized engines config message run t trust (some size) =
    if ltb config.max_payload_size_bytes size
    then (
      trust,
      without_details blocked (oversized size config.max_payload_size_bytes) (lit "size_limit"),
    )
    else decide_trusted engines config message run t trust

unfoldable pub decide :
    Engines
    → InterceptorConfig
    → AgentMessage
    → Run
    → Readings
    → TrustBoundary
    → TrustBoundary × Decision
unfolding decide_sized
decide engines config message run t trust =
    decide_sized engines config message run t trust (payload_size engines message.payload)
