-- ===== src/Endpoints/App.antt =====
-- The application: the interceptor of the process, and the requests that it serves.
--
-- The environment keeps its values while the process runs, and each request is one step.
pub mod Serve
pub mod Boundary
pub mod Leaves
pub mod Safe
pub mod History
pub mod Vouched
pub mod Configure
pub mod Quietly
pub mod Blocking
pub mod Relied
mod Examples
use qwed_a2a.Prelude.{
  ℕ, suc, ◌+◌, ◌≤◌, ◌≡◌, Bool, true, false, ◌&&◌, Option, none, some, List, [], ◌∷◌, ltb, leb,
  if◌then◌else◌,
}
use qwed_a2a.Prelude.Int.{ℤ}
use qwed_a2a.Prelude.Text.{Text, lit}
use qwed_a2a.Telemetry.{InterceptMetrics, no_metrics}
use qwed_a2a.Telemetry.Report.{to_dict}
use qwed_a2a.Trust.{TrustBoundary, init, trust_agent}
use qwed_a2a.Trust.Trace.{Call, step}
use qwed_a2a.Trust.Load.{load_from_env}
use qwed_a2a.Crypto.Service.{Jwt, CryptoService, new_service}
use qwed_a2a.Crypto.KeyPair.{Keys, KeyStore, found, ensure_key_pair}
use qwed_a2a.Interceptor.Message.{Value, AgentMessage}
use qwed_a2a.Interceptor.Decide.{InterceptorConfig, Engines, Run}
use qwed_a2a.Interceptor.Pipeline.{Times, Interceptor}
use qwed_a2a.Endpoints.Limits.{
  body_limit, Rejection, body_too_large, reject_declared_oversize, capped_receive, Received,
}
use qwed_a2a.Endpoints.Gateway.{Response, post_intercept}
use qwed_a2a.Endpoints.Jwks.{JwksResponse, jwks_endpoint}

-- HAS_CRYPTO, the values of QWED_A2A_SIGNING_KEY_PEM, QWED_A2A_TRUSTED_AGENTS and QWED_A2A_API_KEYS,
-- and the id of the deployment.
pub record Environment : Type 0 where
  pub has_crypto : Bool
  pub signing_key : Text
  pub trusted_agents : Text
  pub api_keys : Text
  pub deployment_id : Text

-- An `InterceptorConfig`: what the pipeline reads of it, and the agents that it trusts.
pub record Settings : Type 0 where
  pub config : InterceptorConfig
  pub trusted_agents : List Text

unfoldable pub default_settings : Settings
unfolding lit
default_settings = record {
  config = record {
    enable_financial_verification = true;
    enable_logic_verification = true;
    enable_code_verification = true;
    max_payload_size_bytes = 1048576;
    engine_timeout_seconds = lit "5.0";
  };
  trusted_agents = [];
}

-- The bounds that the model checks of `max_payload_size_bytes`.
unfoldable pub valid_settings : Settings → Bool
valid_settings s =
    leb 1024 s.config.max_payload_size_bytes && leb s.config.max_payload_size_bytes 10485760

-- An interceptor, without the metrics, which belong to the process.
pub record Node (j : Jwt) : Type 0 where
  pub config : InterceptorConfig
  pub trust : TrustBoundary
  pub crypto : CryptoService j
  pub store : KeyStore j

-- `_interceptor`, and `_metrics`.
pub record App (j : Jwt) : Type 0 where
  pub node : Option (Node j)
  pub metrics : InterceptMetrics

abbrev pub start : (j : Jwt) → App j
start j = record { node = none; metrics = no_metrics }

-- The readings of `time.time()` for the grants of the configuration and for those of the
-- environment.
pub record Clocks : Type 0 where
  pub sync : ℕ → ℕ
  pub load : ℕ → ℕ

-- A request to the intercept route, whose body is a message.
pub record Request : Type 0 where
  pub declared : Option Text
  pub body : List Received
  pub message : AgentMessage
  pub api_key : Option Text
  pub trace_id : Text
  pub run : Run
  pub times : Times

pub data Reply : Type 0 where
  rejected : Rejection → Reply
  gateway : Response → Reply
  key_reply : JwksResponse → Reply
  report : Value → Reply
  healthy accepted refused internal_error : Reply

-- What happens to the application: requests to its routes, a new configuration, and calls of the
-- trust boundary of the interceptor.
pub data Event : Type 0 where
  post : Clocks → Request → Event
  get_jwks : Clocks → Event
  get_metrics get_health : Event
  configure : Clocks → Settings → Event
  manage : Call → Event

abbrev stops : Option Received → Bool → Bool
stops none later = true
stops (some handed_on) later = later

-- Whether `capped` raises while the body is received.
unfoldable pub is_cut : ℕ → ℕ → List Received → Bool
is_cut limit received [] = false
is_cut limit received (message ∷ messages) =
    let (received', o) = capped_receive limit received message in
    stops o (is_cut limit received' messages)

abbrev pub first_rejection : Option Rejection → Bool → Option Rejection
first_rejection (some rejection) cut = some rejection
first_rejection none cut = if cut then some body_too_large else none

unfoldable pub check_size : ℕ → Request → Option Rejection
unfolding is_cut
check_size limit r =
    first_rejection (reject_declared_oversize r.declared limit) (is_cut limit 0 r.body)

unfoldable pub sync_agents : (ℕ → ℕ) → ℕ → List Text → TrustBoundary → TrustBoundary
unfolding lit
sync_agents clock k [] b = b
sync_agents clock k (agent ∷ agents) b =
    sync_agents clock (suc k) agents (trust_agent agent none none none (lit "config") (clock k) b)
