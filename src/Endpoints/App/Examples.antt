-- ===== src/Endpoints/App/Examples.antt =====
-- A process that serves a message of a trusted agent, after other requests.
use qwed_a2a.Prelude.{
  subst, ◌++◌, ◌≢◌, ℕ, ◌≡◌, refl, true, Option, none, some, List, [], ◌∷◌, arith, if◌then◌else◌,
  ◌==◌, nat-Eq,
}
use qwed_a2a.Prelude.Int.{ℤ}
use qwed_a2a.Prelude.Text.{Text, lit, text-Eq}
use qwed_a2a.Schema.{admissible, verified}
use qwed_a2a.Crypto.Sample.{sample_jwt}
use qwed_a2a.Dict.{insert, erase}
use qwed_a2a.Prelude.{discard, add}
use qwed_a2a.Schema.AgentId.{has_control}
use qwed_a2a.Trust.{trust_agent}
use qwed_a2a.Trust.Entry.{is_valid, outside, outside_opt}
use qwed_a2a.Trust.Load.{load_from_env, load_plain, load_names, split_commas}
use qwed_a2a.Crypto.KeyPair.{
  ensure_key_pair, ensure_loaded, load_key, keep_loaded, pair_of, compute_fingerprint, first_text,
}
use qwed_a2a.Crypto.Jwk.{get_public_key_jwk, jwk_of_result, jwk_of, to_bytes}
use qwed_a2a.Interceptor.Code.{is_encodable}
use qwed_a2a.Endpoints.Identity.{
  valid_text, valid_agent_id, ends_with, sanitize_keys_json, usable_keys, keys_of, load_api_keys,
  find_agent, check_key, require_agent_identity,
}
use qwed_a2a.Endpoints.Limits.{reject_declared_oversize, capped_receive, body_limit}
use qwed_a2a.Endpoints.Gateway.{post_intercept, intercept_message, bind_sender}
use qwed_a2a.Endpoints.Jwks.{jwks_endpoint}
use mathlib.Core.Option.{some-injective}
use qwed_a2a.Crypto.Service.{KeyPair, invalid}
use qwed_a2a.Crypto.Sample.{sample_pair, sample-Decodes}
use qwed_a2a.Crypto.Issuers.{nonempty_str}
use qwed_a2a.Endpoints.Jwks.Peer.{IsOther}
use qwed_a2a.Endpoints.Jwks.Examples.{peer, fingerprint, no_json}
use qwed_a2a.Endpoints.App.Relied.{Peer, ReliedOn, serve-ReliedOn}
use qwed_a2a.Endpoints.App.Blocking.{serve-blocked}
use qwed_a2a.Endpoints.App.History.{InTime}
use qwed_a2a.Trust.{block_agent}
use qwed_a2a.Trust.Trace.{block, step}
use qwed_a2a.Endpoints.App.{
  Node, manage, get_metrics, sync_agents, valid_settings, check_size, is_cut,
}
use qwed_a2a.Endpoints.App.Serve.{
  serve_post, serve_limited, serve_jwks, configure_interceptor, get_interceptor, find_interceptor,
  load_new, load_trusted_agents, new_interceptor, interceptor_if, new_crypto, new_store, keep_new,
  swap,
}
use qwed_a2a.Interceptor.Message.{JsonLoaded, parsed, undecodable, string, object, field, no_fields}
use qwed_a2a.Interceptor.Decide.{completed}
use qwed_a2a.Interceptor.Pipeline.{VerificationVerdict}
use qwed_a2a.Interceptor.Examples.{engines, message, times, trace, model}
use qwed_a2a.Endpoints.Limits.{http_request}
use qwed_a2a.Endpoints.Gateway.{answered}
use qwed_a2a.Endpoints.Jwks.Examples.{lib}
use qwed_a2a.Endpoints.App.{
  Environment, App, start, Clocks, Request, gateway, Event, post, get_jwks, get_health, configure,
  default_settings,
}
use qwed_a2a.Endpoints.App.Serve.{serve, run_all}
use qwed_a2a.Endpoints.App.Safe.{IsSafe}
use qwed_a2a.Endpoints.App.History.{start-IsSafe, run_all-IsSafe}
use qwed_a2a.Endpoints.App.Configure.{Configures, configure_interceptor-Configures}
use qwed_a2a.Endpoints.App.Vouched.{Vouched, serve-admissible}

abbrev loads : Text → JsonLoaded
unfolding lit
loads [] = undecodable
loads (c ∷ cs) =
    if c == 123 then parsed (object (field (lit "k") (string (lit "a")) no_fields)) else undecodable

abbrev no_float : Text → Option (Option ℤ)
no_float text = none

abbrev no_digits : ℕ → ℕ × ℕ → Text
no_digits places quotient = []

abbrev env : Environment
env = record {
  has_crypto = true;
  signing_key = lit "s";
  trusted_agents = lit "a";
  api_keys = lit "{\"k\":\"a\"}";
  deployment_id = lit "prod";
}

abbrev clocks : Clocks
clocks = record { sync = λ k. 1; load = λ k. 2 }

abbrev request : Request
request = record {
  declared = none;
  body = http_request 100 ∷ [];
  message = message;
  api_key = some (lit "k");
  trace_id = trace;
  run = completed;
  times = times;
}

abbrev first_events : List Event
first_events = get_health ∷ (configure clocks default_settings ∷ (get_jwks clocks ∷ []))

-- An agent is blocked that no message concerns.
abbrev other : Text
other = lit "z"

abbrev events : List Event
events = first_events ++ (manage (block other) ∷ (get_metrics ∷ []))

abbrev app : App sample_jwt
app = run_all sample_jwt engines lib loads no_float no_digits env events (start sample_jwt)

-- What the runs below unfold.
runs : Unit {0}
unfolding model step block_agent serve serve_post serve_limited serve_jwks configure_interceptor
    get_interceptor find_interceptor load_new load_trusted_agents new_interceptor interceptor_if
    new_crypto new_store keep_new swap sync_agents run_all valid_settings default_settings
    check_size is_cut load_from_env load_plain load_names split_commas trust_agent discard add
    reject_declared_oversize capped_receive body_limit post_intercept intercept_message bind_sender
    require_agent_identity check_key load_api_keys keys_of usable_keys sanitize_keys_json ends_with
    valid_agent_id valid_text is_encodable find_agent has_control erase jwks_endpoint
    get_public_key_jwk jwk_of_result jwk_of to_bytes ensure_key_pair ensure_loaded load_key
    keep_loaded pair_of compute_fingerprint first_text is_valid insert loads outside outside_opt
runs = tt

answer :
    (v : VerificationVerdict) × ((serve sample_jwt engines lib loads no_float no_digits env
        (post clocks request)
        app).1
      ≡ gateway (answered v))
    × (v.status ≡ verified)
unfolding runs
answer = (_, refl, refl)

in_time : InTime 0 events 0
in_time = (omega arith, (omega arith, (omega arith, (omega arith, (omega arith, omega arith)))))

serve-admissible_example :
    Vouched sample_jwt engines lib loads no_float no_digits env clocks request app answer.0
unfolding admissible
serve-admissible_example =
    serve-admissible sample_jwt engines lib loads no_float no_digits env events 0 clocks request
      answer.0 in_time answer.1 (rw answer.2 refl)

run_all-IsSafe_example : IsSafe sample_jwt engines lib loads no_float no_digits env 0 app
run_all-IsSafe_example =
    run_all-IsSafe sample_jwt engines lib loads no_float no_digits env events 0 0 (start sample_jwt)
      (start-IsSafe sample_jwt engines lib loads no_float no_digits env) in_time

configure_interceptor-Configures_example :
    Configures sample_jwt engines lib loads no_float no_digits env clocks default_settings app (
      configure_interceptor sample_jwt engines lib loads no_float no_digits env clocks
        default_settings app)
configure_interceptor-Configures_example =
    configure_interceptor-Configures sample_jwt engines lib loads no_float no_digits env clocks
      default_settings app

in_place :
    (n : Node sample_jwt) × ((run_all sample_jwt engines lib loads no_float no_digits env
        first_events
        (start sample_jwt)).node
      ≡ some n)
unfolding runs
in_place = (_, refl)

serve-blocked_example :
    (w : Vouched sample_jwt engines lib loads no_float no_digits env clocks request app answer.0)
    × (w.agent ≢ other)
    × (lit "b" ≢ other)
unfolding admissible
serve-blocked_example =
    serve-blocked sample_jwt engines lib loads no_float no_digits env first_events
      (get_metrics ∷ []) 0 other in_place.0 clocks request answer.0 in_time in_place.1 tt answer.1
      (rw answer.2 refl)

current :
    (n : Node sample_jwt) × ((get_interceptor sample_jwt engines lib loads no_float no_digits env
        clocks app).1
      ≡ some n)
unfolding runs
current = (_, refl)

abbrev relying : Peer sample_jwt
relying = record {
  crypto = peer;
  fingerprint = fingerprint;
  loads = no_json;
  env_raw = [];
  now = 6000000;
}

abbrev keys : KeyPair sample_jwt
unfolding lit
keys = sample_pair (lit "did:qwed:a2a:local#key-s") (lit "s")

IsOther-token :
    (token : Text)
    → answer.0.attestation_jwt ≡ some token
    → IsOther sample_jwt fingerprint keys token 6000000 peer.key_pair
unfolding runs answer
IsOther-token token e = (
  subst (λ t. sample_jwt.decode 6000000 (9 ∷ []) t ≡ invalid) (some-injective _ token e) refl,
  (λ h. absurd (cc)),
)

serve-ReliedOn_example :
    ReliedOn sample_jwt engines lib loads no_float no_digits env current.0 relying request answer.0
      (serve sample_jwt engines lib loads no_float no_digits env (post clocks request) app).0
      clocks
unfolding runs nonempty_str current answer
serve-ReliedOn_example =
    serve-ReliedOn sample_jwt engines lib loads no_float no_digits env events 0 clocks clocks
      request answer.0 current.0 relying keys in_time current.1 answer.1 refl
      (record { x_fits = omega arith; y_fits = omega arith; is_point = refl })
      (sample-Decodes (lit "did:qwed:a2a:local#key-s") (lit "s")) (λ h. absurd (cc))
      (λ h. absurd (cc)) (omega arith) (omega arith) refl refl IsOther-token tt
      (λ held h. absurd (cc))
