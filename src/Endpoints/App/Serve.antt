-- ===== src/Endpoints/App/Serve.antt =====
-- The interceptor of the process: how it comes about and is replaced, and the requests that it serves.
use qwed_a2a.Prelude.{ℕ, Bool, true, false, Option, none, some, List, [], ◌∷◌, if◌then◌else◌}
use qwed_a2a.Prelude.Int.{ℤ}
use qwed_a2a.Prelude.Text.{Text, lit}
use qwed_a2a.Telemetry.{InterceptMetrics}
use qwed_a2a.Telemetry.Report.{to_dict}
use qwed_a2a.Trust.{init}
use qwed_a2a.Trust.Trace.{Call, step}
use qwed_a2a.Trust.Load.{load_from_env}
use qwed_a2a.Crypto.Service.{Jwt, CryptoService, new_service}
use qwed_a2a.Crypto.KeyPair.{Keys, KeyStore, found, ensure_key_pair}
use qwed_a2a.Interceptor.Message.{JsonLoaded}
use qwed_a2a.Interceptor.Decide.{Engines}
use qwed_a2a.Interceptor.Pipeline.{Interceptor}
use qwed_a2a.Endpoints.Limits.{body_limit, Rejection}
use qwed_a2a.Endpoints.Gateway.{post_intercept}
use qwed_a2a.Endpoints.Jwks.{JwksResponse, jwks_endpoint}
use qwed_a2a.Endpoints.App.{
  Environment, Settings, default_settings, valid_settings, Node, App, Clocks, Request, Reply,
  rejected, gateway, key_reply, report, healthy, accepted, refused, internal_error, Event, post,
  get_jwks, get_metrics, get_health, configure, manage, check_size, sync_agents,
}

module _ (j : Jwt) (engines : Engines) (lib : Keys j) (loads : Text → JsonLoaded)
    (read_float : Text → Option (Option ℤ)) (rounded : ℕ → ℕ × ℕ → Text) (env : Environment) where
  unfoldable pub new_store : KeyStore j
  unfolding lit
  new_store = record { issuer_id = lit "did:qwed:a2a:local"; pem_key = none; key_pair = none }

  -- `A2ACryptoService()`, with the key pair that its first use loads.
  unfoldable pub new_crypto : CryptoService j
  unfolding new_store
  new_crypto =
      new_service j new_store.issuer_id 300 env.deployment_id
        (found (ensure_key_pair j lib env.has_crypto env.signing_key new_store).1)

  unfoldable pub interceptor_if : Bool → Clocks → Settings → Option (Node j)
  unfolding sync_agents new_crypto
  interceptor_if true clocks s = some (record {
    config = s.config;
    trust = sync_agents clocks.sync 0 s.trusted_agents (init 60 false);
    crypto = new_crypto;
    store = new_store;
  })
  interceptor_if false clocks s = none

  -- `A2AVerificationInterceptor(config)`, with `none` for its `RuntimeError`.
  unfoldable pub new_interceptor : Clocks → Settings → Option (Node j)
  unfolding interceptor_if
  new_interceptor clocks s = interceptor_if env.has_crypto clocks s

  -- `_load_trusted_agents`, with `false` for an exception.
  unfoldable pub load_trusted_agents : Clocks → Text → Node j → Node j × Bool
  unfolding lit
  load_trusted_agents clocks [] n = (n, true)
  load_trusted_agents clocks (c ∷ cs) n =
      let (trust, loaded) =
        load_from_env engines.unicode loads read_float clocks.load (c ∷ cs) (lit "env") n.trust in
      (record n { trust = trust }, loaded)

  unfoldable pub keep_new : App j → Option (Node j × Bool) → App j × Option (Node j)
  keep_new app none = (app, none)
  keep_new app (some (n, loaded)) = (record app { node = some n }, if loaded then some n else none)

  unfoldable pub load_new : Clocks → Option (Node j) → Option (Node j × Bool)
  unfolding load_trusted_agents
  load_new clocks none = none
  load_new clocks (some n) = some (load_trusted_agents clocks env.trusted_agents n)

  -- The new interceptor is in place before the trusted agents are loaded.
  unfoldable pub find_interceptor : Clocks → App j → Option (Node j) → App j × Option (Node j)
  unfolding keep_new load_new new_interceptor
  find_interceptor clocks app (some n) = (app, some n)
  find_interceptor clocks app none =
      keep_new app (load_new clocks (new_interceptor clocks default_settings))

  -- `get_interceptor`
  unfoldable pub get_interceptor : Clocks → App j → App j × Option (Node j)
  unfolding find_interceptor
  get_interceptor clocks app = find_interceptor clocks app app.node

  unfoldable pub swap : App j → Option (Node j × Bool) → App j × Reply
  swap app none = (app, internal_error)
  swap app (some (n, true)) = (record app { node = some n }, accepted)
  swap app (some (n, false)) = (app, internal_error)

  -- `configure_interceptor`, of a configuration that the model accepts.
  unfoldable pub configure_interceptor : Clocks → Settings → App j → App j × Reply
  unfolding swap load_new new_interceptor
  configure_interceptor clocks s app =
      if valid_settings s
      then swap app (load_new clocks (new_interceptor clocks s))
      else (app, refused)

  abbrev pub interceptor_of : Node j → InterceptMetrics → Interceptor j
  interceptor_of n metrics = record {
    config = n.config;
    trust = n.trust;
    crypto = n.crypto;
    metrics = metrics;
  }

  abbrev pub updated : Node j → Interceptor j → App j
  updated n i = record {
    node = some (record n { trust = i.trust; crypto = i.crypto });
    metrics = i.metrics;
  }

  -- `size_limited_handler`, and the route behind it.
  unfoldable pub serve_limited : Request → App j → Node j → Option Rejection → App j × Reply
  serve_limited r app n (some rejection) = (app, rejected rejection)
  serve_limited r app n none =
      let (i, response) =
        post_intercept j engines (interceptor_of n app.metrics) r.message r.trace_id r.run r.times
          loads env.api_keys r.api_key in
      (updated n i, gateway response)

  unfoldable pub serve_post : Request → App j × Option (Node j) → App j × Reply
  unfolding serve_limited check_size
  serve_post r (app, none) = (app, internal_error)
  serve_post r (app, some n) =
      serve_limited r app n (check_size (body_limit n.config.max_payload_size_bytes) r)

  unfoldable pub serve_jwks : App j × Option (Node j) → App j × Reply
  serve_jwks (app, none) =
      (app, key_reply (if env.has_crypto then JwksResponse.uncaught else JwksResponse.unavailable))
  serve_jwks (app, some n) =
      let (store, response) = jwks_endpoint j lib env.has_crypto env.signing_key n.store in
      (record app { node = some (record n { store = store }) }, key_reply response)

  unfoldable pub manage_trust : Call → App j → Option (Node j) → App j × Reply
  manage_trust c app none = (app, refused)
  manage_trust c app (some n) =
      (record app { node = some (record n { trust = step c n.trust }) }, accepted)

  unfoldable pub serve : Event → App j → App j × Reply
  unfolding serve_post serve_jwks configure_interceptor manage_trust
  serve (post clocks r) app = serve_post r (get_interceptor clocks app)
  serve (get_jwks clocks) app = serve_jwks (get_interceptor clocks app)
  serve get_metrics app = (app, report (to_dict rounded app.metrics))
  serve get_health app = (app, healthy)
  serve (configure clocks s) app = configure_interceptor clocks s app
  serve (manage c) app = manage_trust c app app.node

  unfoldable pub run_all : List Event → App j → App j
  unfolding serve
  run_all [] app = app
  run_all (e ∷ es) app = run_all es (serve e app).0
