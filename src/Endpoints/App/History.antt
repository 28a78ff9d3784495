-- ===== src/Endpoints/App/History.antt =====
-- What stays true of the application through all that happens to it.
use qwed_a2a.Prelude.{
  ℕ, ◌≤◌, inl, inr, refl, sym, ◌∙◌, ap, Bool, true, false, Option, none, some, List, [], ◌∷◌,
  Bool-cases,
}
use qwed_a2a.Prelude.Int.{ℤ}
use qwed_a2a.Prelude.Text.{Text, text-Eq}
use qwed_a2a.Schema.{status-Eq}
use qwed_a2a.Trust.Trace.{Call, after_call}
use qwed_a2a.Crypto.Service.{Jwt}
use qwed_a2a.Crypto.KeyPair.{Keys, found, ensure_key_pair_twice}
use qwed_a2a.Crypto.Jwk.{get_public_key_jwk}
use qwed_a2a.Endpoints.Jwks.{jwks_endpoint}
use qwed_a2a.Interceptor.Message.{JsonLoaded}
use qwed_a2a.Interceptor.Decide.{Engines}
use qwed_a2a.Endpoints.Limits.{Rejection}
use qwed_a2a.Endpoints.Identity.{require_agent_identity}
use qwed_a2a.Endpoints.Gateway.{post_intercept}
use qwed_a2a.Endpoints.App.{
  Environment, Settings, valid_settings, Node, App, Clocks, Request, Event, post, get_jwks,
  get_metrics, get_health, configure, manage, start,
}
use qwed_a2a.Endpoints.App.Serve.{
  swap, configure_interceptor, interceptor_of, serve_limited, serve_post, serve_jwks, manage_trust,
  serve, run_all,
}
use qwed_a2a.Endpoints.App.Boundary.{step-IsClosed}
use qwed_a2a.Endpoints.App.Leaves.{intercept_message-Leaves}
use qwed_a2a.Endpoints.App.Safe.{
  IsNodeSafe, AreSafe, IsSafe, LoadIsSafe, load_new-LoadIsSafe, new_interceptor-AreSafe,
  get_interceptor-IsServing, IsSafe-later,
}

-- When the boundary has last read the monotonic clock, if that was at `now` before the event.
abbrev pub after_event : Event → ℕ → ℕ
after_event (post clocks r) now = r.times.trust.mono
after_event (manage c) now = after_call c now
after_event _ now = now

-- The readings of the monotonic clock rise.
abbrev pub InTime : ℕ → List Event → ℕ → Type 0
InTime before [] end = before ≤ end
InTime before (e ∷ es) end = (before ≤ after_event e before) × InTime (after_event e before) es end

module _ (j : Jwt) (engines : Engines) (lib : Keys j) (loads : Text → JsonLoaded)
    (read_float : Text → Option (Option ℤ)) (rounded : ℕ → ℕ × ℕ → Text) (env : Environment) where
  swap-IsSafe :
      (now : ℕ) (app : App j) (o : Option (Node j × Bool))
      → IsSafe j engines lib loads read_float rounded env now app
      → LoadIsSafe j engines lib loads read_float rounded env now o
      → IsSafe j engines lib loads read_float rounded env now
          (swap j engines lib loads read_float rounded env app o).0
  unfolding swap
  swap-IsSafe now app none safe loaded = safe
  swap-IsSafe now app (some (n, true)) safe loaded = record {
    is_consistent = safe.is_consistent;
    is_node_safe = loaded;
  }
  swap-IsSafe now app (some (n, false)) safe loaded = safe

  configure-IsSafe :
      (clocks : Clocks) (s : Settings) (now : ℕ) (app : App j)
      → IsSafe j engines lib loads read_float rounded env now app
      → IsSafe j engines lib loads read_float rounded env now
          (configure_interceptor j engines lib loads read_float rounded env clocks s app).0
  unfolding configure_interceptor
  configure-IsSafe clocks s now app safe = elim (Bool-cases (valid_settings s)) [
    | inl valid ↦ rw valid (
        swap-IsSafe now app _ safe (
          load_new-LoadIsSafe j engines lib loads read_float rounded env clocks now _ (
            new_interceptor-AreSafe j engines lib loads read_float rounded env clocks s now valid)))
    | inr invalid ↦ rw invalid safe
  ]

  module _ (r : Request) (now : ℕ) (h : now ≤ r.times.trust.mono) where
    serve_limited-IsSafe :
        (app : App j) (n : Node j) (o : Option Rejection)
        → IsSafe j engines lib loads read_float rounded env now app
        → IsNodeSafe j engines lib loads read_float rounded env now n
        → IsSafe j engines lib loads read_float rounded env r.times.trust.mono
            (serve_limited j engines lib loads read_float rounded env r app n o).0
    unfolding serve_limited post_intercept
    serve_limited-IsSafe app n (some rejection) safe held =
        IsSafe-later j engines lib loads read_float rounded env now r.times.trust.mono app h safe
    serve_limited-IsSafe app n none safe held =
        let i = interceptor_of j engines lib loads read_float rounded env n app.metrics in
        let left =
          intercept_message-Leaves j engines i r.message r.trace_id r.run r.times now
            safe.is_consistent held.is_closed h
            (require_agent_identity engines.unicode loads env.api_keys r.api_key) in
        record {
          is_consistent = left.counted;
          is_node_safe = record {
            is_closed = left.still_closed;
            is_large_enough = held.is_large_enough;
            is_bounded = held.is_bounded;
            same_keys = held.same_keys ∙ sym left.keys_kept;
          };
        }

    serve_post-IsSafe :
        (app : App j) (o : Option (Node j))
        → IsSafe j engines lib loads read_float rounded env now app
        → AreSafe j engines lib loads read_float rounded env now o
        → IsSafe j engines lib loads read_float rounded env r.times.trust.mono
            (serve_post j engines lib loads read_float rounded env r (app, o)).0
    unfolding serve_post
    serve_post-IsSafe app none safe held =
        IsSafe-later j engines lib loads read_float rounded env now r.times.trust.mono app h safe
    serve_post-IsSafe app (some n) safe held = serve_limited-IsSafe app n _ safe held

  serve_jwks-IsSafe :
      (now : ℕ) (app : App j) (o : Option (Node j))
      → IsSafe j engines lib loads read_float rounded env now app
      → AreSafe j engines lib loads read_float rounded env now o
      → IsSafe j engines lib loads read_float rounded env now
          (serve_jwks j engines lib loads read_float rounded env (app, o)).0
  unfolding serve_jwks jwks_endpoint get_public_key_jwk
  serve_jwks-IsSafe now app none safe held = safe
  serve_jwks-IsSafe now app (some n) safe held = record {
    is_consistent = safe.is_consistent;
    is_node_safe = record {
      is_closed = held.is_closed;
      is_large_enough = held.is_large_enough;
      is_bounded = held.is_bounded;
      same_keys =
          ap found (ensure_key_pair_twice j lib env.has_crypto env.signing_key n.store)
          ∙ held.same_keys;
    };
  }

  manage_trust-IsSafe :
      (c : Call) (now : ℕ) (app : App j) (o : Option (Node j))
      → now ≤ after_call c now
      → IsSafe j engines lib loads read_float rounded env now app
      → AreSafe j engines lib loads read_float rounded env now o
      → IsSafe j engines lib loads read_float rounded env
          (after_call c now)
          (manage_trust j engines lib loads read_float rounded env c app o).0
  unfolding manage_trust
  manage_trust-IsSafe c now app none h safe held =
      IsSafe-later j engines lib loads read_float rounded env now (after_call c now) app h safe
  manage_trust-IsSafe c now app (some n) h safe held = record {
    is_consistent = safe.is_consistent;
    is_node_safe = record {
      is_closed = step-IsClosed c now n.trust held.is_closed h;
      is_large_enough = held.is_large_enough;
      is_bounded = held.is_bounded;
      same_keys = held.same_keys;
    };
  }

  pub serve-IsSafe :
      (e : Event) (now : ℕ) (app : App j)
      → now ≤ after_event e now
      → IsSafe j engines lib loads read_float rounded env now app
      → IsSafe j engines lib loads read_float rounded env
          (after_event e now)
          (serve j engines lib loads read_float rounded env e app).0
  unfolding serve
  serve-IsSafe (post clocks r) now app h safe =
      let found' =
        get_interceptor-IsServing j engines lib loads read_float rounded env clocks now app safe in
      serve_post-IsSafe r now h _ _ found'.app_safe found'.node_safe
  serve-IsSafe (get_jwks clocks) now app h safe =
      let found' =
        get_interceptor-IsServing j engines lib loads read_float rounded env clocks now app safe in
      serve_jwks-IsSafe now _ _ found'.app_safe found'.node_safe
  serve-IsSafe get_metrics now app h safe = safe
  serve-IsSafe get_health now app h safe = safe
  serve-IsSafe (configure clocks s) now app h safe = configure-IsSafe clocks s now app safe
  serve-IsSafe (manage c) now app h safe =
      manage_trust-IsSafe c now app app.node h safe safe.is_node_safe

  pub start-IsSafe : IsSafe j engines lib loads read_float rounded env 0 (start j)
  start-IsSafe = record {
    is_consistent = record { outcomes = refl; senders = refl };
    is_node_safe = tt;
  }

  -- From a safe application, whatever requests, configurations and calls follow in the order of the
  -- monotonic clock, the application stays safe: the metrics add up, and its interceptor denies
  -- agents that it does not know, has a well-formed boundary and a size limit within the bounds of
  -- the configuration, 1024 and 10485760,, and publishes the key that it signs with.
  pub run_all-IsSafe :
      (es : List Event) (now end : ℕ) (app : App j)
      → IsSafe j engines lib loads read_float rounded env now app
      → InTime now es end
      → IsSafe j engines lib loads read_float rounded env end
          (run_all j engines lib loads read_float rounded env es app)
  unfolding run_all
  run_all-IsSafe [] now end app safe o =
      IsSafe-later j engines lib loads read_float rounded env now end app o safe
  run_all-IsSafe (e ∷ es) now end app safe (h, o) =
      run_all-IsSafe es (after_event e now) end _ (serve-IsSafe e now app h safe) o
