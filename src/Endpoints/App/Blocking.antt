-- ===== src/Endpoints/App/Blocking.antt =====
-- A block that is put on an agent of the running application.
use qwed_a2a.Prelude.{
  ℕ, ◌≡◌, ◌≢◌, refl, sym, ◌∙◌, ap, subst, true, Option, none, some, List, [], ◌∷◌, ◌++◌,
}
use mathlib.Core.Option.{some-injective}
use qwed_a2a.Prelude.Int.{ℤ}
use qwed_a2a.Prelude.Text.{Text}
use qwed_a2a.Schema.{admissible, type_value}
use qwed_a2a.Trust.{TrustBoundary, block_agent, evaluate}
use qwed_a2a.Trust.Trace.{Call, block, step, run}
use qwed_a2a.Trust.Revocation.{NoGrant, block_agent_holds}
use qwed_a2a.Crypto.Service.{Jwt}
use qwed_a2a.Crypto.KeyPair.{Keys}
use qwed_a2a.Interceptor.Message.{JsonLoaded}
use qwed_a2a.Interceptor.Decide.{Engines}
use qwed_a2a.Interceptor.Pipeline.{VerificationVerdict}
use qwed_a2a.Endpoints.Limits.{Rejection}
use qwed_a2a.Endpoints.Identity.{require_agent_identity}
use qwed_a2a.Endpoints.Gateway.{answered, post_intercept}
use qwed_a2a.Endpoints.App.{
  Environment, Node, App, start, Clocks, Request, gateway, Event, post, get_jwks, get_metrics,
  get_health, configure, manage,
}
use qwed_a2a.Endpoints.App.Serve.{
  find_interceptor, get_interceptor, interceptor_of, serve_limited, serve_post, serve_jwks,
  manage_trust, serve, run_all,
}
use qwed_a2a.Endpoints.App.History.{InTime}
use qwed_a2a.Endpoints.App.Vouched.{Vouched, serve-admissible}
use qwed_a2a.Endpoints.App.Quietly.{Quietly, Quietly-same, Quietly-both, intercept_message-Quietly}

-- Events that neither replace the interceptor nor trust the agent.
abbrev pub LeavesBlocked : Text → List Event → Type 0
LeavesBlocked a [] = Unit
LeavesBlocked a (configure clocks s ∷ es) = ⊥
LeavesBlocked a (manage c ∷ es) = NoGrant a (c ∷ []) × LeavesBlocked a es
LeavesBlocked a (post clocks r ∷ es) = LeavesBlocked a es
LeavesBlocked a (get_jwks clocks ∷ es) = LeavesBlocked a es
LeavesBlocked a (get_metrics ∷ es) = LeavesBlocked a es
LeavesBlocked a (get_health ∷ es) = LeavesBlocked a es

module _ (j : Jwt) (engines : Engines) (lib : Keys j) (loads : Text → JsonLoaded)
    (read_float : Text → Option (Option ℤ)) (rounded : ℕ → ℕ × ℕ → Text) (env : Environment) where
  -- An interceptor that is in place, whose boundary comes quietly of another.
  pub record Stays (a : Text) (b : TrustBoundary) (app : App j) : Type 0 where
    pub node : Node j
    pub is_node : app.node ≡ some node
    pub quietly : Quietly a b node.trust

  pub get_interceptor-is :
      (clocks : Clocks) (app : App j) (n : Node j)
      → app.node ≡ some n
      → get_interceptor j engines lib loads read_float rounded env clocks app ≡ (app, some n)
  unfolding get_interceptor find_interceptor
  get_interceptor-is clocks app n is = rw is refl

  serve_limited-Stays :
      (a : Text) (r : Request) (app : App j) (n : Node j) (o : Option Rejection)
      → app.node ≡ some n
      → Stays a n.trust (serve_limited j engines lib loads read_float rounded env r app n o).0
  unfolding serve_limited post_intercept
  serve_limited-Stays a r app n (some rejection) is = record {
    node = n;
    is_node = is;
    quietly = Quietly-same a n.trust;
  }
  serve_limited-Stays a r app n none is = record {
    node = _;
    is_node = refl;
    quietly =
        intercept_message-Quietly a j engines
          (interceptor_of j engines lib loads read_float rounded env n app.metrics) r.message
          r.trace_id r.run r.times
          (require_agent_identity engines.unicode loads env.api_keys r.api_key);
  }

  Stays-on :
      (a : Text) (b : TrustBoundary) (n : Node j) (app : App j)
      → Quietly a b n.trust
      → Stays a n.trust app
      → Stays a b app
  Stays-on a b n app quietly s = record {
    node = s.node;
    is_node = s.is_node;
    quietly = Quietly-both a b n.trust s.node.trust quietly s.quietly;
  }

  serve_post-Stays :
      (a : Text) (clocks : Clocks) (r : Request) (app : App j) (n : Node j)
      → app.node ≡ some n
      → Stays a n.trust
          (serve_post j engines lib loads read_float rounded env r
            (get_interceptor j engines lib loads read_float rounded env clocks app)).0
  unfolding serve_post
  serve_post-Stays a clocks r app n is =
      rw (get_interceptor-is clocks app n is) (serve_limited-Stays a r app n _ is)

  serve_jwks-Stays :
      (a : Text) (clocks : Clocks) (app : App j) (n : Node j)
      → app.node ≡ some n
      → Stays a n.trust
          (serve_jwks j engines lib loads read_float rounded env
            (get_interceptor j engines lib loads read_float rounded env clocks app)).0
  unfolding serve_jwks
  serve_jwks-Stays a clocks app n is =
      rw (get_interceptor-is clocks app n is)
        (record { node = _; is_node = refl; quietly = Quietly-same a n.trust })

  manage_trust-Stays :
      (a : Text) (c : Call) (app : App j) (n : Node j)
      → NoGrant a (c ∷ [])
      → Stays a n.trust (manage_trust j engines lib loads read_float rounded env c app (some n)).0
  unfolding manage_trust run
  manage_trust-Stays a c app n no_grant = record {
    node = _;
    is_node = refl;
    quietly = record { calls = c ∷ []; is_run = refl; no_grant = no_grant };
  }

  run_all-Stays :
      (a : Text) (es : List Event) (app : App j) (b : TrustBoundary)
      → LeavesBlocked a es
      → Stays a b app
      → Stays a b (run_all j engines lib loads read_float rounded env es app)
  unfolding run_all serve
  run_all-Stays a [] app b l s = s
  run_all-Stays a (configure clocks settings ∷ es) app b l s = absurd l
  run_all-Stays a (get_metrics ∷ es) app b l s = run_all-Stays a es app b l s
  run_all-Stays a (get_health ∷ es) app b l s = run_all-Stays a es app b l s
  run_all-Stays a (post clocks r ∷ es) app b l s =
      run_all-Stays a es _ b l
        (Stays-on a b s.node _ s.quietly (serve_post-Stays a clocks r app s.node s.is_node))
  run_all-Stays a (get_jwks clocks ∷ es) app b l s =
      run_all-Stays a es _ b l
        (Stays-on a b s.node _ s.quietly (serve_jwks-Stays a clocks app s.node s.is_node))
  run_all-Stays a (manage c ∷ es) app b l s =
      run_all-Stays a es _ b l.1
        (Stays-on a b s.node _ s.quietly (rw s.is_node (manage_trust-Stays a c app s.node l.0)))

  -- Whom an answer that permits acting on a message does not concern.
  Vouched-others :
      (a : Text) (b : TrustBoundary) (clocks : Clocks) (r : Request) (app : App j)
      (v : VerificationVerdict)
      (w : Vouched j engines lib loads read_float rounded env clocks r app v)
      → Stays a (block_agent a b) app
      → (w.agent ≢ a) × (r.message.receiver_agent_id ≢ a)
  Vouched-others a b clocks r app v w s =
      let receiver = r.message.receiver_agent_id in
      let kind = some (type_value r.message.payload_type) in
      let t = r.times.trust in
      let cs = s.quietly.calls in
      let same : w.node ≡ s.node =
        some-injective w.node s.node
          (sym w.is_current ∙ ap (λ x. x.1) (get_interceptor-is clocks app s.node s.is_node)) in
      let boundary : w.node.trust ≡ run cs (block_agent a b) =
        ap (λ (n : Node j). n.trust) same ∙ s.quietly.is_run in
      let through : (evaluate w.agent receiver kind t (run cs (block_agent a b))).1.0 ≡ true =
        subst (λ x. (evaluate w.agent receiver kind t x).1.0 ≡ true) boundary w.passed.trusted in
      (
        (λ e. cc (
          subst (λ x. (evaluate x receiver kind t (run cs (block_agent a b))).1.0 ≡ true) e through,
          (block_agent_holds a receiver kind t cs b s.quietly.no_grant).0.1,
        )),
        (λ e. cc (
          subst (λ x. (evaluate w.agent x kind t (run cs (block_agent a b))).1.0 ≡ true) e through,
          (block_agent_holds a w.agent kind t cs b s.quietly.no_grant).1.1,
        )),
      )

  run_all-append :
      (es ds : List Event) (app : App j)
      → run_all j engines lib loads read_float rounded env (es ++ ds) app
        ≡ run_all j engines lib loads read_float rounded env ds
            (run_all j engines lib loads read_float rounded env es app)
  unfolding run_all
  run_all-append [] ds app = refl
  run_all-append (e ∷ es) ds app =
      run_all-append es ds (serve j engines lib loads read_float rounded env e app).0

  block-Stays :
      (a : Text) (app : App j) (n : Node j)
      → app.node ≡ some n
      → Stays a
          (block_agent a n.trust)
          (serve j engines lib loads read_float rounded env (manage (block a)) app).0
  unfolding serve manage_trust step
  block-Stays a app n is = rw is (record {
    node = record n { trust = block_agent a n.trust };
    is_node = refl;
    quietly = Quietly-same a (block_agent a n.trust);
  })

  -- If the application, after any history since its start in the order of the monotonic clock,
  -- blocks an agent while it has an interceptor, and then serves requests and calls of the trust
  -- boundary of which none trusts that agent, and no new configuration, then an answer of the
  -- intercept route that permits acting on a message is for a key of another agent, and for a
  -- message to another agent.
  pub serve-blocked :
      (es later : List Event) (end : ℕ) (a : Text) (n : Node j) (clocks : Clocks) (r : Request)
      (v : VerificationVerdict)
      → InTime 0 (es ++ (manage (block a) ∷ later)) end
      → (run_all j engines lib loads read_float rounded env es (start j)).node ≡ some n
      → LeavesBlocked a later
      → let app =
          run_all j engines lib loads read_float rounded env
            (es ++ (manage (block a) ∷ later))
            (start j) in
        (serve j engines lib loads read_float rounded env (post clocks r) app).1
          ≡ gateway (answered v)
        → admissible v.status ≡ true
        → (w : Vouched j engines lib loads read_float rounded env clocks r app v) × (w.agent ≢ a)
          × (r.message.receiver_agent_id ≢ a)
  serve-blocked es later end a n clocks r v in_time is quiet h admits =
      let events = es ++ (manage (block a) ∷ later) in
      let before = run_all j engines lib loads read_float rounded env es (start j) in
      let app = run_all j engines lib loads read_float rounded env events (start j) in
      let w =
        serve-admissible j engines lib loads read_float rounded env events end clocks r v in_time h
          admits in
      let stays : Stays a (block_agent a n.trust) app =
        subst (Stays a (block_agent a n.trust))
          (sym (run_all-append es (manage (block a) ∷ later) (start j)))
          (unfold run_all in
            run_all-Stays a later _ (block_agent a n.trust) quiet (block-Stays a before n is)) in
      let (agent, receiver) = Vouched-others a n.trust clocks r app v w stays in
      (w, agent, receiver)
