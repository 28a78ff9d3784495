-- ===== src/Endpoints/App/Vouched.antt =====
-- What an answer of the application vouches for when it permits acting on a message.
use qwed_a2a.Prelude.{
  ℕ, ◌+◌, ◌≤◌, ◌≡◌, inl, inr, refl, sym, ◌∙◌, ap, subst, Bool, true, false, Option, none, some,
  List, [], ◌∷◌, arith, Bool-cases, ltb,
}
use qwed_a2a.Prelude.Int.{ℤ}
use qwed_a2a.Prelude.Text.{Text}
use qwed_a2a.Schema.{admissible, type_value}
use qwed_a2a.Trust.{TrustBoundary, Readings, evaluate}
use qwed_a2a.Trust.Entry.{TrustEntry}
use qwed_a2a.Trust.Decision.{Live, Admits, evaluate_decides}
use qwed_a2a.Crypto.Service.{Jwt}
use qwed_a2a.Crypto.KeyPair.{Keys}
use qwed_a2a.Interceptor.Message.{JsonLoaded, AgentMessage}
use qwed_a2a.Interceptor.Decide.{Engines}
use qwed_a2a.Interceptor.Pipeline.{VerificationVerdict}
use qwed_a2a.Interceptor.Verdict.{Passed, decide-admissible}
use qwed_a2a.Endpoints.Limits.{
  body_limit, Rejection, reject_declared_oversize, capped_receive, Received, http_request,
  other_event, body_bytes,
}
use qwed_a2a.Endpoints.Identity.{header_text}
use qwed_a2a.Endpoints.Identity.Granted.{Granted}
use qwed_a2a.Endpoints.Gateway.{
  Response, unavailable, answered, post_intercept, post_intercept-Authenticated,
}
use qwed_a2a.Endpoints.App.{
  Environment, Node, App, start, Clocks, Request, Reply, gateway, Event, post, is_cut,
  first_rejection, check_size,
}
use qwed_a2a.Endpoints.App.Serve.{
  get_interceptor, interceptor_of, serve_limited, serve_post, serve, run_all,
}
use qwed_a2a.Endpoints.App.History.{InTime, start-IsSafe, run_all-IsSafe}
use qwed_a2a.Endpoints.App.Safe.{IsNodeSafe, AreSafe, IsSafe, get_interceptor-IsServing}

-- A body that is not cut is within the limit.
is_cut-within :
    (limit received : ℕ) (messages : List Received)
    → received ≤ limit
    → is_cut limit received messages ≡ false
    → received + body_bytes messages ≤ limit
unfolding is_cut capped_receive
is_cut-within limit received [] h = λ uncut. omega arith
is_cut-within limit received (other_event ∷ messages) h =
    λ uncut. is_cut-within limit received messages h uncut
is_cut-within limit received (http_request body ∷ messages) h =
    elim (Bool-cases (ltb limit (received + body))) [
      | inl over ↦ rw over (λ uncut. absurd (cc))
      | inr fits ↦ rw fits (λ uncut.
          omega (arith, is_cut-within limit (received + body) messages (ground arith) uncut))
    ]

first_rejection-none :
    (o : Option Rejection) (cut : Bool) → first_rejection o cut ≡ none → cut ≡ false
first_rejection-none (some rejection) cut h = absurd (cc)
first_rejection-none none true h = absurd (cc)
first_rejection-none none false h = refl

check_size-within :
    (limit : ℕ) (r : Request) → check_size limit r ≡ none → body_bytes r.body ≤ limit
unfolding check_size
check_size-within limit r h = omega (
  arith,
  is_cut-within limit 0 r.body (omega arith)
      (first_rejection-none (reject_declared_oversize r.declared limit) (is_cut limit 0 r.body) h),
)

-- In a boundary that denies whom it does not know, a request that is let through has a live grant
-- of its sender, whose scopes cover it.
granted_by_entry :
    (s r : Text) (p : Option Text) (t : Readings) (b : TrustBoundary)
    → b.default_allow ≡ false
    → (evaluate s r p t b).1.0 ≡ true
    → (e : TrustEntry) × Live b s t.wall e × Admits e r p
granted_by_entry s r p t b closed through = elim (evaluate_decides s r p t b) [
  | inl (permits, _) ↦
      let (e, live) = permits.sender_known closed in (e, live, permits.sender_admits e live)
  | inr (_, (reason, e)) ↦ absurd (ground (arith, ap (λ x. x.1.0) e))
]

response_of : Response → Reply → Response
response_of default (gateway response) = response
response_of default _ = default

verdict_in : VerificationVerdict → Response → VerificationVerdict
verdict_in default (answered v) = v
verdict_in default _ = default

module _ (j : Jwt) (engines : Engines) (lib : Keys j) (loads : Text → JsonLoaded)
    (read_float : Text → Option (Option ℤ)) (rounded : ℕ → ℕ × ℕ → Text) (env : Environment) where
  module _ (r : Request) (v : VerificationVerdict) where
    pub serve_limited-answers :
        (app : App j) (n : Node j) (o : Option Rejection)
        → (serve_limited j engines lib loads read_float rounded env r app n o).1
          ≡ gateway (answered v)
        → (o ≡ none)
          × ((post_intercept j engines
                (interceptor_of j engines lib loads read_float rounded env n app.metrics)
                r.message
                r.trace_id
                r.run
                r.times
                loads
                env.api_keys
                r.api_key).1
              ≡ answered v)
    unfolding serve_limited response_of
    serve_limited-answers app n (some rejection) h = absurd (cc)
    serve_limited-answers app n none h = (refl, ap (response_of unavailable) h)

    pub serve_post-answers :
        (app : App j) (o : Option (Node j))
        → (serve_post j engines lib loads read_float rounded env r (app, o)).1
          ≡ gateway (answered v)
        → (n : Node j) × (o ≡ some n)
          × ((serve_limited j engines lib loads read_float rounded env r app n
                (check_size (body_limit n.config.max_payload_size_bytes) r)).1
              ≡ gateway (answered v))
    unfolding serve_post
    serve_post-answers app none h = absurd (cc)
    serve_post-answers app (some n) h = (n, refl, h)

  -- The interceptor that answers, the agent whose key the request has, its grant, the checks that
  -- the message passed under that agent's name, and the size of the request.
  pub record Vouched (clocks : Clocks) (r : Request) (app : App j) (v : VerificationVerdict)
      : Type 0 where
    pub node : Node j
    pub is_current :
        (get_interceptor j engines lib loads read_float rounded env clocks app).1 ≡ some node
    pub agent : Text
    pub is_granted : Granted engines.unicode loads env.api_keys (header_text r.api_key) agent
    pub grant : TrustEntry
    pub is_live : Live node.trust agent r.times.trust.wall grant
    pub admits : Admits grant r.message.receiver_agent_id (some (type_value r.message.payload_type))
    pub passed :
        Passed engines node.config
          (record r.message { sender_agent_id = agent })
          r.run
          r.times.trust
          node.trust
    pub fits : body_bytes r.body ≤ 10551296

  serve_post-Vouched :
      (clocks : Clocks) (r : Request) (app : App j) (v : VerificationVerdict) (now : ℕ)
      → IsSafe j engines lib loads read_float rounded env now app
      → (serve_post j engines lib loads read_float rounded env r
          (get_interceptor j engines lib loads read_float rounded env clocks app)).1
        ≡ gateway (answered v)
      → admissible v.status ≡ true
      → Vouched clocks r app v
  unfolding body_limit
  serve_post-Vouched clocks r app v now safe h admissible' =
      let found = get_interceptor j engines lib loads read_float rounded env clocks app in
      let serving =
        get_interceptor-IsServing j engines lib loads read_float rounded env clocks now app safe in
      let (n, is_node, limited) = serve_post-answers r v found.0 found.1 h in
      let held : IsNodeSafe j engines lib loads read_float rounded env now n =
        subst (AreSafe j engines lib loads read_float rounded env now) is_node serving.node_safe in
      let (unrejected, answers) = serve_limited-answers r v found.0 n _ limited in
      let by =
        post_intercept-Authenticated j engines
          (interceptor_of j engines lib loads read_float rounded env n found.0.metrics) r.message
          r.trace_id r.run r.times loads env.api_keys r.api_key v answers in
      let bound : AgentMessage = record r.message { sender_agent_id = by.agent } in
      let passed =
        decide-admissible engines n.config bound r.run r.times.trust n.trust
          (sym (ap admissible by.is_status) ∙ admissible') in
      let (e, live, admits) =
        granted_by_entry by.agent r.message.receiver_agent_id
          (some (type_value r.message.payload_type)) r.times.trust n.trust held.is_closed.denies
          passed.trusted in
      record {
        node = n;
        is_current = is_node;
        agent = by.agent;
        is_granted = by.is_granted;
        grant = e;
        is_live = live;
        admits = admits;
        passed = passed;
        fits = omega (arith, held.is_bounded, check_size-within _ r unrejected);
      }

  -- Whatever requests, configurations and calls of the trust boundary the application has served
  -- since its start, in the order of the monotonic clock: if the intercept route then answers with
  -- a verdict that permits acting on the message, then the key of the request stands for an agent,
  -- that agent has an unexpired grant in the trust boundary of the interceptor, whose scopes cover
  -- the receiver and the payload type, the message with that agent as its sender passed the checks
  -- of intercept, and the body of the request is of no more than 10551296 bytes.
  pub serve-admissible :
      (es : List Event) (end : ℕ) (clocks : Clocks) (r : Request) (v : VerificationVerdict)
      → InTime 0 es end
      → (serve j engines lib loads read_float rounded env
          (post clocks r)
          (run_all j engines lib loads read_float rounded env es (start j))).1
        ≡ gateway (answered v)
      → admissible v.status ≡ true
      → Vouched clocks r (run_all j engines lib loads read_float rounded env es (start j)) v
  unfolding serve
  serve-admissible es end clocks r v in_time h admissible' =
      serve_post-Vouched clocks r _ v end
        (run_all-IsSafe j engines lib loads read_float rounded env es 0 end (start j)
          (start-IsSafe j engines lib loads read_float rounded env) in_time)
        h admissible'
