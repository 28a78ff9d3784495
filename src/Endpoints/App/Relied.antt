-- ===== src/Endpoints/App/Relied.antt =====
-- An answer of one node, checked by another that has registered the key set of the first.
use mathlib.Core.Option.{some-injective}
use qwed_a2a.Prelude.{
  ℕ, ◌≤◌, ◌<◌, ◌≡◌, ◌≢◌, inl, inr, refl, sym, ◌∙◌, ap, subst, Option, none, some, List, [],
}
use qwed_a2a.Prelude.Int.{ℤ}
use qwed_a2a.Prelude.Text.{Text, text-Eq}
use qwed_a2a.Dict.{Unique, lookup}
use qwed_a2a.Schema.{unverifiable, admissible, status_of_value-status_value}
use qwed_a2a.Interceptor.Message.{JsonLoaded, Value, string, AgentMessage}
use qwed_a2a.Interceptor.Decide.{Engines, payload_hash}
use qwed_a2a.Interceptor.Pipeline.{VerificationVerdict, Interceptor}
use qwed_a2a.Telemetry.{InterceptMetrics}
use qwed_a2a.Interceptor.Attested.{request_of}
use qwed_a2a.Interceptor.RoundTrip.{expected}
use qwed_a2a.Crypto.Service.{Jwt, KeyPair, CryptoService, QwedClaims}
use qwed_a2a.Crypto.Issuers.{nonempty_str, load_trusted_issuers}
use qwed_a2a.Crypto.KeyPair.{Keys, KeyResult, ready, failing, found, ensure_key_pair}
use qwed_a2a.Crypto.Jwk.{IsP256}
use qwed_a2a.Crypto.Sign.{expiry}
use qwed_a2a.Crypto.Verify.{accepted, registry_key, verify_attestation, is_admissible}
use qwed_a2a.Crypto.Verify.RoundTrip.{Decodes, issued_at}
use qwed_a2a.Endpoints.Identity.{header_text}
use qwed_a2a.Endpoints.Identity.Granted.{Granted}
use qwed_a2a.Endpoints.Gateway.{answered, Authenticated, post_intercept-Authenticated}
use qwed_a2a.Endpoints.Jwks.{key_set, jwks_endpoint}
use qwed_a2a.Endpoints.Jwks.Peer.{registration, IsOther, verify_attestation-jwks_endpoint}
use qwed_a2a.Endpoints.App.{
  Environment, Node, App, start, Clocks, Request, gateway, key_reply, Event, post, get_jwks,
}
use qwed_a2a.Endpoints.App.Serve.{
  get_interceptor, interceptor_of, serve_limited, serve_post, serve_jwks, serve, run_all,
}
use qwed_a2a.Endpoints.App.Safe.{IsNodeSafe, AreSafe, get_interceptor-IsServing}
use qwed_a2a.Endpoints.App.History.{InTime, start-IsSafe, run_all-IsSafe}
use qwed_a2a.Endpoints.App.Vouched.{serve_limited-answers}
use qwed_a2a.Endpoints.App.Blocking.{get_interceptor-is}

found-ready : (j : Jwt) (r : KeyResult j) (keys : KeyPair j) → found r ≡ some keys → r ≡ ready keys
found-ready j (ready k) keys h = ap ready (some-injective k keys h)
found-ready j (failing e) keys h = absurd (cc)

-- Another node: its service, and what it reads and when.
pub record Peer (j : Jwt) : Type 0 where
  pub crypto : CryptoService j
  pub fingerprint : j.PublicKey → Text
  pub loads : Text → JsonLoaded
  pub env_raw : Text
  pub now : ℕ

module _ (j : Jwt) (engines : Engines) (lib : Keys j) (loads : Text → JsonLoaded)
    (read_float : Text → Option (Option ℤ)) (rounded : ℕ → ℕ × ℕ → Text) (env : Environment) where
  -- The key set that the node publishes after the answer, and what the peer that has registered it
  -- makes of the token: it accepts it for the message of the agent whose key the request has, with claims that permit acting
  -- exactly if the verdict does.
  pub record ReliedOn (n : Node j) (p : Peer j) (r : Request) (v : VerificationVerdict)
      (app' : App j) (clocks : Clocks) : Type 0 where
    pub document : Value
    pub agent : Text
    pub is_granted : Granted engines.unicode loads env.api_keys (header_text r.api_key) agent
    pub hash : Text
    pub token : Text
    pub claims : QwedClaims
    pub is_published :
        (serve j engines lib loads read_float rounded env (get_jwks clocks) app').1
        ≡ key_reply (key_set document)
    pub is_token : v.attestation_jwt ≡ some token
    pub is_hash : payload_hash engines r.message.payload ≡ some hash
    pub is_accepted :
        (verify_attestation j p.fingerprint p.crypto
          (load_trusted_issuers j lib.public_key engines.unicode p.loads
            (some (registration n.crypto.issuer_id n.crypto.deployment_id document))
            p.env_raw)
          p.now
          token
          (expected (record r.message { sender_agent_id = agent }) hash)).1
        ≡ accepted claims
    pub same_admission : is_admissible claims ≡ admissible v.status

  -- After an answer the interceptor has the key store that it had.
  serve_limited-store :
      (r : Request) (app : App j) (n : Node j)
      → (n' : Node j) × ((serve_limited j engines lib loads read_float rounded env r app n
            none).0.node
          ≡ some n')
        × (n'.store ≡ n.store)
  unfolding serve_limited
  serve_limited-store r app n = (_, refl, refl)

  serve_jwks-publishes :
      (clocks : Clocks) (app : App j) (n : Node j) (document : Value)
      → app.node ≡ some n
      → (jwks_endpoint j lib env.has_crypto env.signing_key n.store).1 ≡ key_set document
      → (serve j engines lib loads read_float rounded env (get_jwks clocks) app).1
        ≡ key_reply (key_set document)
  unfolding serve serve_jwks
  serve_jwks-publishes clocks app n document is publishes =
      rw (get_interceptor-is j engines lib loads read_float rounded env clocks app n is)
        (ap key_reply publishes)

  module _ (n : Node j) (p : Peer j) (r : Request) (v : VerificationVerdict) (app' : App j)
      (clocks : Clocks) (keys : KeyPair j) where
    -- A verdict that the node has attested.
    Authenticated-ReliedOn :
        (metrics : InterceptMetrics) (i' : Interceptor j) (n' : Node j)
        → Authenticated j engines
            (interceptor_of j engines lib loads read_float rounded env n metrics)
            r.message
            r.trace_id
            r.run
            r.times
            loads
            env.api_keys
            r.api_key
            v
            i'
        → app'.node ≡ some n'
        → n'.store ≡ n.store
        → found (ensure_key_pair j lib env.has_crypto env.signing_key n.store).1 ≡ n.crypto.key_pair
        → n.crypto.key_pair ≡ some keys
        → IsP256 j lib keys
        → Decodes j keys
        → v.status ≢ unverifiable
        → v.audit_trace_id ≢ []
        → issued_at r.times.wall ≤ p.now
        → p.now < expiry j n.crypto r.times.wall
        → nonempty_str engines.unicode (some (string n.crypto.issuer_id)) ≡ some n.crypto.issuer_id
        → nonempty_str engines.unicode (some (string n.crypto.deployment_id))
          ≡ some n.crypto.deployment_id
        → ((token : Text)
            → v.attestation_jwt ≡ some token
            → IsOther j p.fingerprint keys token p.now p.crypto.key_pair)
        → Unique p.crypto.jti_registry.seen
        → ((held : ℕ)
            → lookup
                (registry_key p.crypto.issuer_id n.crypto.issuer_id v.audit_trace_id)
                p.crypto.jti_registry.seen
              ≡ some held
            → held ≤ p.now)
        → ReliedOn n p r v app' clocks
    Authenticated-ReliedOn metrics i' n' by is_node same_store same_keys has point decodes due named
          begun soon issuer deployment other u free =
        elim by.attests [
          | inl (none_due, _, _) ↦ absurd (due none_due)
          | inr (hash, token, _, is_hash, is_token, is_signed) ↦
              let bound : AgentMessage = record r.message { sender_agent_id = by.agent } in
              let q = request_of bound v hash in
              let is_ready =
                found-ready j (ensure_key_pair j lib env.has_crypto env.signing_key n.store).1 keys
                  (same_keys ∙ has) in
              let (document, publishes, (status, known, result, admits)) =
                verify_attestation-jwks_endpoint j lib p.fingerprint engines.unicode p.loads
                  n.crypto p.crypto q env.has_crypto env.signing_key p.env_raw n.store r.times.wall
                  r.times.wall_registry p.now keys token is_ready point decodes has
                  (ap (λ x. x.1) is_signed) named begun soon issuer deployment
                  (other token is_token) u free in
              let same_status : status ≡ v.status =
                some-injective status v.status
                  (sym known ∙ status_of_value-status_value v.status) in
              record {
                document = document;
                agent = by.agent;
                is_granted = by.is_granted;
                hash = hash;
                token = token;
                claims = _;
                is_published =
                    serve_jwks-publishes clocks app' n' document is_node (rw same_store publishes);
                is_token = is_token;
                is_hash = is_hash;
                is_accepted = result;
                same_admission = admits ∙ ap admissible same_status;
              }
        ]

  -- After any history of the application since its start, in the order of the monotonic clock: if
  -- the intercept route answers with a verdict other than unverifiable, under a trace that is not
  -- empty, and the interceptor that answers has a key pair of P-256 whose tokens decode to what was
  -- encoded between their issue and their expiry, then the JWKS route publishes a document, and
  -- another node that has registered that document for the issuer and the deployment of the first,
  -- neither of them blank, accepts the token of the verdict for the message, with the agent whose
  -- key the request has as its sender, with claims that permit acting exactly if the verdict does,
  -- provided that the clock of that node has reached the second in which the token was signed, that
  -- the token has not expired and has no live entry in the registry of that node, that it does not
  -- verify under the own key of that node, if it has one, and that this key has another
  -- fingerprint.
  pub serve-ReliedOn :
      (es : List Event) (end : ℕ) (clocks later : Clocks) (r : Request) (v : VerificationVerdict)
      (n : Node j) (p : Peer j) (keys : KeyPair j)
      → InTime 0 es end
      → (get_interceptor j engines lib loads read_float rounded env clocks
          (run_all j engines lib loads read_float rounded env es (start j))).1
        ≡ some n
      → (serve j engines lib loads read_float rounded env
          (post clocks r)
          (run_all j engines lib loads read_float rounded env es (start j))).1
        ≡ gateway (answered v)
      → n.crypto.key_pair ≡ some keys
      → IsP256 j lib keys
      → Decodes j keys
      → v.status ≢ unverifiable
      → v.audit_trace_id ≢ []
      → issued_at r.times.wall ≤ p.now
      → p.now < expiry j n.crypto r.times.wall
      → nonempty_str engines.unicode (some (string n.crypto.issuer_id)) ≡ some n.crypto.issuer_id
      → nonempty_str engines.unicode (some (string n.crypto.deployment_id))
        ≡ some n.crypto.deployment_id
      → ((token : Text)
          → v.attestation_jwt ≡ some token
          → IsOther j p.fingerprint keys token p.now p.crypto.key_pair)
      → Unique p.crypto.jti_registry.seen
      → ((held : ℕ)
          → lookup
              (registry_key p.crypto.issuer_id n.crypto.issuer_id v.audit_trace_id)
              p.crypto.jti_registry.seen
            ≡ some held
          → held ≤ p.now)
      → ReliedOn n p r v
          (serve j engines lib loads read_float rounded env
            (post clocks r)
            (run_all j engines lib loads read_float rounded env es (start j))).0
          later
  unfolding serve serve_post
  serve-ReliedOn es end clocks later r v n p keys in_time is_n h has point decodes due named begun
        soon issuer deployment other u free =
      let app = run_all j engines lib loads read_float rounded env es (start j) in
      let safe =
        run_all-IsSafe j engines lib loads read_float rounded env es 0 end (start j)
          (start-IsSafe j engines lib loads read_float rounded env) in_time in
      let g = get_interceptor j engines lib loads read_float rounded env clocks app in
      let serving =
        get_interceptor-IsServing j engines lib loads read_float rounded env clocks end app safe in
      let held : IsNodeSafe j engines lib loads read_float rounded env end n =
        subst (AreSafe j engines lib loads read_float rounded env end) is_n serving.node_safe in
      let served : (serve_post j engines lib loads read_float rounded env r (g.0, some n)).1
          ≡ gateway (answered v) =
        subst
          (λ o.
            (serve_post j engines lib loads read_float rounded env r (g.0, o)).1
            ≡ gateway (answered v))
          is_n h in
      let (unrejected, answers) =
        serve_limited-answers j engines lib loads read_float rounded env r v g.0 n _ served in
      let app' = (serve_post j engines lib loads read_float rounded env r g).0 in
      let same : app' ≡ (serve_limited j engines lib loads read_float rounded env r g.0 n none).0 =
        ap (λ o. (serve_post j engines lib loads read_float rounded env r (g.0, o)).0) is_n
        ∙ ap (λ o. (serve_limited j engines lib loads read_float rounded env r g.0 n o).0)
            unrejected in
      let (n', is_node, same_store) = serve_limited-store r g.0 n in
      let by =
        post_intercept-Authenticated j engines
          (interceptor_of j engines lib loads read_float rounded env n g.0.metrics) r.message
          r.trace_id r.run r.times loads env.api_keys r.api_key v answers in
      Authenticated-ReliedOn n p r v app' later keys g.0.metrics _ n' by
        (ap (λ (x : App j). x.node) same ∙ is_node) same_store held.same_keys has point decodes due
        named begun soon issuer deployment other u free
