-- ===== src/Endpoints/App/Quietly.antt =====
-- What a message does to the trust boundary: it asks, and trusts nobody.
use qwed_a2a.Prelude.{◌≡◌, inl, inr, refl, sym, ◌∙◌, ap, some, List, [], ◌∷◌, ◌++◌}
use qwed_a2a.Prelude.Text.{Text}
use qwed_a2a.Schema.{type_value}
use qwed_a2a.Trust.{TrustBoundary, Readings}
use qwed_a2a.Trust.Trace.{Call, block, trust, revoke, block_two, unblock_two, ask, run}
use qwed_a2a.Trust.Revocation.{NoGrant}
use qwed_a2a.Trust.Load.Grants.{run-append}
use qwed_a2a.Crypto.Service.{Jwt}
use qwed_a2a.Interceptor.Message.{AgentMessage}
use qwed_a2a.Interceptor.Decide.{Engines, InterceptorConfig, Run, payload_size, decide}
use qwed_a2a.Interceptor.Pipeline.{Times, Interceptor, deliver, intercept}
use qwed_a2a.Endpoints.Identity.{Access, not_configured, invalid_key, granted}
use qwed_a2a.Endpoints.Gateway.{bind_sender, intercept_message}
use qwed_a2a.Endpoints.App.Boundary.{decide_sized-asks}

-- A boundary that comes of another by calls none of which trusts the agent.
pub record Quietly (a : Text) (b b' : TrustBoundary) : Type 0 where
  pub calls : List Call
  pub is_run : b' ≡ run calls b
  pub no_grant : NoGrant a calls

NoGrant-append : (a : Text) (cs ds : List Call) → NoGrant a cs → NoGrant a ds → NoGrant a (cs ++ ds)
NoGrant-append a [] ds n m = m
NoGrant-append a (trust j r t u b now ∷ cs) ds n m = (n.0, NoGrant-append a cs ds n.1 m)
NoGrant-append a (block j ∷ cs) ds n m = NoGrant-append a cs ds n m
NoGrant-append a (revoke j ∷ cs) ds n m = NoGrant-append a cs ds n m
NoGrant-append a (block_two s r ∷ cs) ds n m = NoGrant-append a cs ds n m
NoGrant-append a (unblock_two s r ∷ cs) ds n m = NoGrant-append a cs ds n m
NoGrant-append a (ask s r p t ∷ cs) ds n m = NoGrant-append a cs ds n m

pub Quietly-same : (a : Text) (b : TrustBoundary) → Quietly a b b
unfolding run
Quietly-same a b = record { calls = []; is_run = refl; no_grant = tt }

pub Quietly-both :
    (a : Text) (x y z : TrustBoundary) → Quietly a x y → Quietly a y z → Quietly a x z
Quietly-both a x y z p q = record {
  calls = p.calls ++ q.calls;
  is_run = q.is_run ∙ ap (run q.calls) p.is_run ∙ sym (run-append p.calls q.calls x);
  no_grant = NoGrant-append a p.calls q.calls p.no_grant q.no_grant;
}

decide-Quietly :
    (a : Text) (engines : Engines) (config : InterceptorConfig) (message : AgentMessage) (how : Run)
    (t : Readings) (b : TrustBoundary)
    → Quietly a b (decide engines config message how t b).0
unfolding decide run
decide-Quietly a engines config message how t b =
    elim (decide_sized-asks engines config message how t b (payload_size engines message.payload)) [
      | inl same ↦ rw same (Quietly-same a b)
      | inr asks ↦
          let call =
            ask message.sender_agent_id message.receiver_agent_id
              (some (type_value message.payload_type)) t in
          record { calls = call ∷ []; is_run = asks; no_grant = tt }
    ]

pub intercept_message-Quietly :
    (a : Text) (j : Jwt) (engines : Engines) (i : Interceptor j) (message : AgentMessage)
    (trace_id : Text) (how : Run) (t : Times) (access : Access)
    → Quietly a i.trust (intercept_message j engines i message trace_id how t access).0.trust
unfolding intercept_message intercept deliver
intercept_message-Quietly a j engines i message trace_id how t not_configured =
    Quietly-same a i.trust
intercept_message-Quietly a j engines i message trace_id how t invalid_key = Quietly-same a i.trust
intercept_message-Quietly a j engines i message trace_id how t (granted agent_id) =
    decide-Quietly a engines i.config (bind_sender agent_id message) how t.trust i.trust
