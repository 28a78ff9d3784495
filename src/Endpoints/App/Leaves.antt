-- ===== src/Endpoints/App/Leaves.antt =====
-- What a request to the intercept route leaves of the interceptor that it goes to.
use qwed_a2a.Prelude.{ℕ, ◌≤◌, ◌≡◌, inl, inr, refl, ap, Option, none, some, Bool-cases, ◌==◌}
use qwed_a2a.Prelude.Text.{Text, text-Eq}
use qwed_a2a.Telemetry.{IsConsistent}
use qwed_a2a.Schema.{unverifiable, status-Eq}
use qwed_a2a.Crypto.Service.{Jwt, CryptoService}
use qwed_a2a.Crypto.Sign.Once.{sign_verdict-changes}
use qwed_a2a.Interceptor.Message.{AgentMessage}
use qwed_a2a.Interceptor.Decide.{Engines, Run, Decision, payload_hash}
use qwed_a2a.Interceptor.Pipeline.{
  Times, Interceptor, sign_request, build_signed, build_verdict, deliver, intercept,
}
use qwed_a2a.Interceptor.Attested.{intercept-counts}
use qwed_a2a.Endpoints.Identity.{Access, not_configured, invalid_key, granted}
use qwed_a2a.Endpoints.Gateway.{bind_sender, intercept_message}
use qwed_a2a.Endpoints.App.Boundary.{IsClosed, IsClosed-later, decide-IsClosed}

-- Building a verdict leaves the key pair.
build_signed-keys :
    (j : Jwt) (crypto : CryptoService j) (message : AgentMessage) (trace_id : Text) (d : Decision)
    (t : Times) (o : Option Text)
    → (build_signed j crypto message trace_id d t o).0.key_pair ≡ crypto.key_pair
unfolding build_signed
build_signed-keys j crypto message trace_id d t none = refl
build_signed-keys j crypto message trace_id d t (some hash) =
    let (r, changed) =
      sign_verdict-changes j crypto (sign_request message trace_id d hash) t.wall t.wall_registry in
    ap (λ (c : CryptoService j). c.key_pair) changed

build_verdict-keys :
    (j : Jwt) (engines : Engines) (crypto : CryptoService j) (message : AgentMessage)
    (trace_id : Text) (d : Decision) (t : Times)
    → (build_verdict j engines crypto message trace_id d t).0.key_pair ≡ crypto.key_pair
unfolding build_verdict
build_verdict-keys j engines crypto message trace_id d t =
    elim (Bool-cases (d.status == unverifiable)) [
      | inl is ↦ rw is refl
      | inr other ↦
          rw other
            (build_signed-keys j crypto message trace_id d t (payload_hash engines message.payload))
    ]

-- What a request leaves of the interceptor that it goes to.
pub record Leaves (j : Jwt) (i i' : Interceptor j) (now : ℕ) : Type 0 where
  pub counted : IsConsistent i'.metrics
  pub still_closed : IsClosed now i'.trust
  pub keys_kept : i'.crypto.key_pair ≡ i.crypto.key_pair

module _ (j : Jwt) (engines : Engines) (i : Interceptor j) (message : AgentMessage)
    (trace_id : Text) (run : Run) (t : Times) (now : ℕ) (c : IsConsistent i.metrics)
    (w : IsClosed now i.trust) (h : now ≤ t.trust.mono) where
  intercept-Leaves :
      (m : AgentMessage) → Leaves j i (intercept j engines i m trace_id run t).0 t.trust.mono
  unfolding intercept deliver
  intercept-Leaves m = record {
    counted = (intercept-counts j engines i m trace_id run t c).0;
    still_closed = decide-IsClosed engines i.config m run t.trust i.trust now h w;
    keys_kept = build_verdict-keys j engines i.crypto m trace_id _ t;
  }

  pub intercept_message-Leaves :
      (access : Access)
      → Leaves j i (intercept_message j engines i message trace_id run t access).0 t.trust.mono
  unfolding intercept_message
  intercept_message-Leaves not_configured = record {
    counted = c;
    still_closed = IsClosed-later now t.trust.mono i.trust h w;
    keys_kept = refl;
  }
  intercept_message-Leaves invalid_key = record {
    counted = c;
    still_closed = IsClosed-later now t.trust.mono i.trust h w;
    keys_kept = refl;
  }
  intercept_message-Leaves (granted agent_id) = intercept-Leaves (bind_sender agent_id message)
