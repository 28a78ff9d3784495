-- ===== src/Interceptor/Attested.antt =====
-- What `intercept` returns and what it leaves: the attestation of each verdict, the metrics, and the
-- round trip through the verification of attestations.
use mathlib.Core.Option.{some-injective}
use qwed_a2a.Prelude.{
  ◌+◌, ◌↔◌, ℕ, ◌≡◌, ◌≢◌, ◌⊎◌, inl, inr, refl, sym, ◌∙◌, ap, subst, Bool, true, false, Option, none,
  some, [], ◌∷◌, if◌then◌else◌, ◌==◌, ==_iff, is_some,
}
use qwed_a2a.Prelude.Text.{Text, text-Eq}
use qwed_a2a.Schema.{
  VerdictStatus, verified, blocked, unverifiable, heuristic_pass, error, status_value, status-Eq,
  admissible,
}
use qwed_a2a.Interceptor.Verdict.{Passed, decide-admissible}
use qwed_a2a.Telemetry.{
  count_engine, count_status, InterceptMetrics, record_intercept, IsConsistent,
  record_intercept-IsConsistent,
}
use qwed_a2a.Crypto.Service.{Jwt, CryptoService}
use qwed_a2a.Crypto.Sign.{SignRequest, Signed, ok, err, sign_verdict}
use qwed_a2a.Interceptor.Message.{AgentMessage}
use qwed_a2a.Interceptor.Pipeline.{
  VerificationVerdict, verdict_of, sign_request, Times, attested, build_signed, build_verdict,
  Interceptor, count_verdict, deliver, intercept,
}
use qwed_a2a.Interceptor.Decide.{Engines, payload_hash, Run, Decision, decide}

false_lem : false ≢ true
false_lem e = absurd (cc)

count_engine_lem :
    (engine : Option Text) (m : InterceptMetrics)
    → (count_engine engine m).total_intercepts ≡ m.total_intercepts
unfolding count_engine
count_engine_lem none m = refl
count_engine_lem (some []) m = refl
count_engine_lem (some (c ∷ cs)) m = refl

count_status_lem :
    (s : VerdictStatus) (m : InterceptMetrics)
    → (count_status s m).total_intercepts ≡ m.total_intercepts
unfolding count_status
count_status_lem verified m = refl
count_status_lem blocked m = refl
count_status_lem unverifiable m = refl
count_status_lem heuristic_pass m = refl
count_status_lem error m = refl

count_verdict-IsConsistent :
    (sender_id : Text) (latency : ℕ) (o : Option VerificationVerdict) (m : InterceptMetrics)
    → IsConsistent m
    → IsConsistent (count_verdict sender_id latency o m)
      × ((count_verdict sender_id latency o m).total_intercepts
          ≡ (if is_some o then m.total_intercepts + 1 else m.total_intercepts))
unfolding count_verdict record_intercept
count_verdict-IsConsistent sender_id latency none m c = (c, refl)
count_verdict-IsConsistent sender_id latency (some v) m c = (
  record_intercept-IsConsistent v.status (some v.engine_used) sender_id latency m c,
  count_engine_lem (some v.engine_used) _ ∙ count_status_lem v.status _,
)

-- What is signed for a verdict.
abbrev pub request_of : AgentMessage → VerificationVerdict → Text → SignRequest
request_of message v hash = record {
  trace_id = v.audit_trace_id;
  verdict_status = status_value v.status;
  engine = v.engine_used;
  sender_id = message.sender_agent_id;
  receiver_id = message.receiver_agent_id;
  payload_hash = hash;
  session_id = none;
}

-- A verdict is not attested if it is `unverifiable`; otherwise it is attested by a token that signs
-- its own status, engine and trace for the message's agents and the hash of its payload.
abbrev pub Attests :
    (j : Jwt)
    → Engines
    → CryptoService j
    → AgentMessage
    → Times
    → VerificationVerdict
    → CryptoService j
    → Type 0
Attests j engines crypto message t v crypto' =
    ((v.status ≡ unverifiable) × (v.attestation_jwt ≡ none) × (crypto' ≡ crypto))
    ⊎ ((hash : Text) × (token : Text) × (v.status ≢ unverifiable)
        × (payload_hash engines message.payload ≡ some hash)
        × (v.attestation_jwt ≡ some token)
        × (sign_verdict j crypto (request_of message v hash) t.wall t.wall_registry
            ≡ (crypto', ok token)))

attested-some :
    (trace_id : Text) (d : Decision) (r : Signed) (v : VerificationVerdict)
    → attested trace_id d r ≡ some v
    → (token : Text) × (r ≡ ok token) × (verdict_of trace_id d (some token) ≡ v)
unfolding attested
attested-some trace_id d (err e) v h = absurd (cc)
attested-some trace_id d (ok []) v h = absurd (cc)
attested-some trace_id d (ok (c ∷ cs)) v h = (c ∷ cs, refl, some-injective _ v h)

module _ (j : Jwt) (engines : Engines) (crypto : CryptoService j) (message : AgentMessage)
    (trace_id : Text) (d : Decision) (t : Times) where
  build_signed-Attests :
      (o : Option Text) (v : VerificationVerdict)
      → payload_hash engines message.payload ≡ o
      → d.status ≢ unverifiable
      → (build_signed j crypto message trace_id d t o).1 ≡ some v
      → Attests j engines crypto message t v (build_signed j crypto message trace_id d t o).0
        × (v.status ≡ d.status)
        × (v.audit_trace_id ≡ trace_id)
  unfolding build_signed
  build_signed-Attests none v is other h = absurd (cc)
  build_signed-Attests (some hash) v is other h =
      let r = sign_verdict j crypto (sign_request message trace_id d hash) t.wall t.wall_registry in
      let (token, signed, same) = attested-some trace_id d r.1 v h in
      subst
        (λ (x : VerificationVerdict).
          Attests j engines crypto message t x r.0
          × (x.status ≡ d.status)
          × (x.audit_trace_id ≡ trace_id))
        same (inr (hash, token, other, is, refl, ap (λ y. (r.0, y)) signed), refl, refl)

  -- Both branches of `_build_verdict`, on its test.
  abbrev build_if : Bool → CryptoService j × Option VerificationVerdict
  build_if b =
      if b
      then (crypto, some (verdict_of trace_id d none))
      else build_signed j crypto message trace_id d t (payload_hash engines message.payload)

  abbrev Built : CryptoService j → VerificationVerdict → Type 0
  Built crypto' v =
      Attests j engines crypto message t v crypto'
      × (v.status ≡ d.status)
      × (v.audit_trace_id ≡ trace_id)

  build_if-Built :
      (b : Bool) (v : VerificationVerdict)
      → (b ≡ true) ↔ (d.status ≡ unverifiable)
      → (build_if b).1 ≡ some v
      → Built (build_if b).0 v
  build_if-Built true v test h =
      subst (Built crypto) (some-injective (verdict_of trace_id d none) v h)
        (inl (test.0 refl, refl, refl), refl, refl)
  build_if-Built false v test h =
      build_signed-Attests (payload_hash engines message.payload) v refl
        (λ e. absurd (false_lem (test.1 e))) h

  build_verdict-Built :
      (v : VerificationVerdict)
      → (build_verdict j engines crypto message trace_id d t).1 ≡ some v
      → Built (build_verdict j engines crypto message trace_id d t).0 v
  unfolding build_verdict
  build_verdict-Built v h =
      build_if-Built (d.status == unverifiable) v (==_iff d.status unverifiable) h

-- A verdict that intercept returns has the trace of the call and the status that was decided, and
-- either it is unverifiable, without a token, and the service is unchanged, or its token is what
-- sign_verdict returns for its own status, engine and trace, the agents of the message and the hash
-- of its payload.
pub intercept-Attests :
    (j : Jwt) (engines : Engines) (i : Interceptor j) (message : AgentMessage) (trace_id : Text)
    (run : Run) (t : Times) (v : VerificationVerdict)
    → (intercept j engines i message trace_id run t).1 ≡ some v
    → Attests j engines i.crypto message t v (intercept j engines i message trace_id run t).0.crypto
      × (v.status ≡ (decide engines i.config message run t.trust i.trust).1.status)
      × (v.audit_trace_id ≡ trace_id)
unfolding intercept deliver
intercept-Attests j engines i message trace_id run t v h =
    build_verdict-Built j engines i.crypto message trace_id
      (decide engines i.config message run t.trust i.trust).1 t v h

-- If intercept returns a verdict that permits acting on the message, then the payload was measured
-- and within the limit, the trust boundary let the message through, the engine run completed, the
-- message is a financial transaction and its verification is enabled, its data is valid, and the
-- total that is computed from its line items and the claimed one, both rounded to hundredths,
-- differ by at most one hundredth.
pub intercept-admissible :
    (j : Jwt) (engines : Engines) (i : Interceptor j) (message : AgentMessage) (trace_id : Text)
    (run : Run) (t : Times) (v : VerificationVerdict)
    → (intercept j engines i message trace_id run t).1 ≡ some v
    → admissible v.status ≡ true
    → Passed engines i.config message run t.trust i.trust
intercept-admissible j engines i message trace_id run t v h admits =
    let (_, is, _) = intercept-Attests j engines i message trace_id run t v h in
    decide-admissible engines i.config message run t.trust i.trust (sym (ap admissible is) ∙ admits)

-- If the metrics are consistent, they are after intercept, and the number of intercepts grows by
-- one if a verdict is returned and stays if none is.
pub intercept-counts :
    (j : Jwt) (engines : Engines) (i : Interceptor j) (message : AgentMessage) (trace_id : Text)
    (run : Run) (t : Times)
    → IsConsistent i.metrics
    → IsConsistent (intercept j engines i message trace_id run t).0.metrics
      × ((intercept j engines i message trace_id run t).0.metrics.total_intercepts ≡ (
          if is_some (intercept j engines i message trace_id run t).1
          then i.metrics.total_intercepts + 1
          else i.metrics.total_intercepts))
unfolding intercept deliver
intercept-counts j engines i message trace_id run t c =
    count_verdict-IsConsistent message.sender_agent_id t.latency _ i.metrics c
