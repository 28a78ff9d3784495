-- ===== src/Interceptor/Verdict.antt =====
-- What a verdict of `intercept` says.
use qwed_a2a.Prelude.{
  ℕ, ◌≤◌, ◌≡◌, inl, inr, refl, subst, true, false, Option, none, some, arith, ltb, Bool-cases,
}
use qwed_a2a.Prelude.Text.{lit, text-Eq}
use qwed_a2a.Schema.{
  PayloadType, financial_transaction, logic_assertion, code_execution, data_query, general,
  type_value, verified, status-Eq, admissible, admissible_iff,
}
use qwed_a2a.Trust.{TrustBoundary, Readings, evaluate}
use qwed_a2a.Interceptor.Message.{Fields, AgentMessage, EngineResult, Outcome, returned, raising}
use qwed_a2a.Interceptor.Heuristic.{verify_logic-never_verifies, verify_code-never_verifies}
use qwed_a2a.Interceptor.Financial.{verify_financial}
use qwed_a2a.Interceptor.Financial.Verified.{Verifies, Agrees, verify_financial-Agrees}
use qwed_a2a.Interceptor.Decide.{
  InterceptorConfig, Engines, payload_size, passthrough, route, route_to_engine, Run, busy,
  timed_out, completed, raised, has_status, of_result, of_outcome, of_run, decide_trusted,
  decide_sized, decide, max_code_bytes,
}

passthrough_lem : passthrough.verified ≡ false
unfolding passthrough
passthrough_lem = refl

-- Only the financial engine verifies.
route-verified :
    (engines : Engines) (config : InterceptorConfig) (payload : Fields) (p : PayloadType)
    → Verifies (route engines config payload p)
    → (p ≡ financial_transaction)
      × (config.enable_financial_verification ≡ true)
      × (route engines config payload p ≡ verify_financial engines.unicode payload)
unfolding route
route-verified engines config payload financial_transaction =
    elim (Bool-cases config.enable_financial_verification) [
      | inl on ↦ rw on (λ h. (refl, refl, refl))
      | inr off ↦ rw off (λ h. absurd (ground (arith, passthrough_lem)))
    ]
route-verified engines config payload logic_assertion = λ h.
    absurd (ground (arith, passthrough_lem, verify_logic-never_verifies engines.unicode payload))
route-verified engines config payload code_execution = λ h. absurd (
    ground
      (arith, passthrough_lem, verify_code-never_verifies engines.scanner max_code_bytes payload))
route-verified engines config payload data_query = λ h. absurd (ground (arith, passthrough_lem))
route-verified engines config payload general = λ h. absurd (ground (arith, passthrough_lem))

-- The verdict on an engine's result is `verified` only if the result says so and is not marked.
of_result-verified :
    (message : AgentMessage) (r : EngineResult)
    → (of_result message r).status ≡ verified
    → (r.verified ≡ true)
      × (has_status (lit "unverifiable") r.status ≡ false)
      × (has_status (lit "heuristic_pass") r.status ≡ false)
unfolding of_result
of_result-verified message r h = ground arith

of_outcome-verified :
    (message : AgentMessage) (o : Outcome) → (of_outcome message o).status ≡ verified → Verifies o
unfolding of_outcome
of_outcome-verified message (returned r) h = (of_result-verified message r h).0
of_outcome-verified message (raising e) h = absurd (cc)

-- The checks that a message passed which was verified.
pub record Passed (engines : Engines) (config : InterceptorConfig) (message : AgentMessage)
    (run : Run) (t : Readings) (trust : TrustBoundary) : Type 0 where
  pub size : ℕ
  pub is_size : payload_size engines message.payload ≡ some size
  pub fits : size ≤ config.max_payload_size_bytes
  pub trusted :
      (evaluate message.sender_agent_id message.receiver_agent_id
        (some (type_value message.payload_type))
        t
        trust).1.0
      ≡ true
  pub ended : run ≡ completed
  pub is_financial : message.payload_type ≡ financial_transaction
  pub is_enabled : config.enable_financial_verification ≡ true
  pub totals : Agrees engines.unicode message.payload

module _ (engines : Engines) (config : InterceptorConfig) (message : AgentMessage) where
  of_run-verified :
      (run : Run)
      → (of_run engines config message run).status ≡ verified
      → (run ≡ completed)
        × (message.payload_type ≡ financial_transaction)
        × (config.enable_financial_verification ≡ true)
        × Agrees engines.unicode message.payload
  unfolding of_run route_to_engine
  of_run-verified busy h = absurd (cc)
  of_run-verified timed_out h = absurd (cc)
  of_run-verified (raised e) h = absurd (cc)
  of_run-verified completed h =
      let found = of_outcome-verified message (route_to_engine engines config message) h in
      let (financial, on, is) =
        route-verified engines config message.payload message.payload_type found in
      (
        refl,
        financial,
        on,
        verify_financial-Agrees engines.unicode message.payload (subst Verifies is found),
      )

  module _ (run : Run) (t : Readings) (trust : TrustBoundary) where
    decide_trusted-verified :
        (decide_trusted engines config message run t trust).1.status ≡ verified
        → ((evaluate message.sender_agent_id message.receiver_agent_id
              (some (type_value message.payload_type))
              t
              trust).1.0
            ≡ true)
          × ((of_run engines config message run).status ≡ verified)
    unfolding decide_trusted
    decide_trusted-verified h = ground arith

    decide-verified :
        (o : Option ℕ)
        → payload_size engines message.payload ≡ o
        → (decide_sized engines config message run t trust o).1.status ≡ verified
        → Passed engines config message run t trust
    unfolding decide_sized
    decide-verified none is h = absurd (cc)
    decide-verified (some size) is h = elim (Bool-cases (ltb config.max_payload_size_bytes size)) [
      | inl over ↦ absurd (ground arith)
      | inr fits ↦
          let (trusted, of) = decide_trusted-verified (ground arith) in
          let (ended, financial, on, agrees) = of_run-verified run of in
          record {
            size = size;
            is_size = is;
            fits = ground arith;
            trusted = trusted;
            ended = ended;
            is_financial = financial;
            is_enabled = on;
            totals = agrees;
          }
    ]

-- A verdict permits acting on the message only if the payload could be measured and was small
-- enough, the trust boundary let it through, the engine run ended, and the message is a financial
-- transaction, with its verification enabled, whose totals agree.
pub decide-admissible :
    (engines : Engines) (config : InterceptorConfig) (message : AgentMessage) (run : Run)
    (t : Readings) (trust : TrustBoundary)
    → admissible (decide engines config message run t trust).1.status ≡ true
    → Passed engines config message run t trust
unfolding decide
decide-admissible engines config message run t trust h =
    decide-verified engines config message run t trust (payload_size engines message.payload) refl
      ((admissible_iff (decide engines config message run t trust).1.status).0 h)
