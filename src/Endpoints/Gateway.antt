-- ===== src/Endpoints/Gateway.antt =====
-- `intercept_message`: the gateway binds a message to its authenticated sender and intercepts it.
use qwed_a2a.Prelude.{◌≡◌, refl, ap, Option, none, some}
use qwed_a2a.Prelude.Text.{Text}
use qwed_a2a.Crypto.Service.{Jwt}
use qwed_a2a.Interceptor.Message.{JsonLoaded, AgentMessage}
use qwed_a2a.Interceptor.Decide.{Engines, Run, decide}
use qwed_a2a.Interceptor.Pipeline.{Times, VerificationVerdict, Interceptor, intercept}
use qwed_a2a.Interceptor.Attested.{Attests, intercept-Attests}
use qwed_a2a.Endpoints.Identity.{
  Access, not_configured, invalid_key, granted, header_text, require_agent_identity,
}
use qwed_a2a.Endpoints.Identity.Granted.{Granted, require_agent_identity-Granted}

-- A 401 with its detail, the 503 of a verdict that cannot be signed, or the verdict.
pub data Response : Type 0 where
  unauthorized : Access → Response
  unavailable : Response
  answered : VerificationVerdict → Response

-- The authenticated identity takes the place of the declared sender.
unfoldable pub bind_sender : Text → AgentMessage → AgentMessage
bind_sender agent_id message = record message { sender_agent_id = agent_id }

abbrev pub respond : Option VerificationVerdict → Response
respond none = unavailable
respond (some v) = answered v

module _ (j : Jwt) (engines : Engines) (i : Interceptor j) (message : AgentMessage)
    (trace_id : Text) (run : Run) (t : Times) where
  unfoldable pub intercept_message : Access → Interceptor j × Response
  unfolding bind_sender
  intercept_message not_configured = (i, unauthorized not_configured)
  intercept_message invalid_key = (i, unauthorized invalid_key)
  intercept_message (granted agent_id) =
      let (i', o) = intercept j engines i (bind_sender agent_id message) trace_id run t in
      (i', respond o)

  -- The route with its dependency: `loads` is `json.loads`, `raw` the value of QWED_A2A_API_KEYS, and
  -- `header` the header X-API-Key.
  unfoldable pub post_intercept :
      (Text → JsonLoaded) → Text → Option Text → Interceptor j × Response
  unfolding intercept_message
  post_intercept loads raw header =
      intercept_message (require_agent_identity engines.unicode loads raw header)

  -- A verdict on a message of the agent that a key stands for.
  pub record Authenticated (loads : Text → JsonLoaded) (raw : Text) (header : Option Text)
      (v : VerificationVerdict) (i' : Interceptor j) : Type 0 where
    pub agent : Text
    pub is_granted : Granted engines.unicode loads raw (header_text header) agent
    pub attests :
        Attests j engines i.crypto (record message { sender_agent_id = agent }) t v i'.crypto
    pub is_status :
        v.status
        ≡ (decide engines i.config
            (record message { sender_agent_id = agent })
            run
            t.trust
            i.trust).1.status

  respond_lem :
      (o : Option VerificationVerdict) (v : VerificationVerdict)
      → respond o ≡ answered v
      → o ≡ some v
  respond_lem none v h = absurd (cc)
  respond_lem (some w) v h = ap (λ r. some (verdict_of w r)) h
    where
      verdict_of : VerificationVerdict → Response → VerificationVerdict
      verdict_of default (answered u) = u
      verdict_of default (unauthorized a) = default
      verdict_of default unavailable = default

  intercept_message-Authenticated :
      (loads : Text → JsonLoaded) (raw : Text) (header : Option Text) (access : Access)
      (v : VerificationVerdict)
      → require_agent_identity engines.unicode loads raw header ≡ access
      → (intercept_message access).1 ≡ answered v
      → Authenticated loads raw header v (intercept_message access).0
  unfolding intercept_message bind_sender
  intercept_message-Authenticated loads raw header not_configured v is h = absurd (cc)
  intercept_message-Authenticated loads raw header invalid_key v is h = absurd (cc)
  intercept_message-Authenticated loads raw header (granted agent_id) v is h =
      let bound = bind_sender agent_id message in
      let result = respond_lem (intercept j engines i bound trace_id run t).1 v h in
      let (attests, status, _) = intercept-Attests j engines i bound trace_id run t v result in
      record {
        agent = agent_id;
        is_granted = require_agent_identity-Granted engines.unicode loads raw header agent_id is;
        attests = attests;
        is_status = status;
      }

  -- If the intercept route answers with a verdict, then the map of API keys could be read, the key
  -- of the request is not empty and the map gives an agent id for it that AgentMessage takes as it
  -- is, and the verdict is the one that intercept attests for the message with that agent as its
  -- sender, whatever sender the body declares.
  pub post_intercept-Authenticated :
      (loads : Text → JsonLoaded) (raw : Text) (header : Option Text) (v : VerificationVerdict)
      → (post_intercept loads raw header).1 ≡ answered v
      → Authenticated loads raw header v (post_intercept loads raw header).0
  unfolding post_intercept
  post_intercept-Authenticated loads raw header v h =
      intercept_message-Authenticated loads raw header
        (require_agent_identity engines.unicode loads raw header) v refl h
