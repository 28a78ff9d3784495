-- ===== src/Endpoints/Examples.antt =====
-- The gateway on a request with a key.
use qwed_a2a.Interceptor.Code.{is_encodable}
use qwed_a2a.Prelude.{refl, ◌≡◌, ap, some, List, [], ◌∷◌}
use qwed_a2a.Prelude.Text.{Text, lit, text_eq, text-Eq}
use qwed_a2a.Strip.{strip, strip_left, strip_right}
use qwed_a2a.Dict.{insert}
use qwed_a2a.Schema.AgentId.{has_control}
use qwed_a2a.Crypto.Sample.{sample_jwt}
use qwed_a2a.Interceptor.Message.{JsonLoaded, parsed, string, object, field, no_fields}
use qwed_a2a.Interceptor.Claim.{all}
use qwed_a2a.Interceptor.Decide.{completed}
use qwed_a2a.Interceptor.Examples.{engines, interceptor, message, times, trace, returned}
use qwed_a2a.Endpoints.Identity.{
  valid_text, valid_agent_id, ends_with, sanitize_keys_json, usable_keys, keys_of, load_api_keys,
  find_agent, check_key, require_agent_identity,
}
use qwed_a2a.Endpoints.Limits.{Received, http_request, other_event, capped_receive, read_all}
use qwed_a2a.Endpoints.Gateway.{
  answered, respond, bind_sender, intercept_message, post_intercept, Authenticated,
  post_intercept-Authenticated,
}

-- The key "k" of the agent "a".
abbrev keys_json : Text
unfolding lit
keys_json = lit "{\"k\":\"a\"}"

abbrev key : Text
unfolding lit
key = lit "k"

abbrev loads : Text → JsonLoaded
unfolding lit
loads = λ text. parsed (object (field (lit "k") (string (lit "a")) no_fields))

answers :
    (post_intercept sample_jwt engines interceptor message trace completed times loads keys_json
      (some key)).1
    ≡ answered returned.0
unfolding post_intercept intercept_message bind_sender require_agent_identity check_key
    load_api_keys keys_of usable_keys sanitize_keys_json ends_with valid_agent_id valid_text
    is_encodable find_agent has_control all strip strip_left strip_right insert lit text_eq
    keys_json key loads
answers = ap respond returned.1

post_intercept-Authenticated_example :
    Authenticated sample_jwt engines interceptor message trace completed times loads keys_json
      (some key)
      returned.0
      (post_intercept sample_jwt engines interceptor message trace completed times loads keys_json
        (some key)).0
post_intercept-Authenticated_example =
    post_intercept-Authenticated sample_jwt engines interceptor message trace completed times loads
      keys_json (some key) returned.0 answers

-- Of three pieces under a limit of ten the third is cut off.
abbrev pieces : List Received
pieces = http_request 6 ∷ other_event ∷ http_request 4 ∷ http_request 1 ∷ []

pieces_read : read_all 10 0 pieces ≡ http_request 6 ∷ (other_event ∷ (http_request 4 ∷ []))
unfolding read_all capped_receive
pieces_read = refl
