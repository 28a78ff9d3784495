-- ===== src/Endpoints/Identity.antt =====
-- The map of API keys, and the identity of a caller. `loads` is `json.loads`, whose exceptions are all caught.
pub mod Granted
use qwed_a2a.Prelude.{
  ℕ, Bool, true, false, not, ◌&&◌, ◌||◌, Option, none, some, List, [], ◌∷◌, ltb, leb, if◌then◌else◌,
  ◌==◌, nat-Eq, length,
}
use qwed_a2a.Prelude.Text.{Text, text-Eq}
use qwed_a2a.Strip.{strip}
use qwed_a2a.Dict.{Dict, insert}
use qwed_a2a.Schema.AgentId.{has_control}
use qwed_a2a.Interceptor.Message.{
  JsonLoaded, loaded_value, Value, null, boolean, integer, float, string, array, object, Fields,
  no_fields, field,
}
use qwed_a2a.Interceptor.Claim.{Unicode}
use qwed_a2a.Interceptor.Code.{is_encodable}

abbrev is_blank : Text → Bool
is_blank [] = true
is_blank (c ∷ cs) = false

unfoldable pub valid_text : Text → Option Text
valid_text normalized =
    if is_blank normalized || ltb 256 (length normalized)
    then none
    else if has_control normalized
    then none
    else some normalized

-- `_valid_agent_id`
unfoldable pub valid_agent_id : Unicode → Value → Option Text
unfolding valid_text
valid_agent_id u (string agent) = valid_text (strip u.is_space agent)
valid_agent_id u _ = none

abbrev pub max_keys_json_chars : ℕ
max_keys_json_chars = 65536

abbrev starts_with : ℕ → Text → Bool
starts_with c [] = false
starts_with c (d ∷ ds) = d == c

unfoldable pub ends_with : ℕ → Text → Bool
ends_with c [] = false
ends_with c (d ∷ []) = d == c
ends_with c (d ∷ (e ∷ es)) = ends_with c (e ∷ es)

-- `_sanitize_keys_json`, with `none` for the `ValueError`.
unfoldable pub sanitize_keys_json : Unicode → Text → Option Text
sanitize_keys_json u raw =
    let text = strip u.is_space raw in
    if is_blank text || ltb max_keys_json_chars (length text)
    then none
    else if starts_with 123 text && ends_with 125 text
    then some text
    else none

abbrev add_key : Text → Option Text → Dict Text Text → Dict Text Text
add_key [] canonical keys = keys
add_key (c ∷ cs) none keys = keys
add_key (c ∷ cs) (some canonical) keys = insert (c ∷ cs) canonical keys

-- The usable entries, added to those before them.
unfoldable pub usable_keys : Unicode → Fields → Dict Text Text → Dict Text Text
usable_keys u no_fields keys = keys
usable_keys u (field key agent entries) keys =
    usable_keys u entries (add_key key (valid_agent_id u agent) keys)

unfoldable pub keys_of : Unicode → Option Value → Dict Text Text
unfolding usable_keys
keys_of u (some (object entries)) = usable_keys u entries []
keys_of u _ = []

abbrev parse_keys : (Text → JsonLoaded) → Option Text → Option Value
parse_keys loads none = none
parse_keys loads (some text) = loaded_value (loads text)

-- `_load_api_keys`, of the value of QWED_A2A_API_KEYS.
unfoldable pub load_api_keys : Unicode → (Text → JsonLoaded) → Text → Dict Text Text
unfolding keys_of sanitize_keys_json
load_api_keys u loads raw =
    if is_blank (strip u.is_space raw)
    then []
    else keys_of u (parse_keys loads (sanitize_keys_json u raw))

-- The comparison of the encodings, which are equal exactly for equal texts.
unfoldable pub find_agent : Text → Dict Text Text → Option Text
find_agent provided [] = none
find_agent provided ((stored_key, agent_id) ∷ keys) =
    let rest = find_agent provided keys in
    if is_encodable stored_key && stored_key == provided then some agent_id else rest

-- The caller's identity, or the detail of a 401.
pub data Access : Type 0 where
  not_configured invalid_key : Access
  granted : Text → Access

abbrev grant : Option Text → Access
grant none = invalid_key
grant (some agent_id) = granted agent_id

unfoldable pub check_key : Text → Dict Text Text → Access
unfolding find_agent
check_key provided [] = not_configured
check_key provided (key ∷ keys) =
    if is_encodable provided then grant (find_agent provided (key ∷ keys)) else invalid_key

abbrev pub header_text : Option Text → Text
header_text none = []
header_text (some t) = t

-- `require_agent_identity`, of the header X-API-Key and the value of QWED_A2A_API_KEYS.
unfoldable pub require_agent_identity : Unicode → (Text → JsonLoaded) → Text → Option Text → Access
unfolding check_key load_api_keys
require_agent_identity u loads raw header =
    check_key (header_text header) (load_api_keys u loads raw)
