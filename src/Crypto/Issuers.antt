-- ===== src/Crypto/Issuers.antt =====
-- `_load_trusted_issuers` and the checks below it. `loads` is `json.loads`, whose exceptions are all caught, and `public_key` makes
-- a key of the coordinates of a point, with `none` for a point that is not on the curve.
use qwed_a2a.Prelude.{
  ℕ, Bool, true, false, not, ◌&&◌, ◌||◌, Option, none, some, List, [], ◌∷◌, ltb, if◌then◌else◌,
  ◌==◌, nat-Eq,
}
use qwed_a2a.Prelude.Text.{Text, lit, text-Eq}
use qwed_a2a.Strip.{strip}
use qwed_a2a.Interceptor.Claim.{Unicode}
use qwed_a2a.Interceptor.Code.{utf8_length, is_encodable}
use qwed_a2a.Interceptor.Message.{
  JsonLoaded, loaded_value, Value, string, array, object, Items, no_items, item, Fields, no_fields,
  field, get,
}
use qwed_a2a.Crypto.Service.{Jwt}
use qwed_a2a.Crypto.Base64.{b64url_uint}
use qwed_a2a.Crypto.Verify.{Issuer}

abbrev pub issuer_config_max_bytes : ℕ
issuer_config_max_bytes = 65536

-- `ord(c) < 0x20 and c not in "\t\n\r"`
unfoldable pub has_control_character : Text → Bool
has_control_character [] = false
has_control_character (c ∷ cs) =
    ltb c 32 && not (c == 9 || c == 10 || c == 13) || has_control_character cs

abbrev starts_with_brace : Text → Bool
starts_with_brace [] = false
starts_with_brace (c ∷ cs) = c == 123

-- `_sanitize_issuer_config_json`, with `none` for an exception.
unfoldable pub sanitize_issuer_config_json : Unicode → Text → Option Text
sanitize_issuer_config_json u value =
    let text = strip u.is_space value in
    if not (is_encodable text) || ltb issuer_config_max_bytes (utf8_length text)
    then none
    else if not (starts_with_brace text) || has_control_character text
    then none
    else some text

abbrev is_empty : Text → Bool
is_empty [] = true
is_empty (c ∷ cs) = false

-- `_is_nonempty_str`, and the text.
unfoldable pub nonempty_str : Unicode → Option Value → Option Text
nonempty_str u (some (string value)) =
    if is_empty (strip u.is_space value) then none else some value
nonempty_str u _ = none

-- `jwk.get(k) == t`
unfoldable pub is_text : Text → Option Value → Bool
is_text t (some (string s)) = s == t
is_text t _ = false

abbrev coordinate : Option Value → Option ℕ
coordinate (some (string s)) = b64url_uint s
coordinate _ = none

abbrev kid_of : Option Value → Option Text
kid_of (some (string kid)) = some kid
kid_of _ = none

module _ (j : Jwt) (public_key : ℕ → ℕ → Option j.PublicKey) where
  abbrev key_at : Option ℕ → Option ℕ → Option j.PublicKey
  key_at none y = none
  key_at (some x) none = none
  key_at (some x) (some y) = public_key x y

  -- `_jwk_to_public_pem`
  unfoldable pub jwk_to_public_pem : Value → Option j.PublicKey
  unfolding lit is_text
  jwk_to_public_pem (object jwk) =
      if not (is_text (lit "EC") (get (lit "kty") jwk))
        || not (is_text (lit "P-256") (get (lit "crv") jwk))
      then none
      else key_at (coordinate (get (lit "x") jwk)) (coordinate (get (lit "y") jwk))
  jwk_to_public_pem _ = none

  abbrev add_usable :
      Option j.PublicKey
      → Option Text
      → List (j.PublicKey × Option Text)
      → List (j.PublicKey × Option Text)
  add_usable none kid usable = usable
  add_usable (some pem) kid usable = (pem, kid) ∷ usable

  abbrev kid_in : Value → Option Text
  unfolding lit
  kid_in (object key) = kid_of (get (lit "kid") key)
  kid_in _ = none

  -- The keys that can be used, with their ids.
  unfoldable pub usable_keys : Items → List (j.PublicKey × Option Text)
  unfolding jwk_to_public_pem kid_in
  usable_keys no_items = []
  usable_keys (item key keys) = add_usable (jwk_to_public_pem key) (kid_in key) (usable_keys keys)

  abbrev listed_keys : Option Value → List (j.PublicKey × Option Text)
  listed_keys (some (array keys)) = usable_keys keys
  listed_keys _ = []

  abbrev keys_in : Option Value → List (j.PublicKey × Option Text)
  unfolding lit
  keys_in (some (object jwks)) = listed_keys (get (lit "keys") jwks)
  keys_in _ = []

  abbrev entry_of : Option Text → Option Text → List (j.PublicKey × Option Text) → Option (Issuer j)
  entry_of (some issuer_id) (some deployment_id) (key ∷ keys) =
      some (record { issuer_id = issuer_id; deployment_id = deployment_id; keys = key ∷ keys })
  entry_of _ _ _ = none

  -- `_normalize_issuer_entry`
  unfoldable pub normalize_issuer_entry : Unicode → Text → Value → Option (Issuer j)
  unfolding lit nonempty_str keys_in
  normalize_issuer_entry u issuer_id (object entry) =
      entry_of (nonempty_str u (some (string issuer_id)))
        (nonempty_str u (get (lit "deployment_id") entry)) (keys_in (get (lit "jwks") entry))
  normalize_issuer_entry u issuer_id _ = none

  abbrev add_issuer : Option (Issuer j) → List (Issuer j) → List (Issuer j)
  add_issuer none issuers = issuers
  add_issuer (some issuer) issuers = issuer ∷ issuers

  unfoldable pub normalize_entries : Unicode → Fields → List (Issuer j)
  unfolding normalize_issuer_entry
  normalize_entries u no_fields = []
  normalize_entries u (field issuer_id entry entries) =
      add_issuer (normalize_issuer_entry u issuer_id entry) (normalize_entries u entries)

  unfoldable pub issuers_of : Unicode → Option Value → List (Issuer j)
  unfolding normalize_entries
  issuers_of u (some (object raw)) = normalize_entries u raw
  issuers_of u _ = []

  abbrev parse_config : (Text → JsonLoaded) → Option Text → Option Value
  parse_config loads none = none
  parse_config loads (some text) = loaded_value (loads text)

  -- `_load_trusted_issuers`, of the argument and the value of QWED_A2A_TRUSTED_ISSUERS.
  unfoldable pub load_trusted_issuers :
      Unicode → (Text → JsonLoaded) → Option Value → Text → List (Issuer j)
  unfolding issuers_of sanitize_issuer_config_json
  load_trusted_issuers u loads (some explicit) env_raw = issuers_of u (some explicit)
  load_trusted_issuers u loads none env_raw =
      if is_empty (strip u.is_space env_raw)
      then []
      else issuers_of u (parse_config loads (sanitize_issuer_config_json u env_raw))
