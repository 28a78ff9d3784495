-- ===== src/Endpoints/Identity/Granted.antt =====
-- What a granted identity rests on.
use mathlib.Core.Option.{some-injective}
use mathlib.Core.List.{Memᴰ}
use mathlib.Core.List.Memᴰ
use qwed_a2a.Interceptor.Code.{is_encodable}
use qwed_a2a.Prelude.{
  ◌≡◌, ◌≢◌, ◌⊎◌, inl, inr, refl, sym, ◌∙◌, ap, subst, true, ◌&&◌, Option, none, some, [], ◌∷◌,
  arith, ltb, leb, ◌==◌, ==_iff, Bool-cases, length,
}
use qwed_a2a.Prelude.Text.{Text, text-Eq}
use qwed_a2a.Strip.{strip, strip_again}
use qwed_a2a.Dict.{Dict, insert}
use qwed_a2a.Schema.AgentId.{has_control, validate_agent_id_format, accept_agent_id}
use qwed_a2a.Interceptor.Message.{
  JsonLoaded, parsed, undecodable, escaping, loaded_value, Value, null, boolean, integer, float,
  string, array, object, Fields, no_fields, field,
}
use qwed_a2a.Interceptor.Claim.{Unicode}
use qwed_a2a.Endpoints.Identity.{
  is_blank, valid_text, valid_agent_id, sanitize_keys_json, add_key, usable_keys, keys_of,
  parse_keys, load_api_keys, find_agent, Access, not_configured, invalid_key, granted, grant,
  check_key, header_text, require_agent_identity,
}

-- An entry of the map gives the key and an agent id that is usable.
pub data Maps (u : Unicode) : Fields → Text → Text → Type 0 where
  here :
      (key agent : Text) (v : Value) (entries : Fields)
      → key ≢ []
      → valid_agent_id u v ≡ some agent
      → Maps u (field key v entries) key agent
  there :
      (key agent other : Text) (v : Value) (entries : Fields)
      → Maps u entries key agent
      → Maps u (field other v entries) key agent

valid_text-accepted :
    (u : Unicode) (t agent : Text)
    → strip u.is_space t ≡ t
    → valid_text t ≡ some agent
    → accept_agent_id u.is_space agent ≡ some agent
unfolding valid_text accept_agent_id validate_agent_id_format
valid_text-accepted u [] agent stripped = λ h. absurd (cc)
valid_text-accepted u (c ∷ cs) agent stripped = elim (Bool-cases (ltb 256 (length (c ∷ cs)))) [
  | inl long ↦ rw long (λ h. absurd (cc))
  | inr short ↦ elim (Bool-cases (has_control (c ∷ cs))) [
    | inl control ↦ rw (short, control) (λ h. absurd (cc))
    | inr plain ↦
        rw (short, plain)
          (λ h.
            let same : c ∷ cs ≡ agent = some-injective (c ∷ cs) agent h in
            let fits : (leb 1 (length (c ∷ cs)) && leb (length (c ∷ cs)) 256) ≡ true =
              ground arith in
            subst (λ a. accept_agent_id u.is_space a ≡ some a) same
              (rw (fits, plain, stripped) refl))
  ]
]

-- A usable agent id is one that `AgentMessage` takes as it is.
valid_agent_id-accepted :
    (u : Unicode) (v : Value) (agent : Text)
    → valid_agent_id u v ≡ some agent
    → accept_agent_id u.is_space agent ≡ some agent
unfolding valid_agent_id
valid_agent_id-accepted u (string t) agent h =
    valid_text-accepted u (strip u.is_space t) agent (strip_again u.is_space t) h
valid_agent_id-accepted u null agent h = absurd (cc)
valid_agent_id-accepted u (boolean b) agent h = absurd (cc)
valid_agent_id-accepted u (integer n) agent h = absurd (cc)
valid_agent_id-accepted u (float x) agent h = absurd (cc)
valid_agent_id-accepted u (array vs) agent h = absurd (cc)
valid_agent_id-accepted u (object x) agent h = absurd (cc)

insert_cases :
    (k j a b : Text) (d : Dict Text Text)
    → Memᴰ (k, a) (insert j b d)
    → ((k ≡ j) × (a ≡ b)) ⊎ Memᴰ (k, a) d
unfolding insert
insert_cases k j a b [] = λ m. elim (Memᴰ.cases_cons m) [
  | inl same ↦ inl (ap (λ (p : Text × Text). p.0) same, ap (λ (p : Text × Text). p.1) same)
  | inr none' ↦ absurd (Memᴰ.not-nil none')
]
insert_cases k j a b ((i, c) ∷ d) = elim (Bool-cases (i == j)) [
  | inl is ↦ rw is (λ m. elim (Memᴰ.cases_cons m) [
    | inl same ↦ inl (ap (λ (p : Text × Text). p.0) same, ap (λ (p : Text × Text). p.1) same)
    | inr old ↦ inr (Memᴰ.tail old)
  ])
  | inr other ↦ rw other (λ m. elim (Memᴰ.cases_cons m) [
    | inl same ↦ inr (Memᴰ.head same)
    | inr later ↦ elim (insert_cases k j a b d later) [
      | inl is ↦ inl is
      | inr old ↦ inr (Memᴰ.tail old)
    ]
  ])
]

add_key_cases :
    (k a j : Text) (o : Option Text) (d : Dict Text Text)
    → Memᴰ (k, a) (add_key j o d)
    → ((k ≡ j) × (j ≢ []) × (o ≡ some a)) ⊎ Memᴰ (k, a) d
add_key_cases k a [] o d m = inr m
add_key_cases k a (c ∷ cs) none d m = inr m
add_key_cases k a (c ∷ cs) (some agent) d m = elim (insert_cases k (c ∷ cs) a agent d m) [
  | inl (same, is) ↦ inl (same, (λ e. absurd (cc)), ap (λ z. some z) (sym is))
  | inr old ↦ inr old
]

usable_keys-Maps :
    (u : Unicode) (entries : Fields) (d : Dict Text Text) (k a : Text)
    → Memᴰ (k, a) (usable_keys u entries d)
    → Maps u entries k a ⊎ Memᴰ (k, a) d
unfolding usable_keys
usable_keys-Maps u no_fields d k a m = inr m
usable_keys-Maps u (field j v entries) d k a m =
    elim (usable_keys-Maps u entries (add_key j (valid_agent_id u v) d) k a m) [
      | inl later ↦ inl (there k a j v entries later)
      | inr before ↦ elim (add_key_cases k a j (valid_agent_id u v) d before) [
        | inl (same, given, is) ↦
            inl
              (subst (λ z. Maps u (field j v entries) z a) (sym same) (here j a v entries given is))
        | inr old ↦ inr old
      ]
    ]

find_agent-Memᴰ :
    (provided a : Text) (d : Dict Text Text) → find_agent provided d ≡ some a → Memᴰ (provided, a) d
unfolding find_agent
find_agent-Memᴰ provided a [] = λ h. absurd (cc)
find_agent-Memᴰ provided a ((k, b) ∷ d) = elim (Bool-cases (is_encodable k && k == provided)) [
  | inl found ↦ rw found (λ h.
      let same : k ≡ provided = (==_iff k provided).0 (ground arith) in
      Memᴰ.head (ap (λ z. (z, a)) (sym same) ∙ ap (λ z. (k, z)) (sym (some-injective b a h))))
  | inr other ↦ rw other (λ h. Memᴰ.tail (find_agent-Memᴰ provided a d h))
]

agent_of : Text → Access → Text
agent_of default (granted agent) = agent
agent_of default not_configured = default
agent_of default invalid_key = default

grant_lem : (o : Option Text) (agent : Text) → grant o ≡ granted agent → o ≡ some agent
unfolding agent_of
grant_lem none agent h = absurd (cc)
grant_lem (some a) agent h = ap (λ z. some (agent_of [] z)) h

check_key-granted :
    (provided a : Text) (keys : Dict Text Text)
    → check_key provided keys ≡ granted a
    → Memᴰ (provided, a) keys
unfolding check_key
check_key-granted provided a [] = λ h. absurd (cc)
check_key-granted provided a (key ∷ keys) = elim (Bool-cases (is_encodable provided)) [
  | inl on ↦ rw on (λ h.
      find_agent-Memᴰ provided a (key ∷ keys) (grant_lem (find_agent provided (key ∷ keys)) a h))
  | inr off ↦ rw off (λ h. absurd (cc))
]

-- What a granted identity rests on: the map of keys could be read, the caller's key is not empty and
-- stands in it for the agent, and the agent's id is one that messages take as it is.
pub record Granted (u : Unicode) (loads : Text → JsonLoaded) (raw : Text) (key agent : Text)
    : Type 0 where
  pub text : Text
  pub entries : Fields
  pub is_text : sanitize_keys_json u raw ≡ some text
  pub is_map : loads text ≡ parsed (object entries)
  pub maps : Maps u entries key agent
  pub is_given : key ≢ []
  pub accepted : accept_agent_id u.is_space agent ≡ some agent

Maps-accepted :
    (u : Unicode) (entries : Fields) (key agent : Text)
    → Maps u entries key agent
    → (key ≢ []) × (accept_agent_id u.is_space agent ≡ some agent)
Maps-accepted u entries key agent (here k a v es given valid) =
    (given, valid_agent_id-accepted u v agent valid)
Maps-accepted u entries key agent (there k a j v es later) = Maps-accepted u es key agent later

keys_of-Maps :
    (u : Unicode) (o : Option Value) (key agent : Text)
    → Memᴰ (key, agent) (keys_of u o)
    → (entries : Fields) × (o ≡ some (object entries)) × Maps u entries key agent
unfolding keys_of
keys_of-Maps u (some (object entries)) key agent m =
    elim (usable_keys-Maps u entries [] key agent m) [
      | inl maps ↦ (entries, refl, maps)
      | inr none' ↦ absurd (Memᴰ.not-nil none')
    ]
keys_of-Maps u none key agent m = elim m [ ]
keys_of-Maps u (some null) key agent m = elim m [ ]
keys_of-Maps u (some (boolean b)) key agent m = elim m [ ]
keys_of-Maps u (some (integer n)) key agent m = elim m [ ]
keys_of-Maps u (some (float x)) key agent m = elim m [ ]
keys_of-Maps u (some (string x)) key agent m = elim m [ ]
keys_of-Maps u (some (array vs)) key agent m = elim m [ ]

loaded_value-some : (l : JsonLoaded) (v : Value) → loaded_value l ≡ some v → l ≡ parsed v
loaded_value-some (parsed w) v h = ap parsed (some-injective w v h)
loaded_value-some undecodable v h = absurd (cc)
loaded_value-some escaping v h = absurd (cc)

parse_keys-some :
    (loads : Text → JsonLoaded) (o : Option Text) (v : Value)
    → parse_keys loads o ≡ some v
    → (text : Text) × (o ≡ some text) × (loads text ≡ parsed v)
parse_keys-some loads none v h = absurd (cc)
parse_keys-some loads (some text) v h = (text, refl, loaded_value-some (loads text) v h)

load_api_keys-Memᴰ :
    (u : Unicode) (loads : Text → JsonLoaded) (raw key agent : Text)
    → Memᴰ (key, agent) (load_api_keys u loads raw)
    → Memᴰ (key, agent) (keys_of u (parse_keys loads (sanitize_keys_json u raw)))
unfolding load_api_keys
load_api_keys-Memᴰ u loads raw key agent = elim (Bool-cases (is_blank (strip u.is_space raw))) [
  | inl blank ↦ rw blank (λ m. absurd (Memᴰ.not-nil m))
  | inr text ↦ rw text (λ m. m)
]

-- A caller is let in only under an agent id that the map gives for its key.
pub require_agent_identity-Granted :
    (u : Unicode) (loads : Text → JsonLoaded) (raw : Text) (header : Option Text) (agent : Text)
    → require_agent_identity u loads raw header ≡ granted agent
    → Granted u loads raw (header_text header) agent
unfolding require_agent_identity
require_agent_identity-Granted u loads raw header agent h =
    let key = header_text header in
    let m = check_key-granted key agent (load_api_keys u loads raw) h in
    let (entries, is, maps) =
      keys_of-Maps u (parse_keys loads (sanitize_keys_json u raw)) key agent
        (load_api_keys-Memᴰ u loads raw key agent m) in
    let (text, is_text, is_map) =
      parse_keys-some loads (sanitize_keys_json u raw) (object entries) is in
    let (given, accepted) = Maps-accepted u entries key agent maps in
    record {
      text = text;
      entries = entries;
      is_text = is_text;
      is_map = is_map;
      maps = maps;
      is_given = given;
      accepted = accepted;
    }
