-- ===== src/Interceptor/Message.antt =====
-- The data of the interceptor: JSON values, messages, and what an engine returns.
use qwed_a2a.Prelude.{
  ℕ, zero, suc, Bool, true, false, not, ◌||◌, Option, none, some, List, [], ◌∷◌, if◌then◌else◌,
  ◌==◌,
}
use qwed_a2a.Prelude.Int.{ℤ, pos, negsuc}
use qwed_a2a.Prelude.Text.{Text, lit, text-Eq}
use qwed_a2a.Schema.{PayloadType}

-- A JSON value as `json.loads` returns it; a float is its `repr`.
mutual
  pub data Value : Type 0 where
    null : Value
    boolean : Bool → Value
    integer : ℤ → Value
    float : Text → Value
    string : Text → Value
    array : Items → Value
    object : Fields → Value

  pub data Items : Type 0 where
    no_items : Items
    item : Value → Items → Items

  pub data Fields : Type 0 where
    no_fields : Fields
    field : Text → Value → Fields → Fields

-- How `json.loads` ends: with a value, with a JSONDecodeError, or with another exception, such as the
-- ValueError of an integer of too many digits and the RecursionError of a deep nesting.
pub data JsonLoaded : Type 0 where
  parsed : Value → JsonLoaded
  undecodable escaping : JsonLoaded

-- What is left of it for a caller that catches all of these.
abbrev pub loaded_value : JsonLoaded → Option Value
loaded_value (parsed v) = some v
loaded_value undecodable = none
loaded_value escaping = none

-- `d.get(k)`, with `none` for a missing key.
unfoldable pub get : Text → Fields → Option Value
get k no_fields = none
get k (field j v fs) = if j == k then some v else get k fs

-- `not v`
unfoldable pub is_falsy : Value → Bool
unfolding lit
is_falsy null = true
is_falsy (boolean b) = not b
is_falsy (integer (pos zero)) = true
is_falsy (integer (pos (suc n))) = false
is_falsy (integer (negsuc n)) = false
is_falsy (float repr) = repr == lit "0.0" || repr == lit "-0.0"
is_falsy (string []) = true
is_falsy (string (c ∷ cs)) = false
is_falsy (array no_items) = true
is_falsy (array (item v vs)) = false
is_falsy (object no_fields) = true
is_falsy (object (field k v fs)) = false

pub record AgentMessage : Type 0 where
  pub sender_agent_id : Text
  pub receiver_agent_id : Text
  pub payload_type : PayloadType
  pub payload : Fields

-- The engines' reasons, with the values that they interpolate.
pub data EngineReason : Type 0 where
  no_engine assertions_not_list assertions_empty assertion_not_mapping : EngineReason
  claim_missing negated_not_boolean no_contradiction : EngineReason
  contradiction : List Text → EngineReason
  no_code code_not_string code_too_long code_unparseable no_threat : EngineReason
  ast_threats regex_threats : List Text → EngineReason
  data_not_mapping line_items_not_list total_missing total_malformed : EngineReason
  total_not_finite total_negative line_items_missing line_item_not_mapping : EngineReason
  amount_missing quantity_null line_item_malformed line_item_not_finite : EngineReason
  line_item_negative totals_verified : EngineReason
  -- The claimed total, and the computed one in hundredths.
  hallucination : Value → ℕ → EngineReason

-- The dict of an engine. `status` is its entry of that name.
pub record EngineResult : Type 0 where
  pub verified : Bool
  pub engine : Text
  pub status : Option Text
  pub reason : Option EngineReason

abbrev pub unverified : Text → Option Text → EngineReason → EngineResult
unverified engine status reason = record {
  verified = false;
  engine = engine;
  status = status;
  reason = some reason;
}

-- How an engine ends: with a result, or with an exception of a type.
pub data Outcome : Type 0 where
  returned : EngineResult → Outcome
  raising : Text → Outcome
