-- ===== src/Interceptor/Examples.antt =====
-- The theorems about the interceptor at small inputs.
use qwed_a2a.Strip.{strip, strip_left, strip_right}
use qwed_a2a.Interceptor.Slots.{new_pool, Event, call, take, done, give_up, run, count_running}
use qwed_a2a.Interceptor.Slots.Bounds.{IsSound, run-IsSound}
use qwed_a2a.Interceptor.Slots.Drain.{ByWorkers, drains}
use qwed_a2a.Interceptor.Claim.{
  normalize_claim, normalize_ascii, drop_invisible, split, split_first, join, all, filter,
}
use qwed_a2a.Interceptor.Logic.{read_assertion, key_of, polarity, verify_logic}
use qwed_a2a.Interceptor.Contradiction.{Says, Readable, verify_logic-blocks_iff}
use qwed_a2a.Interceptor.Message.{
  Value, object, array, boolean, Items, item, no_items, get, field, string,
}
use qwed_a2a.Schema.{logic_assertion, blocked}
use qwed_a2a.Interceptor.Claim.{within}
use qwed_a2a.Interceptor.Regex.{CharClasses}
use qwed_a2a.Interceptor.Decide.{InterceptorConfig, of_result, of_outcome, has_status}
use qwed_a2a.Interceptor.Message.{Fields}
use qwed_a2a.Interceptor.Financial.{
  verify_financial, verify_claim, validate, check_data, check_claim, check_items, check_total,
  validate_line_items, validate_line_item, check_fields, check_factors, decimal_of, sum_items,
  compare_claim, quantize_total, compare_totals, finance_result, differ,
}
use qwed_a2a.Interceptor.Decimal.{
  parse, parse_signed, parse_unsigned, parse_finite, of_digits, after, take_digits, fraction,
  parse_exponent, signed_exponent, value_from, is_representable, scaled, digits, digits_in,
  numeric_text, to_ascii, mul, plus, fix, is_too_large, round_by, excess, drop_half_even, exact_sum,
  quantize, drop_half_up,
}
use qwed_a2a.Prelude.{nat-Eq, ◌==◌, ◌||◌, ◌↔◌, List, ◌∷◌}
use qwed_a2a.Trust.Bucket.{consume}
use qwed_a2a.Trust.Entry.{sender_scope_blocks, nullify_if_expired, receiver_scope_blocks}
use qwed_a2a.Interceptor.Code.{utf8_length}
use qwed_a2a.Prelude.{
  contains, sym, ◌∙◌, ◌≡◌, refl, true, false, none, some, [], arith, if◌then◌else◌, is_some,
}
use qwed_a2a.Prelude.Text.{Text, lit, text_eq}
use qwed_a2a.Dict.{lookup, insert, drop_where}
use qwed_a2a.Schema.{
  financial_transaction, verified, unverifiable, status_of_value, status_value, admissible,
}
use qwed_a2a.Telemetry.{no_metrics, IsConsistent}
use qwed_a2a.Trust.{
  check_trust, admit, take_token, evict_cold_buckets, evict_expired_trust, init, evaluate,
}
use qwed_a2a.Crypto.Jti.{check_and_register, expiry_of}
use qwed_a2a.Crypto.Service.{new_service}
use qwed_a2a.Crypto.Sign.{sign_verdict, reserve_and_sign, encode_or_release, claims_of}
use qwed_a2a.Crypto.Sample.{sample_jwt, sample_keys, sample-Decodes}
use qwed_a2a.Interceptor.Message.{no_fields, AgentMessage}
use qwed_a2a.Interceptor.Pipeline.{
  Interceptor, Times, VerificationVerdict, intercept, deliver, build_verdict, build_signed,
  attested,
}
use qwed_a2a.Interceptor.Decide.{
  Engines, completed, decide, decide_sized, decide_trusted, payload_size, payload_hash, of_run,
  of_result, has_status, route_to_engine, route,
}
use qwed_a2a.Interceptor.Verdict.{Passed}
use qwed_a2a.Interceptor.Attested.{
  Attests, intercept-Attests, intercept-admissible, intercept-counts,
}
use qwed_a2a.Interceptor.RoundTrip.{Confirmed, intercept-Confirmed}

abbrev pub classes : CharClasses
classes = record { is_space = λ c. c == 32; is_alnum = λ c. within 65 90 c || within 97 122 c }

abbrev pub engines : Engines
engines = record {
  unicode = record {
    is_format = λ _. false;
    is_control = λ _. false;
    is_space = λ _. false;
    to_decimal = λ _. none;
    nfkc = λ t. t;
    casefold = λ t. t;
  };
  scanner = record { parse = λ code. some []; classes = classes };
  dumps = λ _. some (lit "{}");
  dumps_sorted = λ _. some (lit "{}");
  sha256 = λ t. t;
}

abbrev pub config : InterceptorConfig
config = record {
  enable_financial_verification = true;
  enable_logic_verification = true;
  enable_code_verification = true;
  max_payload_size_bytes = 1024;
  engine_timeout_seconds = lit "5.0";
}

abbrev pub interceptor : Interceptor sample_jwt
interceptor = record {
  config = config;
  trust = init 60 true;
  crypto = new_service sample_jwt (lit "node") 300 (lit "prod") (some sample_keys);
  metrics = no_metrics;
}

-- Three at 10.00 are claimed to be 30.
unfoldable pub three_items : Items
unfolding lit
three_items =
    item
      (object (
        field (lit "amount") (string (lit "10.00"))
          (field (lit "quantity") (string (lit "3")) no_fields)))
      no_items

unfoldable pub invoice : Fields
unfolding lit three_items
invoice =
    field (lit "data")
      (object (
        field (lit "claimed_total") (string (lit "30"))
          (field (lit "line_items") (array three_items) no_fields)))
      no_fields

abbrev pub message : AgentMessage
message = record {
  sender_agent_id = lit "a";
  receiver_agent_id = lit "b";
  payload_type = financial_transaction;
  payload = invoice;
}

abbrev pub times : Times
times = record {
  trust = record { wall = 5; mono_trust = 5; mono = 5 };
  wall = 5000000;
  wall_registry = 5000000;
  latency = 3;
}

abbrev pub trace : Text
trace = lit "t1"

-- What the runs below unfold.
unfoldable pub model : Unit {0}
unfolding intercept decide decide_sized decide_trusted deliver build_verdict build_signed attested
    of_run of_result has_status route_to_engine route evaluate init payload_size payload_hash
    sign_verdict reserve_and_sign encode_or_release claims_of check_and_register lookup insert
    drop_where lit text_eq expiry_of status_of_value status_value utf8_length contains check_trust
    sender_scope_blocks nullify_if_expired receiver_scope_blocks admit take_token consume
    evict_cold_buckets evict_expired_trust of_outcome get invoice three_items verify_financial
    verify_claim validate check_data check_claim check_items check_total validate_line_items
    validate_line_item check_fields check_factors decimal_of parse parse_signed parse_unsigned
    parse_finite of_digits after take_digits fraction parse_exponent signed_exponent value_from
    is_representable scaled digits digits_in numeric_text to_ascii strip strip_left strip_right
    filter all sum_items mul plus fix is_too_large round_by excess drop_half_even exact_sum quantize
    drop_half_up compare_claim quantize_total compare_totals finance_result differ
model = tt

pub returned :
    (v : VerificationVerdict) × ((intercept sample_jwt engines interceptor message trace completed
        times).1
      ≡ some v)
    × (v.status ≡ verified)
unfolding model
returned = (_, refl, refl)

intercept-Attests_example :
    Attests sample_jwt engines interceptor.crypto message times returned.0
      (intercept sample_jwt engines interceptor message trace completed times).0.crypto
    × (returned.0.status
        ≡ (decide engines interceptor.config message completed times.trust
            interceptor.trust).1.status)
    × (returned.0.audit_trace_id ≡ trace)
intercept-Attests_example =
    intercept-Attests sample_jwt engines interceptor message trace completed times returned.0
      returned.1

intercept-admissible_example :
    Passed engines interceptor.config message completed times.trust interceptor.trust
unfolding admissible
intercept-admissible_example =
    intercept-admissible sample_jwt engines interceptor message trace completed times returned.0
      returned.1 (rw returned.2 refl)

intercept-counts_example :
    IsConsistent (intercept sample_jwt engines interceptor message trace completed times).0.metrics
    × ((intercept sample_jwt engines interceptor message trace completed
          times).0.metrics.total_intercepts
        ≡ (if is_some (intercept sample_jwt engines interceptor message trace completed times).1
            then 1
            else 0))
intercept-counts_example =
    intercept-counts sample_jwt engines interceptor message trace completed times
      (record { outcomes = refl; senders = refl })

intercept-Confirmed_example :
    Confirmed sample_jwt
      (λ key. key)
      (intercept sample_jwt engines interceptor message trace completed times).0.crypto
      []
      6000000
      engines
      message
      returned.0
unfolding lit lookup
intercept-Confirmed_example =
    intercept-Confirmed sample_jwt (λ key. key) engines interceptor message trace completed times
      returned.0 [] 6000000 sample_keys (sample-Decodes (7 ∷ []) (8 ∷ [])) refl returned.1
      (λ e. let wrong : verified ≡ unverifiable = sym returned.2 ∙ e in absurd (cc))
      (λ e. absurd (cc)) (omega arith) (omega arith) tt (λ held h. absurd (cc))

-- Four calls, of which one is given up before a worker takes it.
abbrev events : List Event
events = call ∷ call ∷ take 0 ∷ give_up 1 ∷ call ∷ take 1 ∷ done 0 ∷ []

new_pool-IsSound : IsSound new_pool
unfolding count_running
new_pool-IsSound = record { slots = refl; workers = omega arith }

run-IsSound_example : IsSound (run events new_pool)
run-IsSound_example = run-IsSound events new_pool new_pool-IsSound

drains_example : (es : List Event) × ByWorkers es × ((run es (run events new_pool)).free ≡ 36)
drains_example = drains (run events new_pool) run-IsSound_example

-- "Paid" asserted and "paid " negated.
abbrev contradictory : Items
contradictory =
    item
      (object (
        field (lit "negated") (boolean true)
          (field (lit "claim") (string (lit "paid ")) no_fields)))
      no_items

abbrev first_assertion : Value
first_assertion = object (field (lit "claim") (string (lit "Paid")) no_fields)

abbrev assertions : AgentMessage
assertions = record message {
  payload_type = logic_assertion;
  payload = field (lit "assertions") (array (item first_assertion contradictory)) no_fields;
}

readable : Readable engines.unicode (item first_assertion contradictory)
unfolding read_assertion key_of polarity get lit text_eq normalize_claim normalize_ascii
    drop_invisible split split_first join all filter
readable = (λ reason h. absurd (cc), (λ reason h. absurd (cc), tt))

verify_logic-blocks_iff_example :
    ((of_result assertions (verify_logic engines.unicode assertions.payload)).status ≡ blocked) ↔ (
      (key : Text) × Says engines.unicode (item first_assertion contradictory) key false
      × Says engines.unicode (item first_assertion contradictory) key true)
unfolding get lit text_eq
verify_logic-blocks_iff_example =
    verify_logic-blocks_iff engines.unicode assertions first_assertion contradictory refl readable
