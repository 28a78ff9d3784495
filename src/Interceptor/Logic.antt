-- ===== src/Interceptor/Logic.antt =====
-- `_verify_logic`: a claim may not be both asserted and negated.
use qwed_a2a.Prelude.{
  ltb, Bool, true, false, Option, none, some, List, [], ◌∷◌, if◌then◌else◌, add, contains,
}
use qwed_a2a.Prelude.Text.{Text, lit, text-Eq}
use qwed_a2a.Interceptor.Message.{
  Value, boolean, string, array, object, Items, no_items, item, Fields, get, EngineReason,
  assertions_not_list, assertions_empty, assertion_not_mapping, claim_missing, negated_not_boolean,
  no_contradiction, contradiction, EngineResult, unverified,
}
use qwed_a2a.Interceptor.Claim.{Unicode, normalize_claim}

-- `self._normalize_claim(claim) if isinstance(claim, str) else ""`
unfoldable pub key_of : Unicode → Option Value → Text
key_of u (some (string claim)) = normalize_claim u claim
key_of u _ = []

-- `assertion.get("negated", False)`, with `none` if it is no `bool`.
unfoldable pub polarity : Option Value → Option Bool
polarity none = some false
polarity (some (boolean b)) = some b
polarity (some _) = none

-- One assertion: its key and whether it is negated, or the reason to stop.
pub data Assertion : Type 0 where
  claims : Text → Bool → Assertion
  refused : EngineReason → Assertion

abbrev with_polarity : Text → Option Bool → Assertion
with_polarity key none = refused negated_not_boolean
with_polarity key (some negated) = claims key negated

abbrev with_key : Text → Option Bool → Assertion
with_key [] negated = refused claim_missing
with_key (c ∷ cs) negated = with_polarity (c ∷ cs) negated

unfoldable pub read_assertion : Unicode → Value → Assertion
unfolding lit
read_assertion u (object fs) =
    with_key (key_of u (get (lit "claim") fs)) (polarity (get (lit "negated") fs))
read_assertion u _ = refused assertion_not_mapping

-- The loop: the positive and the negative keys, or the reason to stop.
pub data Read : Type 0 where
  all_read : List Text → List Text → Read
  stopped : EngineReason → Read

unfoldable pub read_assertions : Unicode → Items → List Text → List Text → Read
read_assertions u no_items positive negative = all_read positive negative
read_assertions u (item v vs) positive negative = elim (read_assertion u v) [
  | refused reason ↦ stopped reason
  | claims key true ↦ read_assertions u vs positive (add key negative)
  | claims key false ↦ read_assertions u vs (add key positive) negative
]

-- `positive_claims & negative_claims`
unfoldable pub both : List Text → List Text → List Text
both [] negative = []
both (key ∷ keys) negative =
    let rest = both keys negative in if contains key negative then key ∷ rest else rest

-- `s <= t` on texts.
unfoldable pub text_le : Text → Text → Bool
text_le [] t = true
text_le (x ∷ xs) [] = false
text_le (x ∷ xs) (y ∷ ys) = if ltb x y then true else if ltb y x then false else text_le xs ys

unfoldable pub insert_sorted : Text → List Text → List Text
insert_sorted t [] = t ∷ []
insert_sorted t (u ∷ us) =
    let rest = insert_sorted t us in if text_le t u then t ∷ (u ∷ us) else u ∷ rest

-- `sorted`
unfoldable pub sorted : List Text → List Text
sorted [] = []
sorted (t ∷ ts) = insert_sorted t (sorted ts)

unfoldable pub report : List Text → EngineResult
unfolding lit
report [] = unverified (lit "logic_guard") (some (lit "heuristic_pass")) no_contradiction
report (key ∷ keys) = unverified (lit "logic_guard") none (contradiction (key ∷ keys))

unfoldable pub judge : Read → EngineResult
unfolding lit report
judge (stopped reason) = unverified (lit "logic_guard") (some (lit "unverifiable")) reason
judge (all_read positive negative) = report (sorted (both positive negative))

-- `payload.get("assertions", [])`
unfoldable pub verify_assertions : Unicode → Option Value → EngineResult
unfolding lit
verify_assertions u (some (array (item v vs))) = judge (read_assertions u (item v vs) [] [])
verify_assertions u (some (array no_items)) =
    unverified (lit "logic_guard") (some (lit "unverifiable")) assertions_empty
verify_assertions u none =
    unverified (lit "logic_guard") (some (lit "unverifiable")) assertions_empty
verify_assertions u (some _) =
    unverified (lit "logic_guard") (some (lit "unverifiable")) assertions_not_list

unfoldable pub verify_logic : Unicode → Fields → EngineResult
verify_logic u payload = verify_assertions u (get (lit "assertions") payload)
