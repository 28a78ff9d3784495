-- ===== src/Trust/Load.antt =====
-- `load_from_env` and the checks below it. `loads` is `json.loads`; `read_float` is
-- `float` of a text, with `none` for a ValueError, `some none` for a number that is not finite, and else the ticks.
-- `clock k` is the reading of the clock at item k.
pub mod Grants
use qwed_a2a.Prelude.{
  ℕ, suc, ◌^◌, ◌-◌, ◌*◌, Bool, true, false, ◌||◌, Option, none, some, List, [], ◌∷◌, leb,
  if◌then◌else◌, ◌==◌, nat-Eq, add,
}
use qwed_a2a.Prelude.Int.{ℤ, pos, negsuc}
use qwed_a2a.Prelude.Text.{Text, lit, text-Eq}
use qwed_a2a.Strip.{strip}
use qwed_a2a.Interceptor.Claim.{Unicode}
use qwed_a2a.Interceptor.Message.{
  JsonLoaded, parsed, undecodable, escaping, Value, null, boolean, integer, float, string, array,
  object, Items, no_items, item, get,
}
use qwed_a2a.Trust.{TrustBoundary, trust_agent}
use qwed_a2a.Trust.Entry.{Scope}
use qwed_a2a.Trust.Bucket.{ticks_per_second}

-- A value, an entry to skip, or the `OverflowError` of `math.isfinite` on a large integer.
pub data Parsed {ℓ} (A : Type ℓ) : Type ℓ where
  value : A → Parsed A
  skip overflow : Parsed A

-- The least integer that is too large for a float.
unfoldable pub beyond_float : ℕ
beyond_float = 2 ^ 1024 - 2 ^ 970

abbrev of_float : Option (Option ℤ) → Parsed (Option ℤ)
of_float none = skip
of_float (some none) = skip
of_float (some (some t)) = value (some t)

-- `_parse_valid_until`
unfoldable pub parse_valid_until : (Text → Option (Option ℤ)) → Option Value → Parsed (Option ℤ)
parse_valid_until read_float none = value none
parse_valid_until read_float (some null) = value none
parse_valid_until read_float (some (boolean b)) = skip
parse_valid_until read_float (some (integer (pos n))) =
    if leb beyond_float n then overflow else value (some (pos (n * ticks_per_second)))
parse_valid_until read_float (some (integer (negsuc n))) =
    if leb beyond_float (suc n)
    then overflow
    else value (some (negsuc (suc n * ticks_per_second - 1)))
parse_valid_until read_float (some (float repr)) = of_float (read_float repr)
parse_valid_until read_float (some (string text)) = of_float (read_float text)
parse_valid_until read_float (some (array vs)) = skip
parse_valid_until read_float (some (object _)) = skip

abbrev add_name : Value → Option (List Text) → Option (List Text)
add_name (string name) (some names) = some (add name names)
add_name _ _ = none

-- The names of a list, or `none` if there is another value in it.
unfoldable pub names_of : Items → Option (List Text)
names_of no_items = some []
names_of (item v vs) = add_name v (names_of vs)

abbrev of_names : Option (List Text) → Parsed Scope
of_names none = skip
of_names (some names) = value (some names)

-- `_parse_scope_list`
unfoldable pub parse_scope_list : Option Value → Parsed Scope
unfolding names_of
parse_scope_list none = value none
parse_scope_list (some null) = value none
parse_scope_list (some (array no_items)) = skip
parse_scope_list (some (array (item v vs))) = of_names (names_of (item v vs))
parse_scope_list (some _) = skip

abbrev nonblank : Text → Option Text
nonblank [] = none
nonblank (c ∷ cs) = some (c ∷ cs)

abbrev agent_id_of : Unicode → Option Value → Option Text
agent_id_of u (some (string raw_id)) = nonblank (strip u.is_space raw_id)
agent_id_of u _ = none

-- The boundary after an entry, or the exception.
abbrev grant :
    Option Text
    → Parsed Scope
    → Parsed Scope
    → Parsed (Option ℤ)
    → Text
    → ℕ
    → TrustBoundary
    → Parsed TrustBoundary
grant none receivers types valid_until granted_by now b = skip
grant (some agent_id) (value receivers) (value types) (value valid_until) granted_by now b =
    value (trust_agent agent_id receivers types valid_until granted_by now b)
grant (some agent_id) (value receivers) (value types) overflow granted_by now b = overflow
grant (some agent_id) (value receivers) (value types) skip granted_by now b = skip
grant (some agent_id) (value receivers) _ valid_until granted_by now b = skip
grant (some agent_id) _ types valid_until granted_by now b = skip

-- `_load_json_entry`
unfoldable pub load_json_entry :
    Unicode → (Text → Option (Option ℤ)) → Text → ℕ → Value → TrustBoundary → Parsed TrustBoundary
unfolding lit parse_scope_list parse_valid_until
load_json_entry u read_float granted_by now (object entry) b =
    grant (agent_id_of u (get (lit "agent_id") entry))
      (parse_scope_list (get (lit "allowed_receivers") entry))
      (parse_scope_list (get (lit "allowed_payload_types") entry))
      (parse_valid_until read_float (get (lit "valid_until") entry)) granted_by now b
load_json_entry u read_float granted_by now _ b = skip

-- The boundary that a load leaves behind, and whether it ended without an exception.
abbrev pub Load : Type 0
Load = TrustBoundary × Bool

abbrev after : TrustBoundary → Parsed TrustBoundary → Load
after b overflow = (b, false)
after b skip = (b, true)
after b (value b') = (b', true)

-- The loop over the entries, which an exception ends.
unfoldable pub load_items :
    Unicode → (Text → Option (Option ℤ)) → Text → (ℕ → ℕ) → ℕ → Items → Load → Load
load_items u read_float granted_by clock k no_items load = load
load_items u read_float granted_by clock k (item v vs) (b, false) = (b, false)
load_items u read_float granted_by clock k (item v vs) (b, true) =
    load_items u read_float granted_by clock (suc k) vs
      (after b (load_json_entry u read_float granted_by (clock k) v b))

-- `_load_json_entries`; the text begins with a bracket, so that it is an array if it can be read.
unfoldable pub load_json_entries :
    Unicode → (Text → Option (Option ℤ)) → Text → (ℕ → ℕ) → JsonLoaded → TrustBoundary → Load
unfolding load_items
load_json_entries u read_float granted_by clock (parsed (array entries)) b =
    load_items u read_float granted_by clock 0 entries (b, true)
load_json_entries u read_float granted_by clock (parsed _) b = (b, true)
load_json_entries u read_float granted_by clock undecodable b = (b, true)
load_json_entries u read_float granted_by clock escaping b = (b, false)

-- The first part of a text at commas, and the other parts.
unfoldable pub split_commas : Text → Text × List Text
split_commas [] = ([], [])
split_commas (c ∷ cs) =
    let (part, parts) = split_commas cs in if c == 44 then ([], part ∷ parts) else (c ∷ part, parts)

abbrev trust_named : Option Text → Text → ℕ → TrustBoundary → TrustBoundary
trust_named none granted_by now b = b
trust_named (some agent_id) granted_by now b = trust_agent agent_id none none none granted_by now b

-- The comma-separated form.
unfoldable pub load_names : Unicode → Text → (ℕ → ℕ) → ℕ → List Text → TrustBoundary → TrustBoundary
load_names u granted_by clock k [] b = b
load_names u granted_by clock k (part ∷ parts) b =
    load_names u granted_by clock (suc k) parts
      (trust_named (nonblank (strip u.is_space part)) granted_by (clock k) b)

-- The form without a bracket, by what `json.loads` makes of it.
unfoldable pub load_plain : Unicode → (ℕ → ℕ) → Text → Text → JsonLoaded → TrustBoundary → Load
unfolding load_names split_commas
load_plain u clock granted_by stripped (parsed v) b = (b, true)
load_plain u clock granted_by stripped undecodable b =
    let (part, parts) = split_commas stripped in
    (load_names u granted_by clock 0 (part ∷ parts) b, true)
load_plain u clock granted_by stripped escaping b = (b, false)

abbrev first_is : ℕ → Text → Bool
first_is c [] = false
first_is c (d ∷ ds) = d == c

-- `load_from_env`
unfoldable pub load_from_env :
    Unicode
    → (Text → JsonLoaded)
    → (Text → Option (Option ℤ))
    → (ℕ → ℕ)
    → Text
    → Text
    → TrustBoundary
    → Load
unfolding load_json_entries load_plain
load_from_env u loads read_float clock [] granted_by b = (b, true)
load_from_env u loads read_float clock (c ∷ cs) granted_by b =
    let stripped = strip u.is_space (c ∷ cs) in
    if first_is 91 stripped
    then load_json_entries u read_float granted_by clock (loads stripped) b
    else if first_is 123 stripped
    then (b, true)
    else load_plain u clock granted_by stripped (loads stripped) b
