-- ===== src/Schema.antt =====
-- The closed enumerations of src/qwed_a2a/protocol/schema.py, with their wire values.
pub mod AgentId
use qwed_a2a.Prelude.{
  ◌≡◌, ◌↔◌, ◌⊎◌, refl, inl, inr, Bool, true, false, Option, none, some, List, [], ◌∷◌, arith,
  Comparable, ◌==◌, contains, if◌then◌else◌,
}
use qwed_a2a.Prelude.Text.{Text, lit, text-Eq, text_eq_iff, text_eq}

pub data PayloadType : Type 0 where
  financial_transaction logic_assertion code_execution data_query general : PayloadType

unfoldable pub type_value : PayloadType → Text
unfolding lit
type_value financial_transaction = lit "financial_transaction"
type_value logic_assertion = lit "logic_assertion"
type_value code_execution = lit "code_execution"
type_value data_query = lit "data_query"
type_value general = lit "general"

-- `FORWARDED` is an alias of `verified`, the same member.
pub data VerdictStatus : Type 0 where
  verified blocked unverifiable heuristic_pass error : VerdictStatus

unfoldable pub status_value : VerdictStatus → Text
unfolding lit
status_value verified = lit "verified"
status_value blocked = lit "blocked"
status_value unverifiable = lit "unverifiable"
status_value heuristic_pass = lit "heuristic_pass"
status_value error = lit "error"

unfoldable pub legacy_forwarded_value : Text
unfolding lit
legacy_forwarded_value = lit "forwarded"

-- `_missing_`, which the enumeration calls for a value that no member has.
unfoldable pub missing : Text → Option VerdictStatus
missing value = if value == legacy_forwarded_value then some verified else none

-- `VerdictStatus(value)`, with `none` for its `ValueError`.
unfoldable pub status_of_value : Text → Option VerdictStatus
unfolding missing
status_of_value value =
    if value == status_value verified
    then some verified
    else if value == status_value blocked
    then some blocked
    else if value == status_value unverifiable
    then some unverifiable
    else if value == status_value heuristic_pass
    then some heuristic_pass
    else if value == status_value error
    then some error
    else missing value

abbrev status_eq : VerdictStatus → VerdictStatus → Bool
status_eq verified verified = true
status_eq blocked blocked = true
status_eq unverifiable unverifiable = true
status_eq heuristic_pass heuristic_pass = true
status_eq error error = true
status_eq _ _ = false

pub status_eq_iff : (a b : VerdictStatus) → (status_eq a b ≡ true) ↔ (a ≡ b)
status_eq_iff a b = ground arith

instance abbrev pub status-Eq : Comparable VerdictStatus
status-Eq = record { same = status_eq; same_iff = status_eq_iff }

abbrev pub admissible_verdicts : List VerdictStatus
admissible_verdicts = verified ∷ []

unfoldable pub admissible : VerdictStatus → Bool
unfolding contains
admissible s = contains s admissible_verdicts

-- Only `verified` is admissible.
pub admissible_iff : (s : VerdictStatus) → (admissible s ≡ true) ↔ (s ≡ verified)
unfolding admissible
admissible_iff s = ground arith

pub status_of_value-status_value : (s : VerdictStatus) → status_of_value (status_value s) ≡ some s
unfolding status_of_value status_value text_eq
status_of_value-status_value verified = refl
status_of_value-status_value blocked = refl
status_of_value-status_value unverifiable = refl
status_of_value-status_value heuristic_pass = refl
status_of_value-status_value error = refl

legacy_is_read : status_of_value legacy_forwarded_value ≡ some verified
unfolding status_of_value status_value legacy_forwarded_value text_eq
legacy_is_read = refl

read_value :
    (v : Text) (s : VerdictStatus)
    → status_of_value v ≡ some s
    → (v ≡ status_value s) ⊎ ((v ≡ legacy_forwarded_value) × (s ≡ verified))
unfolding status_of_value
read_value v s h = ground (
  arith,
  text_eq_iff v (status_value verified),
  text_eq_iff v (status_value blocked),
  text_eq_iff v (status_value unverifiable),
  text_eq_iff v (status_value heuristic_pass),
  text_eq_iff v (status_value error),
  text_eq_iff v legacy_forwarded_value,
)

-- Reading a wire value gives a status exactly if the value is that status's own wire value, or it
-- is the legacy value and the status is verified.
pub status_of_value_iff :
    (v : Text) (s : VerdictStatus)
    → (status_of_value v ≡ some s)
      ↔ ((v ≡ status_value s) ⊎ ((v ≡ legacy_forwarded_value) × (s ≡ verified)))
status_of_value_iff v s = (
  read_value v s,
  λ h. elim h [
    | inl e ↦ rw (← status_of_value-status_value s, e)
    | inr (e, is_verified) ↦ rw (is_verified, e) legacy_is_read
  ],
)
