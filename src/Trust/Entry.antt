-- ===== src/Trust/Entry.antt =====
-- `_redact`, `TrustEntry` and the scope tests of src/qwed_a2a/security/trust_boundary.py.
use qwed_a2a.Prelude.{
  ℕ, ◌-◌, Bool, true, false, not, Option, none, some, List, [], ◌++◌, leb, if◌then◌else◌, length,
  take, drop, contains,
}
use qwed_a2a.Prelude.Int.{ℤ, pos, negsuc}
use qwed_a2a.Prelude.Text.{Text, lit, text-Eq}

unfoldable pub redact : Text → Text
unfolding lit
redact [] = lit "<empty>"
redact agent_id =
    if leb (length agent_id) 4
    then lit "****"
    else take 2 agent_id ++ (lit "***" ++ drop (length agent_id - 2) agent_id)

-- A scope is `None`, which restricts nothing, or a set of names.
abbrev pub Scope : Type 0
Scope = Option (List Text)

-- `granted_at` and `valid_until` are wall-clock readings.
pub record TrustEntry : Type 0 where
  pub agent_id : Text
  pub allowed_receivers : Scope
  pub allowed_payload_types : Scope
  pub valid_until : Option ℤ
  pub granted_by : Text
  pub granted_at : ℕ

-- `now <= valid_until`
abbrev pub reached_by : ℕ → ℤ → Bool
reached_by now (pos t) = leb now t
reached_by now (negsuc t) = false

abbrev no_later : ℕ → Option ℤ → Bool
no_later now none = true
no_later now (some t) = reached_by now t

unfoldable pub is_valid : TrustEntry → ℕ → Bool
is_valid e now = no_later now e.valid_until

-- `scope is not None and name not in scope`
unfoldable pub outside : Scope → Text → Bool
outside none name = false
outside (some names) name = not (contains name names)

-- `payload_type is not None and ...`
unfoldable pub outside_opt : Scope → Option Text → Bool
unfolding outside
outside_opt scope none = false
outside_opt scope (some payload_type) = outside scope payload_type

unfoldable pub allows : TrustEntry → Text → Text → ℕ → Bool
allows e receiver payload_type now =
    if not (is_valid e now)
    then false
    else if outside e.allowed_receivers receiver
    then false
    else not (outside e.allowed_payload_types payload_type)

unfoldable pub sender_scope_blocks : Option TrustEntry → Text → Option Text → Bool
sender_scope_blocks none receiver_id payload_type = false
sender_scope_blocks (some e) receiver_id payload_type =
    if outside e.allowed_receivers receiver_id
    then true
    else outside_opt e.allowed_payload_types payload_type

unfoldable pub receiver_scope_blocks : Option TrustEntry → Text → Option Text → Bool
receiver_scope_blocks none sender_id payload_type = false
receiver_scope_blocks (some e) sender_id payload_type =
    if outside e.allowed_receivers sender_id
    then true
    else outside_opt e.allowed_payload_types payload_type

unfoldable pub nullify_if_expired : Option TrustEntry → ℕ → Option TrustEntry
nullify_if_expired none now = none
nullify_if_expired (some e) now = if not (is_valid e now) then none else some e
