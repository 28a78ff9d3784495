-- ===== src/Schema/AgentId.antt =====
-- The agent ids of `AgentMessage`: the bounds of the fields and `validate_agent_id_format`.
use qwed_a2a.Prelude.{
  ℕ, Bool, false, ◌&&◌, ◌||◌, Option, none, some, [], ◌∷◌, ltb, leb, if◌then◌else◌, length,
}
use qwed_a2a.Prelude.Text.{Text}
use qwed_a2a.Strip.{strip}

-- `any(ord(c) < 32 for c in v)`
unfoldable pub has_control : Text → Bool
has_control [] = false
has_control (c ∷ cs) = ltb c 32 || has_control cs

-- `validate_agent_id_format`, with `none` for the `ValueError`.
unfoldable pub validate_agent_id_format : (ℕ → Bool) → Text → Option Text
validate_agent_id_format is_space v = if has_control v then none else some (strip is_space v)

-- A field of an agent id: `min_length=1` and `max_length=256`, and then the validator.
unfoldable pub accept_agent_id : (ℕ → Bool) → Text → Option Text
accept_agent_id is_space v =
    if leb 1 (length v) && leb (length v) 256 then validate_agent_id_format is_space v else none
