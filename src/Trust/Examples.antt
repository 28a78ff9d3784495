-- ===== src/Trust/Examples.antt =====
-- Runs of the trust boundary on small inputs, and its theorems at them.
use qwed_a2a.Interceptor.Claim.{Unicode}
use qwed_a2a.Prelude.Text.{lit}
use qwed_a2a.Prelude.{false, ◌==◌, nat-Eq, none}
use qwed_a2a.Interceptor.Message.{undecodable, escaping}
use qwed_a2a.Strip.{strip, strip_left, strip_right}
use qwed_a2a.Trust.Load.{load_from_env, load_json_entries}
use qwed_a2a.Trust.Load.Grants.{Grants, load_from_env-Grants}
use qwed_a2a.Prelude.{
  ℕ, ◌+◌, ◌-◌, ◌*◌, ◌≤◌, ◌≡◌, ◌↔◌, ◌⊎◌, refl, true, false, none, some, List, [], ◌∷◌, arith,
  contains, add, discard,
}
use qwed_a2a.Prelude.Int.{pos}
use qwed_a2a.Prelude.Text.{Text, lit, text-Eq, pair-Eq, text_eq, pair_eq}
use qwed_a2a.Dict.{lookup, insert, erase, drop_where}
use qwed_a2a.Trust.Bucket.{one_token, consume}
use qwed_a2a.Trust.Entry.{
  TrustEntry, is_valid, redact, nullify_if_expired, sender_scope_blocks, receiver_scope_blocks,
  outside, outside_opt,
}
use qwed_a2a.Trust.Room.{room}
use qwed_a2a.Trust.Decision.{Permits, evaluate_decides}
use qwed_a2a.Trust.Isolation.{with_entries, evaluate-expired, evaluate-untrusted_sender}
use qwed_a2a.Trust.Trace.{
  Call, trust, ask, run, step, IsWellFormed, IsWellFormed-init, run-IsWellFormed, InOrder,
}
use qwed_a2a.Trust.RateLimit.{granted, granted-le, evaluate_iff}
use qwed_a2a.Trust.Revocation.{Refuses, block_agent_holds, revoke_agent_holds}
use qwed_a2a.Trust.{
  TrustBoundary, Readings, Reason, init, trust_agent, block_agent, revoke_agent, check_trust,
  evict_expired_trust, evict_cold_buckets, take_token, admit, evaluate,
}

abbrev alice : Text
alice = lit "alice"

abbrev bob : Text
bob = lit "bob"

abbrev start : TrustBoundary
start = init 2 false

-- `alice` may write to `bob` until the wall clock passes 5.
abbrev scoped : TrustBoundary
scoped = trust_agent alice (some (bob ∷ [])) none (some (pos 5)) (lit "config") 0 start

abbrev clock : ℕ → Readings
clock n = record { wall = n; mono_trust = n; mono = n }

abbrev request : ℕ → Call
request n = ask alice bob none (clock n)

abbrev calls : List Call
calls =
    trust alice (some (bob ∷ [])) none (some (pos 5)) (lit "config") 0
    ∷ request 1
    ∷ request 2
    ∷ request 3
    ∷ []

model : Unit {0}
unfolding lit text_eq pair_eq lookup insert erase drop_where contains add discard init trust_agent
    block_agent revoke_agent check_trust evict_expired_trust evict_cold_buckets take_token admit
    evaluate consume is_valid redact nullify_if_expired sender_scope_blocks receiver_scope_blocks
    outside outside_opt
model = tt

redact_runs : (redact (lit "procurement") ≡ lit "pr***nt") × (redact bob ≡ lit "****")
unfolding model
redact_runs = (refl, refl)

accepted : (evaluate alice bob none (clock 5) scoped).1 ≡ (true, none)
unfolding model
accepted = refl

-- The third request within a minute is over the limit of two.
over_limit : (evaluate alice bob none (clock 3) (run calls start)).1.0 ≡ false
unfolding model run step
over_limit = refl

start-IsWellFormed : IsWellFormed 0 start
start-IsWellFormed = IsWellFormed-init 2 false

calls-InOrder : InOrder 0 calls 4
calls-InOrder = omega arith

evaluate_decides_example :
    (Permits alice bob none 5 scoped
      × (evaluate alice bob none (clock 5) scoped ≡ admit alice bob (clock 5) scoped))
    ⊎ (¬ Permits alice bob none 5 scoped
        × ((reason : Reason) × (evaluate alice bob none (clock 5) scoped
              ≡ (scoped, (false, some reason)))))
evaluate_decides_example = evaluate_decides alice bob none (clock 5) scoped

evaluate_iff_example :
    ((evaluate alice bob none (clock 5) start).1.0 ≡ true)
    ↔ (Permits alice bob none 5 start × (one_token ≤ room start (alice, bob) 5))
evaluate_iff_example = evaluate_iff alice bob none (clock 5) start start-IsWellFormed (omega arith)

granted-le_example : granted (alice, bob) calls start * one_token ≤ 2 * one_token + (4 - 0) * 2
unfolding model
granted-le_example = granted-le (alice, bob) calls 0 4 start start-IsWellFormed calls-InOrder

run-IsWellFormed_example : IsWellFormed 4 (run calls start)
run-IsWellFormed_example = run-IsWellFormed calls start start-IsWellFormed calls-InOrder

block_agent_holds_example :
    Refuses (run (request 1 ∷ []) (block_agent alice scoped)) alice bob none (clock 2)
    × Refuses (run (request 1 ∷ []) (block_agent alice scoped)) bob alice none (clock 2)
block_agent_holds_example = block_agent_holds alice bob none (clock 2) (request 1 ∷ []) scoped tt

revoke_agent_holds_example :
    Refuses (run (request 1 ∷ []) (revoke_agent alice scoped).0) alice bob none (clock 2)
unfolding model
revoke_agent_holds_example =
    revoke_agent_holds alice bob none (clock 2) (request 1 ∷ []) scoped refl tt

abbrev grant : TrustEntry
grant = record {
  agent_id = alice;
  allowed_receivers = some (bob ∷ []);
  allowed_payload_types = none;
  valid_until = some (pos 5);
  granted_by = lit "config";
  granted_at = 0;
}

evaluate-expired_example :
    (evaluate alice alice none
      (clock 6)
      (with_entries (erase alice scoped.trusted_agents) scoped)).1
    ≡ (evaluate alice alice none (clock 6) scoped).1
unfolding model
evaluate-expired_example = evaluate-expired alice alice alice none (clock 6) grant scoped refl refl

evaluate-untrusted_sender_example :
    ((evaluate bob alice none (clock 1) scoped).1.0 ≡ false)
    × ((evaluate bob alice none (clock 1) (with_entries [] scoped)).1
        ≡ (evaluate bob alice none (clock 1) scoped).1)
unfolding model
evaluate-untrusted_sender_example =
    evaluate-untrusted_sender bob alice none (clock 1) [] scoped refl (λ e h. cc h.0) refl

-- Python's tables on ASCII.
abbrev plain : Unicode
plain = record {
  is_format = λ _. false;
  is_control = λ _. false;
  is_space = λ c. c == 32;
  to_decimal = λ _. none;
  nfkc = λ t. t;
  casefold = λ t. t;
}

-- An exception of `json.loads` other than a JSONDecodeError ends the load.
load_escapes :
    load_from_env plain (λ _. escaping) (λ _. none) (λ k. k) (lit "[1]") (lit "env") start
    ≡ (start, false)
unfolding load_from_env load_json_entries strip strip_left strip_right lit
load_escapes = refl

load_from_env-Grants_example :
    Grants plain
      (lit "env")
      start
      (load_from_env plain
        (λ _. undecodable)
        (λ _. none)
        (λ k. k)
        (lit "carol, dave")
        (lit "env")
        start).0
load_from_env-Grants_example =
    load_from_env-Grants plain (λ _. none) (lit "env") (λ k. k) (λ _. undecodable)
      (lit "carol, dave") start
