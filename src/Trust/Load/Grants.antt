-- ===== src/Trust/Load/Grants.antt =====
-- What a load does to the boundary: it grants trust, and nothing else.
use qwed_a2a.Prelude.{
  ℕ, suc, ◌≡◌, ◌≢◌, inl, inr, refl, sym, ◌∙◌, ap, true, false, Option, none, some, List, [], ◌∷◌,
  ◌++◌, All, Bool-cases,
}
use qwed_a2a.Prelude.Int.{ℤ}
use qwed_a2a.Prelude.Text.{Text, lit, text-Eq}
use qwed_a2a.Strip.{strip, strip_again}
use qwed_a2a.Interceptor.Claim.{Unicode}
use qwed_a2a.Interceptor.Message.{
  JsonLoaded, parsed, undecodable, escaping, Value, null, boolean, integer, float, string, array,
  object, Items, no_items, item, get,
}
use qwed_a2a.Trust.{TrustBoundary, trust_agent}
use qwed_a2a.Trust.Entry.{Scope}
use qwed_a2a.Trust.Trace.{Call, block, trust, revoke, block_two, unblock_two, ask, step, run}
use qwed_a2a.Trust.Load.{
  Parsed, value, skip, overflow, nonblank, agent_id_of, grant, load_json_entry, Load, after,
  load_items, load_json_entries, split_commas, trust_named, load_names, load_plain, first_is,
  load_from_env,
}

-- A call that trusts an agent, under an id that is not empty and has no spaces around it.
abbrev pub IsGrant : Unicode → Text → Call → Type 0
IsGrant u by (trust a receivers types until granted_by now) =
    (a ≢ []) × (strip u.is_space a ≡ a) × (granted_by ≡ by)
IsGrant u by (block a) = ⊥
IsGrant u by (revoke a) = ⊥
IsGrant u by (block_two s r) = ⊥
IsGrant u by (unblock_two s r) = ⊥
IsGrant u by (ask s r p t) = ⊥

-- One boundary comes of the other by such calls.
pub record Grants (u : Unicode) (by : Text) (before after' : TrustBoundary) : Type 0 where
  pub calls : List Call
  pub are_grants : All (IsGrant u by) calls
  pub is_run : after' ≡ run calls before

pub run-append : (cs ds : List Call) (b : TrustBoundary) → run (cs ++ ds) b ≡ run ds (run cs b)
unfolding run
run-append [] ds b = refl
run-append (c ∷ cs) ds b = run-append cs ds (step c b)

All-append :
    (u : Unicode) (by : Text) (cs ds : List Call)
    → All (IsGrant u by) cs
    → All (IsGrant u by) ds
    → All (IsGrant u by) (cs ++ ds)
All-append u by [] ds p q = q
All-append u by (c ∷ cs) ds (here, p) q = (here, All-append u by cs ds p q)

pub Grants-none : (u : Unicode) (by : Text) (b : TrustBoundary) → Grants u by b b
unfolding run
Grants-none u by b = record { calls = []; are_grants = tt; is_run = refl }

Grants-both :
    (u : Unicode) (by : Text) (a b c : TrustBoundary)
    → Grants u by a b
    → Grants u by b c
    → Grants u by a c
Grants-both u by a b c g h = record {
  calls = g.calls ++ h.calls;
  are_grants = All-append u by g.calls h.calls g.are_grants h.are_grants;
  is_run = h.is_run ∙ ap (run h.calls) g.is_run ∙ sym (run-append g.calls h.calls a);
}

-- An id that can be granted to.
abbrev IsUsable : Unicode → Option Text → Type 0
IsUsable u none = Unit
IsUsable u (some a) = (a ≢ []) × (strip u.is_space a ≡ a)

nonblank-IsUsable : (u : Unicode) (t : Text) → strip u.is_space t ≡ t → IsUsable u (nonblank t)
nonblank-IsUsable u [] h = tt
nonblank-IsUsable u (c ∷ cs) h = ((λ e. absurd (cc)), h)

agent_id_of-IsUsable : (u : Unicode) (o : Option Value) → IsUsable u (agent_id_of u o)
agent_id_of-IsUsable u (some (string raw_id)) =
    nonblank-IsUsable u (strip u.is_space raw_id) (strip_again u.is_space raw_id)
agent_id_of-IsUsable u none = tt
agent_id_of-IsUsable u (some null) = tt
agent_id_of-IsUsable u (some (boolean b)) = tt
agent_id_of-IsUsable u (some (integer n)) = tt
agent_id_of-IsUsable u (some (float x)) = tt
agent_id_of-IsUsable u (some (array vs)) = tt
agent_id_of-IsUsable u (some (object x)) = tt

trust_agent-Grants :
    (u : Unicode) (a : Text) (receivers types : Scope) (until : Option ℤ) (by : Text) (now : ℕ)
    (b : TrustBoundary)
    → IsUsable u (some a)
    → Grants u by b (trust_agent a receivers types until by now b)
unfolding run step
trust_agent-Grants u a receivers types until by now b (given, stripped) = record {
  calls = trust a receivers types until by now ∷ [];
  are_grants = ((given, stripped, refl), tt);
  is_run = refl;
}

grant-Grants :
    (u : Unicode) (o : Option Text) (receivers types : Parsed Scope) (until : Parsed (Option ℤ))
    (by : Text) (now : ℕ) (b : TrustBoundary)
    → IsUsable u o
    → Grants u by b (after b (grant o receivers types until by now b)).0
grant-Grants u none receivers types until by now b usable = Grants-none u by b
grant-Grants u (some a) (value receivers) (value types) (value until) by now b usable =
    trust_agent-Grants u a receivers types until by now b usable
grant-Grants u (some a) (value receivers) (value types) skip by now b usable = Grants-none u by b
grant-Grants u (some a) (value receivers) (value types) overflow by now b usable =
    Grants-none u by b
grant-Grants u (some a) (value receivers) skip until by now b usable = Grants-none u by b
grant-Grants u (some a) (value receivers) overflow until by now b usable = Grants-none u by b
grant-Grants u (some a) skip types until by now b usable = Grants-none u by b
grant-Grants u (some a) overflow types until by now b usable = Grants-none u by b

module _ (u : Unicode) (read_float : Text → Option (Option ℤ)) (by : Text) (clock : ℕ → ℕ) where
  load_json_entry-Grants :
      (now : ℕ) (v : Value) (b : TrustBoundary)
      → Grants u by b (after b (load_json_entry u read_float by now v b)).0
  unfolding load_json_entry
  load_json_entry-Grants now (object entry) b =
      grant-Grants u (agent_id_of u (get (lit "agent_id") entry)) _ _ _ by now b
        (agent_id_of-IsUsable u (get (lit "agent_id") entry))
  load_json_entry-Grants now null b = Grants-none u by b
  load_json_entry-Grants now (boolean x) b = Grants-none u by b
  load_json_entry-Grants now (integer x) b = Grants-none u by b
  load_json_entry-Grants now (float x) b = Grants-none u by b
  load_json_entry-Grants now (string x) b = Grants-none u by b
  load_json_entry-Grants now (array x) b = Grants-none u by b

  load_items-Grants :
      (k : ℕ) (vs : Items) (l : Load) → Grants u by l.0 (load_items u read_float by clock k vs l).0
  unfolding load_items
  load_items-Grants k no_items l = Grants-none u by l.0
  load_items-Grants k (item v vs) (b, false) = Grants-none u by b
  load_items-Grants k (item v vs) (b, true) =
      let one = after b (load_json_entry u read_float by (clock k) v b) in
      Grants-both u by b one.0 (load_items u read_float by clock (suc k) vs one).0
        (load_json_entry-Grants (clock k) v b) (load_items-Grants (suc k) vs one)

  load_json_entries-Grants :
      (o : JsonLoaded) (b : TrustBoundary)
      → Grants u by b (load_json_entries u read_float by clock o b).0
  unfolding load_json_entries
  load_json_entries-Grants (parsed (array vs)) b = load_items-Grants 0 vs (b, true)
  load_json_entries-Grants undecodable b = Grants-none u by b
  load_json_entries-Grants escaping b = Grants-none u by b
  load_json_entries-Grants (parsed null) b = Grants-none u by b
  load_json_entries-Grants (parsed (boolean x)) b = Grants-none u by b
  load_json_entries-Grants (parsed (integer x)) b = Grants-none u by b
  load_json_entries-Grants (parsed (float x)) b = Grants-none u by b
  load_json_entries-Grants (parsed (string x)) b = Grants-none u by b
  load_json_entries-Grants (parsed (object x)) b = Grants-none u by b

  trust_named-Grants :
      (o : Option Text) (now : ℕ) (b : TrustBoundary)
      → IsUsable u o
      → Grants u by b (trust_named o by now b)
  trust_named-Grants none now b usable = Grants-none u by b
  trust_named-Grants (some a) now b usable = trust_agent-Grants u a none none none by now b usable

  load_names-Grants :
      (k : ℕ) (parts : List Text) (b : TrustBoundary)
      → Grants u by b (load_names u by clock k parts b)
  unfolding load_names
  load_names-Grants k [] b = Grants-none u by b
  load_names-Grants k (part ∷ parts) b =
      let o = nonblank (strip u.is_space part) in
      let one = trust_named o by (clock k) b in
      Grants-both u by b one (load_names u by clock (suc k) parts one)
        (trust_named-Grants o (clock k) b
          (nonblank-IsUsable u (strip u.is_space part) (strip_again u.is_space part)))
        (load_names-Grants (suc k) parts one)

  load_plain-Grants :
      (stripped : Text) (l : JsonLoaded) (b : TrustBoundary)
      → Grants u by b (load_plain u clock by stripped l b).0
  unfolding load_plain
  load_plain-Grants stripped (parsed v) b = Grants-none u by b
  load_plain-Grants stripped undecodable b =
      load_names-Grants 0 ((split_commas stripped).0 ∷ (split_commas stripped).1) b
  load_plain-Grants stripped escaping b = Grants-none u by b

  -- Whatever the environment value, load_from_env changes the boundary as some calls of trust_agent
  -- do, made in the given name, each for an agent id that is not empty and has no spaces around it,
  -- even when json.loads or an entry ends the load with an exception.
  pub load_from_env-Grants :
      (loads : Text → JsonLoaded) (env_value : Text) (b : TrustBoundary)
      → Grants u by b (load_from_env u loads read_float clock env_value by b).0
  unfolding load_from_env
  load_from_env-Grants loads [] b = Grants-none u by b
  load_from_env-Grants loads (c ∷ cs) b =
      let stripped = strip u.is_space (c ∷ cs) in
      elim (Bool-cases (first_is 91 stripped)) [
        | inl bracket ↦ rw bracket (load_json_entries-Grants (loads stripped) b)
        | inr other ↦ elim (Bool-cases (first_is 123 stripped)) [
          | inl brace ↦ rw (other, brace) (Grants-none u by b)
          | inr names ↦ rw (other, names) (load_plain-Grants stripped (loads stripped) b)
        ]
      ]
