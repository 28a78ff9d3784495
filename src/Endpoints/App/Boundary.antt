-- ===== src/Endpoints/App/Boundary.antt =====
-- What the application does to the trust boundary of its interceptor.
use qwed_a2a.Prelude.{
  ℕ, suc, ◌≤◌, ◌≡◌, ◌⊎◌, inl, inr, refl, sym, ◌∙◌, subst, false, Option, none, some, List, [], ◌∷◌,
  arith, All, ltb, Bool-cases,
}
use qwed_a2a.Prelude.Int.{ℤ}
use qwed_a2a.Prelude.Text.{Text, lit, text-Eq}
use qwed_a2a.Schema.{type_value}
use qwed_a2a.Interceptor.Claim.{Unicode}
use qwed_a2a.Interceptor.Message.{JsonLoaded, AgentMessage}
use qwed_a2a.Interceptor.Decide.{
  Engines, InterceptorConfig, Run, payload_size, decide_trusted, decide_sized, decide,
}
use qwed_a2a.Trust.{TrustBoundary, Readings, init}
use qwed_a2a.Trust.Trace.{
  Call, block, trust, revoke, block_two, unblock_two, ask, step, run, after_call, InOrder,
  IsWellFormed, IsWellFormed-init, step-IsWellFormed, run-IsWellFormed, IsWellFormed-later,
}
use qwed_a2a.Trust.Revocation.{closed_stays}
use qwed_a2a.Trust.Load.{load_from_env}
use qwed_a2a.Trust.Load.Grants.{IsGrant, load_from_env-Grants}
use qwed_a2a.Endpoints.App.{sync_agents}

-- A well-formed boundary that denies whom it does not know.
pub record IsClosed (now : ℕ) (b : TrustBoundary) : Type 0 where
  pub denies : b.default_allow ≡ false
  pub well_formed : IsWellFormed now b

pub IsClosed-init : (max : ℕ) → IsClosed 0 (init max false)
unfolding init
IsClosed-init max = record { denies = refl; well_formed = IsWellFormed-init max false }

pub IsClosed-later :
    (now later : ℕ) (b : TrustBoundary) → now ≤ later → IsClosed now b → IsClosed later b
IsClosed-later now later b h c = record {
  denies = c.denies;
  well_formed = IsWellFormed-later now b c.well_formed later h;
}

pub step-IsClosed :
    (c : Call) (now : ℕ) (b : TrustBoundary)
    → IsClosed now b
    → now ≤ after_call c now
    → IsClosed (after_call c now) (step c b)
unfolding run
step-IsClosed c now b w h = record {
  denies = closed_stays (c ∷ []) b ∙ w.denies;
  well_formed = step-IsWellFormed c b w.well_formed h;
}

pub sync_agents-IsClosed :
    (clock : ℕ → ℕ) (k now : ℕ) (agents : List Text) (b : TrustBoundary)
    → IsClosed now b
    → IsClosed now (sync_agents clock k agents b)
unfolding sync_agents step
sync_agents-IsClosed clock k now [] b w = w
sync_agents-IsClosed clock k now (agent ∷ agents) b w =
    sync_agents-IsClosed clock (suc k) now agents _
      (step-IsClosed (trust agent none none none (lit "config") (clock k)) now b w (omega arith))

grants_InOrder :
    (u : Unicode) (by : Text) (cs : List Call) (now : ℕ)
    → All (IsGrant u by) cs
    → InOrder now cs now
grants_InOrder u by [] now g = omega arith
grants_InOrder u by (trust a r p v b n ∷ cs) now (_, g) =
    (omega arith, grants_InOrder u by cs now g)
grants_InOrder u by (block a ∷ cs) now (g, _) = absurd g
grants_InOrder u by (revoke a ∷ cs) now (g, _) = absurd g
grants_InOrder u by (block_two s r ∷ cs) now (g, _) = absurd g
grants_InOrder u by (unblock_two s r ∷ cs) now (g, _) = absurd g
grants_InOrder u by (ask s r p t ∷ cs) now (g, _) = absurd g

pub load_from_env-IsClosed :
    (u : Unicode) (loads : Text → JsonLoaded) (read_float : Text → Option (Option ℤ))
    (clock : ℕ → ℕ) (env_value by : Text) (now : ℕ) (b : TrustBoundary)
    → IsClosed now b
    → IsClosed now (load_from_env u loads read_float clock env_value by b).0
load_from_env-IsClosed u loads read_float clock env_value by now b w =
    let g = load_from_env-Grants u read_float by clock loads env_value b in
    subst (IsClosed now) (sym g.is_run) (record {
      denies = closed_stays g.calls b ∙ w.denies;
      well_formed =
          run-IsWellFormed g.calls b w.well_formed (grants_InOrder u by g.calls now g.are_grants);
    })

-- Deciding on a message asks the boundary once, or not at all.
module _ (engines : Engines) (config : InterceptorConfig) (message : AgentMessage) (run : Run)
    (t : Readings) (b : TrustBoundary) where
  abbrev pub asked : TrustBoundary
  asked =
      step
        (ask message.sender_agent_id message.receiver_agent_id
          (some (type_value message.payload_type)) t)
        b

  pub decide_sized-asks :
      (o : Option ℕ)
      → ((decide_sized engines config message run t b o).0 ≡ b)
        ⊎ ((decide_sized engines config message run t b o).0 ≡ asked)
  unfolding decide_sized decide_trusted step
  decide_sized-asks none = inl refl
  decide_sized-asks (some size) = elim (Bool-cases (ltb config.max_payload_size_bytes size)) [
    | inl over ↦ inl (rw over refl)
    | inr fits ↦ inr (rw fits refl)
  ]

  pub decide-IsClosed :
      (now : ℕ)
      → now ≤ t.mono
      → IsClosed now b
      → IsClosed t.mono (decide engines config message run t b).0
  unfolding decide
  decide-IsClosed now h w = elim (decide_sized-asks (payload_size engines message.payload)) [
    | inl same ↦ rw same (IsClosed-later now t.mono b h w)
    | inr asks ↦ rw asks (step-IsClosed (ask _ _ _ t) now b w h)
  ]
