-- ===== src/Trust/Revocation.antt =====
-- Blocking and revoking hold until the agent is trusted again, whatever else is called in between.
use qwed_a2a.Prelude.{
  ℕ, ◌≡◌, ◌≢◌, refl, inl, inr, true, false, not, Option, none, List, [], ◌∷◌, arith, ==_iff,
  contains, contains-add, contains-discard, ◌∙◌,
}
use qwed_a2a.Prelude.Text.{Text, Pair, text-Eq, pair-Eq}
use qwed_a2a.Dict.{lookup, lookup-insert, lookup-erase, drop_where-absent}
use qwed_a2a.Trust.Entry.{is_valid}
use qwed_a2a.Trust.Decision.{evaluate_decides, evaluate-refused}
use qwed_a2a.Trust.Trace.{
  Call, block, trust, revoke, block_two, unblock_two, ask, step, run, swept, admit_lem,
}
use qwed_a2a.Trust.{
  TrustBoundary, Readings, block_agent, trust_agent, revoke_agent, block_pair, unblock_pair,
  evict_expired_trust, evict_cold_buckets, take_token, evaluate,
}

-- None of the calls trusts the agent.
abbrev pub NoGrant : Text → List Call → Type 0
NoGrant a [] = Unit
NoGrant a (trust j receivers types until by now ∷ cs) = (j ≢ a) × NoGrant a cs
NoGrant a (block j ∷ cs) = NoGrant a cs
NoGrant a (revoke j ∷ cs) = NoGrant a cs
NoGrant a (block_two s r ∷ cs) = NoGrant a cs
NoGrant a (unblock_two s r ∷ cs) = NoGrant a cs
NoGrant a (ask s r p t ∷ cs) = NoGrant a cs

-- What a request can change: entries and buckets can be evicted, and nothing else.
swept-blocked :
    (t : Readings) (b : TrustBoundary)
    → ((swept t b).blocked_agents ≡ b.blocked_agents)
      × ((swept t b).default_allow ≡ b.default_allow)
unfolding evict_cold_buckets evict_expired_trust
swept-blocked t b = ground arith

swept-absent :
    (a : Text) (t : Readings) (b : TrustBoundary)
    → lookup a b.trusted_agents ≡ none
    → lookup a (swept t b).trusted_agents ≡ none
unfolding evict_cold_buckets evict_expired_trust
swept-absent a t b h =
    ground (arith, drop_where-absent (λ e. not (is_valid e t.wall)) a b.trusted_agents)

take_token-agents :
    (q : Pair) (now : ℕ) (b : TrustBoundary)
    → ((take_token q now b).0.blocked_agents ≡ b.blocked_agents)
      × ((take_token q now b).0.default_allow ≡ b.default_allow)
      × ((take_token q now b).0.trusted_agents ≡ b.trusted_agents)
unfolding take_token
take_token-agents q now b = (refl, refl, refl)

evaluate-blocked :
    (s r : Text) (p : Option Text) (t : Readings) (b : TrustBoundary)
    → ((evaluate s r p t b).0.blocked_agents ≡ b.blocked_agents)
      × ((evaluate s r p t b).0.default_allow ≡ b.default_allow)
evaluate-blocked s r p t b = elim (evaluate_decides s r p t b) [
  | inl (_, e) ↦
      let kept = take_token-agents (s, r) t.mono (swept t b) in
      let swept_kept = swept-blocked t b in
      rw (e, (admit_lem s r t b).0) (kept.0 ∙ swept_kept.0, kept.1 ∙ swept_kept.1)
  | inr (_, (reason, e)) ↦ rw e (refl, refl)
]

evaluate-absent :
    (a s r : Text) (p : Option Text) (t : Readings) (b : TrustBoundary)
    → lookup a b.trusted_agents ≡ none
    → lookup a (evaluate s r p t b).0.trusted_agents ≡ none
evaluate-absent a s r p t b h = elim (evaluate_decides s r p t b) [
  | inl (_, e) ↦
      rw (e, (admit_lem s r t b).0, (take_token-agents (s, r) t.mono (swept t b)).2)
        (swept-absent a t b h)
  | inr (_, (reason, e)) ↦ rw e h
]

blocked_stays :
    (a : Text) (cs : List Call) (b : TrustBoundary)
    → contains a b.blocked_agents ≡ true
    → NoGrant a cs
    → contains a (run cs b).blocked_agents ≡ true
unfolding run step block_agent trust_agent revoke_agent block_pair unblock_pair
blocked_stays a [] b h n = h
blocked_stays a (block j ∷ cs) b h n =
    blocked_stays a cs (block_agent j b) (rw contains-add (ground arith)) n
blocked_stays a (trust j receivers types until by now ∷ cs) b h n =
    blocked_stays a cs (trust_agent j receivers types until by now b)
      (rw contains-discard (ground (arith, ==_iff j a))) n.1
blocked_stays a (revoke j ∷ cs) b h n = blocked_stays a cs (revoke_agent j b).0 (ground arith) n
blocked_stays a (block_two s r ∷ cs) b h n = blocked_stays a cs (block_pair s r b) h n
blocked_stays a (unblock_two s r ∷ cs) b h n = blocked_stays a cs (unblock_pair s r b) h n
blocked_stays a (ask s r p t ∷ cs) b h n =
    blocked_stays a cs (evaluate s r p t b).0 (rw (evaluate-blocked s r p t b).0 h) n

absent_stays :
    (a : Text) (cs : List Call) (b : TrustBoundary)
    → lookup a b.trusted_agents ≡ none
    → NoGrant a cs
    → lookup a (run cs b).trusted_agents ≡ none
unfolding run step block_agent trust_agent revoke_agent block_pair unblock_pair
absent_stays a [] b h n = h
absent_stays a (block j ∷ cs) b h n =
    absent_stays a cs (block_agent j b) (rw lookup-erase (ground arith)) n
absent_stays a (trust j receivers types until by now ∷ cs) b h n =
    absent_stays a cs (trust_agent j receivers types until by now b)
      (rw lookup-insert (ground (arith, ==_iff j a))) n.1
absent_stays a (revoke j ∷ cs) b h n =
    absent_stays a cs (revoke_agent j b).0 (ground (arith, lookup-erase j a b.trusted_agents)) n
absent_stays a (block_two s r ∷ cs) b h n = absent_stays a cs (block_pair s r b) h n
absent_stays a (unblock_two s r ∷ cs) b h n = absent_stays a cs (unblock_pair s r b) h n
absent_stays a (ask s r p t ∷ cs) b h n =
    absent_stays a cs (evaluate s r p t b).0 (evaluate-absent a s r p t b h) n

pub closed_stays : (cs : List Call) (b : TrustBoundary) → (run cs b).default_allow ≡ b.default_allow
unfolding run step block_agent trust_agent revoke_agent block_pair unblock_pair
closed_stays [] b = refl
closed_stays (ask s r p t ∷ cs) b =
    closed_stays cs (evaluate s r p t b).0 ∙ (evaluate-blocked s r p t b).1
closed_stays (revoke a ∷ cs) b = closed_stays cs (revoke_agent a b).0 ∙ (ground arith)
closed_stays (c ∷ cs) b = closed_stays cs (step c b)

-- A refused request leaves the boundary as it was.
abbrev pub Refuses : TrustBoundary → Text → Text → Option Text → Readings → Type 0
Refuses b s r p t = ((evaluate s r p t b).0 ≡ b) × ((evaluate s r p t b).1.0 ≡ false)

-- After block_agent, and whatever calls follow as long as none trusts that agent, evaluate refuses
-- every request from it and every request to it and leaves the boundary unchanged.
pub block_agent_holds :
    (a other : Text) (p : Option Text) (t : Readings) (cs : List Call) (b : TrustBoundary)
    → NoGrant a cs
    → Refuses (run cs (block_agent a b)) a other p t
      × Refuses (run cs (block_agent a b)) other a p t
unfolding block_agent
block_agent_holds a other p t cs b n =
    let blocked =
      blocked_stays a cs (block_agent a b) (rw contains-add (ground (arith, ==_iff a a))) n in
    let b' = run cs (block_agent a b) in
    (
      evaluate-refused a other p t b' (λ h. cc (h.sender_free, blocked)),
      evaluate-refused other a p t b' (λ h. cc (h.receiver_free, blocked)),
    )

-- With default_allow unset, after revoke_agent, and whatever calls follow as long as none trusts
-- that agent, evaluate refuses every request from it and leaves the boundary unchanged.
pub revoke_agent_holds :
    (a other : Text) (p : Option Text) (t : Readings) (cs : List Call) (b : TrustBoundary)
    → b.default_allow ≡ false
    → NoGrant a cs
    → Refuses (run cs (revoke_agent a b).0) a other p t
unfolding revoke_agent
revoke_agent_holds a other p t cs b closed n =
    let gone =
      absent_stays a cs (revoke_agent a b).0
        (ground (arith, lookup-erase a a b.trusted_agents, ==_iff a a)) n in
    let same : (revoke_agent a b).0.default_allow ≡ false = ground arith in
    let still = closed_stays cs (revoke_agent a b).0 ∙ same in
    evaluate-refused a other p t (run cs (revoke_agent a b).0)
      (λ h. let (e, live) = h.sender_known still in cc (live.0, gone))
