-- ===== src/Trust/Decision.antt =====
-- Whom `TrustBoundary.evaluate` lets through to the rate limiter, against a description in terms of
-- grants, and what its answer does not depend on.
use qwed_a2a.Prelude.{
  ℕ, ◌≡◌, refl, ◌↔◌, ◌⊎◌, inl, inr, Bool, true, false, not, Option, none, some, List, [], ◌∷◌,
  arith, contains, is_some, Bool-cases, Option-cases,
}
use qwed_a2a.Prelude.Text.{Text, text-Eq, pair-Eq, text_eq_iff}
use qwed_a2a.Dict.{lookup}
use qwed_a2a.Trust.Entry.{
  redact, TrustEntry, Scope, is_valid, outside, outside_opt, sender_scope_blocks,
  receiver_scope_blocks, nullify_if_expired,
}
use qwed_a2a.Trust.{
  sender_blocked, receiver_blocked, pair_blocked, TrustBoundary, Readings, Reason, check_trust,
  admit, evaluate, rejected,
}

-- Membership, as a statement.
abbrev pub Has : Text → List Text → Type 0
Has a [] = ⊥
Has a (x ∷ xs) = (x ≡ a) ⊎ Has a xs

-- A scope covers a name if there is no restriction or if the name is listed.
abbrev pub Covers : Scope → Text → Type 0
Covers none name = Unit
Covers (some names) name = Has name names

abbrev pub CoversType : Scope → Option Text → Type 0
CoversType scope none = Unit
CoversType scope (some payload_type) = Covers scope payload_type

-- An agent's grant, if it has one that has not expired.
abbrev pub Live : TrustBoundary → Text → ℕ → TrustEntry → Type 0
Live b agent now e = (lookup agent b.trusted_agents ≡ some e) × (is_valid e now ≡ true)

-- What a grant lets through: towards `other`, and for the payload type.
abbrev pub Admits : TrustEntry → Text → Option Text → Type 0
Admits e other payload_type =
    Covers e.allowed_receivers other × CoversType e.allowed_payload_types payload_type

module _ (s r : Text) (p : Option Text) (now : ℕ) (b : TrustBoundary) where
  pub record Permits : Type 0 where
    pub sender_free : contains s b.blocked_agents ≡ false
    pub receiver_free : contains r b.blocked_agents ≡ false
    pub pair_free : contains (s, r) b.blocked_pairs ≡ false
    pub sender_known : b.default_allow ≡ false → (e : TrustEntry) × Live b s now e
    pub sender_admits : (e : TrustEntry) → Live b s now e → Admits e r p
    pub receiver_admits : (e : TrustEntry) → Live b r now e → Admits e s p

contains_iff : (a : Text) (xs : List Text) → (contains a xs ≡ true) ↔ Has a xs
unfolding contains
contains_iff a [] = ((λ h. cc), λ h. absurd h)
contains_iff a (x ∷ xs) = ground (arith, text_eq_iff x a, contains_iff a xs)

outside_iff : (scope : Scope) (name : Text) → (outside scope name ≡ false) ↔ Covers scope name
unfolding outside
outside_iff none name = ((λ h. tt), λ h. refl)
outside_iff (some names) name = ground (arith, contains_iff name names)

outside_opt_iff :
    (scope : Scope) (p : Option Text) → (outside_opt scope p ≡ false) ↔ CoversType scope p
unfolding outside_opt
outside_opt_iff scope none = ((λ h. tt), λ h. refl)
outside_opt_iff scope (some t) = outside_iff scope t

sender_scope_iff :
    (e : TrustEntry) (r : Text) (p : Option Text)
    → (sender_scope_blocks (some e) r p ≡ false) ↔ Admits e r p
unfolding sender_scope_blocks
sender_scope_iff e r p =
    ground (arith, outside_iff e.allowed_receivers r, outside_opt_iff e.allowed_payload_types p)

receiver_scope_iff :
    (e : TrustEntry) (s : Text) (p : Option Text)
    → (receiver_scope_blocks (some e) s p ≡ false) ↔ Admits e s p
unfolding receiver_scope_blocks
receiver_scope_iff e s p =
    ground (arith, outside_iff e.allowed_receivers s, outside_opt_iff e.allowed_payload_types p)

-- The grant that the decision works with is the live one.
pub Live-cases :
    (a : Text) (now : ℕ) (b : TrustBoundary)
    → ((e : TrustEntry) × (nullify_if_expired (lookup a b.trusted_agents) now ≡ some e)
        × Live b a now e)
      ⊎ ((nullify_if_expired (lookup a b.trusted_agents) now ≡ none)
          × ((e : TrustEntry) → ¬ Live b a now e))
unfolding nullify_if_expired
Live-cases a now b = elim (Option-cases (lookup a b.trusted_agents)) [
  | inl absent ↦ inr (rw absent, λ e h. cc (absent, h.0))
  | inr (e, found) ↦ elim (Bool-cases (is_valid e now)) [
    | inl valid ↦ inl (e, rw (found, nullify_if_expired, valid), (found, valid))
    | inr expired ↦ inr (rw (found, nullify_if_expired, expired), λ e' h. ground arith)
  ]
]

unique-Live :
    (a : Text) (now : ℕ) (b : TrustBoundary) {e e' : TrustEntry}
    → Live b a now e
    → Live b a now e'
    → e ≡ e'
unique-Live a now b h h' = cc

-- What the checks before the trust entries ask for.
abbrev Free : Text → Text → TrustBoundary → Type 0
Free s r b =
    (contains s b.blocked_agents ≡ false)
    × (contains r b.blocked_agents ≡ false)
    × (contains (s, r) b.blocked_pairs ≡ false)

module _ (s r : Text) (p : Option Text) (now : ℕ) (b : TrustBoundary) where
  abbrev sender_entry : Option TrustEntry
  sender_entry = nullify_if_expired (lookup s b.trusted_agents) now

  abbrev receiver_entry : Option TrustEntry
  receiver_entry = nullify_if_expired (lookup r b.trusted_agents) now

  sender_part :
      (sender_scope_blocks sender_entry r p ≡ false)
      ↔ ((e : TrustEntry) → Live b s now e → Admits e r p)
  unfolding sender_scope_blocks
  sender_part = elim (Live-cases s now b) [
    | inl (e, found, live) ↦ (
      λ h e' live'.
          rw (unique-Live s now b live' live) ((sender_scope_iff e r p).0 (cc (found, h))),
      λ h. rw found ((sender_scope_iff e r p).1 (h e live)),
    )
    | inr (gone, never) ↦ (λ h e' live'. absurd (never e' live'), λ h. rw gone)
  ]

  receiver_part :
      (receiver_scope_blocks receiver_entry s p ≡ false)
      ↔ ((e : TrustEntry) → Live b r now e → Admits e s p)
  unfolding receiver_scope_blocks
  receiver_part = elim (Live-cases r now b) [
    | inl (e, found, live) ↦ (
      λ h e' live'.
          rw (unique-Live r now b live' live) ((receiver_scope_iff e s p).0 (cc (found, h))),
      λ h. rw found ((receiver_scope_iff e s p).1 (h e live)),
    )
    | inr (gone, never) ↦ (λ h e' live'. absurd (never e' live'), λ h. rw gone)
  ]

  known_part : (is_some sender_entry ≡ true) ↔ ((e : TrustEntry) × Live b s now e)
  known_part = elim (Live-cases s now b) [
    | inl (e, found, live) ↦ (λ h. (e, live), λ h. rw found)
    | inr (gone, never) ↦ (λ h. cc (gone, h), λ h. absurd (never h.0 h.1))
  ]

  check_trust_iff :
      (enforce : Bool)
      → (check_trust s r p now enforce b ≡ none) ↔ (
          (sender_scope_blocks sender_entry r p ≡ false)
          × (enforce ≡ true → is_some sender_entry ≡ true)
          × (receiver_scope_blocks receiver_entry s p ≡ false))
  unfolding check_trust
  check_trust_iff enforce = ground arith

module _ (s r : Text) (p : Option Text) (t : Readings) (b : TrustBoundary) where
  abbrev trust_result : Option Reason
  trust_result = check_trust s r p t.wall (not b.default_allow) b

  Permits_iff : Permits s r p t.wall b ↔ (Free s r b × (trust_result ≡ none))
  Permits_iff = (
    λ h. (
      (h.sender_free, h.receiver_free, h.pair_free),
      (check_trust_iff s r p t.wall b (not b.default_allow)).1 (
        (sender_part s r p t.wall b).1 h.sender_admits,
        (λ closed. (known_part s r p t.wall b).1 (h.sender_known (ground arith))),
        (receiver_part s r p t.wall b).1 h.receiver_admits,
      ),
    ),
    λ h.
        let parts = (check_trust_iff s r p t.wall b (not b.default_allow)).0 h.1 in
        record {
          sender_free = h.0.0;
          receiver_free = h.0.1;
          pair_free = h.0.2;
          sender_known = λ closed. (known_part s r p t.wall b).0 (parts.1 (rw closed));
          sender_admits = (sender_part s r p t.wall b).0 parts.0;
          receiver_admits = (receiver_part s r p t.wall b).0 parts.2;
        },
  )

  evaluate_cases :
      (Free s r b × (trust_result ≡ none) × (evaluate s r p t b ≡ admit s r t b))
      ⊎ (¬ (Free s r b × (trust_result ≡ none))
          × ((reason : Reason) × (evaluate s r p t b ≡ rejected b reason)))
  unfolding evaluate
  evaluate_cases = elim (Bool-cases (contains s b.blocked_agents)) [
    | inl e ↦ inr (λ h. cc (e, h.0.0), (sender_blocked (redact s), rw e))
    | inr f ↦ elim (Bool-cases (contains r b.blocked_agents)) [
      | inl e ↦ inr (λ h. cc (e, h.0.1), (receiver_blocked (redact r), rw (f, e)))
      | inr g ↦ elim (Bool-cases (contains (s, r) b.blocked_pairs)) [
        | inl e ↦ inr (λ h. cc (e, h.0.2), (pair_blocked (redact s) (redact r), rw (f, g, e)))
        | inr k ↦ elim (Option-cases trust_result) [
          | inl passed ↦ inl ((f, g, k), passed, rw (f, g, k, passed))
          | inr (reason, failed) ↦ inr (λ h. cc (failed, h.1), (reason, rw (f, g, k, failed)))
        ]
      ]
    ]
  ]

  -- evaluate agrees with a description in terms of grants: a request that is permitted (neither
  -- agent nor the pair blocked, the sender known unless default_allow is set, the scopes of both
  -- unexpired grants covering it) goes to the rate limiter, and any other is refused with a reason
  -- and leaves the boundary unchanged.
  pub evaluate_decides :
      (Permits s r p t.wall b × (evaluate s r p t b ≡ admit s r t b))
      ⊎ (¬ Permits s r p t.wall b
          × ((reason : Reason) × (evaluate s r p t b ≡ (b, (false, some reason)))))
  evaluate_decides = elim evaluate_cases [
    | inl (free, passed, e) ↦ inl (Permits_iff.1 (free, passed), e)
    | inr (refused, e) ↦ inr (λ h. refused (Permits_iff.0 h), e)
  ]

  pub evaluate-refused :
      ¬ Permits s r p t.wall b → ((evaluate s r p t b).0 ≡ b) × ((evaluate s r p t b).1.0 ≡ false)
  evaluate-refused refused = elim evaluate_decides [
    | inl (permitted, e) ↦ absurd (refused permitted)
    | inr (_, (reason, e)) ↦ rw e (refl, refl)
  ]
