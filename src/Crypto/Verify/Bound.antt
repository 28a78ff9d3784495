-- ===== src/Crypto/Verify/Bound.antt =====
-- What a verified attempt says of a token, and what the single checks of its claims say.
use qwed_a2a.Prelude.{
  subst, sym, ◌∙◌, ap, ℕ, ◌≡◌, ◌≢◌, ◌⊎◌, inl, inr, refl, true, false, Option, none, some, [], ◌∷◌,
  arith, is_some, ==_iff,
}
use qwed_a2a.Prelude.Text.{Text, text-Eq}
use qwed_a2a.Schema.{status_of_value}
use qwed_a2a.Crypto.Service.{QwedClaims, Decoded, complete, malformed, expired, invalid}
use qwed_a2a.Crypto.Verify.{
  Envelope, Attempt, verified, kid_differs, has_expired, no_match, kid_conflicts, bind, valid_block,
  session_differs, is_empty,
}

pub valid_block-some :
    (o : Option QwedClaims) (claims : QwedClaims)
    → valid_block o ≡ some claims
    → (o ≡ some claims) × (is_some (status_of_value claims.verdict) ≡ true)
unfolding valid_block
valid_block-some none claims h = absurd (cc)
valid_block-some (some c) claims h = ground arith

pub nonempty : (t : Text) → is_empty t ≡ false → t ≢ []
nonempty [] h e = absurd (cc)
nonempty (c ∷ cs) h e = absurd (cc)

pub session_same :
    (expected session_id : Option Text) (x : Text)
    → session_differs expected session_id ≡ false
    → expected ≡ some x
    → session_id ≡ some x
unfolding session_differs
session_same none session_id x h e = absurd (cc)
session_same (some y) none x h e = absurd (cc)
session_same (some y) (some z) x h e = ground (arith, ==_iff z y)

pub kid_same :
    (kid expected : Option Text) (k : Text)
    → kid_conflicts kid expected ≡ false
    → kid ≡ some k
    → expected ≡ some k
unfolding kid_conflicts
kid_same none expected k h e = absurd (cc)
kid_same (some a) none k h e = absurd (cc)
kid_same (some a) (some b) k h e = ground (arith, ==_iff a b)

bind-complete-verified :
    (owner iss sub jti : Text) (exp : ℕ) (block : Option QwedClaims) (expected kid : Option Text)
    (e : Envelope)
    → bind owner expected (complete iss sub jti exp block kid) ≡ verified e
    → (kid_conflicts kid expected ≡ false)
      × (iss ≡ owner)
      × (record { iss = iss; sub = sub; jti = jti; exp = exp; block = block } ≡ e)
unfolding bind
bind-complete-verified owner iss sub jti exp block expected kid e h =
    ground (arith, ==_iff iss owner)

-- What a verified attempt says of the decoded token.
pub bind-verified :
    (owner : Text) (expected : Option Text) (d : Decoded) (e : Envelope)
    → bind owner expected d ≡ verified e
    → (kid : Option Text) × (d ≡ complete owner e.sub e.jti e.exp e.block kid)
      × (kid_conflicts kid expected ≡ false)
      × (e.iss ≡ owner)
unfolding bind
bind-verified owner expected invalid e h = absurd (cc)
bind-verified owner expected malformed e h = absurd (cc)
bind-verified owner expected expired e h = absurd (cc)
bind-verified owner expected (complete iss sub jti exp block kid) e h =
    let (agrees, same, is_e) =
      bind-complete-verified owner iss sub jti exp block expected kid e h in
    (
      kid,
      subst
          (λ (x : Envelope).
            complete iss sub jti exp block kid ≡ complete owner x.sub x.jti x.exp x.block kid)
          is_e (ap (λ i. complete i sub jti exp block kid) same),
      agrees,
      sym (ap (λ (x : Envelope). x.iss) is_e) ∙ same,
    )

-- Either an attempt verifies or the loop goes on.
pub Attempt-cases :
    (a : Attempt)
    → ((e : Envelope) × (a ≡ verified e))
      ⊎ ((a ≡ kid_differs) ⊎ ((a ≡ has_expired) ⊎ (a ≡ no_match)))
Attempt-cases (verified e) = inl (e, refl)
Attempt-cases kid_differs = inr (inl refl)
Attempt-cases has_expired = inr (inr (inl refl))
Attempt-cases no_match = inr (inr (inr refl))
