-- ===== src/Crypto/Verify/Keys.antt =====
-- The registry's keys, and the verdicts that admit.
use mathlib.Core.Option.{some-injective}
use qwed_a2a.Prelude.{
  ◌≡◌, ◌↔◌, ◌⊎◌, inl, inr, refl, ap, true, false, Option, none, some, [], ◌∷◌, ◌++◌, arith, ==_iff,
  contains, nat-Eq,
}
use qwed_a2a.Prelude.Text.{Text, text-Eq}
use qwed_a2a.Schema.{
  VerdictStatus, verified, legacy_forwarded_value, status_value, status_of_value,
  status_of_value_iff, admissible_iff,
}
use qwed_a2a.Crypto.Service.{QwedClaims}
use qwed_a2a.Crypto.Verify.{registry_key, is_admissible, admits}

-- A text without the separator.
abbrev pub NoNul : Text → Type 0
NoNul t = contains 0 t ≡ false

split_at_nul :
    (a a' b b' : Text) → NoNul a → NoNul a' → a ++ (0 ∷ b) ≡ a' ++ (0 ∷ b') → (a ≡ a') × (b ≡ b')
unfolding contains
split_at_nul [] [] b b' n n' h = ground arith
split_at_nul [] (c ∷ a') b b' n n' h = absurd (ground arith)
split_at_nul (c ∷ a) [] b b' n n' h = absurd (ground arith)
split_at_nul (c ∷ a) (c' ∷ a') b b' n n' h = ground (arith, split_at_nul a a' b b')

has_nul : (a b : Text) → contains 0 (a ++ (0 ∷ b)) ≡ true
unfolding contains
has_nul [] b = refl
has_nul (c ∷ a) b = ground (arith, has_nul a b)

-- If neither the issuers nor the identifiers of two tokens have a NUL in them and the tokens
-- register under one key, then their issuers and their identifiers are the same.
pub registry_key-injective :
    (issuer_id iss iss' jti jti' : Text)
    → NoNul iss
    → NoNul iss'
    → NoNul jti
    → NoNul jti'
    → registry_key issuer_id iss jti ≡ registry_key issuer_id iss' jti'
    → (iss ≡ iss') × (jti ≡ jti')
unfolding registry_key
registry_key-injective issuer_id iss iss' jti jti' n n' m m' h = ground (
  arith,
  ==_iff iss issuer_id,
  ==_iff iss' issuer_id,
  split_at_nul iss iss' jti jti' n n',
  has_nul iss jti,
  has_nul iss' jti',
)

admits_iff : (o : Option VerdictStatus) → (admits o ≡ true) ↔ (o ≡ some verified)
admits_iff none = (λ h. absurd (cc), λ h. absurd (cc))
admits_iff (some status) = (
  λ h. ap some ((admissible_iff status).0 h),
  λ h. (admissible_iff status).1 (some-injective status verified h),
)

-- The claims of a token are admissible exactly if their verdict is the wire value of verified or
-- the legacy value.
is_admissible_iff :
    (claims : QwedClaims)
    → (is_admissible claims ≡ true)
      ↔ ((claims.verdict ≡ status_value verified) ⊎ (claims.verdict ≡ legacy_forwarded_value))
unfolding is_admissible
is_admissible_iff claims =
    let reads = status_of_value_iff claims.verdict verified in
    let admitted = admits_iff (status_of_value claims.verdict) in
    (
      λ h. elim (reads.0 (admitted.0 h)) [ inl e ↦ inl e | inr (e, _) ↦ inr e ],
      λ h. admitted.1 (reads.1 (elim h [ inl e ↦ inl e | inr e ↦ inr (e, refl) ])),
    )
