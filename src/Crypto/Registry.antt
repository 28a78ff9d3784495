-- ===== src/Crypto/Registry.antt =====
-- `A2ACryptoService.__init__` with a replay registry that the caller gives.
use mathlib.Core.Option.{some-injective}
use qwed_a2a.Prelude.{
  ℕ, ◌-◌, ◌*◌, ◌^◌, ◌≤◌, ◌≡◌, inl, inr, refl, subst, Bool, false, Option, none, some, arith, leb,
  if◌then◌else◌, Bool-cases,
}
use qwed_a2a.Prelude.Int.{ℤ, pos, negsuc}
use qwed_a2a.Prelude.Text.{Text}
use qwed_a2a.Trust.Bucket.{ticks_per_second}
use qwed_a2a.Crypto.Jti.{JtiRegistry}
use qwed_a2a.Crypto.Service.{Jwt, KeyPair, CryptoService, new_service}

-- What a registry reports as its `ttl_seconds`: nothing or no number, a Boolean, an integer, a float
-- that is infinite or no number, or any other float, in ticks.
data RegistryTtl : Type 0 where
  no_number not_finite : RegistryTtl
  boolean : Bool → RegistryTtl
  whole : ℤ → RegistryTtl
  fractional : ℤ → RegistryTtl

-- From this integer on `isfinite` raises `OverflowError`.
abbrev float_limit : ℕ
float_limit = 2 ^ 1024 - 2 ^ 970

-- `ttl_ok`
unfoldable ttl_covers : ℕ → RegistryTtl → Bool
ttl_covers validity_seconds no_number = false
ttl_covers validity_seconds not_finite = false
ttl_covers validity_seconds (boolean b) = false
ttl_covers validity_seconds (whole (negsuc n)) = false
ttl_covers validity_seconds (whole (pos n)) =
    if leb float_limit n then false else leb validity_seconds n
ttl_covers validity_seconds (fractional (negsuc n)) = false
ttl_covers validity_seconds (fractional (pos n)) = leb (validity_seconds * ticks_per_second) n

module _ (j : Jwt) (issuer_id : Text) (validity_seconds : ℕ) (deployment_id : Text)
    (key_pair : Option (KeyPair j)) where
  abbrev with_registry : JtiRegistry → CryptoService j
  with_registry r = record (new_service j issuer_id validity_seconds deployment_id key_pair) {
    jti_registry = r;
  }

  -- The service, or the `ValueError` of a registry that does not cover the validity.
  unfoldable make_service : Option (RegistryTtl × JtiRegistry) → Option (CryptoService j)
  unfolding ttl_covers
  make_service none = some (new_service j issuer_id validity_seconds deployment_id key_pair)
  make_service (some (reported, r)) =
      if ttl_covers validity_seconds reported then some (with_registry r) else none

  -- A registry of the program reports the time that it keeps identifiers, and a service that is made
  -- with it keeps them as long as its tokens live.
  make_service-covers :
      (r : JtiRegistry) (s : CryptoService j)
      → make_service (some (fractional (pos r.ttl), r)) ≡ some s
      → (s.jti_registry ≡ r) × (validity_seconds * ticks_per_second ≤ r.ttl)
  unfolding make_service
  make_service-covers r s = elim (Bool-cases (leb (validity_seconds * ticks_per_second) r.ttl)) [
    | inl covers ↦ rw covers (λ h. (
      subst (λ (x : CryptoService j). x.jti_registry ≡ r) (some-injective (with_registry r) s h)
          refl,
      ground (arith, covers),
    ))
    | inr short ↦ rw short (λ h. absurd (cc))
  ]
