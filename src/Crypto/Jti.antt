-- ===== src/Crypto/Jti.antt =====
-- `JtiRegistry` of src/qwed_a2a/security/crypto.py, the registry of the token identifiers seen.
-- Times are whole ticks since the epoch. The registry's lock makes each method one step.
pub mod Replay
use qwed_a2a.Prelude.{
  ℕ, ◌+◌, ◌≤◌, ◌<◌, ◌≡◌, ◌≢◌, ◌↔◌, ◌⊎◌, refl, inl, inr, Bool, true, false, Option, none, some, List,
  [], ◌∷◌, arith, Comparable, ◌==◌, ==_iff, leb, ltb, is_some, if◌then◌else◌, length,
}
use qwed_a2a.Prelude.Text.{Text, text-Eq}
use qwed_a2a.Dict.{
  Dict, lookup, insert, erase, drop_where, Unique, unless, lookup-insert, lookup-erase,
  lookup-drop_where, insert-Unique, erase-Unique, drop_where-Unique,
}

-- The values of `seen` are the times at which an entry expires.
pub record JtiRegistry : Type 0 where
  pub seen : Dict Text ℕ
  pub ttl : ℕ

abbrev pub no_jtis : ℕ → JtiRegistry
no_jtis ttl = record { seen = []; ttl = ttl }

-- `now + ttl`, or `valid_until` if that is later.
unfoldable pub expiry_of : ℕ → Option ℕ → ℕ → ℕ
expiry_of now none ttl = now + ttl
expiry_of now (some valid_until) ttl =
    if ltb (now + ttl) valid_until then valid_until else now + ttl

unfoldable pub evict : ℕ → JtiRegistry → JtiRegistry
evict now r = record r { seen = drop_where (λ expiry. leb expiry now) r.seen }

unfoldable pub check_and_register : Text → ℕ → Option ℕ → JtiRegistry → JtiRegistry × Bool
unfolding evict
check_and_register jti now valid_until r =
    let kept = evict now r in
    if is_some (lookup jti kept.seen)
    then (kept, false)
    else (record kept { seen = insert jti (expiry_of now valid_until kept.ttl) kept.seen }, true)

unfoldable pub release : Text → JtiRegistry → JtiRegistry
release jti r = record r { seen = erase jti r.seen }

-- `__len__`
unfoldable pub size : JtiRegistry → ℕ
size r = length r.seen
