-- ===== src/Crypto/KeyPair.antt =====
-- `_ensure_key_pair` and `_compute_fingerprint`: the signing key of a service, loaded on first use.
--
-- The key objects and hashlib are parameters: `Keys` holds what the service calls of them.
use qwed_a2a.Prelude.{
  ℕ, Bool, true, false, ◌≡◌, refl, ap, ◌∙◌, Option, none, some, List, [], ◌∷◌, ◌++◌, take,
  if◌then◌else◌,
}
use qwed_a2a.Prelude.Text.{Text, lit}
use qwed_a2a.Crypto.Service.{Jwt, KeyPair}

-- A private key that `load_pem_private_key` returns, by the tests that the code makes of it.
pub data Loaded (j : Jwt) : Type 0 where
  p256 : j.PrivateKey → Loaded j
  other_curve other_kind : Loaded j

-- `load_pem` has `none` for an exception, `der` is the SubjectPublicKeyInfo of a key, `sha256` a hex
-- digest, `coordinates` are the public numbers, and `public_key` makes a key of them, with `none`
-- for a point that is not on the curve.
pub record Keys (j : Jwt) : Type 0 where
  pub load_pem : Text → Option (Loaded j)
  pub public_of : j.PrivateKey → j.PublicKey
  pub der : j.PublicKey → List ℕ
  pub sha256 : List ℕ → Text
  pub coordinates : j.PublicKey → ℕ × ℕ
  pub public_key : ℕ → ℕ → Option j.PublicKey

pub data KeyError : Type 0 where
  crypto_missing pem_missing pem_unreadable not_elliptic wrong_curve : KeyError

-- The part of the service that loads the key: its id, the key text it was given, and the loaded pair.
pub record KeyStore (j : Jwt) : Type 0 where
  pub issuer_id : Text
  pub pem_key : Option Text
  pub key_pair : Option (KeyPair j)

pub data KeyResult (j : Jwt) : Type 0 where
  ready : KeyPair j → KeyResult j
  failing : KeyError → KeyResult j

-- `a or b`, of texts.
unfoldable pub first_text : Option Text → Text → Text
first_text (some (c ∷ cs)) env = c ∷ cs
first_text (some []) env = env
first_text none env = env

abbrev pub found : {j : Jwt} → KeyResult j → Option (KeyPair j)
found (ready keys) = some keys
found (failing e) = none

module _ (j : Jwt) (lib : Keys j) where
  -- `_compute_fingerprint`
  unfoldable pub compute_fingerprint : j.PublicKey → Text
  compute_fingerprint public_key = lib.sha256 (lib.der public_key)

  unfoldable pub pair_of : Text → j.PrivateKey → KeyPair j
  unfolding lit compute_fingerprint
  pair_of issuer_id private_key =
      let public_key = lib.public_of private_key in
      record {
        key_id = issuer_id ++ (lit "#key-" ++ take 16 (compute_fingerprint public_key));
        private_key = private_key;
        public_key = public_key;
      }

  unfoldable pub keep_loaded : KeyStore j → Option (Loaded j) → KeyStore j × KeyResult j
  keep_loaded s none = (s, failing pem_unreadable)
  keep_loaded s (some other_kind) = (s, failing not_elliptic)
  keep_loaded s (some other_curve) = (s, failing wrong_curve)
  keep_loaded s (some (p256 private_key)) =
      let keys = pair_of s.issuer_id private_key in (record s { key_pair = some keys }, ready keys)

  unfoldable pub load_key : KeyStore j → Text → KeyStore j × KeyResult j
  unfolding keep_loaded
  load_key s [] = (s, failing pem_missing)
  load_key s (c ∷ cs) = keep_loaded s (lib.load_pem (c ∷ cs))

  unfoldable pub ensure_loaded : KeyStore j → Text → Option (KeyPair j) → KeyStore j × KeyResult j
  unfolding load_key
  ensure_loaded s env (some keys) = (s, ready keys)
  ensure_loaded s env none = load_key s (first_text s.pem_key env)

  -- `_ensure_key_pair`, of HAS_CRYPTO and the value of QWED_A2A_SIGNING_KEY_PEM.
  unfoldable pub ensure_key_pair : Bool → Text → KeyStore j → KeyStore j × KeyResult j
  unfolding ensure_loaded
  ensure_key_pair has_crypto env s =
      if has_crypto then ensure_loaded s env s.key_pair else (s, failing crypto_missing)

  keep_loaded-holds :
      (s : KeyStore j) (o : Option (Loaded j)) (keys : KeyPair j)
      → (keep_loaded s o).1 ≡ ready keys
      → (keep_loaded s o).0.key_pair ≡ some keys
  unfolding keep_loaded
  keep_loaded-holds s none keys h = absurd (cc)
  keep_loaded-holds s (some other_kind) keys h = absurd (cc)
  keep_loaded-holds s (some other_curve) keys h = absurd (cc)
  keep_loaded-holds s (some (p256 private_key)) keys h = ap found h

  load_key-holds :
      (s : KeyStore j) (pem : Text) (keys : KeyPair j)
      → (load_key s pem).1 ≡ ready keys
      → (load_key s pem).0.key_pair ≡ some keys
  unfolding load_key
  load_key-holds s [] keys h = absurd (cc)
  load_key-holds s (c ∷ cs) keys h = keep_loaded-holds s (lib.load_pem (c ∷ cs)) keys h

  ensure_loaded-holds :
      (s : KeyStore j) (env : Text) (o : Option (KeyPair j)) (keys : KeyPair j)
      → s.key_pair ≡ o
      → (ensure_loaded s env o).1 ≡ ready keys
      → (ensure_loaded s env o).0.key_pair ≡ some keys
  unfolding ensure_loaded
  ensure_loaded-holds s env (some k) keys is h = is ∙ ap found h
  ensure_loaded-holds s env none keys is h = load_key-holds s (first_text s.pem_key env) keys h

  ensure_key_pair-holds :
      (has_crypto : Bool) (env : Text) (s : KeyStore j) (keys : KeyPair j)
      → (ensure_key_pair has_crypto env s).1 ≡ ready keys
      → (ensure_key_pair has_crypto env s).0.key_pair ≡ some keys
  unfolding ensure_key_pair
  ensure_key_pair-holds true env s keys h = ensure_loaded-holds s env s.key_pair keys refl h
  ensure_key_pair-holds false env s keys h = absurd (cc)

  -- Once a call has returned a pair, every later call with cryptography at hand returns that pair
  -- and changes nothing, whatever the environment says by then.
  pub ensure_key_pair_again :
      (has_crypto : Bool) (env later : Text) (s : KeyStore j) (keys : KeyPair j)
      → (ensure_key_pair has_crypto env s).1 ≡ ready keys
      → ensure_key_pair true later (ensure_key_pair has_crypto env s).0
        ≡ ((ensure_key_pair has_crypto env s).0, ready keys)
  unfolding ensure_key_pair
  ensure_key_pair_again has_crypto env later s keys h =
      unfold ensure_loaded in rw (ensure_key_pair-holds has_crypto env s keys h) refl

  -- A call that fails leaves the service as it was.
  keep_loaded-fails :
      (s : KeyStore j) (o : Option (Loaded j)) (e : KeyError)
      → (keep_loaded s o).1 ≡ failing e
      → (keep_loaded s o).0 ≡ s
  unfolding keep_loaded
  keep_loaded-fails s none e h = refl
  keep_loaded-fails s (some other_kind) e h = refl
  keep_loaded-fails s (some other_curve) e h = refl
  keep_loaded-fails s (some (p256 private_key)) e h = absurd (cc)

  load_key-fails :
      (s : KeyStore j) (pem : Text) (e : KeyError)
      → (load_key s pem).1 ≡ failing e
      → (load_key s pem).0 ≡ s
  unfolding load_key
  load_key-fails s [] e h = refl
  load_key-fails s (c ∷ cs) e h = keep_loaded-fails s (lib.load_pem (c ∷ cs)) e h

  ensure_loaded-fails :
      (s : KeyStore j) (env : Text) (o : Option (KeyPair j)) (e : KeyError)
      → (ensure_loaded s env o).1 ≡ failing e
      → (ensure_loaded s env o).0 ≡ s
  unfolding ensure_loaded
  ensure_loaded-fails s env (some k) e h = refl
  ensure_loaded-fails s env none e h = load_key-fails s (first_text s.pem_key env) e h

  same_result :
      (env : Text) (s : KeyStore j) (r : KeyResult j)
      → (ensure_key_pair true env s).1 ≡ r
      → (ensure_key_pair true env (ensure_key_pair true env s).0).1 ≡ r
  same_result env s (ready keys) h = ap (λ p. p.1) (ensure_key_pair_again true env env s keys h)
  same_result env s (failing e) h =
      let unchanged : (ensure_key_pair true env s).0 ≡ s =
        unfold ensure_key_pair in ensure_loaded-fails s env s.key_pair e h in
      rw unchanged h

  -- In an environment that stays as it is, a second call gives what the first one gave.
  pub ensure_key_pair_twice :
      (has_crypto : Bool) (env : Text) (s : KeyStore j)
      → (ensure_key_pair has_crypto env (ensure_key_pair has_crypto env s).0).1
        ≡ (ensure_key_pair has_crypto env s).1
  unfolding ensure_key_pair
  ensure_key_pair_twice true env s = same_result env s (ensure_key_pair true env s).1 refl
  ensure_key_pair_twice false env s = refl
