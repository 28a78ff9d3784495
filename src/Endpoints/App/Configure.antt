-- ===== src/Endpoints/App/Configure.antt =====
-- What a new configuration keeps, and what it starts anew.
use qwed_a2a.Prelude.{
  ℕ, ◌≡◌, ◌⊎◌, inl, inr, refl, Bool, true, false, Option, none, some, [], ◌∷◌, Bool-cases,
}
use qwed_a2a.Prelude.Int.{ℤ}
use qwed_a2a.Prelude.Text.{Text, lit}
use qwed_a2a.Trust.{init}
use qwed_a2a.Trust.Load.Grants.{Grants, load_from_env-Grants, Grants-none}
use qwed_a2a.Crypto.Service.{Jwt}
use qwed_a2a.Crypto.KeyPair.{Keys}
use qwed_a2a.Interceptor.Message.{JsonLoaded}
use qwed_a2a.Interceptor.Decide.{Engines}
use qwed_a2a.Endpoints.App.{
  Environment, Settings, valid_settings, Node, App, Clocks, Reply, accepted, refused,
  internal_error, sync_agents,
}
use qwed_a2a.Endpoints.App.Serve.{
  new_store, new_crypto, new_interceptor, interceptor_if, load_trusted_agents, load_new, swap,
  configure_interceptor,
}

module _ (j : Jwt) (engines : Engines) (lib : Keys j) (loads : Text → JsonLoaded)
    (read_float : Text → Option (Option ℤ)) (rounded : ℕ → ℕ × ℕ → Text) (env : Environment)
    (clocks : Clocks) (s : Settings) where
  -- An interceptor whose boundary comes of an empty one by the grants of the configuration and of
  -- the environment, and whose service is a new one.
  pub record IsFresh (n : Node j) : Type 0 where
    pub same_config : n.config ≡ s.config
    pub grants :
        Grants engines.unicode
          (lit "env")
          (sync_agents clocks.sync 0 s.trusted_agents (init 60 false))
          n.trust
    pub new_service : n.crypto ≡ new_crypto j engines lib loads read_float rounded env
    pub new_keys : n.store ≡ new_store j engines lib loads read_float rounded env

  load_trusted_agents-IsFresh :
      (env_value : Text) (n : Node j)
      → n.config ≡ s.config
      → n.trust ≡ sync_agents clocks.sync 0 s.trusted_agents (init 60 false)
      → n.crypto ≡ new_crypto j engines lib loads read_float rounded env
      → n.store ≡ new_store j engines lib loads read_float rounded env
      → IsFresh
          (load_trusted_agents j engines lib loads read_float rounded env clocks env_value n).0
  unfolding load_trusted_agents
  load_trusted_agents-IsFresh [] n config trust crypto store = record {
    same_config = config;
    grants = rw trust (Grants-none engines.unicode (lit "env") _);
    new_service = crypto;
    new_keys = store;
  }
  load_trusted_agents-IsFresh (c ∷ cs) n config trust crypto store = record {
    same_config = config;
    grants =
        rw trust (
          load_from_env-Grants engines.unicode read_float (lit "env") clocks.load loads (c ∷ cs) _);
    new_service = crypto;
    new_keys = store;
  }

  abbrev AllFresh : Option (Node j × Bool) → Type 0
  AllFresh none = Unit
  AllFresh (some (n, loaded)) = IsFresh n

  interceptor_if-AllFresh :
      (has : Bool)
      → AllFresh (
          load_new j engines lib loads read_float rounded env clocks
            (interceptor_if j engines lib loads read_float rounded env has clocks s))
  unfolding load_new interceptor_if
  interceptor_if-AllFresh true =
      load_trusted_agents-IsFresh env.trusted_agents _ refl refl refl refl
  interceptor_if-AllFresh false = tt

  -- A configuration that is taken, and one that is not.
  pub data Configures (app : App j) : App j × Reply → Type 0 where
    replaced : (n : Node j) → IsFresh n → Configures app (record app { node = some n }, accepted)
    kept :
        (reply : Reply) → (reply ≡ refused) ⊎ (reply ≡ internal_error) → Configures app (app, reply)

  swap-Configures :
      (app : App j) (o : Option (Node j × Bool))
      → AllFresh o
      → Configures app (swap j engines lib loads read_float rounded env app o)
  unfolding swap
  swap-Configures app none fresh = kept internal_error (inr refl)
  swap-Configures app (some (n, true)) fresh = replaced n fresh
  swap-Configures app (some (n, false)) fresh = kept internal_error (inr refl)

  -- configure_interceptor either leaves the application as it was, when the configuration is
  -- refused or an exception ends the call, or puts in place an interceptor with that configuration,
  -- a service with empty registries, and a trust boundary that comes of an empty one by the grants
  -- of the configuration and the environment alone: no block, grant or bucket of the previous one
  -- is kept, and the metrics are.
  pub configure_interceptor-Configures :
      (app : App j)
      → Configures app
          (configure_interceptor j engines lib loads read_float rounded env clocks s app)
  unfolding configure_interceptor new_interceptor
  configure_interceptor-Configures app = elim (Bool-cases (valid_settings s)) [
    | inl valid ↦ rw valid (swap-Configures app _ (interceptor_if-AllFresh env.has_crypto))
    | inr invalid ↦ rw invalid (kept refused (inl refl))
  ]
