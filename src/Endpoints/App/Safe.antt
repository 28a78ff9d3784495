-- ===== src/Endpoints/App/Safe.antt =====
-- What is safe of an application, and how its interceptor comes about.
use qwed_a2a.Prelude.{
  ℕ, ◌≤◌, ◌≡◌, refl, Bool, true, false, Option, none, some, [], ◌∷◌, arith, if◌then◌else◌,
}
use qwed_a2a.Prelude.Int.{ℤ}
use qwed_a2a.Prelude.Text.{Text, lit, text-Eq}
use qwed_a2a.Telemetry.{IsConsistent}
use qwed_a2a.Schema.{status-Eq}
use qwed_a2a.Crypto.Service.{Jwt}
use qwed_a2a.Crypto.KeyPair.{Keys, found, ensure_key_pair}
use qwed_a2a.Interceptor.Message.{JsonLoaded}
use qwed_a2a.Interceptor.Decide.{Engines}
use qwed_a2a.Endpoints.App.{
  Environment, Settings, default_settings, valid_settings, Node, App, Clocks,
}
use qwed_a2a.Endpoints.App.Serve.{
  new_crypto, new_interceptor, interceptor_if, load_trusted_agents, keep_new, load_new,
  find_interceptor, get_interceptor,
}
use qwed_a2a.Endpoints.App.Boundary.{
  IsClosed, IsClosed-init, IsClosed-later, sync_agents-IsClosed, load_from_env-IsClosed,
}

module _ (j : Jwt) (engines : Engines) (lib : Keys j) (loads : Text → JsonLoaded)
    (read_float : Text → Option (Option ℤ)) (rounded : ℕ → ℕ × ℕ → Text) (env : Environment) where
  -- An interceptor denies whom it does not know, its boundary is well formed, its size limit is
  -- within the bounds of the configuration, and the key that it would publish is the one that it
  -- signs with.
  pub record IsNodeSafe (now : ℕ) (n : Node j) : Type 0 where
    pub is_closed : IsClosed now n.trust
    pub is_large_enough : 1024 ≤ n.config.max_payload_size_bytes
    pub is_bounded : n.config.max_payload_size_bytes ≤ 10485760
    pub same_keys :
        found (ensure_key_pair j lib env.has_crypto env.signing_key n.store).1 ≡ n.crypto.key_pair

  abbrev pub AreSafe : ℕ → Option (Node j) → Type 0
  AreSafe now none = Unit
  AreSafe now (some n) = IsNodeSafe now n

  pub record IsSafe (now : ℕ) (app : App j) : Type 0 where
    pub is_consistent : IsConsistent app.metrics
    pub is_node_safe : AreSafe now app.node

  interceptor_if-AreSafe :
      (has : Bool) (clocks : Clocks) (s : Settings) (now : ℕ)
      → valid_settings s ≡ true
      → AreSafe now (interceptor_if j engines lib loads read_float rounded env has clocks s)
  unfolding interceptor_if new_crypto valid_settings
  interceptor_if-AreSafe true clocks s now valid = record {
    is_closed =
        sync_agents-IsClosed clocks.sync 0 now s.trusted_agents _
          (IsClosed-later 0 now _ (omega arith) (IsClosed-init 60));
    is_large_enough = ground (arith, valid);
    is_bounded = ground (arith, valid);
    same_keys = refl;
  }
  interceptor_if-AreSafe false clocks s now valid = tt

  pub new_interceptor-AreSafe :
      (clocks : Clocks) (s : Settings) (now : ℕ)
      → valid_settings s ≡ true
      → AreSafe now (new_interceptor j engines lib loads read_float rounded env clocks s)
  unfolding new_interceptor
  new_interceptor-AreSafe clocks s now valid =
      interceptor_if-AreSafe env.has_crypto clocks s now valid

  load_trusted_agents-IsNodeSafe :
      (clocks : Clocks) (env_value : Text) (now : ℕ) (n : Node j)
      → IsNodeSafe now n
      → IsNodeSafe now
          (load_trusted_agents j engines lib loads read_float rounded env clocks env_value n).0
  unfolding load_trusted_agents
  load_trusted_agents-IsNodeSafe clocks [] now n safe = safe
  load_trusted_agents-IsNodeSafe clocks (c ∷ cs) now n safe = record {
    is_closed =
        load_from_env-IsClosed engines.unicode loads read_float clocks.load (c ∷ cs) (lit "env") now
          n.trust safe.is_closed;
    is_large_enough = safe.is_large_enough;
    is_bounded = safe.is_bounded;
    same_keys = safe.same_keys;
  }

  abbrev pub LoadIsSafe : ℕ → Option (Node j × Bool) → Type 0
  LoadIsSafe now none = Unit
  LoadIsSafe now (some (n, loaded)) = IsNodeSafe now n

  pub load_new-LoadIsSafe :
      (clocks : Clocks) (now : ℕ) (o : Option (Node j))
      → AreSafe now o
      → LoadIsSafe now (load_new j engines lib loads read_float rounded env clocks o)
  unfolding load_new
  load_new-LoadIsSafe clocks now none safe = tt
  load_new-LoadIsSafe clocks now (some n) safe =
      load_trusted_agents-IsNodeSafe clocks env.trusted_agents now n safe

  -- What serves a request, and the application by then.
  pub record IsServing (now : ℕ) (r : App j × Option (Node j)) : Type 0 where
    pub app_safe : IsSafe now r.0
    pub node_safe : AreSafe now r.1

  if-AreSafe :
      (loaded : Bool) (now : ℕ) (n : Node j)
      → IsNodeSafe now n
      → AreSafe now (if loaded then some n else none)
  if-AreSafe true now n safe = safe
  if-AreSafe false now n safe = tt

  keep_new-IsServing :
      (now : ℕ) (app : App j) (o : Option (Node j × Bool))
      → IsSafe now app
      → LoadIsSafe now o
      → IsServing now (keep_new j engines lib loads read_float rounded env app o)
  unfolding keep_new
  keep_new-IsServing now app none safe loaded = record { app_safe = safe; node_safe = tt }
  keep_new-IsServing now app (some (n, ok)) safe loaded = record {
    app_safe = record { is_consistent = safe.is_consistent; is_node_safe = loaded };
    node_safe = if-AreSafe ok now n loaded;
  }

  default_settings_valid : valid_settings default_settings ≡ true
  unfolding valid_settings default_settings
  default_settings_valid = refl

  find_interceptor-IsServing :
      (clocks : Clocks) (now : ℕ) (app : App j) (o : Option (Node j))
      → IsSafe now app
      → AreSafe now o
      → IsServing now (find_interceptor j engines lib loads read_float rounded env clocks app o)
  unfolding find_interceptor
  find_interceptor-IsServing clocks now app (some n) safe held = record {
    app_safe = safe;
    node_safe = held;
  }
  find_interceptor-IsServing clocks now app none safe held = keep_new-IsServing now app _ safe (
      load_new-LoadIsSafe clocks now _
        (new_interceptor-AreSafe clocks default_settings now default_settings_valid))

  pub get_interceptor-IsServing :
      (clocks : Clocks) (now : ℕ) (app : App j)
      → IsSafe now app
      → IsServing now (get_interceptor j engines lib loads read_float rounded env clocks app)
  unfolding get_interceptor
  get_interceptor-IsServing clocks now app safe =
      find_interceptor-IsServing clocks now app app.node safe safe.is_node_safe

  pub AreSafe-later :
      (now later : ℕ) (o : Option (Node j)) → now ≤ later → AreSafe now o → AreSafe later o
  AreSafe-later now later none h safe = tt
  AreSafe-later now later (some n) h safe = record {
    is_closed = IsClosed-later now later n.trust h safe.is_closed;
    is_large_enough = safe.is_large_enough;
    is_bounded = safe.is_bounded;
    same_keys = safe.same_keys;
  }

  pub IsSafe-later : (now later : ℕ) (app : App j) → now ≤ later → IsSafe now app → IsSafe later app
  IsSafe-later now later app h safe = record {
    is_consistent = safe.is_consistent;
    is_node_safe = AreSafe-later now later app.node h safe.is_node_safe;
  }
