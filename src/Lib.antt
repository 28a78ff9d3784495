-- ===== src/Lib.antt =====
-- QWED A2A: verification of the interceptor between agents (src/qwed_a2a).
--
-- The program receives a message from one agent to another, decides whether the receiver may act
-- on it, and signs what it decided. `A2AVerificationInterceptor.intercept`
-- (src/qwed_a2a/interceptor.py) measures the payload, asks the trust boundary
-- (src/qwed_a2a/security/trust_boundary.py), runs an engine on a bounded pool, has the
-- attestation service (src/qwed_a2a/security/crypto.py) sign the verdict, and counts it
-- (src/qwed_a2a/utils/telemetry.py). A receiver gives the token back to `verify_attestation`. The
-- wire values stand in src/qwed_a2a/protocol/schema.py.
--
-- Files and the code that they model:
--   Prelude (Tests, Lists, Int, Text) and Dict: shared names, tests, sets as lists, signed
--     integers, text as code points, and Python dicts as association lists.
--   Schema: PayloadType, VerdictStatus and its legacy value, of protocol/schema.py.
--   Telemetry, Telemetry/Report: InterceptMetrics, record_intercept and to_dict, of
--     utils/telemetry.py.
--   Warn: the warnings that come at most once a minute, of protocol/endpoints.py and
--     security/crypto.py.
--   Trust (Bucket, Entry, Load, Decision, Isolation, Room, Trace, RateLimit, Revocation):
--     TrustBoundary, TokenBucket, TrustEntry and load_from_env, of security/trust_boundary.py. One function per
--     method; a trace of calls stands for the threads, since each method runs under the
--     boundary's lock.
--   Crypto (Base64, Issuers, Jti, Service, Registry, KeyPair, Jwk, Sign, Verify): _b64_decode_strict and
--     _b64url_uint, _load_trusted_issuers and the checks below it, JtiRegistry, _ensure_key_pair,
--     _compute_fingerprint, get_public_key_jwk, sign_verdict, _candidate_keys,
--     _attempt_candidate, _check_verified_claims, verify_attestation and is_admissible, of
--     security/crypto.py. Crypto/Sample is a token library for the examples.
--   Interceptor (Message, Claim, Logic, Ast, Bindings, Scan, Decimal, Financial, Regex, Code, Decide,
--     Pipeline, Slots): _normalize_claim, _verify_logic, _verify_financial with its validation
--     and the arithmetic of Python's decimal, _Bindings, _scan_ast_threats and the scans below
--     it, _verify_code with the patterns of _scan_regex_threats, intercept with _route_to_engine, _build_verdict and _record, and the
--     slots of _run_engine, of interceptor.py. Guard, Heuristic, Verdict, Attested, RoundTrip,
--     Contradiction and the modules below Bindings, Scan, Decimal, Financial and Slots hold their
--     theorems. Ast is the part of Python's syntax tree that the scans look at: names,
--     attributes, sequences, text literals, calls, imports and assignments, with one constructor
--     for everything else.
--   Endpoints (Identity, Limits, Gateway, Jwks): _valid_agent_id, _sanitize_keys_json,
--     _load_api_keys, require_agent_identity, _reject_declared_oversize, _capped_receive,
--     intercept_message and jwks_endpoint, of protocol/endpoints.py. Jwks/Peer is about two nodes.
--   Endpoints/App (Serve, Boundary, Leaves, Safe, History, Vouched, Configure, Quietly,
--     Blocking, Relied): the process, with
--     get_interceptor, configure_interceptor, _load_trusted_agents, size_limited_handler and all
--     the routes of protocol/endpoints.py, and A2AVerificationInterceptor.__init__ of
--     interceptor.py. The state is the interceptor, if there is one, and the metrics; an event is
--     a request, a new configuration, or a call of the trust boundary. Schema/AgentId: validate_agent_id_format, of protocol/schema.py.
--   Strip: str.strip.
--   The modules named Examples run the models on small inputs.
--
-- Conventions. A method is a function from the state to the new state and its result; an
-- exception is a constructor of the result, or the `none` of an option. Every reading of a clock
-- is an argument, one for each reading in the source. Times are natural numbers: whole ticks, a
-- million to the second, in place of floats, so that sums are exact; a token's own times are
-- whole seconds. Tokens of a bucket are counted in units fine enough that one tick refills a
-- whole number of them. The messages of refusals are constructors with the values that they
-- interpolate. Every loop is a recursion on a list, but for the while loop of
-- _Bindings.propagate, which runs on fuel: the length of the first work list and the number of
-- pairs of an assigned name and a binding that can ever be added. Each round pops one item and
-- pushes only pairs that it adds, so this is enough (Interceptor/Bindings/Termination). The
-- digits of a number are counted on fuel, too: the number itself, since each step divides by ten
-- (Interceptor/Decimal/Nearest). A decimal is a coefficient with a number of places: the code
-- never asks for more than its value. Python's sets are lists in the order of arrival; what is
-- reported is sorted where the code sorts it.
--
-- Parameters. PyJWT and the keys are the record `Jwt` (Crypto/Service): encoding, and decoding
-- followed by the typed reading of the claims. That a token encoded with a key pair decodes to
-- what was encoded, from the second of its issue (PyJWT refuses an `iat` ahead of the clock) until
-- it expires, is the hypothesis `Decodes` (Crypto/Verify/RoundTrip), which the token library of
-- Crypto/Sample meets. The Unicode tables are the record `Unicode`
-- (Interceptor/Claim). `ast.parse` with `ast.walk`, and the character classes of `re`, are
-- the record `Scanner` (Interceptor/Code). The calls of cryptography and hashlib for keys are the
-- record `Keys` (Crypto/KeyPair); that the coordinates of a key give the key back is the
-- hypothesis `IsP256` (Crypto/Jwk), and that a token does not verify under the key of another node
-- is `IsOther` (Endpoints/Jwks/Peer). json.dumps and SHA-256 stand in the record `Engines`
-- (Interceptor/Decide), and json.loads, which ends with a value, with a JSONDecodeError or with
-- another exception, is an argument `loads` of the functions that call it, as are `float` of a
-- text and the making of a key from the coordinates of a point; no theorem assumes anything of
-- them.
--
-- In Endpoints/App the values of the environment stay as they are, so a key that cannot be loaded
-- cannot be loaded later either, and the key pair of a service is the one that its first use loads.
-- A request is one step: what the event loop runs between the steps of one request is not looked
-- at there, and threads inside the boundary, the registries and the engine pool are looked at in
-- Trust/Trace, Crypto/Jti and Interceptor/Slots. The configuration is checked for the bounds of
-- max_payload_size_bytes.
--
-- Not modelled: replay registries of other classes than JtiRegistry, the range of the engine's
-- timeout and the warning about block_on_error. The bodies of requests are messages already: parsing them
-- is the work of FastAPI and pydantic. Also left out are logging, Sentry, the event loop and the
-- threads beyond the slots that they take.
pub mod Prelude
pub mod Dict
pub mod Strip
pub mod Trust
pub mod Warn
pub mod Schema
pub mod Telemetry
pub mod Crypto
pub mod Interceptor
pub mod Endpoints
