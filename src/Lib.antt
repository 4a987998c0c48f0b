-- ===== src/Lib.antt =====
-- Verification library of BMT AI OS, the Python program under bmt_ai_os/.
--
-- The parts and how they interact. The controller (bmt_ai_os/controller) serves requests behind a rate
-- limiter; requests to language models go through the provider router (bmt_ai_os/providers), which
-- tries the registered providers in the order of a fallback chain, guards each by a circuit breaker and
-- counts what happened in metrics. Over-the-air updates (bmt_ai_os/ota) write an image to a boot slot
-- and switch the slots in a JSON state file; the update orchestrator (bmt_ai_os/update) runs them with a
-- pull of the container images as one sequence of stages. The controller signs users in and checks the token and
-- the role of each request; a fleet registry keeps the devices and their commands in memory and in SQLite; a
-- package registry orders packages by their dependencies; documents are cut into chunks for
-- retrieval; a conversation is fitted into a budget of tokens; plugins are switched on and off and register providers.
--
-- Files and what they model:
--   Prelude            Boolean tests, lists, texts, results and Python's dict with text keys
--   Providers.CircuitBreaker  providers/circuit_breaker.py, ProviderCircuitBreaker
--   Providers.Metrics  providers/metrics.py, ProviderMetrics
--   Providers.Registry providers/registry.py, ProviderRegistry
--   Providers.Config   providers/config.py, the settings and resolve_api_key
--   Providers.Router   providers/router.py, ProviderRouter: `visit` is one pass of the loop of _route,
--                      `try_chain` the loop, `route` and `chat` the methods
--   Controller.RateLimit  controller/rate_limit.py, SlidingWindowRateLimiter
--   Controller.RateLimit.Dependency  the same file, RateLimitDep, _client_ip and _build_limiter; `call` is __call__
--   Controller.Health  controller/health.py, CircuitBreaker as ServiceBreaker and HealthChecker, and
--                      _health_loop of controller/main.py: `round` for one service, `health_round`
--   Controller.Auth    controller/auth.py: Users is the store with its lockout, Tokens the revocation of
--                      tokens, Middleware the dispatch of a request
--   Controller.ProviderKeys  controller/provider_config_routes.py, ProviderKeyStore with its table; Fernet and
--                      HMAC are the parameter Cipher
--   Dlc.Registry       dlc/registry.py, PackageRegistry: `visit` is _resolve, with fuel for its depth
--   Fleet.Data         fleet/models.py and the tables of fleet/registry.py; what `json` makes of the values is
--                      the parameter Codec, and a new uuid4 an argument of the method that takes it
--   Fleet.Database     fleet/registry.py, the SQL of FleetRegistry: `load_from_db` is _load_from_db
--   Fleet.Registration fleet/registry.py, the records that `register` and `heartbeat` make
--   Fleet.Registry     fleet/registry.py, the methods of FleetRegistry; Restart has the registries they can make
--   Fleet.Agent        fleet/agent.py, FleetAgent with the server that answers it: `round` is one pass of the
--                      loop of _loop, `post_heartbeat` the request and the server's handler of it
--   Rag                rag/chunker.py: Words is _token_len, Chunker is _merge_splits; the characters that
--                      str.split takes for white space are a parameter
--   Memory             memory/context.py: Context is ContextEngine, with `fit` as build_context for a budget;
--                      Split is str.split and str.join. The summariser is a parameter
--   Plugins            plugins/manager.py, PluginManager: `set_enabled` is enable and disable, `new` a new process
--   Ota.Version        ota/engine.py, _is_newer
--   Ota.Verify         ota/verify.py, enforce_signature
--   Ota.State          ota/state.py, OTAState and StateManager: `update` is load, change and save
--   Ota.Engine         ota/engine.py, apply_update, confirm_boot, rollback_update, should_rollback
--   Update.Orchestrator  update/orchestrator.py: `stage_os_update` and the other stages, `run`
-- A module's children prove what holds of it; the modules named Tests run the definitions on concrete
-- inputs and apply the theorems there.
--
-- Conventions. A method that changes an object returns the new object. A reading of a clock is an
-- argument, a natural number of ticks of ten microseconds; the readings are exact where the program
-- has floating-point seconds. Integers are natural numbers, but for what int reads from a text, and a subtraction is written as a sum on the
-- other side of a test where it could go below zero. A dict is an association list in order of
-- insertion. An exception is a value of the result type. Every loop is structural recursion over the
-- list that the program walks; the recursion over package dependencies takes fuel, one more than the
-- packages, since every nested call sees a new one.
--
-- Bounds of the model. A routed request runs with no other request in between; the theorems on traces of
-- a circuit breaker range over all interleavings of its methods. The responses of providers, SHA-256,
-- the check of an Ed25519 signature, what a write leaves on the disk and Python's str and int on texts are arguments.
-- JSON numbers are natural numbers. Writing the state file of the updates
-- succeeds.
--
-- Not modelled: HTTP clients, Docker, the command line, the dashboard and shell scripts, which are input
-- and output around these parts; SQLite itself, whose tables are lists and dicts here; averages of
-- latencies, for want of floats; Python's limit on recursion, which a very long chain of package dependencies meets;
-- the discovery of plugins, which imports those from entry points whether they are switched on or not.
pub mod Prelude
pub mod Providers
pub mod Rag
pub mod Memory
pub mod Update
pub mod Controller
pub mod Ota
pub mod Dlc
pub mod Fleet
pub mod Plugins
