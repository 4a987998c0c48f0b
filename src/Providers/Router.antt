-- ===== src/Providers/Router.antt =====
-- bmt_ai_os/providers/router.py: one request that goes through the fallback chain. Other requests may
-- run between two requests and not within one.
pub mod Visits
pub mod Chain
pub mod Counts
pub mod Fallback
pub mod Blocking
use bmt_ai_os.Prelude.{
  ℕ, zero, suc, ◌+◌, ◌-◌, String, Bool, true, false, not, ◌&&◌, ◌||◌, Option, none, some, List, [],
  ◌∷◌, ◌++◌, if◌then◌else◌, Result, ok, err,
}
use bmt_ai_os.Prelude.Dict
use bmt_ai_os.Prelude.Dict.{Dict, contains}
use bmt_ai_os.Providers.CircuitBreaker
use bmt_ai_os.Providers.CircuitBreaker.{CircuitBreaker, CircuitState, closed, opened, half_open}
use bmt_ai_os.Providers.Metrics
use bmt_ai_os.Providers.Metrics.{ProviderMetrics}
use bmt_ai_os.Providers.Registry
use bmt_ai_os.Providers.Registry.{ProviderRegistry}
use bmt_ai_os.Providers.Config.{ProvidersConfig, ProviderSettings, get_provider_settings}

-- What a provider's call gives: a response, or an exception with its text (a timeout is one).
pub data Outcome (R : Type 0) : Type 0 where
  response : R → Outcome R
  raised : String → Outcome R

-- The readings of the monotonic clock while one provider of the chain is tried: by `is_available`, by
-- the property `state`, before and after the call, by `record_failure` and by the metrics.
pub record Moments : Type 0 where
  pub asked : ℕ
  pub looked : ℕ
  pub started : ℕ
  pub finished : ℕ
  pub recorded : ℕ
  pub measured : ℕ

pub record ProviderAttempt : Type 0 where
  pub provider : String
  pub success : Bool
  pub latency : ℕ
  pub error : Option String

pub record RoutingResult (R : Type 0) : Type 0 where
  pub value : R
  pub provider_name : String
  pub attempts : List ProviderAttempt

-- The mutable part of `ProviderRouter`.
pub record ProviderRouter : Type 0 where
  pub metrics : ProviderMetrics
  pub breakers : Dict CircuitBreaker

unfoldable pub get_circuit_breaker : ProvidersConfig → ProviderRouter → String → CircuitBreaker
unfolding CircuitBreaker.new
get_circuit_breaker c r provider = elim (Dict.get r.breakers provider) [
  | none ↦
      CircuitBreaker.new c.circuit_breaker.failure_threshold c.circuit_breaker.cooldown
        c.circuit_breaker.half_open_max_requests
  | some b ↦ b
]

abbrev put_breaker : String → CircuitBreaker → ProviderRouter → ProviderRouter
put_breaker name b r = record r { breakers = Dict.put r.breakers name b }

track_probe : CircuitState → CircuitBreaker → CircuitBreaker
track_probe half_open b = CircuitBreaker.record_half_open_attempt b
track_probe _ b = b

-- The breaker's part of an attempt: whether it is available, the second look at its state, and the
-- count of a half-open probe. A refused request looks at the state again too, for its log line.
unfoldable pub admit : ℕ → ℕ → CircuitBreaker → CircuitBreaker × Bool
unfolding track_probe
admit asked looked b =
    let (b1, available) = CircuitBreaker.is_available asked b in
    let b2 = CircuitBreaker.read_state looked b1 in
    (if available then track_probe b2.state b2 else b2, available)

-- What became of one name of the chain.
pub data Visit (R : Type 0) : Type 0 where
  skipped : Visit R
  served : R → ProviderAttempt → Visit R
  failed : ProviderAttempt → Visit R

module _ {R : Type 0} (c : ProvidersConfig) (registered : List String) where
  -- The bookkeeping after the call has returned or raised.
  unfoldable pub settle :
      String → Moments → CircuitBreaker → Outcome R → ProviderRouter → ProviderRouter × Visit R
  settle name t b (response v) r =
      let latency = t.finished - t.started in
      (
        record {
          metrics = Metrics.record_success name latency t.measured r.metrics;
          breakers = Dict.put r.breakers name (CircuitBreaker.record_success b);
        },
        served v (record { provider = name; success = true; latency = latency; error = none }),
      )
  settle name t b (raised message) r =
      let latency = t.finished - t.started in
      (
        record {
          metrics = Metrics.record_failure name t.measured r.metrics;
          breakers = Dict.put r.breakers name (CircuitBreaker.record_failure t.recorded b);
        },
        failed
            (record { provider = name; success = false; latency = latency; error = some message }),
      )

  -- The call is made only where the breaker admits it.
  enter :
      String
      → Moments
      → Outcome R
      → CircuitBreaker × Bool
      → ProviderRouter
      → ProviderRouter × Visit R
  unfolding settle
  enter name t outcome (b, false) r = (put_breaker name b r, skipped)
  enter name t outcome (b, true) r = settle name t b outcome r

  -- One name of the chain: `call_fn` is given the name and its timeout.
  unfoldable pub visit :
      (String → ℕ → Outcome R) → Moments → String → ProviderRouter → ProviderRouter × Visit R
  unfolding enter
  visit call_fn t name r =
      if not (contains name registered) then (r, skipped) else elim (get_provider_settings c name) [
        | none ↦ (r, skipped)
        | some settings ↦
            if not settings.enabled
            then (r, skipped)
            else enter name t (call_fn name settings.timeout)
                (admit t.asked t.looked (get_circuit_breaker c r name)) r
      ]

  -- The loop over the chain. The calls and the clock may answer differently at each position.
  unfoldable pub try_chain :
      (ℕ → String → ℕ → Outcome R)
      → (ℕ → Moments)
      → ℕ
      → List String
      → List ProviderAttempt
      → ProviderRouter
      → ProviderRouter × Result (List ProviderAttempt) (RoutingResult R)
  try_chain call_fn clock n [] attempts r = (r, err attempts)
  try_chain call_fn clock n (name ∷ names) attempts r =
      let (r', v) = visit (call_fn n) (clock n) name r in
      elim v [
        | skipped ↦ try_chain call_fn clock (suc n) names attempts r'
        | served value a ↦
            (r', ok (record { value = value; provider_name = name; attempts = attempts ++ a ∷ [] }))
        | failed a ↦ try_chain call_fn clock (suc n) names (attempts ++ a ∷ []) r'
      ]

-- `_route`: the names registered are read once, at the start; `AllProvidersFailedError` carries the
-- attempts.
unfoldable pub route {ℓ} :
    {P : Type ℓ} {R : Type 0}
    → ProvidersConfig
    → ProviderRegistry P
    → (ℕ → String → ℕ → Outcome R)
    → (ℕ → Moments)
    → ProviderRouter
    → ProviderRouter × Result (List ProviderAttempt) (RoutingResult R)
unfolding try_chain
route c registry call_fn clock r =
    try_chain c (Registry.list registry) call_fn clock 0 c.fallback_chain [] r

-- `chat` and `embed`: the call looks the provider up in the registry. `ask` is the provider's method.
call_registered {ℓ} :
    {P : Type ℓ} {R : Type 0}
    → ProviderRegistry P
    → (P → ℕ → Outcome R)
    → (Registry.RegistryError → String)
    → String
    → ℕ
    → Outcome R
call_registered registry ask show name timeout = elim (Registry.get registry name) [
  | ok p ↦ ask p timeout
  | err e ↦ raised (show e)
]

unfoldable pub chat {ℓ} :
    {P : Type ℓ} {R : Type 0}
    → ProvidersConfig
    → ProviderRegistry P
    → (ℕ → P → ℕ → Outcome R)
    → (Registry.RegistryError → String)
    → (ℕ → Moments)
    → ProviderRouter
    → ProviderRouter × Result (List ProviderAttempt) (RoutingResult R)
unfolding route call_registered
chat c registry ask show clock r =
    route c registry (λ n. call_registered registry (ask n) show) clock r
