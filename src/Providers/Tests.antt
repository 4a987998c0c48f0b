-- ===== src/Providers/Tests.antt =====
-- The provider layer on concrete inputs: a chain of three names, of which one is not registered and one
-- fails, and a breaker that trips at the second failure.
use bmt_ai_os.Prelude.{
  ℕ, ◌<◌, ◌≡◌, ◌↔◌, refl, String, true, false, Option, none, some, List, [], ◌∷◌, str_eq,
  if◌then◌else◌, All, ok, arith,
}
use bmt_ai_os.Prelude.Dict
use bmt_ai_os.Prelude.Dict.{contains, IsDistinct}
use bmt_ai_os.Providers.CircuitBreaker
use bmt_ai_os.Providers.CircuitBreaker.{
  CircuitBreaker, closed, opened, half_open, ask, succeed, fail, probe,
}
use bmt_ai_os.Providers.CircuitBreaker.Traces.{failures, run-closed_iff}
use bmt_ai_os.Providers.Metrics.{stats_of}
use bmt_ai_os.Providers.Registry
use bmt_ai_os.Providers.Registry.{ProviderRegistry, no_provider}
use bmt_ai_os.Providers.Registry.Active.{add, remove, activate, Change}
use bmt_ai_os.Providers.Config.{ProvidersConfig, ProviderSettings, get_provider_settings}
use bmt_ai_os.Providers.Router.{
  Outcome, response, raised, Moments, ProviderAttempt, ProviderRouter, RoutingResult, route,
  get_circuit_breaker, visit, admit,
}
use bmt_ai_os.Providers.Router.Visits.{IsEligible}
use bmt_ai_os.Providers.Router.Chain.{Tries, reported, route-Tries}
use bmt_ai_os.Providers.Router.Counts.{Gains, attempts_of, route-counts}
use bmt_ai_os.Providers.Router.Fallback.{route-answers}
use bmt_ai_os.Providers.Router.Blocking.{route_spares}

-- A breaker that opens at the second failure, for 60 ticks, and then lets one request through.
abbrev breaker : CircuitBreaker
breaker = record {
  failure_threshold = 2;
  cooldown = 60;
  half_open_max_requests = 1;
  state = closed;
  failure_count = 0;
  last_failure_time = 0;
  half_open_attempts = 0;
}

abbrev tripped : CircuitBreaker
tripped = record breaker { state = opened; failure_count = 2; last_failure_time = 100 }

abbrev probing : CircuitBreaker
probing = record tripped { state = half_open; half_open_attempts = 1 }

abbrev failing_once : CircuitBreaker
failing_once = record breaker { failure_count = 1 }

abbrev busy : List CircuitBreaker.Call
busy = fail 5 ∷ ask 6 ∷ fail 7 ∷ ask 70 ∷ probe ∷ succeed ∷ fail 80 ∷ []

run-closed_iff_example :
    ((CircuitBreaker.run busy (CircuitBreaker.new 2 60 1)).state ≡ closed) ↔ (failures busy 0 < 2)
run-closed_iff_example = run-closed_iff busy 2 60 1 (omega arith)

abbrev changes : List (Change ℕ)
changes =
    add "ollama" 1 ∷ add "openai" 2 ∷ activate "openai" ∷ remove "openai" ∷ activate "ghost" ∷ []

abbrev registry : ProviderRegistry ℕ
registry = record { providers = ("ollama", 1) ∷ ("openai", 2) ∷ []; active_name = some "ollama" }

abbrev new_order : List String
new_order = "openai" ∷ "ollama" ∷ []

abbrev settings : ProviderSettings
settings = record { enabled = true; base_url = ""; api_key = ""; default_model = ""; timeout = 30 }

abbrev config : ProvidersConfig
config = record {
  active_provider = "ollama";
  fallback_chain = "ollama" ∷ "ghost" ∷ "openai" ∷ [];
  providers = ("ollama", settings) ∷ ("ghost", settings) ∷ ("openai", settings) ∷ [];
  circuit_breaker = record { failure_threshold = 2; cooldown = 60; half_open_max_requests = 1 };
}

-- Ollama is down, the others answer.
abbrev call_fn : ℕ → String → ℕ → Outcome ℕ
call_fn n name timeout = if str_eq name "ollama" then raised "refused" else response 7

abbrev clock : ℕ → Moments
clock n = record { asked = 1; looked = 2; started = 3; finished = 5; recorded = 6; measured = 7 }

abbrev idle : ProviderRouter
idle = record { metrics = []; breakers = ("ollama", failing_once) ∷ [] }

abbrev shut : ProviderRouter
shut = record idle { breakers = ("ollama", tripped) ∷ [] }

route_falls_back :
    attempts_of (route config registry call_fn clock idle).1
    ≡ record { provider = "ollama"; success = false; latency = 2; error = some "refused" }
      ∷ record { provider = "openai"; success = true; latency = 2; error = none }
      ∷ []
unfolding route Registry.list visit contains Dict.keys get_provider_settings Dict.get admit
    CircuitBreaker.is_available get_circuit_breaker Dict.put
route_falls_back = refl

route-Tries_example :
    (tries : List ProviderAttempt) × (answer : Option (ℕ × String)) × Tries config
      (Registry.list registry)
      call_fn
      clock
      idle
      0
      config.fallback_chain
      tries
      answer
    × ((route config registry call_fn clock idle).1 ≡ reported tries answer)
route-Tries_example = route-Tries config registry call_fn clock idle

route-counts_example :
    Gains "ollama"
      (stats_of idle.metrics "ollama")
      (stats_of (route config registry call_fn clock idle).0.metrics "ollama")
      (attempts_of (route config registry call_fn clock idle).1)
route-counts_example = route-counts config registry call_fn clock idle "ollama"

is_eligible : IsEligible config (Registry.list registry) "openai" settings
unfolding Registry.list Dict.keys Dict.get
is_eligible = record {
  is_registered = unfold contains in refl;
  has_settings = unfold get_provider_settings in refl;
  is_enabled = refl;
}

route-answers_example :
    (res : RoutingResult ℕ) × ((route config registry call_fn clock idle).1 ≡ ok res)
unfolding Dict.get
route-answers_example =
    route-answers config registry call_fn clock idle "openai" settings (unfold contains in refl)
      is_eligible (unfold get_circuit_breaker in refl) (λ n. (7, refl))

route_spares_example :
    All
      (λ a. str_eq a.provider "ollama" ≡ false)
      (attempts_of (route config registry call_fn clock shut).1)
    × (get_circuit_breaker config (route config registry call_fn clock shut).0 "ollama"
        ≡ get_circuit_breaker config shut "ollama")
unfolding Dict.get
route_spares_example =
    route_spares config registry call_fn clock shut "ollama" (unfold get_circuit_breaker in refl)
      (unfold get_circuit_breaker in λ n. (omega arith, omega arith))
