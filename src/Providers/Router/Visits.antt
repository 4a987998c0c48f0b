-- ===== src/Providers/Router/Visits.antt =====
-- What one step of the loop over the chain does.
use bmt_ai_os.Prelude.{
  ℕ, ◌≡◌, ◌⊎◌, refl, inl, inr, String, Bool, true, false, Bool-cases, none, some, Option-cases,
  List, str_eq, arith,
}
use bmt_ai_os.Prelude.Dict
use bmt_ai_os.Prelude.Dict.{contains, get-put}
use bmt_ai_os.Providers.CircuitBreaker
use bmt_ai_os.Providers.CircuitBreaker.{CircuitBreaker}
use bmt_ai_os.Providers.Config.{ProvidersConfig, ProviderSettings, get_provider_settings}
use bmt_ai_os.Providers.Router.{
  Outcome, response, raised, Moments, ProviderRouter, get_circuit_breaker, admit, skipped, visit,
  settle,
}

-- The name is registered, and has settings that enable it.
pub record IsEligible (c : ProvidersConfig) (registered : List String) (name : String)
    (s : ProviderSettings) : Type 0 where
  pub is_registered : contains name registered ≡ true
  pub has_settings : get_provider_settings c name ≡ some s
  pub is_enabled : s.enabled ≡ true

-- Why a name of the chain is passed over.
pub data IsSkipped (c : ProvidersConfig) (registered : List String) (asked : ℕ) (r : ProviderRouter)
    (name : String) : Type 0 where
  unregistered : contains name registered ≡ false → IsSkipped c registered asked r name
  unconfigured : get_provider_settings c name ≡ none → IsSkipped c registered asked r name
  disabled :
      (s : ProviderSettings)
      → get_provider_settings c name ≡ some s
      → s.enabled ≡ false
      → IsSkipped c registered asked r name
  refused :
      (CircuitBreaker.is_available asked (get_circuit_breaker c r name)).1 ≡ false
      → IsSkipped c registered asked r name

module _ {R : Type 0} (c : ProvidersConfig) (registered : List String)
    (call_fn : String → ℕ → Outcome R) (t : Moments) (name : String) (r : ProviderRouter) where
  abbrev breaker : CircuitBreaker × Bool
  breaker = admit t.asked t.looked (get_circuit_breaker c r name)

  admit-is_available :
      breaker.1 ≡ (CircuitBreaker.is_available t.asked (get_circuit_breaker c r name)).1
  unfolding admit
  admit-is_available = refl

  -- A name passed over: nothing is counted, and no breaker but its own is written.
  abbrev PassesOver : Type 0
  PassesOver =
      ((visit c registered call_fn t name r).1 ≡ skipped)
      × ((visit c registered call_fn t name r).0.metrics ≡ r.metrics)
      × (((visit c registered call_fn t name r).0.breakers ≡ r.breakers)
          ⊎ ((visit c registered call_fn t name r).0.breakers ≡ Dict.put r.breakers name breaker.0))
      × IsSkipped c registered t.asked r name

  -- A step either skips the name for one of the four reasons, or tries it, when it is eligible and its
  -- breaker admits the request.
  pub visit-cases :
      PassesOver
      ⊎ ((s : ProviderSettings) × IsEligible c registered name s
          × (breaker.1 ≡ true)
          × (visit c registered call_fn t name r
              ≡ settle c registered name t breaker.0 (call_fn name s.timeout) r))
  visit-cases = elim (Bool-cases (contains name registered)) [
    | inr e ↦ inl (unfold visit in (rw e, rw e, inl (rw e), unregistered e))
    | inl e ↦ elim (Option-cases (get_provider_settings c name)) [
      | inl g ↦
          inl (unfold visit in (ground arith, ground arith, inl (ground arith), unconfigured g))
      | inr (s, g) ↦ elim (Bool-cases s.enabled) [
        | inr d ↦
            inl (unfold visit in (ground arith, ground arith, inl (ground arith), disabled s g d))
        | inl d ↦ elim (Bool-cases breaker.1) [
          | inr a ↦ inl (
            unfold visit in ground arith,
            unfold visit in ground arith,
            inr (unfold visit in ground arith),
            refused (rw admit-is_available at a),
          )
          | inl a ↦ inr (
            s,
            record { is_registered = e; has_settings = g; is_enabled = d },
            a,
            unfold visit in ground arith,
          )
        ]
      ]
    ]
  ]

  settle-breakers :
      (b : CircuitBreaker) (o : Outcome R)
      → (b' : CircuitBreaker) × ((settle c registered name t b o r).0.breakers
          ≡ Dict.put r.breakers name b')
  unfolding settle
  settle-breakers b (response v) = (CircuitBreaker.record_success b, refl)
  settle-breakers b (raised m) = (CircuitBreaker.record_failure t.recorded b, refl)

  -- A step writes the breaker of its own name at most.
  visit-breakers :
      ((visit c registered call_fn t name r).0.breakers ≡ r.breakers)
      ⊎ ((b' : CircuitBreaker) × ((visit c registered call_fn t name r).0.breakers
            ≡ Dict.put r.breakers name b'))
  visit-breakers = elim visit-cases [
    | inr (s, el, a, e) ↦
        let (b', q) = settle-breakers breaker.0 (call_fn name s.timeout) in inr (b', rw e q)
    | inl (e, m, bs, why) ↦ elim bs [ inl q ↦ inl q | inr q ↦ inr (breaker.0, q) ]
  ]

  -- The breaker of another name stays as it was.
  pub breaker-visit_ne :
      (q : String)
      → str_eq name q ≡ false
      → get_circuit_breaker c (visit c registered call_fn t name r).0 q ≡ get_circuit_breaker c r q
  unfolding get_circuit_breaker
  breaker-visit_ne q ne = elim visit-breakers [
    | inl e ↦ ground (arith, e)
    | inr (b', e) ↦ ground (arith, e, get-put r.breakers name q b')
  ]
