-- ===== src/Providers/Router/Fallback.antt =====
-- A working provider of the chain is enough for a request to be answered.
use bmt_ai_os.Prelude.{
  ℕ, suc, ◌≡◌, sym, inl, inr, String, true, Bool-cases, List, [], ◌∷◌, ◌++◌, str_eq, str_eq_iff, ok,
  arith,
}
use bmt_ai_os.Prelude.Dict.{contains}
use bmt_ai_os.Providers.Registry
use bmt_ai_os.Providers.Registry.{ProviderRegistry}
use bmt_ai_os.Providers.Config.{ProvidersConfig, ProviderSettings}
use bmt_ai_os.Providers.CircuitBreaker.{CircuitBreaker, closed, is_available}
use bmt_ai_os.Providers.Router.{
  Outcome, response, Moments, ProviderAttempt, RoutingResult, ProviderRouter, get_circuit_breaker,
  served, visit, try_chain, route,
}
use bmt_ai_os.Providers.Router.Visits.{
  IsEligible, IsSkipped, unregistered, unconfigured, disabled, refused, visit-cases,
  breaker-visit_ne,
}
use bmt_ai_os.Providers.Router.Chain.{visit-served}
use bmt_ai_os.Providers.Router.Counts.{Visit-split}

is_available-closed :
    (now : ℕ) (b : CircuitBreaker) → b.state ≡ closed → (is_available now b).1 ≡ true
unfolding is_available
is_available-closed now b h = ground arith

module _ {R : Type 0} (c : ProvidersConfig) (registered : List String)
    (call_fn : ℕ → String → ℕ → Outcome R) (clock : ℕ → Moments) (q : String) (s : ProviderSettings)
    (el : IsEligible c registered q s) where
  not-IsSkipped :
      (asked : ℕ) (r : ProviderRouter)
      → (get_circuit_breaker c r q).state ≡ closed
      → ¬ (IsSkipped c registered asked r q)
  not-IsSkipped asked r h (unregistered e) = cc (el.is_registered, e)
  not-IsSkipped asked r h (unconfigured e) = cc (el.has_settings, e)
  not-IsSkipped asked r h (disabled s' e d) = cc (el.has_settings, el.is_enabled, e, d)
  not-IsSkipped asked r h (refused e) = cc (is_available-closed asked (get_circuit_breaker c r q) h)

  -- An eligible provider with a closed breaker whose call answers serves the request.
  visit-answers :
      (n : ℕ) (v : R) (r : ProviderRouter)
      → (get_circuit_breaker c r q).state ≡ closed
      → call_fn n q s.timeout ≡ response v
      → (a : ProviderAttempt) × ((visit c registered (call_fn n) (clock n) q r).1 ≡ served v a)
  visit-answers n v r h o = elim (visit-cases c registered (call_fn n) (clock n) q r) [
    | inl (e, m, bs, why) ↦ absurd (not-IsSkipped (clock n).asked r h why)
    | inr (s', el', adm, e) ↦
        let same : s' ≡ s = ground (arith, el'.has_settings, el.has_settings) in
        (_, visit-served c registered call_fn clock n q r s' _ v e (rw same o))
  ]

  try_chain-served :
      (n : ℕ) (name : String) (names : List String) (before : List ProviderAttempt)
      (r : ProviderRouter) (w : R) (a : ProviderAttempt)
      → (visit c registered (call_fn n) (clock n) name r).1 ≡ served w a
      → (try_chain c registered call_fn clock n (name ∷ names) before r).1
        ≡ ok (record { value = w; provider_name = name; attempts = before ++ a ∷ [] })
  unfolding try_chain
  try_chain-served n name names before r w a e = rw (e, try_chain)

  try_chain-answers :
      ((n : ℕ) → (v : R) × (call_fn n q s.timeout ≡ response v))
      → (n : ℕ) (names : List String) (before : List ProviderAttempt) (r : ProviderRouter)
      → contains q names ≡ true
      → (get_circuit_breaker c r q).state ≡ closed
      → (res : RoutingResult R) × ((try_chain c registered call_fn clock n names before r).1
          ≡ ok res)
  unfolding try_chain contains
  try_chain-answers works n [] before r k h = cc
  try_chain-answers works n (name ∷ names) before r k h = elim (Bool-cases (str_eq name q)) [
    | inl e ↦
        let same : q ≡ name = sym ((str_eq_iff name q).0 e) in
        let (v, o) = works n in
        let (a, g) = visit-answers n v r h o in
        (_, try_chain-served n name names before r v a (rw same at g))
    | inr ne ↦
        let (r', v) = visit c registered (call_fn n) (clock n) name r in
        let h' : (get_circuit_breaker c r' q).state ≡ closed =
          rw (breaker-visit_ne c registered (call_fn n) (clock n) name r q ne) h in
        elim (Visit-split v) [
          | inl e ↦
              let (res, g) = try_chain-answers works (suc n) names before r' (ground arith) h' in
              (res, rw (e, try_chain) g)
          | inr (inl (w, a, e)) ↦ (_, try_chain-served n name names before r w a e)
          | inr (inr (a, e)) ↦
              let (res, g) =
                try_chain-answers works (suc n) names (before ++ a ∷ []) r' (ground arith) h' in
              (res, rw (e, try_chain) g)
        ]
  ]

-- If some name of the chain is registered, is enabled, has a closed breaker when the request starts and
-- answers whenever it is called, then the request is answered, whatever stands before that name in the
-- chain and however those calls fail.
pub route-answers {ℓ} :
    {P : Type ℓ} {R : Type 0} (c : ProvidersConfig) (registry : ProviderRegistry P)
    (call_fn : ℕ → String → ℕ → Outcome R) (clock : ℕ → Moments) (r : ProviderRouter) (q : String)
    (s : ProviderSettings)
    → contains q c.fallback_chain ≡ true
    → IsEligible c (Registry.list registry) q s
    → (get_circuit_breaker c r q).state ≡ closed
    → ((n : ℕ) → (v : R) × (call_fn n q s.timeout ≡ response v))
    → (res : RoutingResult R) × ((route c registry call_fn clock r).1 ≡ ok res)
unfolding route
route-answers c registry call_fn clock r q s k el h works =
    try_chain-answers c (Registry.list registry) call_fn clock q s el works 0 c.fallback_chain [] r
      k h
