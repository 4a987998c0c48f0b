-- ===== src/Providers/Router/Blocking.antt =====
-- An open breaker keeps its provider from being called.
use bmt_ai_os.Prelude.{
  ℕ, suc, ◌+◌, ◌<◌, ◌≤◌, ◌-◌, min, length, ◌≡◌, ◌⊎◌, refl, sym, ◌∙◌, All, All-append, inl, inr,
  String, true, false, Bool-cases, List, [], ◌∷◌, ◌++◌, str_eq, str_eq_iff, str_eq_refl,
  if◌then◌else◌, arith,
}
use mathlib.Core.Path.{subst}
use bmt_ai_os.Prelude.Dict.{get-put}
use bmt_ai_os.Providers.Registry
use bmt_ai_os.Providers.Registry.{ProviderRegistry}
use bmt_ai_os.Providers.Config.{ProvidersConfig}
use bmt_ai_os.Providers.CircuitBreaker.{
  CircuitBreaker, opened, half_open, is_available, read_state, record_half_open_attempt,
}
use bmt_ai_os.Providers.Router.{
  Outcome, response, raised, Moments, ProviderAttempt, ProviderRouter, get_circuit_breaker, skipped,
  visit, settle, try_chain, route, admit,
}
use bmt_ai_os.Providers.Router.Visits.{visit-cases, breaker-visit_ne}
use bmt_ai_os.Providers.Router.Counts.{Visit-split, visit_attempts, attempts_of}

admit_opened :
    (asked looked : ℕ) (b : CircuitBreaker)
    → b.state ≡ opened
    → asked < b.last_failure_time + b.cooldown
    → looked < b.last_failure_time + b.cooldown
    → admit asked looked b ≡ (b, false)
unfolding admit is_available read_state
admit_opened asked looked b h p q = ground arith

-- Requests that arrive one after another at a breaker, each with its two looks at the clock, and how
-- many of them are let through.
pub admitted : List (ℕ × ℕ) → CircuitBreaker → ℕ
admitted [] b = 0
admitted ((asked, looked) ∷ rest) b =
    let (b', available) = admit asked looked b in
    let n = admitted rest b' in if available then suc n else n

admit_half_open :
    (asked looked : ℕ) (b : CircuitBreaker)
    → b.state ≡ half_open
    → ((admit asked looked b).0.state ≡ half_open)
      × ((admit asked looked b).0.half_open_max_requests ≡ b.half_open_max_requests)
      × (((admit asked looked b).1 ≡ true)
            × (b.half_open_attempts < b.half_open_max_requests)
            × ((admit asked looked b).0.half_open_attempts ≡ b.half_open_attempts + 1)
          ⊎ ((admit asked looked b).1 ≡ false)
            × (b.half_open_max_requests ≤ b.half_open_attempts)
            × ((admit asked looked b).0.half_open_attempts ≡ b.half_open_attempts))
unfolding admit is_available read_state record_half_open_attempt
admit_half_open asked looked b h = (ground arith, ground arith, ground arith)

-- While a breaker is half-open and no outcome comes back, however many requests arrive and whenever,
-- it lets through as many as its attempts left allow, and no more.
pub admitted_half_open :
    (arrivals : List (ℕ × ℕ)) (b : CircuitBreaker)
    → b.state ≡ half_open
    → admitted arrivals b ≡ min (length arrivals) (b.half_open_max_requests - b.half_open_attempts)
unfolding admitted
admitted_half_open [] b h = omega arith
admitted_half_open ((asked, looked) ∷ rest) b h =
    let g = admit_half_open asked looked b h in
    let ih = admitted_half_open rest (admit asked looked b).0 g.0 in ground (arith, g, ih)

module _ {R : Type 0} (c : ProvidersConfig) (registered : List String)
    (call_fn : ℕ → String → ℕ → Outcome R) (clock : ℕ → Moments) (q : String) (b : CircuitBreaker)
    (shut : b.state ≡ opened)
    (early : (n : ℕ)
      → ((clock n).asked < b.last_failure_time + b.cooldown)
        × ((clock n).looked < b.last_failure_time + b.cooldown)) where
  admit_early : (n : ℕ) → admit (clock n).asked (clock n).looked b ≡ (b, false)
  admit_early n = admit_opened (clock n).asked (clock n).looked b shut (early n).0 (early n).1

  -- The step at the blocked name calls nothing and leaves its breaker as it was.
  visit_blocked :
      (n : ℕ) (r : ProviderRouter)
      → get_circuit_breaker c r q ≡ b
      → ((visit c registered (call_fn n) (clock n) q r).1 ≡ skipped)
        × (get_circuit_breaker c (visit c registered (call_fn n) (clock n) q r).0 q ≡ b)
  visit_blocked n r h = elim (visit-cases c registered (call_fn n) (clock n) q r) [
    | inl (e, m, inl same, why) ↦ (e, unfold get_circuit_breaker in ground (arith, h, same))
    | inl (e, m, inr wrote, why) ↦ (
      e,
      unfold get_circuit_breaker in
          ground (
            arith,
            h,
            wrote,
            admit_early n,
            str_eq_refl q,
            get-put r.breakers q q
                (admit (clock n).asked (clock n).looked (get_circuit_breaker c r q)).0,
          ),
    )
    | inr (s, el, adm, e) ↦ absurd (ground (arith, adm, h, admit_early n))
  ]

  settle-provider :
      (name : String) (t : Moments) (b' : CircuitBreaker) (o : Outcome R) (r : ProviderRouter)
      → All (λ a. a.provider ≡ name) (visit_attempts (settle c registered name t b' o r).1)
  unfolding settle
  settle-provider name t b' (response v) r = (refl, tt)
  settle-provider name t b' (raised m) r = (refl, tt)

  visit-provider :
      (n : ℕ) (name : String) (r : ProviderRouter)
      → All
          (λ a. a.provider ≡ name)
          (visit_attempts (visit c registered (call_fn n) (clock n) name r).1)
  visit-provider n name r = elim (visit-cases c registered (call_fn n) (clock n) name r) [
    | inl (e, m, bs, why) ↦ rw e tt
    | inr (s, el, adm, e) ↦ rw e (settle-provider name (clock n) _ (call_fn n name s.timeout) r)
  ]

  -- No attempt of the list is at the blocked name.
  abbrev Spares : List ProviderAttempt → Type 0
  Spares = All (λ a. str_eq a.provider q ≡ false)

  Spares-of_ne :
      (name : String) (tries : List ProviderAttempt)
      → str_eq name q ≡ false
      → All (λ a. a.provider ≡ name) tries
      → Spares tries
  Spares-of_ne name [] ne h = tt
  Spares-of_ne name (a ∷ tries) ne h = (rw h.0 ne, Spares-of_ne name tries ne h.1)

  visit-Spares :
      (n : ℕ) (name : String) (r : ProviderRouter)
      → get_circuit_breaker c r q ≡ b
      → Spares (visit_attempts (visit c registered (call_fn n) (clock n) name r).1)
        × (get_circuit_breaker c (visit c registered (call_fn n) (clock n) name r).0 q ≡ b)
  visit-Spares n name r h = elim (Bool-cases (str_eq name q)) [
    | inl e ↦
        let same : q ≡ name = sym ((str_eq_iff name q).0 e) in
        let (k, g) = visit_blocked n r h in
        let k' : (visit c registered (call_fn n) (clock n) name r).1 ≡ skipped =
          subst (λ x. (visit c registered (call_fn n) (clock n) x r).1 ≡ skipped) same k in
        (
          rw k' tt,
          subst (λ x. get_circuit_breaker c (visit c registered (call_fn n) (clock n) x r).0 q ≡ b)
              same g,
        )
    | inr ne ↦ (
      Spares-of_ne name _ ne (visit-provider n name r),
      breaker-visit_ne c registered (call_fn n) (clock n) name r q ne ∙ h,
    )
  ]

  try_chain-Spares :
      (n : ℕ) (names : List String) (before : List ProviderAttempt) (r : ProviderRouter)
      → get_circuit_breaker c r q ≡ b
      → Spares before
      → let (r', result) = try_chain c registered call_fn clock n names before r in
        Spares (attempts_of result) × (get_circuit_breaker c r' q ≡ b)
  unfolding try_chain
  try_chain-Spares n [] before r h k = (k, h)
  try_chain-Spares n (name ∷ names) before r h k =
      let (r', v) = visit c registered (call_fn n) (clock n) name r in
      let (p, h') = visit-Spares n name r h in
      elim (Visit-split v) [
        | inl e ↦ rw (e, try_chain) (try_chain-Spares (suc n) names before r' h' k)
        | inr (inl (w, a, e)) ↦
            rw (e, try_chain)
              (All-append (λ x. str_eq x.provider q ≡ false) before (a ∷ []) k (rw e at p), h')
        | inr (inr (a, e)) ↦
            rw (e, try_chain)
              (try_chain-Spares (suc n) names (before ++ a ∷ []) r' h'
                (All-append (λ x. str_eq x.provider q ≡ false) before (a ∷ []) k (rw e at p)))
      ]

-- While a provider's breaker is open and its cooldown has not elapsed at any moment of a request, the
-- request makes no attempt at that provider, whatever the chain, and leaves its breaker as it was.
pub route_spares {ℓ} :
    {P : Type ℓ} {R : Type 0} (c : ProvidersConfig) (registry : ProviderRegistry P)
    (call_fn : ℕ → String → ℕ → Outcome R) (clock : ℕ → Moments) (r : ProviderRouter) (q : String)
    → (get_circuit_breaker c r q).state ≡ opened
    → ((n : ℕ)
        → ((clock n).asked
            < (get_circuit_breaker c r q).last_failure_time + (get_circuit_breaker c r q).cooldown)
          × ((clock n).looked
              < (get_circuit_breaker c r q).last_failure_time
                + (get_circuit_breaker c r q).cooldown))
    → let (r', result) = route c registry call_fn clock r in
      All (λ a. str_eq a.provider q ≡ false) (attempts_of result)
      × (get_circuit_breaker c r' q ≡ get_circuit_breaker c r q)
unfolding route
route_spares c registry call_fn clock r q shut early =
    try_chain-Spares c (Registry.list registry) call_fn clock q (get_circuit_breaker c r q) shut
      early 0 c.fallback_chain [] r refl tt
