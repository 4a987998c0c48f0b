-- ===== src/Providers/Router/Chain.antt =====
-- The loop over the chain follows a relation that says what fallback means.
use bmt_ai_os.Prelude.{
  ℕ, suc, ◌-◌, ◌≡◌, ◌⊎◌, refl, inl, inr, String, true, false, Option, none, some, List, [], ◌∷◌,
  ◌++◌, Result, ok, err,
}
use mathlib.Core.List.{append_assoc, append-nil}
use bmt_ai_os.Providers.CircuitBreaker.{CircuitBreaker}
use bmt_ai_os.Providers.Registry
use bmt_ai_os.Providers.Registry.{ProviderRegistry}
use bmt_ai_os.Providers.Config.{ProvidersConfig, ProviderSettings}
use bmt_ai_os.Providers.Router.{
  Outcome, response, raised, Moments, ProviderAttempt, RoutingResult, ProviderRouter, served,
  failed, visit, settle, try_chain, route,
}
use bmt_ai_os.Providers.Router.Visits.{IsEligible, IsSkipped, visit-cases}

Outcome-cases :
    {R : Type 0} (o : Outcome R) → ((v : R) × (o ≡ response v)) ⊎ ((m : String) × (o ≡ raised m))
Outcome-cases (response v) = inl (v, refl)
Outcome-cases (raised m) = inr (m, refl)

-- The result of the loop for attempts made and an answer.
abbrev pub reported :
    {R : Type 0}
    → List ProviderAttempt
    → Option (R × String)
    → Result (List ProviderAttempt) (RoutingResult R)
reported tries none = err tries
reported tries (some (v, name)) = ok (record { value = v; provider_name = name; attempts = tries })

module _ {R : Type 0} (c : ProvidersConfig) (registered : List String)
    (call_fn : ℕ → String → ℕ → Outcome R) (clock : ℕ → Moments) where
  abbrev after : ℕ → String → ProviderRouter → ProviderRouter
  after n name r = (visit c registered (call_fn n) (clock n) name r).0

  abbrev latency_at : ℕ → ℕ
  latency_at n = (clock n).finished - (clock n).started

  -- `Tries r n names attempts answer`: from position `n` on, in the state `r`, the names left are gone
  -- through in order. A name is passed over for a reason; an eligible one is called, and the walk ends
  -- at the first that answers.
  pub data Tries
      : ProviderRouter → ℕ → List String → List ProviderAttempt → Option (R × String) → Type 0 where
    exhausted : {r : ProviderRouter} {n : ℕ} → Tries r n [] [] none
    passed :
        {r : ProviderRouter} {n : ℕ} {name : String} {names : List String}
        {tries : List ProviderAttempt} {o : Option (R × String)}
        → IsSkipped c registered (clock n).asked r name
        → Tries (after n name r) (suc n) names tries o
        → Tries r n (name ∷ names) tries o
    fell_back :
        {r : ProviderRouter} {n : ℕ} {name : String} {names : List String}
        {tries : List ProviderAttempt} {o : Option (R × String)} (s : ProviderSettings) (m : String)
        → IsEligible c registered name s
        → call_fn n name s.timeout ≡ raised m
        → Tries (after n name r) (suc n) names tries o
        → Tries r n
            (name ∷ names)
            (record { provider = name; success = false; latency = latency_at n; error = some m }
              ∷ tries)
            o
    answered :
        {r : ProviderRouter} {n : ℕ} {name : String} {names : List String} (s : ProviderSettings)
        (v : R)
        → IsEligible c registered name s
        → call_fn n name s.timeout ≡ response v
        → Tries r n
            (name ∷ names)
            (record { provider = name; success = true; latency = latency_at n; error = none } ∷ [])
            (some (v, name))

  -- What an eligible name's step gives, by the outcome of its call.
  pub visit-served :
      (n : ℕ) (name : String) (r : ProviderRouter) (s : ProviderSettings) (b : CircuitBreaker)
      (v : R)
      → visit c registered (call_fn n) (clock n) name r
        ≡ settle c registered name (clock n) b (call_fn n name s.timeout) r
      → call_fn n name s.timeout ≡ response v
      → (visit c registered (call_fn n) (clock n) name r).1
        ≡ served v
            (record { provider = name; success = true; latency = latency_at n; error = none })
  unfolding settle
  visit-served n name r s b v e o = rw (e, o, settle)

  visit-failed :
      (n : ℕ) (name : String) (r : ProviderRouter) (s : ProviderSettings) (b : CircuitBreaker)
      (m : String)
      → visit c registered (call_fn n) (clock n) name r
        ≡ settle c registered name (clock n) b (call_fn n name s.timeout) r
      → call_fn n name s.timeout ≡ raised m
      → (visit c registered (call_fn n) (clock n) name r).1
        ≡ failed
            (record { provider = name; success = false; latency = latency_at n; error = some m })
  unfolding settle
  visit-failed n name r s b m e o = rw (e, o, settle)

  try_chain-Tries :
      (n : ℕ) (names : List String) (before : List ProviderAttempt) (r : ProviderRouter)
      → (tries : List ProviderAttempt) × (o : Option (R × String)) × Tries r n names tries o
        × ((try_chain c registered call_fn clock n names before r).1 ≡ reported (before ++ tries) o)
  unfolding try_chain
  try_chain-Tries n [] before r = ([], none, exhausted, rw (append-nil before))
  try_chain-Tries n (name ∷ names) before r =
      elim (visit-cases c registered (call_fn n) (clock n) name r) [
        | inl (e, m, bs, why) ↦
            let (tries, o, d, q) = try_chain-Tries (suc n) names before (after n name r) in
            (tries, o, passed why d, rw (e, try_chain) q)
        | inr (s, el, adm, e) ↦ elim (Outcome-cases (call_fn n name s.timeout)) [
          | inl (v, a) ↦ (
            record { provider = name; success = true; latency = latency_at n; error = none } ∷ [],
            some (v, name),
            answered s v el a,
            rw (visit-served n name r s _ v e a, try_chain),
          )
          | inr (m, a) ↦
              let f : ProviderAttempt = record {
                provider = name;
                success = false;
                latency = latency_at n;
                error = some m;
              } in
              let (tries, o, d, q) =
                try_chain-Tries (suc n) names (before ++ f ∷ []) (after n name r) in
              (
                f ∷ tries,
                o,
                fell_back s m el a d,
                rw (visit-failed n name r s _ m e a, try_chain)
                    (rw (append_assoc before (f ∷ []) tries) at q),
              )
        ]
      ]

-- A request that goes through the router walks the fallback chain in order, for any registry, calls,
-- clock and state of the breakers. A name is passed over only if it is not registered, has no settings,
-- is disabled or has a breaker that refuses; any other is called with its own timeout; the walk ends at
-- the first call that answers. The result holds that answer and its provider's name, or, if no call
-- answers, the error; both list exactly the calls made, in order, with what became of each.
pub route-Tries {ℓ} :
    {P : Type ℓ} {R : Type 0} (c : ProvidersConfig) (registry : ProviderRegistry P)
    (call_fn : ℕ → String → ℕ → Outcome R) (clock : ℕ → Moments) (r : ProviderRouter)
    → (tries : List ProviderAttempt) × (answer : Option (R × String)) × Tries c
        (Registry.list registry)
        call_fn
        clock
        r
        0
        c.fallback_chain
        tries
        answer
      × ((route c registry call_fn clock r).1 ≡ reported tries answer)
unfolding route
route-Tries c registry call_fn clock r =
    try_chain-Tries c (Registry.list registry) call_fn clock 0 c.fallback_chain [] r
