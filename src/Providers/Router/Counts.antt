-- ===== src/Providers/Router/Counts.antt =====
-- The metrics count exactly the attempts that a request reports.
use mathlib.Core.List.{append_assoc, append-nil}
use bmt_ai_os.Prelude.{
  ℕ, suc, ◌+◌, ◌≡◌, ◌⊎◌, refl, inl, inr, String, Bool, true, false, List, [], ◌∷◌, ◌++◌, str_eq,
  str_eq_iff, ◌-◌, sym, if◌then◌else◌, Result, ok, err, arith,
}
use bmt_ai_os.Providers.Registry
use bmt_ai_os.Providers.Registry.{ProviderRegistry}
use bmt_ai_os.Providers.Config.{ProvidersConfig}
use bmt_ai_os.Providers.Metrics.{ProviderStats, stats_of}
use bmt_ai_os.Providers.Metrics.Balance.{stats_of-record_success, stats_of-record_failure}
use bmt_ai_os.Providers.CircuitBreaker.{CircuitBreaker}
use bmt_ai_os.Providers.Router.{
  Outcome, response, raised, Moments, ProviderAttempt, RoutingResult, ProviderRouter, Visit,
  skipped, served, failed, visit, settle, try_chain, route,
}
use bmt_ai_os.Providers.Router.Visits.{visit-cases}

-- The attempts at a provider that succeeded, or that failed.
pub count_attempts : String → Bool → List ProviderAttempt → ℕ
count_attempts p success [] = 0
count_attempts p success (a ∷ rest) =
    let n = count_attempts p success rest in
    if str_eq a.provider p
    then (if a.success then (if success then suc n else n) else (if success then n else suc n))
    else n

abbrev pub attempts_of :
    {R : Type 0} → Result (List ProviderAttempt) (RoutingResult R) → List ProviderAttempt
attempts_of (ok res) = res.attempts
attempts_of (err tries) = tries

abbrev pub visit_attempts : {R : Type 0} → Visit R → List ProviderAttempt
visit_attempts skipped = []
visit_attempts (served v a) = a ∷ []
visit_attempts (failed a) = a ∷ []

count-append :
    (p : String) (success : Bool) (xs ys : List ProviderAttempt)
    → count_attempts p success (xs ++ ys)
      ≡ count_attempts p success xs + count_attempts p success ys
unfolding count_attempts
count-append p success [] ys = omega arith
count-append p success (x ∷ xs) ys = ground (arith, count-append p success xs ys)

-- What the statistics of a provider gain from the attempts `tries`.
pub record Gains (p : String) (before now : ProviderStats) (tries : List ProviderAttempt)
    : Type 0 where
  pub on_success : now.successes ≡ before.successes + count_attempts p true tries
  pub on_failure : now.failures ≡ before.failures + count_attempts p false tries
  pub on_total :
      now.total_requests
      ≡ before.total_requests + count_attempts p true tries + count_attempts p false tries

Gains-trans :
    (p : String) (x y z : ProviderStats) (xs ys : List ProviderAttempt)
    → Gains p x y xs
    → Gains p y z ys
    → Gains p x z (xs ++ ys)
Gains-trans p x y z xs ys g h =
    omega (arith, count-append p true xs ys, count-append p false xs ys, g, h)

pub Visit-split :
    {R : Type 0} (v : Visit R)
    → (v ≡ skipped)
      ⊎ ((w : R) × (a : ProviderAttempt) × (v ≡ served w a))
      ⊎ ((a : ProviderAttempt) × (v ≡ failed a))
Visit-split skipped = inl refl
Visit-split (served w a) = inr (inl (w, a, refl))
Visit-split (failed a) = inr (inr (a, refl))

module _ (p : String) {R : Type 0} (c : ProvidersConfig) (registered : List String) where
  settle-Gains :
      (name : String) (t : Moments) (b : CircuitBreaker) (o : Outcome R) (r : ProviderRouter)
      → let (r', v) = settle c registered name t b o r in
        Gains p (stats_of r.metrics p) (stats_of r'.metrics p) (visit_attempts v)
  unfolding settle count_attempts
  settle-Gains name t b (response v) r = ground (
    arith,
    stats_of-record_success name p t.measured r.metrics (t.finished - t.started),
    str_eq_iff name p,
  )
  settle-Gains name t b (raised m) r =
      ground (arith, stats_of-record_failure name p t.measured r.metrics, str_eq_iff name p)

  visit-Gains :
      (call_fn : String → ℕ → Outcome R) (t : Moments) (name : String) (r : ProviderRouter)
      → let (r', v) = visit c registered call_fn t name r in
        Gains p (stats_of r.metrics p) (stats_of r'.metrics p) (visit_attempts v)
  visit-Gains call_fn t name r = elim (visit-cases c registered call_fn t name r) [
    | inl (e, m, bs, why) ↦ rw (e, m) (unfold count_attempts in omega arith)
    | inr (s, el, adm, e) ↦ rw e (settle-Gains name t _ (call_fn name s.timeout) r)
  ]

  module _ (call_fn : ℕ → String → ℕ → Outcome R) (clock : ℕ → Moments) where
    try_chain-Gains :
        (n : ℕ) (names : List String) (before : List ProviderAttempt) (r : ProviderRouter)
        → let (r', result) = try_chain c registered call_fn clock n names before r in
          (tries : List ProviderAttempt) × (attempts_of result ≡ before ++ tries)
          × Gains p (stats_of r.metrics p) (stats_of r'.metrics p) tries
    unfolding try_chain
    try_chain-Gains n [] before r =
        ([], sym (append-nil before), unfold count_attempts in omega arith)
    try_chain-Gains n (name ∷ names) before r =
        let (r', v) = visit c registered (call_fn n) (clock n) name r in
        let g = visit-Gains (call_fn n) (clock n) name r in
        elim (Visit-split v) [
          | inl e ↦
              let (tries, q, h) = try_chain-Gains (suc n) names before r' in
              (
                tries,
                rw (e, try_chain) q,
                rw (e, try_chain)
                    (Gains-trans p (stats_of r.metrics p) (stats_of r'.metrics p) _ [] tries
                      (rw e at g) h),
              )
          | inr (inl (w, a, e)) ↦ (a ∷ [], rw (e, try_chain), rw (e, try_chain) (rw e at g))
          | inr (inr (a, e)) ↦
              let (tries, q, h) = try_chain-Gains (suc n) names (before ++ a ∷ []) r' in
              (
                a ∷ tries,
                rw (e, try_chain) (rw (append_assoc before (a ∷ []) tries) at q),
                rw (e, try_chain)
                    (Gains-trans p (stats_of r.metrics p) (stats_of r'.metrics p) _ (a ∷ []) tries
                      (rw e at g) h),
              )
        ]

-- For every provider, a request adds to its successes, failures and total in the metrics exactly the
-- successful attempts, the failed attempts and all attempts at it that the result or the error lists.
pub route-counts {ℓ} :
    {P : Type ℓ} {R : Type 0} (c : ProvidersConfig) (registry : ProviderRegistry P)
    (call_fn : ℕ → String → ℕ → Outcome R) (clock : ℕ → Moments) (r : ProviderRouter) (p : String)
    → let (r', result) = route c registry call_fn clock r in
      Gains p (stats_of r.metrics p) (stats_of r'.metrics p) (attempts_of result)
unfolding route
route-counts c registry call_fn clock r p =
    let (tries, q, g) =
      try_chain-Gains p c (Registry.list registry) call_fn clock 0 c.fallback_chain [] r in
    rw q g
