-- ===== src/Controller/Health/Restarts.antt =====
-- How often the health loop restarts a service that keeps failing.
use bmt_ai_os.Prelude.{
  ℕ, suc, ◌+◌, ◌*◌, ◌≤◌, ◌<◌, ◌≡◌, ◌⊎◌, refl, ap, ◌∙◌, sym, inl, inr, true, false, Bool-cases,
  String, List, [], ◌∷◌, All, if◌then◌else◌, arith,
}
use bmt_ai_os.Controller.Health.{
  HealthConfig, ServiceHealth, ServiceBreaker, Round, closed, opened, is_ok, round, check_service,
  needs_restart, reset_failures, allow_restart, record_failure, handle_result, Response, unhealthy,
}

-- Rounds one after another, and how many of them restart the service.
unfoldable pub run_rounds : HealthConfig → String → List Round → ServiceHealth → ServiceHealth × ℕ
run_rounds c name [] s = (s, 0)
run_rounds c name (t ∷ ts) s =
    let (s', restarted) = round c name t s in
    let (s'', n) = run_rounds c name ts s' in (s'', if restarted then suc n else n)

-- In the round the service fails its check, and the question whether a restart is allowed comes
-- sooner after the check than the reset timeout.
pub record FailsPromptly (timeout : ℕ) (t : Round) : Type 0 where
  pub fails : is_ok t.answer ≡ false
  pub prompt : t.asked < t.checked + timeout

record_failure_clock :
    (now : ℕ) (b : ServiceBreaker)
    → (record_failure now b).last_failure_time + (record_failure now b).reset_timeout
      ≡ now + b.reset_timeout
unfolding record_failure
record_failure_clock now b = ground arith

record_failure_timeout :
    (now : ℕ) (b : ServiceBreaker) → (record_failure now b).reset_timeout ≡ b.reset_timeout
unfolding record_failure
record_failure_timeout now b = ground arith

record_failure_opened :
    (now : ℕ) (b : ServiceBreaker) → b.state ≡ opened → (record_failure now b).state ≡ opened
unfolding record_failure
record_failure_opened now b h = ground (arith, h)

-- The failure that reaches the threshold opens the breaker.
record_failure_opens :
    (now : ℕ) (b : ServiceBreaker)
    → b.threshold ≤ b.failure_count + 1
    → (record_failure now b).state ≡ opened
unfolding record_failure
record_failure_opens now b h = ground (arith, h)

-- An earlier one is counted.
record_failure_counts :
    (now : ℕ) (b : ServiceBreaker)
    → b.failure_count + 1 < b.threshold
    → record_failure now b
      ≡ (record b { failure_count = b.failure_count + 1; last_failure_time = now })
unfolding record_failure
record_failure_counts now b h = ground (arith, h)

module _ (c : HealthConfig) (name : String) where
  -- The service after a failed check.
  check_service-fails :
      (now : ℕ) (r : Response) (s : ServiceHealth)
      → is_ok r ≡ false
      → (check_service c name now r s).0.breaker ≡ record_failure now s.breaker
  unfolding check_service
  check_service-fails now r s f = rw f refl

  check_service_unhealthy :
      (now : ℕ) (r : Response) (s : ServiceHealth)
      → is_ok r ≡ false
      → (check_service c name now r s).1.status ≡ unhealthy
  unfolding check_service
  check_service_unhealthy now r s f = rw f refl

  handle_result-closed :
      (t : Round) (s : ServiceHealth)
      → s.breaker.state ≡ closed
      → (handle_result c t unhealthy s).0.breaker ≡ s.breaker
  unfolding handle_result needs_restart allow_restart reset_failures
  handle_result-closed t s h = ground (arith, h)

  handle_result-opened :
      (t : Round) (s : ServiceHealth)
      → s.breaker.state ≡ opened
      → t.asked < s.breaker.last_failure_time + s.breaker.reset_timeout
      → ((handle_result c t unhealthy s).1 ≡ false)
        × ((handle_result c t unhealthy s).0.breaker ≡ s.breaker)
  unfolding handle_result needs_restart allow_restart reset_failures
  handle_result-opened t s h k = (ground (arith, h, k), ground (arith, h, k))

  round-fails :
      (t : Round) (s : ServiceHealth)
      → is_ok t.answer ≡ false
      → round c name t s ≡ handle_result c t unhealthy (check_service c name t.checked t.answer s).0
  unfolding round
  round-fails t s f =
      ap (λ st. handle_result c t st (check_service c name t.checked t.answer s).0)
        (check_service_unhealthy t.checked t.answer s f)

  -- A failing round leaves the breaker with the failure alone, and does not restart the service if
  -- that opens the breaker.
  round_failure :
      (t : Round) (s : ServiceHealth)
      → FailsPromptly s.breaker.reset_timeout t
      → (record_failure t.checked s.breaker).state ≡ opened
      → ((round c name t s).1 ≡ false)
        × ((round c name t s).0.breaker ≡ record_failure t.checked s.breaker)
  round_failure t s f h =
      let s' = (check_service c name t.checked t.answer s).0 in
      let e = check_service-fails t.checked t.answer s f.fails in
      let b : s'.breaker.state ≡ opened = rw e h in
      let k : t.asked < s'.breaker.last_failure_time + s'.breaker.reset_timeout =
        rw (e, record_failure_clock t.checked s.breaker) f.prompt in
      let (q, same) = handle_result-opened t s' b k in
      (rw (round-fails t s f.fails) q, rw (round-fails t s f.fails) (same ∙ e))

  -- A service whose breaker is open is not restarted in any number of rounds in which its check fails
  -- and `allow_restart` is asked within the reset timeout of that check, and its breaker stays open.
  pub open_never_restarts :
      (ts : List Round) (s : ServiceHealth)
      → All (FailsPromptly s.breaker.reset_timeout) ts
      → s.breaker.state ≡ opened
      → ((run_rounds c name ts s).1 ≡ 0) × ((run_rounds c name ts s).0.breaker.state ≡ opened)
  unfolding run_rounds
  open_never_restarts [] s fs h = (refl, h)
  open_never_restarts (t ∷ ts) s fs h =
      let s' = (round c name t s).0 in
      let o = record_failure_opened t.checked s.breaker h in
      let (quiet, same) = round_failure t s fs.0 o in
      let e : s'.breaker.reset_timeout ≡ s.breaker.reset_timeout =
        rw same (record_failure_timeout t.checked s.breaker) in
      let (n, still) = open_never_restarts ts s' (rw e fs.1) (rw same o) in
      (rw (quiet, n) refl, still)

  handle_result-consecutive :
      (t : Round) (s : ServiceHealth)
      → (((handle_result c t unhealthy s).1 ≡ true)
          × (c.max_restarts ≤ s.consecutive_failures)
          × ((handle_result c t unhealthy s).0.consecutive_failures ≡ 0))
        ⊎ (((handle_result c t unhealthy s).1 ≡ false)
            × ((handle_result c t unhealthy s).0.consecutive_failures ≡ s.consecutive_failures))
  unfolding handle_result needs_restart allow_restart reset_failures
  handle_result-consecutive t s =
      let k : (needs_restart c t.asked s).0.consecutive_failures ≡ s.consecutive_failures =
        ground arith in
      elim (Bool-cases (needs_restart c t.asked s).1) [
        | inl e ↦
            let m : c.max_restarts ≤ s.consecutive_failures = ground (arith, e) in
            elim (Bool-cases t.restart_works) [
              | inl w ↦ inl (rw (e, w) refl, m, rw (e, w) refl)
              | inr w ↦ inr (rw (e, w) refl, rw (e, w) k)
            ]
        | inr e ↦ inr (rw e refl, rw e k)
      ]

  check_service-consecutive :
      (now : ℕ) (r : Response) (s : ServiceHealth)
      → is_ok r ≡ false
      → (check_service c name now r s).0.consecutive_failures ≡ s.consecutive_failures + 1
  unfolding check_service
  check_service-consecutive now r s f = rw f refl

  -- A failing round before the threshold: a restart uses up `max_restarts` failures.
  round_counts :
      (t : Round) (s : ServiceHealth)
      → is_ok t.answer ≡ false
      → s.breaker.state ≡ closed
      → s.breaker.failure_count + 1 < s.breaker.threshold
      → ((round c name t s).0.breaker ≡ record_failure t.checked s.breaker)
        × ((((round c name t s).1 ≡ true)
              × (c.max_restarts ≤ s.consecutive_failures + 1)
              × ((round c name t s).0.consecutive_failures ≡ 0))
            ⊎ (((round c name t s).1 ≡ false)
                × ((round c name t s).0.consecutive_failures ≡ s.consecutive_failures + 1)))
  round_counts t s f h lt =
      let s' = (check_service c name t.checked t.answer s).0 in
      let e = check_service-fails t.checked t.answer s f in
      let k = check_service-consecutive t.checked t.answer s f in
      let b : s'.breaker.state ≡ closed = rw (e, record_failure_counts t.checked s.breaker lt) h in
      (
        rw (round-fails t s f) (handle_result-closed t s' b ∙ e),
        rw (round-fails t s f, sym k) (handle_result-consecutive t s'),
      )

  -- In any number of rounds in which the check of a service fails and `allow_restart` is asked within
  -- the reset timeout of that check, from a closed breaker with fewer failures than the threshold,
  -- `max_restarts` times the restarts plus those failures stays below the threshold plus the
  -- consecutive failures of before: with no failures, a threshold of 5 and `max_restarts` 3 at most one.
  pub restarts_bounded :
      (ts : List Round) (s : ServiceHealth)
      → All (FailsPromptly s.breaker.reset_timeout) ts
      → s.breaker.state ≡ closed
      → s.breaker.failure_count < s.breaker.threshold
      → (run_rounds c name ts s).1 * c.max_restarts + s.breaker.failure_count
        < s.consecutive_failures + s.breaker.threshold
  unfolding run_rounds
  restarts_bounded [] s fs h lt = omega arith
  restarts_bounded (t ∷ ts) s fs h lt =
      let s' = (round c name t s).0 in
      let n = (run_rounds c name ts s').1 in
      let reached : (s.breaker.failure_count + 1 < s.breaker.threshold)
          ⊎ (s.breaker.threshold ≤ s.breaker.failure_count + 1) =
        omega arith in
      elim reached [
        | inr le ↦
            let o = record_failure_opens t.checked s.breaker le in
            let (quiet, same) = round_failure t s fs.0 o in
            let e : s'.breaker.reset_timeout ≡ s.breaker.reset_timeout =
              rw same (record_failure_timeout t.checked s.breaker) in
            let (never, still) = open_never_restarts ts s' (rw e fs.1) (rw same o) in
            rw (quiet, never) (omega arith)
        | inl lt' ↦
            let (same, restarted) = round_counts t s fs.0.fails h lt' in
            let e = same ∙ record_failure_counts t.checked s.breaker lt' in
            let counted : s'.breaker.failure_count ≡ s.breaker.failure_count + 1 =
              ap ServiceBreaker.failure_count e in
            let kept : s'.breaker.threshold ≡ s.breaker.threshold = ap ServiceBreaker.threshold e in
            let lt'' : s'.breaker.failure_count < s'.breaker.threshold =
              omega (arith, counted, kept, lt') in
            let rest = restarts_bounded ts s' (rw e fs.1) (rw e h) lt'' in
            elim restarted [
              | inl (made, enough, reset) ↦
                  rw made (omega (arith, reset, enough, rest, counted, kept))
              | inr (unmade, more) ↦ rw unmade (omega (arith, more, rest, counted, kept))
            ]
      ]
