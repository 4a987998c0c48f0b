-- ===== src/Providers/CircuitBreaker/Traces.antt =====
-- What holds of a breaker after any calls of its methods, in any order and at any times. Coroutines
-- that share a breaker produce such sequences.
use bmt_ai_os.Prelude.{ℕ, ◌+◌, refl, ap, ◌∙◌, ◌≤◌, ◌<◌, ◌≡◌, ◌↔◌, false, List, [], ◌∷◌, All, arith}
use bmt_ai_os.Providers.CircuitBreaker.{
  CircuitBreaker, Call, closed, half_open, ask, succeed, fail, probe, restart, new, step, run,
  is_available,
}

-- The state is CLOSED exactly while the count of failures is below the threshold.
record IsSound (b : CircuitBreaker) : Type 0 where
  threshold_pos : 0 < b.failure_threshold
  closed_below : b.state ≡ closed → b.failure_count < b.failure_threshold
  below_closed : b.failure_count < b.failure_threshold → b.state ≡ closed

step-IsSound : (c : Call) (b : CircuitBreaker) → IsSound b → IsSound (step c b)
unfolding step
step-IsSound (ask t) b h = ground arith
step-IsSound _ b h = ground arith

run-IsSound : (cs : List Call) (b : CircuitBreaker) → IsSound b → IsSound (run cs b)
unfolding run
run-IsSound [] b h = h
run-IsSound (c ∷ cs) b h = run-IsSound cs (step c b) (step-IsSound c b h)

-- The failures since the last success or reset, after one more call.
pub tally : Call → ℕ → ℕ
tally (ask t) n = n
tally succeed n = 0
tally (fail t) n = n + 1
tally probe n = n
tally restart n = 0

-- And after calls, with `n` before them.
pub failures : List Call → ℕ → ℕ
failures [] n = n
failures (c ∷ cs) n = failures cs (tally c n)

step-tally :
    (c : Call) (b : CircuitBreaker)
    → ((step c b).failure_count ≡ tally c b.failure_count)
      × ((step c b).failure_threshold ≡ b.failure_threshold)
unfolding step tally
step-tally (ask t) b = (ground arith, ground arith)
step-tally succeed b = (refl, refl)
step-tally (fail t) b = (ground arith, ground arith)
step-tally probe b = (refl, refl)
step-tally restart b = (refl, refl)

run-failures :
    (cs : List Call) (b : CircuitBreaker)
    → ((run cs b).failure_count ≡ failures cs b.failure_count)
      × ((run cs b).failure_threshold ≡ b.failure_threshold)
unfolding run failures
run-failures [] b = (refl, refl)
run-failures (c ∷ cs) b =
    let ih = run-failures cs (step c b) in
    let s = step-tally c b in (ih.0 ∙ ap (failures cs) s.0, ih.1 ∙ s.1)

-- After any calls on a new breaker with a positive threshold, it is closed exactly when there were fewer failures
-- since the last success or reset than the threshold.
pub run-closed_iff :
    (cs : List Call) (threshold cooldown most : ℕ)
    → 0 < threshold
    → ((run cs (new threshold cooldown most)).state ≡ closed) ↔ (failures cs 0 < threshold)
run-closed_iff cs threshold cooldown most h =
    let s = run-IsSound cs (new threshold cooldown most) (unfold new in ground arith) in
    let (count, limit) = run-failures cs (new threshold cooldown most) in
    unfold new in
    (
      λ k. omega (arith, count, limit, s.closed_below k),
      λ k. s.below_closed (omega (arith, count, limit, k)),
    )

-- The calls that report no outcome.
abbrev pub IsSilent : Call → Type 0
IsSilent (ask t) = Unit {0}
IsSilent probe = Unit {0}
IsSilent _ = ⊥

abbrev IsSpent : CircuitBreaker → Type 0
IsSpent b = (b.state ≡ half_open) × (b.half_open_max_requests ≤ b.half_open_attempts)

step-IsSpent : (c : Call) (b : CircuitBreaker) → IsSilent c → IsSpent b → IsSpent (step c b)
unfolding step
step-IsSpent (ask t) b q h = ground arith
step-IsSpent probe b q h = ground arith
step-IsSpent _ b q h = absurd q

-- A half-open breaker whose attempts are used up refuses every request, however late, as long as no
-- call reports a success or a failure or resets it: the cooldown does not apply to it.
pub spent_probe_blocks :
    (cs : List Call) (now : ℕ) (b : CircuitBreaker)
    → All IsSilent cs
    → b.state ≡ half_open
    → b.half_open_max_requests ≤ b.half_open_attempts
    → (is_available now (run cs b)).1 ≡ false
unfolding run
spent_probe_blocks [] now b q s m = unfold is_available in ground arith
spent_probe_blocks (c ∷ cs) now b q s m =
    let h = step-IsSpent c b q.0 (s, m) in spent_probe_blocks cs now (step c b) q.1 h.0 h.1
