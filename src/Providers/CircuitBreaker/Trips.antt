-- ===== src/Providers/CircuitBreaker/Trips.antt =====
-- When failures open a breaker.
use bmt_ai_os.Prelude.{
  ℕ, suc, ◌+◌, ◌<◌, ◌≡◌, List, [], ◌∷◌, map, leb, le→leb, Bool-cases, length, inl, inr,
  if◌then◌else◌, arith,
}
use bmt_ai_os.Providers.CircuitBreaker.{
  CircuitBreaker, closed, opened, fail, step, run, record_failure,
}

-- A failure never closes an open breaker.
run-opened :
    (ts : List ℕ) (b : CircuitBreaker) → b.state ≡ opened → (run (map fail ts) b).state ≡ opened
unfolding run step
run-opened [] b h = h
run-opened (t ∷ ts) b h = run-opened ts (record_failure t b) (unfold record_failure in ground arith)

failure_count-record_failure :
    (t : ℕ) (b : CircuitBreaker) → (record_failure t b).failure_count ≡ b.failure_count + 1
unfolding record_failure
failure_count-record_failure t b = ground arith

failure_threshold-record_failure :
    (t : ℕ) (b : CircuitBreaker) → (record_failure t b).failure_threshold ≡ b.failure_threshold
unfolding record_failure
failure_threshold-record_failure t b = ground arith

-- A closed breaker whose count is below its threshold is open after further consecutive failures if
-- the count with them has reached the threshold, and closed otherwise.
pub consecutive_failures :
    (ts : List ℕ) (b : CircuitBreaker)
    → b.state ≡ closed
    → b.failure_count < b.failure_threshold
    → (run (map fail ts) b).state
      ≡ (if leb b.failure_threshold (b.failure_count + length ts) then opened else closed)
unfolding run step
consecutive_failures [] b c lt = ground arith
consecutive_failures (t ∷ ts) b c lt =
    elim (Bool-cases (leb b.failure_threshold (b.failure_count + 1))) [
      | inl reached ↦
          rw (le→leb b.failure_threshold (b.failure_count + suc (length ts)) (ground arith))
            (run-opened ts (record_failure t b) (unfold record_failure in ground arith))
      | inr below ↦
          let h =
            consecutive_failures ts (record_failure t b) (unfold record_failure in ground arith)
              (unfold record_failure in ground arith) in
          ground (arith, h, failure_count-record_failure t b, failure_threshold-record_failure t b)
    ]
