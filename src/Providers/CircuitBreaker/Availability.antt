-- ===== src/Providers/CircuitBreaker/Availability.antt =====
-- When a breaker lets a request through.
use bmt_ai_os.Prelude.{ℕ, ◌+◌, ◌≤◌, ◌<◌, ◌≡◌, ◌⊎◌, ◌↔◌, true, leb, if◌then◌else◌, arith}
use bmt_ai_os.Providers.CircuitBreaker.{
  CircuitBreaker, closed, opened, half_open, is_available, record_failure,
}

-- The three ways in which a breaker is available at a time.
abbrev pub Admits : ℕ → CircuitBreaker → Type 0
Admits now b =
    (b.state ≡ closed)
    ⊎ ((b.state ≡ half_open) × (b.half_open_attempts < b.half_open_max_requests))
    ⊎ ((b.state ≡ opened)
        × (b.last_failure_time + b.cooldown ≤ now)
        × (0 < b.half_open_max_requests))

-- A request is let through exactly when the breaker is closed, or is half-open with attempts left,
-- or is open with its cooldown elapsed and at least one attempt allowed.
pub is_available_iff :
    (now : ℕ) (b : CircuitBreaker) → ((is_available now b).1 ≡ true) ↔ Admits now b
unfolding is_available
is_available_iff now b = (λ h. ground arith, λ h. ground arith)

-- After the failure at time `t` that opens a breaker with at least one half-open attempt allowed, a
-- request at any time `now` is let through exactly from `t + cooldown` on; it then leaves the breaker
-- half-open, and before that time it leaves it open.
pub opened_for_cooldown :
    (t now : ℕ) (b : CircuitBreaker)
    → (record_failure t b).state ≡ opened
    → 0 < b.half_open_max_requests
    → ((is_available now (record_failure t b)).1 ≡ leb (t + b.cooldown) now)
      × ((is_available now (record_failure t b)).0.state
          ≡ (if leb (t + b.cooldown) now then half_open else opened))
unfolding is_available record_failure
opened_for_cooldown t now b h m = (ground arith, ground arith)
