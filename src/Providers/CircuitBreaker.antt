-- ===== src/Providers/CircuitBreaker.antt =====
-- bmt_ai_os/providers/circuit_breaker.py. Times are ticks of the monotonic clock, read by the
-- caller and passed in; the asyncio lock makes each method one atomic step.
pub mod Availability
pub mod Trips
pub mod Traces
use bmt_ai_os.Prelude.{ℕ, ◌+◌, Bool, true, false, List, [], ◌∷◌, ltb, leb, if◌then◌else◌}

-- `CircuitState`; `opened` is OPEN.
pub data CircuitState : Type 0 where
  closed opened half_open : CircuitState

pub record CircuitBreaker : Type 0 where
  pub failure_threshold : ℕ
  pub cooldown : ℕ
  pub half_open_max_requests : ℕ
  pub state : CircuitState
  pub failure_count : ℕ
  pub last_failure_time : ℕ
  pub half_open_attempts : ℕ

-- The constructor: the internal fields take their defaults.
unfoldable pub new : ℕ → ℕ → ℕ → CircuitBreaker
new threshold cooldown most = record {
  failure_threshold = threshold;
  cooldown = cooldown;
  half_open_max_requests = most;
  state = closed;
  failure_count = 0;
  last_failure_time = 0;
  half_open_attempts = 0;
}

refresh : CircuitState → ℕ → CircuitBreaker → CircuitBreaker
refresh opened now b =
    if leb (b.last_failure_time + b.cooldown) now
    then record b { state = half_open; half_open_attempts = 0 }
    else b
refresh _ now b = b

-- The property `state`: reading it moves OPEN to HALF_OPEN once the cooldown has elapsed. The state
-- read is the field of the breaker returned.
unfoldable pub read_state : ℕ → CircuitBreaker → CircuitBreaker
unfolding refresh
read_state now b = refresh b.state now b

admits : CircuitState → CircuitBreaker → Bool
admits closed b = true
admits half_open b = ltb b.half_open_attempts b.half_open_max_requests
admits opened b = false

unfoldable pub is_available : ℕ → CircuitBreaker → CircuitBreaker × Bool
unfolding read_state admits
is_available now b = let b' = read_state now b in (b', admits b'.state b')

unfoldable pub record_success : CircuitBreaker → CircuitBreaker
record_success b = record b { failure_count = 0; half_open_attempts = 0; state = closed }

-- What `record_failure` does once the failure is counted, by the state that it meets.
trip : CircuitState → CircuitBreaker → CircuitBreaker
trip half_open b = record b { state = opened }
trip _ b = if leb b.failure_threshold b.failure_count then record b { state = opened } else b

unfoldable pub record_failure : ℕ → CircuitBreaker → CircuitBreaker
unfolding trip
record_failure now b =
    trip b.state (record b { failure_count = b.failure_count + 1; last_failure_time = now })

unfoldable pub record_half_open_attempt : CircuitBreaker → CircuitBreaker
record_half_open_attempt b = record b { half_open_attempts = b.half_open_attempts + 1 }

unfoldable pub reset : CircuitBreaker → CircuitBreaker
reset b = record b {
  state = closed;
  failure_count = 0;
  last_failure_time = 0;
  half_open_attempts = 0;
}

-- One call of a method of the breaker. Coroutines that share a breaker interleave such calls.
pub data Call : Type 0 where
  ask : ℕ → Call
  succeed : Call
  fail : ℕ → Call
  probe : Call
  restart : Call

unfoldable pub step : Call → CircuitBreaker → CircuitBreaker
unfolding is_available record_success record_failure record_half_open_attempt reset
step (ask now) b = (is_available now b).0
step succeed b = record_success b
step (fail now) b = record_failure now b
step probe b = record_half_open_attempt b
step restart b = reset b

unfoldable pub run : List Call → CircuitBreaker → CircuitBreaker
run [] b = b
run (c ∷ cs) b = run cs (step c b)
