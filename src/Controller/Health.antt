-- ===== src/Controller/Health.antt =====
-- bmt_ai_os/controller/health.py, and the health loop of bmt_ai_os/controller/main.py. Times are ticks
-- of `time.time()`. The dicts of a checker, which the constructor fills with the same keys, are one
-- dict of `ServiceHealth`.
pub mod History
pub mod Restarts
use bmt_ai_os.Prelude.{
  ℕ, suc, ◌+◌, ◌-◌, String, Bool, true, false, not, Option, none, some, List, [], ◌∷◌, ◌++◌, ltb,
  leb, ◌==◌, if◌then◌else◌, Result, ok, err, length, drop,
}
use bmt_ai_os.Prelude.Dict
use bmt_ai_os.Prelude.Dict.{Dict}

-- `opened` is OPEN.
pub data CircuitState : Type 0 where
  closed opened half_open : CircuitState

pub record ServiceBreaker : Type 0 where
  pub threshold : ℕ
  pub reset_timeout : ℕ
  pub state : CircuitState
  pub failure_count : ℕ
  pub last_failure_time : ℕ

unfoldable pub record_failure : ℕ → ServiceBreaker → ServiceBreaker
record_failure now b =
    let b' = record b { failure_count = b.failure_count + 1; last_failure_time = now } in
    if leb b.threshold (b.failure_count + 1) then record b' { state = opened } else b'

unfoldable pub record_success : ServiceBreaker → ServiceBreaker
record_success b = record b { failure_count = 0; state = closed }

allow_in : CircuitState → ℕ → ServiceBreaker → ServiceBreaker × Bool
allow_in closed now b = (b, true)
allow_in opened now b =
    if leb (b.last_failure_time + b.reset_timeout) now
    then (record b { state = half_open }, true)
    else (b, false)
allow_in half_open now b = (b, true)

unfoldable pub allow_restart : ℕ → ServiceBreaker → ServiceBreaker × Bool
unfolding allow_in
allow_restart now b = allow_in b.state now b

pub data HealthStatus : Type 0 where
  healthy unhealthy : HealthStatus

pub record HealthResult : Type 0 where
  pub service : String
  pub status : HealthStatus
  pub error : String

-- What the HTTP request gives: a status code with the text `HTTP n`, or an exception with its text.
pub data Response : Type 0 where
  code : ℕ → String → Response
  exception : String → Response

pub record HealthConfig : Type 0 where
  pub max_restarts : ℕ
  pub circuit_breaker_threshold : ℕ
  pub circuit_breaker_reset : ℕ
  pub health_history_size : ℕ

pub record ServiceHealth : Type 0 where
  pub history : List HealthResult
  pub breaker : ServiceBreaker
  pub consecutive_failures : ℕ

-- The state of a service in a new checker.
unfoldable pub new : HealthConfig → ServiceHealth
new c = record {
  history = [];
  breaker = record {
    threshold = c.circuit_breaker_threshold;
    reset_timeout = c.circuit_breaker_reset;
    state = closed;
    failure_count = 0;
    last_failure_time = 0;
  };
  consecutive_failures = 0;
}

-- `append` on a `deque` with `maxlen`.
unfoldable pub append_bounded {ℓ} : {A : Type ℓ} → ℕ → List A → A → List A
append_bounded size xs x = drop (suc (length xs) - size) (xs ++ x ∷ [])

unfoldable pub is_ok : Response → Bool
is_ok (code n text) = n == 200
is_ok (exception text) = false

error_text : Response → String
error_text (code n text) = if n == 200 then "" else text
error_text (exception text) = text

-- `check_service`, once the response is there.
unfoldable pub check_service :
    HealthConfig → String → ℕ → Response → ServiceHealth → ServiceHealth × HealthResult
unfolding is_ok error_text
check_service c name now r s =
    let result : HealthResult = record {
      service = name;
      status = if is_ok r then healthy else unhealthy;
      error = error_text r;
    } in
    let history = append_bounded c.health_history_size s.history result in
    if is_ok r
    then (
      record { history = history; breaker = record_success s.breaker; consecutive_failures = 0 },
      result,
    )
    else (
      record {
        history = history;
        breaker = record_failure now s.breaker;
        consecutive_failures = s.consecutive_failures + 1;
      },
      result,
    )

unfoldable pub needs_restart : HealthConfig → ℕ → ServiceHealth → ServiceHealth × Bool
needs_restart c now s =
    if ltb s.consecutive_failures c.max_restarts
    then (s, false)
    else (let (b, allowed) = allow_restart now s.breaker in (record s { breaker = b }, allowed))

unfoldable pub reset_failures : ServiceHealth → ServiceHealth
reset_failures s = record s { consecutive_failures = 0 }

-- What a service meets in one round of the loop: when it is checked and how it responds, when
-- `allow_restart` reads the clock, and whether `docker compose restart` succeeds.
pub record Round : Type 0 where
  pub checked : ℕ
  pub answer : Response
  pub asked : ℕ
  pub restart_works : Bool

-- The part of the loop that deals with the result of a service. The flag says that a restart was made
-- and succeeded.
handle_result : HealthConfig → Round → HealthStatus → ServiceHealth → ServiceHealth × Bool
handle_result c t healthy s = (s, false)
handle_result c t unhealthy s =
    let (s', wanted) = needs_restart c t.asked s in
    if wanted
    then (if t.restart_works then (reset_failures s', true) else (s', false))
    else (s', false)

-- One round of `_health_loop` for one service.
unfoldable pub round : HealthConfig → String → Round → ServiceHealth → ServiceHealth × Bool
unfolding handle_result
round c name t s =
    let (s', result) = check_service c name t.checked t.answer s in
    handle_result c t result.status s'

-- `check_all`: every service in turn; the results in the same order. A name with no entry is a
-- `KeyError`, which stops the sequence.
unfoldable pub check_all :
    HealthConfig
    → (String → Round)
    → List String
    → Dict ServiceHealth
    → Result String (Dict ServiceHealth × List HealthResult)
check_all c rounds [] d = ok (d, [])
check_all c rounds (name ∷ names) d = elim (Dict.get d name) [
  | none ↦ err name
  | some s ↦
      let (s', result) = check_service c name (rounds name).checked (rounds name).answer s in
      elim (check_all c rounds names (Dict.put d name s')) [
        | err e ↦ err e
        | ok (d', results) ↦ ok (d', result ∷ results)
      ]
]

-- The loop over the results.
unfoldable pub handle_all :
    HealthConfig → (String → Round) → List HealthResult → Dict ServiceHealth → Dict ServiceHealth
unfolding handle_result
handle_all c rounds [] d = d
handle_all c rounds (result ∷ results) d =
    handle_all c rounds results (elim (Dict.get d result.service) [
      | none ↦ d
      | some s ↦
          Dict.put d result.service (handle_result c (rounds result.service) result.status s).0
    ])

-- One round of `_health_loop`: all checks come first, then the restarts.
unfoldable pub health_round :
    HealthConfig
    → (String → Round)
    → List String
    → Dict ServiceHealth
    → Result String (Dict ServiceHealth)
unfolding check_all handle_all
health_round c rounds names d = elim (check_all c rounds names d) [
  | err e ↦ err e
  | ok (d', results) ↦ ok (handle_all c rounds results d')
]
