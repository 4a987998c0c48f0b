-- ===== src/Controller/Tests.antt =====
-- The controller on concrete inputs: a limiter of two requests in ten ticks.
use bmt_ai_os.Prelude.{
  ℕ, ◌+◌, ◌*◌, true, All, ◌≤◌, ◌<◌, ◌≡◌, refl, List, [], ◌∷◌, arith, str_eq, Bool-cases, inl, inr,
}
use bmt_ai_os.Prelude.Dict
use bmt_ai_os.Prelude.Dict.{contains}
use bmt_ai_os.Controller.Health
use bmt_ai_os.Controller.Health.{
  HealthConfig, Round, ServiceHealth, Response, code, exception, opened, closed, is_ok, round,
  check_service, needs_restart, allow_restart,
}
use bmt_ai_os.Controller.Health.Restarts.{
  run_rounds, FailsPromptly, open_never_restarts, restarts_bounded,
}
use bmt_ai_os.Controller.RateLimit.{RateLimiter, new, evict, bucket_of, check}
use bmt_ai_os.Controller.RateLimit.Window.{Request, allowed_times, count_in, sliding_window}
use bmt_ai_os.Controller.RateLimit.Sorted.{IsOrderly}

abbrev limiter : RateLimiter
limiter = record { limit = 2; window_seconds = 10; buckets = [] }

abbrev used : RateLimiter
used = record limiter { buckets = ("ip", 4 ∷ 9 ∷ []) ∷ [] }

abbrev at : ℕ → Request
at now = record { now = now; wall = 1000 + now; key = "ip" }

abbrev requests : List Request
requests = at 4 ∷ at 9 ∷ at 12 ∷ at 14 ∷ []

-- The third request is refused, the fourth comes when the first has left the window.
third_is_refused : allowed_times "ip" requests limiter ≡ 4 ∷ 9 ∷ 14 ∷ []
unfolding allowed_times check bucket_of evict Dict.get Dict.put
third_is_refused = refl

sliding_window_example : count_in 10 13 (allowed_times "ip" requests limiter) ≤ 2
sliding_window_example =
    sliding_window 2 10 limiter 0 requests "ip" 13 (unfold new in refl) (omega arith)

used-IsOrderly : (now : ℕ) → 9 ≤ now → IsOrderly now used
unfolding bucket_of Dict.get Dict.keys contains
used-IsOrderly now h = record {
  distinct = (refl, tt);
  sorted = λ k. elim (Bool-cases (str_eq "ip" k)) [
    | inl e ↦ rw (e, bucket_of) (omega arith)
    | inr e ↦ rw (e, bucket_of) tt
  ];
}

abbrev settings : HealthConfig
settings = record {
  max_restarts = 3;
  circuit_breaker_threshold = 5;
  circuit_breaker_reset = 300;
  health_history_size = 2;
}

abbrev failing : ℕ → Round
failing now = record {
  checked = now;
  answer = code 500 "HTTP 500";
  asked = now + 1;
  restart_works = true;
}

abbrev three_rounds : List Round
three_rounds = failing 30 ∷ failing 60 ∷ failing 90 ∷ []

-- A service of a new checker.
abbrev untouched : ServiceHealth
untouched = record {
  history = [];
  breaker = record {
    threshold = 5;
    reset_timeout = 300;
    state = closed;
    failure_count = 0;
    last_failure_time = 0;
  };
  consecutive_failures = 0;
}

abbrev given_up : ServiceHealth
given_up = record untouched {
  breaker = record untouched.breaker { state = opened; failure_count = 5; last_failure_time = 20 };
}

-- The third failure restarts the service.
third_restarts : (run_rounds settings "web" three_rounds untouched).1 ≡ 1
unfolding run_rounds round check_service needs_restart allow_restart Health.record_failure
third_restarts = refl

failing-FailsPromptly : (now : ℕ) → FailsPromptly 300 (failing now)
failing-FailsPromptly now = record { fails = unfold is_ok in refl; prompt = omega arith }

three_rounds_fail : All (FailsPromptly 300) three_rounds
three_rounds_fail =
    (failing-FailsPromptly 30, (failing-FailsPromptly 60, (failing-FailsPromptly 90, tt)))

restarts_bounded_example : (run_rounds settings "web" three_rounds untouched).1 * 3 + 0 < 0 + 5
restarts_bounded_example =
    restarts_bounded settings "web" three_rounds untouched three_rounds_fail refl (omega arith)

open_never_restarts_example :
    ((run_rounds settings "web" three_rounds given_up).1 ≡ 0)
    × ((run_rounds settings "web" three_rounds given_up).0.breaker.state ≡ opened)
open_never_restarts_example =
    open_never_restarts settings "web" three_rounds given_up three_rounds_fail refl

abbrev answers : List (ℕ × Response)
answers = (30, code 200 "") ∷ (60, code 503 "HTTP 503") ∷ (90, exception "refused") ∷ []
