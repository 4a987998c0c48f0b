-- ===== src/Controller/RateLimit/Dependency/Tests.antt =====
-- Settings of two requests in ten seconds, and clients behind a proxy.
use Prim.Native.String as Str
use bmt_ai_os.Prelude.{
  ℕ, ◌≤◌, ◌≡◌, refl, String, true, false, Option, none, some, [], ◌∷◌, All, str_eq, if◌then◌else◌,
  ok, arith,
}
use bmt_ai_os.Prelude.Dict.{get}
use bmt_ai_os.Prelude.Texts.{ℤ, pos, split_on}
use bmt_ai_os.Controller.RateLimit.{RateLimiter, bucket_of, evict, check}
use bmt_ai_os.Controller.RateLimit.Window.{count_in}
use bmt_ai_os.Controller.RateLimit.Dependency.{
  Arrival, is_passed, client_ip, call, parse_rate, build_limiter,
}
use bmt_ai_os.Controller.RateLimit.Dependency.Service.{
  passed_times, served_within_rate, retry_after_is_early,
}
use bmt_ai_os.Controller.RateLimit.Dependency.Addresses.{answers, answers_to_new_addresses}

abbrev strip : String → String
strip text = text

abbrev to_int : String → Option ℤ
to_int text =
    if str_eq text "2" then some (pos 2) else if str_eq text "10" then some (pos 10) else none

abbrev from_address : String → ℕ → Arrival
from_address address now = record {
  now = now;
  wall = now;
  wall_after = now;
  forwarded_for = some (Str.◌++◌ address ",10.0.0.1");
  client = some "10.0.0.1";
}

split_two : split_on 58 "2:10" ≡ "2" ∷ "10" ∷ []
unfolding split_on
split_two = refl

client_first : client_ip strip (from_address "1.2.3.4" 0) ≡ "1.2.3.4"
unfolding client_ip
client_first = refl

served_within_rate_example :
    (l : RateLimiter) × (build_limiter strip to_int (some "two") "2:10" ≡ some (ok l))
    × (count_in l.window_seconds 70 (
          passed_times strip "1.2.3.4"
            (from_address "1.2.3.4" 50 ∷ from_address "1.2.3.4" 60 ∷ from_address "1.2.3.4" 70 ∷ [])
            l)
        ≤ l.limit)
unfolding parse_rate
served_within_rate_example =
    served_within_rate strip to_int (some "two") "2:10" (2, 10) 0
      (from_address "1.2.3.4" 50 ∷ from_address "1.2.3.4" 60 ∷ from_address "1.2.3.4" 70 ∷ [])
      "1.2.3.4" 70 refl (omega arith, (omega arith, (omega arith, tt)))

-- The address has used its two requests, and the first of them leaves the window in two and a half seconds.
abbrev used_up : RateLimiter
used_up = record {
  limit = 2;
  window_seconds = 1000000;
  buckets = ("1.2.3.4", 250000 ∷ 900000 ∷ []) ∷ [];
}

retry_after_is_early_example :
    is_passed
      (call strip
        (from_address "1.2.3.4" 1200000)
        (call strip (from_address "1.2.3.4" 1000000) used_up).0).1
    ≡ false
unfolding call client_ip check bucket_of get evict
retry_after_is_early_example =
    retry_after_is_early strip (from_address "1.2.3.4" 1000000) (from_address "1.2.3.4" 1200000)
      used_up (record { limit = 2; remaining = 0; reset = 12 }) 2 (omega arith) (omega arith) refl
      (omega arith) (omega arith) (omega arith) refl (omega arith)

answers_to_new_addresses_example :
    All
      (λ a. is_passed a ≡ true)
      (answers strip
        (from_address "1.2.3.4" 1000000 ∷ from_address "5.6.7.8" 1000000 ∷ [])
        (record used_up { buckets = [] }))
unfolding client_ip bucket_of get
answers_to_new_addresses_example =
    answers_to_new_addresses strip
      (from_address "1.2.3.4" 1000000 ∷ from_address "5.6.7.8" 1000000 ∷ [])
      (record used_up { buckets = [] }) (omega arith) ((refl, tt), (tt, tt)) (refl, (refl, tt))
