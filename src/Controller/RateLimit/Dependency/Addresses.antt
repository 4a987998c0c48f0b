-- ===== src/Controller/RateLimit/Dependency/Addresses.antt =====
-- Clients that come from many addresses.
use bmt_ai_os.Prelude.{◌<◌, ◌≡◌, String, true, false, List, [], ◌∷◌, All, str_eq, arith}
use bmt_ai_os.Controller.RateLimit.{RateLimiter, bucket_of, evict, decide_on}
use bmt_ai_os.Controller.RateLimit.Window.{bucket_of-check, limits-check, verdict-check}
use bmt_ai_os.Controller.RateLimit.Dependency.{Arrival, Answer, is_passed, client_ip, call}
use bmt_ai_os.Controller.RateLimit.Dependency.Service.{is_passed-call, limiter-call}

module _ (strip : String → String) where
  unfoldable pub answers : List Arrival → RateLimiter → List Answer
  answers [] l = []
  answers (q ∷ qs) l = (call strip q l).1 ∷ answers qs (call strip q l).0

  -- Requests of different addresses.
  abbrev pub AreApart : List Arrival → Type 0
  AreApart [] = Unit {0}
  AreApart (q ∷ qs) =
      All (λ x. str_eq (client_ip strip q) (client_ip strip x) ≡ false) qs × AreApart qs

  abbrev pub IsNewTo : RateLimiter → Arrival → Type 0
  IsNewTo l q = bucket_of l (client_ip strip q) ≡ []

  call_new :
      (q : Arrival) (l : RateLimiter)
      → 0 < l.limit
      → IsNewTo l q
      → is_passed (call strip q l).1 ≡ true
  unfolding decide_on evict
  call_new q l some_limit unseen =
      rw (is_passed-call strip q l, verdict-check q.now q.wall (client_ip strip q) l, unseen)
        (ground (arith, some_limit))

  still_new :
      (q : Arrival) (l : RateLimiter) (qs : List Arrival)
      → All (λ x. str_eq (client_ip strip q) (client_ip strip x) ≡ false) qs
      → All (IsNewTo l) qs
      → All (IsNewTo (call strip q l).0) qs
  still_new q l [] apart unseen = tt
  still_new q l (x ∷ qs) apart unseen = (
    rw
        (
          limiter-call strip q l,
          bucket_of-check q.now q.wall (client_ip strip q) (client_ip strip x) l,
          apart.0,
        )
        unseen.0,
    still_new q l qs apart.1 unseen.1,
  )

  -- Requests of client addresses that the limiter has not seen, each of another address, all go on.
  pub answers_to_new_addresses :
      (qs : List Arrival) (l : RateLimiter)
      → 0 < l.limit
      → AreApart qs
      → All (IsNewTo l) qs
      → All (λ a. is_passed a ≡ true) (answers qs l)
  unfolding answers
  answers_to_new_addresses [] l some_limit apart unseen = tt
  answers_to_new_addresses (q ∷ qs) l some_limit apart unseen = (
    call_new q l some_limit unseen.0,
    answers_to_new_addresses qs (call strip q l).0
        (rw (limiter-call strip q l)
          (omega (arith, some_limit, (limits-check q.now q.wall (client_ip strip q) l).0)))
        apart.1 (still_new q l qs apart.0 unseen.1),
  )
