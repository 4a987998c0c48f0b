-- ===== src/Controller/RateLimit/Dependency/Service.antt =====
-- What the limiter lets through and what a refused client is told.
use bmt_ai_os.Prelude.{
  ℕ, zero, suc, ◌+◌, ◌-◌, ◌*◌, ◌%◌, ◌≤◌, ◌<◌, ◌≡◌, ◌⊎◌, refl, sym, ap, ◌∙◌, inl, inr, String, false,
  Bool-cases, ◌&&◌, Option, Option-cases, none, some, List, [], ◌∷◌, map, length, lt→leb, str_eq,
  if◌then◌else◌, ok, arith,
}
use bmt_ai_os.Prelude.Texts.{ℤ, pos, negsuc, split_on}
use bmt_ai_os.Controller.RateLimit.{RateLimiter, new, bucket_of, check}
use bmt_ai_os.Controller.RateLimit.Window.{
  Request, allowed_times, count_in, InOrder, sliding_window,
}
use bmt_ai_os.Controller.RateLimit.Waiting.{refused_until_reset}
use bmt_ai_os.Controller.RateLimit.Dependency.{
  second, Arrival, RateHeaders, Answer, passed, too_many_requests, is_passed, retry_after,
  client_ip, call, positive, rate_of, two_parts, parse_rate, build_limiter,
}

module _ (strip : String → String) where
  -- The times of the requests of an address that go on, when the requests come in turn.
  unfoldable pub passed_times : String → List Arrival → RateLimiter → List ℕ
  passed_times ip [] l = []
  passed_times ip (q ∷ qs) l =
      let (l', a) = call strip q l in
      let rest = passed_times ip qs l' in
      if str_eq (client_ip strip q) ip && is_passed a then q.now ∷ rest else rest

  abbrev pub to_check : Arrival → Request
  to_check q = record { now = q.now; wall = q.wall; key = client_ip strip q }

  pub is_passed-call :
      (q : Arrival) (l : RateLimiter)
      → is_passed (call strip q l).1 ≡ (check q.now q.wall (client_ip strip q) l).1.allowed
  unfolding call is_passed
  is_passed-call q l = elim (Bool-cases (check q.now q.wall (client_ip strip q) l).1.allowed) [
    | inl k ↦ rw k refl
    | inr k ↦ rw k refl
  ]

  pub limiter-call :
      (q : Arrival) (l : RateLimiter)
      → (call strip q l).0 ≡ (check q.now q.wall (client_ip strip q) l).0
  unfolding call
  limiter-call q l = refl

  passed_times-allowed_times :
      (ip : String) (qs : List Arrival) (l : RateLimiter)
      → passed_times ip qs l ≡ allowed_times ip (map to_check qs) l
  unfolding passed_times allowed_times
  passed_times-allowed_times ip [] l = refl
  passed_times-allowed_times ip (q ∷ qs) l =
      rw
        (
          is_passed-call q l,
          limiter-call q l,
          passed_times-allowed_times ip qs (check q.now q.wall (client_ip strip q) l).0,
        )
        refl

  module _ (to_int : String → Option ℤ) where
    -- A rate of two positive numbers, if any.
    abbrev IsRate : Option (ℕ × ℕ) → Type 0
    IsRate none = Unit {0}
    IsRate (some r) = (0 < r.0) × (0 < r.1)

    positive-cases :
        (a : Option ℤ)
        → (positive strip to_int a ≡ none) ⊎ ((n : ℕ) × (positive strip to_int a ≡ some (suc n)))
    unfolding positive
    positive-cases none = inl refl
    positive-cases (some (pos zero)) = inl refl
    positive-cases (some (pos (suc n))) = inr (n, refl)
    positive-cases (some (negsuc n)) = inl refl

    rate_of-IsRate : (a b : Option ℤ) → IsRate (rate_of strip to_int a b)
    unfolding rate_of
    rate_of-IsRate a b = elim (positive-cases a) [
      | inl k ↦ let e : rate_of strip to_int a b ≡ none = rw (rate_of, k) refl in rw e tt
      | inr (n, k) ↦ elim (positive-cases b) [
        | inl j ↦ let e : rate_of strip to_int a b ≡ none = rw (rate_of, k, j) refl in rw e tt
        | inr (m, j) ↦
            let e : rate_of strip to_int a b ≡ some (suc n, suc m) = rw (rate_of, k, j) refl in
            rw e (omega arith, omega arith)
      ]
    ]

    parse_rate-IsRate : (text : String) → IsRate (parse_rate strip to_int text)
    unfolding parse_rate two_parts
    parse_rate-IsRate text = two_parts-IsRate (split_on 58 (strip text))
      where
        two_parts-IsRate : (parts : List String) → IsRate (two_parts strip to_int parts)
        two_parts-IsRate [] = tt
        two_parts-IsRate (a ∷ []) = tt
        two_parts-IsRate (a ∷ b ∷ []) = rate_of-IsRate (to_int a) (to_int b)
        two_parts-IsRate (a ∷ b ∷ d ∷ parts) = tt

    new_of_positive :
        (limit window : ℕ)
        → 0 < limit
        → 0 < window
        → new limit window ≡ ok (record { limit = limit; window_seconds = window; buckets = [] })
    unfolding new
    new_of_positive limit window h k = ground (arith, h, k)

    build_limiter-total :
        (env : Option String) (default : String) (d : ℕ × ℕ)
        → parse_rate strip to_int default ≡ some d
        → (l : RateLimiter) × (build_limiter strip to_int env default ≡ some (ok l))
          × (new l.limit l.window_seconds ≡ ok l)
    unfolding build_limiter
    build_limiter-total env default d e =
        let raw : String = elim env [ none ↦ default | some text ↦ text ] in
        elim (Option-cases (parse_rate strip to_int raw)) [
          | inl k ↦
              built env default d (rw (build_limiter, k, e) refl)
                (rw e at (parse_rate-IsRate default))
          | inr (r, k) ↦
              built env default r (rw (build_limiter, k) refl) (rw k at (parse_rate-IsRate raw))
        ]
      where
        built :
            (env : Option String) (default : String) (r : ℕ × ℕ)
            → build_limiter strip to_int env default ≡ some (new r.0 (r.1 * second))
            → IsRate (some r)
            → (l : RateLimiter) × (build_limiter strip to_int env default ≡ some (ok l))
              × (new l.limit l.window_seconds ≡ ok l)
        built env default r e h =
            let n = new_of_positive r.0 (r.1 * second) h.0 (omega (arith, h.1)) in
            (record { limit = r.0; window_seconds = r.1 * second; buckets = [] }, e ∙ ap some n, n)

    -- Where the default is well formed, any value of the variable gives a limiter, and however requests come in the
    -- order of their times, at most its limit of one client address go on in any window of its length.
    pub served_within_rate :
        (env : Option String) (default : String) (d : ℕ × ℕ) (start : ℕ) (qs : List Arrival)
        (ip : String) (t : ℕ)
        → parse_rate strip to_int default ≡ some d
        → InOrder start (map to_check qs)
        → (l : RateLimiter) × (build_limiter strip to_int env default ≡ some (ok l))
          × (count_in l.window_seconds t (passed_times ip qs l) ≤ l.limit)
    served_within_rate env default d start qs ip t e o =
        let (l, b, n) = build_limiter-total env default d e in
        (
          l,
          b,
          rw passed_times-allowed_times
              (sliding_window l.limit l.window_seconds l start (map to_check qs) ip t n o),
        )

  unfoldable seconds_of : Answer → ℕ
  seconds_of (passed h) = 0
  seconds_of (too_many_requests h seconds) = seconds

  seconds_of-call :
      (q : Arrival) (l : RateLimiter)
      → (check q.now q.wall (client_ip strip q) l).1.allowed ≡ false
      → seconds_of (call strip q l).1
        ≡ retry_after q.wall_after (check q.now q.wall (client_ip strip q) l).1.reset_at
  unfolding seconds_of call
  seconds_of-call q l k = rw k refl

  early_lem :
      (now later wall wall_after reset seconds : ℕ)
      → retry_after wall_after reset ≡ seconds
      → wall ≤ wall_after
      → second < reset - wall
      → 0 < (reset - wall) % second
      → later ≡ now + seconds * second
      → later < now + (reset - wall)
  unfolding retry_after
  early_lem now later wall wall_after reset seconds told after long part at =
      omega (arith, told, after, long, part, at)

  -- A refused client that waits for the seconds of `Retry-After` and no longer is refused again, unless its wait was
  -- a whole number of seconds or no more than one.
  pub retry_after_is_early :
      (q again : Arrival) (l : RateLimiter) (h : RateHeaders) (seconds : ℕ)
      → length (bucket_of l (client_ip strip q)) ≤ l.limit
      → 0 < l.limit
      → (call strip q l).1 ≡ too_many_requests h seconds
      → q.wall ≤ q.wall_after
      → second < (check q.now q.wall (client_ip strip q) l).1.reset_at - q.wall
      → 0 < ((check q.now q.wall (client_ip strip q) l).1.reset_at - q.wall) % second
      → client_ip strip again ≡ client_ip strip q
      → again.now ≡ q.now + seconds * second
      → is_passed (call strip again (call strip q l).0).1 ≡ false
  retry_after_is_early q again l h seconds fits some_limit e later long part same at =
      let v = (check q.now q.wall (client_ip strip q) l).1 in
      let refused : v.allowed ≡ false =
        sym (is_passed-call q l) ∙ ap is_passed e ∙ unfold is_passed in refl in
      let told : retry_after q.wall_after v.reset_at ≡ seconds =
        sym (seconds_of-call q l refused) ∙ ap seconds_of e ∙ unfold seconds_of in refl in
      let until =
        refused_until_reset q.now q.wall (client_ip strip q) l again.now again.wall fits some_limit
          refused in
      let early : again.now < q.now + (v.reset_at - q.wall) =
        early_lem q.now again.now q.wall q.wall_after v.reset_at seconds told later long part at in
      rw (is_passed-call again (call strip q l).0, limiter-call q l, same, until.1)
        (lt→leb (q.now + (v.reset_at - q.wall)) again.now early)
