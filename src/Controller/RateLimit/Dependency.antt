-- ===== src/Controller/RateLimit/Dependency.antt =====
-- RateLimitDep of bmt_ai_os/controller/rate_limit.py, around the limiter: its settings, the client's address and the
-- answer. `str.strip` and `int` on texts are parameters. Times are ticks, a hundred thousand to the second.
pub mod Service
pub mod Addresses
mod Tests
use Prim.Native.Char.{code}
use Prim.Native.String as Str
use bmt_ai_os.Prelude.{
  ℕ, zero, suc, ◌-◌, ◌*◌, ◌/◌, max, String, Bool, true, false, Option, none, some, List, [], ◌∷◌,
  ◌==◌, str_eq, if◌then◌else◌, Result, ok, err, ◌>>=◌,
}
use bmt_ai_os.Prelude.Texts.{ℤ, pos, negsuc, split_on}
use bmt_ai_os.Controller.RateLimit.{RateLimiter, ValueError, limit_not_positive, new, check}

abbrev pub second : ℕ
second = 100000

-- `text.split(",")[0]`
unfoldable pub before_comma : String → String
before_comma Str.[] = ""
before_comma (Str.◌∷◌ ch text) =
    let rest = before_comma text in if code ch == 44 then "" else Str.◌∷◌ ch rest

-- A request, with the readings of the clocks for `check` and for `Retry-After`.
pub record Arrival : Type 0 where
  pub now : ℕ
  pub wall : ℕ
  pub wall_after : ℕ
  pub forwarded_for : Option String
  pub client : Option String

pub record RateHeaders : Type 0 where
  pub limit : ℕ
  pub remaining : ℕ
  pub reset : ℕ

-- The request goes on with the headers, or it is refused with status 429.
pub data Answer : Type 0 where
  passed : RateHeaders → Answer
  too_many_requests : RateHeaders → ℕ → Answer

unfoldable pub is_passed : Answer → Bool
is_passed (passed h) = true
is_passed (too_many_requests h retry_after) = false

-- `"unknown"` where there is no connection address.
host : Option String → String
host none = "unknown"
host (some address) = address

rate_limit_headers : ℕ → ℕ → ℕ → RateHeaders
rate_limit_headers limit remaining reset_at = record {
  limit = limit;
  remaining = remaining;
  reset = reset_at / second;
}

-- `max(1, int(reset_at - time.time()))`
unfoldable pub retry_after : ℕ → ℕ → ℕ
retry_after wall reset_at = max 1 ((reset_at - wall) / second)

module _ (strip : String → String) where
  unfoldable pub client_ip : Arrival → String
  unfolding host before_comma
  client_ip q = elim q.forwarded_for [
    | none ↦ host q.client
    | some text ↦ if str_eq text "" then host q.client else strip (before_comma text)
  ]

  unfoldable pub call : Arrival → RateLimiter → RateLimiter × Answer
  unfolding client_ip rate_limit_headers retry_after
  call q l =
      let (l', v) = check q.now q.wall (client_ip q) l in
      (
        l',
        if v.allowed
            then passed (rate_limit_headers l.limit v.remaining v.reset_at)
            else too_many_requests (rate_limit_headers l.limit 0 v.reset_at)
                (retry_after q.wall_after v.reset_at),
      )

  module _ (to_int : String → Option ℤ) where
    -- `none` is a ValueError: no integer, or none above 0.
    unfoldable pub positive : Option ℤ → Option ℕ
    positive none = none
    positive (some (pos zero)) = none
    positive (some (pos (suc n))) = some (suc n)
    positive (some (negsuc n)) = none

    unfoldable pub rate_of : Option ℤ → Option ℤ → Option (ℕ × ℕ)
    unfolding positive
    rate_of a b = elim (positive a) [
      | none ↦ none
      | some limit ↦ elim (positive b) [ none ↦ none | some window ↦ some (limit, window) ]
    ]

    unfoldable pub two_parts : List String → Option (ℕ × ℕ)
    unfolding rate_of
    two_parts (a ∷ b ∷ []) = rate_of (to_int a) (to_int b)
    two_parts _ = none

    unfoldable pub parse_rate : String → Option (ℕ × ℕ)
    unfolding two_parts split_on
    parse_rate text = two_parts (split_on 58 (strip text))

    -- `none` is the ValueError of a malformed default.
    unfoldable pub build_limiter : Option String → String → Option (Result ValueError RateLimiter)
    unfolding parse_rate
    build_limiter env default =
        let raw : String = elim env [ none ↦ default | some text ↦ text ] in
        let rate : Option (ℕ × ℕ) = elim (parse_rate raw) [
          | none ↦ parse_rate default
          | some r ↦ some r
        ] in
        elim rate [ none ↦ none | some r ↦ some (new r.0 (r.1 * second)) ]
