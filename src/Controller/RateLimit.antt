-- ===== src/Controller/RateLimit.antt =====
-- bmt_ai_os/controller/rate_limit.py: the sliding-window limiter. Times and the window are ticks of
-- one clock; `wall` is the reading of `time.time()`. A deque is a list, its left end first.
pub mod Window
pub mod Waiting
pub mod Sorted
pub mod Housekeeping
pub mod Dependency
use bmt_ai_os.Prelude.{
  ℕ, ◌+◌, ◌-◌, String, Bool, true, false, ◌||◌, Option, none, some, List, [], ◌∷◌, ◌++◌, ltb, leb,
  ◌==◌, length, if◌then◌else◌, Result, ok, err,
}
use bmt_ai_os.Prelude.Dict
use bmt_ai_os.Prelude.Dict.{Dict}

pub record RateLimiter : Type 0 where
  pub limit : ℕ
  pub window_seconds : ℕ
  pub buckets : Dict (List ℕ)

-- The two `ValueError`s of the constructor.
pub data ValueError : Type 0 where
  limit_not_positive window_not_positive : ValueError

unfoldable pub new : ℕ → ℕ → Result ValueError RateLimiter
new limit window =
    if limit == 0
    then err limit_not_positive
    else if window == 0
    then err window_not_positive
    else ok (record { limit = limit; window_seconds = window; buckets = [] })

-- The `while` loop that pops from the left what is outside the window: `t <= now - window`.
unfoldable pub evict : ℕ → ℕ → List ℕ → List ℕ
evict window now [] = []
evict window now (t ∷ ts) = if leb (t + window) now then evict window now ts else t ∷ ts

unfoldable pub bucket_of : RateLimiter → String → List ℕ
bucket_of l key = elim (Dict.get l.buckets key) [ none ↦ [] | some b ↦ b ]

pub record Verdict : Type 0 where
  pub allowed : Bool
  pub remaining : ℕ
  pub reset_at : ℕ

-- `bucket[0]`, or the time `now` of an empty bucket.
oldest : ℕ → List ℕ → ℕ
oldest now [] = now
oldest now (t ∷ ts) = t

-- What `check` does with the bucket once it is rid of old entries. `oldest - cutoff` is
-- `oldest + window - now`, which is not negative for an entry inside the window.
unfoldable pub decide_on : RateLimiter → ℕ → ℕ → List ℕ → List ℕ × Verdict
unfolding oldest
decide_on l now wall b =
    if leb l.limit (length b)
    then (
      b,
      record {
        allowed = false;
        remaining = 0;
        reset_at = wall + (oldest now b + l.window_seconds - now);
      },
    )
    else (
      b ++ now ∷ [],
      record {
        allowed = true;
        remaining = l.limit - length b - 1;
        reset_at = wall + (oldest now (b ++ now ∷ []) + l.window_seconds - now);
      },
    )

unfoldable pub check : ℕ → ℕ → String → RateLimiter → RateLimiter × Verdict
unfolding decide_on
check now wall key l =
    let (b, v) = decide_on l now wall (evict l.window_seconds now (bucket_of l key)) in
    (record l { buckets = Dict.put l.buckets key b }, v)

-- `not bucket or bucket[-1] <= cutoff`
is_expired : ℕ → ℕ → List ℕ → Bool
is_expired window now [] = true
is_expired window now (t ∷ []) = leb (t + window) now
is_expired window now (t ∷ u ∷ ts) = is_expired window now (u ∷ ts)

-- The keys of the buckets with no entry in the window, `empty_keys` of the source.
expired_keys : ℕ → ℕ → Dict (List ℕ) → List String
unfolding is_expired
expired_keys window now [] = []
expired_keys window now ((k, b) ∷ d) =
    let rest = expired_keys window now d in if is_expired window now b then k ∷ rest else rest

-- `for k in ks: del d[k]`
delete_all : List String → Dict (List ℕ) → Dict (List ℕ)
delete_all [] d = d
delete_all (k ∷ ks) d = delete_all ks (Dict.pop d k)

unfoldable pub evict_expired : ℕ → RateLimiter → RateLimiter
unfolding expired_keys delete_all
evict_expired now l = record l {
  buckets = delete_all (expired_keys l.window_seconds now l.buckets) l.buckets;
}
