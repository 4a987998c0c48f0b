-- ===== src/Controller/RateLimit/Window.antt =====
-- In no window of time does a limiter allow more requests of a key than its limit.
use bmt_ai_os.Prelude.{
  ℕ, suc, ◌+◌, ◌≤◌, ◌<◌, ◌≡◌, refl, ap, ◌∙◌, inl, inr, String, Bool, true, false, ◌&&◌, Bool-cases,
  List, [], ◌∷◌, ◌++◌, ltb, leb, length, length-append, if◌then◌else◌, ok, str_eq, str_eq_iff,
  arith,
}
use mathlib.Core.List.{append-nil, append_assoc}
use bmt_ai_os.Prelude.Dict
use bmt_ai_os.Prelude.Dict.{get-put}
use bmt_ai_os.Controller.RateLimit.{RateLimiter, new, evict, bucket_of, decide_on, check}

-- A request: when it is checked, the wall clock then, and its key.
pub record Request : Type 0 where
  pub now : ℕ
  pub wall : ℕ
  pub key : String

-- The times of the requests of a key that are allowed, when the requests are checked in turn.
unfoldable pub allowed_times : String → List Request → RateLimiter → List ℕ
allowed_times k [] l = []
allowed_times k (q ∷ qs) l =
    let (l', v) = check q.now q.wall q.key l in
    let rest = allowed_times k qs l' in if str_eq q.key k && v.allowed then q.now ∷ rest else rest

-- How many of the times lie in the window of length `w` that ends at `t`.
unfoldable pub count_in : ℕ → ℕ → List ℕ → ℕ
count_in w t [] = 0
count_in w t (x ∷ xs) = let n = count_in w t xs in if leb x t && ltb t (x + w) then suc n else n

-- The requests are checked in the order of their times, from `start` on.
abbrev pub InOrder : ℕ → List Request → Type 0
InOrder start [] = Unit
InOrder start (q ∷ qs) = (start ≤ q.now) × InOrder q.now qs

count_in-append :
    (w t : ℕ) (xs ys : List ℕ) → count_in w t (xs ++ ys) ≡ count_in w t xs + count_in w t ys
unfolding count_in
count_in-append w t [] ys = omega arith
count_in-append w t (x ∷ xs) ys = ground (arith, count_in-append w t xs ys)

count_in-le : (w t : ℕ) (xs : List ℕ) → count_in w t xs ≤ length xs
unfolding count_in
count_in-le w t [] = omega arith
count_in-le w t (x ∷ xs) = ground (arith, count_in-le w t xs)

-- What is evicted counts no more from then on.
count_in-evict :
    (w t now : ℕ) (b rest : List ℕ)
    → now ≤ t
    → count_in w t (evict w now b ++ rest) ≡ count_in w t (b ++ rest)
unfolding count_in evict
count_in-evict w t now [] rest h = refl
count_in-evict w t now (x ∷ b) rest h = ground (arith, count_in-evict w t now b rest)

pub length-evict : (w now : ℕ) (b : List ℕ) → length (evict w now b) ≤ length b
unfolding evict
length-evict w now [] = omega arith
length-evict w now (x ∷ b) = ground (arith, length-evict w now b)

-- The times that are allowed from `now` on are not before it.
count_in-allowed_times :
    (k : String) (w t start : ℕ) (qs : List Request) (l : RateLimiter)
    → InOrder start qs
    → t < start
    → count_in w t (allowed_times k qs l) ≡ 0
unfolding count_in allowed_times
count_in-allowed_times k w t start [] l o h = refl
count_in-allowed_times k w t start (q ∷ qs) l o h =
    ground (arith, count_in-allowed_times k w t q.now qs (check q.now q.wall q.key l).0 o.1)

-- The bucket of a key after a check.
pub bucket_of-check :
    (now wall : ℕ) (key k : String) (l : RateLimiter)
    → bucket_of (check now wall key l).0 k ≡ (
        if str_eq key k
        then (decide_on l now wall (evict l.window_seconds now (bucket_of l key))).0
        else bucket_of l k)
unfolding check bucket_of
bucket_of-check now wall key k l = ground (
  arith,
  get-put l.buckets key k (decide_on l now wall (evict l.window_seconds now (bucket_of l key))).0,
)

pub limits-check :
    (now wall : ℕ) (key : String) (l : RateLimiter)
    → ((check now wall key l).0.limit ≡ l.limit)
      × ((check now wall key l).0.window_seconds ≡ l.window_seconds)
unfolding check
limits-check now wall key l = (refl, refl)

pub verdict-check :
    (now wall : ℕ) (key : String) (l : RateLimiter)
    → (check now wall key l).1
      ≡ (decide_on l now wall (evict l.window_seconds now (bucket_of l key))).1
unfolding check
verdict-check now wall key l = refl

new_fields :
    (limit window : ℕ) (l : RateLimiter)
    → new limit window ≡ ok l
    → (l.limit ≡ limit) × (l.window_seconds ≡ window) × ((k : String) → bucket_of l k ≡ [])
unfolding new bucket_of Dict.get
new_fields limit window l e = (ground arith, ground arith, λ k. ground arith)

-- The bucket after a decision keeps within the limit, and holds the old entries, then the new one if
-- the request was allowed.
decide_on_bucket :
    (l : RateLimiter) (now wall : ℕ) (b : List ℕ)
    → length b ≤ l.limit
    → (length (decide_on l now wall b).0 ≤ l.limit)
      × ((decide_on l now wall b).0
          ≡ (if (decide_on l now wall b).1.allowed then b ++ now ∷ [] else b))
unfolding decide_on
decide_on_bucket l now wall b h = (ground (arith, length-append b (now ∷ [])), ground arith)

-- One request of the key: what held of the bucket after it and the later times held before it.
count_in-request :
    (limit w t now : ℕ) (b rest : List ℕ) (allowed : Bool)
    → length b ≤ limit
    → (t < now → count_in w t rest ≡ 0)
    → count_in w t ((if allowed then evict w now b ++ now ∷ [] else evict w now b) ++ rest) ≤ limit
    → count_in w t (b ++ (if allowed then now ∷ rest else rest)) ≤ limit
count_in-request limit w t now b rest allowed fits late ih = elim (Bool-cases (ltb t now)) [
  | inl before ↦
      let zero_rest : count_in w t (if allowed then now ∷ rest else rest) ≡ 0 =
        unfold count_in in ground (arith, late) in
      omega (
        arith,
        count_in-append w t b (if allowed then now ∷ rest else rest),
        count_in-le w t b,
        zero_rest,
      )
  | inr after ↦
      rw (← count_in-evict w t now b (if allowed then now ∷ rest else rest) (ground arith))
        (regroup allowed ih)
]
  where
    regroup :
        (a : Bool)
        → count_in w t ((if a then evict w now b ++ now ∷ [] else evict w now b) ++ rest) ≤ limit
        → count_in w t (evict w now b ++ (if a then now ∷ rest else rest)) ≤ limit
    regroup true h = rw (append_assoc (evict w now b) (now ∷ []) rest) at h
    regroup false h = h

module _ (k : String) (limit w t : ℕ) where
  -- The entries of the bucket and the times allowed after it, together, fill no window beyond the limit.
  count_in-bucket :
      (start : ℕ) (qs : List Request) (l : RateLimiter)
      → l.limit ≡ limit
      → l.window_seconds ≡ w
      → length (bucket_of l k) ≤ limit
      → InOrder start qs
      → count_in w t (bucket_of l k ++ allowed_times k qs l) ≤ limit
  unfolding allowed_times
  count_in-bucket start [] l el ew h o =
      rw append-nil (omega (arith, h, count_in-le w t (bucket_of l k)))
  count_in-bucket start (q ∷ qs) l el ew h o =
      let l' = (check q.now q.wall q.key l).0 in
      let cfg = limits-check q.now q.wall q.key l in
      let after = bucket_of-check q.now q.wall q.key k l in
      elim (Bool-cases (str_eq q.key k)) [
        | inr ne ↦
            let same : bucket_of l' k ≡ bucket_of l k = ground (arith, after, ne) in
            let ih = count_in-bucket q.now qs l' (cfg.0 ∙ el) (cfg.1 ∙ ew) (rw same h) o.1 in
            rw ne (rw same at ih)
        | inl e ↦
            let b = bucket_of l k in
            let here : bucket_of l q.key ≡ b = ap (bucket_of l) ((str_eq_iff q.key k).0 e) in
            let d =
              decide_on_bucket l q.now q.wall (evict w q.now b)
                (omega (arith, h, el, length-evict w q.now b)) in
            let a = (decide_on l q.now q.wall (evict w q.now b)).1.allowed in
            let a_check : (check q.now q.wall q.key l).1.allowed ≡ a =
              rw (verdict-check q.now q.wall q.key l, here, ew) refl in
            let kept : bucket_of l' k ≡ (decide_on l q.now q.wall (evict w q.now b)).0 =
              rw (after, e, here, ew) refl in
            let ih =
              count_in-bucket q.now qs l' (cfg.0 ∙ el) (cfg.1 ∙ ew) (rw kept (omega (arith, d, el)))
                o.1 in
            rw (e, a_check)
              (count_in-request limit w t q.now b (allowed_times k qs l') a h
                (count_in-allowed_times k w t q.now qs l' o.1) (rw (kept ∙ d.1) at ih))
      ]

-- However a new limiter is used by requests of any keys, checked in the order of their times, and
-- wherever a window of its length ends, at most `limit` requests of one key that it allowed lie in that
-- window.
pub sliding_window :
    (limit window : ℕ) (l : RateLimiter) (start : ℕ) (qs : List Request) (k : String) (t : ℕ)
    → new limit window ≡ ok l
    → InOrder start qs
    → count_in window t (allowed_times k qs l) ≤ limit
sliding_window limit window l start qs k t e o =
    let (el, ew, eb) = new_fields limit window l e in
    rw eb at (count_in-bucket k limit window t start qs l el ew (rw eb (omega arith)) o)
