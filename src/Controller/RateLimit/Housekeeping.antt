-- ===== src/Controller/RateLimit/Housekeeping.antt =====
-- Dropping expired buckets is invisible to clients.
use bmt_ai_os.Prelude.{
  ℕ, ◌+◌, ◌≤◌, ◌≡◌, refl, sym, ap, ◌∙◌, inl, inr, String, true, false, List, [], none, some,
  Option-cases, ◌∷◌, ◌++◌, if◌then◌else◌, str_eq_iff, arith,
}
use mathlib.Core.Path.{subst}
use bmt_ai_os.Prelude.Dict
use bmt_ai_os.Prelude.Dict.{Dict, IsDistinct, contains, get-pop, contains-keys}
use bmt_ai_os.Controller.RateLimit.{
  RateLimiter, evict, bucket_of, decide_on, check, is_expired, expired_keys, delete_all,
  evict_expired,
}
use bmt_ai_os.Controller.RateLimit.Window.{verdict-check}
use bmt_ai_os.Controller.RateLimit.Sorted.{IsSorted, IsSorted-of_append, IsOrderly}

expired_head :
    (w now t : ℕ) (ts : List ℕ) → IsSorted (t ∷ ts) → is_expired w now (t ∷ ts) ≡ true → t + w ≤ now
unfolding is_expired
expired_head w now t [] s e = ground arith
expired_head w now t (u ∷ ts) s e = omega (arith, s.0, expired_head w now u ts s.1 e)

-- An expired bucket is empty for every later check.
evict-is_expired :
    (w now later : ℕ) (b : List ℕ)
    → IsSorted b
    → now ≤ later
    → is_expired w now b ≡ true
    → evict w later b ≡ []
unfolding evict is_expired
evict-is_expired w now later [] s h e = refl
evict-is_expired w now later (t ∷ []) s h e = ground arith
evict-is_expired w now later (t ∷ u ∷ ts) s h e =
    ground (arith, expired_head w now u ts s.1 e, evict-is_expired w now later (u ∷ ts) s.1 h e)

get-delete_all :
    (ks : List String) (d : Dict (List ℕ)) (k : String)
    → Dict.get (delete_all ks d) k ≡ (if contains k ks then none else Dict.get d k)
unfolding delete_all contains
get-delete_all [] d k = refl
get-delete_all (j ∷ ks) d k = ground (arith, get-delete_all ks (Dict.pop d j) k, get-pop d j k)

contains-expired_keys :
    (w now : ℕ) (d : Dict (List ℕ)) (k : String)
    → IsDistinct (Dict.keys d)
    → contains k (expired_keys w now d)
      ≡ elim (Dict.get d k) [ none ↦ false | some b ↦ is_expired w now b ]
unfolding expired_keys contains Dict.get Dict.keys
contains-expired_keys w now [] k h = refl
contains-expired_keys w now ((j, b) ∷ d) k h =
    ground (arith, contains-expired_keys w now d k h.1, contains-keys d k, str_eq_iff j k)

bucket_of-some :
    (l : RateLimiter) (k : String) (b : List ℕ) → Dict.get l.buckets k ≡ some b → bucket_of l k ≡ b
unfolding bucket_of
bucket_of-some l k b e = ground arith

evict-nil : (w now : ℕ) → evict w now [] ≡ []
unfolding evict
evict-nil w now = refl

evict-evict_expired :
    (now later : ℕ) (k : String) (l : RateLimiter)
    → IsOrderly now l
    → now ≤ later
    → evict l.window_seconds later (bucket_of (evict_expired now l) k)
      ≡ evict l.window_seconds later (bucket_of l k)
unfolding bucket_of evict_expired
evict-evict_expired now later k l h le = elim (Option-cases (Dict.get l.buckets k)) [
  | inl e ↦
      ground (arith, get-delete_all (expired_keys l.window_seconds now l.buckets) l.buckets k, e)
  | inr (b, e) ↦
      let sorted : IsSorted b =
        IsSorted-of_append b (now ∷ [])
          (subst (λ x. IsSorted (x ++ now ∷ [])) (bucket_of-some l k b e) (h.sorted k)) in
      ground (
        arith,
        get-delete_all (expired_keys l.window_seconds now l.buckets) l.buckets k,
        e,
        contains-expired_keys l.window_seconds now l.buckets k h.distinct,
        evict-is_expired l.window_seconds now later b sorted le,
        evict-nil l.window_seconds later,
      )
]

-- In an orderly limiter, dropping the expired buckets at a time changes the answer to no later request, of any key: neither
-- whether it is allowed, nor what remains, nor the time of the reset.
pub evict_expired_invisible :
    (now later wall : ℕ) (k : String) (l : RateLimiter)
    → IsOrderly now l
    → now ≤ later
    → (check later wall k (evict_expired now l)).1 ≡ (check later wall k l).1
unfolding evict_expired check
evict_expired_invisible now later wall k l h le =
    verdict-check later wall k (evict_expired now l)
    ∙ ap (λ b. (decide_on (evict_expired now l) later wall b).1)
        (evict-evict_expired now later k l h le)
    ∙ (unfold decide_on in refl)
    ∙ sym (verdict-check later wall k l)
