-- ===== src/Controller/RateLimit/Sorted.antt =====
-- Buckets stay sorted, and each key keeps one bucket.
use bmt_ai_os.Prelude.{
  ℕ, ◌+◌, ◌≤◌, ◌≡◌, refl, inl, inr, String, true, false, Bool-cases, List, [], ◌∷◌, ◌++◌, leb,
  if◌then◌else◌, str_eq, str_eq_iff, arith, length,
}
use bmt_ai_os.Prelude.Dict
use bmt_ai_os.Prelude.Dict.{Dict, IsDistinct, contains, keys-put}
use bmt_ai_os.Controller.RateLimit.{RateLimiter, evict, bucket_of, decide_on, check}
use bmt_ai_os.Controller.RateLimit.Window.{bucket_of-check}

-- The entries of a bucket stand in the order in which time passed.
abbrev pub IsSorted : List ℕ → Type 0
IsSorted [] = Unit
IsSorted (t ∷ []) = Unit
IsSorted (t ∷ u ∷ ts) = (t ≤ u) × IsSorted (u ∷ ts)

pub IsSorted-of_append : (b c : List ℕ) → IsSorted (b ++ c) → IsSorted b
IsSorted-of_append [] c h = tt
IsSorted-of_append (t ∷ []) c h = tt
IsSorted-of_append (t ∷ u ∷ ts) c h = (h.0, IsSorted-of_append (u ∷ ts) c h.1)

IsSorted-later :
    (b : List ℕ) (now later : ℕ)
    → now ≤ later
    → IsSorted (b ++ now ∷ [])
    → IsSorted (b ++ later ∷ [])
IsSorted-later [] now later le h = tt
IsSorted-later (t ∷ []) now later le h = (omega (arith, h.0), tt)
IsSorted-later (t ∷ u ∷ ts) now later le h = (h.0, IsSorted-later (u ∷ ts) now later le h.1)

IsSorted-again :
    (b : List ℕ) (now : ℕ) → IsSorted (b ++ now ∷ []) → IsSorted ((b ++ now ∷ []) ++ now ∷ [])
IsSorted-again [] now h = (omega arith, tt)
IsSorted-again (t ∷ []) now h = (h.0, (omega arith, tt))
IsSorted-again (t ∷ u ∷ ts) now h = (h.0, IsSorted-again (u ∷ ts) now h.1)

IsSorted-tail : (t : ℕ) (ts : List ℕ) → IsSorted (t ∷ ts) → IsSorted ts
IsSorted-tail t [] h = tt
IsSorted-tail t (u ∷ ts) h = h.1

IsSorted-evict : (w now : ℕ) (b c : List ℕ) → IsSorted (b ++ c) → IsSorted (evict w now b ++ c)
unfolding evict
IsSorted-evict w now [] c h = h
IsSorted-evict w now (t ∷ ts) c h = elim (Bool-cases (leb (t + w) now)) [
  | inl e ↦ rw e (IsSorted-evict w now ts c (IsSorted-tail t (ts ++ c) h))
  | inr e ↦ rw e h
]

-- At the time `now` every bucket is sorted with no entry after `now`, and each key has one bucket.
pub record IsOrderly (now : ℕ) (l : RateLimiter) : Type 0 where
  pub distinct : IsDistinct (Dict.keys l.buckets)
  pub sorted : (k : String) → IsSorted (bucket_of l k ++ now ∷ [])

contains-snoc :
    (k j : String) (xs : List String)
    → contains k (xs ++ j ∷ []) ≡ (if str_eq j k then true else contains k xs)
unfolding contains
contains-snoc k j [] = ground arith
contains-snoc k j (x ∷ xs) = ground (arith, contains-snoc k j xs)

IsDistinct-snoc :
    (xs : List String) (j : String)
    → contains j xs ≡ false
    → IsDistinct xs
    → IsDistinct (xs ++ j ∷ [])
unfolding contains
IsDistinct-snoc [] j n h = (refl, tt)
IsDistinct-snoc (x ∷ xs) j n h = (
  ground (arith, contains-snoc x j xs, str_eq_iff x j, str_eq_iff j x),
  IsDistinct-snoc xs j (ground arith) h.1,
)

IsDistinct-put :
    (d : Dict (List ℕ)) (k : String) (b : List ℕ)
    → IsDistinct (Dict.keys d)
    → IsDistinct (Dict.keys (Dict.put d k b))
IsDistinct-put d k b h = elim (Bool-cases (contains k (Dict.keys d))) [
  | inl e ↦ rw (keys-put d k b, e) h
  | inr e ↦ rw (keys-put d k b, e) (IsDistinct-snoc (Dict.keys d) k e h)
]

decide_on-IsSorted :
    (l : RateLimiter) (now wall : ℕ) (b : List ℕ)
    → IsSorted (b ++ now ∷ [])
    → IsSorted ((decide_on l now wall b).0 ++ now ∷ [])
unfolding decide_on
decide_on-IsSorted l now wall b h = elim (Bool-cases (leb l.limit (length b))) [
  | inl e ↦ rw e h
  | inr e ↦ rw e (IsSorted-again b now h)
]

-- A check at a time that is not before the last keeps a limiter orderly, at its own time.
pub check-IsOrderly :
    (before now wall : ℕ) (key : String) (l : RateLimiter)
    → before ≤ now
    → IsOrderly before l
    → IsOrderly now (check now wall key l).0
check-IsOrderly before now wall key l le h = record {
  distinct = unfold check in IsDistinct-put l.buckets key _ h.distinct;
  sorted = λ k. elim (Bool-cases (str_eq key k)) [
    | inl e ↦
        rw (bucket_of-check now wall key k l, e)
          (decide_on-IsSorted l now wall (evict l.window_seconds now (bucket_of l key)) (
            IsSorted-evict l.window_seconds now (bucket_of l key) (now ∷ [])
              (IsSorted-later (bucket_of l key) before now le (h.sorted key))))
    | inr e ↦
        rw (bucket_of-check now wall key k l, e)
          (IsSorted-later (bucket_of l k) before now le (h.sorted k))
  ];
}
