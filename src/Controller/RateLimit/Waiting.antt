-- ===== src/Controller/RateLimit/Waiting.antt =====
-- A refused client learns when to come back.
use bmt_ai_os.Prelude.{
  ℕ, suc, ◌+◌, ◌-◌, ◌≤◌, ◌<◌, ◌≡◌, refl, ap, ◌∙◌, String, false, List, [], ◌∷◌, leb, length,
  str_eq_refl, arith,
}
use bmt_ai_os.Controller.RateLimit.{RateLimiter, evict, bucket_of, decide_on, check}
use bmt_ai_os.Controller.RateLimit.Window.{
  limits-check, verdict-check, bucket_of-check, length-evict,
}

evict_head : (w now t : ℕ) (b ts : List ℕ) → evict w now b ≡ t ∷ ts → now < t + w
unfolding evict
evict_head w now t [] ts e = cc
evict_head w now t (x ∷ b) ts e = ground (arith, evict_head w now t b ts)

-- A full bucket whose oldest entry is inside the window.
full_later :
    (l : RateLimiter) (t : ℕ) (ts : List ℕ) (now wall : ℕ)
    → l.limit ≡ suc (length ts)
    → (decide_on l now wall (evict l.window_seconds now (t ∷ ts))).1.allowed
      ≡ leb (t + l.window_seconds) now
unfolding evict decide_on
full_later l t ts now wall e = ground (arith, length-evict l.window_seconds now ts)

refused_bucket :
    (l : RateLimiter) (now wall : ℕ) (b : List ℕ)
    → length b ≤ l.limit
    → 0 < l.limit
    → (decide_on l now wall b).1.allowed ≡ false
    → (t : ℕ) × (ts : List ℕ) × (b ≡ t ∷ ts)
      × (l.limit ≡ suc (length ts))
      × ((decide_on l now wall b).0 ≡ b)
      × ((decide_on l now wall b).1.reset_at ≡ wall + (t + l.window_seconds - now))
unfolding decide_on
refused_bucket l now wall [] h p r = absurd (ground arith)
refused_bucket l now wall (t ∷ ts) h p r = (t, ts, refl, ground arith, ground arith, ground arith)

-- When a request is refused, a later request of the same key with no request of it in between is
-- allowed exactly from `reset_at` on, and `reset_at` lies in the future.
pub refused_until_reset :
    (now wall : ℕ) (key : String) (l : RateLimiter) (later wall' : ℕ)
    → length (bucket_of l key) ≤ l.limit
    → 0 < l.limit
    → (check now wall key l).1.allowed ≡ false
    → (wall < (check now wall key l).1.reset_at)
      × ((check later wall' key (check now wall key l).0).1.allowed
          ≡ leb (now + ((check now wall key l).1.reset_at - wall)) later)
refused_until_reset now wall key l later wall' fits pos r =
    let w = l.window_seconds in
    let b = evict w now (bucket_of l key) in
    let l' = (check now wall key l).0 in
    let cfg = limits-check now wall key l in
    let v = verdict-check now wall key l in
    let (t, ts, e, full, kept, reset) =
      refused_bucket l now wall b (omega (arith, fits, length-evict w now (bucket_of l key))) pos
        (rw v at r) in
    let inside = evict_head w now t (bucket_of l key) ts e in
    let stored : bucket_of l' key ≡ t ∷ ts =
      rw (bucket_of-check now wall key key l, str_eq_refl key) (kept ∙ e) in
    let reset' : (check now wall key l).1.reset_at ≡ wall + (t + w - now) = rw v reset in
    let next : (check later wall' key l').1.allowed ≡ leb (t + w) later =
      rw (verdict-check later wall' key l', stored)
        (full_later l' t ts later wall' (cfg.0 ∙ full) ∙ ap (λ x. leb (t + x) later) cfg.1) in
    let due : t + w ≡ now + ((check now wall key l).1.reset_at - wall) =
      omega (arith, inside, reset') in
    (omega (arith, inside, reset'), next ∙ ap (λ x. leb x later) due)
