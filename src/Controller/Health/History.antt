-- ===== src/Controller/Health/History.antt =====
-- The history of a service is bounded and holds the newest results.
use bmt_ai_os.Prelude.{
  ℕ, suc, ◌-◌, ◌≤◌, ◌≡◌, refl, ap, ◌∙◌, sym, String, Bool-cases, inl, inr, List, [], ◌∷◌, ◌++◌,
  length, length-append, append_nil, drop, arith,
}
use bmt_ai_os.Prelude.Last.{last, length-last, last_of_le, last-last}
use bmt_ai_os.Controller.Health.{
  HealthConfig, ServiceHealth, HealthResult, Response, append_bounded, check_service, is_ok,
}

-- The results of the checks of a service, one after another.
pub check_many :
    HealthConfig → String → List (ℕ × Response) → ServiceHealth → ServiceHealth × List HealthResult
check_many c name [] s = (s, [])
check_many c name ((now, r) ∷ rest) s =
    let (s', result) = check_service c name now r s in
    let (s'', results) = check_many c name rest s' in (s'', result ∷ results)

append_bounded-last {ℓ} :
    {A : Type ℓ} (n : ℕ) (xs : List A) (x : A) → append_bounded n xs x ≡ last n (xs ++ x ∷ [])
unfolding append_bounded last
append_bounded-last n xs x =
    let e : suc (length xs) - n ≡ length (xs ++ x ∷ []) - n =
      omega (arith, length-append xs (x ∷ [])) in
    ap (λ k. drop k (xs ++ x ∷ [])) e

check_service-history :
    (c : HealthConfig) (name : String) (now : ℕ) (r : Response) (s : ServiceHealth)
    → (check_service c name now r s).0.history
      ≡ append_bounded c.health_history_size s.history (check_service c name now r s).1
unfolding check_service
check_service-history c name now r s = elim (Bool-cases (is_ok r)) [
  | inl e ↦ rw e refl
  | inr e ↦ rw e refl
]

append_assoc {ℓ} :
    {A : Type ℓ} (xs : List A) (x : A) (ys : List A) → (xs ++ x ∷ []) ++ ys ≡ xs ++ x ∷ ys
append_assoc [] x ys = refl
append_assoc (z ∷ xs) x ys = ap (λ l. z ∷ l) (append_assoc xs x ys)

module _ (c : HealthConfig) (name : String) where
  -- After any checks of a service whose history is no longer than `health_history_size`, its history
  -- is the last that many elements of the history of before followed by the results of the checks.
  pub check_many-last :
      (checks : List (ℕ × Response)) (s : ServiceHealth)
      → length s.history ≤ c.health_history_size
      → (check_many c name checks s).0.history
        ≡ last c.health_history_size (s.history ++ (check_many c name checks s).1)
  unfolding check_many
  check_many-last [] s h = sym (
      last_of_le c.health_history_size (s.history ++ []) (rw (append_nil s.history) h)
      ∙ append_nil s.history)
  check_many-last ((now, r) ∷ checks) s h =
      let n = c.health_history_size in
      let s' = (check_service c name now r s).0 in
      let result = (check_service c name now r s).1 in
      let results = (check_many c name checks s').1 in
      let e : s'.history ≡ last n (s.history ++ result ∷ []) =
        check_service-history c name now r s ∙ append_bounded-last n s.history result in
      let b : length s'.history ≤ n = rw e (length-last n (s.history ++ result ∷ [])) in
      check_many-last checks s' b
      ∙ ap (λ l. last n (l ++ results)) e
      ∙ last-last n (s.history ++ result ∷ []) results
      ∙ ap (last n) (append_assoc s.history result results)
