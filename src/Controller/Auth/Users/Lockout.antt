-- ===== src/Controller/Auth/Users/Lockout.antt =====
-- How many passwords can be tried against an account, and what a login that succeeds shows.
use bmt_ai_os.Prelude.{
  ℕ, suc, ◌+◌, ◌-◌, ◌≤◌, ◌<◌, ◌≡◌, ◌⊎◌, refl, ap, ◌∙◌, inl, inr, String, Bool, true, false,
  Bool-cases, Option, none, some, Option-cases, List, [], ◌∷◌, All, ltb, leb, str_eq_refl,
  if◌then◌else◌, arith,
}
use bmt_ai_os.Prelude.Dict
use bmt_ai_os.Prelude.Dict.{get-put}
use bmt_ai_os.Controller.Auth.Users.{
  UserStore, User, Attempts, Login, max_failed_attempts, lockout_duration, counted,
  record_failed_login, is_account_locked, get_user, authenticate,
}

-- The failures on record.
pub failed_count : String → UserStore → ℕ
failed_count name s = elim (Dict.get s.login_attempts name) [ none ↦ 0 | some r ↦ r.failed_count ]

counted-attempts :
    (name : String) (row : Attempts) (s : UserStore)
    → Dict.get (counted name row s).0.login_attempts name ≡ some row
unfolding counted
counted-attempts name row s = get-put s.login_attempts name name row ∙ rw (str_eq_refl name) refl

-- A failure on an account that is not locked is counted, and from the fifth on it locks.
record_failed_login-attempts :
    (now : ℕ) (name : String) (s : UserStore)
    → is_account_locked now name s ≡ false
    → (r : Attempts) × (Dict.get (record_failed_login now name s).0.login_attempts name ≡ some r)
      × (r.failed_count ≡ failed_count name s + 1)
      × ((r.failed_count < max_failed_attempts) ⊎ (r.locked_until ≡ now + lockout_duration))
unfolding record_failed_login is_account_locked failed_count
record_failed_login-attempts now name s h = elim (Option-cases (Dict.get s.login_attempts name)) [
  | inl e ↦
      let row : Attempts = record { failed_count = 1; last_failed_at = now; locked_until = 0 } in
      (
        row,
        rw (e, record_failed_login) (counted-attempts name row s),
        rw (e, failed_count) (omega arith),
        inl (omega arith),
      )
  | inr (r, e) ↦
      let count = r.failed_count + 1 in
      let row : Attempts = record {
        failed_count = count;
        last_failed_at = now;
        locked_until = if leb max_failed_attempts count then now + lockout_duration else 0;
      } in
      let free : ltb now r.locked_until ≡ false = ground (arith, e, h) in
      (
        row,
        rw (record_failed_login, e, free) (counted-attempts name row s),
        rw (e, failed_count) refl,
        ground arith,
      )
]

module _ (checkpw : String → String → Bool) (name : String) where
  -- The attempts that get past the test of the lock, so that the password is compared.
  unfoldable pub tries : List Login → UserStore → ℕ
  tries [] s = 0
  tries (t ∷ ts) s =
      let rest = tries ts (authenticate checkpw name t s).0 in
      if is_account_locked t.tested name s then rest else suc rest

  -- None of the attempts, one after another, logs in.
  abbrev pub AllFail : List Login → UserStore → Type 0
  AllFail [] s = Unit
  AllFail (t ∷ ts) s =
      ((authenticate checkpw name t s).1 ≡ none) × AllFail ts (authenticate checkpw name t s).0

  -- An attempt within the length of a lockout from a time on.
  pub record InSpan (start : ℕ) (t : Login) : Type 0 where
    pub begins : start ≤ t.tested
    pub in_order : t.tested ≤ t.failed
    pub ends : t.tested < start + lockout_duration

  authenticate_locked :
      (t : Login) (s : UserStore)
      → is_account_locked t.tested name s ≡ true
      → authenticate checkpw name t s ≡ (s, none)
  unfolding authenticate
  authenticate_locked t s h = rw h refl

  authenticate_failed :
      (t : Login) (s : UserStore)
      → is_account_locked t.tested name s ≡ false
      → (authenticate checkpw name t s).1 ≡ none
      → (authenticate checkpw name t s).0 ≡ (record_failed_login t.failed name s).0
  unfolding authenticate
  authenticate_failed t s h n = elim (Option-cases (get_user name s)) [
    | inl e ↦ rw (authenticate, h, e) refl
    | inr (u, e) ↦ elim (Bool-cases (checkpw t.password u.password_hash)) [
      | inl k ↦ absurd (ground (arith, h, n, e, k))
      | inr k ↦ rw (authenticate, h, e, k) refl
    ]
  ]

  locked_of_attempts :
      (now : ℕ) (s : UserStore) (r : Attempts)
      → Dict.get s.login_attempts name ≡ some r
      → now < r.locked_until
      → is_account_locked now name s ≡ true
  unfolding is_account_locked
  locked_of_attempts now s r e lt = ground (arith, e)

  later_free :
      (now now' : ℕ) (s : UserStore)
      → now ≤ now'
      → is_account_locked now name s ≡ false
      → is_account_locked now' name s ≡ false
  unfolding is_account_locked
  later_free now now' s le h = ground (arith, h)

  -- While the lock holds nothing is tried.
  tries_locked :
      (ts : List Login) (s : UserStore) (r : Attempts) (until : ℕ)
      → Dict.get s.login_attempts name ≡ some r
      → r.locked_until ≡ until
      → All (λ t. t.tested < until) ts
      → tries ts s ≡ 0
  unfolding tries
  tries_locked [] s r until e l h = refl
  tries_locked (t ∷ ts) s r until e l h =
      let k : is_account_locked t.tested name s ≡ true =
        locked_of_attempts t.tested s r e (rw l h.0) in
      let same = ap (λ (p : UserStore × Option User). p.0) (authenticate_locked t s k) in
      rw k (ap (tries ts) same ∙ tries_locked ts s r until e l h.1)

  All-later :
      (start until : ℕ) (ts : List Login)
      → start ≤ until
      → All (InSpan start) ts
      → All (λ t. t.tested < until + lockout_duration) ts
  All-later start until [] le h = tt
  All-later start until (t ∷ ts) le h = (omega (arith, h.0.ends), All-later start until ts le h.1)

  -- Within the length of a lockout, attempts that do not log in get at most as many passwords compared
  -- as failures are missing to the fifth, and one where none is missing.
  pub tries-le :
      (start : ℕ) (ts : List Login) (s : UserStore)
      → All (InSpan start) ts
      → AllFail ts s
      → tries ts s ≤ 1 + (4 - failed_count name s)
  unfolding tries failed_count
  tries-le start [] s h f = omega arith
  tries-le start (t ∷ ts) s h f = elim (Bool-cases (is_account_locked t.tested name s)) [
    | inl k ↦
        let same = ap (λ (p : UserStore × Option User). p.0) (authenticate_locked t s k) in
        rw k (rw same (tries-le start ts s h.1 (rw same at f.1)))
    | inr k ↦
        let s' = (record_failed_login t.failed name s).0 in
        let next : (authenticate checkpw name t s).0 ≡ s' = authenticate_failed t s k f.0 in
        let free = later_free t.tested t.failed s h.0.in_order k in
        let (r, e, count, lock) = record_failed_login-attempts t.failed name s free in
        rw (k, next)
          (elim lock [
            | inl few ↦
                let fewer : failed_count name s' ≡ failed_count name s + 1 =
                  rw (failed_count, e) count in
                omega (arith, tries-le start ts s' h.1 (rw next at f.1), fewer, count, few)
            | inr locked ↦
                let none_left =
                  tries_locked ts s' r (t.failed + lockout_duration) e locked
                    (All-later start t.failed ts (omega (arith, h.0.begins, h.0.in_order)) h.1) in
                omega (arith, none_left)
          ])
  ]
