-- ===== src/Controller/Auth/Users/Success.antt =====
-- What a login that succeeds shows, and what it leaves.
use bmt_ai_os.Prelude.{
  ℕ, ◌≡◌, ◌↔◌, refl, sym, ap, ◌∙◌, inl, inr, String, Bool, true, false, Bool-cases, none, some,
  Option-cases, str_eq, str_eq_refl, str_eq_iff, if◌then◌else◌, arith,
}
use bmt_ai_os.Prelude.Dict
use bmt_ai_os.Prelude.Dict.{get-put}
use bmt_ai_os.Controller.Auth.Users.{
  UserStore, UserRow, User, Attempts, Login, is_account_locked, get_user, update_row,
  update_attempts, reset_failed_logins, authenticate,
}

get-update_row :
    (name other : String) (f : UserRow → UserRow) (rows : Dict.Dict UserRow)
    → Dict.get (update_row name f rows) other ≡ (
        if str_eq name other
        then elim (Dict.get rows name) [ none ↦ none | some r ↦ some (f r) ]
        else Dict.get rows other)
unfolding update_row
get-update_row name other f rows = elim (Option-cases (Dict.get rows name)) [
  | inl e ↦ ground (arith, e, str_eq_iff name other)
  | inr (r, e) ↦ ground (arith, e, get-put rows name other (f r))
]

get-update_attempts :
    (name other : String) (f : Attempts → Attempts) (rows : Dict.Dict Attempts)
    → Dict.get (update_attempts name f rows) other ≡ (
        if str_eq name other
        then elim (Dict.get rows name) [ none ↦ none | some r ↦ some (f r) ]
        else Dict.get rows other)
unfolding update_attempts
get-update_attempts name other f rows = elim (Option-cases (Dict.get rows name)) [
  | inl e ↦ ground (arith, e, str_eq_iff name other)
  | inr (r, e) ↦ ground (arith, e, get-put rows name other (f r))
]

-- A reset takes every lock from the account.
reset-free :
    (now : ℕ) (name : String) (s : UserStore)
    → is_account_locked now name (reset_failed_logins name s) ≡ false
unfolding reset_failed_logins is_account_locked
reset-free now name s =
    rw (get-update_row, get-update_attempts, str_eq_refl name)
      (elim (Option-cases (Dict.get s.users name)) [
        | inl e ↦ elim (Option-cases (Dict.get s.login_attempts name)) [
          | inl g ↦ ground (arith, e, g)
          | inr (r, g) ↦ ground (arith, e, g)
        ]
        | inr (u, e) ↦ elim (Option-cases (Dict.get s.login_attempts name)) [
          | inl g ↦ ground (arith, e, g)
          | inr (r, g) ↦ ground (arith, e, g)
        ]
      ])

-- It does not touch other accounts.
reset-other :
    (name other : String) (s : UserStore)
    → str_eq name other ≡ false
    → Dict.get (reset_failed_logins name s).users other ≡ Dict.get s.users other
unfolding reset_failed_logins
reset-other name other s h = rw (get-update_row, h) refl

module _ (checkpw : String → String → Bool) (name : String) where
  -- A login gives a user exactly when the account is not locked, the user's row is in the table and the
  -- password fits its hash; then no lock is left on the account, and the rows of other names stay.
  pub authenticate_iff :
      (t : Login) (s : UserStore) (u : User) (now : ℕ) (other : String)
      → str_eq name other ≡ false
      → ((authenticate checkpw name t s).1 ≡ some u) ↔ (
          (is_account_locked t.tested name s ≡ false)
          × (get_user name s ≡ some u)
          × (checkpw t.password u.password_hash ≡ true)
          × (is_account_locked now name (authenticate checkpw name t s).0 ≡ false)
          × (Dict.get (authenticate checkpw name t s).0.users other ≡ Dict.get s.users other))
  unfolding authenticate
  authenticate_iff t s u now other ne = (
    λ h. elim (Bool-cases (is_account_locked t.tested name s)) [
      | inl k ↦ absurd (ground (arith, h, k))
      | inr k ↦ elim (Option-cases (get_user name s)) [
        | inl e ↦ absurd (ground (arith, h, k, e))
        | inr (v, e) ↦ elim (Bool-cases (checkpw t.password v.password_hash)) [
          | inr c ↦ absurd (ground (arith, h, k, e, c))
          | inl c ↦
              let same : v ≡ u = ground (arith, h, k, e, c) in
              (
                k,
                e ∙ ap some same,
                rw (sym same) c,
                rw (authenticate, k, e, c) (reset-free now name s),
                rw (authenticate, k, e, c) (reset-other name other s ne),
              )
        ]
      ]
    ],
    λ (k, e, c, _, _). rw (authenticate, k, e, c) refl,
  )
