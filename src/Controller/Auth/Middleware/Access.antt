-- ===== src/Controller/Auth/Middleware/Access.antt =====
-- Who gets past the middleware.
use text.Mathlib.Text.{starts_with}
use bmt_ai_os.Prelude.{
  ℕ, ◌≡◌, ◌⊎◌, ◌↔◌, refl, inl, inr, String, Bool, true, false, Bool-cases, Option, none, some,
  Option-cases, Result, ok, Result-cases, arith,
}
use bmt_ai_os.Prelude.Dict.{Dict}
use bmt_ai_os.Controller.Auth.Users.{Role, admin, value, to_role, UserStore, has_users}
use bmt_ai_os.Controller.Auth.Tokens.{Payload, TokenError, Revoked, verify_token}
use bmt_ai_os.Controller.Auth.Middleware.{
  exempt_prefixes, under_any, role_allows, Request, next, auth_error, role_text, enforce,
  bearer_token, dispatch,
}

module _ (upper : String → String) (decode : ℕ → String → Result TokenError Payload)
    (decoded pruned : ℕ) (api_key : Bool) (s : UserStore) (q : Request) (rows : Dict Revoked) where
  -- The request carries a token that is valid and not revoked, whose role may do what is asked.
  pub record Authorized : Type 0 where
    pub payload : Payload
    pub role : Role
    pub bearer : starts_with q.authorization "Bearer " ≡ true
    pub verified :
        (verify_token decode decoded pruned (bearer_token q.authorization) rows).1 ≡ ok payload
    pub is_role : to_role (role_text payload) ≡ some role
    pub allowed : role_allows upper role q.method q.path ≡ true

  enforce-next :
      (p : Payload) (user role : Option String)
      → enforce upper q p ≡ next user role
      → (r : Role) × (to_role (role_text p) ≡ some r) × (role_allows upper r q.method q.path ≡ true)
  unfolding enforce
  enforce-next p user role h = elim (Option-cases (to_role (role_text p))) [
    | inl e ↦ absurd (ground (arith, e, h))
    | inr (r, e) ↦ elim (Bool-cases (role_allows upper r q.method q.path)) [
      | inl k ↦ (r, e, k)
      | inr k ↦ absurd (ground (arith, e, h, k))
    ]
  ]

  next-Authorized :
      (user role : Option String)
      → under_any q.path exempt_prefixes ≡ false
      → has_users s ≡ true
      → (dispatch upper decode decoded pruned api_key s q rows).1 ≡ next user role
      → Authorized
  unfolding dispatch auth_error
  next-Authorized user role path users h =
      elim (Bool-cases (starts_with q.authorization "Bearer ")) [
        | inr b ↦ absurd (ground (arith, h, path, users, b))
        | inl b ↦
            elim (Result-cases
              (verify_token decode decoded pruned (bearer_token q.authorization) rows).1) [
                | inr (e, v) ↦ absurd (ground (arith, rw (path, users, b, v) at h))
                | inl (p, v) ↦
                    let (r, e, k) = enforce-next p user role (rw (path, users, b, v) at h) in
                    record {
                      payload = p;
                      role = r;
                      bearer = b;
                      verified = v;
                      is_role = e;
                      allowed = k;
                    }
              ]
      ]

  Authorized-next :
      (a : Authorized)
      → under_any q.path exempt_prefixes ≡ false
      → has_users s ≡ true
      → (dispatch upper decode decoded pruned api_key s q rows).1
        ≡ next a.payload.sub (some (role_text a.payload))
  unfolding dispatch enforce
  Authorized-next a path users =
      rw (path, users, a.bearer, a.verified, enforce, a.is_role, a.allowed) refl

  dispatch_open :
      under_any q.path exempt_prefixes ≡ true
      → (dispatch upper decode decoded pruned api_key s q rows).1 ≡ next none none
  unfolding dispatch
  dispatch_open path = rw path refl

  dispatch_local :
      under_any q.path exempt_prefixes ≡ false
      → has_users s ≡ false
      → (user : Option String) × (role : Option String) × ((dispatch upper decode decoded pruned
            api_key s q rows).1
          ≡ next user role)
  unfolding dispatch
  dispatch_local path users = elim (Bool-cases api_key) [
    | inl k ↦ (none, none, rw (path, users, k) refl)
    | inr k ↦ (some "anonymous", some (value admin), rw (path, users, k) refl)
  ]

  -- A request reaches the next handler exactly when its path is exempt, no user exists, or it carries a
  -- token that is valid and not revoked, whose role may use the method on the path.
  pub dispatch-next_iff :
      ((user : Option String) × (role : Option String) × ((dispatch upper decode decoded pruned
            api_key s q rows).1
          ≡ next user role))
      ↔ ((under_any q.path exempt_prefixes ≡ true) ⊎ ((has_users s ≡ false) ⊎ Authorized))
  dispatch-next_iff = (
    λ (user, role, h). elim (Bool-cases (under_any q.path exempt_prefixes)) [
      | inl path ↦ inl path
      | inr path ↦ elim (Bool-cases (has_users s)) [
        | inl users ↦ inr (inr (next-Authorized user role path users h))
        | inr users ↦ inr (inl users)
      ]
    ],
    λ h. elim (Bool-cases (under_any q.path exempt_prefixes)) [
      | inl path ↦ (none, none, dispatch_open path)
      | inr path ↦ elim (Bool-cases (has_users s)) [
        | inl users ↦ elim h [
          | inl path' ↦ absurd (ground (arith, path, path'))
          | inr (inl users') ↦ absurd (ground (arith, users, users'))
          | inr (inr a) ↦ (a.payload.sub, some (role_text a.payload), Authorized-next a path users)
        ]
        | inr users ↦ dispatch_local path users
      ]
    ],
  )
