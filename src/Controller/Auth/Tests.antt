-- ===== src/Controller/Auth/Tests.antt =====
-- Logins, a revocation and two requests on a store with one user.
use bmt_ai_os.Prelude.{
  ℕ, ◌+◌, ◌-◌, ◌≤◌, ◌≡◌, ◌⊎◌, ◌↔◌, refl, inl, inr, String, Bool, true, false, Option, none, some,
  List, [], ◌∷◌, str_eq, Result, ok, err, ltb, arith, if◌then◌else◌, Bool-cases,
}
use bmt_ai_os.Prelude.Dict
use bmt_ai_os.Prelude.Dict.{Dict}
use bmt_ai_os.Controller.Auth.Users.{
  UserStore, Login, User, operator, seconds, is_account_locked, get_user, authenticate,
  record_failed_login, has_users, to_role,
}
use bmt_ai_os.Controller.Auth.Users.Lockout.{failed_count, tries, AllFail, tries-le}
use bmt_ai_os.Controller.Auth.Users.Success.{authenticate_iff}
use bmt_ai_os.Controller.Auth.Tokens.{
  Payload, TokenError, expired, invalid, verify_token, revoke_token, jti_of, insert_revoked,
  is_token_revoked, prune_revoked_tokens, Change, revocation, purge, lookup_of, change_all,
}
use bmt_ai_os.Controller.Auth.Tokens.Revocation.{IsJwt, revoked-refused}
use bmt_ai_os.Controller.Auth.Middleware.{
  bearer_token, role_text, role_allows, Request, next, dispatch, under_any, exempt_prefixes,
}
use bmt_ai_os.Controller.Auth.Middleware.Access.{Authorized, dispatch-next_iff}

-- A hash that is the password.
abbrev checkpw : String → String → Bool
checkpw password hash = str_eq password hash

abbrev store : UserStore
store = record {
  users =
      (
        "ann",
        record {
          id = 1;
          password_hash = "secret";
          role = operator;
          created_at = "";
          failed_logins = 0;
          locked_until = 0;
        },
      )
      ∷ [];
  next_id = 2;
  login_attempts = [];
}

abbrev guess : ℕ → Login
guess now = record { tested = now; failed = now; password = "guess" }

abbrev guesses : List Login
guesses = guess 1 ∷ guess 2 ∷ guess 3 ∷ guess 4 ∷ guess 5 ∷ guess 6 ∷ guess 7 ∷ []

-- Five of the seven guesses are compared with the hash.
five_tries : tries checkpw "ann" guesses store ≡ 5
unfolding tries authenticate is_account_locked get_user record_failed_login Dict.get Dict.put
five_tries = refl

all_fail : AllFail checkpw "ann" guesses store
unfolding authenticate is_account_locked get_user record_failed_login Dict.get Dict.put
all_fail = (refl, (refl, (refl, (refl, (refl, (refl, (refl, tt)))))))

tries-le_example : tries checkpw "ann" guesses store ≤ 1 + (4 - failed_count "ann" store)
tries-le_example = tries-le checkpw "ann" 0 guesses store (omega arith) all_fail

abbrev login : Login
login = record { tested = 9; failed = 9; password = "secret" }

abbrev ann : User
ann = record {
  id = 1;
  username = "ann";
  password_hash = "secret";
  role = operator;
  created_at = "";
  failed_logins = 0;
  locked_until = none;
}

authenticate_iff_example : ((authenticate checkpw "ann" login store).1 ≡ some ann) ↔ (
    (is_account_locked 9 "ann" store ≡ false)
    × (get_user "ann" store ≡ some ann)
    × (str_eq "secret" "secret" ≡ true)
    × (is_account_locked 10 "ann" (authenticate checkpw "ann" login store).0 ≡ false)
    × (Dict.get (authenticate checkpw "ann" login store).0.users "bob"
        ≡ Dict.get store.users "bob"))
authenticate_iff_example = authenticate_iff checkpw "ann" login store ann 10 "bob" refl

-- A decoder that knows one token.
abbrev claims : Payload
claims = record { sub = some "ann"; role = some "operator"; exp = some 1000; jti = some "t1" }

abbrev decode_any : String → Result TokenError Payload
decode_any token = if str_eq token "token" then ok claims else err invalid

abbrev decode : ℕ → String → Result TokenError Payload
decode now token = if ltb now (seconds 1000) then decode_any token else err expired

decode-IsJwt : IsJwt decode decode_any
decode-IsJwt = record {
  unexpired = λ now e token p h x. elim (Bool-cases (ltb now (seconds 1000))) [
    | inl k ↦ elim (Bool-cases (str_eq token "token")) [
      | inl t ↦ ground (arith, h, x, k, t)
      | inr t ↦ absurd (ground (arith, h, k, t))
    ]
    | inr k ↦ absurd (ground (arith, h, k))
  ];
  agrees = λ now token p h. elim (Bool-cases (ltb now (seconds 1000))) [
    | inl k ↦ rw k at h
    | inr k ↦ absurd (ground (arith, h, k))
  ];
}

abbrev changes : List Change
changes = purge 20 ∷ revocation 30 "t2" 40 ∷ lookup_of 50 "t2" ∷ []

revoked-refused_example :
    (x : TokenError) × ((verify_token decode 60 61 "token"
        (change_all changes (insert_revoked 10 "t1" (seconds 1000) []))).1
      ≡ err x)
revoked-refused_example =
    revoked-refused decode decode_any 5 10 60 61 1000 "token" "t1" claims []
      (insert_revoked 10 "t1" (seconds 1000) []) changes decode-IsJwt refl (unfold jti_of in refl)
      refl (unfold revoke_token jti_of in refl) (omega arith, (inl refl, (omega arith, tt)))
      (inl (omega arith))

abbrev request : Request
request = record { path = "/api/v1/rag/query"; method = "POST"; authorization = "Bearer token" }

dispatch-next_iff_example :
    ((user : Option String) × (role : Option String) × ((dispatch
          (λ m. m)
          decode
          60
          61
          false
          store
          request
          []).1
        ≡ next user role))
    ↔ ((under_any "/api/v1/rag/query" exempt_prefixes ≡ true)
        ⊎ ((has_users store ≡ false) ⊎ Authorized (λ m. m) decode 60 61 false store request []))
dispatch-next_iff_example = dispatch-next_iff (λ m. m) decode 60 61 false store request []

let_through :
    (dispatch (λ m. m) decode 60 61 false store request []).1 ≡ next (some "ann") (some "operator")
unfolding dispatch under_any has_users verify_token bearer_token jti_of is_token_revoked
    Dict.contains Dict.keys prune_revoked_tokens to_role role_text role_allows
let_through = refl
