-- ===== src/Controller/Auth/Middleware.antt =====
-- JWTAuthMiddleware in bmt_ai_os/controller/auth.py, and the permissions of the roles.
pub mod Access
use Prim.Native.String.{slice, len}
use text.Mathlib.Text.{starts_with}
use bmt_ai_os.Prelude.{
  ℕ, String, Bool, true, false, not, ◌&&◌, Option, none, some, List, [], ◌∷◌, str_eq, if◌then◌else◌,
  Result, ok, err,
}
use bmt_ai_os.Prelude.Dict.{Dict}
use bmt_ai_os.Controller.Auth.Users.{
  Role, viewer, operator, admin, to_role, value, UserStore, has_users,
}
use bmt_ai_os.Controller.Auth.Tokens.{
  Payload, TokenError, expired, invalid, revoked, no_jti, Revoked, verify_token,
}

abbrev pub exempt_prefixes : List String
exempt_prefixes =
    "/healthz" ∷ "/docs" ∷ "/openapi.json" ∷ "/redoc" ∷ "/metrics" ∷ "/api/v1/auth/login"
    ∷ "/api/v1/auth/logout" ∷ "/api/v1/status" ∷ "/api/v1/metrics" ∷ "/api/v1/providers"
    ∷ "/api/v1/logs" ∷ "/api/models" ∷ "/api/pull" ∷ "/v1/" ∷ "/api/v1/fleet/register"
    ∷ "/api/v1/fleet/heartbeat" ∷ "/api/v1/fleet/health" ∷ "/api/v1/fleet/summary"
    ∷ "/api/v1/fleet/devices" ∷ "/api/v1/training" ∷ "/ws/terminal" ∷ "/ws/ssh" ∷ []

abbrev pub operator_write_paths : List String
operator_write_paths =
    "/api/v1/models" ∷ "/api/v1/rag" ∷ "/api/v1/metrics" ∷ "/v1/chat" ∷ "/v1/completions"
    ∷ "/v1/embeddings" ∷ []

-- `any(path.startswith(p) for p in prefixes)`
unfoldable pub under_any : String → List String → Bool
under_any path [] = false
under_any path (p ∷ ps) = if starts_with path p then true else under_any path ps

-- `upper` is Python's `str.upper`.
unfoldable pub role_allows : (String → String) → Role → String → String → Bool
role_allows upper admin method path = true
role_allows upper operator method path =
    if str_eq (upper method) "GET" then true else under_any path operator_write_paths
role_allows upper viewer method path = str_eq (upper method) "GET"

-- The request; `authorization` is the header, empty where it is missing.
pub record Request : Type 0 where
  pub path : String
  pub method : String
  pub authorization : String

-- What the middleware answers: the call of the next handler, with `request.state.user` and
-- `request.state.role` where they are set, a 401 with its code, a 403, or a `ValueError`.
pub data Response : Type 0 where
  next : Option String → Option String → Response
  unauthorized : String → Response
  forbidden crashed : Response

auth_error : TokenError → Response
auth_error expired = unauthorized "token_expired"
auth_error invalid = unauthorized "invalid_token"
auth_error revoked = unauthorized "token_revoked"
auth_error no_jti = unauthorized "invalid_token"

-- `payload.get("role", Role.viewer.value)`
unfoldable pub role_text : Payload → String
role_text p = elim p.role [ none ↦ value viewer | some r ↦ r ]

-- The access of a valid token.
enforce : (String → String) → Request → Payload → Response
enforce upper q p = elim (to_role (role_text p)) [
  | none ↦ crashed
  | some role ↦
      if role_allows upper role q.method q.path then next p.sub (some (role_text p)) else forbidden
]

-- `auth_header[7:]`, the header being one that starts with these seven characters.
unfoldable pub bearer_token : String → String
bearer_token header = slice header 7 (len header)

-- The store and the API key as they are at the request; `decoded` and `pruned` as in `verify_token`.
unfoldable pub dispatch :
    (String → String)
    → (ℕ → String → Result TokenError Payload)
    → ℕ
    → ℕ
    → Bool
    → UserStore
    → Request
    → Dict Revoked
    → Dict Revoked × Response
unfolding enforce auth_error
dispatch upper decode decoded pruned api_key s q rows =
    if under_any q.path exempt_prefixes
    then (rows, next none none)
    else if not (has_users s) && api_key
    then (rows, next none none)
    else if not (has_users s)
    then (rows, next (some "anonymous") (some (value admin)))
    else if not (starts_with q.authorization "Bearer ")
    then (rows, unauthorized "unauthorized")
    else (let (rows', r) = verify_token decode decoded pruned (bearer_token q.authorization) rows in
        elim r [ err e ↦ (rows', auth_error e) | ok p ↦ (rows', enforce upper q p) ])
