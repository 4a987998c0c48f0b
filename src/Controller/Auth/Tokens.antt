-- ===== src/Controller/Auth/Tokens.antt =====
-- Tokens and the table `revoked_tokens` in bmt_ai_os/controller/auth.py. The decoding of a token by PyJWT
-- is an argument: `decode` at a time of the clock, and `decode_any` with the expiry unchecked.
pub mod Revocation
use bmt_ai_os.Prelude.{
  ℕ, ◌+◌, ◌/◌, String, Bool, true, false, Option, none, some, List, [], ◌∷◌, ltb, str_eq,
  if◌then◌else◌, Result, ok, err,
}
use bmt_ai_os.Prelude.Dict
use bmt_ai_os.Prelude.Dict.{Dict}
use bmt_ai_os.Controller.Auth.Users.{User, value, seconds}

-- The claims that the code reads; `exp` is in seconds.
pub record Payload : Type 0 where
  pub sub : Option String
  pub role : Option String
  pub exp : Option ℕ
  pub jti : Option String

pub data TokenError : Type 0 where
  expired invalid revoked no_jti : TokenError

abbrev pub jwt_expiry_seconds : ℕ
jwt_expiry_seconds = 86400

-- The payload that `create_token` signs; `now` is in seconds, and `fresh` a new `uuid4`.
unfoldable pub claims_of : ℕ → String → User → Payload
claims_of now fresh u = record {
  sub = some u.username;
  role = some (value u.role);
  exp = some (now + jwt_expiry_seconds);
  jti = some fresh;
}

-- A row of `revoked_tokens` without its key, the `jti`.
pub record Revoked : Type 0 where
  pub revoked_at : ℕ
  pub expires_at : ℕ

-- The store's `revoke_token`
unfoldable pub insert_revoked : ℕ → String → ℕ → Dict Revoked → Dict Revoked
insert_revoked now jti expires_at rows =
    Dict.put rows jti (record { revoked_at = now; expires_at = expires_at })

-- `DELETE FROM revoked_tokens WHERE expires_at < ?`
unfoldable pub prune_revoked_tokens : ℕ → Dict Revoked → Dict Revoked
prune_revoked_tokens now [] = []
prune_revoked_tokens now ((j, r) ∷ rows) =
    let rest = prune_revoked_tokens now rows in if ltb r.expires_at now then rest else (j, r) ∷ rest

unfoldable pub is_token_revoked : ℕ → String → Dict Revoked → Dict Revoked × Bool
is_token_revoked now jti rows =
    let rows' = prune_revoked_tokens now rows in (rows', Dict.contains jti (Dict.keys rows'))

-- `payload.get("jti")`, if it is not empty.
unfoldable pub jti_of : Payload → Option String
jti_of p = elim p.jti [ none ↦ none | some j ↦ if str_eq j "" then none else some j ]

-- `decoded` and `pruned` are the readings of the clock by the decoder and by the store.
unfoldable pub verify_token :
    (ℕ → String → Result TokenError Payload)
    → ℕ
    → ℕ
    → String
    → Dict Revoked
    → Dict Revoked × Result TokenError Payload
verify_token decode decoded pruned token rows = elim (decode decoded token) [
  | err e ↦ (rows, err e)
  | ok p ↦ elim (jti_of p) [
    | none ↦ (rows, ok p)
    | some j ↦
        let (rows', is_revoked) = is_token_revoked pruned j rows in
        if is_revoked then (rows', err revoked) else (rows', ok p)
  ]
]

-- The module's `revoke_token`, where the clock is read for a missing `exp` and for the row.
unfoldable pub revoke_token :
    (String → Result TokenError Payload)
    → ℕ
    → ℕ
    → String
    → Dict Revoked
    → Result TokenError (Dict Revoked)
revoke_token decode_any read now token rows = elim (decode_any token) [
  | err e ↦ err e
  | ok p ↦ elim (jti_of p) [
    | none ↦ err no_jti
    | some j ↦
        let exp : ℕ = elim p.exp [ none ↦ read / seconds 1 + jwt_expiry_seconds | some e ↦ e ] in
        ok (insert_revoked now j (seconds exp) rows)
  ]
]

-- What else happens to the table: other revocations, `purge_expired_blacklist_entries`, and tests of
-- other tokens.
pub data Change : Type 0 where
  revocation : ℕ → String → ℕ → Change
  purge : ℕ → Change
  lookup_of : ℕ → String → Change

unfoldable pub change : Change → Dict Revoked → Dict Revoked
change (revocation now jti expires_at) rows = insert_revoked now jti expires_at rows
change (purge now) rows = prune_revoked_tokens now rows
change (lookup_of now jti) rows = (is_token_revoked now jti rows).0

unfoldable pub change_all : List Change → Dict Revoked → Dict Revoked
unfolding change
change_all [] rows = rows
change_all (c ∷ cs) rows = change_all cs (change c rows)
