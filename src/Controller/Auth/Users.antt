-- ===== src/Controller/Auth/Users.antt =====
-- The tables `users` and `login_attempts` of UserStore in bmt_ai_os/controller/auth.py. A table whose key
-- is a text is a dict. Times are ticks of `time.time()`, a hundred thousand to the second.
pub mod Lockout
pub mod Success
use bmt_ai_os.Prelude.{
  ℕ, ◌+◌, ◌*◌, String, Bool, true, false, not, Option, none, some, List, [], ◌∷◌, ltb, leb, str_eq,
  if◌then◌else◌, Result, ok, err, length, map,
}
use bmt_ai_os.Prelude.Dict
use bmt_ai_os.Prelude.Dict.{Dict}

pub data Role : Type 0 where
  viewer operator admin : Role

-- `Role(text)`; `none` is its `ValueError`.
unfoldable pub to_role : String → Option Role
to_role s =
    if str_eq s "viewer"
    then some viewer
    else if str_eq s "operator"
    then some operator
    else if str_eq s "admin"
    then some admin
    else none

-- `role.value`
unfoldable pub value : Role → String
value viewer = "viewer"
value operator = "operator"
value admin = "admin"

abbrev pub seconds : ℕ → ℕ
seconds n = n * 100000

abbrev pub max_failed_attempts : ℕ
max_failed_attempts = 5

abbrev pub lockout_duration : ℕ
lockout_duration = seconds 900

abbrev pub min_password_length : ℕ
min_password_length = 12

-- A row of `users` without its key, the name. In the table no lock is the time 0.
pub record UserRow : Type 0 where
  pub id : ℕ
  pub password_hash : String
  pub role : Role
  pub created_at : String
  pub failed_logins : ℕ
  pub locked_until : ℕ

pub record User : Type 0 where
  pub id : ℕ
  pub username : String
  pub password_hash : String
  pub role : Role
  pub created_at : String
  pub failed_logins : ℕ
  pub locked_until : Option ℕ

-- A row of `login_attempts` without its key.
pub record Attempts : Type 0 where
  pub failed_count : ℕ
  pub last_failed_at : ℕ
  pub locked_until : ℕ

pub record UserStore : Type 0 where
  pub users : Dict UserRow
  pub next_id : ℕ
  pub login_attempts : Dict Attempts

pub data ValueError : Type 0 where
  invalid_role username_exists : ValueError
  too_short no_uppercase no_lowercase no_digit : ValueError

row_to_user : String → UserRow → User
row_to_user name r = record {
  id = r.id;
  username = name;
  password_hash = r.password_hash;
  role = r.role;
  created_at = r.created_at;
  failed_logins = r.failed_logins;
  locked_until = if ltb 0 r.locked_until then some r.locked_until else none;
}

unfoldable pub get_user : String → UserStore → Option User
unfolding row_to_user
get_user name s = elim (Dict.get s.users name) [ none ↦ none | some r ↦ some (row_to_user name r) ]

unfoldable pub is_locked : ℕ → User → Bool
is_locked now u = elim u.locked_until [ none ↦ false | some t ↦ ltb now t ]

unfoldable pub has_users : UserStore → Bool
has_users s = ltb 0 (length s.users)

-- `UPDATE users SET ... WHERE username = ?`: nothing where no row has the name.
update_row : String → (UserRow → UserRow) → Dict UserRow → Dict UserRow
update_row name f users = elim (Dict.get users name) [
  | none ↦ users
  | some r ↦ Dict.put users name (f r)
]

-- `UPDATE login_attempts SET ... WHERE username = ?`
update_attempts : String → (Attempts → Attempts) → Dict Attempts → Dict Attempts
update_attempts name f rows = elim (Dict.get rows name) [
  | none ↦ rows
  | some r ↦ Dict.put rows name (f r)
]

-- `cur.rowcount` of such an update is not zero.
is_user : String → UserStore → Bool
is_user name s = Dict.contains name (Dict.keys s.users)

any : (ℕ → Bool) → List ℕ → Bool
any p [] = false
any p (c ∷ cs) = if p c then true else any p cs

-- The tests `str.isupper`, `str.islower` and `str.isdigit` of a character are arguments; the password
-- is the list of its code points.
unfoldable pub validate_password_complexity :
    (ℕ → Bool) → (ℕ → Bool) → (ℕ → Bool) → List ℕ → Option ValueError
unfolding any
validate_password_complexity is_upper is_lower is_digit password =
    if ltb (length password) min_password_length
    then some too_short
    else if not (any is_upper password)
    then some no_uppercase
    else if not (any is_lower password)
    then some no_lowercase
    else if not (any is_digit password)
    then some no_digit
    else none

-- `complexity` is the outcome of the test of the password, `none` also where it is skipped, and `hash`
-- what bcrypt makes of it.
unfoldable pub create_user :
    String
    → String
    → Option ValueError
    → String
    → String
    → UserStore
    → UserStore × Result ValueError User
unfolding row_to_user
create_user name role complexity hash now s = elim (to_role role) [
  | none ↦ (s, err invalid_role)
  | some r ↦ elim complexity [
    | some e ↦ (s, err e)
    | none ↦
        if Dict.contains name (Dict.keys s.users)
        then (s, err username_exists)
        else (let row : UserRow = record {
          id = s.next_id;
          password_hash = hash;
          role = r;
          created_at = now;
          failed_logins = 0;
          locked_until = 0;
        } in
            (
              record s { users = Dict.put s.users name row; next_id = s.next_id + 1 },
              ok (row_to_user name row),
            ))
  ]
]

unfoldable pub delete_user : String → UserStore → UserStore × Bool
unfolding is_user
delete_user name s = (record s { users = Dict.pop s.users name }, is_user name s)

unfoldable pub update_user_role : String → String → UserStore → UserStore × Result ValueError Bool
unfolding is_user update_row
update_user_role name role s = elim (to_role role) [
  | none ↦ (s, err invalid_role)
  | some r ↦ (
    record s { users = update_row name (λ row. record row { role = r }) s.users },
    ok (is_user name s),
  )
]

-- The row of `login_attempts` is replaced; its count is kept, or 0 where there was none.
unfoldable pub lock_account : ℕ → ℕ → String → UserStore → UserStore × Bool
unfolding is_user update_row
lock_account now duration name s =
    let until = now + duration in
    let count : ℕ = elim (Dict.get s.login_attempts name) [ none ↦ 0 | some r ↦ r.failed_count ] in
    let row : Attempts = record {
      failed_count = count;
      last_failed_at = now;
      locked_until = until;
    } in
    (
      record s {
        users = update_row name (λ r. record r { locked_until = until }) s.users;
        login_attempts = Dict.put s.login_attempts name row;
      },
      is_user name s,
    )

-- The updates of `unlock_account` and `reset_failed_logins`.
unfoldable pub reset_failed_logins : String → UserStore → UserStore
unfolding update_row update_attempts
reset_failed_logins name s = record s {
  users = update_row name (λ r. record r { failed_logins = 0; locked_until = 0 }) s.users;
  login_attempts =
      update_attempts name (λ r. record r { failed_count = 0; locked_until = 0 }) s.login_attempts;
}

unfoldable pub unlock_account : String → UserStore → UserStore × Bool
unfolding is_user
unlock_account name s = (reset_failed_logins name s, is_user name s)

-- The last part of `record_failed_login`, which mirrors the count into `users`.
counted : String → Attempts → UserStore → UserStore × Bool
unfolding update_row
counted name row s = (
  record s {
    users =
        update_row name
          (λ r. record r { failed_logins = row.failed_count; locked_until = row.locked_until })
          s.users;
    login_attempts = Dict.put s.login_attempts name row;
  },
  leb max_failed_attempts row.failed_count,
)

unfoldable pub record_failed_login : ℕ → String → UserStore → UserStore × Bool
unfolding counted
record_failed_login now name s = elim (Dict.get s.login_attempts name) [
  | none ↦ counted name (record { failed_count = 1; last_failed_at = now; locked_until = 0 }) s
  | some r ↦
      if ltb now r.locked_until
      then (s, true)
      else (let count = r.failed_count + 1 in
          counted name
            (record {
              failed_count = count;
              last_failed_at = now;
              locked_until = if leb max_failed_attempts count then now + lockout_duration else 0;
            })
            s)
]

unfoldable pub is_account_locked : ℕ → String → UserStore → Bool
is_account_locked now name s =
    let in_users : Bool = elim (Dict.get s.users name) [
      | none ↦ false
      | some r ↦ ltb now r.locked_until
    ] in
    if in_users
    then true
    else elim (Dict.get s.login_attempts name) [ none ↦ false | some r ↦ ltb now r.locked_until ]

-- One call of `authenticate`: the clock when the lock is tested and when a failure is recorded, and the
-- password.
pub record Login : Type 0 where
  pub tested : ℕ
  pub failed : ℕ
  pub password : String

-- `checkpw` is bcrypt's comparison of a password with a hash.
unfoldable pub authenticate :
    (String → String → Bool) → String → Login → UserStore → UserStore × Option User
authenticate checkpw name t s =
    if is_account_locked t.tested name s then (s, none) else elim (get_user name s) [
      | none ↦ ((record_failed_login t.failed name s).0, none)
      | some u ↦
          if checkpw t.password u.password_hash
          then (reset_failed_logins name s, some u)
          else ((record_failed_login t.failed name s).0, none)
    ]
