-- ===== src/Controller/ProviderKeys.antt =====
-- ProviderKeyStore of bmt_ai_os/controller/provider_config_routes.py, on the rows of its table. Fernet, with the seed of
-- a ciphertext, and HMAC are parameters. Times are ticks of `time.time()`, a hundred thousand to the second, and a
-- call reads the clock once. Of rows that ORDER BY does not tell apart the first comes first.
pub mod Selection
pub mod Rows
pub mod Cooldown
pub mod Fairness
mod Tests
use bmt_ai_os.Prelude.{
  ℕ, suc, ◌+◌, ◌*◌, String, Bool, true, false, not, ◌&&◌, ◌||◌, Option, none, some, List, [], ◌∷◌,
  ◌++◌, map, ltb, ◌==◌, str_eq, if◌then◌else◌,
}

abbrev pub cooldown_seconds : ℕ
cooldown_seconds = 60 * 100000

pub record ProviderKey : Type 0 where
  pub id : String
  pub provider_name : String
  pub key_hash : String
  pub encrypted_key : String
  pub credential_type : String
  pub display_name : String
  pub expires_at : Option ℕ
  pub encrypted_refresh : String
  pub usage_count : ℕ
  pub last_used : Option ℕ
  pub last_error : Option String
  pub cooldown_until : Option ℕ

-- A row of the table, with the column that `_row_to_key` leaves out.
pub record KeyRow : Type 0 where
  pub key : ProviderKey
  pub created_at : ℕ

unfoldable pub is_in_cooldown : ℕ → ProviderKey → Bool
is_in_cooldown now k = elim k.cooldown_until [ none ↦ false | some t ↦ ltb now t ]

unfoldable pub is_expired : ℕ → ProviderKey → Bool
is_expired now k = elim k.expires_at [ none ↦ false | some t ↦ ltb t now ]

unfoldable pub is_available : ℕ → ProviderKey → Bool
unfolding is_in_cooldown is_expired
is_available now k = not (is_in_cooldown now k) && not (is_expired now k)

-- WHERE provider_name = ?
unfoldable pub of_provider : String → List KeyRow → List KeyRow
of_provider provider [] = []
of_provider provider (r ∷ rows) =
    let rest = of_provider provider rows in
    if str_eq r.key.provider_name provider then r ∷ rest else rest

-- ORDER BY usage_count, created_at
unfoldable pub is_before : KeyRow → KeyRow → Bool
is_before a b =
    ltb a.key.usage_count b.key.usage_count
    || (a.key.usage_count == b.key.usage_count && ltb a.created_at b.created_at)

unfoldable pub insert : KeyRow → List KeyRow → List KeyRow
unfolding is_before
insert r [] = r ∷ []
insert r (x ∷ rows) = let rest = insert r rows in if is_before x r then x ∷ rest else r ∷ x ∷ rows

unfoldable pub order : List KeyRow → List KeyRow
unfolding insert
order [] = []
order (r ∷ rows) = insert r (order rows)

abbrev pub row_to_key : KeyRow → ProviderKey
row_to_key r = r.key

unfoldable pub list_keys : String → List KeyRow → List ProviderKey
unfolding of_provider order
list_keys provider rows = map row_to_key (order (of_provider provider rows))

unfoldable pub get_key : String → List KeyRow → Option ProviderKey
get_key id [] = none
get_key id (r ∷ rows) =
    let rest = get_key id rows in if str_eq r.key.id id then some r.key else rest

unfoldable pub available : ℕ → List ProviderKey → List ProviderKey
unfolding is_available
available now [] = []
available now (k ∷ keys) =
    let rest = available now keys in if is_available now k then k ∷ rest else rest

unfoldable pub pick_key : ℕ → String → List KeyRow → Option ProviderKey
unfolding list_keys available
pick_key now provider rows = elim (available now (list_keys provider rows)) [
  | [] ↦ none
  | k ∷ keys ↦ some k
]

-- UPDATE ... WHERE id = ?
unfoldable pub update_where : (ProviderKey → ProviderKey) → String → List KeyRow → List KeyRow
update_where f id [] = []
update_where f id (r ∷ rows) =
    let rest = update_where f id rows in
    if str_eq r.key.id id then record r { key = f r.key } ∷ rest else r ∷ rest

abbrev pub used_at : ℕ → ProviderKey → ProviderKey
used_at now k = record k { usage_count = suc k.usage_count; last_used = some now }

unfoldable pub record_usage : ℕ → String → List KeyRow → List KeyRow
unfolding update_where
record_usage now id rows = update_where (used_at now) id rows

unfoldable pub record_error : ℕ → String → String → Bool → List KeyRow → List KeyRow
unfolding update_where
record_error now id error apply_cooldown rows =
    if apply_cooldown
    then update_where
        (λ k. record k { last_error = some error; cooldown_until = some (now + cooldown_seconds) })
        id rows
    else update_where (λ k. record k { last_error = some error }) id rows

unfoldable pub delete_key : String → String → List KeyRow → List KeyRow × Bool
delete_key provider id [] = ([], false)
delete_key provider id (r ∷ rows) =
    let (rest, deleted) = delete_key provider id rows in
    if str_eq r.key.id id && str_eq r.key.provider_name provider
    then (rest, true)
    else (r ∷ rest, deleted)

-- PRIMARY KEY (id)
unfoldable pub has_id : String → List KeyRow → Bool
has_id id [] = false
has_id id (r ∷ rows) = str_eq r.key.id id || has_id id rows

-- UNIQUE (provider_name, key_hash)
unfoldable pub has_hash : String → String → List KeyRow → Bool
has_hash provider hash [] = false
has_hash provider hash (r ∷ rows) =
    (str_eq r.key.provider_name provider && str_eq r.key.key_hash hash)
    || has_hash provider hash rows

-- The same index, met by an UPDATE of the row with an id.
unfoldable pub other_has_hash : String → String → String → List KeyRow → Bool
other_has_hash id provider hash [] = false
other_has_hash id provider hash (r ∷ rows) =
    (not (str_eq r.key.id id)
      && (str_eq r.key.provider_name provider && str_eq r.key.key_hash hash))
    || other_has_hash id provider hash rows

pub record Cipher : Type 0 where
  pub encrypt : ℕ → String → String
  pub decrypt : String → String
  pub hash_key : String → String

-- The arguments of `add_key`.
pub record Credential : Type 0 where
  pub provider_name : String
  pub raw_key : String
  pub credential_type : String
  pub display_name : String
  pub expires_at : Option ℕ
  pub refresh_token : String

module _ (c : Cipher) where
  encrypt_refresh : ℕ → String → String
  encrypt_refresh seed refresh_token =
      if str_eq refresh_token "" then "" else c.encrypt seed refresh_token

  unfoldable pub key_of : String → ℕ → Credential → ProviderKey
  unfolding encrypt_refresh
  key_of id seed q = record {
    id = id;
    provider_name = q.provider_name;
    key_hash = c.hash_key q.raw_key;
    encrypted_key = c.encrypt seed q.raw_key;
    credential_type = q.credential_type;
    display_name = q.display_name;
    expires_at = q.expires_at;
    encrypted_refresh = encrypt_refresh (suc seed) q.refresh_token;
    usage_count = 0;
    last_used = none;
    last_error = none;
    cooldown_until = none;
  }

  -- `none` is the ValueError for an IntegrityError of the table.
  unfoldable pub add_key :
      String → ℕ → ℕ → Credential → List KeyRow → Option (List KeyRow × ProviderKey)
  unfolding has_id has_hash key_of
  add_key id seed now q rows =
      if has_id id rows || has_hash q.provider_name (c.hash_key q.raw_key) rows
      then none
      else some (rows ++ record { key = key_of id seed q; created_at = now } ∷ [], key_of id seed q)

  unfoldable pub renewed : ℕ → String → String → ℕ → ProviderKey → ProviderKey
  unfolding encrypt_refresh
  renewed seed access_token refresh_token expires_at k = record k {
    encrypted_key = c.encrypt seed access_token;
    encrypted_refresh = encrypt_refresh (suc seed) refresh_token;
    expires_at = some expires_at;
    key_hash = c.hash_key access_token;
  }

  -- `none` is the IntegrityError, which nothing catches.
  unfoldable pub update_oauth_tokens :
      ℕ → String → String → String → ℕ → List KeyRow → Option (List KeyRow)
  unfolding get_key other_has_hash update_where renewed
  update_oauth_tokens seed id access_token refresh_token expires_at rows =
      let hash = c.hash_key access_token in
      elim (get_key id rows) [
        | none ↦ some rows
        | some k ↦
            if other_has_hash id k.provider_name hash rows
            then none
            else some (update_where (renewed seed access_token refresh_token expires_at) id rows)
      ]

  unfoldable pub get_active_key_for_provider :
      ℕ → String → List KeyRow → List KeyRow × Option String
  unfolding pick_key record_usage
  get_active_key_for_provider now provider rows = elim (pick_key now provider rows) [
    | none ↦ (rows, none)
    | some k ↦ (record_usage now k.id rows, some (c.decrypt k.encrypted_key))
  ]
