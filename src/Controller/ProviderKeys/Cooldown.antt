-- ===== src/Controller/ProviderKeys/Cooldown.antt =====
-- A key that a provider has limited, through the calls that follow.
use bmt_ai_os.Prelude.{
  ℕ, ◌+◌, ◌≤◌, ◌<◌, ◌≡◌, ◌⊎◌, refl, inl, inr, String, Bool, true, false, Bool-cases, Option,
  Option-cases, none, some, List, [], ◌∷◌, All, All-append, ltb, lt→ltb, ◌||◌, str_eq, arith,
}
use bmt_ai_os.Controller.ProviderKeys.{
  cooldown_seconds, ProviderKey, KeyRow, is_in_cooldown, is_available, update_where, used_at,
  record_usage, record_error, delete_key, Cipher, Credential, key_of, has_id, has_hash, get_key,
  other_has_hash, add_key, renewed, update_oauth_tokens, get_active_key_for_provider, pick_key,
}
use bmt_ai_os.Controller.ProviderKeys.Rows.{All-update_where, All-delete_key, All-Mem}
use bmt_ai_os.Controller.ProviderKeys.Selection.{IsLeast, is_usable, pick_key-IsLeast}

-- The calls of the store that change its table, with their arguments and the reading of the clock.
pub data Action : Type 0 where
  add : String → ℕ → ℕ → Credential → Action
  refresh : ℕ → String → String → String → ℕ → Action
  delete : String → String → Action
  use_key : ℕ → String → Action
  report : ℕ → String → String → Bool → Action
  serve : ℕ → String → Action

module _ (c : Cipher) where
  -- An exception leaves the table as it was.
  unfoldable pub act : Action → List KeyRow → List KeyRow
  act (add id seed now q) rows = elim (add_key c id seed now q rows) [ none ↦ rows | some r ↦ r.0 ]
  act (refresh seed id access_token refresh_token expires_at) rows =
      elim (update_oauth_tokens c seed id access_token refresh_token expires_at rows) [
        | none ↦ rows
        | some rows' ↦ rows'
      ]
  act (delete provider id) rows = (delete_key provider id rows).0
  act (use_key now id) rows = record_usage now id rows
  act (report now id error apply_cooldown) rows = record_error now id error apply_cooldown rows
  act (serve now provider) rows = (get_active_key_for_provider c now provider rows).0

  unfoldable pub act_all : List Action → List KeyRow → List KeyRow
  unfolding act
  act_all [] rows = rows
  act_all (a ∷ actions) rows = act_all actions (act a rows)

  -- A new key gets another id, and no clock reads less than the time.
  abbrev pub IsLater : ℕ → String → Action → Type 0
  IsLater now id (add new_id seed t q) = str_eq new_id id ≡ false
  IsLater now id (report t other error apply_cooldown) = now ≤ t
  IsLater now id _ = Unit {0}

-- Any row with the id is in its cooldown until the time, or later.
abbrev IsCooling : ℕ → String → KeyRow → Type 0
IsCooling end id r =
    (str_eq r.key.id id ≡ false) ⊎ ((t : ℕ) × (r.key.cooldown_until ≡ some t) × (end ≤ t))

pub update_oauth_tokens-cases :
    (c : Cipher) (seed : ℕ) (id access_token refresh_token : String) (expires_at : ℕ)
    (rows : List KeyRow)
    → let o : Option (List KeyRow) =
        update_oauth_tokens c seed id access_token refresh_token expires_at rows in
      (o ≡ none)
      ⊎ ((o ≡ some rows)
          ⊎ (o
              ≡ some (update_where (renewed c seed access_token refresh_token expires_at) id rows)))
unfolding update_oauth_tokens
update_oauth_tokens-cases c seed id access_token refresh_token expires_at rows =
    elim (Option-cases (get_key id rows)) [
      | inl k ↦ inr (inl (rw (k, update_oauth_tokens) refl))
      | inr (key, k) ↦
          elim (Bool-cases (other_has_hash id key.provider_name (c.hash_key access_token) rows)) [
            | inl j ↦ inl (rw (k, j, update_oauth_tokens) refl)
            | inr j ↦ inr (inr (rw (k, j, update_oauth_tokens) refl))
          ]
    ]

module _ (end : ℕ) (id : String) where
  record_usage-IsCooling :
      (now : ℕ) (other : String) (rows : List KeyRow)
      → All (IsCooling end id) rows
      → All (IsCooling end id) (record_usage now other rows)
  unfolding record_usage
  record_usage-IsCooling now other rows h =
      All-update_where (IsCooling end id) (IsCooling end id) (used_at now) other rows (λ r e p. p)
        (λ r p. p) h

  record_error-IsCooling :
      (now : ℕ) (other error : String) (apply_cooldown : Bool) (rows : List KeyRow)
      → end ≤ now + cooldown_seconds
      → All (IsCooling end id) rows
      → All (IsCooling end id) (record_error now other error apply_cooldown rows)
  unfolding record_error
  record_error-IsCooling now other error true rows le h =
      All-update_where (IsCooling end id) (IsCooling end id)
        (λ k. record k { last_error = some error; cooldown_until = some (now + cooldown_seconds) })
        other rows
        (λ r e p. elim p [ inl k ↦ inl k | inr k ↦ inr (now + cooldown_seconds, refl, le) ])
        (λ r p. p) h
  record_error-IsCooling now other error false rows le h =
      All-update_where (IsCooling end id) (IsCooling end id)
        (λ k. record k { last_error = some error }) other rows (λ r e p. p) (λ r p. p) h

  module _ (c : Cipher) where
    act-IsCooling :
        (now : ℕ) (a : Action) (rows : List KeyRow)
        → end ≤ now + cooldown_seconds
        → IsLater c now id a
        → All (IsCooling end id) rows
        → All (IsCooling end id) (act c a rows)
    unfolding act add_key get_active_key_for_provider
    act-IsCooling now (add new_id seed t q) rows le later h =
        let fresh : KeyRow = record { key = key_of c new_id seed q; created_at = t } in
        elim (Bool-cases
          (has_id new_id rows || has_hash q.provider_name (c.hash_key q.raw_key) rows)) [
            | inl k ↦ rw (k, All) h
            | inr k ↦
                rw (k, All)
                  (All-append (IsCooling end id) rows (fresh ∷ []) h
                    (inl (unfold key_of in later), tt))
          ]
    act-IsCooling now (refresh seed other access_token refresh_token expires_at) rows le later h =
        elim (update_oauth_tokens-cases c seed other access_token refresh_token expires_at rows) [
          | inl k ↦ rw (k, All) h
          | inr (inl k) ↦ rw (k, All) h
          | inr (inr k) ↦
              rw (k, All)
                (All-update_where (IsCooling end id) (IsCooling end id)
                  (renewed c seed access_token refresh_token expires_at) other rows
                  (λ r e p. unfold renewed in p) (λ r p. p) h)
        ]
    act-IsCooling now (delete provider other) rows le later h =
        All-delete_key (IsCooling end id) provider other rows h
    act-IsCooling now (use_key t other) rows le later h = record_usage-IsCooling t other rows h
    act-IsCooling now (report t other error apply_cooldown) rows le later h =
        record_error-IsCooling t other error apply_cooldown rows (omega (arith, le, later)) h
    act-IsCooling now (serve t provider) rows le later h =
        elim (Option-cases (pick_key t provider rows)) [
          | inl k ↦ rw (k, All) h
          | inr (key, k) ↦ rw (k, All) (record_usage-IsCooling t key.id rows h)
        ]

    act_all-IsCooling :
        (now : ℕ) (actions : List Action) (rows : List KeyRow)
        → end ≤ now + cooldown_seconds
        → All (IsLater c now id) actions
        → All (IsCooling end id) rows
        → All (IsCooling end id) (act_all c actions rows)
    unfolding act_all
    act_all-IsCooling now [] rows le later h = h
    act_all-IsCooling now (a ∷ actions) rows le later h =
        act_all-IsCooling now actions (act c a rows) le later.1
          (act-IsCooling now a rows le later.0 h)

-- What is limited cools down.
limited-IsCooling :
    (now : ℕ) (id error : String) (rows : List KeyRow)
    → All (IsCooling (now + cooldown_seconds) id) (record_error now id error true rows)
unfolding record_error update_where
limited-IsCooling now id error [] = tt
limited-IsCooling now id error (r ∷ rows) = elim (Bool-cases (str_eq r.key.id id)) [
  | inl k ↦
      rw k (inr (now + cooldown_seconds, refl, omega arith), limited-IsCooling now id error rows)
  | inr k ↦ rw k (inl k, limited-IsCooling now id error rows)
]

cooling-unusable :
    (end now : ℕ) (id provider : String) (r : KeyRow)
    → now < end
    → IsCooling end id r
    → is_usable now provider r ≡ true
    → str_eq r.key.id id ≡ false
unfolding is_usable is_available is_in_cooldown
cooling-unusable end now id provider r lt (inl k) u = k
cooling-unusable end now id provider r lt (inr (t, e, le)) u =
    let l : ltb now t ≡ true = lt→ltb now t (omega (arith, lt, le)) in
    absurd (ground (arith, u, e, l))

-- After a key has been limited it is not picked for 60 seconds, whatever the store is asked in between: no key is
-- picked then, or one with another id. Keys that are added have other ids, and the clock does not go back.
pub limited_key_rests :
    (c : Cipher) (now later : ℕ) (id error provider : String) (actions : List Action)
    (rows : List KeyRow)
    → All (IsLater c now id) actions
    → later < now + cooldown_seconds
    → let o : Option ProviderKey =
        pick_key later provider (act_all c actions (record_error now id error true rows)) in
      (o ≡ none) ⊎ ((k : ProviderKey) × (o ≡ some k) × (str_eq k.id id ≡ false))
limited_key_rests c now later id error provider actions rows fresh lt =
    let after = act_all c actions (record_error now id error true rows) in
    let cool : All (IsCooling (now + cooldown_seconds) id) after =
      act_all-IsCooling (now + cooldown_seconds) id c now actions
        (record_error now id error true rows) (omega arith) fresh
        (limited-IsCooling now id error rows) in
    elim (Option-cases (pick_key later provider after)) [
      | inl k ↦ inl k
      | inr (key, k) ↦
          let best : IsLeast (is_usable later provider) after (some key) =
            rw k at (pick_key-IsLeast later provider after) in
          let (r, m, e, u, _) = best in
          let other =
            cooling-unusable (now + cooldown_seconds) later id provider r lt
              (All-Mem (IsCooling (now + cooldown_seconds) id) r after m cool) u in
          inr (key, k, rw (← e) other)
    ]
