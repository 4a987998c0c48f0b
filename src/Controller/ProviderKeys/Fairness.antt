-- ===== src/Controller/ProviderKeys/Fairness.antt =====
-- How the requests of a provider are spread over its keys.
use mathlib.Core.List.{Memᴰ}
use bmt_ai_os.Prelude.{
  ℕ, suc, ◌+◌, ◌≤◌, ◌<◌, ◌≡◌, ◌⊎◌, refl, sym, ap, ◌∙◌, inl, inr, String, false, Option-cases, some,
  List, [], ◌∷◌, map, length, All, str_eq, arith,
}
use bmt_ai_os.Controller.ProviderKeys.{
  ProviderKey, KeyRow, is_available, of_provider, update_where, used_at, record_usage, Cipher,
  get_active_key_for_provider, pick_key,
}
use bmt_ai_os.Controller.ProviderKeys.Rows.{
  IsKeyed, IsFair, uses, AreAvailable, All-update_where, All-both, one_row,
  of_provider-update_where, length-update_where, update_where-IsKeyed, update_where-AreAvailable,
  uses-update_where, IsKeyed-of_provider,
}
use bmt_ai_os.Controller.ProviderKeys.Selection.{IsLeast, pick_key-IsLeast-of_provider}
use bmt_ai_os.Controller.ProviderKeys.Cooldown.{serve, act, act_all}

-- A use of the key with the fewest uses.
use-IsFair :
    (now : ℕ) (r : KeyRow) (rows : List KeyRow)
    → IsKeyed rows
    → Memᴰ r rows
    → All (λ x. r.key.usage_count ≤ x.key.usage_count) rows
    → IsFair rows
    → IsFair (update_where (used_at now) r.key.id rows)
use-IsFair now r rows keyed m least fair =
    let near : KeyRow → KeyRow → Type 0 = λ x y. x.key.usage_count ≤ y.key.usage_count + 1 in
    let one : KeyRow → Type 0 = λ x. (str_eq x.key.id r.key.id ≡ false) ⊎ (x ≡ r) in
    let after = update_where (used_at now) r.key.id rows in
    All-update_where (λ x. All (near x) rows × one x) (λ x. All (near x) after) (used_at now)
      r.key.id rows
      (λ x k p. elim p.1 [
        | inl j ↦ absurd (ground (arith, k, j))
        | inr e ↦
            All-update_where (λ y. r.key.usage_count ≤ y.key.usage_count)
              (λ y. suc x.key.usage_count ≤ y.key.usage_count + 1) (used_at now) r.key.id rows
              (λ y _ le.
                let le' : x.key.usage_count ≤ y.key.usage_count = rw e le in omega (arith, le'))
              (λ y le.
                let le' : x.key.usage_count ≤ y.key.usage_count = rw e le in omega (arith, le'))
              least
      ])
      (λ x p.
        All-update_where (near x) (near x) (used_at now) r.key.id rows (λ y _ le. omega (arith, le))
          (λ y le. le) p.0)
      (All-both (λ x. All (near x) rows) one rows fair (one_row r rows keyed m))

-- A key that is served is one with the fewest uses, and is used.
Served : ℕ → List KeyRow → List KeyRow → Type 0
Served now mine mine' =
    (r : KeyRow) × Memᴰ r mine
    × All (λ x. r.key.usage_count ≤ x.key.usage_count) mine
    × (mine' ≡ update_where (used_at now) r.key.id mine)

module _ (c : Cipher) where
  act_serve :
      (now : ℕ) (provider : String) (rows : List KeyRow)
      → 0 < length (of_provider provider rows)
      → AreAvailable now (of_provider provider rows)
      → Served now
          (of_provider provider rows)
          (of_provider provider (act c (serve now provider) rows))
  unfolding Served act get_active_key_for_provider record_usage
  act_serve now provider rows some_key up =
      let mine = of_provider provider rows in
      let best = pick_key-IsLeast-of_provider now provider rows in
      elim (Option-cases (pick_key now provider rows)) [
        | inl k ↦ absurd (none_up mine some_key up (rw k at best))
        | inr (key, k) ↦
            let (r, m, e, _, least) : IsLeast (λ r. is_available now r.key) mine (some key) =
              rw k at best in
            let changed : act c (serve now provider) rows ≡ update_where (used_at now) key.id rows =
              rw (k, act) refl in
            (
              r,
              m,
              least_up mine key r e up least,
              ap (of_provider provider) changed
                  ∙ of_provider-update_where now key.id provider rows
                  ∙ ap (λ (x : ProviderKey). update_where (used_at now) x.id mine) (sym e),
            )
      ]
    where
      none_up :
          (mine : List KeyRow)
          → 0 < length mine
          → AreAvailable now mine
          → All (λ r. is_available now r.key ≡ false) mine
          → ⊥
      none_up [] l up down = omega (arith, l)
      none_up (r ∷ rows) l up down = ground (arith, up.0, down.0)

      least_up :
          (mine : List KeyRow) (key : ProviderKey) (r : KeyRow)
          → r.key ≡ key
          → AreAvailable now mine
          → All (λ x. (is_available now x.key ≡ false) ⊎ (key.usage_count ≤ x.key.usage_count)) mine
          → All (λ x. r.key.usage_count ≤ x.key.usage_count) mine
      least_up [] key r e up h = tt
      least_up (x ∷ rows) key r e up h = (
        elim h.0 [ inl k ↦ absurd (ground (arith, k, up.0)) | inr l ↦ rw e l ],
        least_up rows key r e up.1 h.1,
      )

  abbrev pub serve_all : List ℕ → String → List KeyRow → List KeyRow
  serve_all times provider rows = act_all c (map (λ now. serve now provider) times) rows

  IsKeyed-act_serve :
      (now : ℕ) (provider : String) (rows : List KeyRow)
      → IsKeyed rows
      → IsKeyed (act c (serve now provider) rows)
  unfolding act get_active_key_for_provider record_usage
  IsKeyed-act_serve now provider rows h = elim (Option-cases (pick_key now provider rows)) [
    | inl k ↦ let e : act c (serve now provider) rows ≡ rows = rw (k, act) refl in rw e h
    | inr (key, k) ↦
        let e : act c (serve now provider) rows ≡ update_where (used_at now) key.id rows =
          rw (k, act) refl in
        rw e (update_where-IsKeyed now key.id rows h)
  ]

  -- Take a table in which the uses of any two keys of a provider differ by one at most, and calls of
  -- get_active_key_for_provider at times when every key of the provider is available, of which there is one. After
  -- them the uses still differ by one at most, and there are as many more of them as calls.
  pub serve_all-IsFair :
      (times : List ℕ) (provider : String) (rows : List KeyRow)
      → IsKeyed rows
      → 0 < length (of_provider provider rows)
      → All (λ now. AreAvailable now (of_provider provider rows)) times
      → IsFair (of_provider provider rows)
      → IsFair (of_provider provider (serve_all times provider rows))
        × (uses (of_provider provider (serve_all times provider rows))
            ≡ uses (of_provider provider rows) + length times)
  unfolding act_all Served
  serve_all-IsFair [] provider rows keyed some_key up fair = (fair, omega arith)
  serve_all-IsFair (now ∷ times) provider rows keyed some_key up fair =
      let mine = of_provider provider rows in
      let rows' = act c (serve now provider) rows in
      let (r, m, least, e) = act_serve now provider rows some_key up.0 in
      let mine-IsKeyed = IsKeyed-of_provider provider rows keyed in
      let ih =
        serve_all-IsFair times provider rows' (IsKeyed-act_serve now provider rows keyed)
          (omega (arith, ap length e, length-update_where now r.key.id mine, some_key))
          (still_up now r.key.id mine (of_provider provider rows') times e up.1)
          (rw e (use-IsFair now r mine mine-IsKeyed m least fair)) in
      (ih.0, omega (arith, ih.1, ap uses e, uses-update_where now r mine mine-IsKeyed m))
    where
      still_up :
          (now : ℕ) (id : String) (mine mine' : List KeyRow) (times : List ℕ)
          → mine' ≡ update_where (used_at now) id mine
          → All (λ t. AreAvailable t mine) times
          → All (λ t. AreAvailable t mine') times
      still_up now id mine mine' [] e h = tt
      still_up now id mine mine' (t ∷ times) e h = (
        rw e (update_where-AreAvailable now id t mine h.0),
        still_up now id mine mine' times e h.1,
      )
