-- ===== src/Controller/ProviderKeys/Rows.antt =====
-- The rows of the table, and a change of those with one id.
use mathlib.Core.List.{Memᴰ}
use mathlib.Core.List.Memᴰ.{head, tail}
use bmt_ai_os.Prelude.{
  ℕ, suc, ◌+◌, ◌≤◌, ◌≡◌, ◌⊎◌, refl, sym, ap, inl, inr, String, true, false, Bool-cases, List, [],
  ◌∷◌, length, All, ◌&&◌, str_eq, str_eq_iff, str_eq_refl, arith,
}
use bmt_ai_os.Controller.ProviderKeys.{
  ProviderKey, KeyRow, is_in_cooldown, delete_key, is_expired, is_available, of_provider,
  update_where, used_at,
}

-- PRIMARY KEY (id)
abbrev pub IsKeyed : List KeyRow → Type 0
IsKeyed [] = Unit {0}
IsKeyed (r ∷ rows) = All (λ x. str_eq x.key.id r.key.id ≡ false) rows × IsKeyed rows

-- The uses of any two keys differ by one at most.
abbrev pub IsFair : List KeyRow → Type 0
IsFair rows = All (λ x. All (λ y. x.key.usage_count ≤ y.key.usage_count + 1) rows) rows

pub uses : List KeyRow → ℕ
uses [] = 0
uses (r ∷ rows) = r.key.usage_count + uses rows

abbrev pub AreAvailable : ℕ → List KeyRow → Type 0
AreAvailable now rows = All (λ r. is_available now r.key ≡ true) rows

-- What holds after a change of the rows with an id.
pub All-update_where {κ} :
    (P Q : KeyRow → Type κ) (f : ProviderKey → ProviderKey) (id : String) (rows : List KeyRow)
    → ((r : KeyRow) → str_eq r.key.id id ≡ true → P r → Q (record r { key = f r.key }))
    → ((r : KeyRow) → P r → Q r)
    → All P rows
    → All Q (update_where f id rows)
unfolding update_where
All-update_where P Q f id [] hit miss h = tt
All-update_where P Q f id (r ∷ rows) hit miss h = elim (Bool-cases (str_eq r.key.id id)) [
  | inl k ↦ rw k (hit r k h.0, All-update_where P Q f id rows hit miss h.1)
  | inr k ↦ rw k (miss r h.0, All-update_where P Q f id rows hit miss h.1)
]

pub All-Mem {κ} :
    (P : KeyRow → Type κ) (r : KeyRow) (rows : List KeyRow) → Memᴰ r rows → All P rows → P r
All-Mem P r [] m h = elim m [ ]
All-Mem P r (x ∷ rows) (head e) h = rw e h.0
All-Mem P r (x ∷ rows) (tail m) h = All-Mem P r rows m h.1

pub All-delete_key {κ} :
    (P : KeyRow → Type κ) (provider id : String) (rows : List KeyRow)
    → All P rows
    → All P (delete_key provider id rows).0
unfolding delete_key
All-delete_key P provider id [] h = tt
All-delete_key P provider id (r ∷ rows) h =
    elim (Bool-cases (str_eq r.key.id id && str_eq r.key.provider_name provider)) [
      | inl k ↦ rw k (All-delete_key P provider id rows h.1)
      | inr k ↦ rw k (h.0, All-delete_key P provider id rows h.1)
    ]

pub All-both {κ} :
    (P Q : KeyRow → Type κ) (rows : List KeyRow)
    → All P rows
    → All Q rows
    → All (λ r. P r × Q r) rows
All-both P Q [] h k = tt
All-both P Q (r ∷ rows) h k = ((h.0, k.0), All-both P Q rows h.1 k.1)

str_eq_sym : (a b : String) → str_eq a b ≡ false → str_eq b a ≡ false
str_eq_sym a b h = elim (Bool-cases (str_eq b a)) [
  | inl k ↦ absurd (
      let e = (str_eq_iff b a).0 k in
      let g : str_eq a b ≡ true = rw e (str_eq_refl a) in ground (arith, g, h))
  | inr k ↦ k
]

All-inl {κ} : (P Q : KeyRow → Type κ) (rows : List KeyRow) → All P rows → All (λ r. P r ⊎ Q r) rows
All-inl P Q [] h = tt
All-inl P Q (r ∷ rows) h = (inl h.0, All-inl P Q rows h.1)

-- Only one row has the id of a row.
pub one_row :
    (r : KeyRow) (rows : List KeyRow)
    → IsKeyed rows
    → Memᴰ r rows
    → All (λ x. (str_eq x.key.id r.key.id ≡ false) ⊎ (x ≡ r)) rows
one_row r [] h m = tt
one_row r (x ∷ rows) h (head e) =
    let others : All (λ y. str_eq y.key.id r.key.id ≡ false) rows = rw e h.0 in
    (inr (sym e), All-inl (λ y. str_eq y.key.id r.key.id ≡ false) (λ y. y ≡ r) rows others)
one_row r (x ∷ rows) h (tail m) = (
  inl (str_eq_sym r.key.id x.key.id (All-Mem (λ y. str_eq y.key.id x.key.id ≡ false) r rows m h.0)),
  one_row r rows h.1 m,
)

module _ (now : ℕ) (id : String) where
  pub of_provider-update_where :
      (provider : String) (rows : List KeyRow)
      → of_provider provider (update_where (used_at now) id rows)
        ≡ update_where (used_at now) id (of_provider provider rows)
  unfolding of_provider update_where
  of_provider-update_where provider [] = refl
  of_provider-update_where provider (r ∷ rows) =
      let ih = of_provider-update_where provider rows in
      elim (Bool-cases (str_eq r.key.id id)) [
        | inl k ↦ elim (Bool-cases (str_eq r.key.provider_name provider)) [
          | inl j ↦ rw (k, j, k, ih) refl
          | inr j ↦ rw (k, j, ih) refl
        ]
        | inr k ↦ elim (Bool-cases (str_eq r.key.provider_name provider)) [
          | inl j ↦ rw (k, j, k, ih) refl
          | inr j ↦ rw (k, j, ih) refl
        ]
      ]

  pub length-update_where :
      (rows : List KeyRow) → length (update_where (used_at now) id rows) ≡ length rows
  unfolding update_where
  length-update_where [] = refl
  length-update_where (r ∷ rows) = elim (Bool-cases (str_eq r.key.id id)) [
    | inl k ↦ rw k (ap suc (length-update_where rows))
    | inr k ↦ rw k (ap suc (length-update_where rows))
  ]

  pub update_where-IsKeyed :
      (rows : List KeyRow) → IsKeyed rows → IsKeyed (update_where (used_at now) id rows)
  unfolding update_where
  update_where-IsKeyed [] h = tt
  update_where-IsKeyed (r ∷ rows) h =
      let others =
        All-update_where (λ x. str_eq x.key.id r.key.id ≡ false)
          (λ x. str_eq x.key.id r.key.id ≡ false) (used_at now) id rows (λ x e p. p) (λ x p. p)
          h.0 in
      elim (Bool-cases (str_eq r.key.id id)) [
        | inl k ↦ rw k (others, update_where-IsKeyed rows h.1)
        | inr k ↦ rw k (others, update_where-IsKeyed rows h.1)
      ]

  pub update_where-AreAvailable :
      (later : ℕ) (rows : List KeyRow)
      → AreAvailable later rows
      → AreAvailable later (update_where (used_at now) id rows)
  unfolding is_available is_in_cooldown is_expired
  update_where-AreAvailable later rows h =
      All-update_where (λ r. is_available later r.key ≡ true) (λ r. is_available later r.key ≡ true)
        (used_at now) id rows (λ x e p. p) (λ x p. p) h

  update_where_misses :
      (rows : List KeyRow)
      → All (λ x. str_eq x.key.id id ≡ false) rows
      → update_where (used_at now) id rows ≡ rows
  unfolding update_where
  update_where_misses [] h = refl
  update_where_misses (r ∷ rows) h = rw (h.0, update_where_misses rows h.1) refl

pub uses-update_where :
    (now : ℕ) (r : KeyRow) (rows : List KeyRow)
    → IsKeyed rows
    → Memᴰ r rows
    → uses (update_where (used_at now) r.key.id rows) ≡ uses rows + 1
unfolding update_where uses
uses-update_where now r [] h m = elim m [ ]
uses-update_where now r (x ∷ rows) h (head e) =
    let hit : str_eq x.key.id r.key.id ≡ true = rw e (str_eq_refl x.key.id) in
    let others : All (λ y. str_eq y.key.id r.key.id ≡ false) rows = rw e h.0 in
    rw (hit, update_where_misses now r.key.id rows others) (omega arith)
uses-update_where now r (x ∷ rows) h (tail m) =
    let miss =
      str_eq_sym r.key.id x.key.id (All-Mem (λ y. str_eq y.key.id x.key.id ≡ false) r rows m h.0) in
    rw miss (omega (arith, uses-update_where now r rows h.1 m))

pub IsKeyed-of_provider :
    (provider : String) (rows : List KeyRow) → IsKeyed rows → IsKeyed (of_provider provider rows)
unfolding of_provider
IsKeyed-of_provider provider [] h = tt
IsKeyed-of_provider provider (r ∷ rows) h =
    elim (Bool-cases (str_eq r.key.provider_name provider)) [
      | inl k ↦ rw k (
        All-of_provider-weaken (λ x. str_eq x.key.id r.key.id ≡ false) provider rows h.0,
        IsKeyed-of_provider provider rows h.1,
      )
      | inr k ↦ rw k (IsKeyed-of_provider provider rows h.1)
    ]
  where
    All-of_provider-weaken :
        (P : KeyRow → Type 0) (provider : String) (rows : List KeyRow)
        → All P rows
        → All P (of_provider provider rows)
    All-of_provider-weaken P provider [] h = tt
    All-of_provider-weaken P provider (r ∷ rows) h =
        elim (Bool-cases (str_eq r.key.provider_name provider)) [
          | inl k ↦ rw k (h.0, All-of_provider-weaken P provider rows h.1)
          | inr k ↦ rw k (All-of_provider-weaken P provider rows h.1)
        ]
