-- ===== src/Controller/ProviderKeys/Selection.antt =====
-- The key that is picked for a provider.
use mathlib.Core.List.{Memᴰ}
use mathlib.Core.List.Memᴰ.{head, tail}
use bmt_ai_os.Prelude.{
  ℕ, ◌≤◌, ◌≡◌, ◌⊎◌, refl, inl, inr, String, Bool, true, false, Bool-cases, Option, none, some, List,
  [], ◌∷◌, map, All, ◌&&◌, str_eq, arith,
}
use bmt_ai_os.Controller.ProviderKeys.{
  ProviderKey, KeyRow, is_available, of_provider, is_before, insert, order, row_to_key, list_keys,
  available, pick_key,
}

module _ {κ} (P : KeyRow → Type κ) where
  All-insert : (r : KeyRow) (rows : List KeyRow) → All P (insert r rows) → P r × All P rows
  unfolding insert
  All-insert r [] h = h
  All-insert r (x ∷ rows) h = elim (Bool-cases (is_before x r)) [
    | inl k ↦
        let g : P x × All P (insert r rows) = rw k at h in
        let rest = All-insert r rows g.1 in (rest.0, (g.0, rest.1))
    | inr k ↦ rw k at h
  ]

  insert-All : (r : KeyRow) (rows : List KeyRow) → P r → All P rows → All P (insert r rows)
  unfolding insert
  insert-All r [] p h = (p, h)
  insert-All r (x ∷ rows) p h = elim (Bool-cases (is_before x r)) [
    | inl k ↦ rw k (h.0, insert-All r rows p h.1)
    | inr k ↦ rw k (p, h)
  ]

  All-order : (rows : List KeyRow) → All P (order rows) → All P rows
  unfolding order
  All-order [] h = h
  All-order (r ∷ rows) h = let k = All-insert r (order rows) h in (k.0, All-order rows k.1)

Mem-insert : (y r : KeyRow) (rows : List KeyRow) → Memᴰ y (insert r rows) → Memᴰ y (r ∷ rows)
unfolding insert
Mem-insert y r [] h = h
Mem-insert y r (x ∷ rows) h = elim (Bool-cases (is_before x r)) [
  | inl k ↦
      let g : Memᴰ y (x ∷ insert r rows) = rw k at h in
      elim g [
        | head e ↦ tail (head e)
        | tail m ↦ elim (Mem-insert y r rows m) [ head e ↦ head e | tail n ↦ tail (tail n) ]
      ]
  | inr k ↦ rw k at h
]

Mem-order : (y : KeyRow) (rows : List KeyRow) → Memᴰ y (order rows) → Memᴰ y rows
unfolding order
Mem-order y [] h = h
Mem-order y (r ∷ rows) h = elim (Mem-insert y r (order rows) h) [
  | head e ↦ head e
  | tail m ↦ tail (Mem-order y rows m)
]

-- Rows by the number of their uses.
abbrev IsOrdered : List KeyRow → Type 0
IsOrdered [] = Unit {0}
IsOrdered (r ∷ rows) = All (λ x. r.key.usage_count ≤ x.key.usage_count) rows × IsOrdered rows

All-weaken {κ} :
    {P Q : KeyRow → Type κ} (rows : List KeyRow)
    → ((x : KeyRow) → P x → Q x)
    → All P rows
    → All Q rows
All-weaken [] f h = h
All-weaken (x ∷ rows) f h = (f x h.0, All-weaken rows f h.1)

insert-IsOrdered : (r : KeyRow) (rows : List KeyRow) → IsOrdered rows → IsOrdered (insert r rows)
unfolding insert
insert-IsOrdered r [] h = (tt, tt)
insert-IsOrdered r (x ∷ rows) h = elim (Bool-cases (is_before x r)) [
  | inl k ↦
      let le : x.key.usage_count ≤ r.key.usage_count = unfold is_before in ground (arith, k) in
      rw k (
        insert-All (λ y. x.key.usage_count ≤ y.key.usage_count) r rows le h.0,
        insert-IsOrdered r rows h.1,
      )
  | inr k ↦
      let le : r.key.usage_count ≤ x.key.usage_count = unfold is_before in ground (arith, k) in
      rw k ((le, All-weaken rows (λ y l. omega (arith, l, le)) h.0), h)
]

order-IsOrdered : (rows : List KeyRow) → IsOrdered (order rows)
unfolding order
order-IsOrdered [] = tt
order-IsOrdered (r ∷ rows) = insert-IsOrdered r (order rows) (order-IsOrdered rows)

-- A row whose key the provider may use now.
unfoldable pub is_usable : ℕ → String → KeyRow → Bool
is_usable now provider r = str_eq r.key.provider_name provider && is_available now r.key

-- The first of the available keys.
abbrev pub first : List ProviderKey → Option ProviderKey
first [] = none
first (k ∷ keys) = some k

-- Among the rows that a test selects: none, or a key with the fewest uses.
abbrev pub IsLeast : (KeyRow → Bool) → List KeyRow → Option ProviderKey → Type 0
IsLeast test rows none = All (λ r. test r ≡ false) rows
IsLeast test rows (some k) =
    (r : KeyRow) × Memᴰ r rows
    × (r.key ≡ k)
    × (test r ≡ true)
    × All (λ x. (test x ≡ false) ⊎ (k.usage_count ≤ x.key.usage_count)) rows

first-IsLeast :
    (now : ℕ) (rows : List KeyRow)
    → IsOrdered rows
    → IsLeast (λ r. is_available now r.key) rows (first (available now (map row_to_key rows)))
unfolding available
first-IsLeast now [] h = tt
first-IsLeast now (x ∷ rows) h = elim (Bool-cases (is_available now x.key)) [
  | inl k ↦ rw k (x, head refl, refl, k, (inr (omega arith), All-weaken rows (λ y l. inr l) h.0))
  | inr k ↦ rw k (
      later-IsLeast now x rows (first (available now (map row_to_key rows))) k
        (first-IsLeast now rows h.1))
]
  where
    later-IsLeast :
        (now : ℕ) (x : KeyRow) (rows : List KeyRow) (o : Option ProviderKey)
        → is_available now x.key ≡ false
        → IsLeast (λ r. is_available now r.key) rows o
        → IsLeast (λ r. is_available now r.key) (x ∷ rows) o
    later-IsLeast now x rows none k h = (k, h)
    later-IsLeast now x rows (some key) k (r, m, e, u, h) = (r, tail m, e, u, (inl k, h))

All-of_provider {κ} :
    (P : KeyRow → Type κ) (provider : String) (rows : List KeyRow)
    → All P (of_provider provider rows)
    → All (λ r. (str_eq r.key.provider_name provider ≡ false) ⊎ P r) rows
unfolding of_provider
All-of_provider P provider [] h = tt
All-of_provider P provider (r ∷ rows) h = elim (Bool-cases (str_eq r.key.provider_name provider)) [
  | inl k ↦
      let g : All P (r ∷ of_provider provider rows) = rw k at h in
      (inr g.0, All-of_provider P provider rows g.1)
  | inr k ↦
      let g : All P (of_provider provider rows) = rw k at h in
      (inl k, All-of_provider P provider rows g)
]

Mem-of_provider :
    (y : KeyRow) (provider : String) (rows : List KeyRow)
    → Memᴰ y (of_provider provider rows)
    → Memᴰ y rows × (str_eq y.key.provider_name provider ≡ true)
unfolding of_provider
Mem-of_provider y provider [] h = elim h [ ]
Mem-of_provider y provider (r ∷ rows) h = elim (Bool-cases (str_eq r.key.provider_name provider)) [
  | inl k ↦
      let g : Memᴰ y (r ∷ of_provider provider rows) = rw k at h in
      elim g [
        | head e ↦ (head e, rw e k)
        | tail m ↦ let n = Mem-of_provider y provider rows m in (tail n.0, n.1)
      ]
  | inr k ↦
      let g : Memᴰ y (of_provider provider rows) = rw k at h in
      let n = Mem-of_provider y provider rows g in (tail n.0, n.1)
]

order-IsLeast :
    (test : KeyRow → Bool) (rows : List KeyRow) (o : Option ProviderKey)
    → IsLeast test (order rows) o
    → IsLeast test rows o
order-IsLeast test rows none h = All-order (λ r. test r ≡ false) rows h
order-IsLeast test rows (some key) (r, m, e, u, h) = (
  r,
  Mem-order r rows m,
  e,
  u,
  All-order (λ x. (test x ≡ false) ⊎ (key.usage_count ≤ x.key.usage_count)) rows h,
)

-- Among the rows of the provider.
pub pick_key-IsLeast-of_provider :
    (now : ℕ) (provider : String) (rows : List KeyRow)
    → IsLeast (λ r. is_available now r.key) (of_provider provider rows) (pick_key now provider rows)
unfolding pick_key list_keys
pick_key-IsLeast-of_provider now provider rows =
    let mine = of_provider provider rows in
    order-IsLeast (λ r. is_available now r.key) mine
      (first (available now (map row_to_key (order mine))))
      (first-IsLeast now (order mine) (order-IsOrdered mine))

listed-IsLeast :
    (now : ℕ) (provider : String) (rows : List KeyRow) (o : Option ProviderKey)
    → IsLeast (λ r. is_available now r.key) (of_provider provider rows) o
    → IsLeast (is_usable now provider) rows o
unfolding is_usable
listed-IsLeast now provider rows none h =
    All-weaken rows (λ x p. elim p [ inl k ↦ rw k refl | inr k ↦ rw k (ground arith) ])
      (All-of_provider (λ r. is_available now r.key ≡ false) provider rows h)
listed-IsLeast now provider rows (some key) (r, m, e, u, h) =
    let test : KeyRow → Type 0 =
      λ x. (is_available now x.key ≡ false) ⊎ (key.usage_count ≤ x.key.usage_count) in
    let n = Mem-of_provider r provider rows m in
    (
      r,
      n.0,
      e,
      rw (n.1, u) refl,
      All-weaken rows
          (λ x p. elim p [
            | inl k ↦ inl (rw k refl)
            | inr (inl k) ↦ inl (rw k (ground arith))
            | inr (inr l) ↦ inr l
          ])
          (All-of_provider test provider rows h),
    )

-- A key is picked exactly where one of the provider's keys is neither cooling down nor expired, and it is such a key
-- with the fewest uses among them.
pub pick_key-IsLeast :
    (now : ℕ) (provider : String) (rows : List KeyRow)
    → IsLeast (is_usable now provider) rows (pick_key now provider rows)
pick_key-IsLeast now provider rows =
    listed-IsLeast now provider rows (pick_key now provider rows)
      (pick_key-IsLeast-of_provider now provider rows)
