-- ===== src/Providers/Registry/Order.antt =====
-- `reorder` changes the order of the names and nothing else.
use mathlib.Core.List.{append-nil, append_assoc}
use bmt_ai_os.Prelude.{
  String, ◌≡◌, ◌≢◌, refl, inl, inr, true, false, ◌||◌, none, Option-cases, List, [], ◌∷◌, ◌++◌,
  str_eq_iff, str_eq_refl, if◌then◌else◌, ok, Result-cases, arith,
}
use bmt_ai_os.Prelude.Dict
use bmt_ai_os.Prelude.Dict.{
  Dict, IsDistinct, contains, get-put, contains-keys, keys-put, get-ne-none_of_contains,
}
use bmt_ai_os.Providers.Registry.{ProviderRegistry, is_subset, same_set, rebuild, reorder, list}

contains-is_subset :
    (k : String) (xs ys : List String)
    → is_subset xs ys ≡ true
    → contains k xs ≡ true
    → contains k ys ≡ true
unfolding is_subset contains
contains-is_subset k [] ys h c = cc
contains-is_subset k (x ∷ xs) ys h c = ground (arith, str_eq_iff x k, contains-is_subset k xs ys)

contains-append :
    (k : String) (xs ys : List String) → contains k (xs ++ ys) ≡ (contains k xs || contains k ys)
unfolding contains
contains-append k [] ys = refl
contains-append k (x ∷ xs) ys = ground (arith, contains-append k xs ys)

pub get-nil {ℓ} : {P : Type ℓ} (k : String) → Dict.get {V = P} [] k ≡ none
unfolding Dict.get
get-nil k = refl

module _ {ℓ} {P : Type ℓ} where
  abbrev AllIn : Dict P → List String → Type ℓ
  AllIn d [] = Unit
  AllIn d (n ∷ ns) = (Dict.get d n ≢ none) × AllIn d ns

  rebuild-total :
      (d : Dict P) (names : List String) (built : Dict P)
      → AllIn d names
      → (d' : Dict P) × (rebuild d names built ≡ ok d')
        × ((k : String)
            → Dict.get d' k ≡ (if contains k names then Dict.get d k else Dict.get built k))
  unfolding rebuild contains
  rebuild-total d [] built h = (built, refl, λ k. refl)
  rebuild-total d (n ∷ names) built h = elim (Option-cases (Dict.get d n)) [
    | inl e ↦ absurd (h.0 e)
    | inr (p, e) ↦
        let (d', r, g) = rebuild-total d names (Dict.put built n p) h.1 in
        (d', rw (e, rebuild) r, λ k. ground (arith, g k, get-put built n k p, str_eq_iff n k))
  ]

  keys-rebuild :
      (d : Dict P) (names : List String) (built d' : Dict P)
      → IsDistinct names
      → ((k : String) → contains k names ≡ true → contains k (Dict.keys built) ≡ false)
      → rebuild d names built ≡ ok d'
      → Dict.keys d' ≡ Dict.keys built ++ names
  unfolding rebuild contains
  keys-rebuild d [] built d' nd apart e = ground (arith, append-nil (Dict.keys built))
  keys-rebuild d (n ∷ names) built d' nd apart e = elim (Option-cases (Dict.get d n)) [
    | inl q ↦ let e' = rw (q, rebuild) at e in cc
    | inr (p, q) ↦
        let e' = rw (q, rebuild) at e in
        let fresh : contains n (Dict.keys built) ≡ false =
          apart n (ground (arith, str_eq_refl n)) in
        let grown : Dict.keys (Dict.put built n p) ≡ Dict.keys built ++ n ∷ [] =
          ground (arith, keys-put built n p) in
        let ih =
          keys-rebuild d names (Dict.put built n p) d' nd.1
            (λ k c. rw grown (
              ground (
                arith,
                contains-append k (Dict.keys built) (n ∷ []),
                apart k,
                str_eq_iff n k,
                nd.0,
              )))
            e' in
        rw (ih, grown) (append_assoc (Dict.keys built) (n ∷ []) names)
  ]

  AllIn-of_is_subset :
      (d : Dict P) (names : List String) → is_subset names (Dict.keys d) ≡ true → AllIn d names
  unfolding is_subset
  AllIn-of_is_subset d [] h = tt
  AllIn-of_is_subset d (n ∷ names) h =
      (get-ne-none_of_contains d n (ground arith), AllIn-of_is_subset d names (ground arith))

  -- When the names given are, as a set, those registered, `reorder` succeeds, every name still has its
  -- provider, and the active name is the same.
  pub reorder-keeps :
      (names : List String) (r : ProviderRegistry P)
      → same_set (list r) names ≡ true
      → (r' : ProviderRegistry P) × (reorder names r ≡ ok r')
        × ((k : String) → Dict.get r'.providers k ≡ Dict.get r.providers k)
        × (r'.active_name ≡ r.active_name)
  unfolding reorder same_set
  reorder-keeps names r h =
      let (d', e, g) =
        rebuild-total r.providers names [] (AllIn-of_is_subset r.providers names (ground arith)) in
      (
        record r { providers = d' },
        ground (arith, e),
        λ k. ground (
          arith,
          g k,
          get-nil {P = P} k,
          contains-keys r.providers k,
          contains-is_subset k (Dict.keys r.providers) names,
        ),
        refl,
      )

  list-reorder :
      (names : List String) (r r' : ProviderRegistry P)
      → IsDistinct names
      → reorder names r ≡ ok r'
      → list r' ≡ names
  unfolding reorder same_set
  list-reorder names r r' nd e = elim (Result-cases (rebuild r.providers names [])) [
    | inl (d', q) ↦
        let ks =
          keys-rebuild r.providers names [] d' nd (λ k c. unfold Dict.keys contains in refl) q in
        unfold Dict.keys in ground (arith, ks)
    | inr (x, q) ↦ ground arith
  ]

  -- When the names given are distinct and are, as a set, those registered, `reorder` succeeds: `list`
  -- then returns the names in the order given, every name still has its provider, and the active name
  -- is the same.
  pub reorder-orders :
      (names : List String) (r : ProviderRegistry P)
      → IsDistinct names
      → same_set (list r) names ≡ true
      → (r' : ProviderRegistry P) × (reorder names r ≡ ok r')
        × (list r' ≡ names)
        × ((k : String) → Dict.get r'.providers k ≡ Dict.get r.providers k)
        × (r'.active_name ≡ r.active_name)
  reorder-orders names r nd h =
      let (r', e, g, a) = reorder-keeps names r h in (r', e, list-reorder names r r' nd e, g, a)
