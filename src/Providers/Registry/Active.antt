-- ===== src/Providers/Registry/Active.antt =====
-- The active provider is always a registered one.
use bmt_ai_os.Prelude.{
  String, ◌≡◌, ◌≢◌, ◌⊎◌, refl, inl, inr, Bool-cases, none, some, Option-cases, List, [], ◌∷◌,
  str_eq_iff, str_eq_refl, Result, ok, err, arith,
}
use bmt_ai_os.Prelude.Dict
use bmt_ai_os.Prelude.Dict.{Dict, get-put, get-pop, get-ne-none_of_contains}
use bmt_ai_os.Providers.Registry.{
  ProviderRegistry, RegistryError, no_provider, new, register, unregister, get, reorder, set_active,
  get_active, first_name, list, same_set,
}
use bmt_ai_os.Providers.Registry.Order.{reorder-keeps, get-nil}

-- One call of a method that changes the registry.
pub data Change {ℓ} (P : Type ℓ) : Type ℓ where
  add : String → P → Change P
  remove : String → Change P
  arrange : List String → Change P
  activate : String → Change P

module _ {ℓ} {P : Type ℓ} where
  abbrev or_same :
      ProviderRegistry P → Result RegistryError (ProviderRegistry P) → ProviderRegistry P
  or_same r (ok r') = r'
  or_same r (err e) = r

  -- A method that raises leaves the registry as it was.
  pub apply : Change P → ProviderRegistry P → ProviderRegistry P
  apply (add name p) r = register name p r
  apply (remove name) r = unregister name r
  apply (arrange names) r = or_same r (reorder names r)
  apply (activate name) r = or_same r (set_active name r)

  unfoldable pub apply_all : List (Change P) → ProviderRegistry P → ProviderRegistry P
  unfolding apply
  apply_all [] r = r
  apply_all (c ∷ cs) r = apply_all cs (apply c r)

  -- An active name is registered, and there is none only where nothing is registered.
  pub record IsValid (r : ProviderRegistry P) : Type ℓ where
    pub active_known : (a : String) → r.active_name ≡ some a → Dict.get r.providers a ≢ none
    pub active_none : r.active_name ≡ none → r.providers ≡ []

  first_name-known : (d : Dict P) (a : String) → first_name d ≡ some a → Dict.get d a ≢ none
  unfolding first_name Dict.get
  first_name-known [] a h e = cc
  first_name-known ((j, p) ∷ d) a h e = ground (arith, str_eq_iff j a)

  first_name-none : (d : Dict P) → first_name d ≡ none → d ≡ []
  unfolding first_name
  first_name-none [] h = refl
  first_name-none ((j, p) ∷ d) h = cc

  nil_of_get : (d : Dict P) → ((k : String) → Dict.get d k ≡ none) → d ≡ []
  unfolding Dict.get
  nil_of_get [] h = refl
  nil_of_get ((j, p) ∷ d) h = absurd (ground (arith, h j, str_eq_refl j))

  put-ne-nil : (d : Dict P) (k : String) (p : P) → Dict.put d k p ≢ []
  unfolding Dict.put
  put-ne-nil [] k p e = cc
  put-ne-nil ((j, w) ∷ d) k p e = ground arith

  register-IsValid :
      (name : String) (p : P) (r : ProviderRegistry P) → IsValid r → IsValid (register name p r)
  unfolding register
  register-IsValid name p r h = record {
    active_known =
        λ a e n. ground (arith, get-put r.providers name a p, str_eq_iff name a, h.active_known a);
    active_none = λ e. ground arith;
  }

  unregister-IsValid :
      (name : String) (r : ProviderRegistry P) → IsValid r → IsValid (unregister name r)
  unfolding unregister
  unregister-IsValid name r h = record {
    active_known = λ a e n. ground (
      arith,
      get-pop r.providers name a,
      str_eq_iff name a,
      str_eq_iff a name,
      h.active_known a,
      first_name-known (Dict.pop r.providers name) a,
    );
    active_none = λ e. elim (Option-cases r.active_name) [
      | inl n ↦ rw (h.active_none n) (unfold Dict.pop in refl)
      | inr (a, n) ↦ first_name-none (Dict.pop r.providers name) (ground (arith, str_eq_iff a name))
    ];
  }

  or_same-IsValid :
      (r : ProviderRegistry P) (result : Result RegistryError (ProviderRegistry P))
      → IsValid r
      → ((r' : ProviderRegistry P) → result ≡ ok r' → IsValid r')
      → IsValid (or_same r result)
  or_same-IsValid r (ok r') h k = k r' refl
  or_same-IsValid r (err e) h k = h

  reorder-IsValid :
      (names : List String) (r r' : ProviderRegistry P)
      → IsValid r
      → reorder names r ≡ ok r'
      → IsValid r'
  reorder-IsValid names r r' h e = elim (Bool-cases (same_set (list r) names)) [
    | inl s ↦
        let (r'', e'', g, a) = reorder-keeps names r s in
        record {
          active_known = λ x k n. ground (arith, e, e'', g x, a, h.active_known x);
          active_none = λ k.
              nil_of_get r'.providers
                (λ x. ground (arith, e, e'', g x, a, h.active_none, get-nil {P = P} x));
        }
    | inr s ↦ absurd (unfold reorder list in ground arith)
  ]

  set_active-IsValid :
      (name : String) (r r' : ProviderRegistry P)
      → IsValid r
      → set_active name r ≡ ok r'
      → IsValid r'
  unfolding set_active
  set_active-IsValid name r r' h e = record {
    active_known = λ x k n. ground (arith, get-ne-none_of_contains r.providers name);
    active_none = λ k. ground arith;
  }

  apply-IsValid : (c : Change P) (r : ProviderRegistry P) → IsValid r → IsValid (apply c r)
  unfolding apply
  apply-IsValid (add name p) r h = register-IsValid name p r h
  apply-IsValid (remove name) r h = unregister-IsValid name r h
  apply-IsValid (arrange names) r h =
      or_same-IsValid r (reorder names r) h (λ r' e. reorder-IsValid names r r' h e)
  apply-IsValid (activate name) r h =
      or_same-IsValid r (set_active name r) h (λ r' e. set_active-IsValid name r r' h e)

  apply_all-IsValid :
      (cs : List (Change P)) (r : ProviderRegistry P) → IsValid r → IsValid (apply_all cs r)
  unfolding apply_all
  apply_all-IsValid [] r h = h
  apply_all-IsValid (c ∷ cs) r h = apply_all-IsValid cs (apply c r) (apply-IsValid c r h)

  new-IsValid : IsValid (new {P = P})
  unfolding new
  new-IsValid = record { active_known = λ a e n. cc; active_none = λ e. refl }

  get_active-cases :
      (r : ProviderRegistry P)
      → IsValid r
      → ((list r ≡ []) × (get_active r ≡ err no_provider))
        ⊎ ((a : String) × (p : P) × (r.active_name ≡ some a)
            × (get_active r ≡ ok p)
            × (get r a ≡ ok p))
  unfolding get_active list
  get_active-cases r h = elim (Option-cases r.active_name) [
    | inl n ↦ inl (rw (h.active_none n) (unfold Dict.keys in refl), ground arith)
    | inr (a, n) ↦ elim (Option-cases (Dict.get r.providers a)) [
      | inl g ↦ absurd (h.active_known a n g)
      | inr (p, g) ↦ inr (a, p, n, ground arith, ground arith)
    ]
  ]

  -- After any calls that register, remove, reorder or activate providers, those that raise included,
  -- `get_active` raises only where nothing is registered; otherwise it returns the provider that is
  -- registered under the active name.
  pub get_active-total :
      (cs : List (Change P))
      → let r = apply_all cs new in
        ((list r ≡ []) × (get_active r ≡ err no_provider))
        ⊎ ((a : String) × (p : P) × (r.active_name ≡ some a)
            × (get_active r ≡ ok p)
            × (get r a ≡ ok p))
  get_active-total cs = get_active-cases (apply_all cs new) (apply_all-IsValid cs new new-IsValid)
