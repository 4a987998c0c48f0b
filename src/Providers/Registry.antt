-- ===== src/Providers/Registry.antt =====
-- bmt_ai_os/providers/registry.py. A provider is a value of any type `P`.
pub mod Active
pub mod Order
use bmt_ai_os.Prelude.{
  String, Bool, true, false, not, ◌&&◌, Option, none, some, List, [], ◌∷◌, str_eq, if◌then◌else◌,
  Result, ok, err,
}
use bmt_ai_os.Prelude.Dict
use bmt_ai_os.Prelude.Dict.{Dict, contains}

-- `ProviderError`, by what its message says, and the `KeyError` of a failing subscript.
pub data RegistryError : Type 0 where
  not_registered : String → RegistryError
  name_mismatch : RegistryError
  cannot_activate : String → RegistryError
  no_provider : RegistryError
  key_error : RegistryError

pub record ProviderRegistry {ℓ} (P : Type ℓ) : Type ℓ where
  pub providers : Dict P
  pub active_name : Option String

-- `set(xs) <= set(ys)`
unfoldable pub is_subset : List String → List String → Bool
unfolding contains
is_subset [] ys = true
is_subset (x ∷ xs) ys = contains x ys && is_subset xs ys

-- `set(xs) == set(ys)`
unfoldable pub same_set : List String → List String → Bool
unfolding is_subset
same_set xs ys = is_subset xs ys && is_subset ys xs

module _ {ℓ} {P : Type ℓ} where
  unfoldable pub new : ProviderRegistry P
  new = record { providers = []; active_name = none }

  unfoldable pub register : String → P → ProviderRegistry P → ProviderRegistry P
  register name provider r = record {
    providers = Dict.put r.providers name provider;
    active_name = elim r.active_name [ none ↦ some name | some a ↦ some a ];
  }

  -- `next(iter(d), None)`
  first_name : Dict P → Option String
  first_name [] = none
  first_name ((name, p) ∷ d) = some name

  -- The active name after `name` is gone from the providers `d`.
  active_without : String → Dict P → Option String → Option String
  unfolding first_name
  active_without name d none = none
  active_without name d (some a) = if str_eq a name then first_name d else some a

  unfoldable pub unregister : String → ProviderRegistry P → ProviderRegistry P
  unfolding active_without
  unregister name r =
      let d = Dict.pop r.providers name in
      record { providers = d; active_name = active_without name d r.active_name }

  unfoldable pub get : ProviderRegistry P → String → Result RegistryError P
  get r name = elim (Dict.get r.providers name) [ none ↦ err (not_registered name) | some p ↦ ok p ]

  unfoldable pub list : ProviderRegistry P → List String
  list r = Dict.keys r.providers

  -- `{n: d[n] for n in names}`, with the dict built so far.
  unfoldable pub rebuild : Dict P → List String → Dict P → Result RegistryError (Dict P)
  rebuild d [] built = ok built
  rebuild d (n ∷ names) built = elim (Dict.get d n) [
    | none ↦ err key_error
    | some p ↦ rebuild d names (Dict.put built n p)
  ]

  with_providers :
      ProviderRegistry P → Result RegistryError (Dict P) → Result RegistryError (ProviderRegistry P)
  with_providers r (ok d) = ok (record r { providers = d })
  with_providers r (err e) = err e

  unfoldable pub reorder :
      List String → ProviderRegistry P → Result RegistryError (ProviderRegistry P)
  unfolding with_providers list
  reorder names r =
      if not (same_set (Dict.keys r.providers) names)
      then err name_mismatch
      else with_providers r (rebuild r.providers names [])

  unfoldable pub set_active :
      String → ProviderRegistry P → Result RegistryError (ProviderRegistry P)
  set_active name r =
      if contains name (Dict.keys r.providers)
      then ok (record r { active_name = some name })
      else err (cannot_activate name)

  unfoldable pub get_active : ProviderRegistry P → Result RegistryError P
  unfolding get
  get_active r = elim r.active_name [ none ↦ err no_provider | some a ↦ get r a ]
