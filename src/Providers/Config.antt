-- ===== src/Providers/Config.antt =====
-- bmt_ai_os/providers/config.py: the dataclasses that the router reads, and the priority of API keys.
-- `api_key`, `base_url` and `default_model` are kept as texts; YAML files and the environment enter as
-- arguments.
use bmt_ai_os.Prelude.{
  ℕ, String, Bool, true, false, Option, none, some, List, [], ◌∷◌, str_eq, if◌then◌else◌,
}
use bmt_ai_os.Prelude.Dict
use bmt_ai_os.Prelude.Dict.{Dict}

pub record CircuitBreakerSettings : Type 0 where
  pub failure_threshold : ℕ
  pub cooldown : ℕ
  pub half_open_max_requests : ℕ

pub record ProviderSettings : Type 0 where
  pub enabled : Bool
  pub base_url : String
  pub api_key : String
  pub default_model : String
  pub timeout : ℕ

pub record ProvidersConfig : Type 0 where
  pub active_provider : String
  pub fallback_chain : List String
  pub providers : Dict ProviderSettings
  pub circuit_breaker : CircuitBreakerSettings

unfoldable pub get_provider_settings : ProvidersConfig → String → Option ProviderSettings
get_provider_settings c name = Dict.get c.providers name

names_enabled : Dict ProviderSettings → List String
names_enabled [] = []
names_enabled ((n, s) ∷ d) = let rest = names_enabled d in if s.enabled then n ∷ rest else rest

unfoldable pub enabled_providers : ProvidersConfig → List String
unfolding names_enabled
enabled_providers c = names_enabled c.providers

-- A text counts as false where it is empty.
abbrev pub truthy : Option String → Bool
truthy none = false
truthy (some s) = if str_eq s "" then false else true

-- `env` is the environment, `secrets` the text of the secrets file of a key if it is there, and
-- `strip` the method of texts.
unfoldable pub resolve_api_key :
    (String → Option String)
    → (String → Option String)
    → (String → String)
    → String
    → Option String
    → Option String
    → Option String
resolve_api_key env secrets strip key_name env_var explicit =
    if truthy explicit
    then explicit
    else let env_name : String = elim env_var [
      | none ↦ key_name
      | some v ↦ if str_eq v "" then key_name else v
    ] in
      let value = env env_name in
      if truthy value
      then value
      else elim (secrets key_name) [ none ↦ none | some t ↦ some (strip t) ]
