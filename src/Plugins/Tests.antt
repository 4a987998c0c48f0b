-- ===== src/Plugins/Tests.antt =====
-- A manager with one plugin switched off in its file.
use bmt_ai_os.Prelude.{ℕ, ◌≡◌, refl, String, Bool, true, false, Option, some, List, [], ◌∷◌, arith}
use bmt_ai_os.Prelude.Dict
use bmt_ai_os.Prelude.Dict.{contains}
use bmt_ai_os.Providers.Registry.{ProviderRegistry}
use bmt_ai_os.Providers.Registry as Registry
use bmt_ai_os.Plugins.{
  PluginHook, PluginInfo, object, PluginManager, Save, written, os_error, raised, load_state, new,
  is_enabled, Plugin, load_and_register_providers,
}
use bmt_ai_os.Plugins.Restart.{Switch, set_all, last_set, restart-last_set}
use bmt_ai_os.Plugins.Settings.{settings, restart-settings}

abbrev manager : PluginManager
manager = new (object (("slow", false) ∷ []))

abbrev found : List String
found = "slow" ∷ "echo" ∷ []

abbrev switch : Bool → String → Save → Switch
switch value name save = record { value = value; known = found; name = name; save = save }

restart-last_set_example :
    ((new
        (set_all (switch true "slow" written ∷ switch false "slow" raised ∷ []) manager).file).state
      ≡ (set_all (switch true "slow" written ∷ switch false "slow" raised ∷ []) manager).state)
    × (is_enabled "slow" (
          new (set_all (switch true "slow" written ∷ switch false "slow" raised ∷ []) manager).file)
        ≡ last_set "slow"
            (switch true "slow" written ∷ switch false "slow" raised ∷ [])
            (is_enabled "slow" manager))
unfolding new
restart-last_set_example =
    restart-last_set (switch true "slow" written ∷ switch false "slow" raised ∷ []) "slow" manager
      refl ((λ e. ground (arith, e)), ((λ e. ground (arith, e)), tt))

-- Known while the process runs, then lost.
abbrev forgotten : List Switch
forgotten =
    switch true "slow" written ∷ switch false "echo" os_error ∷ switch false "slow" raised ∷ []

restart-settings_example :
    (
      is_enabled "echo" (set_all forgotten manager),
      is_enabled "echo" (new (set_all forgotten manager).file),
    )
    ≡ settings "echo" forgotten (is_enabled "echo" manager, is_enabled "echo" (new manager.file))
restart-settings_example = restart-settings forgotten "echo" manager

echo_lost : settings "echo" forgotten (true, true) ≡ (false, true)
unfolding settings contains
echo_lost = refl

abbrev info : String → PluginInfo
info name = record {
  name = name;
  version = "1";
  hook_type = PluginHook.provider;
  module_path = name;
  enabled = true;
  description = "";
  author = "";
}

-- A plugin of another kind under the manifest of a provider.
abbrev tool_plugin : String → Option (Plugin ℕ)
tool_plugin name =
    some (record { plugin_name = name; hook = some PluginHook.tool; llm_provider = 1 })

-- Its name is returned all the same, and nothing is registered.
ignored_but_named :
    load_and_register_providers manager tool_plugin (info "echo" ∷ []) Registry.new
    ≡ record { registry = Registry.new; registered = "echo" ∷ []; loads = "echo" ∷ [] }
unfolding load_and_register_providers Dict.get load_state new
ignored_but_named = refl
