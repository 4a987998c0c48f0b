-- ===== src/Plugins/Startup.antt =====
-- The plugins that are loaded when the program starts.
use bmt_ai_os.Prelude.{String, ◌&&◌, Option, none, some, List, [], ◌∷◌, if◌then◌else◌}
use bmt_ai_os.Prelude.Dict
use bmt_ai_os.Plugins.{PluginInfo, PluginManager, is_provider, Plugin}

-- The names of the discovered providers that the state, or else their own default, has switched on.
pub wanted : PluginManager → List PluginInfo → List String
wanted p [] = []
wanted p (i ∷ infos) =
    let rest = wanted p infos in
    if is_provider i.hook_type
      && elim (Dict.get p.state i.name) [ none ↦ i.enabled | some value ↦ value ]
    then i.name ∷ rest
    else rest

-- The names for which `load_plugin` raises no exception.
pub loadable {ℓ} : {P : Type ℓ} → (String → Option (Plugin P)) → List String → List String
loadable load_plugin [] = []
loadable load_plugin (name ∷ names) =
    let rest = loadable load_plugin names in
    elim (load_plugin name) [ none ↦ rest | some g ↦ name ∷ rest ]
