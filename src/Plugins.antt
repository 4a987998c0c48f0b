-- ===== src/Plugins.antt =====
-- PluginManager of bmt_ai_os/plugins/manager.py, with the records of bmt_ai_os/plugins/hooks.py. The discovery and the
-- loading of plugins answer through arguments; how a write to the state file ends is one too.
pub mod Restart
pub mod Settings
pub mod Startup
mod Tests
use bmt_ai_os.Prelude.{
  String, Bool, true, false, not, ◌||◌, Option, none, some, List, [], ◌∷◌, ◌++◌, if◌then◌else◌,
  Result, ok, err,
}
use bmt_ai_os.Prelude.Dict
use bmt_ai_os.Prelude.Dict.{Dict, contains}
use bmt_ai_os.Providers.Registry.{ProviderRegistry}
use bmt_ai_os.Providers.Registry as Registry

pub data PluginHook : Type 0 where
  provider rag_processor cli_command pre_request post_request middleware tool : PluginHook

pub record PluginInfo : Type 0 where
  pub name : String
  pub version : String
  pub hook_type : PluginHook
  pub module_path : String
  pub enabled : Bool
  pub description : String
  pub author : String

-- The state file: it is absent, an OSError or a JSONDecodeError meets who reads it, it is JSON but no object, or it is
-- an object. A file that is not UTF-8 is left out: the UnicodeDecodeError of its reading is not caught.
pub data StateFile : Type 0 where
  absent unreadable no_object : StateFile
  object : Dict Bool → StateFile

-- The manager's `_state`, and the file.
pub record PluginManager : Type 0 where
  pub state : Dict Bool
  pub file : StateFile

-- How `_save_state` ends: with the new file, with an OSError, or with another exception.
pub data Save : Type 0 where
  written os_error raised : Save

pub data PluginError : Type 0 where
  key_error write_failed : PluginError

unfoldable pub load_state : StateFile → Dict Bool
load_state absent = []
load_state unreadable = []
load_state no_object = []
load_state (object d) = d

-- A new process on the same file.
unfoldable pub new : StateFile → PluginManager
unfolding load_state
new file = record { state = load_state file; file = file }

-- The value of before, where there was one.
unfoldable pub roll_back : Option Bool → String → Dict Bool → Dict Bool
roll_back none name d = Dict.pop d name
roll_back (some previous) name d = Dict.put d name previous

-- `enable` is this for true, `disable` for false; `known` are the names of the plugins that are discovered.
unfoldable pub set_enabled :
    Bool
    → List String
    → String
    → Save
    → PluginManager
    → PluginManager × Result PluginError (Unit {0})
unfolding roll_back
set_enabled value known name save p =
    let changed = Dict.put p.state name value in
    if contains name known
    then elim save [
      | written ↦ (record { state = changed; file = object changed }, ok tt)
      | os_error ↦ (record p { state = changed }, ok tt)
      | raised ↦
          (record p { state = roll_back (Dict.get p.state name) name changed }, err write_failed)
    ]
    else (p, err key_error)

unfoldable pub is_enabled : String → PluginManager → Bool
is_enabled name p = elim (Dict.get p.state name) [ none ↦ true | some value ↦ value ]

unfoldable pub list_plugins : PluginManager → List PluginInfo → List PluginInfo
list_plugins p [] = []
list_plugins p (i ∷ infos) =
    record i { enabled = elim (Dict.get p.state i.name) [ none ↦ i.enabled | some value ↦ value ] }
    ∷ list_plugins p infos

unfoldable pub is_provider : PluginHook → Bool
is_provider provider = true
is_provider _ = false

-- What `load_plugin` returns: its `name`, its `hook_type` if it has one, and the provider.
pub record Plugin {ℓ} (P : Type ℓ) : Type ℓ where
  pub plugin_name : String
  pub hook : Option PluginHook
  pub llm_provider : P

-- The registry, the names that are returned, and the names for which `load_plugin` was called.
pub record Loaded {ℓ} (P : Type ℓ) : Type ℓ where
  pub registry : ProviderRegistry P
  pub registered : List String
  pub loads : List String

module _ {ℓ} {P : Type ℓ} where
  unfoldable pub register_provider_plugin : Plugin P → ProviderRegistry P → ProviderRegistry P
  unfolding is_provider
  register_provider_plugin g r = elim g.hook [
    | none ↦ r
    | some hook ↦ if is_provider hook then Registry.register g.plugin_name g.llm_provider r else r
  ]

  -- The call of `load_plugin`, which has `none` for an exception.
  unfoldable pub call_load_plugin :
      (String → Option (Plugin P)) → String → Loaded P → Loaded P × Option (Plugin P)
  call_load_plugin load_plugin name s =
      (record s { loads = s.loads ++ name ∷ [] }, load_plugin name)

  -- What `load_plugin` returned is registered, and its name kept.
  unfoldable pub register_loaded : String → Option (Plugin P) → Loaded P → Loaded P
  unfolding register_provider_plugin is_provider
  register_loaded name none s = s
  register_loaded name (some g) s = record s {
    registry = register_provider_plugin g s.registry;
    registered = s.registered ++ name ∷ [];
  }

  -- The loop of `load_and_register_providers`.
  unfoldable pub register_all : (String → Option (Plugin P)) → List PluginInfo → Loaded P → Loaded P
  unfolding call_load_plugin register_loaded is_provider
  register_all load_plugin [] s = s
  register_all load_plugin (i ∷ infos) s =
      if not i.enabled || not (is_provider i.hook_type)
      then register_all load_plugin infos s
      else (let (s', plugin) = call_load_plugin load_plugin i.name s in
          register_all load_plugin infos (register_loaded i.name plugin s'))

  -- `infos` is what `discover_plugins` returns. It has imported the classes of all entry points by then, also of plugins
  -- that are switched off.
  unfoldable pub load_and_register_providers :
      PluginManager → (String → Option (Plugin P)) → List PluginInfo → ProviderRegistry P → Loaded P
  unfolding list_plugins register_all
  load_and_register_providers p load_plugin infos r =
      register_all load_plugin (list_plugins p infos)
        (record { registry = r; registered = []; loads = [] })
