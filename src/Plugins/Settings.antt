-- ===== src/Plugins/Settings.antt =====
-- What the running process and a new one have of a plugin, where writes may meet an OSError.
use bmt_ai_os.Prelude.{
  ◌≡◌, refl, ap, ◌∙◌, inl, inr, String, Bool, true, Bool-cases, List, [], ◌∷◌, str_eq,
  if◌then◌else◌,
}
use bmt_ai_os.Prelude.Dict
use bmt_ai_os.Prelude.Dict.{contains, get-put}
use bmt_ai_os.Plugins.{
  StateFile, object, PluginManager, Save, written, os_error, raised, load_state, new, set_enabled,
  is_enabled,
}
use bmt_ai_os.Plugins.Restart.{Switch, set_all, roll_back-put}

-- One plugin as the running process has it, and as its file has it.
abbrev Setting : Type 0
Setting = Bool × Bool

unfoldable set_value : String → Switch → Bool → Bool
set_value name s before = if str_eq s.name name then s.value else before

-- A call for a plugin that is discovered is in force at once. The write that ends well puts all that is in force into
-- the file; one that meets an OSError leaves the file; and one that raises undoes the call.
unfoldable set_setting : String → Switch → Setting → Setting
unfolding set_value
set_setting name s b =
    if contains s.name s.known
    then elim s.save [
      | written ↦ (set_value name s b.0, set_value name s b.0)
      | os_error ↦ (set_value name s b.0, b.1)
      | raised ↦ b
    ]
    else b

unfoldable pub settings : String → List Switch → Setting → Setting
unfolding set_setting
settings name [] b = b
settings name (s ∷ switches) b = settings name switches (set_setting name s b)

setting : String → PluginManager → Setting
setting name p = (is_enabled name p, is_enabled name (new p.file))

is_enabled-put :
    (name : String) (s : Switch) (p : PluginManager) (file : StateFile)
    → is_enabled name (record { state = Dict.put p.state s.name s.value; file = file })
      ≡ set_value name s (is_enabled name p)
unfolding is_enabled set_value
is_enabled-put name s p file =
    rw (is_enabled, get-put p.state s.name name s.value)
      (elim (Bool-cases (str_eq s.name name)) [
        | inl k ↦ rw k refl
        | inr k ↦ rw (k, is_enabled) refl
      ])

module _ (value : Bool) (known : List String) (name other : String) (p : PluginManager) where
  known-setting :
      (save : Save)
      → contains name known ≡ true
      → setting other (set_enabled value known name save p).0
        ≡ set_setting other
            (record { value = value; known = known; name = name; save = save })
            (setting other p)
  unfolding setting set_enabled set_setting new load_state
  known-setting written k =
      let e =
        is_enabled-put other (record { value = value; known = known; name = name; save = written })
          p in
      rw (k, e (object (Dict.put p.state name value))) refl
  known-setting os_error k =
      rw
        (
          k,
          is_enabled-put other
              (record { value = value; known = known; name = name; save = os_error }) p p.file,
        )
        refl
  known-setting raised k = rw (k, roll_back-put p.state name value) refl

set_enabled-setting :
    (name : String) (s : Switch) (p : PluginManager)
    → setting name (set_enabled s.value s.known s.name s.save p).0
      ≡ set_setting name s (setting name p)
unfolding setting set_enabled set_setting
set_enabled-setting name s p = elim (Bool-cases (contains s.name s.known)) [
  | inl k ↦ known-setting s.value s.known s.name name p s.save k
  | inr k ↦ rw k refl
]

-- Take any calls of `enable` and `disable`, however their writes end. What the running process then has of a plugin, and
-- what a new process on the file has of it, is what the account of the two says: a call is in force at once unless it
-- raises, and a new process knows what was in force when a write last ended well.
pub restart-settings :
    (switches : List Switch) (name : String) (p : PluginManager)
    → (is_enabled name (set_all switches p), is_enabled name (new (set_all switches p).file))
      ≡ settings name switches (is_enabled name p, is_enabled name (new p.file))
unfolding set_all settings setting
restart-settings [] name p = refl
restart-settings (s ∷ switches) name p =
    restart-settings switches name (set_enabled s.value s.known s.name s.save p).0
    ∙ ap (settings name switches) (set_enabled-setting name s p)
