-- ===== src/Plugins/Restart.antt =====
-- What a new process reads of what was switched on and off.
use bmt_ai_os.Prelude.{
  ◌≡◌, ◌≢◌, refl, sym, ap, ◌∙◌, inl, inr, String, Bool, true, false, Bool-cases, ◌&&◌, Option-cases,
  none, some, List, [], ◌∷◌, All, str_eq, str_eq_refl, if◌then◌else◌, arith,
}
use bmt_ai_os.Prelude.Dict
use bmt_ai_os.Prelude.Dict.{Dict, contains, get-put}
use bmt_ai_os.Plugins.{
  PluginManager, Save, written, os_error, raised, load_state, new, roll_back, set_enabled,
  is_enabled,
}

-- A call of `enable` or `disable`, the plugins that are discovered then, and how the write ends.
pub record Switch : Type 0 where
  pub value : Bool
  pub known : List String
  pub name : String
  pub save : Save

unfoldable pub set_all : List Switch → PluginManager → PluginManager
set_all [] p = p
set_all (s ∷ switches) p = set_all switches (set_enabled s.value s.known s.name s.save p).0

unfoldable is_written : Save → Bool
is_written written = true
is_written os_error = false
is_written raised = false

-- Every write ends with the file or with an exception that goes to the caller.
abbrev IsTold : Switch → Type 0
IsTold s = s.save ≢ os_error

-- What the last call that did not raise has set, if any.
unfoldable pub last_set : String → List Switch → Bool → Bool
unfolding is_written
last_set name [] before = before
last_set name (s ∷ switches) before =
    let now =
      if str_eq s.name name && (contains s.name s.known && is_written s.save)
      then s.value
      else before in
    last_set name switches now

-- A value that is put and taken back.
pop-put :
    (d : Dict Bool) (k : String) (v : Bool) → Dict.get d k ≡ none → Dict.pop (Dict.put d k v) k ≡ d
unfolding Dict.get Dict.put Dict.pop
pop-put [] k v e = rw (str_eq_refl k) refl
pop-put ((j, w) ∷ d) k v e = elim (Bool-cases (str_eq j k)) [
  | inl h ↦ let g : some w ≡ none = rw h at e in absurd (ground (arith, g))
  | inr h ↦
      let g : Dict.get d k ≡ none = rw h at e in
      rw (h, h) (ap (λ (l : Dict Bool). (j, w) ∷ l) (pop-put d k v g))
]

put-put :
    (d : Dict Bool) (k : String) (v w : Bool)
    → Dict.get d k ≡ some w
    → Dict.put (Dict.put d k v) k w ≡ d
unfolding Dict.get Dict.put
put-put [] k v w e = absurd (ground (arith, e))
put-put ((j, u) ∷ d) k v w e = elim (Bool-cases (str_eq j k)) [
  | inl h ↦
      let g : some u ≡ some w = rw h at e in
      let same : u ≡ w = ground (arith, g) in rw (h, h, same) refl
  | inr h ↦
      let g : Dict.get d k ≡ some w = rw h at e in
      rw (h, h) (ap (λ (l : Dict Bool). (j, u) ∷ l) (put-put d k v w g))
]

pub roll_back-put :
    (d : Dict Bool) (k : String) (v : Bool) → roll_back (Dict.get d k) k (Dict.put d k v) ≡ d
unfolding roll_back
roll_back-put d k v = elim (Option-cases (Dict.get d k)) [
  | inl e ↦ rw e (pop-put d k v e)
  | inr (w, e) ↦ rw e (put-put d k v w e)
]

-- What is in memory is what a new process reads.
IsSaved : PluginManager → Type 0
IsSaved p = p.state ≡ load_state p.file

module _ (value : Bool) (known : List String) (name other : String) (p : PluginManager) where
  -- One call, in memory and on disk.
  Sets : Save → Type 0
  Sets save =
      IsSaved (set_enabled value known name save p).0
      × (is_enabled other (set_enabled value known name save p).0 ≡ (
          if str_eq name other && (contains name known && is_written save)
          then value
          else is_enabled other p))

  known-Sets : (save : Save) → contains name known ≡ true → save ≢ os_error → IsSaved p → Sets save
  unfolding Sets set_enabled IsSaved is_written load_state is_enabled
  known-Sets written k told saved =
      let put : Dict.get (Dict.put p.state name value) other
          ≡ (if str_eq name other then some value else Dict.get p.state other) =
        get-put p.state name other value in
      elim (Bool-cases (str_eq name other)) [
        | inl e ↦
            let g : Dict.get (Dict.put p.state name value) other ≡ some value = rw e at put in
            rw (k, e) (refl, rw (is_enabled, g) refl)
        | inr e ↦
            let g : Dict.get (Dict.put p.state name value) other ≡ Dict.get p.state other =
              rw e at put in
            rw (k, e) (refl, rw (is_enabled, g) refl)
      ]
  known-Sets os_error k told saved = absurd (told refl)
  known-Sets raised k told saved =
      let back = roll_back-put p.state name value in
      elim (Bool-cases (str_eq name other)) [
        | inl e ↦ rw (k, e) (back ∙ saved, rw (is_enabled, back) refl)
        | inr e ↦ rw (k, e) (back ∙ saved, rw (is_enabled, back) refl)
      ]

  set_enabled-Sets : (save : Save) → save ≢ os_error → IsSaved p → Sets save
  unfolding Sets set_enabled
  set_enabled-Sets save told saved = elim (Bool-cases (contains name known)) [
    | inl k ↦ known-Sets save k told saved
    | inr k ↦
        let same : (set_enabled value known name save p).0 ≡ p = rw (set_enabled, k) refl in
        (
          rw same saved,
          rw (same, k)
              (elim (Bool-cases (str_eq name other)) [ inl e ↦ rw e refl | inr e ↦ rw e refl ]),
        )
  ]

-- Take a manager that holds what its file holds, and calls of `enable` and `disable` none of which meets an OSError.
-- A new process on the file has the same state, and a plugin is enabled there as the last of its calls that did not
-- raise has set it, or as before.
pub restart-last_set :
    (switches : List Switch) (name : String) (p : PluginManager)
    → p.state ≡ load_state p.file
    → All IsTold switches
    → ((new (set_all switches p).file).state ≡ (set_all switches p).state)
      × (is_enabled name (new (set_all switches p).file)
          ≡ last_set name switches (is_enabled name p))
unfolding set_all last_set new IsSaved
restart-last_set [] name p saved told = (sym saved, unfold is_enabled in rw (← saved) refl)
restart-last_set (s ∷ switches) name p saved told =
    let p' = (set_enabled s.value s.known s.name s.save p).0 in
    let both : Sets s.value s.known s.name name p s.save =
      set_enabled-Sets s.value s.known s.name name p s.save told.0 saved in
    let saved' : p'.state ≡ load_state p'.file = unfold Sets IsSaved in both.0 in
    let now : is_enabled name p' ≡ (
        if str_eq s.name name && (contains s.name s.known && is_written s.save)
        then s.value
        else is_enabled name p) =
      unfold Sets in both.1 in
    let ih = restart-last_set switches name p' saved' told.1 in
    (ih.0, ih.1 ∙ ap (last_set name switches) now)
