-- ===== src/Ota/State/Boots.antt =====
-- The state over a sequence of calls of its methods.
use bmt_ai_os.Prelude.{
  ℕ, String, ◌≡◌, ◌⊎◌, refl, inl, inr, Option, List, [], ◌∷◌, Result, ok, ◌>>=◌,
}
use bmt_ai_os.Ota.State.{
  Json, OtaState, StateFile, LoadError, load, save, bumped, marked_good, switched, stamped,
  increment_bootcount, confirm, switch_slots, set_last_update,
}
use bmt_ai_os.Ota.State.Files.{load-save, update-save}

-- The two slots are a and b, in one order or the other.
abbrev pub IsPair : OtaState → Type 0
IsPair s =
    ((s.current_slot ≡ "a") × (s.standby_slot ≡ "b"))
    ⊎ ((s.current_slot ≡ "b") × (s.standby_slot ≡ "a"))

-- One call of a method that changes the state.
pub data Call : Type 0 where
  boot good : Call
  switch : String → Call
  stamp : Option String → String → Call

module _ (str_of : Json → String) (int_of : String → Option ℕ) where
  perform : Call → StateFile → Result LoadError (StateFile × OtaState)
  perform boot = increment_bootcount str_of int_of
  perform good = confirm str_of int_of
  perform (switch now) = switch_slots str_of int_of now
  perform (stamp ts now) = set_last_update str_of int_of ts now

  -- Calls one after another; an exception ends the sequence.
  pub perform_all : List Call → StateFile → Result LoadError StateFile
  perform_all [] file = ok file
  perform_all (c ∷ cs) file = do saved ← perform c file; perform_all cs saved.0

  change : Call → OtaState → OtaState
  change boot = bumped
  change good = marked_good
  change (switch now) = switched now
  change (stamp ts now) = stamped ts now

  perform-save :
      (c : Call) (s : OtaState)
      → perform c (save str_of int_of s) ≡ ok (save str_of int_of (change c s), change c s)
  unfolding perform change increment_bootcount confirm switch_slots set_last_update
  perform-save boot s = update-save str_of int_of bumped s
  perform-save good s = update-save str_of int_of marked_good s
  perform-save (switch now) s = update-save str_of int_of (switched now) s
  perform-save (stamp ts now) s = update-save str_of int_of (stamped ts now) s

  change-IsPair : (c : Call) (s : OtaState) → IsPair s → IsPair (change c s)
  unfolding change
  change-IsPair boot s h = h
  change-IsPair good s h = h
  change-IsPair (switch now) s (inl h) = inr (h.1, h.0)
  change-IsPair (switch now) s (inr h) = inl (h.1, h.0)
  change-IsPair (stamp ts now) s h = h

  -- From a saved state whose slots are a and b, any calls of the manager's methods succeed and leave a
  -- file that loads to a state whose slots are again a and b.
  pub perform_all-IsPair :
      (cs : List Call) (s : OtaState)
      → IsPair s
      → (s' : OtaState) × (perform_all cs (save str_of int_of s) ≡ ok (save str_of int_of s'))
        × (load str_of int_of (save str_of int_of s') ≡ ok s')
        × IsPair s'
  unfolding perform_all
  perform_all-IsPair [] s h = (s, refl, load-save str_of int_of s, h)
  perform_all-IsPair (c ∷ cs) s h =
      let (s', e, l, k) = perform_all-IsPair cs (change c s) (change-IsPair c s h) in
      (s', rw (perform-save c s) e, l, k)
