-- ===== src/Ota/Engine/Unswitched.antt =====
-- The slot that a device with U-Boot runs after an update.
use bmt_ai_os.Prelude.{ℕ, String, ◌≡◌, refl, ap, ◌∙◌, true, Option, List, ok, arith}
use bmt_ai_os.Ota.State
use bmt_ai_os.Ota.State.{Json, OtaState}
use bmt_ai_os.Ota.State.Files.{load-save}
use bmt_ai_os.Ota.Engine.{
  Device, UpdateRequest, is_slot, fw_printenv, apply_update, get_current_slot,
}
use bmt_ai_os.Ota.Engine.Apply.{apply_update-true, apply_update-uboot}

module _ (sha256 : List ℕ → String) (str_of : Json → String) (int_of : String → Option ℕ) where
  -- The state names the slots the other way round.
  switch_slots-load :
      (now : String) (file file' : State.StateFile) (s s' : OtaState)
      → State.load str_of int_of file ≡ ok s
      → State.switch_slots str_of int_of now file ≡ ok (file', s')
      → State.load str_of int_of file' ≡ ok (State.switched now s)
  unfolding State.switch_slots State.update
  switch_slots-load now file file' s s' l h =
      let e : State.save str_of int_of (State.switched now s) ≡ file' = ground (arith, rw l at h) in
      rw (← e) (load-save str_of int_of (State.switched now s))

  fw_printenv-uboot :
      (d' d : Device) → d'.uboot ≡ d.uboot → fw_printenv "slot_name" d' ≡ fw_printenv "slot_name" d
  unfolding fw_printenv
  fw_printenv-uboot d' d e = rw (fw_printenv, e) refl

  get_current_slot-uboot :
      (env_slot : String) (d : Device)
      → is_slot (fw_printenv "slot_name" d) ≡ true
      → get_current_slot str_of int_of env_slot d ≡ ok (fw_printenv "slot_name" d)
  unfolding get_current_slot
  get_current_slot-uboot env_slot d h = rw (get_current_slot, h) refl

  -- Where a variable of U-Boot names a slot, an update that reports success switches the slots in the state file, but
  -- leaves the variables of U-Boot as they were, so that the current slot is still the one of before.
  pub apply_update-get_current_slot :
      (q : UpdateRequest) (d : Device) (s : OtaState) (env_slot : String)
      → State.load str_of int_of d.state_file ≡ ok s
      → is_slot (fw_printenv "slot_name" d) ≡ true
      → (apply_update sha256 str_of int_of q d).1 ≡ ok true
      → (State.load str_of int_of (apply_update sha256 str_of int_of q d).0.state_file
          ≡ ok (State.switched q.now s))
        × ((apply_update sha256 str_of int_of q d).0.uboot ≡ d.uboot)
        × (get_current_slot str_of int_of env_slot (apply_update sha256 str_of int_of q d).0
            ≡ ok (fw_printenv "slot_name" d))
  apply_update-get_current_slot q d s env_slot l named h =
      let after = (apply_update sha256 str_of int_of q d).0 in
      let (_, _, _, _, (s', w)) = apply_update-true sha256 str_of int_of q d h in
      let same : after.uboot ≡ d.uboot = apply_update-uboot sha256 str_of int_of q d in
      let name : fw_printenv "slot_name" after ≡ fw_printenv "slot_name" d =
        fw_printenv-uboot after d same in
      (
        switch_slots-load q.now d.state_file after.state_file s s' l w,
        same,
        get_current_slot-uboot env_slot after (ap is_slot name ∙ named) ∙ ap ok name,
      )
