-- ===== src/Ota/Engine/Lifecycle.antt =====
-- An image that never boots well is given up, and one that does is kept.
use bmt_ai_os.Prelude.{
  ℕ, zero, suc, ◌+◌, String, ◌≡◌, refl, false, Option, Result, ok, ◌>>=◌, leb, if◌then◌else◌, arith,
}
use bmt_ai_os.Ota.State
use bmt_ai_os.Ota.State.{Json, OtaState, StateFile, LoadError}
use bmt_ai_os.Ota.State.Files.{load-save, update-save}
use bmt_ai_os.Ota.Engine.{Device, fw_setenv, confirm_boot, rollback_update, should_rollback}

module _ (str_of : Json → String) (int_of : String → Option ℕ) where
  -- Boots one after another, each counted before anything else runs.
  pub boots : ℕ → Device → Result LoadError Device
  boots zero d = ok d
  boots (suc n) d = do
    saved ← State.increment_bootcount str_of int_of d.state_file
    boots n (record d { state_file = saved.0 })

  increment_bootcount-save :
      (s : OtaState)
      → State.increment_bootcount str_of int_of (State.save str_of int_of s)
        ≡ ok (State.save str_of int_of (State.bumped s), State.bumped s)
  unfolding State.increment_bootcount
  increment_bootcount-save s = update-save str_of int_of State.bumped s

  counted : ℕ → OtaState → OtaState
  counted zero s = s
  counted (suc n) s = counted n (State.bumped s)

  boots-save :
      (n : ℕ) (d : Device) (s : OtaState)
      → d.state_file ≡ State.save str_of int_of s
      → boots n d ≡ ok (record d { state_file = State.save str_of int_of (counted n s) })
  unfolding boots counted
  boots-save zero d s e = ground (arith, e)
  boots-save (suc n) d s e =
      rw (e, increment_bootcount-save s)
        (boots-save n (record d { state_file = State.save str_of int_of (State.bumped s) })
          (State.bumped s) refl)

  counted_fields :
      (n : ℕ) (s : OtaState)
      → ((counted n s).bootcount ≡ s.bootcount + n)
        × ((counted n s).current_slot ≡ s.current_slot)
        × ((counted n s).standby_slot ≡ s.standby_slot)
  unfolding counted
  counted_fields zero s = (omega arith, refl, refl)
  counted_fields (suc n) s =
      let h = counted_fields n (State.bumped s) in (omega (arith, h.0), h.1, h.2)

  counted-confirmed : (n : ℕ) (s : OtaState) → s.confirmed ≡ false → (counted n s).confirmed ≡ false
  unfolding counted
  counted-confirmed zero s h = h
  counted-confirmed (suc n) s h = counted-confirmed n (State.bumped s) refl

  rollback_update-save :
      (d : Device) (s : OtaState)
      → d.state_file ≡ State.save str_of int_of s
      → (d' : Device) × (rollback_update str_of int_of d ≡ ok d')
        × (State.load str_of int_of d'.state_file ≡ ok (State.rolled_back s))
  unfolding rollback_update
  rollback_update-save d s e = (
    fw_setenv "bootcount" "0" (
        fw_setenv "upgrade_available" "0" (
          fw_setenv "slot_name" s.standby_slot
            (record d { state_file = State.save str_of int_of (State.rolled_back s) }))),
    rw (e, load-save str_of int_of s),
    load-save str_of int_of (State.rolled_back s),
  )

  should_rollback-save :
      (limit : ℕ) (d : Device) (s : OtaState)
      → d.state_file ≡ State.save str_of int_of s
      → should_rollback str_of int_of limit d
        ≡ ok (if s.confirmed then false else leb limit s.bootcount)
  unfolding should_rollback
  should_rollback-save limit d s e = rw (e, load-save str_of int_of s)

  -- After a switch away from a saved state and `n` boots without confirmation, a rollback is called for
  -- exactly when `n` has reached the limit; the rollback then loads to a state that has the slots of
  -- the time before the switch, unconfirmed and with no boots counted.
  pub unconfirmed_rolls_back :
      (limit n : ℕ) (now : String) (d : Device) (s : OtaState)
      → d.state_file ≡ State.save str_of int_of (State.switched now s)
      → (d' : Device) × (d'' : Device) × (s'' : OtaState) × (boots n d ≡ ok d')
        × (should_rollback str_of int_of limit d' ≡ ok (leb limit n))
        × (rollback_update str_of int_of d' ≡ ok d'')
        × (State.load str_of int_of d''.state_file ≡ ok s'')
        × (s''.current_slot ≡ s.current_slot)
        × (s''.standby_slot ≡ s.standby_slot)
        × (s''.confirmed ≡ false)
        × (s''.bootcount ≡ 0)
  unconfirmed_rolls_back limit n now d s e =
      let t = counted n (State.switched now s) in
      let d' = record d { state_file = State.save str_of int_of t } in
      let (d'', r, l) = rollback_update-save d' t refl in
      let (count, current, standby) = counted_fields n (State.switched now s) in
      let unconfirmed = counted-confirmed n (State.switched now s) refl in
      (
        d',
        d'',
        State.rolled_back t,
        boots-save n d (State.switched now s) e,
        rw (should_rollback-save limit d' t refl, unconfirmed, count) (ground arith),
        r,
        l,
        standby,
        current,
        refl,
        refl,
      )

  confirm_boot-save :
      (d : Device) (s : OtaState)
      → d.state_file ≡ State.save str_of int_of s
      → (d' : Device) × (confirm_boot str_of int_of d ≡ ok d')
        × (d'.state_file ≡ State.save str_of int_of (State.marked_good s))
  unfolding confirm_boot State.confirm
  confirm_boot-save d s e = (
    fw_setenv "upgrade_available" "0" (
        fw_setenv "bootcount" "0"
          (record d { state_file = State.save str_of int_of (State.marked_good s) })),
    rw (e, update-save str_of int_of State.marked_good s),
    refl,
  )

  -- Once a boot is confirmed no rollback is called for, whatever the limit and however many boots were
  -- counted before, and the slots stay; and `n` later boots without confirmation, at least one, call for
  -- a rollback exactly when `n` has reached the limit.
  pub confirmed_stays :
      (limit n : ℕ) (d : Device) (s : OtaState)
      → d.state_file ≡ State.save str_of int_of s
      → (d' : Device) × (d'' : Device) × (confirm_boot str_of int_of d ≡ ok d')
        × (State.load str_of int_of d'.state_file ≡ ok (State.marked_good s))
        × (should_rollback str_of int_of limit d' ≡ ok false)
        × (boots (suc n) d' ≡ ok d'')
        × (should_rollback str_of int_of limit d'' ≡ ok (leb limit (suc n)))
  confirmed_stays limit n d s e =
      let g = State.marked_good s in
      let (d', c, f) = confirm_boot-save d s e in
      let t = counted n (State.bumped g) in
      let d'' = record d' { state_file = State.save str_of int_of t } in
      (
        d',
        d'',
        c,
        rw f (load-save str_of int_of g),
        should_rollback-save limit d' g f,
        unfold counted in boots-save (suc n) d' g f,
        rw
            (
              should_rollback-save limit d'' t refl,
              counted-confirmed n (State.bumped g) refl,
              (counted_fields n (State.bumped g)).0,
            )
            (ground arith),
      )
