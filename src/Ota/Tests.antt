-- ===== src/Ota/Tests.antt =====
-- An update of slot b, whose image then fails to boot three times.
use bmt_ai_os.Prelude.{
  ℕ, String, ◌≡◌, ◌⊎◌, refl, true, false, Option, none, some, List, [], ◌∷◌, leb, ok, str_eq,
  if◌then◌else◌,
}
use bmt_ai_os.Prelude.Dict
use bmt_ai_os.Prelude.Texts.{ℤ, pos}
use bmt_ai_os.Ota.Version.{is_newer, offers}
use bmt_ai_os.Ota.Version.Order.{offers_asym}
use bmt_ai_os.Ota.State
use bmt_ai_os.Ota.State.{Json, OtaState, boolean}
use bmt_ai_os.Ota.State.Files.{load-save}
use bmt_ai_os.Ota.State.Boots.{Call, boot, good, switch, stamp}
use bmt_ai_os.Ota.Verify.{enforce_signature, IsAccepted}
use bmt_ai_os.Ota.Engine.Unswitched.{apply_update-get_current_slot}
use bmt_ai_os.Ota.Engine.{
  is_slot, fw_printenv, get_current_slot, Device, UpdateRequest, apply_update, write_slot,
  write_file_backed, should_rollback, rollback_update,
}
use bmt_ai_os.Ota.Engine.Apply.{IsVerified, apply_update-true, apply_update-safe}
use bmt_ai_os.Ota.Engine.Lifecycle.{boots, unconfirmed_rolls_back}

-- Stand-ins for `str`, `int` and the digest.
abbrev str_of : Json → String
str_of v = "?"

abbrev int_of : String → Option ℕ
int_of s = none

abbrev digest_of : List ℕ → String
digest_of bytes = "digest"

abbrev device : Device
device = record {
  state_file = State.save str_of int_of State.factory;
  uboot = none;
  slot_files = ("a", 1 ∷ []) ∷ [];
  slot_devices = [];
}

abbrev request : UpdateRequest
request = record {
  target_slot = "b";
  image_exists = true;
  signing = record {
    allow_unsigned = false;
    sig_exists = true;
    pubkey_exists = true;
    verified = some true;
  };
  dry_run = some true;
  block_dev_exists = false;
  write = record {
    source = some (7 ∷ 8 ∷ []);
    completed = true;
    left = some (7 ∷ 8 ∷ []);
    readable = true;
  };
  now = "2026-05-01";
}

success : (apply_update digest_of str_of int_of request device).1 ≡ ok true
unfolding apply_update enforce_signature write_slot write_file_backed State.switch_slots
    State.update State.load State.save State.from_dict State.to_dict Dict.get
success = refl

apply_update-true_example :
    ((request.target_slot ≡ "a") ⊎ (request.target_slot ≡ "b"))
    × (request.image_exists ≡ true)
    × IsAccepted request.signing
    × IsVerified digest_of request (apply_update digest_of str_of int_of request device).0
    × ((s : OtaState) × (State.switch_slots str_of int_of request.now device.state_file
          ≡ ok ((apply_update digest_of str_of int_of request device).0.state_file, s)))
apply_update-true_example = apply_update-true digest_of str_of int_of request device success

apply_update-safe_example :
    (((apply_update digest_of str_of int_of request device).1 ≡ ok true)
      ⊎ ((apply_update digest_of str_of int_of request device).0.state_file ≡ device.state_file))
    × (Dict.get (apply_update digest_of str_of int_of request device).0.slot_files "a"
        ≡ Dict.get device.slot_files "a")
    × (Dict.get (apply_update digest_of str_of int_of request device).0.slot_devices "a"
        ≡ Dict.get device.slot_devices "a")
apply_update-safe_example = apply_update-safe digest_of str_of int_of request device "a" refl

-- The same device with U-Boot.
abbrev with_uboot : Device
with_uboot = record device { uboot = some (("slot_name", "a") ∷ []) }

success_with_uboot : (apply_update digest_of str_of int_of request with_uboot).1 ≡ ok true
unfolding apply_update enforce_signature write_slot write_file_backed State.switch_slots
    State.update State.load State.save State.from_dict State.to_dict Dict.get
success_with_uboot = refl

apply_update-get_current_slot_example :
    (State.load str_of int_of (apply_update digest_of str_of int_of request with_uboot).0.state_file
      ≡ ok (State.switched "2026-05-01" State.factory))
    × ((apply_update digest_of str_of int_of request with_uboot).0.uboot ≡ with_uboot.uboot)
    × (get_current_slot str_of int_of "" (apply_update digest_of str_of int_of request with_uboot).0
        ≡ ok (fw_printenv "slot_name" with_uboot))
unfolding is_slot fw_printenv Dict.get
apply_update-get_current_slot_example =
    apply_update-get_current_slot digest_of str_of int_of request with_uboot State.factory ""
      (load-save str_of int_of State.factory) refl success_with_uboot

abbrev after_switch : Device
after_switch = record device {
  state_file = State.save str_of int_of (State.switched "2026-05-01" State.factory);
}

unconfirmed_rolls_back_example :
    (d' : Device) × (d'' : Device) × (s'' : OtaState) × (boots str_of int_of 3 after_switch ≡ ok d')
    × (should_rollback str_of int_of 3 d' ≡ ok (leb 3 3))
    × (rollback_update str_of int_of d' ≡ ok d'')
    × (State.load str_of int_of d''.state_file ≡ ok s'')
    × (s''.current_slot ≡ "a")
    × (s''.standby_slot ≡ "b")
    × (s''.confirmed ≡ false)
    × (s''.bootcount ≡ 0)
unconfirmed_rolls_back_example =
    unconfirmed_rolls_back str_of int_of 3 3 "2026-05-01" after_switch State.factory refl

abbrev booted_twice : OtaState
booted_twice = record State.factory { bootcount = 2; confirmed = false }

abbrev calls : List Call
calls = boot ∷ good ∷ switch "2026-05-01" ∷ boot ∷ stamp none "2026-05-02" ∷ []

abbrev version_part : String → Option ℤ
version_part text =
    if str_eq text "5"
    then some (pos 5)
    else if str_eq text "10"
    then some (pos 10)
    else if str_eq text "0"
    then some (pos 0)
    else none

-- As numbers, not as texts; a part more is newer.
ten_after_five : is_newer version_part "10.5" "5.10" ≡ true
unfolding is_newer
ten_after_five = refl

zero_after_none : is_newer version_part "5.0" "5" ≡ true
unfolding is_newer
zero_after_none = refl

offers_asym_example : offers version_part "10.5" "5.10" ≡ false
unfolding offers
offers_asym_example = offers_asym version_part "5.10" "10.5" refl refl refl
