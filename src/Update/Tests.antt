-- ===== src/Update/Tests.antt =====
-- An update from version 1 in slot a to version 2 in slot b.
use bmt_ai_os.Prelude.{
  ℕ, String, ◌≡◌, ◌⊎◌, refl, true, false, Option, none, some, List, [], ◌∷◌, ok,
}
use bmt_ai_os.Prelude.Dict
use bmt_ai_os.Ota.State
use bmt_ai_os.Ota.State.{Json}
use bmt_ai_os.Ota.Verify.{enforce_signature}
use bmt_ai_os.Ota.Engine.{
  apply_update, write_slot, write_file_backed, get_current_slot, fw_printenv,
}
use bmt_ai_os.Ota.Engine.Apply.{IsVerified}
use bmt_ai_os.Update.Orchestrator.{
  Environment, UpdateInfo, UpdateOrchestrator, UpdateResult, directory, exited, run, request,
  success, add, stage_os_update, standby_of,
}
use bmt_ai_os.Update.Orchestrator.Installs.{Installed, run_success}
use bmt_ai_os.Update.Orchestrator.Unsigned.{InstallsNothing, run_unsigned}

-- Stand-ins for `str`, `int` and the digest.
abbrev str_of : Json → String
str_of v = "?"

abbrev int_of : String → Option ℕ
int_of s = none

abbrev digest_of : List ℕ → String
digest_of bytes = "digest"

abbrev before : UpdateOrchestrator
before = record {
  last_update_info_version = none;
  device = record {
    state_file = State.save str_of int_of State.factory;
    uboot = none;
    slot_files = ("a", 1 ∷ []) ∷ [];
    slot_devices = [];
  };
  pulls = [];
}

abbrev offer : UpdateInfo
offer = record { version = "2"; url = "https://example.com/2.img"; sha256 = "digest" }

abbrev world : Environment
world = record {
  dry_run = true;
  compose_file = "compose.yml";
  preserved = directory ∷ [];
  info = some offer;
  env_slot = "";
  download = λ url sha256. true;
  image_exists = true;
  allow_unsigned = true;
  pubkey_exists = false;
  verified = none;
  block_dev_exists = false;
  write = record {
    source = some (7 ∷ 8 ∷ []);
    completed = true;
    left = some (7 ∷ 8 ∷ []);
    readable = true;
  };
  now = "2026-05-01";
  compose_exists = true;
  pull = exited 0;
  data_mounted = true;
}

abbrev report : UpdateResult
report = record {
  stages =
      record { name = "data_check"; success = true; skipped = false }
      ∷ record { name = "os_update"; success = true; skipped = false }
      ∷ record { name = "containers"; success = true; skipped = false }
      ∷ record { name = "data_verify"; success = true; skipped = false }
      ∷ [];
  new_version = some "2";
  rollback_required = false;
}

reported : (run digest_of str_of int_of world before).1 ≡ ok report
unfolding run stage_os_update add request standby_of get_current_slot fw_printenv apply_update
    enforce_signature write_slot write_file_backed State.switch_slots State.update State.load
    State.save State.from_dict State.to_dict Dict.get
reported = refl

run_success_example :
    ((world.info ≡ none)
      × (report.new_version ≡ none)
      × ((run digest_of str_of int_of world before).0.device ≡ before.device)
      × ((run digest_of str_of int_of world before).0.last_update_info_version ≡ none))
    ⊎ ((version : String) × (i : Installed digest_of str_of int_of world before
          (run digest_of str_of int_of world before).0.device
          version)
        × (report.new_version ≡ some version)
        × (world.allow_unsigned ≡ true)
        × IsVerified digest_of
            (request world i.slot)
            (run digest_of str_of int_of world before).0.device)
run_success_example =
    run_success digest_of str_of int_of world before report reported (unfold success in refl)

-- The key is there and would accept the image.
abbrev signed : Environment
signed = record world { allow_unsigned = false; pubkey_exists = true; verified = some true }

run_unsigned_example :
    ((run digest_of str_of int_of signed before).0.device ≡ before.device)
    × InstallsNothing digest_of str_of int_of signed (run digest_of str_of int_of signed before).1
run_unsigned_example = run_unsigned digest_of str_of int_of signed before refl
