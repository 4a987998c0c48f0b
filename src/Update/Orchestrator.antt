-- ===== src/Update/Orchestrator.antt =====
-- bmt_ai_os/update/orchestrator.py over the engine of bmt_ai_os/ota/engine.py. What the release server,
-- the download, Docker and the file system answer is in an `Environment`. Messages are left out.
pub mod Installs
pub mod Unsigned
use bmt_ai_os.Prelude.{
  ℕ, String, Bool, true, false, not, ◌&&◌, ◌||◌, Option, none, some, List, [], ◌∷◌, ◌++◌, str_eq,
  ◌==◌, if◌then◌else◌, Result, ok, err,
}
use bmt_ai_os.Ota.State.{Json}
use bmt_ai_os.Ota.Engine.{
  Device, OtaError, bad_state, UpdateRequest, WriteRun, apply_update, get_current_slot,
}

pub record StageResult : Type 0 where
  pub name : String
  pub success : Bool
  pub skipped : Bool

pub record UpdateResult : Type 0 where
  pub stages : List StageResult
  pub new_version : Option String
  pub rollback_required : Bool

-- `all(s.success or s.skipped for s in stages)`
all_succeed : List StageResult → Bool
all_succeed [] = true
all_succeed (s ∷ stages) = (s.success || s.skipped) && all_succeed stages

unfoldable pub success : UpdateResult → Bool
unfolding all_succeed
success r = all_succeed r.stages

unfoldable pub add : StageResult → UpdateResult → UpdateResult
add s r = record r { stages = r.stages ++ s ∷ [] }

-- What stands at a path under the data mount.
pub data Entry : Type 0 where
  absent directory other : Entry

pub record UpdateInfo : Type 0 where
  pub version : String
  pub url : String
  pub sha256 : String

-- How `docker compose pull` ends.
pub data Pull : Type 0 where
  not_found timed_out : Pull
  exited : ℕ → Pull

pub record Environment : Type 0 where
  pub dry_run : Bool
  pub compose_file : String
  pub preserved : List Entry
  pub info : Option UpdateInfo
  pub env_slot : String
  pub download : String → String → Bool
  pub image_exists : Bool
  pub allow_unsigned : Bool
  pub pubkey_exists : Bool
  pub verified : Option Bool
  pub block_dev_exists : Bool
  pub write : WriteRun
  pub now : String
  pub compose_exists : Bool
  pub pull : Pull
  pub data_mounted : Bool

-- What a run changes: the version of the last update information, the device, and the container images, as the list
-- of compose files for which `docker compose pull` has run.
pub record UpdateOrchestrator : Type 0 where
  pub last_update_info_version : Option String
  pub device : Device
  pub pulls : List String

-- The paths that are there and no directories; `missing` of the source.
misplaced : List Entry → List Entry
misplaced [] = []
misplaced (other ∷ es) = other ∷ misplaced es
misplaced (absent ∷ es) = misplaced es
misplaced (directory ∷ es) = misplaced es

no_entries : List Entry → Bool
no_entries [] = true
no_entries (e ∷ es) = false

stage_data_check : Environment → StageResult
unfolding misplaced no_entries
stage_data_check e = record {
  name = "data_check";
  success = no_entries (misplaced e.preserved);
  skipped = false;
}

exit_stage : Pull → StageResult
exit_stage not_found = record { name = "containers"; success = true; skipped = true }
exit_stage timed_out = record { name = "containers"; success = false; skipped = false }
exit_stage (exited n) = record { name = "containers"; success = n == 0; skipped = false }

-- A `docker` that is not found pulls nothing.
pulled : Pull → String → List String → List String
pulled not_found file pulls = pulls
pulled timed_out file pulls = pulls ++ file ∷ []
pulled (exited n) file pulls = pulls ++ file ∷ []

unfoldable pub stage_containers :
    Environment → UpdateOrchestrator → UpdateOrchestrator × StageResult
unfolding exit_stage pulled
stage_containers e u =
    if str_eq e.compose_file ""
    then (u, record { name = "containers"; success = true; skipped = true })
    else if not e.compose_exists
    then (u, record { name = "containers"; success = true; skipped = true })
    else (record u { pulls = pulled e.pull e.compose_file u.pulls }, exit_stage e.pull)

stage_data_verify : Environment → StageResult
stage_data_verify e = record { name = "data_verify"; success = e.data_mounted; skipped = false }

unfoldable pub standby_of : String → String
standby_of slot = if str_eq slot "a" then "b" else "a"

-- The call of `apply_update` in `_stage_os_update`, with no `sig_path`: the temporary directory is new and the download
-- writes the image alone into it, so that there is no signature beside it.
unfoldable pub request : Environment → String → UpdateRequest
request e slot = record {
  target_slot = standby_of slot;
  image_exists = e.image_exists;
  signing = record {
    allow_unsigned = e.allow_unsigned;
    sig_exists = false;
    pubkey_exists = e.pubkey_exists;
    verified = e.verified;
  };
  dry_run = some e.dry_run;
  block_dev_exists = e.block_dev_exists;
  write = e.write;
  now = e.now;
}

-- A stage that was not skipped.
os_stage : Bool → StageResult
os_stage done = record { name = "os_update"; success = done; skipped = false }

module _ (digest : List ℕ → String) (str_of : Json → String) (int_of : String → Option ℕ) where
  -- The download and the write, once the current slot is known.
  pub install :
      Environment
      → UpdateInfo
      → String
      → UpdateOrchestrator
      → UpdateOrchestrator × Result OtaError StageResult
  unfolding os_stage
  install e info slot u =
      if not (e.download info.url info.sha256)
      then (u, ok (os_stage false))
      else (let (d, r) = apply_update digest str_of int_of (request e slot) u.device in
          elim r [
            | err x ↦ (record u { device = d }, err x)
            | ok done ↦ (record u { device = d }, ok (os_stage done))
          ])

  unfoldable pub stage_os_update :
      Environment → UpdateOrchestrator → UpdateOrchestrator × Result OtaError StageResult
  unfolding install
  stage_os_update e u = elim e.info [
    | none ↦ (u, ok (record { name = "os_update"; success = true; skipped = true }))
    | some info ↦
        let u' = record u { last_update_info_version = some info.version } in
        elim (get_current_slot str_of int_of e.env_slot u'.device) [
          | err x ↦ (u', err (bad_state x))
          | ok slot ↦ install e info slot u'
        ]
  ]

  -- The rest of `run`, once the system stage has returned.
  unfoldable pub finish :
      Environment → UpdateOrchestrator → StageResult → UpdateOrchestrator × UpdateResult
  unfolding stage_data_check stage_containers stage_data_verify add
  finish e u stage =
      let r : UpdateResult = record {
        stages = [];
        new_version = none;
        rollback_required = false;
      } in
      let r1 = add stage (add (stage_data_check e) r) in
      let r2 =
        if stage.success && not stage.skipped
        then record r1 { new_version = u.last_update_info_version }
        else r1 in
      let (u', containers) = stage_containers e u in
      (u', add (stage_data_verify e) (add containers r2))

  unfoldable pub run :
      Environment → UpdateOrchestrator → UpdateOrchestrator × Result OtaError UpdateResult
  unfolding finish
  run e u =
      let (u', r) = stage_os_update e u in
      elim r [
        | err x ↦ (u', err x)
        | ok stage ↦ let (u'', result) = finish e u' stage in (u'', ok result)
      ]
