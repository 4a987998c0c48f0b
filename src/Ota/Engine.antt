-- ===== src/Ota/Engine.antt =====
-- bmt_ai_os/ota/engine.py: writing an image to a slot, switching, confirming and rolling back. Images
-- are lists of bytes. What the outside does during a write is the record `WriteRun`; SHA-256
-- enters as an argument.
pub mod Apply
pub mod Lifecycle
pub mod Unswitched
use bmt_ai_os.Prelude.{
  ℕ, ◌+◌, String, Bool, true, false, not, ◌&&◌, ◌||◌, Option, none, some, List, [], ◌∷◌, str_eq,
  ◌==◌, leb, if◌then◌else◌, Result, ok, err, ◌>>=◌, length, take,
}
use bmt_ai_os.Prelude.Dict
use bmt_ai_os.Prelude.Dict.{Dict}
use bmt_ai_os.Ota.Verify.{Signing, enforce_signature}
use bmt_ai_os.Ota.State
use bmt_ai_os.Ota.State.{Json, OtaState, StateFile, LoadError}

-- The state file, the environment of U-Boot (`none` where its tools are absent), the file-backed slots
-- and the block devices of the slots.
pub record Device : Type 0 where
  pub state_file : StateFile
  pub uboot : Option (Dict String)
  pub slot_files : Dict (List ℕ)
  pub slot_devices : Dict (List ℕ)

-- `_fw_setenv`: nothing where the tool is absent.
unfoldable pub fw_setenv : String → String → Device → Device
fw_setenv key value d = record d {
  uboot = elim d.uboot [ none ↦ none | some vars ↦ some (Dict.put vars key value) ];
}

-- `_fw_printenv`: the empty text on failure.
unfoldable pub fw_printenv : String → Device → String
fw_printenv key d = elim d.uboot [
  | none ↦ ""
  | some vars ↦ elim (Dict.get vars key) [ none ↦ "" | some v ↦ v ]
]

-- One write of an image: what reading the source gives (`none` for an `OSError`), whether the copy or
-- `dd` reports success, what the target then holds, and whether it can be read back.
pub record WriteRun : Type 0 where
  pub source : Option (List ℕ)
  pub completed : Bool
  pub left : Option (List ℕ)
  pub readable : Bool

pub record UpdateRequest : Type 0 where
  pub target_slot : String
  pub image_exists : Bool
  pub signing : Signing
  pub dry_run : Option Bool
  pub block_dev_exists : Bool
  pub write : WriteRun
  pub now : String

pub data OtaError : Type 0 where
  permission_error : OtaError
  bad_state : LoadError → OtaError

same_digest : Option String → Option String → Bool
same_digest none none = true
same_digest (some a) (some b) = str_eq a b
same_digest _ _ = false

-- What a write leaves at the target.
leave : Dict (List ℕ) → String → Option (List ℕ) → Dict (List ℕ)
leave slots slot none = Dict.pop slots slot
leave slots slot (some content) = Dict.put slots slot content

unfoldable pub is_slot : String → Bool
is_slot s = str_eq s "a" || str_eq s "b"

-- `dry_run is True`, or `dry_run is None` and no block device
file_backed : Option Bool → Bool → Bool
file_backed none exists = not exists
file_backed (some b) exists = b

module _ (sha256 : List ℕ → String) where
  -- `_hash_file`
  digest : Option (List ℕ) → Option String
  digest none = none
  digest (some content) = some (sha256 content)

  read_back : WriteRun → Option (List ℕ)
  read_back w = if w.readable then w.left else none

  -- The first `size` bytes of the device, for `_hash_block_device`.
  first_bytes : ℕ → Option (List ℕ) → Option (List ℕ)
  first_bytes size none = none
  first_bytes size (some content) = some (take size content)

  unfoldable pub write_file_backed : String → WriteRun → Dict (List ℕ) → Dict (List ℕ) × Bool
  unfolding digest read_back leave same_digest
  write_file_backed slot w slots = elim w.source [
    | none ↦ (slots, false)
    | some image ↦
        if not w.completed
        then (leave slots slot w.left, false)
        else if same_digest (digest (read_back w)) (some (sha256 image))
        then (leave slots slot w.left, true)
        else (Dict.pop slots slot, false)
  ]

  unfoldable pub write_dd : String → WriteRun → Dict (List ℕ) → Dict (List ℕ) × Bool
  unfolding digest read_back leave same_digest first_bytes
  write_dd slot w devices = elim w.source [
    | none ↦ (devices, false)
    | some image ↦ if not w.completed then (leave devices slot w.left, false) else (
      leave devices slot w.left,
      same_digest (digest (first_bytes (length image) (read_back w))) (some (sha256 image)),
    )
  ]

  -- The write, to the file-backed store or to the block device.
  unfoldable pub write_slot : UpdateRequest → Device → Device × Bool
  unfolding file_backed
  write_slot q d =
      if file_backed q.dry_run q.block_dev_exists
      then (let (slots, done) = write_file_backed q.target_slot q.write d.slot_files in
          (record d { slot_files = slots }, done))
      else (let (devices, done) = write_dd q.target_slot q.write d.slot_devices in
          (record d { slot_devices = devices }, done))

  module _ (str_of : Json → String) (int_of : String → Option ℕ) where
    -- The switch that follows a verified write.
    switch_after : String → Device → Device × Result OtaError Bool
    switch_after now d = elim (State.switch_slots str_of int_of now d.state_file) [
      | err e ↦ (d, err (bad_state e))
      | ok (file, s) ↦ (record d { state_file = file }, ok true)
    ]

    unfoldable pub apply_update : UpdateRequest → Device → Device × Result OtaError Bool
    unfolding is_slot switch_after
    apply_update q d =
        if not (is_slot q.target_slot)
        then (d, ok false)
        else if not q.image_exists
        then (d, ok false)
        else if not (enforce_signature q.signing)
        then (d, err permission_error)
        else (let (d', done) = write_slot q d in
            if done then switch_after q.now d' else (d', ok false))

module _ (str_of : Json → String) (int_of : String → Option ℕ) where
  unfoldable pub confirm_boot : Device → Result LoadError Device
  unfolding fw_setenv
  confirm_boot d = do
    saved ← State.confirm str_of int_of d.state_file
    ok (
        fw_setenv "upgrade_available" "0"
          (fw_setenv "bootcount" "0" (record d { state_file = saved.0 })))

  -- The slot from U-Boot, from the environment variable (already stripped and in lower case), or from
  -- the state file.
  unfoldable pub get_current_slot : String → Device → Result LoadError String
  unfolding is_slot fw_printenv
  get_current_slot env_slot d =
      let saved : Result LoadError String = (do
        s ← State.load str_of int_of d.state_file
        ok s.current_slot) in
      if is_slot (fw_printenv "slot_name" d)
      then ok (fw_printenv "slot_name" d)
      else if is_slot env_slot
      then ok env_slot
      else saved

  -- It returns `True` whenever it returns.
  unfoldable pub rollback_update : Device → Result LoadError Device
  unfolding fw_setenv
  rollback_update d = do
    s ← State.load str_of int_of d.state_file
    let s' = State.rolled_back s
    let d' = record d { state_file = State.save str_of int_of s' }
    ok (
        fw_setenv "bootcount" "0"
          (fw_setenv "upgrade_available" "0" (fw_setenv "slot_name" s'.current_slot d')))

  -- `limit` is `BMT_OTA_MAX_BOOTCOUNT`, or the default.
  unfoldable pub should_rollback : ℕ → Device → Result LoadError Bool
  should_rollback limit d = do
    s ← State.load str_of int_of d.state_file
    ok (if s.confirmed then false else leb limit s.bootcount)
