-- ===== src/Fleet/Database/Rows.antt =====
-- What is written of a device is what is loaded of it.
use bmt_ai_os.Prelude.{
  ◌≡◌, refl, sym, ap, ◌∙◌, inl, inr, String, false, Option, some, Option-cases, List, str_eq,
  if◌then◌else◌, arith,
}
use bmt_ai_os.Prelude.Dict
use bmt_ai_os.Prelude.Dict.{Dict, get-put}
use bmt_ai_os.Fleet.Data.{Codec, IsCodec, FleetCommand, DeviceRecord, DeviceRow, Database}
use bmt_ai_os.Fleet.Database.{
  or_now, load_or, command_of, command_row, record_of, row_of, upsert_device_db,
}

with_action : {c : Codec} → FleetCommand c → Option String → FleetCommand c
with_action cmd a = record cmd { action = a }

with_registered_at : {c : Codec} → DeviceRow c → String → DeviceRow c
with_registered_at row t = record row { registered_at = t }

unfoldable pub with_queue : {c : Codec} → DeviceRecord c → List (FleetCommand c) → DeviceRecord c
with_queue d cmds = record d { pending_commands = cmds }

module _ (c : Codec) (law : IsCodec c) where
  load_or-dumps : (default v : c.Json) → load_or c default (c.dumps v) ≡ v
  unfolding load_or
  load_or-dumps default v = rw (load_or, law.loads-dumps v) refl

  pub record_of-row_of :
      (now : String) (d : DeviceRecord c)
      → str_eq d.registered_at "" ≡ false
      → record_of c now d.device_id (row_of c d) d.pending_commands ≡ d
  unfolding record_of row_of or_now
  record_of-row_of now d h =
      rw
        (
          h,
          load_or-dumps c.empty_dict d.hardware,
          load_or-dumps c.empty_list d.loaded_models,
          load_or-dumps c.empty_dict d.service_health,
        )
        refl

  -- The command that is loaded is the command that was inserted.
  pub command_of-row :
      (id a : String) (cmd : FleetCommand c)
      → cmd.action ≡ some a
      → command_of c (command_row c id cmd) ≡ cmd
  unfolding command_of command_row with_action
  command_of-row id a cmd h = simp (h, load_or-dumps) (ap (with_action cmd) (sym h))

module _ (c : Codec) where
  pub record_of_dated :
      (now id : String) (row : DeviceRow c) (cmds : List (FleetCommand c))
      → str_eq row.registered_at "" ≡ false
      → record_of c now id row cmds ≡ record_of c "" id row cmds
  unfolding record_of or_now
  record_of_dated now id row cmds h = rw h refl

  pub get-upsert :
      (d : DeviceRecord c) (db : Database c) (j : String)
      → ((old : DeviceRow c)
          → Dict.get db.devices d.device_id ≡ some old
          → old.registered_at ≡ d.registered_at)
      → Dict.get (upsert_device_db c d db).devices j
        ≡ (if str_eq d.device_id j then some (row_of c d) else Dict.get db.devices j)
  unfolding upsert_device_db row_of with_registered_at
  get-upsert d db j h = elim (Option-cases (Dict.get db.devices d.device_id)) [
    | inl e ↦ ground (arith, e, get-put db.devices d.device_id j (row_of c d))
    | inr (old, e) ↦
        let same : with_registered_at (row_of c d) old.registered_at ≡ row_of c d =
          ap (with_registered_at (row_of c d)) (h old e) in
        rw (upsert_device_db, e)
          (ap (λ (row : DeviceRow c). Dict.get (Dict.put db.devices d.device_id row) j) same
            ∙ get-put db.devices d.device_id j (row_of c d))
  ]

  pub row_of-registered_at : (d : DeviceRecord c) → (row_of c d).registered_at ≡ d.registered_at
  unfolding row_of
  row_of-registered_at d = refl

  pub record_of-queue :
      (now id : String) (row : DeviceRow c) (cmds cmds' : List (FleetCommand c))
      → record_of c now id row cmds' ≡ with_queue (record_of c now id row cmds) cmds'
  unfolding record_of with_queue
  record_of-queue now id row cmds cmds' = refl

  pub record_of_parts :
      (id : String) (row : DeviceRow c) (cmds : List (FleetCommand c))
      → str_eq row.registered_at "" ≡ false
      → ((record_of c "" id row cmds).device_id ≡ id)
        × ((record_of c "" id row cmds).registered_at ≡ row.registered_at)
        × ((record_of c "" id row cmds).pending_commands ≡ cmds)
  unfolding record_of or_now
  record_of_parts id row cmds h = (refl, rw h refl, refl)
