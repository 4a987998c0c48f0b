-- ===== src/Fleet/Database.antt =====
-- The tables of FleetRegistry in bmt_ai_os/fleet/registry.py: what is loaded from them and how they are written.
pub mod Commands
pub mod Rows
pub mod Delivery
use bmt_ai_os.Prelude.{
  ℕ, String, Bool, true, false, ◌&&◌, ◌||◌, Option, none, some, List, [], ◌∷◌, ◌++◌, str_eq,
  if◌then◌else◌,
}
use bmt_ai_os.Prelude.Dict
use bmt_ai_os.Prelude.Dict.{Dict}
use bmt_ai_os.Fleet.Data.{Codec, FleetCommand, DeviceRecord, DeviceRow, CommandRow, Database}

-- `__post_init__`: an empty time of registration is the time now.
unfoldable pub or_now : String → String → String
or_now now s = if str_eq s "" then now else s

module _ (c : Codec) where
  open c use {Json, dumps, loads}

  -- The value of a column, or the default where it does not parse.
  pub load_or : Json → String → Json
  load_or default s = elim (loads s) [ none ↦ default | some v ↦ v ]

  unfoldable pub is_pending : (CommandRow c) → Bool
  is_pending r = str_eq r.status "pending"

  -- Every row that is read as a command has params that parse; if not, loading raises.
  unfoldable pub params_parse : List (CommandRow c) → Bool
  params_parse [] = true
  params_parse (r ∷ rs) =
      let rest = params_parse rs in
      if is_pending r then elim (loads r.params) [ none ↦ false | some v ↦ rest ] else rest

  pub command_of : (CommandRow c) → (FleetCommand c)
  unfolding load_or
  command_of r = record {
    action = some r.action;
    params = load_or c.empty_dict r.params;
    command_id = r.command_id;
    status = r.status;
  }

  -- `cmds_by_device.get(device_id, [])`
  unfoldable pub commands_of : String → List (CommandRow c) → List (FleetCommand c)
  commands_of id [] = []
  commands_of id (r ∷ rs) =
      let rest = commands_of id rs in
      if is_pending r && str_eq r.device_id id then command_of r ∷ rest else rest

  pub record_of : String → String → (DeviceRow c) → List (FleetCommand c) → (DeviceRecord c)
  unfolding load_or or_now
  record_of now id row commands = record {
    device_id = id;
    hostname = row.hostname;
    os_version = row.os_version;
    arch = row.arch;
    board = row.board;
    cpu_model = row.cpu_model;
    cpu_cores = row.cpu_cores;
    memory_total_mb = row.memory_total_mb;
    disk_total_gb = row.disk_total_gb;
    hardware = load_or c.empty_dict row.hardware;
    registered_at = or_now now row.registered_at;
    last_seen = row.last_seen;
    loaded_models = load_or c.empty_list row.loaded_models;
    service_health = load_or c.empty_dict row.service_health;
    cpu_percent = row.cpu_percent;
    memory_percent = row.memory_percent;
    disk_percent = row.disk_percent;
    pending_commands = commands;
  }

  -- `now` is the time of loading. The ids are the keys of the table, so each is written once.
  pub load_devices : String → List (CommandRow c) → Dict (DeviceRow c) → Dict (DeviceRecord c)
  load_devices now commands [] = []
  load_devices now commands ((id, row) ∷ rows) =
      (id, record_of now id row (commands_of id commands)) ∷ load_devices now commands rows

  -- `_load_from_db`; `none` is an exception.
  unfoldable pub load_from_db : String → (Database c) → Option (Dict (DeviceRecord c))
  unfolding params_parse load_devices record_of commands_of command_of
  load_from_db now db =
      if params_parse db.commands then some (load_devices now db.commands db.devices) else none

  pub row_of : (DeviceRecord c) → (DeviceRow c)
  row_of d = record {
    hostname = d.hostname;
    os_version = d.os_version;
    arch = d.arch;
    board = d.board;
    cpu_model = d.cpu_model;
    cpu_cores = d.cpu_cores;
    memory_total_mb = d.memory_total_mb;
    disk_total_gb = d.disk_total_gb;
    hardware = dumps d.hardware;
    registered_at = d.registered_at;
    last_seen = d.last_seen;
    loaded_models = dumps d.loaded_models;
    service_health = dumps d.service_health;
    cpu_percent = d.cpu_percent;
    memory_percent = d.memory_percent;
    disk_percent = d.disk_percent;
  }

  -- On a conflict `registered_at` is the one column that is not updated.
  unfoldable pub upsert_device_db : (DeviceRecord c) → (Database c) → (Database c)
  unfolding row_of
  upsert_device_db d db =
      let row = row_of d in
      let row' : DeviceRow c = elim (Dict.get db.devices d.device_id) [
        | none ↦ row
        | some old ↦ record row { registered_at = old.registered_at }
      ] in
      record db { devices = Dict.put db.devices d.device_id row' }

  unfoldable pub has_command_id : String → List (CommandRow c) → Bool
  has_command_id id [] = false
  has_command_id id (r ∷ rs) = str_eq r.command_id id || has_command_id id rs

  unfoldable pub command_row : String → (FleetCommand c) → (CommandRow c)
  command_row id cmd = record {
    device_id = id;
    command_id = cmd.command_id;
    action = elim cmd.action [ none ↦ "" | some a ↦ a ];
    params = dumps cmd.params;
    status = cmd.status;
  }

  -- `none` is the `IntegrityError` of the unique command id.
  unfoldable pub insert_command_db : String → (FleetCommand c) → (Database c) → Option (Database c)
  unfolding has_command_id command_row
  insert_command_db id cmd db =
      if has_command_id cmd.command_id db.commands
      then none
      else some (record db { commands = db.commands ++ command_row id cmd ∷ [] })

  pub mark_delivered : String → List (CommandRow c) → List (CommandRow c)
  mark_delivered id [] = []
  mark_delivered id (r ∷ rs) =
      (if str_eq r.command_id id then record r { status = "delivered" } else r)
      ∷ mark_delivered id rs

  unfoldable pub mark_command_delivered_db : String → (Database c) → (Database c)
  unfolding mark_delivered
  mark_command_delivered_db id db = record db { commands = mark_delivered id db.commands }

  pub delete_commands : String → List (CommandRow c) → List (CommandRow c)
  delete_commands id [] = []
  delete_commands id (r ∷ rs) =
      let rest = delete_commands id rs in if str_eq r.device_id id then rest else r ∷ rest

  unfoldable pub delete_device_db : String → (Database c) → (Database c)
  unfolding delete_commands
  delete_device_db id db = record {
    devices = Dict.pop db.devices id;
    commands = delete_commands id db.commands;
  }
