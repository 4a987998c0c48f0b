-- ===== src/Fleet/Registration.antt =====
-- The records that the registry makes of a device: `register`, `heartbeat` and DeviceRecord.apply_heartbeat of
-- bmt_ai_os/fleet/registry.py.
use bmt_ai_os.Prelude.{ℕ, String, Option, none, some, [], if◌then◌else◌}
use bmt_ai_os.Fleet.Data.{Codec, DeviceHeartbeat, DeviceRecord}
use bmt_ai_os.Fleet.Database.{or_now}

unfoldable pub or_else {ℓ} : {A : Type ℓ} → Option A → A → A
or_else none default = default
or_else (some v) default = v

module _ (c : Codec) where
  open c use {Json, Real}

  unfoldable pub apply_heartbeat : (DeviceHeartbeat c) → (DeviceRecord c) → (DeviceRecord c)
  apply_heartbeat hb d = record d {
    last_seen = hb.timestamp;
    os_version = hb.os_version;
    hardware = hb.hardware;
    loaded_models = hb.loaded_models;
    service_health = hb.service_health;
    cpu_percent = hb.cpu_percent;
    memory_percent = hb.memory_percent;
    disk_percent = hb.disk_percent;
  }

  -- The `info` of `register`: `none` is a key that is missing.
  pub record Info : Type 0 where
    pub device_id : String
    pub hostname : Option String
    pub os_version : Option String
    pub arch : Option String
    pub board : Option String
    pub cpu_model : Option String
    pub cpu_cores : Option ℕ
    pub memory_total_mb : Option ℕ
    pub disk_total_gb : Option Real
    pub hardware : Option Json

  hardware_of : Option Json → Json
  hardware_of none = c.empty_dict
  hardware_of (some h) = if c.is_dict h then h else c.empty_dict

  -- `info.get(key, hardware.get(key, ""))`
  text_of : Option String → Json → String → String
  unfolding or_else
  text_of given hardware key = or_else given (or_else (c.text_at hardware key) "")

  unfoldable pub registration : String → Info → Option (DeviceRecord c) → (DeviceRecord c)
  unfolding or_else hardware_of text_of or_now
  registration now info existing =
      let hardware = hardware_of info.hardware in
      record {
        device_id = info.device_id;
        hostname = or_else info.hostname "";
        os_version = or_else info.os_version "";
        arch = text_of info.arch hardware "arch";
        board = text_of info.board hardware "board";
        cpu_model = or_else info.cpu_model "";
        cpu_cores = or_else info.cpu_cores 0;
        memory_total_mb = or_else info.memory_total_mb 0;
        disk_total_gb = or_else info.disk_total_gb c.no_real;
        hardware = hardware;
        registered_at = or_now now (elim existing [ none ↦ now | some d ↦ d.registered_at ]);
        last_seen = elim existing [ none ↦ "" | some d ↦ d.last_seen ];
        loaded_models = elim existing [ none ↦ c.empty_list | some d ↦ d.loaded_models ];
        service_health = elim existing [ none ↦ c.empty_dict | some d ↦ d.service_health ];
        cpu_percent = elim existing [ none ↦ c.no_real | some d ↦ d.cpu_percent ];
        memory_percent = elim existing [ none ↦ c.no_real | some d ↦ d.memory_percent ];
        disk_percent = elim existing [ none ↦ c.no_real | some d ↦ d.disk_percent ];
        pending_commands = elim existing [ none ↦ [] | some d ↦ d.pending_commands ];
      }

  -- The record of a device that registers with its first heartbeat.
  unfoldable pub unregistered : String → (DeviceHeartbeat c) → (DeviceRecord c)
  unregistered now hb = record {
    device_id = hb.device_id;
    hostname = "";
    os_version = hb.os_version;
    arch = "";
    board = "";
    cpu_model = "";
    cpu_cores = 0;
    memory_total_mb = 0;
    disk_total_gb = c.no_real;
    hardware = hb.hardware;
    registered_at = now;
    last_seen = "";
    loaded_models = c.empty_list;
    service_health = c.empty_dict;
    cpu_percent = c.no_real;
    memory_percent = c.no_real;
    disk_percent = c.no_real;
    pending_commands = [];
  }
