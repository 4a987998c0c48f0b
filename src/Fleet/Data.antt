-- ===== src/Fleet/Data.antt =====
-- The data of bmt_ai_os/fleet/models.py and bmt_ai_os/fleet/registry.py: commands, heartbeats, the records in memory
-- and the rows of the tables of SQLite. What `json` makes of the values is a parameter.
use bmt_ai_os.Prelude.{ℕ, ◌≡◌, String, Bool, Option, some, List}
use bmt_ai_os.Prelude.Dict.{Dict}

-- JSON values with `json.dumps` and `json.loads`, where `none` is its `JSONDecodeError`, and the floats.
pub record Codec : Type 1 where
  pub Json : Type 0
  pub dumps : Json → String
  pub loads : String → Option Json
  pub empty_dict : Json
  pub empty_list : Json
  pub is_dict : Json → Bool
  pub text_at : Json → String → Option String
  pub model_of : String → Json
  pub Real : Type 0
  pub no_real : Real

-- What is dumped is loaded again.
pub record IsCodec (c : Codec) : Type 0 where
  pub loads-dumps : (v : c.Json) → c.loads (c.dumps v) ≡ some v

module _ (c : Codec) where
  open c use {Json, dumps, loads, Real}

  pub record FleetCommand : Type 0 where
    pub action : Option String
    pub params : Json
    pub command_id : String
    pub status : String

  pub record DeviceHeartbeat : Type 0 where
    pub device_id : String
    pub timestamp : String
    pub os_version : String
    pub hardware : Json
    pub loaded_models : Json
    pub service_health : Json
    pub cpu_percent : Real
    pub memory_percent : Real
    pub disk_percent : Real

  pub record DeviceRecord : Type 0 where
    pub device_id : String
    pub hostname : String
    pub os_version : String
    pub arch : String
    pub board : String
    pub cpu_model : String
    pub cpu_cores : ℕ
    pub memory_total_mb : ℕ
    pub disk_total_gb : Real
    pub hardware : Json
    pub registered_at : String
    pub last_seen : String
    pub loaded_models : Json
    pub service_health : Json
    pub cpu_percent : Real
    pub memory_percent : Real
    pub disk_percent : Real
    pub pending_commands : List FleetCommand

  -- A row of `devices`; `last_heartbeat` is never read and left out.
  pub record DeviceRow : Type 0 where
    pub hostname : String
    pub os_version : String
    pub arch : String
    pub board : String
    pub cpu_model : String
    pub cpu_cores : ℕ
    pub memory_total_mb : ℕ
    pub disk_total_gb : Real
    pub hardware : String
    pub registered_at : String
    pub last_seen : String
    pub loaded_models : String
    pub service_health : String
    pub cpu_percent : Real
    pub memory_percent : Real
    pub disk_percent : Real

  -- A row of `pending_commands`, in the order of `id`.
  pub record CommandRow : Type 0 where
    pub device_id : String
    pub command_id : String
    pub action : String
    pub params : String
    pub status : String

  pub record Database : Type 0 where
    pub devices : Dict DeviceRow
    pub commands : List CommandRow

  pub record FleetRegistry : Type 0 where
    pub devices : Dict DeviceRecord
    pub db : Database
