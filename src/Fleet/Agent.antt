-- ===== src/Fleet/Agent.antt =====
-- FleetAgent of bmt_ai_os/fleet/agent.py, on a device, against the registry that answers its heartbeats. What the
-- collector measures, the network and the commands of the system answer through parameters; JSON carries what it is given.
pub mod Backlog
pub mod Outage
mod Tests
use bmt_ai_os.Prelude.{
  ℕ, suc, String, Bool, true, false, Option, none, some, List, [], ◌∷◌, ◌++◌, length, drop, leb,
  str_eq, if◌then◌else◌,
}
use bmt_ai_os.Fleet.Data.{Codec, FleetCommand, DeviceHeartbeat, FleetRegistry}
use bmt_ai_os.Fleet.Registry.{heartbeat}

abbrev pub offline_queue_max : ℕ
offline_queue_max = 100

-- What becomes of a request: it is answered, it is handled but its answer is lost, or it is not handled.
pub data Post : Type 0 where
  answered answer_lost unreached : Post

-- What the execution of a command calls.
pub data Call : Type 0 where
  apk_update apk_upgrade : Call
  pull : String → Call
  restart : String → Call

-- `str.strip`, and whether `apk update` succeeds.
pub record Device : Type 0 where
  pub strip : String → String
  pub apk_update_ok : Bool

-- A missing parameter is a ValueError.
given : (String → Call) → String → List Call
given call value = if str_eq value "" then [] else call value ∷ []

module _ (c : Codec) where
  open c use {Json, Real}

  -- What the collector reads: `hardware` is not empty.
  pub record Telemetry : Type 0 where
    pub timestamp : String
    pub hardware : Json
    pub loaded_models : Json
    pub service_health : Json
    pub cpu_percent : Real
    pub memory_percent : Real
    pub disk_percent : Real

  -- `hardware` is `none` until it has been read.
  pub record FleetAgent : Type 0 where
    pub device_id : String
    pub os_version : String
    pub hardware : Option Json
    pub offline_queue : List (DeviceHeartbeat c)
    pub last_heartbeat_ok : Option Bool
    pub last_error : String

  unfoldable pub build_heartbeat : Telemetry → FleetAgent → FleetAgent × (DeviceHeartbeat c)
  build_heartbeat t a =
      let hardware : Json = elim a.hardware [ none ↦ t.hardware | some h ↦ h ] in
      (
        record a { hardware = some hardware },
        record {
          device_id = a.device_id;
          timestamp = t.timestamp;
          os_version = a.os_version;
          hardware = hardware;
          loaded_models = t.loaded_models;
          service_health = t.service_health;
          cpu_percent = t.cpu_percent;
          memory_percent = t.memory_percent;
          disk_percent = t.disk_percent;
        },
      )

  -- `requests.post` to the route of the server, whose time is `now`; `none` is a RequestException.
  unfoldable pub post_heartbeat :
      String
      → (DeviceHeartbeat c)
      → Post
      → (FleetRegistry c)
      → (FleetRegistry c) × Option (FleetCommand c)
  post_heartbeat now hb answered r = let (r', cmd) = heartbeat c now hb r in (r', some cmd)
  post_heartbeat now hb answer_lost r = ((heartbeat c now hb r).0, none)
  post_heartbeat now hb unreached r = (r, none)

  -- `deque.append` with a greatest length
  unfoldable pub enqueue_offline : (DeviceHeartbeat c) → FleetAgent → FleetAgent
  enqueue_offline hb a =
      let queue =
        if leb offline_queue_max (length a.offline_queue)
        then drop 1 a.offline_queue
        else a.offline_queue in
      record a { offline_queue = queue ++ hb ∷ [] }

  -- The n-th request of the loop meets the time `clock n` and the network `link n`.
  unfoldable pub flush_offline_queue :
      (ℕ → String)
      → (ℕ → Post)
      → List (DeviceHeartbeat c)
      → (FleetRegistry c)
      → List (DeviceHeartbeat c) × (FleetRegistry c)
  unfolding post_heartbeat
  flush_offline_queue clock link [] r = ([], r)
  flush_offline_queue clock link (hb ∷ queue) r =
      let (r', answer) = post_heartbeat (clock 0) hb (link 0) r in
      let rest = flush_offline_queue (λ n. clock (suc n)) (λ n. link (suc n)) queue r' in
      elim answer [ none ↦ (hb ∷ queue, r') | some cmd ↦ rest ]

  -- The parameter of a command, or `""`.
  param : Device → Json → String → String
  param d params key = d.strip (elim (c.text_at params key) [ none ↦ "" | some s ↦ s ])

  -- The calls that `execute_command` makes; an exception ends it and is caught there.
  unfoldable pub execute_command : Device → (FleetCommand c) → List Call
  unfolding param given
  execute_command d cmd = elim cmd.action [
    | none ↦ []
    | some action ↦
        if str_eq action "update"
        then if d.apk_update_ok then apk_update ∷ apk_upgrade ∷ [] else apk_update ∷ []
        else if str_eq action "pull-model"
        then given pull (param d cmd.params "model")
        else if str_eq action "restart-service"
        then given restart (param d cmd.params "service")
        else []
  ]

  -- A device, the server and what the device has called so far.
  pub record Fleet : Type 0 where
    pub agent : FleetAgent
    pub registry : FleetRegistry c
    pub calls : List Call

  -- What one round of the loop meets.
  pub record Round : Type 0 where
    pub device : Device
    pub clock : ℕ → String
    pub link : ℕ → Post
    pub telemetry : Telemetry
    pub now : String
    pub post : Post
    pub error : String
    pub telemetry_after : Telemetry

  unfoldable pub round : Round → Fleet → Fleet
  unfolding build_heartbeat post_heartbeat enqueue_offline flush_offline_queue execute_command
  round i s =
      let (queue, r) = flush_offline_queue i.clock i.link s.agent.offline_queue s.registry in
      let (a, hb) = build_heartbeat i.telemetry (record s.agent { offline_queue = queue }) in
      let (r', answer) = post_heartbeat i.now hb i.post r in
      elim answer [
        | some cmd ↦ record {
          agent = record a { last_heartbeat_ok = some true; last_error = "" };
          registry = r';
          calls = s.calls ++ execute_command i.device cmd;
        }
        | none ↦
            let (a', again) =
              build_heartbeat i.telemetry_after
                (record a { last_heartbeat_ok = some false; last_error = i.error }) in
            record { agent = enqueue_offline again a'; registry = r'; calls = s.calls }
      ]

  unfoldable pub rounds : List Round → Fleet → Fleet
  rounds [] s = s
  rounds (i ∷ is) s = rounds is (round i s)
