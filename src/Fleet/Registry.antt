-- ===== src/Fleet/Registry.antt =====
-- The methods of FleetRegistry in bmt_ai_os/fleet/registry.py that change it: the devices in memory and the
-- tables together.
pub mod Persistence
pub mod Methods
pub mod Queues
pub mod Restart
pub mod Broadcast
pub mod Delivery
use bmt_ai_os.Prelude.{
  ℕ, suc, String, Bool, true, false, Option, none, some, List, [], ◌∷◌, ◌++◌, str_eq, if◌then◌else◌,
}
use bmt_ai_os.Prelude.Dict
use bmt_ai_os.Prelude.Dict.{Dict}
use bmt_ai_os.Fleet.Data.{
  Codec, FleetCommand, DeviceHeartbeat, DeviceRecord, DeviceRow, CommandRow, Database,
  FleetRegistry,
}
use bmt_ai_os.Fleet.Registration.{or_else, apply_heartbeat, Info, registration, unregistered}
use bmt_ai_os.Fleet.Database.{
  or_now, upsert_device_db, insert_command_db, mark_command_delivered_db, delete_device_db,
}

module _ (c : Codec) where
  open c use {Json}

  -- The device goes into the cache and into the database.
  unfoldable pub store_device : String → (DeviceRecord c) → (FleetRegistry c) → (FleetRegistry c)
  store_device id d r = record { devices = Dict.put r.devices id d; db = upsert_device_db c d r.db }

  unfoldable pub register : String → (Info c) → (FleetRegistry c) → (FleetRegistry c)
  unfolding registration store_device
  register now info r =
      store_device info.device_id (registration c now info (Dict.get r.devices info.device_id)) r

  pub noop : FleetCommand c
  noop = record { action = none; params = c.empty_dict; command_id = ""; status = "pending" }

  -- The last part of `heartbeat`: the first pending command leaves the queue of the stored record.
  pub deliver :
      String
      → (DeviceRecord c)
      → List (FleetCommand c)
      → (FleetRegistry c)
      → (FleetRegistry c) × (FleetCommand c)
  unfolding noop
  deliver id d [] r = (r, noop)
  deliver id d (cmd ∷ cmds) r = (
    record {
      devices = Dict.put r.devices id (record d { pending_commands = cmds });
      db = mark_command_delivered_db c cmd.command_id r.db;
    },
    cmd,
  )

  unfoldable pub heartbeat :
      String → (DeviceHeartbeat c) → (FleetRegistry c) → (FleetRegistry c) × (FleetCommand c)
  unfolding store_device deliver unregistered
  heartbeat now hb r =
      let known : DeviceRecord c = elim (Dict.get r.devices hb.device_id) [
        | none ↦ unregistered c now hb
        | some d ↦ d
      ] in
      let d = apply_heartbeat c hb known in
      deliver hb.device_id d d.pending_commands (store_device hb.device_id d r)

  unfoldable pub identified : String → (FleetCommand c) → (FleetCommand c)
  identified fresh given =
      if str_eq given.command_id "" then record given { command_id = fresh } else given

  -- The end of `enqueue_command`: the command joins the queue, and the table unless its id is known there.
  unfoldable pub push_command :
      String → (FleetCommand c) → (DeviceRecord c) → (FleetRegistry c) → (FleetRegistry c)
  push_command id cmd d r =
      let db : Database c = elim (insert_command_db c id cmd r.db) [ none ↦ r.db | some db ↦ db ] in
      record {
        devices =
            Dict.put r.devices id (record d { pending_commands = d.pending_commands ++ cmd ∷ [] });
        db = db;
      }

  -- `enqueue_command` with a command object; `fresh` is a new `uuid4`, and `none` the result `False`.
  unfoldable pub enqueue_command :
      String
      → String
      → (FleetCommand c)
      → (FleetRegistry c)
      → (FleetRegistry c) × Option (FleetCommand c)
  unfolding identified push_command
  enqueue_command fresh id given r = elim (Dict.get r.devices id) [
    | none ↦ (r, none)
    | some d ↦ let cmd = identified fresh given in (push_command id cmd d r, some cmd)
  ]

  given_or : String → Option String → String
  given_or fresh none = fresh
  given_or fresh (some id) = if str_eq id "" then fresh else id

  -- The command that `enqueue_command` makes of an action.
  unfoldable pub command_for : String → String → Option Json → Option String → (FleetCommand c)
  unfolding or_else given_or
  command_for fresh action params given = record {
    action = some action;
    params = or_else params c.empty_dict;
    command_id = given_or fresh given;
    status = "pending";
  }

  -- `enqueue_command` with an action; `none` is the `KeyError` of a device that is not registered.
  unfoldable pub enqueue_action :
      String
      → String
      → String
      → Option Json
      → Option String
      → (FleetRegistry c)
      → Option ((FleetRegistry c) × (FleetCommand c))
  unfolding push_command command_for
  enqueue_action fresh id action params given r = elim (Dict.get r.devices id) [
    | none ↦ none
    | some d ↦
        let cmd = command_for fresh action params given in some (push_command id cmd d r, cmd)
  ]

  -- The loop of `broadcast_command` and `deploy_model`; `fresh n` is the `uuid4` of the n-th round from here.
  unfoldable pub enqueue_all :
      (ℕ → String)
      → Option String
      → Json
      → List String
      → (FleetRegistry c)
      → (FleetRegistry c) × List String
  enqueue_all fresh action params [] r = (r, [])
  enqueue_all fresh action params (id ∷ ids) r =
      let cmd : FleetCommand c = record {
        action = action;
        params = params;
        command_id = fresh 0;
        status = "pending";
      } in
      let (r', done) = enqueue_command "" id cmd r in
      let (r'', targeted) = enqueue_all (λ n. fresh (suc n)) action params ids r' in
      elim done [ none ↦ (r'', targeted) | some x ↦ (r'', id ∷ targeted) ]

  unfoldable pub broadcast_command :
      (ℕ → String) → (FleetCommand c) → (FleetRegistry c) → (FleetRegistry c) × List String
  unfolding enqueue_all
  broadcast_command fresh cmd r = enqueue_all fresh cmd.action cmd.params (Dict.keys r.devices) r

  registered : List String → (FleetRegistry c) → List String
  registered [] r = []
  registered (id ∷ ids) r =
      let rest = registered ids r in
      elim (Dict.get r.devices id) [ none ↦ rest | some d ↦ id ∷ rest ]

  unfoldable pub targets_of : Option (List String) → (FleetRegistry c) → List String
  unfolding registered
  targets_of none r = Dict.keys r.devices
  targets_of (some ids) r = registered ids r

  unfoldable pub deploy_model :
      (ℕ → String)
      → String
      → Option (List String)
      → (FleetRegistry c)
      → (FleetRegistry c) × List String
  unfolding enqueue_all targets_of
  deploy_model fresh model chosen r =
      enqueue_all fresh (some "pull-model") (c.model_of model) (targets_of chosen r) r

  -- `remove` and `remove_device`: whether the device was there.
  unfoldable pub remove_device : String → (FleetRegistry c) → (FleetRegistry c) × Bool
  remove_device id r = elim (Dict.get r.devices id) [
    | none ↦ (r, false)
    | some d ↦ (record { devices = Dict.pop r.devices id; db = delete_device_db c id r.db }, true)
  ]
