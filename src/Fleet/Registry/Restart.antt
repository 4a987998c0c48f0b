-- ===== src/Fleet/Registry/Restart.antt =====
-- A registry that is loaded again from the tables of the last one, after any sequence of methods.
use bmt_ai_os.Prelude.{
  ◌≡◌, refl, sym, ap, ◌∙◌, inl, inr, String, true, false, Option, some, Option-cases, [], ◌∷◌, ◌++◌,
  str_eq, str_eq_refl, arith,
}
use bmt_ai_os.Prelude.Dict
use bmt_ai_os.Prelude.Dict.{Dict, get-put}
use bmt_ai_os.Fleet.Data.{
  Codec, IsCodec, FleetCommand, DeviceHeartbeat, DeviceRecord, FleetRegistry,
}
use bmt_ai_os.Fleet.Database.{
  commands_of, params_parse, load_devices, load_from_db, has_command_id, insert_command_db,
}
use bmt_ai_os.Fleet.Database.Commands.{get-load_devices}
use bmt_ai_os.Fleet.Database.Rows.{record_of_dated, with_queue}
use bmt_ai_os.Fleet.Registration.{Info}
use bmt_ai_os.Fleet.Registry.{
  register, heartbeat, identified, push_command, enqueue_command, enqueue_action, remove_device,
}
use bmt_ai_os.Fleet.Registry.Persistence.{revive, revived, IsPersisted}
use bmt_ai_os.Fleet.Registry.Methods.{register-IsPersisted, heartbeat-IsPersisted}
use bmt_ai_os.Fleet.Registry.Queues.{
  IsNew, enqueue_command-IsPersisted, enqueue_action-IsPersisted, remove_device-IsPersisted,
}

module _ (c : Codec) where
  -- A registry on a new database.
  abbrev pub created : FleetRegistry c
  created = record { devices = []; db = record { devices = []; commands = [] } }

module _ (c : Codec) (law : IsCodec c) where
  -- What the methods can make of it, at times that are not empty and with commands that are new.
  pub data Reachable : FleetRegistry c → Type 0 where
    new : Reachable (created c)
    registering :
        {r : FleetRegistry c} (now : String) (info : Info c)
        → str_eq now "" ≡ false
        → Reachable r
        → Reachable (register c now info r)
    beating :
        {r : FleetRegistry c} (now : String) (hb : DeviceHeartbeat c)
        → str_eq now "" ≡ false
        → Reachable r
        → Reachable (heartbeat c now hb r).0
    queueing :
        {r : FleetRegistry c} (fresh id : String) (cmd : FleetCommand c)
        → IsNew c law (identified c fresh cmd) r.db
        → Reachable r
        → Reachable (enqueue_command c fresh id cmd r).0
    acting :
        {r r' : FleetRegistry c} (fresh id action : String) (params : Option c.Json)
        (given : Option String) (cmd : FleetCommand c)
        → enqueue_action c fresh id action params given r ≡ some (r', cmd)
        → IsNew c law cmd r.db
        → Reachable r
        → Reachable r'
    removing :
        {r : FleetRegistry c} (id : String) → Reachable r → Reachable (remove_device c id r).0

  created-IsPersisted : IsPersisted c law (created c)
  unfolding params_parse revived revive commands_of Dict.get
  created-IsPersisted = record {
    parses = refl;
    unique = tt;
    mirrored = λ id. refl;
    dated = λ id row e. absurd (ground (arith, e));
    no_orphans = λ id e. refl;
  }

  pub Reachable-IsPersisted : {r : FleetRegistry c} → Reachable r → IsPersisted c law r
  Reachable-IsPersisted new = created-IsPersisted
  Reachable-IsPersisted (registering {r} now info n s) =
      register-IsPersisted c law now info r n (Reachable-IsPersisted s)
  Reachable-IsPersisted (beating {r} now hb n s) =
      heartbeat-IsPersisted c law now hb r n (Reachable-IsPersisted s)
  Reachable-IsPersisted (queueing {r} fresh id cmd n s) =
      enqueue_command-IsPersisted c law fresh id cmd r n (Reachable-IsPersisted s)
  Reachable-IsPersisted (acting {r} {r'} fresh id action params given cmd h n s) =
      enqueue_action-IsPersisted c law fresh id action params given r r' cmd h n
        (Reachable-IsPersisted s)
  Reachable-IsPersisted (removing {r} id s) =
      remove_device-IsPersisted c law id r (Reachable-IsPersisted s)

  loaded_get :
      (now : String) (r : FleetRegistry c)
      → IsPersisted c law r
      → (id : String)
      → Dict.get (load_devices c now r.db.commands r.db.devices) id ≡ Dict.get r.devices id
  unfolding revived revive
  loaded_get now r p id =
      get-load_devices c now r.db.commands r.db.devices id
      ∙ (elim (Option-cases (Dict.get r.db.devices id)) [
        | inl e ↦ rw e (sym (p.mirrored id ∙ rw e refl))
        | inr (row, e) ↦ rw e (
            ap some
              (record_of_dated c now id row (commands_of c id r.db.commands) (p.dated id row e))
            ∙ sym (p.mirrored id ∙ rw e refl))
      ])

  -- Take any registry that registrations, heartbeats, new commands and removals make of an empty one. What is loaded
  -- from its tables at a restart, at any time, raises nothing and is for every device the record that was in memory,
  -- with the queue of its commands, and holds no other device. `json.loads` is assumed to read what `json.dumps` wrote.
  pub load_from_db-restores :
      (now : String) (r : FleetRegistry c)
      → Reachable r
      → (devices : Dict (DeviceRecord c)) × (load_from_db c now r.db ≡ some devices)
        × ((id : String) → Dict.get devices id ≡ Dict.get r.devices id)
  unfolding load_from_db
  load_from_db-restores now r s =
      let p = Reachable-IsPersisted s in
      (load_devices c now r.db.commands r.db.devices, rw p.parses refl, loaded_get now r p)

  queued_again :
      (fresh id : String) (cmd : FleetCommand c) (d : DeviceRecord c) (r : FleetRegistry c)
      → Dict.get r.devices id ≡ some d
      → has_command_id c (identified c fresh cmd).command_id r.db.commands ≡ true
      → (Dict.get (enqueue_command c fresh id cmd r).0.devices id
          ≡ some (with_queue d (d.pending_commands ++ identified c fresh cmd ∷ [])))
        × ((enqueue_command c fresh id cmd r).0.db ≡ r.db)
  unfolding enqueue_command push_command insert_command_db with_queue
  queued_again fresh id cmd d r e k =
      let grown = d.pending_commands ++ identified c fresh cmd ∷ [] in
      rw (enqueue_command, push_command, e, k)
        (get-put r.devices id id (with_queue d grown) ∙ rw (str_eq_refl id) refl, refl)

  -- Take a registry that the methods can make, and queue for a known device a command with an id that the table knows
  -- already. The command is then at the end of the queue in memory, and what a restart loads is the record of the
  -- device as it was before, without it.
  pub enqueue_command-known_id :
      (now fresh id : String) (cmd : FleetCommand c) (d : DeviceRecord c) (r : FleetRegistry c)
      → Reachable r
      → Dict.get r.devices id ≡ some d
      → has_command_id c (identified c fresh cmd).command_id r.db.commands ≡ true
      → (Dict.get (enqueue_command c fresh id cmd r).0.devices id
          ≡ some (with_queue d (d.pending_commands ++ identified c fresh cmd ∷ [])))
        × (devices : Dict (DeviceRecord c)) × (load_from_db c now
              (enqueue_command c fresh id cmd r).0.db
            ≡ some devices)
        × (Dict.get devices id ≡ some d)
  enqueue_command-known_id now fresh id cmd d r s e k =
      let (queue, tables) = queued_again fresh id cmd d r e k in
      let (devices, loads, same) = load_from_db-restores now r s in
      (queue, devices, ap (load_from_db c now) tables ∙ loads, same id ∙ e)
