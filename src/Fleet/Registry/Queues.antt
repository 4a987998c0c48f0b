-- ===== src/Fleet/Registry/Queues.antt =====
-- Queueing a command and removing a device, in the cache and in the tables.
use bmt_ai_os.Prelude.{
  ◌≡◌, refl, sym, ◌∙◌, inl, inr, String, true, false, Bool-cases, Option, some, Option-cases, [],
  ◌∷◌, ◌++◌, append_nil, str_eq, str_eq_iff, if◌then◌else◌, arith,
}
use mathlib.Core.Path.{subst}
use bmt_ai_os.Prelude.Dict
use bmt_ai_os.Prelude.Dict.{Dict, get-put, get-pop}
use bmt_ai_os.Fleet.Data.{Codec, IsCodec, FleetCommand, DeviceRecord, Database, FleetRegistry}
use bmt_ai_os.Fleet.Database.{
  is_pending, commands_of, command_row, has_command_id, insert_command_db, delete_device_db,
}
use bmt_ai_os.Fleet.Database.Commands.{
  commands_of-append, params_parse-append, IsUnique-append, commands_of-delete, params_parse-delete,
  IsUnique-delete,
}
use bmt_ai_os.Fleet.Database.Rows.{command_of-row, with_queue}
use bmt_ai_os.Fleet.Registry.{
  identified, push_command, enqueue_command, command_for, enqueue_action, remove_device,
}
use bmt_ai_os.Fleet.Registry.Persistence.{revive, revived, IsPersisted, cached-InTables}
use bmt_ai_os.Fleet.Registry.Methods.{requeued}

module _ (c : Codec) (law : IsCodec c) where
  -- A command that the tables can hold: it has an action, waits, and its id is new.
  pub record IsNew (cmd : FleetCommand c) (db : Database c) : Type 0 where
    pub kind : String
    pub has_kind : cmd.action ≡ some kind
    pub waits : str_eq cmd.status "pending" ≡ true
    pub is_new : has_command_id c cmd.command_id db.commands ≡ false

  commands_of-insert :
      (id j : String) (cmd : FleetCommand c) (db : Database c)
      → IsNew cmd db
      → commands_of c j (db.commands ++ command_row c id cmd ∷ []) ≡ (
          if str_eq id j
          then commands_of c j db.commands ++ cmd ∷ []
          else commands_of c j db.commands)
  unfolding is_pending command_row
  commands_of-insert id j cmd db n =
      commands_of-append c j db.commands (command_row c id cmd)
      ∙ rw (n.waits, command_of-row c law id n.kind cmd n.has_kind)
          (elim (Bool-cases (str_eq id j)) [
            | inl k ↦ rw k refl
            | inr k ↦ rw k (append_nil (commands_of c j db.commands))
          ])

  insert_new :
      (id : String) (cmd : FleetCommand c) (db : Database c)
      → IsNew cmd db
      → insert_command_db c id cmd db
        ≡ some
            (record { devices = db.devices; commands = db.commands ++ command_row c id cmd ∷ [] })
  unfolding insert_command_db
  insert_new id cmd db n = rw n.is_new refl

  -- The registry with a command at the end of a device's queue and of the table.
  unfoldable with_command :
      String → FleetCommand c → DeviceRecord c → FleetRegistry c → FleetRegistry c
  with_command id cmd d r = record {
    devices = Dict.put r.devices id (with_queue d (d.pending_commands ++ cmd ∷ []));
    db = record { devices = r.db.devices; commands = r.db.commands ++ command_row c id cmd ∷ [] };
  }

  inserted_mirrors :
      (id : String) (cmd : FleetCommand c) (d : DeviceRecord c) (r : FleetRegistry c)
      → IsPersisted c law r
      → IsNew cmd r.db
      → Dict.get r.devices id ≡ some d
      → (j : String)
      → Dict.get (Dict.put r.devices id (with_queue d (d.pending_commands ++ cmd ∷ []))) j
        ≡ revive c law j
            (Dict.get r.db.devices j)
            (commands_of c j (r.db.commands ++ command_row c id cmd ∷ []))
  unfolding revived
  inserted_mirrors id cmd d r p n e j =
      let queue = (cached-InTables c law id d r p e).queue in
      let grown = d.pending_commands ++ cmd ∷ [] in
      let inserted = commands_of-insert id j cmd r.db n in
      get-put r.devices id j (with_queue d grown) ∙ (elim (Bool-cases (str_eq id j)) [
        | inl k ↦
            let i : id ≡ j = (str_eq_iff id j).0 k in
            let after : commands_of c j (r.db.commands ++ command_row c id cmd ∷ []) ≡ grown =
              inserted ∙ rw (k, sym i, queue) refl in
            rw (k, after)
              (subst
                (λ (x : String).
                  some (with_queue d grown) ≡ revive c law x (Dict.get r.db.devices x) grown)
                i
                (requeued c law id (Dict.get r.db.devices id) (commands_of c id r.db.commands) grown
                  d (sym e ∙ p.mirrored id)))
        | inr k ↦ rw (k, inserted, k) (p.mirrored j)
      ])

  with_command-IsPersisted :
      (id : String) (cmd : FleetCommand c) (d : DeviceRecord c) (r : FleetRegistry c)
      → IsPersisted c law r
      → IsNew cmd r.db
      → Dict.get r.devices id ≡ some d
      → IsPersisted c law (with_command id cmd d r)
  unfolding with_command revived command_row
  with_command-IsPersisted id cmd d r p n e = record {
    parses =
        params_parse-append c r.db.commands (command_row c id cmd) p.parses
          (λ x. ground (arith, x, law.loads-dumps cmd.params));
    unique = IsUnique-append c r.db.commands (command_row c id cmd) p.unique n.is_new;
    mirrored = inserted_mirrors id cmd d r p n e;
    dated = p.dated;
    no_orphans = λ j x. ground (
      arith,
      x,
      p.no_orphans j,
      get-put r.devices id j (with_queue d (d.pending_commands ++ cmd ∷ [])),
      commands_of-insert id j cmd r.db n,
    );
  }

  push_command-IsPersisted :
      (id : String) (cmd : FleetCommand c) (d : DeviceRecord c) (r : FleetRegistry c)
      → IsNew cmd r.db
      → IsPersisted c law r
      → Dict.get r.devices id ≡ some d
      → IsPersisted c law (push_command c id cmd d r)
  unfolding push_command with_command with_queue
  push_command-IsPersisted id cmd d r n p e =
      rw (push_command, insert_new id cmd r.db n) (with_command-IsPersisted id cmd d r p n e)

  pub enqueue_command-IsPersisted :
      (fresh id : String) (given : FleetCommand c) (r : FleetRegistry c)
      → IsNew (identified c fresh given) r.db
      → IsPersisted c law r
      → IsPersisted c law (enqueue_command c fresh id given r).0
  unfolding enqueue_command
  enqueue_command-IsPersisted fresh id given r n p = elim (Option-cases (Dict.get r.devices id)) [
    | inl e ↦ rw (enqueue_command, e) p
    | inr (d, e) ↦
        rw (enqueue_command, e) (push_command-IsPersisted id (identified c fresh given) d r n p e)
  ]

  pub enqueue_action-IsPersisted :
      (fresh id action : String) (params : Option c.Json) (given : Option String)
      (r r' : FleetRegistry c) (cmd : FleetCommand c)
      → enqueue_action c fresh id action params given r ≡ some (r', cmd)
      → IsNew cmd r.db
      → IsPersisted c law r
      → IsPersisted c law r'
  unfolding enqueue_action
  enqueue_action-IsPersisted fresh id action params given r r' cmd h n p =
      elim (Option-cases (Dict.get r.devices id)) [
        | inl e ↦ absurd (ground (arith, rw (enqueue_action, e) at h))
        | inr (d, e) ↦
            let x : some (
              push_command c id (command_for c fresh action params given) d r,
              command_for c fresh action params given,
            )
                ≡ some (r', cmd) =
              rw (enqueue_action, e) at h in
            let same : command_for c fresh action params given ≡ cmd = ground (arith, x) in
            let result : push_command c id (command_for c fresh action params given) d r ≡ r' =
              ground (arith, x) in
            subst (IsPersisted c law) result (
              push_command-IsPersisted id (command_for c fresh action params given) d r (rw same n)
                p e)
      ]

  pub remove_device-IsPersisted :
      (id : String) (r : FleetRegistry c)
      → IsPersisted c law r
      → IsPersisted c law (remove_device c id r).0
  unfolding remove_device delete_device_db revived revive
  remove_device-IsPersisted id r p = elim (Option-cases (Dict.get r.devices id)) [
    | inl e ↦ rw (remove_device, e) p
    | inr (d, e) ↦
        rw (remove_device, e)
          (record {
            parses = params_parse-delete c id r.db.commands p.parses;
            unique = IsUnique-delete c id r.db.commands p.unique;
            mirrored = λ j. ground (
              arith,
              get-pop r.devices id j,
              get-pop r.db.devices id j,
              p.mirrored j,
              commands_of-delete c id j r.db.commands,
            );
            dated = λ j row x. ground (arith, x, get-pop r.db.devices id j, p.dated j row);
            no_orphans = λ j x. ground (
              arith,
              x,
              get-pop r.devices id j,
              p.no_orphans j,
              commands_of-delete c id j r.db.commands,
            );
          })
  ]
