-- ===== src/Fleet/Registry/Methods.antt =====
-- Every method leaves the tables holding what the registry holds.
use bmt_ai_os.Prelude.{
  ◌≡◌, refl, sym, ap, ◌∙◌, inl, inr, String, false, Bool-cases, Option, none, some, Option-cases,
  List, [], ◌∷◌, str_eq, str_eq_iff, str_eq_refl, arith,
}
use mathlib.Core.Path.{subst}
use bmt_ai_os.Prelude.Dict
use bmt_ai_os.Prelude.Dict.{Dict, get-put, get-pop}
use bmt_ai_os.Fleet.Data.{
  Codec, IsCodec, FleetCommand, DeviceHeartbeat, DeviceRecord, DeviceRow, FleetRegistry,
}
use bmt_ai_os.Fleet.Database.{
  or_now, upsert_device_db, commands_of, record_of, mark_delivered, mark_command_delivered_db,
}
use bmt_ai_os.Fleet.Database.Rows.{with_queue, record_of-queue}
use bmt_ai_os.Fleet.Database.Delivery.{IsUnique-mark, params_parse-mark, commands_of-mark}
use bmt_ai_os.Fleet.Registration.{Info, apply_heartbeat, registration, unregistered}
use bmt_ai_os.Fleet.Registry.{store_device, register, deliver, heartbeat}
use bmt_ai_os.Fleet.Registry.Persistence.{
  revive, revived, IsPersisted, InTables, store_device-IsPersisted, cached-InTables, absent_row,
}

or_now-dated : (now s : String) → str_eq s "" ≡ false → or_now now s ≡ s
unfolding or_now
or_now-dated now s h = rw h refl

module _ (c : Codec) (law : IsCodec c) where
  -- Storing a record under its id, where the tables agree with it.
  stored-IsPersisted :
      (id : String) (d : DeviceRecord c) (r : FleetRegistry c)
      → InTables c law id d r
      → IsPersisted c law r
      → IsPersisted c law (store_device c id d r)
  stored-IsPersisted id d r t p =
      subst (λ (x : String). IsPersisted c law (store_device c x d r)) t.is_id
        (store_device-IsPersisted c law d r t.is_dated
          (subst
            (λ (x : String).
              (old : DeviceRow c)
              → Dict.get r.db.devices x ≡ some old
              → old.registered_at ≡ d.registered_at)
            (sym t.is_id) t.as_row)
          (t.queue ∙ ap (λ (x : String). commands_of c x r.db.commands) (sym t.is_id)) p)

  registration_new :
      (now : String) (info : Info c) (r : FleetRegistry c)
      → str_eq now "" ≡ false
      → IsPersisted c law r
      → Dict.get r.devices info.device_id ≡ none
      → InTables c law info.device_id (registration c now info none) r
  unfolding registration
  registration_new now info r n p e = record {
    is_id = refl;
    is_dated = rw (or_now-dated now now n) n;
    as_row = λ old x. absurd (ground (arith, x, absent_row c law info.device_id r p e));
    queue = sym (p.no_orphans info.device_id e);
  }

  registration_known :
      (now : String) (info : Info c) (r : FleetRegistry c) (d : DeviceRecord c)
      → InTables c law info.device_id d r
      → InTables c law info.device_id (registration c now info (some d)) r
  unfolding registration
  registration_known now info r d t = record {
    is_id = refl;
    is_dated = rw (or_now-dated now d.registered_at t.is_dated) t.is_dated;
    as_row = λ old x. t.as_row old x ∙ sym (or_now-dated now d.registered_at t.is_dated);
    queue = t.queue;
  }

  pub register-IsPersisted :
      (now : String) (info : Info c) (r : FleetRegistry c)
      → str_eq now "" ≡ false
      → IsPersisted c law r
      → IsPersisted c law (register c now info r)
  unfolding register
  register-IsPersisted now info r n p =
      stored-IsPersisted info.device_id
        (registration c now info (Dict.get r.devices info.device_id)) r
        (elim (Option-cases (Dict.get r.devices info.device_id)) [
          | inl e ↦ rw e (registration_new now info r n p e)
          | inr (d, e) ↦
              rw e (registration_known now info r d (cached-InTables c law info.device_id d r p e))
        ])
        p

  -- Heartbeats

  applied-InTables :
      (hb : DeviceHeartbeat c) (d : DeviceRecord c) (r : FleetRegistry c)
      → InTables c law hb.device_id d r
      → InTables c law hb.device_id (apply_heartbeat c hb d) r
  unfolding apply_heartbeat
  applied-InTables hb d r t = record {
    is_id = t.is_id;
    is_dated = t.is_dated;
    as_row = t.as_row;
    queue = t.queue;
  }

  unregistered-InTables :
      (now : String) (hb : DeviceHeartbeat c) (r : FleetRegistry c)
      → str_eq now "" ≡ false
      → IsPersisted c law r
      → Dict.get r.devices hb.device_id ≡ none
      → InTables c law hb.device_id (unregistered c now hb) r
  unfolding unregistered
  unregistered-InTables now hb r n p e = record {
    is_id = refl;
    is_dated = n;
    as_row = λ old x. absurd (ground (arith, x, absent_row c law hb.device_id r p e));
    queue = sym (p.no_orphans hb.device_id e);
  }

  stored_get :
      (id : String) (d : DeviceRecord c) (r : FleetRegistry c)
      → Dict.get (store_device c id d r).devices id ≡ some d
  unfolding store_device
  stored_get id d r = get-put r.devices id id d ∙ rw (str_eq_refl id) refl

  stored_commands :
      (id : String) (d : DeviceRecord c) (r : FleetRegistry c) (j : String)
      → commands_of c j (store_device c id d r).db.commands ≡ commands_of c j r.db.commands
  unfolding store_device upsert_device_db
  stored_commands id d r j = refl

  pub requeued :
      (id : String) (o : Option (DeviceRow c)) (cmds cmds' : List (FleetCommand c))
      (d : DeviceRecord c)
      → some d ≡ revive c law id o cmds
      → some (with_queue d cmds') ≡ revive c law id o cmds'
  unfolding revive
  requeued id none cmds cmds' d h = absurd (ground (arith, h))
  requeued id (some row) cmds cmds' d h =
      let e : d ≡ record_of c "" id row cmds = ground (arith, h) in
      ap some (
        ap (λ (x : DeviceRecord c). with_queue x cmds') e
        ∙ sym (record_of-queue c "" id row cmds cmds'))

  -- The first command of the queue leaves it in both places.
  delivered_mirrors :
      (id : String) (d : DeviceRecord c) (r : FleetRegistry c) (cmd : FleetCommand c)
      (cmds : List (FleetCommand c))
      → IsPersisted c law r
      → Dict.get r.devices id ≡ some d
      → commands_of c id r.db.commands ≡ cmd ∷ cmds
      → (j : String)
      → Dict.get (Dict.put r.devices id (with_queue d cmds)) j
        ≡ revive c law j
            (Dict.get r.db.devices j)
            (commands_of c j (mark_delivered c cmd.command_id r.db.commands))
  unfolding revived
  delivered_mirrors id d r cmd cmds p e q j =
      let marked = commands_of-mark c id j r.db.commands cmd cmds p.unique q in
      get-put r.devices id j (with_queue d cmds) ∙ (elim (Bool-cases (str_eq id j)) [
        | inl k ↦
            let i : id ≡ j = (str_eq_iff id j).0 k in
            let stored : some d
                ≡ revive c law id (Dict.get r.db.devices id) (commands_of c id r.db.commands) =
              sym e ∙ p.mirrored id in
            let after : commands_of c j (mark_delivered c cmd.command_id r.db.commands) ≡ cmds =
              marked ∙ rw k refl in
            rw (k, after)
              (subst
                (λ (x : String).
                  some (with_queue d cmds) ≡ revive c law x (Dict.get r.db.devices x) cmds)
                i
                (requeued id (Dict.get r.db.devices id) (commands_of c id r.db.commands) cmds d
                  stored))
        | inr k ↦ rw (k, marked, k) (p.mirrored j)
      ])

  deliver-IsPersisted :
      (id : String) (d : DeviceRecord c) (cmds : List (FleetCommand c)) (r : FleetRegistry c)
      → IsPersisted c law r
      → Dict.get r.devices id ≡ some d
      → cmds ≡ commands_of c id r.db.commands
      → IsPersisted c law (deliver c id d cmds r).0
  unfolding deliver mark_command_delivered_db revived with_queue
  deliver-IsPersisted id d [] r p e q = p
  deliver-IsPersisted id d (cmd ∷ cmds) r p e q = record {
    parses = params_parse-mark c cmd.command_id r.db.commands p.parses;
    unique = IsUnique-mark c cmd.command_id r.db.commands p.unique;
    mirrored = delivered_mirrors id d r cmd cmds p e (sym q);
    dated = p.dated;
    no_orphans = λ j n. ground (
      arith,
      n,
      p.no_orphans j,
      get-put r.devices id j (with_queue d cmds),
      commands_of-mark c id j r.db.commands cmd cmds p.unique (sym q),
    );
  }

  pub heartbeat-IsPersisted :
      (now : String) (hb : DeviceHeartbeat c) (r : FleetRegistry c)
      → str_eq now "" ≡ false
      → IsPersisted c law r
      → IsPersisted c law (heartbeat c now hb r).0
  unfolding heartbeat
  heartbeat-IsPersisted now hb r n p =
      let known : DeviceRecord c = elim (Dict.get r.devices hb.device_id) [
        | none ↦ unregistered c now hb
        | some d ↦ d
      ] in
      let t : InTables c law hb.device_id known r =
        elim (Option-cases (Dict.get r.devices hb.device_id)) [
          | inl e ↦ rw e (unregistered-InTables now hb r n p e)
          | inr (d, e) ↦ rw e (cached-InTables c law hb.device_id d r p e)
        ] in
      let d = apply_heartbeat c hb known in
      let t' = applied-InTables hb known r t in
      deliver-IsPersisted hb.device_id d d.pending_commands (store_device c hb.device_id d r)
        (stored-IsPersisted hb.device_id d r t' p) (stored_get hb.device_id d r)
        (t'.queue ∙ sym (stored_commands hb.device_id d r hb.device_id))
