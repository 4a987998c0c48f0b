-- ===== src/Fleet/Registry/Persistence.antt =====
-- What the tables hold is what the registry holds, so that a restart loses nothing.
use bmt_ai_os.Prelude.{
  ◌≡◌, sym, ap, ◌∙◌, inl, inr, String, true, false, Bool-cases, Option, none, some, Option-cases,
  List, [], str_eq, str_eq_iff, if◌then◌else◌, arith,
}
use bmt_ai_os.Prelude.Dict
use bmt_ai_os.Prelude.Dict.{Dict, get-put, get-pop}
use bmt_ai_os.Fleet.Data.{
  Codec, IsCodec, FleetCommand, DeviceRecord, DeviceRow, Database, FleetRegistry,
}
use bmt_ai_os.Fleet.Database.{params_parse, commands_of, record_of, row_of, upsert_device_db}
use bmt_ai_os.Fleet.Database.Commands.{IsUnique}
use bmt_ai_os.Fleet.Database.Rows.{
  record_of-row_of, get-upsert, row_of-registered_at, record_of_parts,
}
use bmt_ai_os.Fleet.Registry.{store_device}

module _ (c : Codec) (law : IsCodec c) where
  -- What the tables make of a device, from its row and its commands.
  unfoldable pub revive :
      String → Option (DeviceRow c) → List (FleetCommand c) → Option (DeviceRecord c)
  revive id none cmds = none
  revive id (some row) cmds = some (record_of c "" id row cmds)

  unfoldable pub revived : Database c → String → Option (DeviceRecord c)
  revived db id = revive id (Dict.get db.devices id) (commands_of c id db.commands)

  pub record IsPersisted (r : FleetRegistry c) : Type 0 where
    pub parses : params_parse c r.db.commands ≡ true
    pub unique : IsUnique c r.db.commands
    pub mirrored : (id : String) → Dict.get r.devices id ≡ revived r.db id
    pub dated :
        (id : String) (row : DeviceRow c)
        → Dict.get r.db.devices id ≡ some row
        → str_eq row.registered_at "" ≡ false
    pub no_orphans :
        (id : String) → Dict.get r.devices id ≡ none → commands_of c id r.db.commands ≡ []

  stored_none :
      (d : DeviceRecord c) (devices : Dict (DeviceRecord c)) (j : String)
      → Dict.get (Dict.put devices d.device_id d) j ≡ none
      → Dict.get devices j ≡ none
  stored_none d devices j e = ground (arith, e, get-put devices d.device_id j d)

  store_mirrors :
      (d : DeviceRecord c) (devices : Dict (DeviceRecord c)) (table : Dict (DeviceRow c))
      (cmds : String → List (FleetCommand c))
      → record_of c "" d.device_id (row_of c d) (cmds d.device_id) ≡ d
      → ((id : String) → Dict.get devices id ≡ revive id (Dict.get table id) (cmds id))
      → (j : String)
      → (if str_eq d.device_id j then some d else Dict.get devices j)
        ≡ revive j (if str_eq d.device_id j then some (row_of c d) else Dict.get table j) (cmds j)
  unfolding revive
  store_mirrors d devices table cmds back mirrored j = elim (Bool-cases (str_eq d.device_id j)) [
    | inl k ↦
        let e : d.device_id ≡ j = (str_eq_iff d.device_id j).0 k in
        rw k (
          ap some (sym back)
          ∙ ap (λ (id : String). some (record_of c "" id (row_of c d) (cmds id))) e)
    | inr k ↦ rw k (mirrored j)
  ]

  -- Storing a record that agrees with the tables about the time of registration and the queue.
  pub store_device-IsPersisted :
      (d : DeviceRecord c) (r : FleetRegistry c)
      → str_eq d.registered_at "" ≡ false
      → ((old : DeviceRow c)
          → Dict.get r.db.devices d.device_id ≡ some old
          → old.registered_at ≡ d.registered_at)
      → d.pending_commands ≡ commands_of c d.device_id r.db.commands
      → IsPersisted r
      → IsPersisted (store_device c d.device_id d r)
  unfolding store_device upsert_device_db revived revive
  store_device-IsPersisted d r dated same queue p =
      let rows = λ (j : String). get-upsert c d r.db j same in
      let cmds = λ (j : String). commands_of c j r.db.commands in
      let back : record_of c "" d.device_id (row_of c d) (cmds d.device_id) ≡ d =
        ap (record_of c "" d.device_id (row_of c d)) (sym queue)
        ∙ record_of-row_of c law "" d dated in
      record {
        parses = p.parses;
        unique = p.unique;
        mirrored = λ j.
            get-put r.devices d.device_id j d
            ∙ store_mirrors d r.devices r.db.devices cmds back p.mirrored j
            ∙ ap (λ (o : Option (DeviceRow c)). revive j o (cmds j)) (sym (rows j));
        dated = λ j row e. elim (Bool-cases (str_eq d.device_id j)) [
          | inl k ↦
              let x : some (row_of c d) ≡ some row = sym (rw k at (rows j)) ∙ e in
              let y : row_of c d ≡ row = ground (arith, x) in
              rw (sym y, row_of-registered_at c d) dated
          | inr k ↦ p.dated j row (sym (rw k at (rows j)) ∙ e)
        ];
        no_orphans = λ j e. p.no_orphans j (stored_none d r.devices j e);
      }

  -- What is known of a device in the cache.
  pub record InTables (id : String) (d : DeviceRecord c) (r : FleetRegistry c) : Type 0 where
    pub is_id : d.device_id ≡ id
    pub is_dated : str_eq d.registered_at "" ≡ false
    pub as_row :
        (old : DeviceRow c)
        → Dict.get r.db.devices id ≡ some old
        → old.registered_at ≡ d.registered_at
    pub queue : d.pending_commands ≡ commands_of c id r.db.commands

  pub cached-InTables :
      (id : String) (d : DeviceRecord c) (r : FleetRegistry c)
      → IsPersisted r
      → Dict.get r.devices id ≡ some d
      → InTables id d r
  unfolding revived revive
  cached-InTables id d r p e = elim (Option-cases (Dict.get r.db.devices id)) [
    | inl n ↦ absurd (ground (arith, p.mirrored id, e, n))
    | inr (row, x) ↦
        let dated = p.dated id row x in
        let made : d ≡ record_of c "" id row (commands_of c id r.db.commands) =
          ground (arith, sym e ∙ p.mirrored id, x) in
        let parts = record_of_parts c id row (commands_of c id r.db.commands) dated in
        record {
          is_id = ap DeviceRecord.device_id made ∙ parts.0;
          is_dated = rw (ap DeviceRecord.registered_at made, parts.1) dated;
          as_row = λ old o.
              let same : row ≡ old = ground (arith, x, o) in
              ap DeviceRow.registered_at (sym same)
              ∙ sym (ap DeviceRecord.registered_at made ∙ parts.1);
          queue = ap DeviceRecord.pending_commands made ∙ parts.2;
        }
  ]

  pub absent_row :
      (id : String) (r : FleetRegistry c)
      → IsPersisted r
      → Dict.get r.devices id ≡ none
      → Dict.get r.db.devices id ≡ none
  unfolding revived revive
  absent_row id r p e = elim (Option-cases (Dict.get r.db.devices id)) [
    | inl n ↦ n
    | inr (row, x) ↦ absurd (ground (arith, sym e ∙ p.mirrored id, x))
  ]
