-- ===== src/Fleet/Database/Commands.antt =====
-- How the writes of the commands table show in what is loaded from it.
use bmt_ai_os.Prelude.{
  ◌≡◌, ◌≢◌, refl, inl, inr, String, true, false, Bool-cases, ◌&&◌, ◌||◌, none, some, List, [], ◌∷◌,
  ◌++◌, str_eq, str_eq_iff, if◌then◌else◌, arith,
}
use bmt_ai_os.Prelude.Dict
use bmt_ai_os.Prelude.Dict.{Dict}
use bmt_ai_os.Fleet.Data.{Codec, DeviceRow, CommandRow}
use bmt_ai_os.Fleet.Database.{
  is_pending, params_parse, command_of, commands_of, record_of, load_devices, has_command_id,
  delete_commands,
}

module _ (c : Codec) where
  -- No command id stands twice in the table.
  abbrev pub IsUnique : List (CommandRow c) → Type 0
  IsUnique [] = Unit {0}
  IsUnique (r ∷ rs) = (has_command_id c r.command_id rs ≡ false) × IsUnique rs

  pub get-load_devices :
      (now : String) (commands : List (CommandRow c)) (rows : Dict (DeviceRow c)) (id : String)
      → Dict.get (load_devices c now commands rows) id ≡ elim (Dict.get rows id) [
        | none ↦ none
        | some row ↦ some (record_of c now id row (commands_of c id commands))
      ]
  unfolding load_devices Dict.get
  get-load_devices now commands [] id = refl
  get-load_devices now commands ((j, row) ∷ rows) id =
      ground (arith, str_eq_iff j id, get-load_devices now commands rows id)

  -- A new row

  pub commands_of-append :
      (id : String) (rs : List (CommandRow c)) (r : CommandRow c)
      → commands_of c id (rs ++ r ∷ [])
        ≡ commands_of c id rs
          ++ (if is_pending c r && str_eq r.device_id id then command_of c r ∷ [] else [])
  unfolding commands_of
  commands_of-append id [] r = ground arith
  commands_of-append id (x ∷ rs) r = ground (arith, commands_of-append id rs r)

  pub params_parse-append :
      (rs : List (CommandRow c)) (r : CommandRow c)
      → params_parse c rs ≡ true
      → c.loads r.params ≢ none
      → params_parse c (rs ++ r ∷ []) ≡ true
  unfolding params_parse
  params_parse-append [] r h n = ground (arith, n)
  params_parse-append (x ∷ rs) r h n = ground (arith, h, params_parse-append rs r, n)

  pub has_command_id-append :
      (id : String) (rs : List (CommandRow c)) (r : CommandRow c)
      → has_command_id c id (rs ++ r ∷ []) ≡ (has_command_id c id rs || str_eq r.command_id id)
  unfolding has_command_id
  has_command_id-append id [] r = ground arith
  has_command_id-append id (x ∷ rs) r = ground (arith, has_command_id-append id rs r)

  pub IsUnique-append :
      (rs : List (CommandRow c)) (r : CommandRow c)
      → IsUnique rs
      → has_command_id c r.command_id rs ≡ false
      → IsUnique (rs ++ r ∷ [])
  unfolding has_command_id
  IsUnique-append [] r u h = (refl, tt)
  IsUnique-append (x ∷ rs) r u h = (
    ground (
      arith,
      u.0,
      h,
      has_command_id-append x.command_id rs r,
      str_eq_iff r.command_id x.command_id,
      str_eq_iff x.command_id r.command_id,
    ),
    IsUnique-append rs r u.1 (ground (arith, h)),
  )

  -- Deleted rows

  pub commands_of-delete :
      (id other : String) (rs : List (CommandRow c))
      → commands_of c other (delete_commands c id rs)
        ≡ (if str_eq id other then [] else commands_of c other rs)
  unfolding commands_of delete_commands
  commands_of-delete id other [] = ground arith
  commands_of-delete id other (r ∷ rs) = ground (
    arith,
    commands_of-delete id other rs,
    str_eq_iff r.device_id id,
    str_eq_iff r.device_id other,
    str_eq_iff id other,
  )

  pub params_parse-delete :
      (id : String) (rs : List (CommandRow c))
      → params_parse c rs ≡ true
      → params_parse c (delete_commands c id rs) ≡ true
  unfolding params_parse delete_commands
  params_parse-delete id [] h = refl
  params_parse-delete id (r ∷ rs) h = ground (arith, h, params_parse-delete id rs)

  has_command_id-delete :
      (id x : String) (rs : List (CommandRow c))
      → has_command_id c x rs ≡ false
      → has_command_id c x (delete_commands c id rs) ≡ false
  unfolding has_command_id delete_commands
  has_command_id-delete id x [] h = refl
  has_command_id-delete id x (r ∷ rs) h = ground (arith, h, has_command_id-delete id x rs)

  pub IsUnique-delete :
      (id : String) (rs : List (CommandRow c)) → IsUnique rs → IsUnique (delete_commands c id rs)
  unfolding delete_commands
  IsUnique-delete id [] u = tt
  IsUnique-delete id (r ∷ rs) u = elim (Bool-cases (str_eq r.device_id id)) [
    | inl k ↦ rw k (IsUnique-delete id rs u.1)
    | inr k ↦ rw k (has_command_id-delete id r.command_id rs u.0, IsUnique-delete id rs u.1)
  ]
