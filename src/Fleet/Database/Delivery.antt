-- ===== src/Fleet/Database/Delivery.antt =====
-- A command that is marked as delivered is the first of its device, and no other is touched.
use bmt_ai_os.Prelude.{
  ◌≡◌, refl, sym, ap, ◌∙◌, inl, inr, String, true, false, Bool-cases, ◌&&◌, List, [], ◌∷◌, str_eq,
  str_eq_iff, str_eq_refl, if◌then◌else◌, arith,
}
use bmt_ai_os.Fleet.Data.{Codec, FleetCommand, CommandRow}
use bmt_ai_os.Fleet.Database.{
  is_pending, params_parse, command_of, commands_of, has_command_id, mark_delivered,
}
use bmt_ai_os.Fleet.Database.Commands.{IsUnique}

module _ (c : Codec) where
  has_command_id-mark :
      (id x : String) (rs : List (CommandRow c))
      → has_command_id c x (mark_delivered c id rs) ≡ has_command_id c x rs
  unfolding has_command_id mark_delivered
  has_command_id-mark id x [] = refl
  has_command_id-mark id x (r ∷ rs) = ground (arith, has_command_id-mark id x rs)

  pub IsUnique-mark :
      (id : String) (rs : List (CommandRow c)) → IsUnique c rs → IsUnique c (mark_delivered c id rs)
  unfolding mark_delivered
  IsUnique-mark id [] u = tt
  IsUnique-mark id (r ∷ rs) u =
      (ground (arith, u.0, has_command_id-mark id r.command_id rs), IsUnique-mark id rs u.1)

  params_parse_tail :
      (r : CommandRow c) (rs : List (CommandRow c))
      → params_parse c (r ∷ rs) ≡ true
      → params_parse c rs ≡ true
  unfolding params_parse
  params_parse_tail r rs h = ground (arith, h)

  pub params_parse-mark :
      (id : String) (rs : List (CommandRow c))
      → params_parse c rs ≡ true
      → params_parse c (mark_delivered c id rs) ≡ true
  unfolding params_parse mark_delivered is_pending
  params_parse-mark id [] h = refl
  params_parse-mark id (r ∷ rs) h =
      let rest = params_parse-mark id rs (params_parse_tail r rs h) in
      elim (Bool-cases (str_eq r.command_id id)) [
        | inl k ↦ rw k rest
        | inr k ↦ rw (k, rest) (ground (arith, h))
      ]

  mark_absent :
      (id : String) (rs : List (CommandRow c))
      → has_command_id c id rs ≡ false
      → mark_delivered c id rs ≡ rs
  unfolding has_command_id mark_delivered
  mark_absent id [] h = refl
  mark_absent id (r ∷ rs) h = ground (arith, h, mark_absent id rs)

  first_has_command_id :
      (id : String) (rs : List (CommandRow c)) (cmd : FleetCommand c) (rest : List (FleetCommand c))
      → commands_of c id rs ≡ cmd ∷ rest
      → has_command_id c cmd.command_id rs ≡ true
  unfolding commands_of command_of has_command_id
  first_has_command_id id [] cmd rest h = absurd (ground (arith, h))
  first_has_command_id id (r ∷ rs) cmd rest h =
      elim (Bool-cases (is_pending c r && str_eq r.device_id id)) [
        | inl k ↦
            let e : r.command_id ≡ cmd.command_id = ground (arith, rw (commands_of, k) at h) in
            rw e (rw (str_eq_refl cmd.command_id) refl)
        | inr k ↦ ground (arith, first_has_command_id id rs cmd rest (rw (commands_of, k) at h))
      ]

  pub commands_of-mark :
      (id other : String) (rs : List (CommandRow c)) (cmd : FleetCommand c)
      (rest : List (FleetCommand c))
      → IsUnique c rs
      → commands_of c id rs ≡ cmd ∷ rest
      → commands_of c other (mark_delivered c cmd.command_id rs)
        ≡ (if str_eq id other then rest else commands_of c other rs)
  unfolding commands_of mark_delivered is_pending
  commands_of-mark id other [] cmd rest u h = absurd (ground (arith, h))
  commands_of-mark id other (r ∷ rs) cmd rest u h =
      elim (Bool-cases (is_pending c r && str_eq r.device_id id)) [
        | inl k ↦
            let h' : command_of c r ∷ commands_of c id rs ≡ cmd ∷ rest = rw (commands_of, k) at h in
            let e : r.command_id ≡ cmd.command_id = unfold command_of in ground (arith, h') in
            let same : commands_of c id rs ≡ rest = ground (arith, h') in
            let absent = mark_absent cmd.command_id rs (rw (sym e) u.0) in
            let hit : str_eq r.command_id cmd.command_id ≡ true =
              rw e (str_eq_refl cmd.command_id) in
            elim (Bool-cases (str_eq id other)) [
              | inl i ↦
                  let o : id ≡ other = (str_eq_iff id other).0 i in
                  rw (hit, absent, i) (ap (λ (x : String). commands_of c x rs) (sym o) ∙ same)
              | inr i ↦
                  rw (hit, absent, i)
                    (ground (
                      arith,
                      k,
                      i,
                      str_eq_iff r.device_id id,
                      str_eq_iff r.device_id other,
                      str_eq_iff id other,
                    ))
            ]
        | inr k ↦
            let h' : commands_of c id rs ≡ cmd ∷ rest = rw (commands_of, k) at h in
            let later = first_has_command_id id rs cmd rest h' in
            let ne : str_eq r.command_id cmd.command_id ≡ false =
              ground (arith, u.0, later, str_eq_iff r.command_id cmd.command_id) in
            rw (ne, commands_of-mark id other rs cmd rest u.1 h')
              (ground (
                arith,
                k,
                str_eq_iff id other,
                str_eq_iff r.device_id id,
                str_eq_iff r.device_id other,
              ))
      ]
