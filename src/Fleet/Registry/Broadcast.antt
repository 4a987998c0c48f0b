-- ===== src/Fleet/Registry/Broadcast.antt =====
-- `broadcast_command` and `deploy_model` are sequences of `enqueue_command`.
use bmt_ai_os.Prelude.{
  ℕ, suc, ◌<◌, ◌≡◌, ◌≢◌, refl, sym, inl, inr, String, false, Bool-cases, Option, some, Option-cases,
  List, [], ◌∷◌, str_eq, length, arith,
}
use mathlib.Core.Path.{subst}
use bmt_ai_os.Prelude.Dict
use bmt_ai_os.Fleet.Data.{Codec, IsCodec, FleetCommand, Database, FleetRegistry}
use bmt_ai_os.Fleet.Database.{has_command_id, command_row, insert_command_db}
use bmt_ai_os.Fleet.Database.Commands.{has_command_id-append}
use bmt_ai_os.Fleet.Registry.{
  identified, push_command, enqueue_command, enqueue_all, broadcast_command, deploy_model,
  targets_of,
}
use bmt_ai_os.Fleet.Registry.Queues.{IsNew}
use bmt_ai_os.Fleet.Registry.Restart.{Reachable}

module _ (c : Codec) where
  -- The first `k` ids are not empty, differ and are not in the table.
  pub record IsFresh (k : ℕ) (fresh : ℕ → String) (db : Database c) : Type 0 where
    pub is_given : (n : ℕ) → n < k → str_eq (fresh n) "" ≡ false
    pub differ : (n m : ℕ) → n < k → m < k → n ≢ m → str_eq (fresh n) (fresh m) ≡ false
    pub unknown : (n : ℕ) → n < k → has_command_id c (fresh n) db.commands ≡ false

  unfoldable command : String → Option String → c.Json → FleetCommand c
  command id action params = record {
    action = action;
    params = params;
    command_id = id;
    status = "pending";
  }

  identified_given :
      (cmd : FleetCommand c) → str_eq cmd.command_id "" ≡ false → identified c "" cmd ≡ cmd
  unfolding identified
  identified_given cmd g = rw g refl

  has_command_id-enqueue :
      (x id : String) (cmd : FleetCommand c) (r : FleetRegistry c)
      → str_eq cmd.command_id "" ≡ false
      → has_command_id c x r.db.commands ≡ false
      → str_eq cmd.command_id x ≡ false
      → has_command_id c x (enqueue_command c "" id cmd r).0.db.commands ≡ false
  unfolding enqueue_command push_command insert_command_db command_row
  has_command_id-enqueue x id cmd r g h n = elim (Option-cases (Dict.get r.devices id)) [
    | inl e ↦ rw (enqueue_command, e) h
    | inr (d, e) ↦
        elim (Bool-cases (has_command_id c (identified c "" cmd).command_id r.db.commands)) [
          | inl k ↦ rw (enqueue_command, push_command, e, k) h
          | inr k ↦
              rw
                (
                  enqueue_command,
                  push_command,
                  e,
                  k,
                  has_command_id-append c x r.db.commands (command_row c id (identified c "" cmd)),
                  h,
                  identified_given cmd g,
                )
                n
        ]
  ]

  IsFresh-enqueue :
      (k : ℕ) (fresh : ℕ → String) (id : String) (action : Option String) (params : c.Json)
      (r : FleetRegistry c)
      → IsFresh (suc k) fresh r.db
      → IsFresh k
          (λ n. fresh (suc n))
          (enqueue_command c "" id (command (fresh 0) action params) r).0.db
  unfolding command
  IsFresh-enqueue k fresh id action params r f = record {
    is_given = λ n h. f.is_given (suc n) (omega (arith, h));
    differ = λ n m h h' e.
        f.differ (suc n) (suc m) (omega (arith, h)) (omega (arith, h')) (λ x. e (omega (arith, x)));
    unknown = λ n h.
        has_command_id-enqueue (fresh (suc n)) id (command (fresh 0) action params) r
          (f.is_given 0 (omega arith)) (f.unknown (suc n) (omega (arith, h)))
          (f.differ 0 (suc n) (omega arith) (omega (arith, h)) (λ x. omega (arith, x)));
  }

  enqueue_all_step :
      (fresh : ℕ → String) (action : Option String) (params : c.Json) (id : String)
      (ids : List String) (r : FleetRegistry c)
      → (enqueue_all c fresh action params (id ∷ ids) r).0
        ≡ (enqueue_all c
            (λ n. fresh (suc n))
            action
            params
            ids
            (enqueue_command c "" id (command (fresh 0) action params) r).0).0
  unfolding enqueue_all command
  enqueue_all_step fresh action params id ids r =
      elim (Option-cases (enqueue_command c "" id (command (fresh 0) action params) r).1) [
        | inl e ↦ rw (enqueue_all, e) refl
        | inr (x, e) ↦ rw (enqueue_all, e) refl
      ]

module _ (c : Codec) (law : IsCodec c) where
  command-IsNew :
      (k : ℕ) (fresh : ℕ → String) (action : String) (params : c.Json) (db : Database c)
      → IsFresh c (suc k) fresh db
      → IsNew c law (identified c "" (command c (fresh 0) (some action) params)) db
  unfolding identified command
  command-IsNew k fresh action params db f =
      rw (f.is_given 0 (omega arith)) (record {
        kind = action;
        has_kind = refl;
        waits = refl;
        is_new = f.unknown 0 (omega arith);
      })

  enqueue_all-Reachable :
      (fresh : ℕ → String) (action : String) (params : c.Json) (ids : List String)
      (r : FleetRegistry c)
      → IsFresh c (length ids) fresh r.db
      → Reachable c law r
      → Reachable c law (enqueue_all c fresh (some action) params ids r).0
  unfolding enqueue_all
  enqueue_all-Reachable fresh action params [] r f s = s
  enqueue_all-Reachable fresh action params (id ∷ ids) r f s =
      let cmd = command c (fresh 0) (some action) params in
      let after =
        enqueue_all-Reachable (λ n. fresh (suc n)) action params ids
          (enqueue_command c "" id cmd r).0
          (IsFresh-enqueue c (length ids) fresh id (some action) params r f)
          (Reachable.queueing "" id cmd (command-IsNew (length ids) fresh action params r.db f)
            s) in
      subst (Reachable c law) (sym (enqueue_all_step c fresh (some action) params id ids r)) after

  -- A command with an action that is broadcast to a registry that the other methods can make, with a new id for each
  -- device, leaves a registry that they can make.
  pub broadcast_command-Reachable :
      (fresh : ℕ → String) (action : String) (cmd : FleetCommand c) (r : FleetRegistry c)
      → cmd.action ≡ some action
      → IsFresh c (length (Dict.keys r.devices)) fresh r.db
      → Reachable c law r
      → Reachable c law (broadcast_command c fresh cmd r).0
  unfolding broadcast_command
  broadcast_command-Reachable fresh action cmd r e f s =
      rw e (enqueue_all-Reachable fresh action cmd.params (Dict.keys r.devices) r f s)

  -- Deploying a model, to all devices or to those chosen that are registered, on a registry that the other methods
  -- can make, with a new id for each target, leaves a registry that they can make.
  pub deploy_model-Reachable :
      (fresh : ℕ → String) (model : String) (chosen : Option (List String)) (r : FleetRegistry c)
      → IsFresh c (length (targets_of c chosen r)) fresh r.db
      → Reachable c law r
      → Reachable c law (deploy_model c fresh model chosen r).0
  unfolding deploy_model
  deploy_model-Reachable fresh model chosen r f s =
      enqueue_all-Reachable fresh "pull-model" (c.model_of model) (targets_of c chosen r) r f s
