-- ===== src/Fleet/Registry/Delivery.antt =====
-- The commands that a device is given with its heartbeats.
use bmt_ai_os.Prelude.{
  ℕ, zero, suc, ◌≡◌, refl, sym, ap, ◌∙◌, inl, inr, String, Bool-cases, Option, none, some, List, [],
  ◌∷◌, str_eq, str_eq_iff, if◌then◌else◌, arith,
}
use bmt_ai_os.Prelude.Dict
use bmt_ai_os.Prelude.Dict.{Dict, get-put}
use bmt_ai_os.Fleet.Data.{Codec, FleetCommand, DeviceHeartbeat, DeviceRecord, FleetRegistry}
use bmt_ai_os.Fleet.Database.Rows.{with_queue}
use bmt_ai_os.Fleet.Registration.{apply_heartbeat, unregistered}
use bmt_ai_os.Fleet.Registry.{store_device, deliver, heartbeat, noop}

module _ (c : Codec) where
  queued : Option (DeviceRecord c) → List (FleetCommand c)
  queued none = []
  queued (some d) = d.pending_commands

  -- The commands that wait for a device; none for a device that is not registered.
  unfoldable pub queue_of : String → FleetRegistry c → List (FleetCommand c)
  unfolding queued
  queue_of id r = queued (Dict.get r.devices id)

  -- The answers to the heartbeats of one device, among heartbeats of any devices, each with its time.
  pub answers : String → List (String × DeviceHeartbeat c) → FleetRegistry c → List (FleetCommand c)
  answers id [] r = []
  answers id ((now, hb) ∷ hbs) r =
      let (r', cmd) = heartbeat c now hb r in
      let rest = answers id hbs r' in if str_eq hb.device_id id then cmd ∷ rest else rest

  pub heartbeats_of : String → List (String × DeviceHeartbeat c) → ℕ
  heartbeats_of id [] = 0
  heartbeats_of id ((now, hb) ∷ hbs) =
      let n = heartbeats_of id hbs in if str_eq hb.device_id id then suc n else n

  -- So many commands from the front, and `noop` when there are no more.
  unfoldable pub pops : ℕ → List (FleetCommand c) → List (FleetCommand c)
  pops zero queue = []
  pops (suc n) [] = noop c ∷ pops n []
  pops (suc n) (cmd ∷ queue) = cmd ∷ pops n queue

  unfoldable pub front : List (FleetCommand c) → FleetCommand c
  front [] = noop c
  front (cmd ∷ queue) = cmd

  unfoldable pub behind : List (FleetCommand c) → List (FleetCommand c)
  behind [] = []
  behind (cmd ∷ queue) = queue

  pub pops-front :
      (n : ℕ) (queue : List (FleetCommand c))
      → pops (suc n) queue ≡ front queue ∷ pops n (behind queue)
  unfolding pops front behind
  pops-front n [] = refl
  pops-front n (cmd ∷ queue) = refl

  applied_queue :
      (hb : DeviceHeartbeat c) (d : DeviceRecord c)
      → (apply_heartbeat c hb d).pending_commands ≡ d.pending_commands
  unfolding apply_heartbeat
  applied_queue hb d = refl

  delivered_command :
      (id : String) (d : DeviceRecord c) (cmds : List (FleetCommand c)) (r : FleetRegistry c)
      → (deliver c id d cmds r).1 ≡ front cmds
  unfolding deliver front
  delivered_command id d [] r = refl
  delivered_command id d (cmd ∷ cmds) r = refl

  delivered_queue :
      (id : String) (d : DeviceRecord c) (cmds : List (FleetCommand c)) (r : FleetRegistry c)
      (j : String)
      → d.pending_commands ≡ cmds
      → queue_of j (deliver c id d cmds (store_device c id d r)).0
        ≡ (if str_eq id j then behind cmds else queue_of j r)
  unfolding deliver store_device behind queue_of queued with_queue
  delivered_queue id d [] r j h = ground (arith, h, get-put r.devices id j d)
  delivered_queue id d (cmd ∷ cmds) r j h =
      let d' = with_queue d cmds in
      ground (arith, h, get-put r.devices id j d, get-put (Dict.put r.devices id d) id j d')

  known_queue :
      (now : String) (hb : DeviceHeartbeat c) (o : Option (DeviceRecord c))
      → (apply_heartbeat c hb
          (elim o [ none ↦ unregistered c now hb | some d ↦ d ])).pending_commands
        ≡ queued o
  unfolding unregistered apply_heartbeat queued
  known_queue now hb none = refl
  known_queue now hb (some d) = refl

  pub heartbeat_queue :
      (now : String) (hb : DeviceHeartbeat c) (r : FleetRegistry c) (j : String)
      → queue_of j (heartbeat c now hb r).0
        ≡ (if str_eq hb.device_id j then behind (queue_of hb.device_id r) else queue_of j r)
  unfolding heartbeat queue_of
  heartbeat_queue now hb r j =
      let o = Dict.get r.devices hb.device_id in
      let d : DeviceRecord c =
        apply_heartbeat c hb (elim o [ none ↦ unregistered c now hb | some d ↦ d ]) in
      delivered_queue hb.device_id d d.pending_commands r j refl
      ∙ ap (λ (q : List (FleetCommand c)). if str_eq hb.device_id j then behind q else queue_of j r)
          (known_queue now hb o)

  pub heartbeat_answer :
      (now : String) (hb : DeviceHeartbeat c) (r : FleetRegistry c)
      → (heartbeat c now hb r).1 ≡ front (queue_of hb.device_id r)
  unfolding heartbeat queue_of
  heartbeat_answer now hb r =
      let o = Dict.get r.devices hb.device_id in
      let d : DeviceRecord c =
        apply_heartbeat c hb (elim o [ none ↦ unregistered c now hb | some d ↦ d ]) in
      delivered_command hb.device_id d d.pending_commands (store_device c hb.device_id d r)
      ∙ ap front (known_queue now hb o)

  -- However the heartbeats of several devices interleave, a device is answered with the commands of its own queue,
  -- each once and from the front, and with `noop` after the last; a device that is not registered, with `noop`.
  pub answers-in_order :
      (id : String) (hbs : List (String × DeviceHeartbeat c)) (r : FleetRegistry c)
      → answers id hbs r ≡ pops (heartbeats_of id hbs) (queue_of id r)
  unfolding answers heartbeats_of
  answers-in_order id [] r = unfold pops in refl
  answers-in_order id ((now, hb) ∷ hbs) r =
      let r' = (heartbeat c now hb r).0 in
      let rest = answers-in_order id hbs r' in
      let after = heartbeat_queue now hb r id in
      elim (Bool-cases (str_eq hb.device_id id)) [
        | inl k ↦
            let i : hb.device_id ≡ id = (str_eq_iff hb.device_id id).0 k in
            rw (k, rest, after, k, heartbeat_answer now hb r, i)
              (sym (pops-front (heartbeats_of id hbs) (queue_of id r)))
        | inr k ↦ rw (k, rest, after, k) refl
      ]
