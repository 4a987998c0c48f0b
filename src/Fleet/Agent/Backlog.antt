-- ===== src/Fleet/Agent/Backlog.antt =====
-- A round of the agent that reaches the server, with what it has queued.
use bmt_ai_os.Prelude.{
  ℕ, zero, suc, ◌≡◌, refl, ap, ◌∙◌, String, some, List, [], ◌∷◌, ◌++◌, All, length, drop,
  str_eq_refl,
}
use bmt_ai_os.Prelude.Last.{drop_nil}
use bmt_ai_os.Fleet.Data.{Codec, FleetCommand, DeviceHeartbeat, FleetRegistry}
use bmt_ai_os.Fleet.Registry.{heartbeat}
use bmt_ai_os.Fleet.Registry.Delivery.{queue_of, front, behind, heartbeat_queue, heartbeat_answer}
use bmt_ai_os.Fleet.Agent.{
  Post, answered, build_heartbeat, post_heartbeat, flush_offline_queue, execute_command, Fleet,
  Round, round,
}

module _ (c : Codec) where
  pub drop-behind : (n : ℕ) (q : List (FleetCommand c)) → drop n (behind c q) ≡ drop (suc n) q
  unfolding behind
  drop-behind n [] = drop_nil n
  drop-behind n (cmd ∷ q) = refl

  behind-drop : (n : ℕ) (q : List (FleetCommand c)) → behind c (drop n q) ≡ drop (suc n) q
  unfolding behind
  behind-drop zero [] = refl
  behind-drop zero (cmd ∷ q) = refl
  behind-drop (suc n) [] = refl
  behind-drop (suc n) (cmd ∷ q) = behind-drop n q

  -- Every queued payload is the agent's own.
  abbrev pub IsOwn : String → List (DeviceHeartbeat c) → Type 0
  IsOwn id = All (λ (hb : DeviceHeartbeat c). hb.device_id ≡ id)

  answered_queue :
      (now : String) (hb : DeviceHeartbeat c) (r : FleetRegistry c) (id : String)
      → hb.device_id ≡ id
      → queue_of c id (heartbeat c now hb r).0 ≡ behind c (queue_of c id r)
  answered_queue now hb r id e = heartbeat_queue c now hb r id ∙ rw (e, str_eq_refl id) refl

  pub post_answered :
      (now : String) (hb : DeviceHeartbeat c) (p : Post) (r : FleetRegistry c)
      → p ≡ answered
      → ((post_heartbeat c now hb p r).0 ≡ (heartbeat c now hb r).0)
        × ((post_heartbeat c now hb p r).1 ≡ some (heartbeat c now hb r).1)
  unfolding post_heartbeat
  post_answered now hb p r e = (rw e refl, rw e refl)

  flush_step :
      (clock : ℕ → String) (link : ℕ → Post) (hb : DeviceHeartbeat c)
      (queue : List (DeviceHeartbeat c)) (r : FleetRegistry c)
      → link 0 ≡ answered
      → flush_offline_queue c clock link (hb ∷ queue) r
        ≡ flush_offline_queue c
            (λ n. clock (suc n))
            (λ n. link (suc n))
            queue
            (heartbeat c (clock 0) hb r).0
  unfolding flush_offline_queue
  flush_step clock link hb queue r up =
      let p = post_answered (clock 0) hb (link 0) r up in rw (flush_offline_queue, p.1, p.0) refl

  -- A backlog that is sent whole costs the device as many commands as it has payloads.
  flush_discards :
      (id : String) (clock : ℕ → String) (link : ℕ → Post) (queue : List (DeviceHeartbeat c))
      (r : FleetRegistry c)
      → ((n : ℕ) → link n ≡ answered)
      → IsOwn id queue
      → ((flush_offline_queue c clock link queue r).0 ≡ [])
        × (queue_of c id (flush_offline_queue c clock link queue r).1
            ≡ drop (length queue) (queue_of c id r))
  unfolding flush_offline_queue
  flush_discards id clock link [] r up own = (refl, refl)
  flush_discards id clock link (hb ∷ queue) r up own =
      let r' = (heartbeat c (clock 0) hb r).0 in
      let rest =
        flush_discards id (λ n. clock (suc n)) (λ n. link (suc n)) queue r' (λ n. up (suc n))
          own.1 in
      let before = answered_queue (clock 0) hb r id own.0 in
      rw (flush_step clock link hb queue r (up 0)) (
        rest.0,
        rest.1 ∙ ap (drop (length queue)) before ∙ drop-behind (length queue) (queue_of c id r),
      )

  -- A round whose requests are all answered.
  pub record IsOnline (i : Round c) : Type 0 where
    pub flushed : (n : ℕ) → i.link n ≡ answered
    pub sent : i.post ≡ answered

  -- What is left of a device's commands after a round.
  pub record Sent (id : String) (i : Round c) (s t : Fleet c) : Type 0 where
    pub executed :
        t.calls
        ≡ s.calls
          ++ execute_command c i.device
              (front c (drop (length s.agent.offline_queue) (queue_of c id s.registry)))
    pub left :
        queue_of c id t.registry
        ≡ drop (suc (length s.agent.offline_queue)) (queue_of c id s.registry)
    pub flushed : t.agent.offline_queue ≡ []
    pub same : t.agent.device_id ≡ s.agent.device_id

  pub round-Sent :
      (id : String) (i : Round c) (s : Fleet c)
      → s.agent.device_id ≡ id
      → IsOwn id s.agent.offline_queue
      → IsOnline i
      → Sent id i s (round c i s)
  unfolding round build_heartbeat
  round-Sent id i s e own up =
      let queue = s.agent.offline_queue in
      let f = flush_discards id i.clock i.link queue s.registry up.flushed own in
      let r = (flush_offline_queue c i.clock i.link queue s.registry).1 in
      let hb =
        (build_heartbeat c i.telemetry (record s.agent {
          offline_queue = (flush_offline_queue c i.clock i.link queue s.registry).0;
        })).1 in
      let p = post_answered i.now hb i.post r up.sent in
      record {
        executed = rw (round, p.1, heartbeat_answer c i.now hb r, e, f.1) refl;
        left =
            rw (round, p.1, p.0)
              (answered_queue i.now hb r id e
                ∙ ap (behind c) f.1
                ∙ behind-drop (length queue) (queue_of c id s.registry));
        flushed = rw (round, p.1) f.0;
        same = rw (round, p.1) refl;
      }
