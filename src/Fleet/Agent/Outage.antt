-- ===== src/Fleet/Agent/Outage.antt =====
-- The agent while the server is out of reach, and after.
use bmt_ai_os.Prelude.{
  ℕ, suc, ◌+◌, ◌≤◌, ◌≡◌, refl, sym, ap, ◌∙◌, inl, inr, String, false, Bool-cases, none, some, min,
  leb, List, [], ◌∷◌, ◌++◌, append_nil, All, All-append, length, length-append, drop, arith,
}
use bmt_ai_os.Prelude.Last.{length-drop}
use bmt_ai_os.Fleet.Data.{Codec, FleetCommand, DeviceHeartbeat, FleetRegistry}
use bmt_ai_os.Fleet.Registry.Delivery.{queue_of, front, behind}
use bmt_ai_os.Fleet.Agent.{
  Post, unreached, Call, FleetAgent, build_heartbeat, post_heartbeat, enqueue_offline,
  offline_queue_max, flush_offline_queue, execute_command, Fleet, Round, round, rounds,
}
use bmt_ai_os.Fleet.Agent.Backlog.{drop-behind, IsOwn, IsOnline, round-Sent}

append_assoc {ℓ} : {A : Type ℓ} (xs ys zs : List A) → (xs ++ ys) ++ zs ≡ xs ++ (ys ++ zs)
append_assoc [] ys zs = refl
append_assoc (x ∷ xs) ys zs = ap (λ l. x ∷ l) (append_assoc xs ys zs)

module _ (c : Codec) where
  -- No request of a round reaches the server.
  pub record IsOffline (i : Round c) : Type 0 where
    pub flushed : (n : ℕ) → i.link n ≡ unreached
    pub sent : i.post ≡ unreached

  post_unreached :
      (now : String) (hb : DeviceHeartbeat c) (p : Post) (r : FleetRegistry c)
      → p ≡ unreached
      → ((post_heartbeat c now hb p r).0 ≡ r) × ((post_heartbeat c now hb p r).1 ≡ none)
  unfolding post_heartbeat
  post_unreached now hb p r e = (rw e refl, rw e refl)

  flush_unreached :
      (clock : ℕ → String) (link : ℕ → Post) (queue : List (DeviceHeartbeat c))
      (r : FleetRegistry c)
      → link 0 ≡ unreached
      → flush_offline_queue c clock link queue r ≡ (queue, r)
  unfolding flush_offline_queue
  flush_unreached clock link [] r e = refl
  flush_unreached clock link (hb ∷ queue) r e =
      let p = post_unreached (clock 0) hb (link 0) r e in rw (flush_offline_queue, p.1, p.0) refl

  All-tail :
      (id : String) (queue : List (DeviceHeartbeat c))
      → IsOwn c id queue
      → IsOwn c id (drop 1 queue)
  All-tail id [] h = tt
  All-tail id (hb ∷ queue) h = h.1

  enqueue_offline-IsOwn :
      (id : String) (hb : DeviceHeartbeat c) (a : FleetAgent c)
      → hb.device_id ≡ id
      → IsOwn c id a.offline_queue
      → IsOwn c id (enqueue_offline c hb a).offline_queue
  unfolding enqueue_offline
  enqueue_offline-IsOwn id hb a e own =
      elim (Bool-cases (leb offline_queue_max (length a.offline_queue))) [
        | inl k ↦ rw k (
            All-append (λ (hb : DeviceHeartbeat c). hb.device_id ≡ id) (drop 1 a.offline_queue)
              (hb ∷ []) (All-tail id a.offline_queue own) (e, tt))
        | inr k ↦ rw k (
            All-append (λ (hb : DeviceHeartbeat c). hb.device_id ≡ id) a.offline_queue (hb ∷ []) own
              (e, tt))
      ]

  length-enqueue_offline :
      (hb : DeviceHeartbeat c) (a : FleetAgent c)
      → length a.offline_queue ≤ offline_queue_max
      → length (enqueue_offline c hb a).offline_queue
        ≡ min (length a.offline_queue + 1) offline_queue_max
  unfolding enqueue_offline
  length-enqueue_offline hb a h = ground (
    arith,
    length-append a.offline_queue (hb ∷ []),
    length-append (drop 1 a.offline_queue) (hb ∷ []),
    length-drop 1 a.offline_queue,
  )

  -- A round without the server changes the queue alone.
  record Kept (id : String) (k : ℕ) (s t : Fleet c) : Type 0 where
    registry : t.registry ≡ s.registry
    calls : t.calls ≡ s.calls
    same : t.agent.device_id ≡ s.agent.device_id
    own : IsOwn c id t.agent.offline_queue
    size : length t.agent.offline_queue ≡ min (length s.agent.offline_queue + k) offline_queue_max

  round-Kept :
      (id : String) (i : Round c) (s : Fleet c)
      → s.agent.device_id ≡ id
      → IsOwn c id s.agent.offline_queue
      → length s.agent.offline_queue ≤ offline_queue_max
      → IsOffline i
      → Kept id 1 s (round c i s)
  unfolding round build_heartbeat
  round-Kept id i s e own h down =
      let f = flush_unreached i.clock i.link s.agent.offline_queue s.registry (down.flushed 0) in
      let kept = (flush_offline_queue c i.clock i.link s.agent.offline_queue s.registry).0 in
      let r = (flush_offline_queue c i.clock i.link s.agent.offline_queue s.registry).1 in
      let sending = build_heartbeat c i.telemetry (record s.agent { offline_queue = kept }) in
      let p = post_unreached i.now sending.1 i.post r down.sent in
      let again =
        build_heartbeat c i.telemetry_after
          (record sending.0 { last_heartbeat_ok = some false; last_error = i.error }) in
      let kept-IsOwn : IsOwn c id kept = rw f own in
      let kept_le : length kept ≤ offline_queue_max = rw f h in
      record {
        registry = rw (round, p.1, p.0, f) refl;
        calls = rw (round, p.1) refl;
        same = rw (round, p.1, enqueue_offline) refl;
        own = rw (round, p.1) (enqueue_offline-IsOwn id again.1 again.0 e kept-IsOwn);
        size =
            rw (round, p.1)
              (length-enqueue_offline again.1 again.0 kept_le
                ∙ ap (λ (q : List (DeviceHeartbeat c)). min (length q + 1) offline_queue_max)
                    (ap (λ x. x.0) f));
      }

  rounds-Kept :
      (id : String) (is : List (Round c)) (s : Fleet c)
      → s.agent.device_id ≡ id
      → IsOwn c id s.agent.offline_queue
      → length s.agent.offline_queue ≤ offline_queue_max
      → All IsOffline is
      → Kept id (length is) s (rounds c is s)
  unfolding rounds
  rounds-Kept id [] s e own h down = record {
    registry = refl;
    calls = refl;
    same = refl;
    own = own;
    size = ground (arith, h);
  }
  rounds-Kept id (i ∷ is) s e own h down =
      let k = round-Kept id i s e own h down.0 in
      let ks = rounds-Kept id is (round c i s) (k.same ∙ e) k.own (ground (arith, k.size)) down.1 in
      record {
        registry = ks.registry ∙ k.registry;
        calls = ks.calls ∙ k.calls;
        same = ks.same ∙ k.same;
        own = ks.own;
        size = ground (arith, k.size, ks.size);
      }

  -- Take an agent with nothing queued, rounds in which no request reaches the server, and then a round in which every
  -- request is answered. The server loses as many of the device's commands as payloads were kept, one for each round
  -- of the outage and at most 100, and the device executes none of them: it calls what the command after them asks
  -- for, and the server keeps what follows that one.
  pub outage_discards :
      (outage : List (Round c)) (i : Round c) (s : Fleet c)
      → s.agent.offline_queue ≡ []
      → All IsOffline outage
      → IsOnline c i
      → ((round c i (rounds c outage s)).calls
          ≡ s.calls
            ++ execute_command c i.device (
                front c (
                  drop
                    (min (length outage) offline_queue_max)
                    (queue_of c s.agent.device_id s.registry))))
        × (queue_of c s.agent.device_id (round c i (rounds c outage s)).registry
            ≡ drop
                (suc (min (length outage) offline_queue_max))
                (queue_of c s.agent.device_id s.registry))
        × ((round c i (rounds c outage s)).agent.offline_queue ≡ [])
  outage_discards outage i s e down up =
      let id = s.agent.device_id in
      let k = rounds-Kept id outage s refl (rw e tt) (rw e (ground arith)) down in
      let size : length (rounds c outage s).agent.offline_queue
          ≡ min (length outage) offline_queue_max =
        k.size ∙ rw e (ground arith) in
      let t = round-Sent c id i (rounds c outage s) k.same k.own up in
      (
        t.executed ∙ rw (size, k.calls, k.registry) refl,
        t.left ∙ rw (size, k.registry) refl,
        t.flushed,
      )

  -- What a device calls for a queue of commands, one round for each.
  pub obeyed : List (Round c) → List (FleetCommand c) → List Call
  obeyed [] queue = []
  obeyed (i ∷ is) queue = execute_command c i.device (front c queue) ++ obeyed is (behind c queue)

  drop-one : (queue : List (FleetCommand c)) → drop 1 queue ≡ behind c queue
  unfolding behind
  drop-one [] = refl
  drop-one (cmd ∷ queue) = refl

  -- While every request of every round is answered, an agent with nothing queued executes the commands of its queue on
  -- the server in order and each once, one in a round, and nothing else, and the queue loses exactly those.
  pub rounds-obeyed :
      (id : String) (is : List (Round c)) (s : Fleet c)
      → s.agent.device_id ≡ id
      → s.agent.offline_queue ≡ []
      → All (IsOnline c) is
      → ((rounds c is s).calls ≡ s.calls ++ obeyed is (queue_of c id s.registry))
        × (queue_of c id (rounds c is s).registry ≡ drop (length is) (queue_of c id s.registry))
  unfolding rounds obeyed
  rounds-obeyed id [] s same e up = (sym (append_nil s.calls), refl)
  rounds-obeyed id (i ∷ is) s same e up =
      let queue = queue_of c id s.registry in
      let t = round-Sent c id i s same (rw e tt) up.0 in
      let rest = rounds-obeyed id is (round c i s) (t.same ∙ same) t.flushed up.1 in
      let left : queue_of c id (round c i s).registry ≡ behind c queue =
        t.left ∙ rw e (drop-one queue) in
      let executed : (round c i s).calls ≡ s.calls ++ execute_command c i.device (front c queue) =
        t.executed ∙ rw e refl in
      (
        rest.0
            ∙ rw (left, executed)
                (append_assoc s.calls (execute_command c i.device (front c queue))
                  (obeyed is (behind c queue))),
        rest.1 ∙ ap (drop (length is)) left ∙ drop-behind c (length is) queue,
      )
