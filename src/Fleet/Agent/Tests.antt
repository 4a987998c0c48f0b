-- ===== src/Fleet/Agent/Tests.antt =====
-- The device of the registry's tests with two commands queued for it, after an outage of one round and without one.
use bmt_ai_os.Prelude.{suc, min, ◌≡◌, refl, true, none, [], ◌∷◌, ◌++◌, drop}
use bmt_ai_os.Fleet.Registry.Delivery.{queue_of, front}
use bmt_ai_os.Fleet.Tests.{texts, two_queued}
use bmt_ai_os.Fleet.Agent.{
  Post, answered, unreached, Telemetry, offline_queue_max, execute_command, Fleet, Round, round,
  rounds,
}
use bmt_ai_os.Fleet.Agent.Backlog.{IsOnline}
use bmt_ai_os.Fleet.Agent.Outage.{outage_discards, obeyed, rounds-obeyed}

abbrev measured : Telemetry texts
measured = record {
  timestamp = "12:05";
  hardware = "{npu}";
  loaded_models = "[qwen]";
  service_health = "{}";
  cpu_percent = 20;
  memory_percent = 50;
  disk_percent = 30;
}

abbrev meeting : Post → Round texts
meeting p = record {
  device = record { strip = λ s. s; apk_update_ok = true };
  clock = λ n. "12:06";
  link = λ n. p;
  telemetry = measured;
  now = "12:06";
  post = p;
  error = "timeout";
  telemetry_after = measured;
}

abbrev fleet : Fleet texts
fleet = record {
  agent = record {
    device_id = "pi";
    os_version = "1.2";
    hardware = none;
    offline_queue = [];
    last_heartbeat_ok = none;
    last_error = "";
  };
  registry = two_queued;
  calls = [];
}

up : IsOnline texts (meeting answered)
up = record { flushed = λ n. refl; sent = refl }

outage_discards_example :
    ((round texts (meeting answered) (rounds texts (meeting unreached ∷ []) fleet)).calls
      ≡ []
        ++ execute_command texts
            (meeting answered).device
            (front texts (drop (min 1 offline_queue_max) (queue_of texts "pi" two_queued))))
    × (queue_of texts "pi"
          (round texts (meeting answered) (rounds texts (meeting unreached ∷ []) fleet)).registry
        ≡ drop (suc (min 1 offline_queue_max)) (queue_of texts "pi" two_queued))
    × ((round texts
          (meeting answered)
          (rounds texts (meeting unreached ∷ []) fleet)).agent.offline_queue
        ≡ [])
outage_discards_example =
    outage_discards texts (meeting unreached ∷ []) (meeting answered) fleet refl
      (record { flushed = λ n. refl; sent = refl }, tt) up

rounds-obeyed_example :
    ((rounds texts (meeting answered ∷ meeting answered ∷ []) fleet).calls
      ≡ []
        ++ obeyed texts (meeting answered ∷ meeting answered ∷ []) (queue_of texts "pi" two_queued))
    × (queue_of texts "pi" (rounds texts (meeting answered ∷ meeting answered ∷ []) fleet).registry
        ≡ drop 2 (queue_of texts "pi" two_queued))
rounds-obeyed_example =
    rounds-obeyed texts "pi" (meeting answered ∷ meeting answered ∷ []) fleet refl refl
      (up, (up, tt))
