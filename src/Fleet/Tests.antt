-- ===== src/Fleet/Tests.antt =====
-- One device, whose commands are texts: it registers, two commands are queued for it, and it sends a heartbeat.
use bmt_ai_os.Prelude.{
  ℕ, zero, suc, ◌<◌, ◌≡◌, ◌≢◌, refl, length, arith, String, true, false, none, some, List, [], ◌∷◌,
  ◌++◌, str_eq,
}
use bmt_ai_os.Prelude.Dict
use bmt_ai_os.Prelude.Dict.{Dict}
use bmt_ai_os.Fleet.Data.{
  Codec, IsCodec, FleetCommand, DeviceHeartbeat, DeviceRecord, FleetRegistry,
}
use bmt_ai_os.Fleet.Database.{
  has_command_id, command_row, insert_command_db, upsert_device_db, load_from_db,
}
use bmt_ai_os.Fleet.Database.Rows.{with_queue}
use bmt_ai_os.Fleet.Registration.{Info, registration}
use bmt_ai_os.Fleet.Registry.{
  store_device, register, heartbeat, identified, push_command, enqueue_command, targets_of,
}
use bmt_ai_os.Fleet.Registry.Queues.{IsNew}
use bmt_ai_os.Fleet.Registry.Restart.{
  created, Reachable, load_from_db-restores, enqueue_command-known_id,
}
use bmt_ai_os.Fleet.Registry.Broadcast.{IsFresh}
use bmt_ai_os.Fleet.Registry.Delivery.{answers, heartbeats_of, pops, queue_of, answers-in_order}

abbrev pub texts : Codec
texts = record {
  Json = String;
  dumps = λ v. v;
  loads = some;
  empty_dict = "{}";
  empty_list = "[]";
  is_dict = λ v. true;
  text_at = λ v key. some v;
  model_of = λ model. model;
  Real = ℕ;
  no_real = 0;
}

texts-IsCodec : IsCodec texts
texts-IsCodec = record { loads-dumps = λ v. refl }

abbrev pub pi : Info texts
pi = record {
  device_id = "pi";
  hostname = some "rpi5";
  os_version = none;
  arch = some "arm64";
  board = none;
  cpu_model = none;
  cpu_cores = some 4;
  memory_total_mb = some 8192;
  disk_total_gb = none;
  hardware = none;
}

abbrev beat : String → DeviceHeartbeat texts
beat id = record {
  device_id = id;
  timestamp = "12:05";
  os_version = "1.2";
  hardware = "{npu}";
  loaded_models = "[qwen]";
  service_health = "{}";
  cpu_percent = 20;
  memory_percent = 50;
  disk_percent = 30;
}

abbrev pub restart : String → FleetCommand texts
restart id = record {
  action = some "restart-service";
  params = "{ollama}";
  command_id = id;
  status = "pending";
}

abbrev pub one_registered : FleetRegistry texts
one_registered = register texts "12:00" pi (created texts)

abbrev pub one_queued : FleetRegistry texts
one_queued = (enqueue_command texts "" "pi" (restart "a") one_registered).0

abbrev pub two_queued : FleetRegistry texts
two_queued = (enqueue_command texts "" "pi" (restart "b") one_queued).0

abbrev after : FleetRegistry texts
after = (heartbeat texts "12:06" (beat "pi") two_queued).0

one_registered-IsNew :
    IsNew texts texts-IsCodec (identified texts "" (restart "a")) one_registered.db
unfolding identified register store_device upsert_device_db has_command_id
one_registered-IsNew = record {
  kind = "restart-service";
  has_kind = refl;
  waits = refl;
  is_new = refl;
}

one_queued-IsNew : IsNew texts texts-IsCodec (identified texts "" (restart "b")) one_queued.db
unfolding identified register store_device upsert_device_db has_command_id enqueue_command
    insert_command_db command_row Dict.get Dict.put
one_queued-IsNew = record { kind = "restart-service"; has_kind = refl; waits = refl; is_new = refl }

one_queued-Reachable : Reachable texts texts-IsCodec one_queued
one_queued-Reachable =
    Reachable.queueing "" "pi" (restart "a") one_registered-IsNew
      (Reachable.registering "12:00" pi refl Reachable.new)

after-Reachable : Reachable texts texts-IsCodec after
after-Reachable = Reachable.beating "12:06" (beat "pi") refl (
    Reachable.queueing "" "pi" (restart "b") one_queued-IsNew (
      Reachable.queueing "" "pi" (restart "a") one_registered-IsNew
        (Reachable.registering "12:00" pi refl Reachable.new)))

load_from_db-restores_example :
    (devices : Dict (DeviceRecord texts)) × (load_from_db texts "13:00" after.db ≡ some devices)
    × ((id : String) → Dict.get devices id ≡ Dict.get after.devices id)
load_from_db-restores_example =
    load_from_db-restores texts texts-IsCodec "13:00" after after-Reachable

abbrev beats : List (String × DeviceHeartbeat texts)
beats =
    ("12:06", beat "pi") ∷ ("12:07", beat "nano") ∷ ("12:08", beat "pi") ∷ ("12:09", beat "pi") ∷ []

answers-in_order_example :
    answers texts "pi" beats two_queued
    ≡ pops texts (heartbeats_of texts "pi" beats) (queue_of texts "pi" two_queued)
answers-in_order_example = answers-in_order texts "pi" beats two_queued

abbrev known : DeviceRecord texts
known = with_queue (registration texts "12:00" pi none) (restart "a" ∷ [])

one_queued-known : Dict.get one_queued.devices "pi" ≡ some known
unfolding identified register registration store_device enqueue_command push_command with_queue
    Dict.get Dict.put
one_queued-known = refl

one_queued-has_command_id :
    has_command_id texts (identified texts "" (restart "a")).command_id one_queued.db.commands
    ≡ true
unfolding identified register store_device upsert_device_db has_command_id enqueue_command
    insert_command_db command_row Dict.get Dict.put
one_queued-has_command_id = refl

enqueue_command-known_id_example :
    (Dict.get (enqueue_command texts "" "pi" (restart "a") one_queued).0.devices "pi"
      ≡ some (with_queue known (known.pending_commands ++ identified texts "" (restart "a") ∷ [])))
    × (devices : Dict (DeviceRecord texts)) × (load_from_db texts "13:00"
          (enqueue_command texts "" "pi" (restart "a") one_queued).0.db
        ≡ some devices)
    × (Dict.get devices "pi" ≡ some known)
enqueue_command-known_id_example =
    enqueue_command-known_id texts texts-IsCodec "13:00" "" "pi" (restart "a") known one_queued
      one_queued-Reachable one_queued-known one_queued-has_command_id

-- Two devices and two new ids

abbrev both : FleetRegistry texts
both = register texts "12:01" (record pi { device_id = "nano" }) one_queued

both-Reachable : Reachable texts texts-IsCodec both
both-Reachable =
    Reachable.registering "12:01" (record pi { device_id = "nano" }) refl one_queued-Reachable

abbrev uuids : ℕ → String
uuids zero = "u0"
uuids (suc n) = "u1"

uuids-given : (n : ℕ) → n < 2 → str_eq (uuids n) "" ≡ false
uuids-given zero h = refl
uuids-given (suc n) h = refl

uuids-differ : (n m : ℕ) → n < 2 → m < 2 → n ≢ m → str_eq (uuids n) (uuids m) ≡ false
uuids-differ zero zero h h' e = absurd (e refl)
uuids-differ zero (suc m) h h' e = refl
uuids-differ (suc n) zero h h' e = refl
uuids-differ (suc n) (suc m) h h' e = absurd (e (omega (arith, h, h')))

uuids-unknown : (n : ℕ) → n < 2 → has_command_id texts (uuids n) both.db.commands ≡ false
unfolding identified register store_device upsert_device_db has_command_id enqueue_command
    insert_command_db command_row Dict.get Dict.put
uuids-unknown zero h = refl
uuids-unknown (suc n) h = refl

both-IsFresh : IsFresh texts (length (Dict.keys both.devices)) uuids both.db
unfolding Dict.keys register store_device Dict.put enqueue_command push_command Dict.get
both-IsFresh = record { is_given = uuids-given; differ = uuids-differ; unknown = uuids-unknown }

targets-IsFresh : IsFresh texts (length (targets_of texts none both)) uuids both.db
unfolding targets_of
targets-IsFresh = both-IsFresh
