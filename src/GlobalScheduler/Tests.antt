-- ===== src/GlobalScheduler/Tests.antt =====
-- Heartbeats and scheduling (go/cmd/globalscheduler/main.go) on small inputs, with whole numbers for
-- the floats.
use babyray.Common.{
  ◌++◌, ℕ, ◌+◌, ◌*◌, ◌/◌, ◌%◌, ◌^◌, ◌≡◌, refl, true, false, none, some, List, [], ◌∷◌, arith, ltb,
  Outcome, ok,
}
use babyray.Common.Dict.{lookup, insert, keys, or_else}
use babyray.Common.Float.{Float32, IsFloat32}
use babyray.Common.Text.{ascii}
use babyray.Common.Integers.{pos}
use babyray.Wire.{
  status, GlobalScheduleRequest, HeartbeatRequest, ObjectLocationsResponse, ObjectLocationsRequest,
}
use babyray.GlobalScheduler.{
  HeartbeatEntry, Server, is_recent, send_live_nodes, Event, arrival, round, live_nodes_heartbeat,
}
use babyray.GlobalScheduler.Live.{
  receive_all, last_heard, recent, unheard, beats_of, live_nodes_heartbeat-last_heard,
}
use babyray.GlobalScheduler.Best.{
  u64_sub, byte_counts, queueing_time, waiting_time, get_best_worker, best_by,
}
use babyray.GlobalScheduler.Best.Bytes.{bytes_away, transfer_bytes}
use babyray.GlobalScheduler.Best.Minimal.{IsBest, IsShuffle, get_best_worker-IsBest}
use babyray.GlobalScheduler.Best.Scan.{live_time}
use babyray.GlobalScheduler.Schedule.{Rpc, asked, World, replied, schedule, target}
use babyray.GlobalScheduler.Schedule.Dispatch.{Dispatched, IsTarget, schedule-Dispatched}

abbrev whole : Float32 ℕ
whole = record {
  of_uint = λ n. n;
  add = λ a b. a + b;
  mul = λ a b. a * b;
  div = λ a b. a / b;
  lt = ltb;
  max_float = 2 ^ 128;
}

whole-IsFloat32 : IsFloat32 whole
whole-IsFloat32 = record { lt_irrefl = λ x. ground arith; lt_trans = λ x y z p q. ground arith }

abbrev in_order : List ℕ → List ℕ
in_order xs = xs

in_order-IsShuffle : IsShuffle in_order
in_order-IsShuffle xs a = refl

abbrev beat : ℕ → ℕ → HeartbeatRequest ℕ
beat node queued = record {
  running_tasks = 10;
  queued_tasks = queued;
  avg_running_time = 3;
  avg_bandwidth = 2;
  node_id = node;
}

abbrev now : ℕ
now = 500_000_000

abbrev heard_first : List (Event ℕ)
heard_first =
    arrival 0 (beat 4 0)
    ∷ round 100_000_000
    ∷ arrival 400_000_000 (beat 2 5)
    ∷ arrival 450_000_000 (beat 3 1)
    ∷ []

live_nodes_heartbeat-last_heard_example :
    let s = receive_all (beats_of heard_first) unheard in
    (live_nodes_heartbeat (heard_first ++ round now ∷ round 600_000_000 ∷ []) unheard
      ≡ live_nodes_heartbeat heard_first unheard
        ++ send_live_nodes now s ∷ live_nodes_heartbeat (round 600_000_000 ∷ []) s)
    × (lookup 4 (send_live_nodes now s).live_nodes
        ≡ recent now (last_heard 4 (beats_of heard_first) none))
live_nodes_heartbeat-last_heard_example =
    live_nodes_heartbeat-last_heard heard_first now (round 600_000_000 ∷ []) 4

abbrev entry : ℕ → ℕ → HeartbeatEntry ℕ
entry received queued = record {
  time_received = received;
  num_running_tasks = 10;
  num_queued_tasks = queued;
  avg_running_time = 3;
  avg_bandwidth = 2;
}

abbrev nodes : Server ℕ
nodes = record {
  status = (4, entry 0 1) ∷ (2, entry 400_000_000 6) ∷ (3, entry 450_000_000 2) ∷ [];
}

-- Node 2 holds object 7.
abbrev held : ObjectLocationsResponse
held = record { locations = (7, record { locations = 2 ∷ []; bytes = 1000 }) ∷ [] }

abbrev answers : ObjectLocationsRequest → Outcome ℕ ObjectLocationsResponse
answers req = ok held

get_best_worker-IsBest_example :
    IsBest whole
      (live_time now (queueing_time whole) nodes.status)
      (get_best_worker whole in_order now nodes answers false (7 ∷ []))
    × IsBest whole
        (live_time now (queueing_time whole) nodes.status)
        (get_best_worker whole in_order now nodes answers true [])
    × IsBest whole
        (live_time now (waiting_time whole (byte_counts (keys nodes.status) held)) nodes.status)
        (get_best_worker whole in_order now nodes answers true (7 ∷ []))
get_best_worker-IsBest_example =
    get_best_worker-IsBest whole whole-IsFloat32 in_order in_order-IsShuffle now nodes answers
      (7 ∷ []) 7 [] held refl

best_workers :
    (get_best_worker whole in_order now nodes answers false (7 ∷ []) ≡ some 3)
    × (get_best_worker whole in_order now nodes answers true (7 ∷ []) ≡ some 2)
    × (get_best_worker whole in_order (10 * now) nodes answers false [] ≡ none)
unfolding get_best_worker best_by lookup keys is_recent insert
best_workers = (refl, refl, refl)

transfer_bytes_example :
    let c = byte_counts (keys nodes.status) held in
    u64_sub c.total (or_else 0 (lookup 3 c.location_to_bytes))
    ≡ bytes_away 3 held.locations % 2 ^ 64
transfer_bytes_example = transfer_bytes 3 (keys nodes.status) held

abbrev world : World ℕ
world = record {
  dial = λ a. none;
  run_reply = λ r. ok (status true);
  locations = answers;
  node_prefix = ascii "node";
  local_worker_start = pos 50002;
}

abbrev task : GlobalScheduleRequest
task = record {
  uid = 11;
  name = 1;
  args = [];
  kwargs = [];
  uids = 7 ∷ [];
  new_object = true;
  node_id = 0;
  locality_flag = true;
}

task_replied : (schedule whole in_order now nodes world task).1 ≡ replied (status true)
unfolding schedule asked target get_best_worker best_by lookup keys is_recent insert
task_replied = refl

schedule-Dispatched_example :
    (before calls : List Rpc) × (node : ℕ) × ((schedule whole in_order now nodes world task).0
      ≡ before ++ calls)
    × IsTarget whole now nodes world task before node
    × Dispatched world task node calls
schedule-Dispatched_example =
    schedule-Dispatched whole whole-IsFloat32 in_order in_order-IsShuffle now nodes world task
      (status true) task_replied
