-- ===== src/Recovering/Tests.antt =====
-- The theorems of the local scheduler and the object table together, at concrete inputs.
use babyray.Common.{ℕ, ◌≡◌, refl, List, Bool, true, false, none, some, [], ◌∷◌, ok, count, arith}
use babyray.Common.Dict.{lookup, or_else}
use babyray.Wire.{HeartbeatRequest, ScheduleRequest, LiveNodesRequest, WorkerStatusResponse}
use babyray.ObjTable.Server.{GcsObjServer, new_gcs_obj_server}
use babyray.ObjTable.Recovery.{regenerate_list, register_live_nodes}
use babyray.LocalScheduler.{LocalServer, Surroundings, schedule, truncate_high_bit, lineage_request}
use babyray.LocalScheduler.Routing.{tasks, task}
use babyray.Recovering.{after_schedule, register_live_nodes-after_schedule, count-canceled}
use babyray.GlobalScheduler.{send_live_nodes}
use babyray.GlobalScheduler.Live.{receive_all}
use babyray.Recovering.Silence.{send_live_nodes-after_schedule}
use mathlib.Core.List.{Mem}

abbrev node_two : LocalServer
node_two = record { local_node_id = 2; alive = true }

abbrev idle : WorkerStatusResponse ℕ
idle = record { num_running_tasks = 3; num_queued_tasks = 0; average_running_time = 1 }

abbrev around : (canceled : Bool) → Surroundings ℕ ℕ
around canceled = record { random = 9; worker_status = ok idle; canceled = canceled }

abbrev anywhere : ScheduleRequest
anywhere = record {
  name = 4;
  args = 1 ∷ [];
  kwargs = [];
  uids = [];
  node_id = 0;
  locality_flag = false;
}

abbrev table : GcsObjServer ℕ
table = new_gcs_obj_server 0

abbrev two_dead : LiveNodesRequest
two_dead = record { live_nodes = (1, true) ∷ (2, false) ∷ [] }

lookup_empty : {A : Type 0} → lookup {V = A} 9 [] ≡ none
unfolding lookup
lookup_empty = refl

two_is_dead : or_else false (lookup 2 two_dead.live_nodes) ≡ false
unfolding lookup
two_is_dead = refl

register_live_nodes-after_schedule_example :
    Mem
      (some (lineage_request 9 anywhere))
      (register_live_nodes (after_schedule table node_two (around false) anywhere) two_dead).1
unfolding truncate_high_bit
register_live_nodes-after_schedule_example =
    register_live_nodes-after_schedule table node_two (around false) anywhere idle two_dead refl
      refl (omega arith) refl lookup_empty lookup_empty two_is_dead

count-canceled_example :
    (tasks (schedule node_two (around true) anywhere).started ≡ task 9 anywhere ∷ [])
    × (count 9 (
          regenerate_list (record (after_schedule table node_two (around true) anywhere) {
            live_nodes = two_dead.live_nodes;
          }))
        ≡ 0)
unfolding truncate_high_bit
count-canceled_example =
    count-canceled table node_two (around true) anywhere idle two_dead refl refl (omega arith) refl
      lookup_empty lookup_empty lookup_empty

-- Node 2 was heard of at 0 and node 1 since; half a second has passed.
abbrev beat : ℕ → HeartbeatRequest ℕ
beat node = record {
  running_tasks = 4;
  queued_tasks = 0;
  avg_running_time = 1;
  avg_bandwidth = 1;
  node_id = node;
}

abbrev beats : List (ℕ × HeartbeatRequest ℕ)
beats = (0, beat 2) ∷ (450_000_000, beat 1) ∷ []

send_live_nodes-after_schedule_example :
    Mem
      (some (lineage_request 9 anywhere))
      (register_live_nodes
        (after_schedule table node_two (around false) anywhere)
        (send_live_nodes 500_000_000 (receive_all beats (record { status = [] })))).1
unfolding truncate_high_bit
send_live_nodes-after_schedule_example =
    send_live_nodes-after_schedule table node_two (around false) anywhere idle beats 500_000_000
      refl refl (omega arith) refl lookup_empty lookup_empty (omega arith)
