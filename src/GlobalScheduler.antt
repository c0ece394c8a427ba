-- ===== src/GlobalScheduler.antt =====
-- go/cmd/globalscheduler/main.go: the heartbeats of the nodes, and the choice of a worker. `Best` is
-- getBestWorker, `Schedule` the handler that uses it; the modules below them hold the proofs. The
-- package's lock makes each heartbeat and each scan one step. A time is a reading of the monotonic
-- clock in nanoseconds, and the current time is an argument.
pub mod Live
pub mod Best
pub mod Schedule
mod Tests
use babyray.Common.{
  ℕ, ◌+◌, ◌-◌, ◌*◌, ◌%◌, ◌^◌, Bool, true, false, Option, none, some, List, [], ◌∷◌, ltb, ◌==◌,
  if◌then◌else◌,
}
use babyray.Common.Dict.{Dict, insert}
use babyray.Wire.{HeartbeatRequest, LiveNodesRequest}

-- 400 * time.Millisecond
abbrev pub live_node_timeout : ℕ
live_node_timeout = 400 * 10 ^ 6

abbrev pub max_concurrent_tasks : ℕ
max_concurrent_tasks = 10

pub record HeartbeatEntry (F : Type 0) : Type 0 where
  pub time_received : ℕ
  pub num_running_tasks : ℕ
  pub num_queued_tasks : ℕ
  pub avg_running_time : F
  pub avg_bandwidth : F

-- `server`, without its client of the object table, which `Schedule` takes as an argument.
pub record Server (F : Type 0) : Type 0 where
  pub status : Dict (HeartbeatEntry F)

module _ {F : Type 0} where
  -- The `uint32` of queued tasks, one more where every task slot of the worker is taken.
  pub queued_tasks : HeartbeatRequest F → ℕ
  queued_tasks req =
      if req.running_tasks == max_concurrent_tasks
      then (req.queued_tasks + 1) % 2 ^ 32
      else req.queued_tasks

  -- `Heartbeat`; its reply is always `status true`.
  pub heartbeat : ℕ → Server F → HeartbeatRequest F → Server F
  unfolding queued_tasks
  heartbeat now s req = record s {
    status =
        insert req.node_id
          (record {
            time_received = now;
            num_running_tasks = req.running_tasks;
            num_queued_tasks = queued_tasks req;
            avg_running_time = req.avg_running_time;
            avg_bandwidth = req.avg_bandwidth;
          })
          s.status;
  }

  -- time.Since(heartbeat.timeReceived) < LIVE_NODE_TIMEOUT
  unfoldable pub is_recent : ℕ → HeartbeatEntry F → Bool
  is_recent now e = ltb (now - e.time_received) live_node_timeout

  live_map : ℕ → Dict (HeartbeatEntry F) → Dict Bool
  unfolding is_recent
  live_map now [] = []
  live_map now ((uid, e) ∷ m) = (uid, is_recent now e) ∷ live_map now m

  -- The request that `SendLiveNodes` sends to the object table.
  pub send_live_nodes : ℕ → Server F → LiveNodesRequest
  unfolding live_map
  send_live_nodes now s = record { live_nodes = live_map now s.status }

-- What happens at the scheduler, with the time: a heartbeat arrives, or the loop of LiveNodesHeartbeat
-- comes round.
pub data Event (F : Type 0) : Type 0 where
  arrival : (now : ℕ) → HeartbeatRequest F → Event F
  round : (now : ℕ) → Event F

-- `LiveNodesHeartbeat`, between the heartbeats that arrive: the requests of its rounds, in their order.
unfoldable pub live_nodes_heartbeat :
    {F : Type 0} → List (Event F) → Server F → List LiveNodesRequest
live_nodes_heartbeat [] s = []
live_nodes_heartbeat (arrival now req ∷ events) s =
    live_nodes_heartbeat events (heartbeat now s req)
live_nodes_heartbeat (round now ∷ events) s = send_live_nodes now s ∷ live_nodes_heartbeat events s
