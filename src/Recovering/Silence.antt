-- ===== src/Recovering/Silence.antt =====
-- The local scheduler, the global scheduler (go/cmd/globalscheduler/main.go) and the object table
-- together: a node from which no heartbeat comes any more, and the task that it was running.
use babyray.Common.{
  ℕ, ◌-◌, ◌<◌, ◌≤◌, ◌≡◌, refl, ap, ◌∙◌, false, Option, none, some, List, [], ok, arith,
}
use babyray.Common.Dict.{lookup, or_else}
use babyray.Wire.{HeartbeatRequest, ScheduleRequest, WorkerStatusResponse}
use babyray.ObjTable.Server.{GcsObjServer}
use babyray.ObjTable.Recovery.{register_live_nodes}
use babyray.GlobalScheduler.{send_live_nodes}
use babyray.GlobalScheduler.Live.{recent, receive_all, last_heard, send_live_nodes-last_heard}
use babyray.LocalScheduler.{LocalServer, Surroundings, truncate_high_bit, lineage_request}
use babyray.Recovering.{after_schedule, register_live_nodes-after_schedule}
use mathlib.Core.List.{Mem}

-- Nothing was heard of a node, or the last of it 400 ms ago or earlier.
abbrev pub IsSilent : ℕ → Option ℕ → Type 0
IsSilent now none = Unit
IsSilent now (some t) = 400_000_000 ≤ now - t

recent-IsSilent : (now : ℕ) (o : Option ℕ) → IsSilent now o → or_else false (recent now o) ≡ false
recent-IsSilent now none silent = refl
recent-IsSilent now (some t) silent = ground (arith, silent)

module _ {D F E : Type 0} (t : GcsObjServer D) (s : LocalServer) (around : Surroundings F E)
    (req : ScheduleRequest) (w : WorkerStatusResponse F) where
  -- The request names no node and the worker has room, so the task runs at the scheduler's node; the
  -- object's number is new to the table, and both calls of the table were made. If the global
  -- scheduler has then heard nothing of the node for 400 ms or more, whatever heartbeats came of
  -- others, the report of the live nodes that it sends makes the table send it the task's lineage.
  pub send_live_nodes-after_schedule :
      (beats : List (ℕ × HeartbeatRequest F)) (now : ℕ)
      → req.node_id ≡ 0
      → around.worker_status ≡ ok w
      → w.num_running_tasks < 10
      → around.canceled ≡ false
      → lookup (truncate_high_bit around.random) t.lineage ≡ none
      → lookup (truncate_high_bit around.random) t.object_locations ≡ none
      → IsSilent now (last_heard s.local_node_id beats none)
      → Mem
          (some (lineage_request (truncate_high_bit around.random) req))
          (register_live_nodes
            (after_schedule t s around req)
            (send_live_nodes now (receive_all beats (record { status = [] })))).1
  send_live_nodes-after_schedule beats now anywhere answer room arrived unused nowhere silent =
      register_live_nodes-after_schedule t s around req w
        (send_live_nodes now (receive_all beats (record { status = [] }))) anywhere answer room
        arrived unused nowhere
        (ap (or_else false) (send_live_nodes-last_heard now s.local_node_id beats)
          ∙ recent-IsSilent now (last_heard s.local_node_id beats none) silent)
