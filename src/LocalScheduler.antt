-- ===== src/LocalScheduler.antt =====
-- go/cmd/localscheduler/main.go: `Schedule`, with the calls that it makes and those that it starts in
-- the background, and the handlers that kill and revive the scheduler. What the random source and
-- the worker answer is an argument.
pub mod Routing
pub mod Heartbeats
mod Tests
use babyray.Common.{
  ℕ, ◌%◌, ◌^◌, Bool, true, false, List, [], ◌∷◌, ltb, ◌==◌, if◌then◌else◌, Outcome, ok, err,
}
use babyray.Wire.{
  StatusResponse, status, ScheduleRequest, ScheduleResponse, GlobalScheduleRequest,
  GeneratingRequest, RunRequest, WorkerStatusResponse,
}

abbrev pub max_tasks : ℕ
max_tasks = 10

pub record LocalServer : Type 0 where
  pub local_node_id : ℕ
  pub alive : Bool

-- The calls to other services; WorkerStatus is a read, and is not listed.
pub data SchedulerCall : Type 0 where
  register_lineage : GlobalScheduleRequest → SchedulerCall
  register_generating : GeneratingRequest → SchedulerCall
  run : RunRequest → SchedulerCall
  schedule_globally : GlobalScheduleRequest → SchedulerCall

-- The response, or the panic on the nil response of a WorkerStatus that failed.
pub data ScheduleEnd : Type 0 where
  scheduled : ScheduleResponse → ScheduleEnd
  panicked : ScheduleEnd

-- What the handler made of a request: the calls that it waited for, those that it started with `go`
-- in their order, and how it ended.
pub record Routed : Type 0 where
  pub awaited : List SchedulerCall
  pub started : List SchedulerCall
  pub ending : ScheduleEnd

-- `rand.Uint64()`, the worker's answer to WorkerStatus, and whether the context of the request is
-- over when the background routine calls RegisterGenerating under it: gRPC ends it when the handler
-- returns, and the client then makes no call.
pub record Surroundings (F E : Type 0) : Type 0 where
  pub random : ℕ
  pub worker_status : Outcome E (WorkerStatusResponse F)
  pub canceled : Bool

-- `TruncateHighBit`: the mask is 2 ^ 63 - 1, so the `&` keeps the 63 low bits.
unfoldable pub truncate_high_bit : ℕ → ℕ
truncate_high_bit u64 = u64 % 2 ^ 63

abbrev pub lineage_request : ℕ → ScheduleRequest → GlobalScheduleRequest
lineage_request uid req = record {
  uid = uid;
  name = req.name;
  args = req.args;
  kwargs = req.kwargs;
  uids = req.uids;
  new_object = false;
  node_id = 0;
  locality_flag = false;
}

-- The fields of `GlobalScheduleRequest` that a composite literal leaves out are zero.
abbrev to_node : ℕ → ScheduleRequest → GlobalScheduleRequest
to_node uid req = record (lineage_request uid req) { new_object = true; node_id = req.node_id }

abbrev to_any_node : ℕ → ScheduleRequest → GlobalScheduleRequest
to_any_node uid req = record (lineage_request uid req) {
  new_object = true;
  locality_flag = req.locality_flag;
}

run_locally : LocalServer → Bool → ℕ → ScheduleRequest → List SchedulerCall
run_locally s canceled uid req =
    let runs =
      run (record { uid = uid; name = req.name; args = req.args; kwargs = req.kwargs }) ∷ [] in
    if canceled
    then runs
    else register_generating (record { uid = uid; node_id = s.local_node_id }) ∷ runs

routed : ℕ → ScheduleRequest → List SchedulerCall → ScheduleEnd → Routed
routed uid req started ending = record {
  awaited = register_lineage (lineage_request uid req) ∷ [];
  started = started;
  ending = ending;
}

by_status :
    {F E : Type 0}
    → LocalServer
    → Bool
    → ℕ
    → ScheduleRequest
    → Outcome E (WorkerStatusResponse F)
    → Routed
unfolding run_locally routed
by_status s canceled uid req (err e) = routed uid req [] panicked
by_status s canceled uid req (ok w) =
    routed uid req
      (if ltb w.num_running_tasks max_tasks
        then run_locally s canceled uid req
        else schedule_globally (to_any_node uid req) ∷ [])
      (scheduled (record { uid = uid }))

-- `Schedule`. The error of RegisterLineage is dropped.
unfoldable pub schedule : {F E : Type 0} → LocalServer → Surroundings F E → ScheduleRequest → Routed
unfolding by_status truncate_high_bit
schedule s around req =
    let uid = truncate_high_bit around.random in
    if req.node_id == 0
    then by_status s around.canceled uid req around.worker_status
    else routed uid req (schedule_globally (to_node uid req) ∷ [])
        (scheduled (record { uid = uid }))

unfoldable pub kill_server : LocalServer → LocalServer × StatusResponse
kill_server s = (record s { alive = false }, status true)

unfoldable pub revive_server : LocalServer → LocalServer × StatusResponse
revive_server s = (record s { alive = true }, status true)
