-- ===== src/GlobalScheduler/Schedule.antt =====
-- `Schedule` of go/cmd/globalscheduler/main.go: the calls that it makes, in their order, and how it
-- ends. What the network and the other services answer is an argument.
pub mod Dispatch
use babyray.Common.{
  ℕ, Bool, true, false, Option, none, some, List, [], ◌∷◌, ◌++◌, length, ltb, ◌==◌, ◌&&◌,
  if◌then◌else◌, Outcome, ok, err, String,
}
use babyray.Common.Float.{Float32}
use babyray.Common.Text.{Text}
use babyray.Common.Integers.{ℤ, pos}
use babyray.Config.Wiring.{at_node}
use babyray.Wire.{
  StatusResponse, status, GlobalScheduleRequest, GeneratingRequest, RunRequest,
  ObjectLocationsRequest, ObjectLocationsResponse,
}
use babyray.GlobalScheduler.{Server}
use babyray.GlobalScheduler.Best.{get_best_worker}

-- The calls to other services.
pub data Rpc : Type 0 where
  ask_locations : ObjectLocationsRequest → Rpc
  register_generating : GeneratingRequest → Rpc
  run : Text → RunRequest → Rpc

-- `fatal` is log.Fatalf, which ends the process.
pub data Ending (E : Type 0) : Type 0 where
  replied : StatusResponse → Ending E
  failed : E → Ending E
  fatal : Ending E

-- What the environment answers. `grpc.Dial` does not connect yet, and fails on a bad address alone.
pub record World (E : Type 0) : Type 0 where
  pub dial : Text → Option E
  pub run_reply : RunRequest → Outcome E StatusResponse
  pub locations : ObjectLocationsRequest → Outcome E ObjectLocationsResponse
  pub node_prefix : Text
  pub local_worker_start : ℤ

after_run : {E : Type 0} → Outcome E StatusResponse → Ending E
after_run (err e) = fatal
after_run (ok r) = if r.success then replied (status true) else fatal

abbrev pub run_request : GlobalScheduleRequest → RunRequest
run_request req = record { uid = req.uid; name = req.name; args = req.args; kwargs = req.kwargs }

-- The worker's address on a node.
abbrev pub worker_address : {E : Type 0} → World E → ℕ → Text
worker_address w node = at_node w.node_prefix (pos node) w.local_worker_start

after_dial : {E : Type 0} → World E → GlobalScheduleRequest → ℕ → Option E → List Rpc × Ending E
unfolding after_run
after_dial w req node (some e) = ([], failed e)
after_dial w req node none = (
  register_generating (record { uid = req.uid; node_id = node })
      ∷ run (worker_address w node) (run_request req)
      ∷ [],
  after_run (w.run_reply (run_request req)),
)

-- What getBestWorker asks of the object table before it picks a node.
unfoldable pub asked : GlobalScheduleRequest → List Rpc
asked req =
    if req.node_id == 0 && (req.locality_flag && ltb 0 (length req.uids))
    then ask_locations (record { args = req.uids }) ∷ []
    else []

send_to : {E : Type 0} → World E → GlobalScheduleRequest → Option ℕ → List Rpc × Ending E
unfolding after_dial
send_to w req none = ([], fatal)
send_to w req (some node) = after_dial w req node (w.dial (worker_address w node))

unfoldable pub target :
    {F E : Type 0}
    → Float32 F
    → (List ℕ → List ℕ)
    → ℕ
    → Server F
    → World E
    → GlobalScheduleRequest
    → Option ℕ
target f shuffle now s w req =
    if req.node_id == 0
    then get_best_worker f shuffle now s w.locations req.locality_flag req.uids
    else some req.node_id

unfoldable pub schedule :
    {F E : Type 0}
    → Float32 F
    → (List ℕ → List ℕ)
    → ℕ
    → Server F
    → World E
    → GlobalScheduleRequest
    → List Rpc × Ending E
unfolding send_to target asked
schedule f shuffle now s w req =
    let (calls, ending) = send_to w req (target f shuffle now s w req) in
    (asked req ++ calls, ending)
