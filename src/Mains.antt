-- ===== src/Mains.antt =====
-- The `main` functions under go/cmd and `startServer` of go/cmd/localobjstore/main.go: the address at
-- which each process listens, what it dials before it serves, and the state that it serves from.
-- What net.Listen and grpc.Dial answer is an argument.
pub mod Serving
pub mod Boots
mod Tests
use babyray.Common.{ℕ, true, Option, none, some, List, [], ◌∷◌, ◌++◌, Outcome, ok, err}
use babyray.Common.Text.{Text}
use babyray.Common.Float.{Float32}
use babyray.Config.{Config}
use babyray.Config.Wiring.{
  gcs_functions, gcs_objects, global_scheduling, local_scheduling, object_storing, working,
  scheduler_worker, scheduler_global, scheduler_objects, heartbeats_worker, heartbeats_store,
  global_objects, objects_global, store_objects, worker_functions, worker_store, listen_address,
  dial_address, local_node_id,
}
use babyray.FuncTable.{GcsFuncServer, new_gcs_func_server}
use babyray.GlobalScheduler.{Server}
use babyray.LocalScheduler.{LocalServer}
use babyray.LocalObjStore.{ObjStore}
use babyray.Worker.{Shared}
use babyray.ObjTable.Server.{GcsObjServer}
use babyray.ObjTable.Startup.{Setup, Timer, Started, running, fatal, panicked, start_gcs_obj_server}

-- How a process starts: it serves at an address, having dialled others; it ends by log.Fatalf; or it
-- panics.
pub data Boot (A : Type 0) : Type 0 where
  serving : (address : Text) → (dialled : List Text) → A → Boot A
  exited : Boot A
  crashed : Boot A

-- The network: an error of net.Listen at an address, and one of grpc.Dial.
pub record Network (E : Type 0) : Type 0 where
  pub listen : Text → Option E
  pub dial : Text → Option E

-- `lis, err := net.Listen("tcp", address)`, whose error is fatal.
pub listening : {E A : Type 0} → Option E → Boot A → Boot A
listening none rest = rest
listening (some e) rest = exited

object_table_started : {F D : Type 0} → Config F → Text → Started D → Boot (GcsObjServer D × Timer)
object_table_started cfg address (running s timer) =
    serving address (dial_address cfg objects_global ∷ []) (s, timer)
object_table_started cfg address fatal = exited
object_table_started cfg address panicked = crashed

-- What SendHeartbeats has dialled; an error of grpc.Dial is fatal.
heartbeats_dialled : {E : Type 0} → Text → Text → Option E → Option E → Option (List Text)
heartbeats_dialled worker store (some e) answer = none
heartbeats_dialled worker store none (some e) = none
heartbeats_dialled worker store none none = some (worker ∷ store ∷ [])

-- `createGRPCClient`, whose error of grpc.Dial is fatal.
pub create_grpc_client : {E A : Type 0} → Option E → Boot A → Boot A
create_grpc_client none rest = rest
create_grpc_client (some e) rest = exited

module _ {F E : Type 0} (cfg : Config F) (net : Network E) where
  -- go/cmd/gcsfunctable/main.go
  unfoldable pub function_table_main : Boot GcsFuncServer
  unfolding listening
  function_table_main =
      let address = listen_address cfg gcs_functions in
      listening (net.listen address) (serving address [] new_gcs_func_server)

  -- go/cmd/gcsobjtable/main.go; the error of its grpc.Dial is dropped.
  unfoldable pub object_table_main :
      {D St : Type 0} → Setup D St E → Outcome E D → Boot (GcsObjServer D × Timer)
  unfolding listening object_table_started
  object_table_main setup database =
      let address = listen_address cfg gcs_objects in
      listening (net.listen address) (
        object_table_started cfg address
          (start_gcs_obj_server setup cfg.gcs.flush_interval_sec database))

  -- go/cmd/globalscheduler/main.go; the error of its grpc.Dial is dropped.
  unfoldable pub global_scheduler_main : Boot (Server F)
  unfolding listening
  global_scheduler_main =
      let address = listen_address cfg global_scheduling in
      listening (net.listen address)
        (serving address (dial_address cfg global_objects ∷ []) (record { status = [] }))

  -- go/cmd/localscheduler/main.go; the errors of its three grpc.Dial are dropped. The routine that
  -- sends heartbeats dials for itself.
  unfoldable pub local_scheduler_main : (node_id_variable : Text) → Boot LocalServer
  unfolding listening
  local_scheduler_main node_id_variable =
      let node = local_node_id node_id_variable in
      let address = listen_address cfg (local_scheduling node) in
      listening (net.listen address) (
        serving address
          (dial_address cfg (scheduler_worker node)
            ∷ dial_address cfg (scheduler_global node)
            ∷ dial_address cfg (scheduler_objects node)
            ∷ [])
          (record { local_node_id = node; alive = true }))

  -- The start of SendHeartbeats.
  unfoldable pub heartbeats_start : ℕ → Option (List Text)
  unfolding heartbeats_dialled
  heartbeats_start node =
      let worker = dial_address cfg (heartbeats_worker node) in
      let store = dial_address cfg (heartbeats_store node) in
      heartbeats_dialled worker store (net.dial worker) (net.dial store)

  -- `startServer` at the port that `main` gives it; DEFAULT_AVG_BANDWIDTH is 0.1, in float32.
  unfoldable pub start_server :
      {M : Type 0} → Float32 F → M → Text → (node_id_variable : Text) → Boot (ObjStore M F)
  unfolding listening
  start_server f memory port node_id_variable =
      let node = local_node_id node_id_variable in
      listening (net.listen port) (
        serving port (dial_address cfg (store_objects node) ∷ []) (record {
          memory = memory;
          object_sizes = [];
          local_node_id = node;
          avg_bandwidth = f.div (f.of_uint 1) (f.of_uint 10);
        }))

  -- go/cmd/localobjstore/main.go, where `main` waits for ever after it.
  unfoldable pub object_store_main :
      {M : Type 0} → Float32 F → M → (node_id_variable : Text) → Boot (ObjStore M F)
  unfolding start_server
  object_store_main f memory node_id_variable =
      start_server f memory (listen_address cfg (object_storing (local_node_id node_id_variable)))
        node_id_variable

  -- go/cmd/worker/main.go, on a node that the code does not look at.
  unfoldable pub worker_main : Float32 F → (node : ℕ) → Boot (Shared F)
  unfolding listening create_grpc_client
  worker_main f node =
      let address = listen_address cfg (working node) in
      let functions = dial_address cfg (worker_functions node) in
      let store = dial_address cfg (worker_store node) in
      listening (net.listen address) (
        create_grpc_client (net.dial functions) (
          create_grpc_client (net.dial store) (
            serving address (functions ∷ store ∷ []) (record {
              slots = 0;
              num_running_tasks = 0;
              num_queued_tasks = 0;
              average_running_time = f.div (f.of_uint 1) (f.of_uint 10);
              alive = true;
            }))))
