-- ===== src/Tasks.antt =====
-- A task at a worker: Run of go/cmd/worker/main.go from its fetch on, for one call, with what it uses:
-- the function table (go/cmd/gcsfunctable/main.go), the script that executes the function, and its
-- node's object store (go/cmd/localobjstore/main.go), which tells the object table.
pub mod Published
mod Steps
mod Tests
use babyray.Common.{ℕ, Bool, true, Option, none, some, List, [], Outcome, ok, err, if◌then◌else◌}
use babyray.Wire.{
  Bytes, RunRequest, StoreRequest, StatusResponse, status, NotifyOwnsRequest, FetchResponse,
}
use babyray.FuncTable.{GcsFuncServer, FuncError, fetch_func}
use babyray.LocalObjStore.{ObjStore, StoreError, store}
use babyray.LocalObjStore.SharedMemory.{System}
use babyray.Worker.{Result, returned, exited}
use babyray.Worker.Execute.{execute_function}

-- The errors that Run passes on.
pub data TaskError (E : Type 0) : Type 0 where
  fetching : FuncError → TaskError E
  storing : StoreError E → TaskError E

-- The node's store after the task, what it announced, and how the call ended, where `none` is
-- log.Fatalf.
abbrev pub TaskEnd : Type 0 → Type 0 → Type 0 → Type 0
TaskEnd M F E = ObjStore M F × List NotifyOwnsRequest × Option (Result (TaskError E))

abbrev pub store_output : RunRequest → Bytes → StoreRequest
store_output req output = record { uid = req.uid; object_bytes = output }

after_store :
    {M F E : Type 0}
    → ObjStore M F × List NotifyOwnsRequest × Outcome (StoreError E) StatusResponse
    → TaskEnd M F E
after_store (s, sent, err e) = (s, sent, some (returned (err (storing e))))
after_store (s, sent, ok reply) = (s, sent, some (returned (ok (status true))))

module _ {M R E F : Type 0} (sys : System M R E) (process : List ℕ → Option (List ℕ)) (alive : Bool)
    (s : ObjStore M F) (req : RunRequest) where
  after_execute : Option Bytes → TaskEnd M F E
  unfolding after_store
  after_execute none = (s, [], none)
  after_execute (some output) =
      if alive then after_store (store sys s (store_output req output)) else (s, [], some exited)

  after_fetch : Outcome FuncError FetchResponse → TaskEnd M F E
  unfolding after_execute
  after_fetch (err e) = (s, [], some (returned (err (fetching e))))
  after_fetch (ok r) =
      after_execute (execute_function process r.serialized_func req.args req.kwargs)

  -- `Run` from the fetch on, for a worker that is `alive` once the function has been executed.
  pub run_task : GcsFuncServer → TaskEnd M F E
  unfolding after_fetch
  run_task table = after_fetch (fetch_func table (record { name = req.name; callback_node_id = 0 }))
