-- ===== src/Tasks/Steps.antt =====
-- A task is run by the steps that Run of go/cmd/worker/main.go takes among other calls.
use babyray.Common.{ℕ, List, Bool, true, false, Option, none, some, Outcome, ok, err, ◌≡◌, refl}
use babyray.Common.Float.{Float32}
use babyray.Wire.{Bytes, RunRequest, StatusResponse, NotifyOwnsRequest, FetchResponse}
use babyray.FuncTable.{GcsFuncServer, FuncError}
use babyray.LocalObjStore.{ObjStore, StoreError, store}
use babyray.LocalObjStore.SharedMemory.{System}
use babyray.Worker.Execute.{execute_function}
use babyray.Worker
use babyray.Worker.{
  Shared, Result, Pc, Move, fetch, fetch_failed, execute, exit, go_on, store_failed, average,
}
use babyray.Tasks.{
  TaskError, fetching, storing, store_output, after_store, after_execute, after_fetch, run_task,
}

module _ {M R E F : Type 0} (sys : System M R E) (f : Float32 F)
    (process : List ℕ → Option (List ℕ)) (s : ObjStore M F) (req : RunRequest) where
  -- Steps of one call of Run.
  data Moves (m : Shared F) (p : Pc (TaskError E)) : Shared F → Pc (TaskError E) → Type 0 where
    here : Moves m p m p
    then_moves :
        {m' m'' : Shared F} {p' p'' : Pc (TaskError E)}
        → Moves m p m' p'
        → Move (TaskError E) f m' p' m'' p''
        → Moves m p m'' p''

  -- The call comes to its deferred function with this result; where it is log.Fatalf, it stays before
  -- the end of the execution.
  abbrev MovesTo : Shared F → Pc (TaskError E) → Option (Result (TaskError E)) → Type 0
  MovesTo m p none = (func : Bytes) × Moves m p m (Worker.executing req func)
  MovesTo m p (some r) = (m' : Shared F) × Moves m p m' (Worker.leaving r)

  module _ (m : Shared F) where
    after_store-MovesTo :
        (output : Bytes)
        (r : ObjStore M F × List NotifyOwnsRequest × Outcome (StoreError E) StatusResponse)
        → Moves m (Worker.fetching req) m (Worker.storing req output)
        → MovesTo m (Worker.fetching req) (after_store r).2
    unfolding after_store
    after_store-MovesTo output (s', sent, err e) moves =
        (m, then_moves moves (store_failed (storing e)))
    after_store-MovesTo output (s', sent, ok reply) moves =
        (_, then_moves (then_moves moves Worker.store) (average (f.of_uint 0)))

    after_execute-MovesTo :
        (alive : Bool) (func : Bytes) (o : Option Bytes)
        → m.alive ≡ alive
        → Moves m (Worker.fetching req) m (Worker.executing req func)
        → MovesTo m (Worker.fetching req) (after_execute sys process alive s req o).2
    unfolding after_execute
    after_execute-MovesTo alive func none is_alive moves = (func, moves)
    after_execute-MovesTo true func (some output) is_alive moves =
        after_store-MovesTo output (store sys s (store_output req output))
          (then_moves (then_moves moves (execute output)) (go_on is_alive))
    after_execute-MovesTo false func (some output) is_alive moves =
        (m, then_moves (then_moves moves (execute output)) (exit is_alive))

    after_fetch-MovesTo :
        (o : Outcome FuncError FetchResponse)
        → MovesTo m (Worker.fetching req) (after_fetch sys process m.alive s req o).2
    unfolding after_fetch
    after_fetch-MovesTo (err e) = (m, then_moves here (fetch_failed (fetching e)))
    after_fetch-MovesTo (ok r) =
        after_execute-MovesTo m.alive r.serialized_func
          (execute_function process r.serialized_func req.args req.kwargs) refl
          (then_moves here (fetch r.serialized_func))

    -- The end of a task is one that Run reaches, step by step, from its fetch on.
    run_task-MovesTo :
        (table : GcsFuncServer)
        → MovesTo m (Worker.fetching req) (run_task sys process m.alive s req table).2
    unfolding run_task
    run_task-MovesTo table = after_fetch-MovesTo _
