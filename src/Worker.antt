-- ===== src/Worker.antt =====
-- go/cmd/worker/main.go: `Run`, one shared access at a time, the handlers that kill, revive and query
-- the worker, and any number of calls of them at once. The fetch of the function, its execution and
-- the store of its result are answered by the environment (executeFunction itself is in Execute); a
-- failed execution is log.Fatalf, which ends the process, so no step follows it.
pub mod Slots
pub mod Progress
pub mod Drained
pub mod Execute
mod Tests
use babyray.Common.{
  ℕ, ◌+◌, ◌-◌, ◌%◌, ◌^◌, ◌<◌, ◌≡◌, Bool, true, false, List, [], ◌∷◌, ◌++◌, Outcome, ok, err,
}
use babyray.Common.Float.{Float32}
use babyray.Wire.{Bytes, StatusResponse, status, RunRequest, WorkerStatusResponse}

abbrev pub max_concurrent_tasks : ℕ
max_concurrent_tasks = 10

-- The package's variables: the tasks in the channel `semaphore`, the two `uint32` counters, the
-- average; and the server's `alive`.
pub record Shared (F : Type 0) : Type 0 where
  pub slots : ℕ
  pub num_running_tasks : ℕ
  pub num_queued_tasks : ℕ
  pub average_running_time : F
  pub alive : Bool

-- How a call of Run ends: its reply or error, or runtime.Goexit with neither.
pub data Result (E : Type 0) : Type 0 where
  returned : Outcome E StatusResponse → Result E
  exited : Result E

-- Where a call of Run stands.
pub data Pc (E : Type 0) : Type 0 where
  called : RunRequest → Pc E
  queued : RunRequest → Pc E  -- at the send on `semaphore`
  admitted : RunRequest → Pc E
  fetching : RunRequest → Pc E
  executing : RunRequest → (func : Bytes) → Pc E
  executed : RunRequest → (output : Bytes) → Pc E
  storing : RunRequest → (output : Bytes) → Pc E
  stored : RunRequest → Pc E
  leaving : Result E → Pc E  -- at the deferred function
  releasing : Result E → Pc E  -- at the receive from `semaphore`
  done : Result E → Pc E

abbrev pub inc32 : ℕ → ℕ
inc32 n = (n + 1) % 2 ^ 32

abbrev pub dec32 : ℕ → ℕ
dec32 n = (n + 2 ^ 32 - 1) % 2 ^ 32

-- EMA_PARAM is 0.9; the constants are rounded to float32, as the quotients are.
unfoldable pub next_average : {F : Type 0} → Float32 F → F → F → F
next_average f average running =
    f.add (f.mul (f.div (f.of_uint 9) (f.of_uint 10)) average)
      (f.mul (f.div (f.of_uint 1) (f.of_uint 10)) running)

module _ {F : Type 0} (E : Type 0) (f : Float32 F) where
  -- One step of one call of Run.
  pub data Move (m : Shared F) : Pc E → Shared F → Pc E → Type 0 where
    enqueue :
        {req : RunRequest}
        → Move m
            (called req)
            (record m { num_queued_tasks = inc32 m.num_queued_tasks })
            (queued req)
    acquire :
        {req : RunRequest}
        → m.slots < max_concurrent_tasks
        → Move m (queued req) (record m { slots = m.slots + 1 }) (admitted req)
    start :
        {req : RunRequest}
        → Move m
            (admitted req)
            (record m {
              num_queued_tasks = dec32 m.num_queued_tasks;
              num_running_tasks = inc32 m.num_running_tasks;
            })
            (fetching req)
    fetch : {req : RunRequest} (func : Bytes) → Move m (fetching req) m (executing req func)
    fetch_failed : {req : RunRequest} (e : E) → Move m (fetching req) m (leaving (returned (err e)))
    execute :
        {req : RunRequest} {func : Bytes} (output : Bytes)
        → Move m (executing req func) m (executed req output)
    exit :
        {req : RunRequest} {output : Bytes}
        → m.alive ≡ false
        → Move m (executed req output) m (leaving exited)
    go_on :
        {req : RunRequest} {output : Bytes}
        → m.alive ≡ true
        → Move m (executed req output) m (storing req output)
    store : {req : RunRequest} {output : Bytes} → Move m (storing req output) m (stored req)
    store_failed :
        {req : RunRequest} {output : Bytes} (e : E)
        → Move m (storing req output) m (leaving (returned (err e)))
    average :
        {req : RunRequest} (running_time : F)
        → Move m
            (stored req)
            (record m { average_running_time = next_average f m.average_running_time running_time })
            (leaving (returned (ok (status true))))
    leave :
        {r : Result E}
        → Move m
            (leaving r)
            (record m { num_running_tasks = dec32 m.num_running_tasks })
            (releasing r)
    release :
        {r : Result E}
        → 0 < m.slots
        → Move m (releasing r) (record m { slots = m.slots - 1 }) (done r)

  pub record System : Type 0 where
    pub shared : Shared F
    pub calls : List (Pc E)

  -- The worker over time: a call begins, one of the calls moves, or KillServer or ReviveServer runs.
  pub data Step (s t : System) : Type 0 where
    call :
        (req : RunRequest)
        → t ≡ record { shared = s.shared; calls = called req ∷ s.calls }
        → Step s t
    move :
        (before after : List (Pc E)) {p p' : Pc E} {m : Shared F}
        → s.calls ≡ before ++ (p ∷ after)
        → Move s.shared p m p'
        → t ≡ record { shared = m; calls = before ++ (p' ∷ after) }
        → Step s t
    set_alive :
        (alive : Bool)
        → t ≡ record { shared = record (s.shared) { alive = alive }; calls = s.calls }
        → Step s t

  -- A worker that has started: no calls, and `averageRunningTime` is 0.1.
  abbrev pub initial : System
  initial = record {
    shared = record {
      slots = 0;
      num_running_tasks = 0;
      num_queued_tasks = 0;
      average_running_time = f.div (f.of_uint 1) (f.of_uint 10);
      alive = true;
    };
    calls = [];
  }

  pub data Reach : System → Type 0 where
    begin : Reach initial
    next : {s t : System} → Reach s → Step s t → Reach t

-- `WorkerStatus`
pub worker_status : {F : Type 0} → Shared F → WorkerStatusResponse F
worker_status m = record {
  num_running_tasks = m.num_running_tasks;
  num_queued_tasks = m.num_queued_tasks;
  average_running_time = m.average_running_time;
}
