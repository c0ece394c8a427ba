-- ===== src/LocalScheduler/Routing.antt =====
-- `Schedule` of go/cmd/localscheduler/main.go: the task that is registered is the task that is run.
use babyray.Common.{
  All, ℕ, ◌%◌, ◌^◌, ◌<◌, ◌≡◌, refl, sym, ◌⊎◌, inl, inr, Bool, true, false, ◌&&◌, List, [], ◌∷◌,
  ◌++◌, ltb, ◌==◌, ==_iff, Bool-cases, if◌then◌else◌, Outcome, ok, err, arith,
}
use babyray.Wire.{ScheduleRequest, RunRequest, WorkerStatusResponse}
use babyray.GlobalScheduler.Schedule.{run_request}
use babyray.LocalScheduler.{
  LocalServer, SchedulerCall, register_lineage, register_generating, run, schedule_globally,
  scheduled, panicked, Routed, Surroundings, truncate_high_bit, lineage_request, run_locally,
  routed, by_status, schedule,
}

-- The runs that calls ask for: the local worker's, and those that the global scheduler asks a
-- worker for.
abbrev pub tasks : List SchedulerCall → List RunRequest
tasks [] = []
tasks (run r ∷ calls) = r ∷ tasks calls
tasks (schedule_globally g ∷ calls) = run_request g ∷ tasks calls
tasks (register_lineage g ∷ calls) = tasks calls
tasks (register_generating g ∷ calls) = tasks calls

abbrev pub runs_here : List SchedulerCall → Bool
runs_here [] = false
runs_here (run r ∷ calls) = true
runs_here (schedule_globally g ∷ calls) = runs_here calls
runs_here (register_lineage g ∷ calls) = runs_here calls
runs_here (register_generating g ∷ calls) = runs_here calls

-- The worker said that it runs fewer than ten tasks.
abbrev pub has_room : {F E : Type 0} → Outcome E (WorkerStatusResponse F) → Bool
has_room (err e) = false
has_room (ok w) = ltb w.num_running_tasks 10

-- What the global scheduler is asked carries the request's node and arguments, for a new object.
abbrev pub IsAsked : ScheduleRequest → SchedulerCall → Type 0
IsAsked req (schedule_globally g) =
    (g.node_id ≡ req.node_id) × (g.uids ≡ req.uids) × (g.new_object ≡ true)
IsAsked req (run r) = Unit
IsAsked req (register_lineage g) = Unit
IsAsked req (register_generating g) = Unit

abbrev pub task : ℕ → ScheduleRequest → RunRequest
task uid req = record { uid = uid; name = req.name; args = req.args; kwargs = req.kwargs }

pub record IsRouted {F E : Type 0} (around : Surroundings F E) (req : ScheduleRequest) (o : Routed)
    : Type 0 where
  pub uid : ℕ
  pub below : uid < 2 ^ 63
  pub registered : o.awaited ≡ register_lineage (lineage_request uid req) ∷ []
  pub ended :
      ((o.ending ≡ scheduled (record { uid = uid })) × (tasks o.started ≡ task uid req ∷ []))
      ⊎ ((o.ending ≡ panicked)
          × (o.started ≡ [])
          × (req.node_id ≡ 0)
          × ((e : E) × (around.worker_status ≡ err e)))
  pub placed : runs_here o.started ≡ ((req.node_id == 0) && has_room around.worker_status)
  pub asked : All (IsAsked req) o.started

module _ (s : LocalServer) (req : ScheduleRequest) where
  tasks-run_locally :
      (canceled : Bool) (uid : ℕ) → tasks (run_locally s canceled uid req) ≡ task uid req ∷ []
  unfolding run_locally
  tasks-run_locally true uid = refl
  tasks-run_locally false uid = refl

  runs_here-run_locally :
      (canceled : Bool) (uid : ℕ) → runs_here (run_locally s canceled uid req) ≡ true
  unfolding run_locally
  runs_here-run_locally true uid = refl
  runs_here-run_locally false uid = refl

  run_locally-IsAsked :
      (canceled : Bool) (uid : ℕ) → All (IsAsked req) (run_locally s canceled uid req)
  unfolding run_locally
  run_locally-IsAsked true uid = (tt, tt)
  run_locally-IsAsked false uid = (tt, (tt, tt))

module _ {F E : Type 0} (s : LocalServer) (req : ScheduleRequest) where
  by_status-IsRouted :
      (around : Surroundings F E) (o : Outcome E (WorkerStatusResponse F)) (uid : ℕ)
      → req.node_id ≡ 0
      → uid < 2 ^ 63
      → around.worker_status ≡ o
      → IsRouted around req (by_status s around.canceled uid req o)
  unfolding by_status routed
  by_status-IsRouted around (err e) uid here lt answer = record {
    uid = uid;
    below = lt;
    registered = refl;
    ended = inr (refl, refl, here, (e, answer));
    placed = rw answer (ground arith);
    asked = tt;
  }
  by_status-IsRouted around (ok w) uid here lt answer =
      elim (Bool-cases (ltb w.num_running_tasks 10)) [
        | inl room ↦ record {
          uid = uid;
          below = lt;
          registered = refl;
          ended = rw room (inl (refl, tasks-run_locally s req around.canceled uid));
          placed =
              rw answer
                (ground (arith, here, room, runs_here-run_locally s req around.canceled uid));
          asked = rw room (run_locally-IsAsked s req around.canceled uid);
        }
        | inr full ↦ record {
          uid = uid;
          below = lt;
          registered = refl;
          ended = rw full (inl (refl, refl));
          placed = rw answer (ground (arith, here, full));
          asked = rw full ((sym here, refl, refl), tt);
        }
      ]

  -- For every request and whatever the worker answers: the reply's uid is below 2 ^ 63; RegisterLineage
  -- got this uid with the request's name and arguments, and one run of exactly this task is asked for,
  -- of the worker itself exactly if the request names no node and the worker runs fewer than ten
  -- tasks, else of the global scheduler, with the node that the request names. Only where
  -- WorkerStatus is asked and fails, the handler panics, and no run is asked for.
  pub schedule-IsRouted : (around : Surroundings F E) → IsRouted around req (schedule s around req)
  unfolding schedule truncate_high_bit routed
  schedule-IsRouted around = elim (Bool-cases (req.node_id == 0)) [
    | inl here ↦ rw here (
        by_status-IsRouted around around.worker_status (around.random % 2 ^ 63)
          ((==_iff req.node_id 0).0 here) (omega arith) refl)
    | inr there ↦ record {
      uid = around.random % 2 ^ 63;
      below = omega arith;
      registered = rw there refl;
      ended = rw there (inl (refl, refl));
      placed = rw there refl;
      asked = rw there ((refl, refl, refl), tt);
    }
  ]

  -- The calls of a task that is run here, in their order.
  pub schedule_here :
      (around : Surroundings F E) (w : WorkerStatusResponse F)
      → req.node_id ≡ 0
      → around.worker_status ≡ ok w
      → w.num_running_tasks < 10
      → let uid = truncate_high_bit around.random in
        let runs = run (task uid req) ∷ [] in
        let o = schedule s around req in
        o.awaited ++ o.started ≡ (
          register_lineage (lineage_request uid req)
          ∷ (if around.canceled
              then runs
              else register_generating (record { uid = uid; node_id = s.local_node_id }) ∷ runs))
  unfolding schedule by_status run_locally routed
  schedule_here around w anywhere answer room =
      let few : ltb w.num_running_tasks 10 ≡ true = ground arith in
      rw anywhere (rw answer (rw few refl))

  pub tasks-schedule_here :
      (around : Surroundings F E) (w : WorkerStatusResponse F)
      → req.node_id ≡ 0
      → around.worker_status ≡ ok w
      → w.num_running_tasks < 10
      → tasks (schedule s around req).started ≡ task (truncate_high_bit around.random) req ∷ []
  unfolding schedule by_status routed
  tasks-schedule_here around w anywhere answer room =
      let few : ltb w.num_running_tasks 10 ≡ true = ground arith in
      rw anywhere (
        rw answer
          (rw few (tasks-run_locally s req around.canceled (truncate_high_bit around.random))))
