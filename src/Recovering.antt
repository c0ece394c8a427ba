-- ===== src/Recovering.antt =====
-- The local scheduler (go/cmd/localscheduler/main.go) and the object table
-- (go/cmd/gcsobjtable/main.go) together: what becomes of a task whose node is lost before it stored
-- its result.
pub mod Silence
mod Tests
use babyray.Common.{
  ℕ, ◌<◌, ◌≤◌, ◌≡◌, ◌⊎◌, refl, subst, ap, ◌∙◌, inl, inr, Bool, true, false, Option, none, some,
  List, [], ◌∷◌, ◌++◌, map, ltb, ◌==◌, ==_iff, if◌then◌else◌, elem, count, count-eq-zero,
  count-pos_of_elem, Bool-cases, Outcome, ok, err, arith,
}
use babyray.Common.Dict.{lookup, insert, or_else, is_some, lookup-insert, lookup-insert_self}
use babyray.Wire.{
  ScheduleRequest, GlobalScheduleRequest, LiveNodesRequest, RunRequest, WorkerStatusResponse,
  StatusResponse,
}
use babyray.ObjTable.Server.{GcsObjServer, ObjError, is_live}
use babyray.ObjTable.Recovery
use babyray.ObjTable.Recovery.{regenerate_list, register_live_nodes}
use babyray.ObjTable.Recovery.Lost.{
  IsLost, is_known, register_live_nodes-IsLost, register_lineage_new,
}
use babyray.LocalScheduler.Routing.{schedule_here, task, tasks, tasks-schedule_here}
use babyray.LocalScheduler.{
  LocalServer, SchedulerCall, register_lineage, register_generating, run, schedule_globally,
  Surroundings, schedule, truncate_high_bit, lineage_request,
}
use mathlib.Core.List.{Mem, mem-map_of_mem, mem-cons_self, mem-cons_of_mem}

module _ {D : Type 0} where
  -- What the object table makes of a call of the local scheduler; calls of others do not reach it.
  receive : GcsObjServer D → SchedulerCall → GcsObjServer D
  receive t (register_lineage g) = (Recovery.register_lineage {E = Unit} t g).0
  receive t (register_generating r) = Recovery.register_generating t r
  receive t (run r) = t
  receive t (schedule_globally g) = t

  unfoldable pub receive_all : GcsObjServer D → List SchedulerCall → GcsObjServer D
  unfolding receive
  receive_all t [] = t
  receive_all t (c ∷ calls) = receive_all (receive t c) calls

  -- The table after a request to the local scheduler of which all calls arrived.
  pub after_schedule :
      {F E : Type 0}
      → GcsObjServer D
      → LocalServer
      → Surroundings F E
      → ScheduleRequest
      → GcsObjServer D
  unfolding receive_all
  after_schedule t s around req =
      let o = schedule s around req in receive_all t (o.awaited ++ o.started)

  -- The table after a task that runs at the scheduler's own node.
  receive_local :
      (t : GcsObjServer D) (g : GlobalScheduleRequest) (node : ℕ) (canceled : Bool) (r : RunRequest)
      → lookup g.uid t.lineage ≡ none
      → receive_all t (
          register_lineage g
          ∷ (if canceled
              then run r ∷ []
              else register_generating (record { uid = g.uid; node_id = node }) ∷ run r ∷ []))
        ≡ record t {
          lineage = insert g.uid g t.lineage;
          generating = if canceled then t.generating else insert g.uid node t.generating;
        }
  unfolding receive_all receive Recovery.register_generating
  receive_local t g node true r h = register_lineage_new Unit t g h
  receive_local t g node false r h =
      ap (λ t'. Recovery.register_generating t' (record { uid = g.uid; node_id = node }))
        (register_lineage_new Unit t g h)

Mem-of_elem : (a : ℕ) (xs : List ℕ) → elem a xs ≡ true → Mem a xs
unfolding elem
Mem-of_elem a [] h = absurd (ground arith)
Mem-of_elem a (x ∷ xs) h = elim (Bool-cases (x == a)) [
  | inl same ↦ subst (λ b. Mem b (x ∷ xs)) ((==_iff x a).0 same) mem-cons_self
  | inr other ↦ mem-cons_of_mem x (Mem-of_elem a xs (ground (arith, h, other)))
]

elem_of_count : (a : ℕ) (xs : List ℕ) → count a xs ≡ 1 → elem a xs ≡ true
elem_of_count a xs h = elim (Bool-cases (elem a xs)) [
  | inl stands ↦ stands
  | inr other ↦ absurd (omega (arith, count-eq-zero a xs other))
]

le_one-cases : (n : ℕ) → n ≤ 1 → (n ≡ 0) ⊎ (n ≡ 1)
le_one-cases n h = ground arith

module _ {D F E : Type 0} (t : GcsObjServer D) (s : LocalServer) (around : Surroundings F E)
    (req : ScheduleRequest) (w : WorkerStatusResponse F) where
  after_schedule-here :
      req.node_id ≡ 0
      → around.worker_status ≡ ok w
      → w.num_running_tasks < 10
      → lookup (truncate_high_bit around.random) t.lineage ≡ none
      → let uid = truncate_high_bit around.random in
        after_schedule t s around req ≡ record t {
          lineage = insert uid (lineage_request uid req) t.lineage;
          generating =
              if around.canceled then t.generating else insert uid s.local_node_id t.generating;
        }
  unfolding after_schedule
  after_schedule-here anywhere answer room unused =
      let uid = truncate_high_bit around.random in
      ap (receive_all t) (schedule_here s req around w anywhere answer room)
      ∙ receive_local t (lineage_request uid req) s.local_node_id around.canceled (task uid req)
          unused

  -- The request names no node and the worker has room, so the task runs at the scheduler's node; the
  -- object's number is new to the table, and both calls of the table were made. If the node is not
  -- live when RegisterLiveNodes comes, the table sends the task's lineage to the global scheduler.
  pub register_live_nodes-after_schedule :
      (live : LiveNodesRequest)
      → req.node_id ≡ 0
      → around.worker_status ≡ ok w
      → w.num_running_tasks < 10
      → around.canceled ≡ false
      → lookup (truncate_high_bit around.random) t.lineage ≡ none
      → lookup (truncate_high_bit around.random) t.object_locations ≡ none
      → or_else false (lookup s.local_node_id live.live_nodes) ≡ false
      → Mem
          (some (lineage_request (truncate_high_bit around.random) req))
          (register_live_nodes (after_schedule t s around req) live).1
  unfolding is_live
  register_live_nodes-after_schedule live anywhere answer room arrived unused nowhere dead =
      let uid = truncate_high_bit around.random in
      let g = lineage_request uid req in
      let t' : GcsObjServer D = record t {
        lineage = insert uid g t.lineage;
        generating = insert uid s.local_node_id t.generating;
      } in
      let e : after_schedule t s around req ≡ t' =
        after_schedule-here anywhere answer room unused
        ∙ ap
            (λ c. record t {
              lineage = insert uid g t.lineage;
              generating = if c then t.generating else insert uid s.local_node_id t.generating;
            })
            arrived in
      let all = register_live_nodes-IsLost t' live uid in
      let lost : IsLost (record t' { live_nodes = live.live_nodes }) uid = record {
        known = rw (lookup-insert_self uid s.local_node_id t.generating) refl;
        maker = rw (lookup-insert_self uid s.local_node_id t.generating) dead;
        holders = rw nowhere tt;
      } in
      rw e (
        rw all.1 (
          subst
            (λ o. Mem o (
              map (λ u. lookup u t'.lineage)
                (regenerate_list (record t' { live_nodes = live.live_nodes }))))
            (lookup-insert_self uid g t.lineage)
            (mem-map_of_mem (λ u. lookup u t'.lineage)
              (Mem-of_elem uid _ (elem_of_count uid _ (all.3.1 lost))))))

  -- The request names no node and the worker has room, so the task runs at the scheduler's node; the
  -- object's number is new to the table; and the context of the request ended before
  -- RegisterGenerating was called. Then the worker is asked to run the task, and whatever nodes are
  -- live, the object is not on the list of those that RegisterLiveNodes has made again.
  pub count-canceled :
      (live : LiveNodesRequest)
      → req.node_id ≡ 0
      → around.worker_status ≡ ok w
      → w.num_running_tasks < 10
      → around.canceled ≡ true
      → lookup (truncate_high_bit around.random) t.lineage ≡ none
      → lookup (truncate_high_bit around.random) t.object_locations ≡ none
      → lookup (truncate_high_bit around.random) t.generating ≡ none
      → (tasks (schedule s around req).started ≡ task (truncate_high_bit around.random) req ∷ [])
        × (count (truncate_high_bit around.random) (
              regenerate_list
                (record (after_schedule t s around req) { live_nodes = live.live_nodes }))
            ≡ 0)
  count-canceled live anywhere answer room ended unused nowhere idle =
      let uid = truncate_high_bit around.random in
      let t' : GcsObjServer D = record t {
        lineage = insert uid (lineage_request uid req) t.lineage;
      } in
      let e : after_schedule t s around req ≡ t' =
        after_schedule-here anywhere answer room unused
        ∙ ap
            (λ c. record t {
              lineage = insert uid (lineage_request uid req) t.lineage;
              generating = if c then t.generating else insert uid s.local_node_id t.generating;
            })
            ended in
      let all = register_live_nodes-IsLost t' live uid in
      (
        tasks-schedule_here s req around w anywhere answer room,
        rw e
            (elim (le_one-cases
              (count uid (regenerate_list (record t' { live_nodes = live.live_nodes }))) all.2) [
                | inl none_left ↦ none_left
                | inr one ↦
                    absurd (let known = (all.3.0 one).known in ground (arith, known, nowhere, idle))
              ]),
      )
