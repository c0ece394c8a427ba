-- ===== src/GlobalScheduler/Schedule/Dispatch.antt =====
-- Where Schedule (go/cmd/globalscheduler/main.go) sends a task, and when it succeeds.
use babyray.Common.{
  ℕ, ◌≡◌, ◌≢◌, refl, ◌⊎◌, inl, inr, Bool, true, false, Option, none, some, List, [], ◌∷◌, ◌++◌,
  arith, ◌==◌, ==_iff, Outcome, ok, err, length, ltb, ◌&&◌, Bool-cases,
}
use babyray.Common.Float.{Float32, IsFloat32}
use babyray.Wire.{StatusResponse, status, GlobalScheduleRequest}
use babyray.GlobalScheduler.{Server}
use babyray.GlobalScheduler.Best.Minimal.{IsShuffle, IsChosen, get_best_worker-IsChosen}
use babyray.GlobalScheduler.Schedule.{
  Rpc, ask_locations, asked, register_generating, run, replied, World, after_run, run_request,
  worker_address, after_dial, send_to, target, schedule,
}

module _ {E : Type 0} (w : World E) (req : GlobalScheduleRequest) where
  after_run-replied :
      (o : Outcome E StatusResponse) (r : StatusResponse)
      → after_run o ≡ replied r
      → (r ≡ status true) × (a : StatusResponse) × (o ≡ ok a) × (a.success ≡ true)
  unfolding after_run
  after_run-replied (ok a) r h = (ground arith, a, refl, ground arith)
  after_run-replied (err e) r h = cc

  -- What a reply means: both calls were made, for one node, and the worker ran the task.
  abbrev pub Dispatched : ℕ → List Rpc → Type 0
  Dispatched node calls =
      (calls
        ≡ register_generating (record { uid = req.uid; node_id = node })
          ∷ run (worker_address w node) (run_request req)
          ∷ [])
      × (a : StatusResponse) × (w.run_reply (run_request req) ≡ ok a)
      × (a.success ≡ true)

  after_dial-Dispatched :
      (node : ℕ) (o : Option E) (r : StatusResponse)
      → (after_dial w req node o).1 ≡ replied r
      → Dispatched node (after_dial w req node o).0
  unfolding after_dial
  after_dial-Dispatched node (some e) r h = cc
  after_dial-Dispatched node none r h =
      let (_, a, ran, good) = after_run-replied (w.run_reply (run_request req)) r h in
      (refl, a, ran, good)

  send_to-Dispatched :
      (o : Option ℕ) (r : StatusResponse)
      → (send_to w req o).1 ≡ replied r
      → (node : ℕ) × (o ≡ some node) × Dispatched node (send_to w req o).0
  unfolding send_to
  send_to-Dispatched none r h = cc
  send_to-Dispatched (some node) r h = (node, refl, after_dial-Dispatched node _ r h)

-- Locality is asked for, and argument objects are named.
abbrev pub wants_locality : GlobalScheduleRequest → Bool
wants_locality req = req.locality_flag && ltb 0 (length req.uids)

-- The node that a request names, with no call before; or a best node for the estimate that
-- getBestWorker uses, where that is with locality after one call of GetObjectLocations for the
-- argument objects, and else with no call before.
abbrev pub IsTarget :
    {F E : Type 0}
    → Float32 F
    → ℕ
    → Server F
    → World E
    → GlobalScheduleRequest
    → List Rpc
    → ℕ
    → Type 0
IsTarget f now s w req before node =
    ((req.node_id ≢ 0) × (node ≡ req.node_id) × (before ≡ []))
    ⊎ ((req.node_id ≡ 0)
        × IsChosen f now s (wants_locality req) (w.locations (record { args = req.uids })) node
        × (((wants_locality req ≡ true)
              × (before ≡ ask_locations (record { args = req.uids }) ∷ []))
            ⊎ ((wants_locality req ≡ false) × (before ≡ []))))

module _ {F E : Type 0} (f : Float32 F) (laws : IsFloat32 f) (shuffle : List ℕ → List ℕ)
    (shuffles : IsShuffle shuffle) (now : ℕ) (s : Server F) (w : World E)
    (req : GlobalScheduleRequest) where
  asked_for :
      req.node_id ≡ 0
      → ((wants_locality req ≡ true)
          × (asked req ≡ ask_locations (record { args = req.uids }) ∷ []))
        ⊎ ((wants_locality req ≡ false) × (asked req ≡ []))
  unfolding asked
  asked_for zero' = elim (Bool-cases (wants_locality req)) [
    | inl locality ↦ inl (locality, ground (arith, zero', locality))
    | inr off ↦ inr (off, ground (arith, off))
  ]

  target-IsTarget :
      (node : ℕ)
      → target f shuffle now s w req ≡ some node
      → IsTarget f now s w req (asked req) node
  unfolding target asked
  target-IsTarget node e = elim (Bool-cases (req.node_id == 0)) [
    | inl zero' ↦ inr (
      (==_iff req.node_id 0).0 zero',
      get_best_worker-IsChosen f laws shuffle shuffles now s w.locations req.locality_flag req.uids
          node (ground arith),
      asked_for ((==_iff req.node_id 0).0 zero'),
    )
    | inr other ↦ inl (ground arith)
  ]

  -- When Schedule replies, it has made these calls, in this order, and no other: GetObjectLocations
  -- for the argument objects, only where the request names node 0, asks for locality and names
  -- argument objects; RegisterGenerating for the object at a node; and Run of the task at that node's
  -- worker, which answered with success. The node is the one that the request names or, where it names
  -- 0, a best one: for the queueing and transfer times where GetObjectLocations was asked, and for the
  -- queueing times else.
  pub schedule-Dispatched :
      (r : StatusResponse)
      → (schedule f shuffle now s w req).1 ≡ replied r
      → (before calls : List Rpc) × (node : ℕ) × ((schedule f shuffle now s w req).0
          ≡ before ++ calls)
        × IsTarget f now s w req before node
        × Dispatched w req node calls
  unfolding schedule
  schedule-Dispatched r h =
      let (node, e, d) = send_to-Dispatched w req (target f shuffle now s w req) r h in
      (asked req, _, node, refl, target-IsTarget node e, d)
