-- ===== src/ObjTable/Trace/Registering/Whole.antt =====
-- A run of whole calls of go/cmd/gcsobjtable/main.go is one of the runs in which the steps of
-- RegisterLineage stand apart.
use babyray.Common.{ℕ, ◌≡◌, refl, ap, false, some, List, [], ◌∷◌, Bool-cases, inl, inr}
use babyray.Common.Dict.{lookup, is_some}
use babyray.Common.Integers.{ℤ}
use babyray.Wire.{GlobalScheduleRequest}
use babyray.ObjTable.Database.{Sql}
use babyray.ObjTable.Server.{GcsObjServer}
use babyray.ObjTable.Recovery.{lineage_known, register_lineage}
use babyray.ObjTable.Trace.{
  Call, notify, request, lineage, live_nodes, generating, flush, call, run,
}
use babyray.ObjTable.Trace.Registering.{
  RegisterPc, writing, ended, Registering, after_test, enter, test, write, other_call,
  RegisterSteps, idle, and_then,
}
use babyray.ObjTable.Trace.Registering.Quiet.{RegisterSteps_keep_lineage}

module _ {D Tx E : Type 0} (q : Sql D Tx E) (port : ℤ) where
  steps_append :
      {s t u : Registering D}
      → RegisterSteps q port s t
      → RegisterSteps q port t u
      → RegisterSteps q port s u
  steps_append first idle = first
  steps_append first (and_then rest step) = and_then (steps_append first rest) step

  -- Some steps take the server from one state to another.
  abbrev Reaches : GcsObjServer D → List RegisterPc → GcsObjServer D → Type 0
  Reaches s ps s' =
      (ps' : List RegisterPc) × RegisterSteps q port (record { server = s; calls = ps })
        (record { server = s'; calls = ps' })

  -- A call that has been tested.
  tested :
      (s : GcsObjServer D) (ps : List RegisterPc) (req : GlobalScheduleRequest) (p : RegisterPc)
      → p ≡ after_test s req
      → RegisterSteps q port
          (record { server = s; calls = ps })
          (record { server = s; calls = p ∷ ps })
  tested s ps req p e =
      and_then (and_then idle (enter req refl))
        (test [] ps req refl (ap (λ p'. record { server = s; calls = p' ∷ ps }) e))

  lineage-Reaches :
      (s : GcsObjServer D) (ps : List RegisterPc) (req : GlobalScheduleRequest)
      → Reaches s ps (register_lineage {E = E} s req).0
  unfolding register_lineage after_test lineage_known
  lineage-Reaches s ps req = elim (Bool-cases (is_some (lookup req.uid s.lineage))) [
    | inl known ↦ rw known (_, tested s ps req (ended req false) (rw known refl))
    | inr fresh ↦
        rw fresh
          (_, and_then (tested s ps req (writing req) (rw fresh refl)) (write [] ps req refl refl))
  ]

  call-Reaches :
      (s : GcsObjServer D) (ps : List RegisterPc) (c : Call) → Reaches s ps (call q port s c).0
  unfolding call
  call-Reaches s ps (lineage req) = lineage-Reaches s ps req
  call-Reaches s ps (notify req) = (ps, and_then idle (other_call (notify req) tt refl))
  call-Reaches s ps (request intn peer req) =
      (ps, and_then idle (other_call (request intn peer req) tt refl))
  call-Reaches s ps (live_nodes req) = (ps, and_then idle (other_call (live_nodes req) tt refl))
  call-Reaches s ps (generating req) = (ps, and_then idle (other_call (generating req) tt refl))
  call-Reaches s ps flush = (ps, and_then idle (other_call flush tt refl))

  -- What whole calls reach, some steps reach.
  run-Reaches :
      (s : GcsObjServer D) (ps : List RegisterPc) (calls : List Call)
      → Reaches s ps (run q port s calls).0
  unfolding run
  run-Reaches s ps [] = (ps, idle)
  run-Reaches s ps (c ∷ cs) =
      let (ps', first) = call-Reaches s ps c in
      let (last, rest) = run-Reaches (call q port s c).0 ps' cs in (last, steps_append first rest)

  -- In a run of whole calls, the lineage that an object has is never lost or replaced.
  run_keeps_lineage :
      (s : GcsObjServer D) (calls : List Call) (u : ℕ) (r : GlobalScheduleRequest)
      → lookup u s.lineage ≡ some r
      → lookup u (run q port s calls).0.lineage ≡ some r
  run_keeps_lineage s calls u r h =
      RegisterSteps_keep_lineage q port u r h tt (run-Reaches s [] calls).1
