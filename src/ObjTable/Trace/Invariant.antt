-- ===== src/ObjTable/Trace/Invariant.antt =====
-- What every call of go/cmd/gcsobjtable/main.go keeps.
use babyray.Common.{refl, ◌≡◌, ap, List, All, subst, sym, [], ◌∷◌, Bool-cases, inl, inr}
use babyray.Common.Integers.{ℤ}
use babyray.Common.Dict.{lookup, is_some, IsDistinct, insert-IsDistinct}
use babyray.Wire.{GlobalScheduleRequest}
use babyray.ObjTable.Database.{Sql}
use babyray.ObjTable.Server.{GcsObjServer, new_gcs_obj_server}
use babyray.ObjTable.Locations.Notify.{notify_owns-Notified}
use babyray.ObjTable.Locations.Keeps.{
  IsWellFormed, notify_owns-IsWellFormed, request_location-IsWellFormed, lineage-request_location,
}
use babyray.ObjTable.Recovery.{
  register_lineage, register_live_nodes, register_generating, flush_to_disk,
}
use babyray.ObjTable.Recovery.Flush.{flush_to_disk-fields, flush_to_disk-IsDistinct}
use babyray.ObjTable.Trace.Registering.{IsOneStep}
use babyray.ObjTable.Trace.{
  Call, notify, request, lineage, live_nodes, generating, flush, call, run,
}

-- A decoded message holds a map with no key twice.
abbrev pub IsDecoded : Call → Type 0
IsDecoded (live_nodes req) = IsDistinct req.live_nodes
IsDecoded (notify _) = Unit
IsDecoded (request _ _ _) = Unit
IsDecoded (lineage _) = Unit
IsDecoded (generating _) = Unit
IsDecoded flush = Unit

module _ {D Tx E : Type 0} (q : Sql D Tx E) (port : ℤ) where
  register_lineage-IsWellFormed :
      (s : GcsObjServer D) (req : GlobalScheduleRequest)
      → IsWellFormed s
      → IsWellFormed (register_lineage {E = E} s req).0
  unfolding register_lineage
  register_lineage-IsWellFormed s req w = elim (Bool-cases (is_some (lookup req.uid s.lineage))) [
    | inl known ↦ rw known w
    | inr fresh ↦ rw fresh (assumption (insert-IsDistinct req.uid req s.lineage w.lineage))
  ]

  pub lineage-call :
      (s : GcsObjServer D) (c : Call) → IsOneStep c → (call q port s c).0.lineage ≡ s.lineage
  unfolding call
  lineage-call s (notify req) one = (notify_owns-Notified s req 0).lineage
  lineage-call s (request intn peer req) one = lineage-request_location q intn port s peer req
  lineage-call s (lineage req) one = absurd one
  lineage-call s (live_nodes req) one = unfold register_live_nodes in refl
  lineage-call s (generating req) one = unfold register_generating in refl
  lineage-call s flush one =
      let (db, m, e) = flush_to_disk-fields q s in ap (λ (t : GcsObjServer D). t.lineage) e

  flush-IsWellFormed : (s : GcsObjServer D) → IsWellFormed s → IsWellFormed (flush_to_disk q s).0
  flush-IsWellFormed s w =
      let (db, m, e) = flush_to_disk-fields q s in
      let d : IsDistinct m =
        subst (λ (t : GcsObjServer D). IsDistinct t.object_locations) e
          (flush_to_disk-IsDistinct q s w.object_locations) in
      subst IsWellFormed (sym e) (assumption d)

  pub call-IsWellFormed :
      (s : GcsObjServer D) (c : Call)
      → IsDecoded c
      → IsWellFormed s
      → IsWellFormed (call q port s c).0
  unfolding call
  call-IsWellFormed s (notify req) d w = notify_owns-IsWellFormed s req w
  call-IsWellFormed s (request intn peer req) d w =
      request_location-IsWellFormed q intn port s peer req w
  call-IsWellFormed s (lineage req) d w = register_lineage-IsWellFormed s req w
  call-IsWellFormed s (live_nodes req) d w = unfold register_live_nodes in (assumption d)
  call-IsWellFormed s (generating req) d w =
      unfold register_generating in
      (assumption (insert-IsDistinct req.uid req.node_id s.generating w.generating))
  call-IsWellFormed s flush d w = flush-IsWellFormed s w

  pub run-IsWellFormed_of :
      (s : GcsObjServer D) (calls : List Call)
      → All IsDecoded calls
      → IsWellFormed s
      → IsWellFormed (run q port s calls).0
  unfolding run
  run-IsWellFormed_of s [] d w = w
  run-IsWellFormed_of s (c ∷ cs) d w =
      run-IsWellFormed_of (call q port s c).0 cs d.1 (call-IsWellFormed s c d.0 w)

  -- After any calls with decoded messages and any flushes, from an empty table over any database,
  -- every map of the table has each key once.
  pub run-IsWellFormed :
      (db : D) (calls : List Call)
      → All IsDecoded calls
      → IsWellFormed (run q port (new_gcs_obj_server db) calls).0
  run-IsWellFormed db calls d = run-IsWellFormed_of (new_gcs_obj_server db) calls d (record {
    object_locations = tt;
    waitlist = tt;
    object_sizes = tt;
    lineage = tt;
    live_nodes = tt;
    generating = tt;
  })
