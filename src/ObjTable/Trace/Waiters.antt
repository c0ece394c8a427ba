-- ===== src/ObjTable/Trace/Waiters.antt =====
-- No waiting client of go/cmd/gcsobjtable/main.go is lost or answered twice, over any run.
use babyray.Common.{ℕ, ◌+◌, ◌≡◌, refl, ap, subst, Bool, List, [], ◌∷◌, ◌++◌, arith}
use babyray.Common.Integers.{ℤ}
use babyray.Wire.{NotifyOwnsRequest}
use babyray.ObjTable.Database.{Sql}
use babyray.ObjTable.Server.{GcsObjServer, Address, new_gcs_obj_server}
use babyray.ObjTable.Locations.Waiters.{
  count_if, answered, notify_owns-waiting_self, answered-append, waiting, notify_owns-waiting,
  request_location-waiting,
}
use babyray.ObjTable.Recovery.{register_lineage, register_live_nodes, register_generating}
use babyray.ObjTable.Recovery.Flush.{waitlist-flush_to_disk}
use babyray.Common.Dict.{lookup, or_else}
use babyray.ObjTable.Trace.{
  Call, notify, request, lineage, live_nodes, generating, flush, call, run, call_asks, run_asks,
}

module _ {D Tx E : Type 0} (q : Sql D Tx E) (port : ℤ) (p : Address → Bool) (u : ℕ) where
  call-waiting :
      (s : GcsObjServer D) (c : Call)
      → waiting p u (call q port s c).0 + answered p u (call q port s c).1
        ≡ waiting p u s + call_asks q port p u s c
  unfolding call call_asks answered
  call-waiting s (notify req) = omega (arith, notify_owns-waiting p u s req)
  call-waiting s (request intn peer req) = request_location-waiting p u q intn port s peer req
  call-waiting s (lineage req) = unfold register_lineage in ground arith
  call-waiting s (live_nodes req) = unfold register_live_nodes in ground arith
  call-waiting s (generating req) = unfold register_generating in ground arith
  call-waiting s flush =
      omega (arith, ap (λ w. count_if p (or_else [] (lookup u w))) (waitlist-flush_to_disk q s))

  run-waiting :
      (s : GcsObjServer D) (calls : List Call)
      → waiting p u (run q port s calls).0 + answered p u (run q port s calls).1
        ≡ waiting p u s + run_asks q port p u s calls
  unfolding run run_asks answered
  run-waiting s [] = omega arith
  run-waiting s (c ∷ cs) = omega (
    arith,
    call-waiting s c,
    run-waiting (call q port s c).0 cs,
    answered-append p u (call q port s c).1 (run q port (call q port s c).0 cs).1,
  )

  -- the state after a run and one more call
  run-append :
      (s : GcsObjServer D) (calls : List Call) (c : Call)
      → (run q port s (calls ++ c ∷ [])).0 ≡ (call q port (run q port s calls).0 c).0
  unfolding run
  run-append s [] c = refl
  run-append s (d ∷ ds) c = run-append (call q port s d).0 ds c

  -- Over any calls of the table's handlers and flushes, from an empty table over any database: for
  -- each set of addresses and each object, the callbacks sent and the entries that still wait are
  -- together as many as the requests that were answered without an error.
  pub run-answered :
      (db : D) (calls : List Call)
      → let (s, sent) = run q port (new_gcs_obj_server db) calls in
        answered p u sent + waiting p u s ≡ run_asks q port p u (new_gcs_obj_server db) calls
  unfolding lookup count_if
  run-answered db calls = omega (arith, run-waiting (new_gcs_obj_server db) calls, none_waits)
    where
      none_waits : waiting p u (new_gcs_obj_server db) ≡ 0
      none_waits = refl

  -- If the last of these calls is NotifyOwns for the object, every request for it that was answered
  -- without an error has had exactly one callback.
  pub run-answered_all :
      (db : D) (calls : List Call) (req : NotifyOwnsRequest)
      → req.uid ≡ u
      → let all = calls ++ notify req ∷ [] in
        answered p u (run q port (new_gcs_obj_server db) all).1
        ≡ run_asks q port p u (new_gcs_obj_server db) all
  run-answered_all db calls req e = omega (
    arith,
    run-answered db (calls ++ notify req ∷ []),
    ap (waiting p u) (run-append (new_gcs_obj_server db) calls (notify req)),
    subst (λ v. waiting p v (call q port last (notify req)).0 ≡ 0) e
        (unfold call in notify_owns-waiting_self p u last req),
  )
    where
      last : GcsObjServer D
      last = (run q port (new_gcs_obj_server db) calls).0
