-- ===== src/ObjTable/Trace/Jammed.antt =====
-- A node that reports an object twice, and the flushes of go/cmd/gcsobjtable/main.go: the list of the
-- object has the node twice, and db.go inserts a row for each, against the table's primary key.
use babyray.Common.{
  All, ℕ, ◌+◌, ◌≤◌, ◌≡◌, refl, subst, ap, Option, none, some, Option-cases, inl, inr, List, [], ◌∷◌,
  ◌==◌, ==_iff, count, count-append, arith, Bool-cases,
}
use babyray.Common.Text.{Text}
use babyray.Common.Integers.{ℤ}
use babyray.Common.Dict.{lookup, or_else}
use babyray.Wire.{GlobalScheduleRequest, NotifyOwnsRequest, RequestLocationRequest}
use babyray.ObjTable.Database.{Sql, IsSql}
use babyray.ObjTable.Server.{GcsObjServer}
use babyray.ObjTable.Locations.{notify_owns, request_location, get_node_id}
use babyray.ObjTable.Locations.Found.{nodes_or_disk, ok_or, get_node_id-known_nodes}
use babyray.ObjTable.Locations.Keeps.{
  IsWellFormed, notify_owns-IsWellFormed, locations-request_location,
}
use babyray.ObjTable.Locations.Notify.{notify_owns-Notified}
use babyray.ObjTable.Recovery.{
  flush_to_disk, register_lineage, register_live_nodes, register_generating,
}
use babyray.ObjTable.Recovery.Flush.{Flushes, flush_to_disk-Flushes}
use babyray.ObjTable.Trace.{
  Call, notify, request, lineage, live_nodes, generating, flush, call, run,
}
use babyray.ObjTable.Trace.Invariant.{IsDecoded, call-IsWellFormed, run-IsWellFormed_of}

-- How often a node stands in the list of an object in memory.
abbrev pub times_held : {D : Type 0} → GcsObjServer D → ℕ → ℕ → ℕ
times_held s uid node = count node (or_else [] (lookup uid s.object_locations))

abbrev pub IsNoFlush : Call → Type 0
IsNoFlush flush = ⊥
IsNoFlush (notify _) = Unit
IsNoFlush (request _ _ _) = Unit
IsNoFlush (lineage _) = Unit
IsNoFlush (live_nodes _) = Unit
IsNoFlush (generating _) = Unit

abbrev pub report_of : (uid node size : ℕ) → NotifyOwnsRequest
report_of uid node size = record { uid = uid; node_id = node; object_size = size }

module _ {D : Type 0} (s : GcsObjServer D) (uid node : ℕ) where
  times_held-notify_owns :
      (req : NotifyOwnsRequest) → times_held s uid node ≤ times_held (notify_owns s req).0 uid node
  times_held-notify_owns req = ground (
    arith,
    (notify_owns-Notified s req uid).locations,
    count-append node (or_else [] (lookup uid s.object_locations)) (req.node_id ∷ []),
  )

  times_held-nodes_or_disk :
      {Tx E : Type 0} (q : Sql D Tx E) (u : ℕ) (ns : List ℕ)
      → count node ns ≤ count node (ok_or [] (nodes_or_disk q s u ns))
  unfolding count
  times_held-nodes_or_disk q u [] = omega arith
  times_held-nodes_or_disk q u (n ∷ ns) = omega arith

  times_held-get_node_id :
      {Tx E : Type 0} (q : Sql D Tx E) (intn : ℕ → ℕ) (u : ℕ)
      → times_held s uid node ≤ times_held (get_node_id q intn s u).0 uid node
  times_held-get_node_id q intn u = elim (Bool-cases (u == uid)) [
    | inl same ↦
        subst (λ w. times_held s w node ≤ times_held (get_node_id q intn s u).0 w node)
          ((==_iff u uid).0 same)
          (ground (
            arith,
            (get_node_id-known_nodes q intn s u u).1,
            times_held-nodes_or_disk q u (or_else [] (lookup u s.object_locations)),
          ))
    | inr other ↦ ground (arith, (get_node_id-known_nodes q intn s u uid).1, other)
  ]

  times_held-request_location :
      {Tx E : Type 0} (q : Sql D Tx E) (intn : ℕ → ℕ) (port : ℤ) (peer : Option Text)
      (req : RequestLocationRequest)
      → times_held s uid node ≤ times_held (request_location q intn port s peer req).0 uid node
  unfolding request_location
  times_held-request_location q intn port none req = omega arith
  times_held-request_location q intn port (some peer) req =
      rw (locations-request_location q intn port s peer req) (times_held-get_node_id q intn req.uid)

  pub locations-register_lineage :
      (E : Type 0) (req : GlobalScheduleRequest)
      → (register_lineage {E = E} s req).0.object_locations ≡ s.object_locations
  unfolding register_lineage
  locations-register_lineage E req = ground arith

module _ {D Tx E : Type 0} (q : Sql D Tx E) {rows : D → ℕ → ℕ → ℕ} (laws : IsSql q rows)
    (port : ℤ) where
  -- What a flush of a list with a node twice comes to.
  Flushes-fails :
      (s : GcsObjServer D) (r : GcsObjServer D × Option E) (uid node : ℕ)
      → 2 ≤ times_held s uid node
      → Flushes rows s r
      → ((e : E) × (r.1 ≡ some e)) × (r.0.object_locations ≡ s.object_locations)
  unfolding count
  Flushes-fails s (s', some e) uid node twice f =
      ((e, refl), ap (λ (t : GcsObjServer D). t.object_locations) f.0)
  Flushes-fails s (s', none) uid node twice f =
      elim (Option-cases (lookup uid s.object_locations)) [
        | inl gone ↦ absurd (ground (arith, gone))
        | inr (ns, here) ↦ absurd (ground (arith, here, (f.1 uid node).0, (f.1 uid node).1))
      ]

  flush_to_disk-fails :
      (s : GcsObjServer D) (uid node : ℕ)
      → IsWellFormed s
      → 2 ≤ times_held s uid node
      → ((e : E) × ((flush_to_disk q s).1 ≡ some e))
        × ((flush_to_disk q s).0.object_locations ≡ s.object_locations)
  flush_to_disk-fails s uid node w twice =
      Flushes-fails s (flush_to_disk q s) uid node twice
        (flush_to_disk-Flushes q laws s w.object_locations)

  -- A call that is not a flush takes no node out of a list.
  call-times_held_le :
      (s : GcsObjServer D) (c : Call) (uid node : ℕ)
      → IsNoFlush c
      → times_held s uid node ≤ times_held (call q port s c).0 uid node
  unfolding call
  call-times_held_le s (notify req) uid node other = times_held-notify_owns s uid node req
  call-times_held_le s (request intn peer req) uid node other =
      times_held-request_location s uid node q intn port peer req
  call-times_held_le s (lineage req) uid node other =
      rw (locations-register_lineage s uid node E req) (omega arith)
  call-times_held_le s (live_nodes req) uid node other = unfold register_live_nodes in (omega arith)
  call-times_held_le s (generating req) uid node other = unfold register_generating in (omega arith)
  call-times_held_le s flush uid node other = absurd other

  run-times_held_le :
      (s : GcsObjServer D) (calls : List Call) (uid node : ℕ)
      → All IsNoFlush calls
      → times_held s uid node ≤ times_held (run q port s calls).0 uid node
  unfolding run
  run-times_held_le s [] uid node other = omega arith
  run-times_held_le s (c ∷ cs) uid node other = omega (
    arith,
    call-times_held_le s c uid node other.0,
    run-times_held_le (call q port s c).0 cs uid node other.1,
  )

  call-times_held :
      (s : GcsObjServer D) (c : Call) (uid node : ℕ)
      → IsWellFormed s
      → 2 ≤ times_held s uid node
      → 2 ≤ times_held (call q port s c).0 uid node
  unfolding call
  call-times_held s flush uid node w twice = rw ((flush_to_disk-fails s uid node w twice).1) twice
  call-times_held s (notify req) uid node w twice =
      omega (arith, call-times_held_le s (notify req) uid node tt)
  call-times_held s (request intn peer req) uid node w twice =
      omega (arith, call-times_held_le s (request intn peer req) uid node tt)
  call-times_held s (lineage req) uid node w twice =
      omega (arith, call-times_held_le s (lineage req) uid node tt)
  call-times_held s (live_nodes req) uid node w twice =
      omega (arith, call-times_held_le s (live_nodes req) uid node tt)
  call-times_held s (generating req) uid node w twice =
      omega (arith, call-times_held_le s (generating req) uid node tt)

  run-fails :
      (s : GcsObjServer D) (calls : List Call) (uid node : ℕ)
      → All IsDecoded calls
      → IsWellFormed s
      → 2 ≤ times_held s uid node
      → (e : E) × ((flush_to_disk q (run q port s calls).0).1 ≡ some e)
  unfolding run
  run-fails s [] uid node d w twice = (flush_to_disk-fails s uid node w twice).0
  run-fails s (c ∷ cs) uid node d w twice =
      run-fails (call q port s c).0 cs uid node d.1 (call-IsWellFormed q port s c d.0 w)
        (call-times_held s c uid node w twice)

  -- A node that reports an object stands in its list once more.
  times_held-reported :
      (s : GcsObjServer D) (req : NotifyOwnsRequest)
      → times_held (notify_owns s req).0 req.uid req.node_id ≡ times_held s req.uid req.node_id + 1
  unfolding count
  times_held-reported s req = ground (
    arith,
    (notify_owns-Notified s req req.uid).locations,
    count-append req.node_id (or_else [] (lookup req.uid s.object_locations)) (req.node_id ∷ []),
  )

  -- Once a node has reported an object twice, with whatever sizes and with whatever calls but a flush
  -- in between, every flush fails, whatever calls follow.
  pub run-jammed :
      (s : GcsObjServer D) (uid node first_size second_size : ℕ) (between calls : List Call)
      → IsWellFormed s
      → All IsDecoded between
      → All IsNoFlush between
      → All IsDecoded calls
      → let once = (notify_owns s (report_of uid node first_size)).0 in
        let twice = (notify_owns (run q port once between).0 (report_of uid node second_size)).0 in
        (e : E) × ((flush_to_disk q (run q port twice calls).0).1 ≡ some e)
  run-jammed s uid node first_size second_size between calls w db no_flush d =
      let once = (notify_owns s (report_of uid node first_size)).0 in
      let last = (run q port once between).0 in
      let second = report_of uid node second_size in
      run-fails (notify_owns last second).0 calls uid node d
        (notify_owns-IsWellFormed last second (
          run-IsWellFormed_of q port once between db
            (notify_owns-IsWellFormed s (report_of uid node first_size) w)))
        (omega (
          arith,
          times_held-reported s (report_of uid node first_size),
          run-times_held_le once between uid node no_flush,
          times_held-reported last second,
        ))
