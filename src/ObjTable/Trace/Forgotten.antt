-- ===== src/ObjTable/Trace/Forgotten.antt =====
-- Locations and sizes that the table of go/cmd/gcsobjtable/main.go loses.
use babyray.Common.{
  ℕ, ◌≤◌, ◌≡◌, refl, sym, ap, subst, ◌∙◌, Option, none, some, Option-cases, inl, inr, false, List,
  [], ◌∷◌, ◌++◌, All, arith, ◌==◌, if◌then◌else◌, elem, count, Bool-cases, ok,
}
use mathlib.Core.List.{append_assoc, append-nil}
use babyray.Common.Text.{Text}
use babyray.Common.Integers.{ℤ}
use babyray.Common.Dict.{lookup, or_else}
use babyray.Wire.{RequestLocationRequest}
use babyray.ObjTable.Database.{Sql, IsSql}
use babyray.ObjTable.Server.{GcsObjServer}
use babyray.ObjTable.Locations.{notify_owns, request_location}
use babyray.ObjTable.Locations.Found.{known_nodes, get_node_id-known_nodes, get_node_id-missed}
use babyray.ObjTable.Locations.Notify.{notify_owns-Notified}
use babyray.ObjTable.Locations.Keeps.{
  IsWellFormed, locations-request_location, sizes-request_location,
}
use babyray.ObjTable.Recovery.{
  flush_to_disk, get_object_locations, register_live_nodes, register_generating,
}
use babyray.ObjTable.Recovery.Flush.{Flushes, flush_to_disk-Flushes}
use babyray.ObjTable.Recovery.Report.{get_object_locations-report}
use babyray.ObjTable.Trace.{
  Call, notify, request, lineage, live_nodes, generating, flush, call, run,
}
use babyray.ObjTable.Trace.Invariant.{IsDecoded, run-IsWellFormed_of}
use babyray.ObjTable.Trace.Jammed.{report_of, locations-register_lineage}

module _ {D Tx E : Type 0} (q : Sql D Tx E) (intn : ℕ → ℕ) (port : ℤ) where
  -- Of an object no node is known, in memory or on disk, and no size: RequestLocation looks for it,
  -- and the next call reports it with whatever size. GetObjectLocations then reports its node and 0
  -- bytes.
  pub size_lost :
      (s : GcsObjServer D) (peer : Text) (uid requester node size : ℕ)
      → known_nodes q s uid ≡ ok []
      → lookup uid s.object_sizes ≡ none
      → let looked =
          (request_location q intn port s
            (some peer)
            (record { uid = uid; requester = requester })).0 in
        let made = (notify_owns looked (report_of uid node size)).0 in
        lookup uid (get_object_locations made (record { args = uid ∷ [] })).locations
        ≡ some (record { locations = node ∷ []; bytes = 0 })
  unfolding elem
  size_lost s peer uid requester node size unknown unsized =
      let req : RequestLocationRequest = record { uid = uid; requester = requester } in
      let looked = (request_location q intn port s (some peer) req).0 in
      let empty : lookup uid looked.object_locations ≡ some [] =
        ap (lookup uid) (locations-request_location q intn port s peer req)
        ∙ get_node_id-missed q intn s uid unknown in
      let no_size : lookup uid looked.object_sizes ≡ none =
        ap (lookup uid) (sizes-request_location q intn port s peer req) ∙ unsized in
      let report = report_of uid node size in
      ground (
        arith,
        empty,
        no_size,
        get_object_locations-report (notify_owns looked report).0 uid (uid ∷ []),
        (notify_owns-Notified looked report uid).locations,
        (notify_owns-Notified looked report uid).sizes,
      )

-- The nodes that report an object in some calls, in their order.
abbrev pub reported : ℕ → List Call → List ℕ
reported u [] = []
reported u (notify req ∷ cs) = (if req.uid == u then req.node_id ∷ [] else []) ++ reported u cs
reported u (request _ _ _ ∷ cs) = reported u cs
reported u (lineage _ ∷ cs) = reported u cs
reported u (live_nodes _ ∷ cs) = reported u cs
reported u (generating _ ∷ cs) = reported u cs
reported u (flush ∷ cs) = reported u cs

-- Neither a flush nor a look for the object.
abbrev pub IsApart : ℕ → Call → Type 0
IsApart u flush = ⊥
IsApart u (request _ _ req) = (req.uid == u) ≡ false
IsApart u (notify _) = Unit
IsApart u (lineage _) = Unit
IsApart u (live_nodes _) = Unit
IsApart u (generating _) = Unit

-- What memory has of an object.
abbrev held : {D : Type 0} → ℕ → GcsObjServer D → List ℕ
held u s = or_else [] (lookup u s.object_locations)

module _ {D Tx E : Type 0} (q : Sql D Tx E) (port : ℤ) (u : ℕ) where
  held-request_location :
      (s : GcsObjServer D) (intn : ℕ → ℕ) (peer : Option Text) (req : RequestLocationRequest)
      → (req.uid == u) ≡ false
      → held u (request_location q intn port s peer req).0 ≡ held u s
  unfolding request_location
  held-request_location s intn none req other = refl
  held-request_location s intn (some peer) req other =
      ap (λ m. or_else [] (lookup u m)) (locations-request_location q intn port s peer req)
      ∙ ground (arith, (get_node_id-known_nodes q intn s req.uid u).1, other)

  held-call :
      (s : GcsObjServer D) (c : Call)
      → IsApart u c
      → held u (call q port s c).0 ≡ held u s ++ reported u (c ∷ [])
  unfolding call
  held-call s (notify req) apart = elim (Bool-cases (req.uid == u)) [
    | inl same ↦ rw same (ground (arith, same, (notify_owns-Notified s req u).locations))
    | inr other ↦ rw other (
        ground (arith, other, (notify_owns-Notified s req u).locations)
        ∙ sym (append-nil (held u s)))
  ]
  held-call s (request intn peer req) apart =
      held-request_location s intn peer req apart ∙ sym (append-nil (held u s))
  held-call s (lineage req) apart =
      ap (λ m. or_else [] (lookup u m)) (locations-register_lineage s u 0 E req)
      ∙ sym (append-nil (held u s))
  held-call s (live_nodes req) apart = unfold register_live_nodes in (sym (append-nil (held u s)))
  held-call s (generating req) apart = unfold register_generating in (sym (append-nil (held u s)))
  held-call s flush apart = absurd apart

  reported_cons :
      (c : Call) (cs : List Call) → reported u (c ∷ cs) ≡ reported u (c ∷ []) ++ reported u cs
  reported_cons (notify req) cs =
      ap (λ ns. ns ++ reported u cs)
        (sym (append-nil (if req.uid == u then req.node_id ∷ [] else [])))
  reported_cons (request intn peer req) cs = refl
  reported_cons (lineage req) cs = refl
  reported_cons (live_nodes req) cs = refl
  reported_cons (generating req) cs = refl
  reported_cons flush cs = refl

  held-run :
      (s : GcsObjServer D) (calls : List Call)
      → All (IsApart u) calls
      → held u (run q port s calls).0 ≡ held u s ++ reported u calls
  unfolding run
  held-run s [] apart = sym (append-nil (held u s))
  held-run s (c ∷ cs) apart =
      held-run (call q port s c).0 cs apart.1
      ∙ ap (λ ns. ns ++ reported u cs) (held-call s c apart.0)
      ∙ append_assoc (held u s) (reported u (c ∷ [])) (reported u cs)
      ∙ ap (λ ns. held u s ++ ns) (sym (reported_cons c cs))

module _ {D Tx E : Type 0} (q : Sql D Tx E) {rows : D → ℕ → ℕ → ℕ} (laws : IsSql q rows)
    (port : ℤ) where
  Flushes-rows :
      (s : GcsObjServer D) (r : GcsObjServer D × Option E) (u n m : ℕ) (ms : List ℕ)
      → r.1 ≡ none
      → held u s ≡ m ∷ ms
      → Flushes rows s r
      → rows r.0.database u n ≡ count n (m ∷ ms)
  Flushes-rows s (s', none) u n m ms e h f = elim (Option-cases (lookup u s.object_locations)) [
    | inl gone ↦ absurd (ground (arith, gone, h))
    | inr (ns, here) ↦ ground (arith, (f.1 u n).0, here, h)
  ]
  Flushes-rows s (s', some x) u n m ms e h f = cc

  -- An object that is not in memory, as after each flush, is then reported by one node or more, in
  -- whatever calls without a flush or a RequestLocation for it. If a flush comes next and succeeds, the
  -- database has for the object the nodes that reported it since, each once, and no other: what it had
  -- before is deleted.
  pub flush_forgets :
      (s : GcsObjServer D) (calls : List Call) (u m : ℕ) (ms : List ℕ) (n : ℕ)
      → IsWellFormed s
      → lookup u s.object_locations ≡ none
      → All IsDecoded calls
      → All (IsApart u) calls
      → reported u calls ≡ m ∷ ms
      → (flush_to_disk q (run q port s calls).0).1 ≡ none
      → (rows (flush_to_disk q (run q port s calls).0).0.database u n ≡ count n (m ∷ ms))
        × (count n (m ∷ ms) ≤ 1)
  flush_forgets s calls u m ms n w gone decoded apart since flushed =
      let last = (run q port s calls).0 in
      let now : held u last ≡ m ∷ ms =
        held-run q port u s calls apart ∙ ap (λ o. or_else [] o ++ reported u calls) gone ∙ since in
      let flushes =
        flush_to_disk-Flushes q laws last
          (run-IsWellFormed_of q port s calls decoded w).object_locations in
      let kept = Flushes-rows last (flush_to_disk q last) u n m ms flushed now flushes in
      (kept, subst (λ k. k ≤ 1) kept (few last (flush_to_disk q last) flushed flushes))
    where
      few :
          (s : GcsObjServer D) (r : GcsObjServer D × Option E)
          → r.1 ≡ none
          → Flushes rows s r
          → rows r.0.database u n ≤ 1
      few s (s', none) e f = (f.1 u n).1
      few s (s', some x) e f = cc
