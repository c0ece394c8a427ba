-- ===== src/ObjTable/Locations/Keeps.antt =====
-- What NotifyOwns and RequestLocation of go/cmd/gcsobjtable/main.go keep.
use babyray.Common.{
  ℕ, ◌≡◌, ◌∙◌, refl, Option, none, some, List, [], ◌∷◌, ◌++◌, Outcome, ok, err, arith,
}
use babyray.Common.Text.{Text}
use babyray.Common.Integers.{ℤ}
use babyray.Common.Dict.{lookup, delete, or_else, IsDistinct, insert-IsDistinct, delete-IsDistinct}
use babyray.Wire.{NotifyOwnsRequest, RequestLocationRequest}
use babyray.ObjTable.Database.{Sql}
use babyray.ObjTable.Server.{GcsObjServer, Address}
use babyray.ObjTable.Locations.{
  from_disk, from_cache, get_node_id, add_location, clear_waitlist, notify_owns, add_waiting,
  located, request_location, client_address,
}

-- Every map of the table is one: no key stands in two entries.
pub record IsWellFormed {D : Type 0} (s : GcsObjServer D) : Type 0 where
  pub object_locations : IsDistinct s.object_locations
  pub waitlist : IsDistinct s.waitlist
  pub object_sizes : IsDistinct s.object_sizes
  pub lineage : IsDistinct s.lineage
  pub live_nodes : IsDistinct s.live_nodes
  pub generating : IsDistinct s.generating

module _ {D : Type 0} where
  add_location-IsWellFormed :
      (s : GcsObjServer D) (req : NotifyOwnsRequest) (o : Option (List ℕ))
      → IsWellFormed s
      → IsWellFormed (add_location s req o)
  unfolding add_location
  add_location-IsWellFormed s req none w = assumption (
    insert-IsDistinct req.uid (req.node_id ∷ []) s.object_locations w.object_locations,
    insert-IsDistinct req.uid req.object_size s.object_sizes w.object_sizes,
  )
  add_location-IsWellFormed s req (some ns) w =
      assumption
        (insert-IsDistinct req.uid (ns ++ req.node_id ∷ []) s.object_locations w.object_locations)

  clear_waitlist-IsWellFormed :
      (s : GcsObjServer D) (req : NotifyOwnsRequest) (o : Option (List Address))
      → IsWellFormed s
      → IsWellFormed (clear_waitlist s req o).0
  unfolding clear_waitlist
  clear_waitlist-IsWellFormed s req none w = w
  clear_waitlist-IsWellFormed s req (some ws) w =
      assumption (delete-IsDistinct req.uid s.waitlist w.waitlist)

  pub notify_owns-IsWellFormed :
      (s : GcsObjServer D) (req : NotifyOwnsRequest)
      → IsWellFormed s
      → IsWellFormed (notify_owns s req).0
  unfolding notify_owns
  notify_owns-IsWellFormed s req w =
      let s' = record s { generating = delete req.uid s.generating } in
      clear_waitlist-IsWellFormed (add_location s' req (lookup req.uid s.object_locations)) req _ (
        add_location-IsWellFormed s' req _
          (assumption (delete-IsDistinct req.uid s.generating w.generating)))

  located-IsWellFormed :
      {E : Type 0} (uid : ℕ) (a : Address) (r : GcsObjServer D × Outcome E (Option ℕ))
      → IsWellFormed r.0
      → IsWellFormed (located uid a r).0
  unfolding located add_waiting
  located-IsWellFormed uid a (s, err e) w = w
  located-IsWellFormed uid a (s, ok none) w =
      assumption
        (insert-IsDistinct uid (or_else [] (lookup uid s.waitlist) ++ a ∷ []) s.waitlist w.waitlist)
  located-IsWellFormed uid a (s, ok (some n)) w = w

  from_disk-IsWellFormed :
      {E : Type 0} (intn : ℕ → ℕ) (s : GcsObjServer D) (uid : ℕ) (o : Outcome E (List ℕ))
      → IsWellFormed s
      → IsWellFormed (from_disk intn s uid o).0
  unfolding from_disk
  from_disk-IsWellFormed intn s uid (err e) w = w
  from_disk-IsWellFormed intn s uid (ok ns) w =
      assumption (insert-IsDistinct uid ns s.object_locations w.object_locations)

  from_cache-IsWellFormed :
      {Tx E : Type 0} (q : Sql D Tx E) (intn : ℕ → ℕ) (s : GcsObjServer D) (uid : ℕ) (ns : List ℕ)
      → IsWellFormed s
      → IsWellFormed (from_cache q intn s uid ns).0
  unfolding from_cache
  from_cache-IsWellFormed q intn s uid [] w = from_disk-IsWellFormed intn s uid _ w
  from_cache-IsWellFormed q intn s uid (n ∷ ns) w = w

  pub request_location-IsWellFormed :
      {Tx E : Type 0} (q : Sql D Tx E) (intn : ℕ → ℕ) (port : ℤ) (s : GcsObjServer D)
      (peer : Option Text) (req : RequestLocationRequest)
      → IsWellFormed s
      → IsWellFormed (request_location q intn port s peer req).0
  unfolding request_location get_node_id
  request_location-IsWellFormed q intn port s none req w = w
  request_location-IsWellFormed q intn port s (some peer) req w =
      located-IsWellFormed req.uid (client_address port peer) (get_node_id q intn s req.uid)
        (from_cache-IsWellFormed q intn s req.uid _ w)

  lineage-located :
      {E : Type 0} (uid : ℕ) (a : Address) (r : GcsObjServer D × Outcome E (Option ℕ))
      → (located uid a r).0.lineage ≡ r.0.lineage
  unfolding located add_waiting
  lineage-located uid a (s, err e) = refl
  lineage-located uid a (s, ok none) = refl
  lineage-located uid a (s, ok (some n)) = refl

  lineage-from_cache :
      {Tx E : Type 0} (q : Sql D Tx E) (intn : ℕ → ℕ) (s : GcsObjServer D) (uid : ℕ) (ns : List ℕ)
      → (from_cache q intn s uid ns).0.lineage ≡ s.lineage
  unfolding from_cache from_disk
  lineage-from_cache q intn s uid [] = ground arith
  lineage-from_cache q intn s uid (n ∷ ns) = refl

  pub lineage-request_location :
      {Tx E : Type 0} (q : Sql D Tx E) (intn : ℕ → ℕ) (port : ℤ) (s : GcsObjServer D)
      (peer : Option Text) (req : RequestLocationRequest)
      → (request_location q intn port s peer req).0.lineage ≡ s.lineage
  unfolding request_location get_node_id
  lineage-request_location q intn port s none req = refl
  lineage-request_location q intn port s (some peer) req =
      lineage-located req.uid (client_address port peer) (get_node_id q intn s req.uid)
      ∙ lineage-from_cache q intn s req.uid _

  locations-located :
      {E : Type 0} (uid : ℕ) (a : Address) (r : GcsObjServer D × Outcome E (Option ℕ))
      → (located uid a r).0.object_locations ≡ r.0.object_locations
  unfolding located add_waiting
  locations-located uid a (s, err e) = refl
  locations-located uid a (s, ok none) = refl
  locations-located uid a (s, ok (some n)) = refl

  pub locations-request_location :
      {Tx E : Type 0} (q : Sql D Tx E) (intn : ℕ → ℕ) (port : ℤ) (s : GcsObjServer D) (peer : Text)
      (req : RequestLocationRequest)
      → (request_location q intn port s (some peer) req).0.object_locations
        ≡ (get_node_id q intn s req.uid).0.object_locations
  unfolding request_location
  locations-request_location q intn port s peer req =
      locations-located req.uid (client_address port peer) (get_node_id q intn s req.uid)

  sizes-located :
      {E : Type 0} (uid : ℕ) (a : Address) (r : GcsObjServer D × Outcome E (Option ℕ))
      → (located uid a r).0.object_sizes ≡ r.0.object_sizes
  unfolding located add_waiting
  sizes-located uid a (s, err e) = refl
  sizes-located uid a (s, ok none) = refl
  sizes-located uid a (s, ok (some n)) = refl

  sizes-from_cache :
      {Tx E : Type 0} (q : Sql D Tx E) (intn : ℕ → ℕ) (s : GcsObjServer D) (uid : ℕ) (ns : List ℕ)
      → (from_cache q intn s uid ns).0.object_sizes ≡ s.object_sizes
  unfolding from_cache from_disk
  sizes-from_cache q intn s uid [] = ground arith
  sizes-from_cache q intn s uid (n ∷ ns) = refl

  pub sizes-request_location :
      {Tx E : Type 0} (q : Sql D Tx E) (intn : ℕ → ℕ) (port : ℤ) (s : GcsObjServer D) (peer : Text)
      (req : RequestLocationRequest)
      → (request_location q intn port s (some peer) req).0.object_sizes ≡ s.object_sizes
  unfolding request_location get_node_id
  sizes-request_location q intn port s peer req =
      sizes-located req.uid (client_address port peer) (get_node_id q intn s req.uid)
      ∙ sizes-from_cache q intn s req.uid _
