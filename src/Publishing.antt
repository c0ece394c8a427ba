-- ===== src/Publishing.antt =====
-- The local object store (go/cmd/localobjstore/main.go) and the object table
-- (go/cmd/gcsobjtable/main.go) together: what becomes of an object that a node stores.
pub mod Delivery
mod Tests
use babyray.Common.{
  ℕ, ◌≡◌, refl, ap, sym, ◌∙◌, subst, ◌==◌, if◌then◌else◌, elem, Option, none, some, List, [], ◌∷◌,
  ◌++◌, Outcome, ok, err, length, arith,
}
use mathlib.Core.List.{append-nil}
use babyray.Common.Dict.{lookup, or_else}
use babyray.Wire.{Bytes, StoreRequest, StatusResponse, NotifyOwnsRequest, LocationByteTuple}
use babyray.ObjTable.Server.{GcsObjServer, Address, Callback}
use babyray.ObjTable.Locations.{callbacks_to, notify_owns}
use babyray.ObjTable.Locations.Notify.{notify_owns-Notified}
use babyray.ObjTable.Recovery.{get_object_locations}
use babyray.ObjTable.Recovery.Report.{get_object_locations-report}
use babyray.LocalObjStore.{ObjStore, StoreError, store, copy}
use babyray.LocalObjStore.SharedMemory.{System, IsSystem}
use babyray.LocalObjStore.Get.Holds.{Holds, Stores, store-Stores, IsCopy, copy-Copies}

-- The table after the announcements of a store have arrived, and the callbacks that it started.
unfoldable pub announce :
    {D : Type 0} → GcsObjServer D → List NotifyOwnsRequest → GcsObjServer D × List Callback
announce t [] = (t, [])
announce t (req ∷ reqs) =
    let (t', sent) = notify_owns t req in
    let (last, rest) = announce t' reqs in (last, sent ++ rest)

module _ {D : Type 0} (t : GcsObjServer D) (req : NotifyOwnsRequest) where
  -- The first announcement of an object is what GetObjectLocations reports.
  report-notify_owns :
      lookup req.uid t.object_locations ≡ none
      → lookup req.uid
          (get_object_locations (notify_owns t req).0 (record { args = req.uid ∷ [] })).locations
        ≡ some (record { locations = req.node_id ∷ []; bytes = req.object_size })
  unfolding elem
  report-notify_owns first = ground (
    arith,
    get_object_locations-report (notify_owns t req).0 req.uid (req.uid ∷ []),
    (notify_owns-Notified t req req.uid).locations,
    (notify_owns-Notified t req req.uid).sizes,
    first,
  )

module _ {M R E F D : Type 0} (sys : System M R E) (h : IsSystem sys) (s : ObjStore M F)
    (req : StoreRequest) (t : GcsObjServer D) where
  -- That the object is found, that who waits for it is called, and that it is there.
  pub record IsPublished (result : ObjStore M F × List NotifyOwnsRequest) (requester : ℕ)
      : Type 0 where
    pub located :
        lookup req.uid
          (get_object_locations (announce t result.1).0 (record { args = req.uid ∷ [] })).locations
        ≡ some (record { locations = s.local_node_id ∷ []; bytes = length req.object_bytes })
    pub called :
        (announce t result.1).1
        ≡ callbacks_to (or_else [] (lookup req.uid t.waitlist)) req.uid s.local_node_id
    pub copied :
        IsCopy req.object_bytes
          (copy sys result.0 (record { uid = req.uid; requester = requester })).1

  Stores-IsPublished :
      (r : ObjStore M F × List NotifyOwnsRequest × Outcome (StoreError E) StatusResponse)
      (reply : StatusResponse) (requester : ℕ)
      → r.2 ≡ ok reply
      → lookup req.uid t.object_locations ≡ none
      → Stores sys h s req r
      → IsPublished (r.0, r.1) requester
  unfolding announce
  Stores-IsPublished (s', sent, err e) reply requester success first stores =
      absurd (ground (arith, success))
  Stores-IsPublished (s', sent, ok st) reply requester success first stores =
      let announced : NotifyOwnsRequest = record {
        uid = req.uid;
        node_id = s.local_node_id;
        object_size = length req.object_bytes;
      } in
      record {
        located = rw stores.2 (report-notify_owns t announced first);
        called = rw stores.2 (append-nil _ ∙ (notify_owns-Notified t announced req.uid).sent);
        copied =
            (copy-Copies sys h s' (record { uid = req.uid; requester = requester })).1
              req.object_bytes stores.0;
      }

  -- When Store succeeds for an object that the table has no list for, and its announcement arrives:
  -- GetObjectLocations reports this node and the object's size, each client that waited for the
  -- object is called back with this node, and Copy at this node gives the stored bytes, or an error
  -- of the system.
  pub store-IsPublished :
      (reply : StatusResponse) (requester : ℕ)
      → (store sys s req).2 ≡ ok reply
      → lookup req.uid t.object_locations ≡ none
      → let (s', sent, o) = store sys s req in IsPublished (s', sent) requester
  store-IsPublished reply requester success first =
      Stores-IsPublished (store sys s req) reply requester success first (store-Stores sys h s req)
