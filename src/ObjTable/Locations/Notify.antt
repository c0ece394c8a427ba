-- ===== src/ObjTable/Locations/Notify.antt =====
-- What NotifyOwns of go/cmd/gcsobjtable/main.go changes.
use babyray.Common.{
  ℕ, ◌≡◌, refl, ap, ◌&&◌, not, Option, none, some, List, [], ◌∷◌, ◌++◌, arith, ◌==◌, ==_iff,
  if◌then◌else◌,
}
use babyray.Common.Dict.{
  lookup, delete, or_else, is_some, IsDistinct, lookup-insert, lookup-delete, insert-IsDistinct,
}
use babyray.Wire.{NotifyOwnsRequest}
use babyray.ObjTable.Server.{GcsObjServer, Address, Callback}
use babyray.ObjTable.Locations.{callbacks_to, add_location, clear_waitlist, notify_owns}

-- What NotifyOwns must do, seen at the object `v`: the node joins the object's list; the size is
-- recorded if the object had no list; nobody generates it or waits for it any more; the other objects
-- and fields are unchanged; and each waiting client, in order, is called back with the node.
pub record Notified {D : Type 0} (s : GcsObjServer D) (req : NotifyOwnsRequest) (v : ℕ)
    (r : GcsObjServer D × List Callback) : Type 0 where
  pub locations : lookup v r.0.object_locations ≡ (
      if req.uid == v
      then some (or_else [] (lookup v s.object_locations) ++ req.node_id ∷ [])
      else lookup v s.object_locations)
  pub sizes : lookup v r.0.object_sizes ≡ (
      if req.uid == v && not (is_some (lookup v s.object_locations))
      then some req.object_size
      else lookup v s.object_sizes)
  pub generating : lookup v r.0.generating ≡ (if req.uid == v then none else lookup v s.generating)
  pub waitlist : lookup v r.0.waitlist ≡ (if req.uid == v then none else lookup v s.waitlist)
  pub database : r.0.database ≡ s.database
  pub lineage : r.0.lineage ≡ s.lineage
  pub live_nodes : r.0.live_nodes ≡ s.live_nodes
  pub sent : r.1 ≡ callbacks_to (or_else [] (lookup req.uid s.waitlist)) req.uid req.node_id

module _ {D : Type 0} where
  add_location-IsDistinct :
      (s : GcsObjServer D) (req : NotifyOwnsRequest) (o : Option (List ℕ))
      → IsDistinct s.object_locations
      → IsDistinct (add_location s req o).object_locations
  unfolding add_location
  add_location-IsDistinct s req none h = insert-IsDistinct req.uid _ s.object_locations h
  add_location-IsDistinct s req (some ns) h = insert-IsDistinct req.uid _ s.object_locations h

  module _ (s : GcsObjServer D) (req : NotifyOwnsRequest) (v : ℕ) where
    abbrev started : GcsObjServer D
    started = record s { generating = delete req.uid s.generating }

    added_sizes :
        (o : Option (List ℕ))
        → lookup req.uid s.object_locations ≡ o
        → lookup v (add_location started req o).object_sizes ≡ (
            if req.uid == v && not (is_some (lookup v s.object_locations))
            then some req.object_size
            else lookup v s.object_sizes)
    unfolding add_location
    added_sizes none e =
        ground (arith, ==_iff req.uid v, e, lookup-insert req.uid v req.object_size s.object_sizes)
    added_sizes (some ns) e = ground (arith, ==_iff req.uid v, e)

    added_locations :
        (o : Option (List ℕ))
        → lookup req.uid s.object_locations ≡ o
        → lookup v (add_location started req o).object_locations ≡ (
            if req.uid == v
            then some (or_else [] (lookup v s.object_locations) ++ req.node_id ∷ [])
            else lookup v s.object_locations)
    unfolding add_location
    added_locations none e =
        ground (
          arith,
          ==_iff req.uid v,
          e,
          lookup-insert req.uid v (req.node_id ∷ []) s.object_locations,
        )
    added_locations (some ns) e = ground (
      arith,
      ==_iff req.uid v,
      e,
      lookup-insert req.uid v (ns ++ req.node_id ∷ []) s.object_locations,
    )

    cleared :
        (o : Option (List ℕ)) (w : Option (List Address))
        → lookup req.uid s.object_locations ≡ o
        → lookup req.uid s.waitlist ≡ w
        → Notified s req v (clear_waitlist (add_location started req o) req w)
    unfolding clear_waitlist add_location
    cleared none none e f = record {
      locations = added_locations none e;
      sizes = added_sizes none e;
      generating = lookup-delete req.uid v s.generating;
      waitlist = ground (arith, ==_iff req.uid v, f);
      database = refl;
      lineage = refl;
      live_nodes = refl;
      sent = unfold callbacks_to in rw f;
    }
    cleared (some ns) none e f = record {
      locations = added_locations (some ns) e;
      sizes = added_sizes (some ns) e;
      generating = lookup-delete req.uid v s.generating;
      waitlist = ground (arith, ==_iff req.uid v, f);
      database = refl;
      lineage = refl;
      live_nodes = refl;
      sent = unfold callbacks_to in rw f;
    }
    cleared none (some ws) e f = record {
      locations = added_locations none e;
      sizes = added_sizes none e;
      generating = lookup-delete req.uid v s.generating;
      waitlist = lookup-delete req.uid v s.waitlist;
      database = refl;
      lineage = refl;
      live_nodes = refl;
      sent = rw f;
    }
    cleared (some ns) (some ws) e f = record {
      locations = added_locations (some ns) e;
      sizes = added_sizes (some ns) e;
      generating = lookup-delete req.uid v s.generating;
      waitlist = lookup-delete req.uid v s.waitlist;
      database = refl;
      lineage = refl;
      live_nodes = refl;
      sent = rw f;
    }

    -- NotifyOwns does what it must, at every object.
    pub notify_owns-Notified : Notified s req v (notify_owns s req)
    unfolding notify_owns
    notify_owns-Notified =
        cleared (lookup req.uid s.object_locations) (lookup req.uid s.waitlist) refl refl

-- The client that waits last is called back last.
pub callbacks_to-append :
    (waiting : List Address) (a : Address) (uid node : ℕ)
    → callbacks_to (waiting ++ a ∷ []) uid node
      ≡ callbacks_to waiting uid node
        ++ record { client_address = a; uid = uid; node_id = node } ∷ []
unfolding callbacks_to
callbacks_to-append [] a uid node = refl
callbacks_to-append (b ∷ waiting) a uid node =
    ap (λ cs. record { client_address = b; uid = uid; node_id = node } ∷ cs)
      (callbacks_to-append waiting a uid node)
