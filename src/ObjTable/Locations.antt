-- ===== src/ObjTable/Locations.antt =====
-- go/cmd/gcsobjtable/main.go: `getNodeId`, `NotifyOwns` and `RequestLocation`.
pub mod Found
pub mod Waiters
pub mod Notify
pub mod Keeps
pub mod Answers
mod Tests
use babyray.Common.{
  ℕ, true, false, Option, none, some, List, [], ◌∷◌, ◌++◌, String, Outcome, ok, err, get_or, keep,
  length, not,
}
use babyray.Common.Text.{Text}
use babyray.Common.Integers.{ℤ, format_int}
use babyray.Common.Net.{split_host_port, join_host_port}
use babyray.Common.Dict.{lookup, insert, delete, or_else}
use babyray.Wire.{NotifyOwnsRequest, RequestLocationRequest, RequestLocationResponse}
use babyray.ObjTable.Database
use babyray.ObjTable.Server.{
  GcsObjServer, Address, Callback, ObjError, no_peer, no_node_id, is_live,
}
use babyray.ObjTable.Database.{Sql, insert_or_update_object_locations}

-- `rand.Intn` of the length picks one.
pub pick_node : (ℕ → ℕ) → List ℕ → Option ℕ
pick_node intn [] = none
pick_node intn (n ∷ ns) = some (get_or (n ∷ ns) (intn (length (n ∷ ns))) n)

pub callbacks_to : List Address → ℕ → ℕ → List Callback
callbacks_to [] uid node = []
callbacks_to (a ∷ as') uid node =
    record { client_address = a; uid = uid; node_id = node } ∷ callbacks_to as' uid node

-- The host of a split address; an address that does not split is the host as a whole.
host_or_all : Text → Option (Text × Text) → Text
host_or_all peer none = peer
host_or_all peer (some (host, port)) = host

unfoldable pub client_address : ℤ → Text → Address
unfolding host_or_all
client_address port peer =
    join_host_port (host_or_all peer (split_host_port peer)) (format_int port)

abbrev pub LocationReply : Type 0 → Type 0 → Type 0
LocationReply D E = GcsObjServer D × List Callback × Outcome (ObjError E) RequestLocationResponse

module _ {D : Type 0} where
  -- `nodesToReturn`: made with length one, so node 0 stands first.
  pub nodes_to_return : GcsObjServer D → List ℕ → List ℕ
  unfolding is_live
  nodes_to_return s node_ids = 0 ∷ keep (λ n. not (is_live s n)) node_ids

  -- The slice is `nodeIds` once it is not empty.
  found_nodes : (ℕ → ℕ) → GcsObjServer D → List ℕ → Option ℕ
  unfolding nodes_to_return pick_node
  found_nodes intn s [] = none
  found_nodes intn s (n ∷ ns) = pick_node intn (nodes_to_return s (n ∷ ns))

  -- What the disk has goes into the cache, also when it is empty.
  from_disk :
      {E : Type 0}
      → (ℕ → ℕ)
      → GcsObjServer D
      → ℕ
      → Outcome E (List ℕ)
      → GcsObjServer D × Outcome E (Option ℕ)
  unfolding found_nodes
  from_disk intn s uid (err e) = (s, err e)
  from_disk intn s uid (ok ns) =
      (record s { object_locations = insert uid ns s.object_locations }, ok (found_nodes intn s ns))

  -- A missing entry and an empty one are both a miss.
  from_cache :
      {Tx E : Type 0}
      → Sql D Tx E
      → (ℕ → ℕ)
      → GcsObjServer D
      → ℕ
      → List ℕ
      → GcsObjServer D × Outcome E (Option ℕ)
  unfolding from_disk
  from_cache q intn s uid [] = from_disk intn s uid (Database.get_object_locations q s.database uid)
  from_cache q intn s uid (n ∷ ns) = (s, ok (found_nodes intn s (n ∷ ns)))

  -- `getNodeId`; `none` is its `nil, false`.
  unfoldable pub get_node_id :
      {Tx E : Type 0}
      → Sql D Tx E
      → (ℕ → ℕ)
      → GcsObjServer D
      → ℕ
      → GcsObjServer D × Outcome E (Option ℕ)
  unfolding from_cache
  get_node_id q intn s uid = from_cache q intn s uid (or_else [] (lookup uid s.object_locations))

  add_location : GcsObjServer D → NotifyOwnsRequest → Option (List ℕ) → GcsObjServer D
  add_location s req none = record s {
    object_locations = insert req.uid (req.node_id ∷ []) s.object_locations;
    object_sizes = insert req.uid req.object_size s.object_sizes;
  }
  add_location s req (some ns) = record s {
    object_locations = insert req.uid (ns ++ req.node_id ∷ []) s.object_locations;
  }

  clear_waitlist :
      GcsObjServer D → NotifyOwnsRequest → Option (List Address) → GcsObjServer D × List Callback
  unfolding callbacks_to
  clear_waitlist s req none = (s, [])
  clear_waitlist s req (some waiting) =
      (record s { waitlist = delete req.uid s.waitlist }, callbacks_to waiting req.uid req.node_id)

  -- `NotifyOwns`; its reply is always `status true`.
  unfoldable pub notify_owns : GcsObjServer D → NotifyOwnsRequest → GcsObjServer D × List Callback
  unfolding add_location clear_waitlist
  notify_owns s req =
      let s' = record s { generating = delete req.uid s.generating } in
      clear_waitlist (add_location s' req (lookup req.uid s.object_locations)) req
        (lookup req.uid s.waitlist)

  add_waiting : GcsObjServer D → ℕ → Address → GcsObjServer D
  add_waiting s uid a = record s {
    waitlist = insert uid (or_else [] (lookup uid s.waitlist) ++ a ∷ []) s.waitlist;
  }

  located : {E : Type 0} → ℕ → Address → GcsObjServer D × Outcome E (Option ℕ) → LocationReply D E
  unfolding add_waiting
  located uid a (s, err e) = (s, [], err (no_node_id e))
  located uid a (s, ok none) = (add_waiting s uid a, [], ok (record { immediately_found = false }))
  located uid a (s, ok (some node)) = (
    s,
    record { client_address = a; uid = uid; node_id = node } ∷ [],
    ok (record { immediately_found = true }),
  )

  -- `RequestLocation`; the peer's address comes from the context, if it is there.
  unfoldable pub request_location :
      {Tx E : Type 0}
      → Sql D Tx E
      → (ℕ → ℕ)
      → ℤ
      → GcsObjServer D
      → Option Text
      → RequestLocationRequest
      → LocationReply D E
  unfolding located client_address
  request_location q intn port s none req = (s, [], err no_peer)
  request_location q intn port s (some peer) req =
      located req.uid (client_address port peer) (get_node_id q intn s req.uid)
