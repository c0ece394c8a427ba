-- ===== src/ObjTable/Locations/Answers.antt =====
-- Every answer of RequestLocation (go/cmd/gcsobjtable/main.go), its errors included, by what is known
-- of the object.
use babyray.Common.{
  ℕ, true, false, ◌≡◌, refl, ap, Option, none, some, List, [], ◌∷◌, ◌++◌, Outcome, ok, err,
}
use babyray.Common.Text.{Text}
use babyray.Common.Integers.{ℤ, format_int}
use babyray.Common.Dict.{lookup, insert, or_else}
use babyray.Common.Net.{split_host_port, join_host_port}
use babyray.Common.Net.Rejoin.{IsHost-split_host_port, split_host_port-join}
use babyray.Wire.{RequestLocationRequest}
use babyray.ObjTable.Database
use babyray.ObjTable.Database.{Sql}
use babyray.ObjTable.Server.{GcsObjServer, Address, no_peer, no_node_id}
use babyray.ObjTable.Locations.{
  LocationReply, pick_node, found_nodes, from_disk, from_cache, get_node_id, add_waiting, located,
  request_location, client_address, host_or_all,
}
use babyray.ObjTable.Locations.Found.{nodes_or_disk, known_nodes}

module _ {D : Type 0} (s : GcsObjServer D) where
  -- What getNodeId comes to for known nodes.
  abbrev IsLookup :
      {E : Type 0} → Outcome E (List ℕ) → GcsObjServer D × Outcome E (Option ℕ) → Type 0
  IsLookup (err e) r = r ≡ (s, err e)
  IsLookup (ok []) (s', o) = (o ≡ ok none) × (s'.waitlist ≡ s.waitlist)
  IsLookup (ok (n ∷ ns)) (s', o) = ((m : ℕ) × (o ≡ ok (some m))) × (s'.waitlist ≡ s.waitlist)

  found_nodes-IsLookup :
      (E : Type 0) (intn : ℕ → ℕ) (s' : GcsObjServer D) (ns : List ℕ)
      → s'.waitlist ≡ s.waitlist
      → IsLookup {E = E} (ok ns) (s', ok (found_nodes intn s ns))
  unfolding found_nodes pick_node
  found_nodes-IsLookup E intn s' [] same = (refl, same)
  found_nodes-IsLookup E intn s' (n ∷ ns) same = ((_, refl), same)

  from_disk-IsLookup :
      {E : Type 0} (intn : ℕ → ℕ) (uid : ℕ) (o : Outcome E (List ℕ))
      → IsLookup o (from_disk intn s uid o)
  unfolding from_disk
  from_disk-IsLookup intn uid (err e) = refl
  from_disk-IsLookup intn uid (ok ns) = found_nodes-IsLookup _ intn _ ns refl

  from_cache-IsLookup :
      {Tx E : Type 0} (q : Sql D Tx E) (intn : ℕ → ℕ) (uid : ℕ) (ns : List ℕ)
      → IsLookup (nodes_or_disk q s uid ns) (from_cache q intn s uid ns)
  unfolding from_cache
  from_cache-IsLookup q intn uid [] =
      from_disk-IsLookup intn uid (Database.get_object_locations q s.database uid)
  from_cache-IsLookup q intn uid (n ∷ ns) = found_nodes-IsLookup _ intn s (n ∷ ns) refl

  -- The answer to a client at an address: an error of the database is passed on, with the state as it
  -- was and no callback; for an object without a node the client joins the waiting ones; for one with
  -- a node a callback is started.
  abbrev pub IsAnswer : {E : Type 0} → ℕ → Address → Outcome E (List ℕ) → LocationReply D E → Type 0
  IsAnswer uid a (err e) r = r ≡ (s, [], err (no_node_id e))
  IsAnswer uid a (ok []) (s', sent, reply) =
      (reply ≡ ok (record { immediately_found = false }))
      × (sent ≡ [])
      × (s'.waitlist ≡ insert uid (or_else [] (lookup uid s.waitlist) ++ a ∷ []) s.waitlist)
  IsAnswer uid a (ok (n ∷ ns)) (s', sent, reply) =
      (reply ≡ ok (record { immediately_found = true }))
      × ((m : ℕ) × (sent ≡ record { client_address = a; uid = uid; node_id = m } ∷ []))
      × (s'.waitlist ≡ s.waitlist)

  located-IsAnswer :
      {E : Type 0} (uid : ℕ) (a : Address) (known : Outcome E (List ℕ))
      (r : GcsObjServer D × Outcome E (Option ℕ))
      → IsLookup known r
      → IsAnswer uid a known (located uid a r)
  unfolding located add_waiting
  located-IsAnswer uid a (err e) r looked = ap (located uid a) looked
  located-IsAnswer uid a (ok []) (s', o) looked = rw (looked.0, looked.1) (refl, refl, refl)
  located-IsAnswer uid a (ok (n ∷ ns)) (s', o) looked = rw looked.0.1 (refl, (_, refl), looked.1)

  pub request_location-IsAnswer :
      {Tx E : Type 0} (q : Sql D Tx E) (intn : ℕ → ℕ) (port : ℤ) (peer : Text)
      (req : RequestLocationRequest)
      → IsAnswer req.uid
          (client_address port peer)
          (known_nodes q s req.uid)
          (request_location q intn port s (some peer) req)
  unfolding request_location get_node_id
  request_location-IsAnswer q intn port peer req =
      located-IsAnswer req.uid (client_address port peer) (known_nodes q s req.uid) _
        (from_cache-IsLookup q intn req.uid (or_else [] (lookup req.uid s.object_locations)))

  -- The address of a peer's host at a port, by how the peer's own address splits.
  abbrev pub IsAtPort : ℤ → Text → Option (Text × Text) → Address → Type 0
  IsAtPort port peer none a = a ≡ join_host_port peer (format_int port)
  IsAtPort port peer (some (host, from)) a = split_host_port a ≡ some (host, format_int port)

  host_or_all-IsAtPort :
      (port : ℤ) (peer : Text) (o : Option (Text × Text))
      → split_host_port peer ≡ o
      → IsAtPort port peer o (join_host_port (host_or_all peer o) (format_int port))
  unfolding host_or_all
  host_or_all-IsAtPort port peer none e = refl
  host_or_all-IsAtPort port peer (some (host, from)) e =
      split_host_port-join host port (IsHost-split_host_port peer host from e)

  client_address-IsAtPort :
      (port : ℤ) (peer : Text)
      → IsAtPort port peer (split_host_port peer) (client_address port peer)
  unfolding client_address
  client_address-IsAtPort port peer = host_or_all-IsAtPort port peer (split_host_port peer) refl

  abbrev pub Responds :
      {E : Type 0} → ℤ → ℕ → Option Text → Outcome E (List ℕ) → LocationReply D E → Type 0
  Responds port uid none known r = r ≡ (s, [], err no_peer)
  Responds port uid (some peer) known r =
      (a : Address) × IsAtPort port peer (split_host_port peer) a × IsAnswer uid a known r

  -- RequestLocation fails in two ways, both times with the state as it was and no callback: where the
  -- context has no peer, and where nothing is in memory for the object and the database fails. Else
  -- it answers that the object was found, with one callback to the client, exactly if a node is known
  -- in memory or on disk, and puts the client at the end of the object's waiting list if none is. The
  -- client's address splits into the host that the peer's splits into and the given port; where the
  -- peer's does not split, it is the peer's whole, joined with the port.
  pub request_location-Responds :
      {Tx E : Type 0} (q : Sql D Tx E) (intn : ℕ → ℕ) (port : ℤ) (peer : Option Text)
      (req : RequestLocationRequest)
      → Responds port req.uid peer
          (known_nodes q s req.uid)
          (request_location q intn port s peer req)
  unfolding request_location
  request_location-Responds q intn port none req = refl
  request_location-Responds q intn port (some peer) req =
      (_, client_address-IsAtPort port peer, request_location-IsAnswer q intn port peer req)
