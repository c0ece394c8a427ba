-- ===== src/Publishing/Delivery.antt =====
-- A Get that waits for an object (go/cmd/localobjstore/main.go), the object table that it asked
-- (go/cmd/gcsobjtable/main.go), and another node that stores the object afterwards.
use babyray.Common.{
  ℕ, ◌≡◌, ap, ◌∙◌, subst, true, false, none, some, List, [], ◌∷◌, ◌++◌, Outcome, ok, err, length,
  arith,
}
use babyray.Common.Text.{Text}
use babyray.Common.Integers.{ℤ}
use mathlib.Core.List.{append-nil}
use babyray.Common.Dict.{lookup, or_else, lookup-insert_self}
use babyray.Wire.{
  Bytes, StoreRequest, StatusResponse, NotifyOwnsRequest, GetRequest, CopyRequest,
  RequestLocationRequest,
}
use babyray.ObjTable.Database.{Sql}
use babyray.ObjTable.Server.{GcsObjServer, Callback, location_found}
use babyray.ObjTable.Locations.{LocationReply, callbacks_to, client_address, request_location}
use babyray.ObjTable.Locations.Found.{known_nodes}
use babyray.ObjTable.Locations.Answers.{IsAnswer, request_location-IsAnswer}
use babyray.ObjTable.Locations.Notify.{notify_owns-Notified, callbacks_to-append}
use babyray.LocalObjStore.{ObjStore, StoreError, store, copy}
use babyray.LocalObjStore.SharedMemory.{System, IsSystem}
use babyray.LocalObjStore.Get.{Peers, get_resumed}
use babyray.LocalObjStore.Get.Holds.{Holds, Stores, store-Stores}
use babyray.LocalObjStore.Get.Fetching.{reply_over, peer_at, IsFetched, get_resumed-IsFetched}
use babyray.Publishing.{announce}

module _ {M R E F : Type 0} (sys : System M R E) (h : IsSystem sys) (a : ObjStore M F) where
  -- A store that succeeds has the object, and its announcement has those called back that wait.
  Stores-announced :
      {D : Type 0} (req : StoreRequest) (t : GcsObjServer D)
      (r : ObjStore M F × List NotifyOwnsRequest × Outcome (StoreError E) StatusResponse)
      (reply : StatusResponse)
      → r.2 ≡ ok reply
      → Stores sys h a req r
      → Holds sys h r.0 req.uid req.object_bytes
        × ((announce t r.1).1
            ≡ callbacks_to (or_else [] (lookup req.uid t.waitlist)) req.uid a.local_node_id)
  unfolding announce
  Stores-announced req t (s', sent, err e) reply success stores = absurd (ground (arith, success))
  Stores-announced req t (s', sent, ok st) reply success stores =
      let announced : NotifyOwnsRequest = record {
        uid = req.uid;
        node_id = a.local_node_id;
        object_size = length req.object_bytes;
      } in
      (stores.0, rw stores.2 (append-nil _ ∙ (notify_owns-Notified t announced req.uid).sent))

answer_waits :
    {D E : Type 0} (t : GcsObjServer D) (uid : ℕ) (address : Text) (r : LocationReply D E)
    → IsAnswer t uid address (ok []) r
    → (r.2 ≡ ok (record { immediately_found = false }))
      × (or_else [] (lookup uid r.0.waitlist) ≡ or_else [] (lookup uid t.waitlist) ++ address ∷ [])
answer_waits t uid address (s', sent, reply) answer = (
  answer.0,
  ap (λ w. or_else [] (lookup uid w)) answer.2
      ∙ ap (or_else [])
          (lookup-insert_self uid (or_else [] (lookup uid t.waitlist) ++ address ∷ []) t.waitlist),
)

-- The callback for a client, with the node that stored the object.
abbrev pub callback_to : ℤ → Text → ℕ → ℕ → Callback
callback_to port peer uid node = record {
  client_address = client_address port peer;
  uid = uid;
  node_id = node;
}

module _ {M R E F : Type 0} (sys : System M R E) (h : IsSystem sys) {D : Type 0} (port : ℤ)
    (peer : Text) (t : GcsObjServer D) (a b : ObjStore M F) (peers : Peers E) (get : GetRequest)
    (bytes : Bytes) where
  abbrev pub store_request : StoreRequest
  store_request = record { uid = get.uid; object_bytes = bytes }

  abbrev pub location_request : RequestLocationRequest
  location_request = record { uid = get.uid; requester = b.local_node_id }

  -- The table has node `b` wait, calls it back last once node `a` has stored the object, and the Get
  -- that goes on with this callback fetches the object.
  abbrev pub IsDelivered : {E' : Type 0} → LocationReply D E' → Type 0
  IsDelivered asked =
      let call = callback_to port peer get.uid a.local_node_id in
      (asked.2 ≡ ok (record { immediately_found = false }))
      × ((announce asked.0 (store sys a store_request).1).1
          ≡ callbacks_to (or_else [] (lookup get.uid t.waitlist)) get.uid a.local_node_id
            ++ call ∷ [])
      × IsFetched sys h b get bytes (get_resumed sys b peers get (location_found call))

  -- Of an object of which the table knows no node, in memory or on disk: the Get of node `b` asks and
  -- is told to wait. When node `a` then stores the object with success, and its announcement arrives
  -- next, the table calls back those who waited before and then `b`, with node `a`. If `b` wants a
  -- copy, and its calls to the address of `a` reach `a`, its Get replies with the bytes that were
  -- stored, and `b` has the object if it caches, or it fails because the copy or a call of the system
  -- failed.
  pub store-IsDelivered :
      {Tx E' : Type 0} (q : Sql D Tx E') (intn : ℕ → ℕ) (wrap : StoreError E → E)
      (reply : StatusResponse)
      → known_nodes q t get.uid ≡ ok []
      → (store sys a store_request).2 ≡ ok reply
      → get.copy ≡ true
      → peers.dial (peer_at peers a.local_node_id) ≡ none
      → ((creq : CopyRequest)
          → peers.copy_reply (peer_at peers a.local_node_id) creq
            ≡ reply_over wrap (copy sys (store sys a store_request).0 creq).1)
      → IsDelivered (request_location q intn port t (some peer) location_request)
  store-IsDelivered q intn wrap reply unknown success wants dials answers =
      let asked = request_location q intn port t (some peer) location_request in
      let answer =
        subst (λ o. IsAnswer t get.uid (client_address port peer) o asked) unknown
          (request_location-IsAnswer t q intn port peer location_request) in
      let waits = answer_waits t get.uid (client_address port peer) asked answer in
      let made =
        Stores-announced sys h a store_request asked.0 (store sys a store_request) reply success
          (store-Stores sys h a store_request) in
      (
        waits.0,
        made.1
            ∙ ap (λ w. callbacks_to w get.uid a.local_node_id) waits.1
            ∙ callbacks_to-append (or_else [] (lookup get.uid t.waitlist))
                (client_address port peer) get.uid a.local_node_id,
        get_resumed-IsFetched sys h (store sys a store_request).0 b peers wrap get
            (callback_to port peer get.uid a.local_node_id) bytes made.0 wants dials answers,
      )
