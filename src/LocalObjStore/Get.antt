-- ===== src/LocalObjStore/Get.antt =====
-- `Get` of go/cmd/localobjstore/main.go, before and after its wait for the location of an object, and
-- `AvgBandwidth`. What the other node answers is an argument.
pub mod Holds
pub mod Ops
pub mod Fetching
mod Tests
use babyray.Common.{
  ℕ, Bool, true, false, Option, none, some, List, [], ◌∷◌, ◌++◌, String, length, ◌==◌,
  if◌then◌else◌, Outcome, ok, err,
}
use babyray.Common.Dict.{lookup}
use babyray.Common.Text.{Text, format_uint}
use babyray.Common.Integers.{ℤ, pos}
use babyray.Config.Wiring.{at_node}
use babyray.Wire.{
  Bytes, GetRequest, GetResponse, LocationFoundCallback, CopyRequest, CopyResponse,
  NotifyOwnsRequest, BandwidthResponse, RequestLocationRequest,
}
use babyray.LocalObjStore.{ObjStore, StoreError, no_dial, no_copy, put}
use babyray.LocalObjStore.SharedMemory.{System}

-- The other nodes' stores by the addresses that are dialled, and what the configuration has of them.
pub record Peers (E : Type 0) : Type 0 where
  pub dial : Text → Option E
  pub copy_reply : Text → CopyRequest → Outcome E CopyResponse
  pub node_prefix : Text
  pub local_object_store : ℤ

-- `otherLocalAddress`: the store's port on a node, or the address and port of the callback.
unfoldable pub other_local_address : {E : Type 0} → Peers E → LocationFoundCallback → Text
other_local_address peers resp =
    if resp.port == 0
    then at_node peers.node_prefix (pos resp.location) peers.local_object_store
    else resp.address ++ 58 ∷ format_uint resp.port

abbrev pub GetReply : Type 0 → Type 0 → Type 0 → Type 0
GetReply M F E = ObjStore M F × List NotifyOwnsRequest × Outcome (StoreError E) GetResponse

get_sized : ℕ → Option ℕ → Option GetResponse
get_sized uid none = none
get_sized uid (some size) =
    some (record { uid = uid; object_bytes = []; is_local = true; size = size })

module _ {M F : Type 0} where
  -- The reply to a Get of an object that the node has; else it waits, and `none` is given. The client
  -- reads the bytes from shared memory itself.
  unfoldable pub get_local : ObjStore M F → GetRequest → Option GetResponse
  unfolding get_sized
  get_local s req = get_sized req.uid (lookup req.uid s.object_sizes)

  -- The calls that a Get that waits makes first.
  unfoldable pub requested : ObjStore M F → GetRequest → List RequestLocationRequest
  requested s req =
      if req.testing then [] else record { uid = req.uid; requester = s.local_node_id } ∷ []

  unfoldable pub average_bandwidth : ObjStore M F → BandwidthResponse F
  average_bandwidth s = record { avg_bandwidth = s.avg_bandwidth }

-- A cached copy has been put, and is announced, without its size, if a node has the object.
cached :
    {M F E : Type 0}
    → GetRequest
    → LocationFoundCallback
    → Bytes
    → ObjStore M F × Outcome (StoreError E) ℕ
    → GetReply M F E
cached req resp bytes (s, err e) = (s, [], err e)
cached req resp bytes (s, ok size) = (
  s,
  (if resp.port == 0
      then record { uid = resp.uid; node_id = s.local_node_id; object_size = 0 } ∷ []
      else []),
  ok (record { uid = req.uid; object_bytes = bytes; is_local = false; size = size }),
)

module _ {M R F E : Type 0} (sys : System M R E) where
  fetched :
      ObjStore M F → GetRequest → LocationFoundCallback → Outcome E CopyResponse → GetReply M F E
  unfolding cached
  fetched s req resp (err e) = (s, [], err (no_copy e))
  fetched s req resp (ok x) =
      if req.cache then cached req resp x.object_bytes (put sys s req.uid x.object_bytes) else (
        s,
        [],
        ok (record { uid = req.uid; object_bytes = x.object_bytes; is_local = false; size = 0 }),
      )

  dialled : ObjStore M F → Peers E → GetRequest → LocationFoundCallback → Option E → GetReply M F E
  unfolding fetched other_local_address
  dialled s peers req resp (some e) = (s, [], err (no_dial e))
  dialled s peers req resp none = fetched s req resp (
      peers.copy_reply (other_local_address peers resp)
        (record { uid = resp.uid; requester = s.local_node_id }))

  -- `Get` from the callback on.
  unfoldable pub get_resumed :
      ObjStore M F → Peers E → GetRequest → LocationFoundCallback → GetReply M F E
  unfolding dialled
  get_resumed s peers req resp =
      if req.copy
      then dialled s peers req resp (peers.dial (other_local_address peers resp))
      else (s, [], ok (record { uid = req.uid; object_bytes = []; is_local = false; size = 0 }))
