-- ===== src/LocalObjStore/Get/Tests.antt =====
-- A Get of go/cmd/localobjstore/main.go that fetches an object from another node, at a concrete input.
use babyray.Common.{ℕ, refl, true, false, none, [], ◌∷◌}
use babyray.Common.Text.{ascii}
use babyray.Common.Integers.{pos}
use babyray.Wire.{GetRequest, StoreRequest}
use babyray.ObjTable.Server.{Callback, location_found}
use babyray.LocalObjStore.{ObjStore, copy, store, put}
use babyray.LocalObjStore.Get.{Peers, get_resumed}
use babyray.LocalObjStore.Get.Holds.{Holds, store-Stores}
use babyray.LocalObjStore.Get.Fetching.{reply_over, IsFetched, get_resumed-IsFetched}
use babyray.LocalObjStore.SharedMemory.{create_shared_memory}
use babyray.LocalObjStore.PlainMemory.{Files, plain_memory, plain_memory-IsSystem}

abbrev empty_at : ℕ → ObjStore Files ℕ
empty_at node = record {
  memory = record { bytes_of = λ q. []; last_opened = [] };
  object_sizes = [];
  local_node_id = node;
  avg_bandwidth = 1;
}

abbrev made_eight : StoreRequest
made_eight = record { uid = 8; object_bytes = 6 ∷ 7 ∷ [] }

-- Node 5 has object 8, and node 2 nothing.
abbrev node_five : ObjStore Files ℕ
node_five = (store plain_memory (empty_at 5) made_eight).0

abbrev node_two : ObjStore Files ℕ
node_two = empty_at 2

abbrev to_five : Peers ℕ
to_five = record {
  dial = λ a. none;
  copy_reply = λ a req. reply_over (λ e. 13) (copy plain_memory node_five req).1;
  node_prefix = ascii "node";
  local_object_store = pos 50000;
}

abbrev get_eight : GetRequest
get_eight = record { uid = 8; testing = false; copy = true; cache = true }

abbrev at_five : Callback
at_five = record { client_address = ascii "10.0.0.2:50000"; uid = 8; node_id = 5 }

node_five-Holds : Holds plain_memory plain_memory-IsSystem node_five 8 (6 ∷ 7 ∷ [])
unfolding store put create_shared_memory
node_five-Holds = (store-Stores plain_memory plain_memory-IsSystem (empty_at 5) made_eight).0

get_resumed-IsFetched_example :
    IsFetched plain_memory plain_memory-IsSystem node_two get_eight
      (6 ∷ 7 ∷ [])
      (get_resumed plain_memory node_two to_five get_eight (location_found at_five))
get_resumed-IsFetched_example =
    get_resumed-IsFetched plain_memory plain_memory-IsSystem node_five node_two to_five (λ e. 13)
      get_eight at_five (6 ∷ 7 ∷ []) node_five-Holds refl refl (λ creq. refl)
