-- ===== src/Publishing/Tests.antt =====
-- The object store (go/cmd/localobjstore/main.go) and the object table together, at a concrete input.
use babyray.Common.{ℕ, ◌≡◌, refl, true, false, none, some, List, [], ◌∷◌, ok}
use babyray.Common.Dict.{lookup}
use babyray.Wire.{StoreRequest, GetRequest, status}
use babyray.ObjTable.Server.{GcsObjServer, new_gcs_obj_server}
use babyray.LocalObjStore.{ObjStore, store, put, copy}
use babyray.LocalObjStore.SharedMemory.{create_shared_memory}
use babyray.LocalObjStore.PlainMemory.{Files, plain_memory, plain_memory-IsSystem}
use babyray.Common.Text.{ascii}
use babyray.Common.Integers.{pos}
use babyray.ObjTable.Database.{Row, get_object_locations}
use babyray.ObjTable.Sqlite.{sqlite, nodes_at}
use babyray.ObjTable.Locations.{request_location}
use babyray.ObjTable.Locations.Found.{known_nodes}
use babyray.LocalObjStore.Get.{Peers}
use babyray.LocalObjStore.Get.Fetching.{reply_over}
use babyray.Publishing.Delivery.{IsDelivered, store-IsDelivered}

abbrev node_two : ObjStore Files ℕ
node_two = record {
  memory = record { bytes_of = λ q. []; last_opened = [] };
  object_sizes = [];
  local_node_id = 2;
  avg_bandwidth = 1;
}

abbrev made : StoreRequest
made = record { uid = 7; object_bytes = 4 ∷ 5 ∷ [] }

made_stored : (store plain_memory node_two made).2 ≡ ok (status true)
unfolding store put create_shared_memory
made_stored = refl

-- Node 3 looks for object 7, which node 2 then stores.
abbrev node_three : ObjStore Files ℕ
node_three = record node_two { local_node_id = 3 }

abbrev to_two : Peers ℕ
to_two = record {
  dial = λ a. none;
  copy_reply =
      λ a req. reply_over (λ e. 13) (copy plain_memory (store plain_memory node_two made).0 req).1;
  node_prefix = ascii "node";
  local_object_store = pos 50000;
}

abbrev get_seven : GetRequest
get_seven = record { uid = 7; testing = false; copy = true; cache = true }

abbrev no_objects : GcsObjServer (List Row)
no_objects = new_gcs_obj_server []

unknown_seven : known_nodes sqlite no_objects 7 ≡ ok []
unfolding lookup nodes_at get_object_locations
unknown_seven = refl

store-IsDelivered_example :
    IsDelivered plain_memory plain_memory-IsSystem
      (pos 50000)
      (ascii "node3")
      no_objects
      node_two
      node_three
      to_two
      get_seven
      (4 ∷ 5 ∷ [])
      (request_location sqlite
        (λ n. 0)
        (pos 50000)
        no_objects
        (some (ascii "node3"))
        (record { uid = 7; requester = 3 }))
store-IsDelivered_example =
    store-IsDelivered plain_memory plain_memory-IsSystem (pos 50000) (ascii "node3") no_objects
      node_two node_three to_two get_seven (4 ∷ 5 ∷ []) sqlite (λ n. 0) (λ e. 13) (status true)
      unknown_seven made_stored refl refl (λ creq. refl)
