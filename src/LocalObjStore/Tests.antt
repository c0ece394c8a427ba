-- ===== src/LocalObjStore/Tests.antt =====
-- Runs of go/cmd/localobjstore/main.go on small inputs, and its theorems at concrete inputs.
use babyray.Common.{ℕ, ◌≤◌, ◌≡◌, arith, refl, true, false, none, some, List, [], ◌∷◌, ok, err}
use babyray.Common.Dict.{lookup, insert}
use babyray.Common.Text.{format_uint, ascii}
use babyray.Common.Integers.{pos}
use babyray.Wire.{GetRequest, LocationFoundCallback}
use babyray.LocalObjStore.{ObjStore, system, store, copy, put}
use babyray.LocalObjStore.Get.{Peers, get_local, get_resumed, average_bandwidth, requested}
use babyray.LocalObjStore.Get.Holds.{IsCopy}
use babyray.LocalObjStore.Get.Ops.{Op, store_op, copy_op, get_op, ops, ops-Holds}
use babyray.LocalObjStore.SharedMemory.{create_shared_memory, read_shared_memory}
use babyray.LocalObjStore.Channels.{
  asking, receiving, resumed, sent, Rendezvous, miss, receive, found, meet, Meetings, still, next,
  no_calls,
}
use babyray.LocalObjStore.Channels.Owners.{Meetings-resumed}
use babyray.LocalObjStore.Channels.Stranded.{IsForgotten, waiting_on, Meetings-IsForgotten}
use babyray.LocalObjStore.PlainMemory.{Files, plain_memory, plain_memory-IsSystem}

abbrev empty_store : ObjStore Files ℕ
empty_store = record {
  memory = record { bytes_of = λ q. []; last_opened = [] };
  object_sizes = [];
  local_node_id = 2;
  avg_bandwidth = 1;
}

-- Node 5 has object 8, of two bytes.
abbrev node_five : Peers ℕ
node_five = record {
  dial = λ a. none;
  copy_reply = λ a req. ok (record { uid = req.uid; object_bytes = 6 ∷ 7 ∷ [] });
  node_prefix = ascii "node";
  local_object_store = pos 50000;
}

abbrev get_eight : GetRequest
get_eight = record { uid = 8; testing = false; copy = true; cache = true }

abbrev at_five : LocationFoundCallback
at_five = record { uid = 8; location = 5; address = []; port = 0 }

abbrev uses : List (Op ℕ)
uses =
    store_op (record { uid = 1; object_bytes = 4 ∷ [] })
    ∷ get_op node_five get_eight at_five
    ∷ copy_op (record { uid = 1; requester = 3 })
    ∷ []

abbrev after_uses : ObjStore Files ℕ
after_uses = (ops plain_memory empty_store (λ _. none) uses).0

ops-Holds_example :
    (get_local after_uses get_eight
      ≡ some (record { uid = 8; object_bytes = []; is_local = true; size = 2 }))
    × IsCopy (6 ∷ 7 ∷ []) (copy plain_memory after_uses (record { uid = 8; requester = 3 })).1
unfolding ops store put get_resumed create_shared_memory
ops-Holds_example =
    ops-Holds plain_memory plain_memory-IsSystem empty_store uses get_eight 3 (6 ∷ 7 ∷ []) refl

-- Object 1 was stored: Copy gives its bytes, and a Get of an object that is nowhere asks for it.
copy_one :
    ((copy plain_memory after_uses (record { uid = 1; requester = 3 })).1
      ≡ ok (record { uid = 1; object_bytes = 4 ∷ [] }))
    × (get_local after_uses (record get_eight { uid = 9 }) ≡ none)
    × (requested after_uses (record get_eight { uid = 9 }) ≡ record { uid = 9; requester = 2 } ∷ [])
    × (average_bandwidth after_uses ≡ record { avg_bandwidth = 1 })
unfolding ops store put get_resumed create_shared_memory copy read_shared_memory get_local requested
    average_bandwidth lookup insert format_uint
copy_one = (refl, refl, refl, refl)

-- An empty object cannot be stored: Mmap refuses a mapping of no bytes.
store_empty :
    (store plain_memory empty_store (record { uid = 1; object_bytes = [] })).2 ≡ err (system 22)
unfolding store put create_shared_memory
store_empty = refl

-- Two Gets for object 7: the first waits on channel 0, and the second has made channel 1.
abbrev two_gets : Rendezvous
two_gets = record {
  local_object_channels = (7, 1) ∷ [];
  made = 2;
  gets = asking 7 ∷ receiving 7 0 ∷ [];
  founds = [];
}

abbrev at_four : LocationFoundCallback
at_four = record { uid = 7; location = 4; address = []; port = 0 }

two_gets-reached : Meetings no_calls two_gets
unfolding insert lookup
two_gets-reached =
    next (next (next still (miss 7 refl)) (receive [] [] 7 0 refl refl refl)) (miss 7 refl)

-- The second Get comes to its receive, and is served.
abbrev served : Rendezvous
served = record two_gets {
  gets = resumed 7 at_four ∷ receiving 7 0 ∷ [];
  founds = sent at_four ∷ [];
}

served-after : {s : Rendezvous} → Meetings s two_gets → Meetings s served
unfolding lookup
served-after steps =
    next
      (next (next steps (receive [] (receiving 7 0 ∷ []) 7 1 refl refl refl)) (found at_four refl))
      (meet [] (receiving 7 0 ∷ []) [] [] 7 1 at_four refl refl refl)

Meetings-resumed_example : at_four.uid ≡ 7
Meetings-resumed_example =
    Meetings-resumed [] (receiving 7 0 ∷ []) 7 at_four (served-after two_gets-reached) refl

zero_unmapped : (uid : ℕ) → lookup uid two_gets.local_object_channels ≡ some 0 → ⊥
unfolding lookup
zero_unmapped uid hit = ground (arith, hit)

two_gets-IsForgotten : IsForgotten 0 two_gets
unfolding lookup
two_gets-IsForgotten = record {
  old = omega arith;
  unmapped = λ uid hit. zero_unmapped uid hit;
  unsent = tt;
}

Meetings-IsForgotten_example :
    IsForgotten 0 served × (waiting_on 0 two_gets.gets ≤ waiting_on 0 served.gets)
Meetings-IsForgotten_example = Meetings-IsForgotten 0 two_gets-IsForgotten (served-after still)
