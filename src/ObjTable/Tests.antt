-- ===== src/ObjTable/Tests.antt =====
-- Runs of the object table (go/cmd/gcsobjtable) on small inputs, and the theorems at such inputs.
use babyray.Common.{
  ℕ, ◌+◌, ◌≤◌, ◌≡◌, ◌↔◌, ◌⊎◌, refl, Bool, true, false, none, some, List, [], ◌∷◌, ◌++◌, map, ◌==◌,
  if◌then◌else◌, ok, elem, count, keep,
}
use babyray.Common.Text.{ascii}
use babyray.Common.Integers.{pos}
use babyray.Common.Dict.{lookup, insert, IsDistinct, or_else}
use babyray.Wire.{
  GlobalScheduleRequest, NotifyOwnsRequest, RequestLocationRequest, LiveNodesRequest,
}
use babyray.ObjTable.Database.{Row}
use babyray.ObjTable.Sqlite.{sqlite, sqlite-IsSql, row_count}
use babyray.ObjTable.Server.{GcsObjServer, Address, new_gcs_obj_server, is_live}
use babyray.ObjTable.Locations.{notify_owns, get_node_id}
use babyray.ObjTable.Locations.Waiters.{answered, waiting}
use babyray.ObjTable.Locations.Found.{
  get_node_id-IsUnavailable, get_node_id-known_nodes, known_nodes, is_found, is_any, ok_or, IsIntn,
}
use babyray.ObjTable.Locations.Notify.{Notified, notify_owns-Notified}
use babyray.ObjTable.Recovery.{
  register_live_nodes, regenerate_list, flush_to_disk, get_object_locations,
}
use babyray.ObjTable.Recovery.Lost.{IsLost, register_live_nodes-IsLost}
use babyray.ObjTable.Recovery.Flush.{Flushes, flush_to_disk-Flushes}
use babyray.ObjTable.Recovery.Report.{report, get_object_locations-report}
use babyray.ObjTable.Trace.{
  Call, notify, request, lineage, live_nodes, generating, flush, run, run_asks,
}
use babyray.ObjTable.Trace.Waiters.{run-answered, run-answered_all}

-- Hosts are kept as they are, and the port is left out.
abbrev first : ℕ → ℕ
first n = 0

first-IsIntn : IsIntn first
first-IsIntn n h = h

abbrev everyone : Address → Bool
everyone a = true

abbrev owns : NotifyOwnsRequest
owns = record { uid = 7; node_id = 3; object_size = 64 }

abbrev wants : RequestLocationRequest
wants = record { uid = 7; requester = 2 }

abbrev task : GlobalScheduleRequest
task = record {
  uid = 7;
  name = 1;
  args = [];
  kwargs = [];
  uids = [];
  new_object = true;
  node_id = 0;
  locality_flag = false;
}

-- Two clients ask for object 7, and a flush happens in between.
abbrev asking : List Call
asking =
    lineage task
    ∷ request first (some (ascii "a")) wants
    ∷ flush
    ∷ live_nodes (record { live_nodes = (2, true) ∷ (3, false) ∷ [] })
    ∷ generating (record { uid = 7; node_id = 3 })
    ∷ request first (some (ascii "b")) wants
    ∷ []

abbrev empty_db : List Row
empty_db = []

run-answered_all_example :
    answered everyone 7
      (run sqlite (pos 50000) (new_gcs_obj_server empty_db) (asking ++ notify owns ∷ [])).1
    ≡ run_asks sqlite
        (pos 50000)
        everyone
        7
        (new_gcs_obj_server empty_db)
        (asking ++ notify owns ∷ [])
run-answered_all_example = run-answered_all sqlite (pos 50000) everyone 7 empty_db asking owns refl

run-answered_example :
    answered everyone 7 (run sqlite (pos 50000) (new_gcs_obj_server empty_db) asking).1
      + waiting everyone 7 (run sqlite (pos 50000) (new_gcs_obj_server empty_db) asking).0
    ≡ run_asks sqlite (pos 50000) everyone 7 (new_gcs_obj_server empty_db) asking
run-answered_example = run-answered sqlite (pos 50000) everyone 7 empty_db asking

-- Object 7 at nodes 2 and 3 in memory, object 9 at node 5 on disk; node 3 is dead.
abbrev stocked : GcsObjServer (List Row)
stocked = record {
  object_locations = (7, 2 ∷ 3 ∷ []) ∷ (8, 3 ∷ []) ∷ [];
  waitlist = (9, ascii "a" ∷ []) ∷ [];
  database = (7, 1) ∷ (9, 5) ∷ [];
  object_sizes = (7, 64) ∷ [];
  lineage = (8, task) ∷ [];
  live_nodes = (2, true) ∷ (3, false) ∷ [];
  generating = (9, 3) ∷ [];
}

stocked-IsDistinct : IsDistinct stocked.object_locations
unfolding lookup
stocked-IsDistinct = (refl, (refl, tt))

flush_to_disk-Flushes_example : Flushes row_count stocked (flush_to_disk sqlite stocked)
flush_to_disk-Flushes_example = flush_to_disk-Flushes sqlite sqlite-IsSql stocked stocked-IsDistinct

abbrev all_dead_now : LiveNodesRequest
all_dead_now = record { live_nodes = (2, false) ∷ (3, false) ∷ (5, true) ∷ [] }

register_live_nodes-IsLost_example :
    let s' = record stocked { live_nodes = all_dead_now.live_nodes } in
    let (after, sent) = register_live_nodes stocked all_dead_now in
    (after ≡ s')
    × (sent ≡ map (λ u. lookup u stocked.lineage) (regenerate_list s'))
    × (count 9 (regenerate_list s') ≤ 1)
    × ((count 9 (regenerate_list s') ≡ 1) ↔ IsLost s' 9)
register_live_nodes-IsLost_example = register_live_nodes-IsLost stocked all_dead_now 9

-- Node 3 alone is dead: objects 8 and 9 are lost, and object 9 has no lineage.
regenerate_stocked :
    (regenerate_list stocked ≡ 9 ∷ 8 ∷ [])
    × ((register_live_nodes stocked (record { live_nodes = stocked.live_nodes })).1
        ≡ none ∷ some task ∷ [])
unfolding regenerate_list register_live_nodes is_live lookup elem insert
regenerate_stocked = (refl, refl)

notify_owns-Notified_example :
    Notified stocked
      (record { uid = 9; node_id = 4; object_size = 8 })
      9
      (notify_owns stocked (record { uid = 9; node_id = 4; object_size = 8 }))
notify_owns-Notified_example =
    notify_owns-Notified stocked (record { uid = 9; node_id = 4; object_size = 8 }) 9

get_node_id-known_nodes_example :
    (is_found (get_node_id sqlite first stocked 9).1 ≡ is_any (known_nodes sqlite stocked 9))
    × (or_else [] (lookup 9 (get_node_id sqlite first stocked 9).0.object_locations) ≡ (
        if 9 == 9
        then ok_or [] (known_nodes sqlite stocked 9)
        else or_else [] (lookup 9 stocked.object_locations)))
get_node_id-known_nodes_example = get_node_id-known_nodes sqlite first stocked 9 9

-- Object 7 is at the live node 2 and at the dead node 3: getNodeId gives node 0.
get_node_id-stocked : (get_node_id sqlite first stocked 7).1 ≡ ok (some 0)
unfolding get_node_id lookup is_live keep
get_node_id-stocked = refl

get_node_id-IsUnavailable_example : (◌≡◌ {A = ℕ} 0 0) ⊎ (is_live stocked 0 ≡ false)
get_node_id-IsUnavailable_example =
    get_node_id-IsUnavailable sqlite first stocked 7 0 first-IsIntn get_node_id-stocked

get_object_locations-report_example :
    lookup 7 (get_object_locations stocked (record { args = 9 ∷ 7 ∷ [] })).locations
    ≡ (if elem 7 (9 ∷ 7 ∷ []) then report stocked 7 (lookup 7 stocked.object_locations) else none)
get_object_locations-report_example = get_object_locations-report stocked 7 (9 ∷ 7 ∷ [])
