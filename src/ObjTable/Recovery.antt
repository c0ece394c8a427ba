-- ===== src/ObjTable/Recovery.antt =====
-- go/cmd/gcsobjtable/main.go: the handlers for lineage and live nodes, by which lost objects are made
-- again, `GetObjectLocations`, and the flush to disk.
pub mod Lost
pub mod Flush
pub mod Report
use babyray.Common.{
  ℕ, Bool, true, false, Option, none, some, List, [], ◌∷◌, ◌++◌, Outcome, ok, err, map,
  if◌then◌else◌,
}
use babyray.Common.Dict.{Dict, lookup, insert, keys, or_else, is_some}
use babyray.Wire.{
  StatusResponse, status, GlobalScheduleRequest, ObjectLocationsRequest, ObjectLocationsResponse,
  LocationByteTuple, LiveNodesRequest, GeneratingRequest,
}
use babyray.ObjTable.Database.{Sql, insert_or_update_object_locations}
use babyray.ObjTable.Server.{GcsObjServer, ObjError, duplicate_lineage, is_live}

generating_node : Option ℕ → List ℕ
generating_node none = []
generating_node (some node) = node ∷ []

-- The keys of the map `allUids`, which starts empty and takes the keys of two maps.
add_uids : List ℕ → Dict Bool → Dict Bool
add_uids [] all = all
add_uids (uid ∷ uids) all = add_uids uids (insert uid true all)

module _ {D : Type 0} where
  -- The test of `RegisterLineage`, under the read lock; the lock is given up after it.
  unfoldable pub lineage_known : GcsObjServer D → GlobalScheduleRequest → Bool
  lineage_known s req = is_some (lookup req.uid s.lineage)

  -- Its write, under the write lock.
  unfoldable pub write_lineage : GcsObjServer D → GlobalScheduleRequest → GcsObjServer D
  write_lineage s req = record s { lineage = insert req.uid req s.lineage }

  -- `RegisterLineage` with no other call between the test and the write. The status that it answers
  -- with on success is `Success: false`.
  unfoldable pub register_lineage :
      {E : Type 0}
      → GcsObjServer D
      → GlobalScheduleRequest
      → GcsObjServer D × Outcome (ObjError E) StatusResponse
  unfolding lineage_known write_lineage
  register_lineage s req =
      if lineage_known s req
      then (s, err duplicate_lineage)
      else (write_lineage s req, ok (status false))

  -- `getNodes`: the node that makes the object, if one does, and those that hold it.
  unfoldable pub get_nodes : GcsObjServer D → ℕ → List ℕ
  unfolding generating_node
  get_nodes s uid =
      generating_node (lookup uid s.generating) ++ or_else [] (lookup uid s.object_locations)

  -- `allDead`
  unfoldable pub all_dead : GcsObjServer D → List ℕ → Bool
  unfolding is_live
  all_dead s [] = true
  all_dead s (node ∷ nodes) = if is_live s node then false else all_dead s nodes

  pub all_uids : GcsObjServer D → List ℕ
  unfolding add_uids keys
  all_uids s = keys (add_uids (keys s.object_locations) (add_uids (keys s.generating) []))

  regenerate : GcsObjServer D → List ℕ → List ℕ
  unfolding get_nodes all_dead
  regenerate s [] = []
  regenerate s (uid ∷ uids) =
      let rest = regenerate s uids in if all_dead s (get_nodes s uid) then uid ∷ rest else rest

  -- `regenerateList`
  unfoldable pub regenerate_list : GcsObjServer D → List ℕ
  unfolding regenerate all_uids
  regenerate_list s = regenerate s (all_uids s)

  -- `RegisterLiveNodes`: the new state, and the requests that it sends to the global scheduler. A
  -- missing lineage is sent as a nil request. Its reply is always `status true`.
  unfoldable pub register_live_nodes :
      GcsObjServer D → LiveNodesRequest → GcsObjServer D × List (Option GlobalScheduleRequest)
  unfolding regenerate_list
  register_live_nodes s req =
      let s' = record s { live_nodes = req.live_nodes } in
      (s', map (λ uid. lookup uid s'.lineage) (regenerate_list s'))

  -- `RegisterGenerating`; its reply is always `status true`.
  unfoldable pub register_generating : GcsObjServer D → GeneratingRequest → GcsObjServer D
  register_generating s req = record s { generating = insert req.uid req.node_id s.generating }

  add_tuple : GcsObjServer D → ℕ → Option (List ℕ) → Dict LocationByteTuple → Dict LocationByteTuple
  add_tuple s uid none locations = locations
  add_tuple s uid (some ns) locations =
      insert uid (record { locations = ns; bytes = or_else 0 (lookup uid s.object_sizes) })
        locations

  locate_all : GcsObjServer D → List ℕ → Dict LocationByteTuple → Dict LocationByteTuple
  unfolding add_tuple
  locate_all s [] locations = locations
  locate_all s (uid ∷ args) locations =
      locate_all s args (add_tuple s uid (lookup uid s.object_locations) locations)

  -- `GetObjectLocations`
  unfoldable pub get_object_locations :
      GcsObjServer D → ObjectLocationsRequest → ObjectLocationsResponse
  unfolding locate_all
  get_object_locations s req = record { locations = locate_all s req.args [] }

  flushed : {E : Type 0} → GcsObjServer D → D × Option E → GcsObjServer D × Option E
  flushed s (db, some e) = (record s { database = db }, some e)
  flushed s (db, none) = (record s { database = db; object_locations = [] }, none)

  -- `flushToDisk`, whose constant `flush_to_AOF` is false.
  unfoldable pub flush_to_disk :
      {Tx E : Type 0} → Sql D Tx E → GcsObjServer D → GcsObjServer D × Option E
  unfolding flushed
  flush_to_disk q s = flushed s (insert_or_update_object_locations q s.database s.object_locations)
