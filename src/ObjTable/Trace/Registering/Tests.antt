-- ===== src/ObjTable/Trace/Registering/Tests.antt =====
-- Two calls of RegisterLineage (go/cmd/gcsobjtable/main.go) for one object: both test before either
-- writes, or one after the other.
use babyray.Common.{◌≡◌, refl, true, false, some, List, [], ◌∷◌}
use babyray.Common.Integers.{pos}
use babyray.Common.Dict.{lookup, insert}
use babyray.Wire.{GlobalScheduleRequest}
use babyray.ObjTable.Database.{Row}
use babyray.ObjTable.Sqlite.{sqlite}
use babyray.ObjTable.Server.{new_gcs_obj_server}
use babyray.ObjTable.Recovery.{lineage_known, write_lineage, register_generating}
use babyray.ObjTable.Trace.{Call, generating, call}
use babyray.ObjTable.Trace.Registering.{
  testing, writing, ended, Registering, after_test, enter, test, write, other_call, RegisterSteps,
  idle, and_then,
}
use babyray.ObjTable.Trace.Registering.Kept.{AreKept, RegisterSteps-IsKept}
use babyray.ObjTable.Trace.Registering.Quiet.{RegisterSteps_keep_lineage}

abbrev first_request : GlobalScheduleRequest
first_request = record {
  uid = 8;
  name = 1;
  args = [];
  kwargs = [];
  uids = [];
  new_object = false;
  node_id = 0;
  locality_flag = false;
}

abbrev second_request : GlobalScheduleRequest
second_request = record first_request { name = 2 }

abbrev nobody : Registering (List Row)
nobody = record { server = new_gcs_obj_server []; calls = [] }

-- Both are accepted, and the first's lineage is replaced.
abbrev both_accepted : Registering (List Row)
both_accepted = record {
  server = record (new_gcs_obj_server []) {
    lineage = (8, second_request) ∷ [];
    generating = (8, 5) ∷ [];
  };
  calls = ended second_request true ∷ ended first_request true ∷ [];
}

abbrev made_at_five : Call
made_at_five = generating (record { uid = 8; node_id = 5 })

both_accepted-reached : RegisterSteps sqlite (pos 50000) nobody both_accepted
unfolding after_test lineage_known write_lineage lookup insert call register_generating
both_accepted-reached =
    let entered = and_then (and_then idle (enter first_request refl)) (enter second_request refl) in
    let tested =
      and_then (and_then entered (test (testing second_request ∷ []) [] first_request refl refl))
        (test [] (writing first_request ∷ []) second_request refl refl) in
    let made = and_then tested (other_call made_at_five tt refl) in
    and_then (and_then made (write (writing second_request ∷ []) [] first_request refl refl))
      (write [] (ended first_request true ∷ []) second_request refl refl)

RegisterSteps-IsKept_example : AreKept sqlite (pos 50000) both_accepted
RegisterSteps-IsKept_example = RegisterSteps-IsKept sqlite (pos 50000) [] both_accepted-reached

-- The first is accepted before the second's test.
abbrev first_accepted : Registering (List Row)
first_accepted = record {
  server = record (new_gcs_obj_server []) { lineage = (8, first_request) ∷ [] };
  calls = ended first_request true ∷ [];
}

abbrev second_refused : Registering (List Row)
second_refused = record {
  server = record (new_gcs_obj_server []) {
    lineage = (8, first_request) ∷ [];
    generating = (8, 5) ∷ [];
  };
  calls = ended second_request false ∷ ended first_request true ∷ [];
}

second_refused-reached : RegisterSteps sqlite (pos 50000) first_accepted second_refused
unfolding after_test lineage_known lookup insert call register_generating
second_refused-reached =
    let entered = and_then idle (enter second_request refl) in
    and_then (and_then entered (other_call made_at_five tt refl))
      (test [] (ended first_request true ∷ []) second_request refl refl)

RegisterSteps_keep_lineage_example : lookup 8 second_refused.server.lineage ≡ some first_request
unfolding lookup
RegisterSteps_keep_lineage_example =
    RegisterSteps_keep_lineage sqlite (pos 50000) 8 first_request refl (tt, tt)
      second_refused-reached
