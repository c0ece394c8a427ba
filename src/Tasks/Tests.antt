-- ===== src/Tasks/Tests.antt =====
-- A task that calls a function which gives its arguments back and prints a line end, at node 2.
use babyray.Common.{ℕ, ◌≡◌, refl, true, none, some, List, [], ◌∷◌, ◌++◌, Option, arith}
use babyray.Common.Dict.{lookup}
use babyray.Common.Text.{ascii}
use babyray.Wire.{Bytes, RunRequest}
use babyray.ObjTable.Server.{GcsObjServer, new_gcs_obj_server}
use babyray.FuncTable.{new_gcs_func_server}
use babyray.FuncTable.Fetch.{register_all}
use babyray.LocalObjStore.{ObjStore}
use babyray.LocalObjStore.PlainMemory.{Files, plain_memory, plain_memory-IsSystem}
use babyray.Worker.Execute.{PythonCall, gives, script}
use babyray.Worker.Execute.Foreign.{is_foreign}
use babyray.Tasks.{run_task}
use babyray.Tasks.Published.{Ends, run_task-Ends}

abbrev give_back : Bytes → Bytes → Bytes → PythonCall
give_back f args kwargs = record { before = []; ending = gives (f ++ args); after = 10 ∷ [] }

abbrev node_two : ObjStore Files ℕ
node_two = record {
  memory = record { bytes_of = λ q. []; last_opened = [] };
  object_sizes = [];
  local_node_id = 2;
  avg_bandwidth = 1;
}

-- A client waits for object 7.
abbrev awaited : GcsObjServer ℕ
awaited = record (new_gcs_obj_server 0) { waitlist = (7, ascii "10.0.0.3:50000" ∷ []) ∷ [] }

unlocated : lookup 7 awaited.object_locations ≡ none
unfolding lookup
unlocated = refl

-- The second registration fails, and the third has another name.
abbrev registrations : List (Option ℕ × Bytes)
registrations = (some 5, 9 ∷ []) ∷ (none, 8 ∷ []) ∷ (some 6, 3 ∷ []) ∷ []

abbrev wanted : RunRequest
wanted = record { uid = 7; name = 5; args = 4 ∷ 255 ∷ []; kwargs = [] }

run_task-Ends_example :
    Ends plain_memory plain_memory-IsSystem node_two awaited wanted 3 true
      (some (9 ∷ 4 ∷ 255 ∷ []))
      (run_task plain_memory
        (script give_back [])
        true
        node_two
        wanted
        (register_all registrations new_gcs_func_server))
unfolding is_foreign
run_task-Ends_example =
    run_task-Ends plain_memory plain_memory-IsSystem node_two awaited wanted 3 give_back [] (9 ∷ [])
      true registrations refl (omega arith, tt) (omega arith, (omega arith, tt)) tt
      (omega arith, (omega arith, (omega arith, tt))) unlocated
