-- ===== src/ObjTable/Trace/Tests.antt =====
-- Nodes that report an object to the table of go/cmd/gcsobjtable/main.go, on small inputs.
use babyray.Common.{◌≤◌, ◌≡◌, refl, none, some, List, [], ◌∷◌, elem, count, ok}
use babyray.Common.Text.{ascii}
use babyray.Common.Integers.{pos}
use babyray.Common.Dict.{lookup, insert, delete}
use babyray.ObjTable.Server.{GcsObjServer, new_gcs_obj_server}
use babyray.ObjTable.Locations.{notify_owns, request_location, get_node_id}
use babyray.ObjTable.Locations.Found.{known_nodes}
use babyray.ObjTable.Locations.Keeps.{IsWellFormed}
use babyray.ObjTable.Database.{
  Row, count_rows, get_object_locations, insert_or_update_object_locations,
}
use babyray.ObjTable.Recovery
use babyray.ObjTable.Recovery.{flush_to_disk}
use babyray.ObjTable.Sqlite.{sqlite, sqlite-IsSql, SqlError, nodes_at, inserted, without, row_count}
use babyray.ObjTable.Trace.{Call, notify, request, flush, run, call}
use babyray.ObjTable.Trace.Jammed.{report_of, run-jammed}
use babyray.ObjTable.Trace.Forgotten.{size_lost, flush_forgets}

abbrev empty_table : GcsObjServer (List Row)
empty_table = new_gcs_obj_server []

empty_table-IsWellFormed : IsWellFormed empty_table
empty_table-IsWellFormed = record {
  object_locations = tt;
  waitlist = tt;
  object_sizes = tt;
  lineage = tt;
  live_nodes = tt;
  generating = tt;
}

-- A client looks for the object before node 3 reports it again, with another size.
abbrev between : List Call
between =
    request (λ n. 0) (some (ascii "a:1")) (record { uid = 7; requester = 4 })
    ∷ notify (record { uid = 7; node_id = 5; object_size = 9 })
    ∷ []

abbrev later : List Call
later =
    flush
    ∷ notify (record { uid = 8; node_id = 2; object_size = 1 })
    ∷ request (λ n. 0) (some (ascii "b:1")) (record { uid = 7; requester = 2 })
    ∷ []

run-jammed_example :
    let once = (notify_owns empty_table (report_of 7 3 64)).0 in
    let twice = (notify_owns (run sqlite (pos 50000) once between).0 (report_of 7 3 65)).0 in
    (e : SqlError) × ((flush_to_disk sqlite (run sqlite (pos 50000) twice later).0).1 ≡ some e)
run-jammed_example =
    run-jammed sqlite sqlite-IsSql (pos 50000) empty_table 7 3 64 65 between later
      empty_table-IsWellFormed (tt, (tt, tt)) (tt, (tt, tt)) (tt, (tt, (tt, tt)))

-- Object 9 is on disk at node 5 and not in memory; nodes 4 and 6 store it too, and object 8 is looked
-- for in between.
abbrev on_disk : GcsObjServer (List Row)
on_disk = new_gcs_obj_server ((9, 5) ∷ [])

on_disk-IsWellFormed : IsWellFormed on_disk
on_disk-IsWellFormed = record {
  object_locations = tt;
  waitlist = tt;
  object_sizes = tt;
  lineage = tt;
  live_nodes = tt;
  generating = tt;
}

abbrev stored_again : List Call
stored_again =
    notify (report_of 9 4 8)
    ∷ request (λ n. 0) (some (ascii "a:1")) (record { uid = 8; requester = 4 })
    ∷ notify (report_of 9 6 8)
    ∷ []

not_in_memory : lookup 9 on_disk.object_locations ≡ none
unfolding lookup
not_in_memory = refl

flushed_again : (flush_to_disk sqlite (run sqlite (pos 50000) on_disk stored_again).0).1 ≡ none
unfolding run call request_location get_node_id flush_to_disk notify_owns
    insert_or_update_object_locations lookup insert delete inserted count_rows without elem
    get_object_locations nodes_at
flushed_again = refl

flush_forgets_example :
    (row_count (flush_to_disk sqlite (run sqlite (pos 50000) on_disk stored_again).0).0.database 9 5
      ≡ count 5 (4 ∷ 6 ∷ []))
    × (count 5 (4 ∷ 6 ∷ []) ≤ 1)
flush_forgets_example =
    flush_forgets sqlite sqlite-IsSql (pos 50000) on_disk stored_again 9 4 (6 ∷ []) 5
      on_disk-IsWellFormed not_in_memory (tt, (tt, (tt, tt))) (tt, (refl, (tt, tt))) refl
      flushed_again

unknown_seven : known_nodes sqlite empty_table 7 ≡ ok []
unfolding lookup nodes_at get_object_locations
unknown_seven = refl

unsized_seven : lookup 7 empty_table.object_sizes ≡ none
unfolding lookup
unsized_seven = refl

size_lost_example :
    let looked =
      (request_location sqlite
        (λ n. 0)
        (pos 50000)
        empty_table
        (some (ascii "a:1"))
        (record { uid = 7; requester = 2 })).0 in
    let made = (notify_owns looked (report_of 7 3 64)).0 in
    lookup 7 (Recovery.get_object_locations made (record { args = 7 ∷ [] })).locations
    ≡ some (record { locations = 3 ∷ []; bytes = 0 })
size_lost_example =
    size_lost sqlite (λ n. 0) (pos 50000) empty_table (ascii "a:1") 7 2 3 64 unknown_seven
      unsized_seven
