-- ===== src/ObjTable/Startup/Tests.antt =====
-- A start over the rows that a flush left, in the database of Sqlite.
use babyray.Common.{
  ℕ, ◌≡◌, refl, sym, ap, ◌∙◌, elem, ok_injective, none, List, [], ◌∷◌, Outcome, ok,
}
use babyray.Common.Integers.{pos, negsuc}
use babyray.Common.Dict.{lookup, insert, delete}
use babyray.ObjTable.Database.{Row, insert_or_update_object_locations, count_rows}
use babyray.ObjTable.Sqlite.{SqlError, sqlite, sqlite-IsSql, row_count, inserted, without}
use babyray.ObjTable.Server.{GcsObjServer, new_gcs_obj_server}
use babyray.ObjTable.Recovery.{flush_to_disk}
use babyray.ObjTable.Locations.{notify_owns, get_node_id}
use babyray.ObjTable.Startup.{
  Ddl, Setup, IsSetup, off, every, panicking, running, flush_timer, start_gcs_obj_server,
  create_object_locations_table,
}
use babyray.ObjTable.Startup.Durable.{Recalls, known_count}
use babyray.ObjTable.Startup.Restart.{run-Recalls}
use babyray.ObjTable.Trace.{Call, notify, run, call}

abbrev schema : Setup (List Row) Ddl SqlError
schema = record {
  no_cache = λ db. (db, none);
  prepare = λ db statement. ok statement;
  exec = λ db statement. (db, none);
}

schema-IsSetup : IsSetup schema row_count
schema-IsSetup = record { no_cache_rows = λ db u n. refl; exec_rows = λ db st u n. refl }

-- Object 7 is reported by nodes 2 and 3, over a database that has object 9 at node 5.
abbrev reports : List Call
reports =
    notify (record { uid = 7; node_id = 2; object_size = 4 })
    ∷ notify (record { uid = 7; node_id = 3; object_size = 4 })
    ∷ []

abbrev old_rows : List Row
old_rows = (7, 1) ∷ (9, 5) ∷ []

abbrev before_stop : GcsObjServer (List Row)
before_stop = (run sqlite (pos 50000) (new_gcs_obj_server old_rows) reports).0

abbrev on_disk : List Row
on_disk = (9, 5) ∷ (7, 2) ∷ (7, 3) ∷ []

flushed :
    ((flush_to_disk sqlite before_stop).1 ≡ none)
    × ((flush_to_disk sqlite before_stop).0.database ≡ on_disk)
unfolding flush_to_disk insert_or_update_object_locations inserted without elem count_rows run call
    notify_owns lookup insert delete
flushed = (refl, refl)

same_rows :
    (db : List Row)
    → ◌≡◌ {A = Outcome SqlError (List Row)} (ok on_disk) (ok db)
    → (u n : ℕ) → row_count db u n ≡ row_count (flush_to_disk sqlite before_stop).0.database u n
same_rows db e u n = ap (λ d. row_count d u n) (sym (ok_injective on_disk db e) ∙ sym flushed.1)

started :
    start_gcs_obj_server schema (pos 1) (ok on_disk)
    ≡ running (new_gcs_obj_server on_disk) (every 1000000000)
unfolding start_gcs_obj_server flush_timer create_object_locations_table
started = refl

run-Recalls_example :
    Recalls 7
      (known_count row_count before_stop 7)
      (get_node_id sqlite (λ n. 0) (new_gcs_obj_server on_disk) 7)
run-Recalls_example =
    run-Recalls sqlite sqlite-IsSql schema schema-IsSetup (pos 50000) old_rows reports
      (new_gcs_obj_server on_disk) (pos 1) (ok on_disk) (every 1000000000) (λ n. 0) 7 (tt, (tt, tt))
      flushed.0 same_rows started

-- -1 is no timer; 0, and an interval that wraps around to a negative one, panic.
timers :
    (flush_timer (negsuc 0) ≡ off)
    × (flush_timer (pos 0) ≡ panicking)
    × (flush_timer (pos 9223372037) ≡ panicking)
unfolding flush_timer
timers = (refl, refl, refl)
