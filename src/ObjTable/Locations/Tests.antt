-- ===== src/ObjTable/Locations/Tests.antt =====
-- RequestLocation against a database whose SELECT fails.
use babyray.Common.{some, List, [], err}
use babyray.Common.Text.{ascii}
use babyray.Common.Integers.{pos}
use babyray.ObjTable.Database.{Row, Sql}
use babyray.ObjTable.Sqlite.{SqlError, syntax, sqlite}
use babyray.ObjTable.Server.{GcsObjServer, new_gcs_obj_server}
use babyray.ObjTable.Locations.{request_location}
use babyray.ObjTable.Locations.Found.{known_nodes}
use babyray.ObjTable.Locations.Answers.{Responds, request_location-Responds}

abbrev broken : Sql (List Row) (List Row) SqlError
broken = record sqlite { select_nodes = λ db u. err syntax }

abbrev empty_server : GcsObjServer (List Row)
empty_server = new_gcs_obj_server []

request_location-Responds_example :
    Responds empty_server
      (pos 50000)
      7
      (some (ascii "10.0.0.3:41234"))
      (known_nodes broken empty_server 7)
      (request_location broken
        (λ n. 0)
        (pos 50000)
        empty_server
        (some (ascii "10.0.0.3:41234"))
        (record { uid = 7; requester = 3 }))
request_location-Responds_example =
    request_location-Responds empty_server broken (λ n. 0) (pos 50000)
      (some (ascii "10.0.0.3:41234")) (record { uid = 7; requester = 3 })
