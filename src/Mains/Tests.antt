-- ===== src/Mains/Tests.antt =====
-- The processes at config/app_config.yaml, on a network without errors.
use babyray.Common.{ℕ, ◌/◌, ◌+◌, ◌*◌, ◌^◌, ◌≡◌, refl, arith, true, none, [], ◌∷◌, ltb, ok}
use babyray.Common.Text.{ascii, format_uint, parse_uint}
use babyray.Common.Integers.{format_int, parse_int, atoi, uint64_of}
use babyray.Common.Float.{Float32}
use babyray.Config.AppConfig.{app_config, node-IsHostChar}
use babyray.Config.Wiring.{listen_address, dial_address, local_node_id}
use babyray.ObjTable.Startup.{Setup}
use babyray.Mains.{Network, serving, local_scheduler_main}
use babyray.Mains.Boots.{AllServe, mains-IsServing}

abbrev quiet : Network ℕ
quiet = record { listen = λ a. none; dial = λ a. none }

-- A database that is a number.
abbrev no_schema : Setup ℕ ℕ ℕ
no_schema = record {
  no_cache = λ db. (db, none);
  prepare = λ db statement. ok 0;
  exec = λ db statement. (db, none);
}

abbrev whole_numbers : Float32 ℕ
whole_numbers = record {
  of_uint = λ n. n;
  add = λ a b. a + b;
  mul = λ a b. a * b;
  div = λ a b. a / b;
  lt = ltb;
  max_float = 2 ^ 128;
}

mains-IsServing_example : AllServe {M = ℕ} app_config quiet 3 no_schema (ok 0) whole_numbers 0
mains-IsServing_example =
    mains-IsServing app_config quiet node-IsHostChar 3 (omega arith) no_schema (ok 0) whole_numbers
      0 refl

-- The local scheduler of node 3, with the addresses as texts.
scheduler_of_three :
    local_scheduler_main app_config quiet (ascii "3")
    ≡ serving
        (ascii ":50001")
        (ascii "localhost:50002" ∷ ascii "node1:50000" ∷ ascii "node0:50001" ∷ [])
        (record { local_node_id = 3; alive = true })
unfolding local_scheduler_main listen_address dial_address format_int format_uint local_node_id atoi
    parse_int parse_uint uint64_of
scheduler_of_three = refl
