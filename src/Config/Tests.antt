-- ===== src/Config/Tests.antt =====
-- The theorem at the configuration of config/app_config.yaml.
use babyray.Common.{◌≡◌, ◌↔◌, refl}
use babyray.Common.Text.{ascii, format_uint, parse_uint}
use babyray.Common.Integers.{format_int, parse_int, atoi, uint64_of}
use babyray.Config.AppConfig.{app_config, node-IsHostChar}
use babyray.Config.Wiring.{
  worker_store, store_store, working, dial_address, listen_address, local_node_id,
}
use babyray.Config.Reach.{Reaches, IsFixed, dial_address-Reaches}

dial_address-Reaches_example :
    Reaches app_config (worker_store 3) ↔ IsFixed app_config (worker_store 3)
dial_address-Reaches_example = dial_address-Reaches app_config node-IsHostChar (worker_store 3)

-- The addresses as texts; a NODE_ID that is unset, and one that is negative.
addresses :
    (dial_address app_config (store_store 2 13) ≡ ascii "node13:50000")
    × (listen_address app_config (working 2) ≡ ascii ":50002")
    × (local_node_id (ascii "") ≡ 0)
    × (local_node_id (ascii "-1") ≡ 18446744073709551615)
unfolding dial_address listen_address format_uint format_int local_node_id atoi uint64_of parse_int
    parse_uint
addresses = (refl, refl, refl, refl)
