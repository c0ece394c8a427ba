-- ===== src/Config/AppConfig.antt =====
-- The configuration in config/app_config.yaml; `cluster_size` is not there, and is 0.
use babyray.Common.{ℕ, refl, true, All}
use babyray.Common.Text.{ascii}
use babyray.Common.Integers.{pos}
use babyray.Config.{Config}
use babyray.Config.Address.{IsHostChar}

-- `float32` is a number here, and 0 the delay.
abbrev pub app_config : Config ℕ
app_config = record {
  num_worker_nodes = pos 5;
  cluster_size = pos 0;
  simulated_delay = 0;
  node_ids = record { gcs = pos 0; global_scheduler = pos 1; ourself = pos 2 };
  ports = record {
    local_object_store = pos 50000;
    local_scheduler = pos 50001;
    local_worker_start = pos 50002;
    gcs_function_table = pos 50000;
    gcs_object_table = pos 50001;
    global_scheduler = pos 50000;
  };
  dns = record { node_prefix = ascii "node" };
  gcs = record { flush_interval_sec = pos 1; enable_chain_replication = true };
}

pub node-IsHostChar : All IsHostChar (ascii "node")
node-IsHostChar = (refl, (refl, (refl, (refl, tt))))
