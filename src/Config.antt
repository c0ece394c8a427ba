-- ===== src/Config.antt =====
-- go/config/config.go: the configuration of the services, and its loading.
pub mod Wiring
pub mod Address
pub mod Reach
pub mod AppConfig
mod Tests
use babyray.Common.{ℕ, Bool, Option, none, some, List, [], ◌∷◌, ◌++◌, Outcome, ok, err}
use babyray.Common.Text.{Text, ascii}
use babyray.Common.Integers.{ℤ}
use babyray.Wire.{Bytes}

pub record NodeIds : Type 0 where
  pub gcs : ℤ
  pub global_scheduler : ℤ
  pub ourself : ℤ

pub record Ports : Type 0 where
  pub local_object_store : ℤ
  pub local_scheduler : ℤ
  pub local_worker_start : ℤ
  pub gcs_function_table : ℤ
  pub gcs_object_table : ℤ
  pub global_scheduler : ℤ

pub record Dns : Type 0 where
  pub node_prefix : Text

pub record Gcs : Type 0 where
  pub flush_interval_sec : ℤ
  pub enable_chain_replication : Bool

-- `F` is float32.
pub record Config (F : Type 0) : Type 0 where
  pub num_worker_nodes : ℤ
  pub cluster_size : ℤ
  pub simulated_delay : F
  pub node_ids : NodeIds
  pub ports : Ports
  pub dns : Dns
  pub gcs : Gcs

-- `filepath.Join(root, "config", "app_config.yaml")`: an empty element is left out, and the result is
-- that of filepath.Clean.
unfoldable pub config_file : (clean : Text → Text) → Text → Text
config_file clean [] = clean (ascii "config/app_config.yaml")
config_file clean (c ∷ cs) = clean ((c ∷ cs) ++ ascii "/config/app_config.yaml")

-- The configuration, or the end of the process by log.Fatalf.
pub data Loaded (F : Type 0) : Type 0 where
  loaded : Config F → Loaded F
  fatal : Loaded F

unmarshalled : {F E : Type 0} → Outcome E (Config F) → Loaded F
unmarshalled (err e) = fatal
unmarshalled (ok cfg) = loaded cfg

file_read : {F E : Type 0} → (Bytes → Outcome E (Config F)) → Outcome E Bytes → Loaded F
unfolding unmarshalled
file_read unmarshal (err e) = fatal
file_read unmarshal (ok bytes) = unmarshalled (unmarshal bytes)

-- `LoadConfig`: the file system, the YAML library and the variable PROJECT_ROOT are arguments.
unfoldable pub load_config :
    {F E : Type 0}
    → (read_file : Text → Outcome E Bytes) → (unmarshal : Bytes → Outcome E (Config F))
    → (clean : Text → Text) → (project_root : Text) → Loaded F
unfolding file_read config_file
load_config read_file unmarshal clean project_root =
    file_read unmarshal (read_file (config_file clean project_root))
