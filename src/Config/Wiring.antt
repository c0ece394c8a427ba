-- ===== src/Config/Wiring.antt =====
-- The `main` functions under go/cmd, and the handlers that dial others: at which address each service
-- listens, and which address each client dials.
use babyray.Common.{ℕ, ◌∷◌, ◌++◌}
use babyray.Common.Text.{Text, ascii}
use babyray.Common.Integers.{ℤ, pos, format_int, atoi, uint64_of}
use babyray.Config.{Config}

-- The services; those with a number run once on each node of workers.
pub data Service : Type 0 where
  gcs_functions gcs_objects global_scheduling : Service
  local_scheduling : (node : ℕ) → Service
  object_storing : (node : ℕ) → Service
  working : (node : ℕ) → Service

-- The clients that the code makes, by their service and the one that they are for.
pub data Connection : Type 0 where
  scheduler_worker : (node : ℕ) → Connection
  scheduler_global : (node : ℕ) → Connection
  scheduler_objects : (node : ℕ) → Connection
  heartbeats_worker : (node : ℕ) → Connection
  heartbeats_store : (node : ℕ) → Connection
  global_objects : Connection
  global_worker : (node : ℕ) → Connection
  objects_global : Connection
  store_objects : (node : ℕ) → Connection
  store_store : (node other : ℕ) → Connection
  worker_functions : (node : ℕ) → Connection
  worker_store : (node : ℕ) → Connection

-- ":" + strconv.Itoa(port)
abbrev pub listen_on : ℤ → Text
listen_on port = 58 ∷ format_int port

-- fmt.Sprintf("%s%d:%d", cfg.DNS.NodePrefix, node, port)
abbrev pub at_node : Text → ℤ → ℤ → Text
at_node prefix node port = (prefix ++ format_int node) ++ 58 ∷ format_int port

-- fmt.Sprintf("localhost:%d", port)
abbrev pub at_localhost : ℤ → Text
at_localhost port = ascii "localhost" ++ 58 ∷ format_int port

-- `nodeId, _ := strconv.Atoi(os.Getenv("NODE_ID"))`, and then `uint64(nodeId)`.
unfoldable pub local_node_id : Text → ℕ
local_node_id variable = uint64_of (atoi variable)

-- The addresses by the service that is dialled.
module _ {F : Type 0} (cfg : Config F) where
  abbrev pub function_table_address : Text
  function_table_address = at_node cfg.dns.node_prefix cfg.node_ids.gcs cfg.ports.gcs_function_table

  abbrev pub object_table_address : Text
  object_table_address = at_node cfg.dns.node_prefix cfg.node_ids.gcs cfg.ports.gcs_object_table

  abbrev pub global_scheduler_address : Text
  global_scheduler_address =
      at_node cfg.dns.node_prefix cfg.node_ids.global_scheduler cfg.ports.global_scheduler

  abbrev pub worker_address_at : ℕ → Text
  worker_address_at node = at_node cfg.dns.node_prefix (pos node) cfg.ports.local_worker_start

  abbrev pub store_address_at : ℕ → Text
  store_address_at node = at_node cfg.dns.node_prefix (pos node) cfg.ports.local_object_store

  abbrev pub local_worker_address : Text
  local_worker_address = at_localhost cfg.ports.local_worker_start

  abbrev pub local_store_address : Text
  local_store_address = at_localhost cfg.ports.local_object_store

-- The worker's address of its node's store does not come from the configuration.
abbrev pub fixed_store_address : Text
fixed_store_address = ascii "localhost:50000"

module _ {F : Type 0} (cfg : Config F) where
  -- `address` in each `main`.
  unfoldable pub listen_address : Service → Text
  listen_address gcs_functions = listen_on cfg.ports.gcs_function_table
  listen_address gcs_objects = listen_on cfg.ports.gcs_object_table
  listen_address global_scheduling = listen_on cfg.ports.global_scheduler
  listen_address (local_scheduling node) = listen_on cfg.ports.local_scheduler
  listen_address (object_storing node) = listen_on cfg.ports.local_object_store
  listen_address (working node) = listen_on cfg.ports.local_worker_start

  -- What each client hands to `grpc.Dial`.
  unfoldable pub dial_address : Connection → Text
  dial_address (scheduler_worker node) = local_worker_address cfg
  dial_address (scheduler_global node) = global_scheduler_address cfg
  dial_address (scheduler_objects node) = object_table_address cfg
  dial_address (heartbeats_worker node) = local_worker_address cfg
  dial_address (heartbeats_store node) = local_store_address cfg
  dial_address global_objects = object_table_address cfg
  dial_address (global_worker node) = worker_address_at cfg node
  dial_address objects_global = global_scheduler_address cfg
  dial_address (store_objects node) = object_table_address cfg
  dial_address (store_store node other) = store_address_at cfg other
  dial_address (worker_functions node) = function_table_address cfg
  dial_address (worker_store node) = fixed_store_address
