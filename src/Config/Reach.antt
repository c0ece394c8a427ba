-- ===== src/Config/Reach.antt =====
-- Where the addresses that the clients under go/cmd dial lead to.
use babyray.Common.{ℕ, ◌≡◌, ◌↔◌, sym, ap, ◌∙◌, Option, none, some, [], ◌∷◌, All}
use babyray.Common.Text.{Text, ascii, format_uint}
use babyray.Common.Integers.{ℤ, pos, format_int, format_int_injective}
use babyray.Config.{Config}
use babyray.Config.Wiring.{
  Service, gcs_functions, gcs_objects, global_scheduling, local_scheduling, object_storing, working,
  Connection, scheduler_worker, scheduler_global, scheduler_objects, heartbeats_worker,
  heartbeats_store, global_objects, global_worker, objects_global, store_objects, store_store,
  worker_functions, worker_store, listen_on, listen_address, dial_address,
}
use babyray.Config.Address.{reach, IsHostChar, reach-at_node, reach-localhost}

module _ {F : Type 0} (cfg : Config F) where
  -- The node on which a service runs.
  abbrev pub runs_on : Service → ℤ
  runs_on gcs_functions = cfg.node_ids.gcs
  runs_on gcs_objects = cfg.node_ids.gcs
  runs_on global_scheduling = cfg.node_ids.global_scheduler
  runs_on (local_scheduling node) = pos node
  runs_on (object_storing node) = pos node
  runs_on (working node) = pos node

digits_of : Option (ℤ × Text) → Text
digits_of (some (node, c ∷ cs)) = cs
digits_of (some (node, [])) = []
digits_of none = []

-- The service that has a client, and the one that the client is for.
abbrev pub client_of : Connection → Service
client_of (scheduler_worker node) = local_scheduling node
client_of (scheduler_global node) = local_scheduling node
client_of (scheduler_objects node) = local_scheduling node
client_of (heartbeats_worker node) = local_scheduling node
client_of (heartbeats_store node) = local_scheduling node
client_of global_objects = global_scheduling
client_of (global_worker node) = global_scheduling
client_of objects_global = gcs_objects
client_of (store_objects node) = object_storing node
client_of (store_store node other) = object_storing node
client_of (worker_functions node) = working node
client_of (worker_store node) = working node

abbrev pub server_of : Connection → Service
server_of (scheduler_worker node) = working node
server_of (scheduler_global node) = global_scheduling
server_of (scheduler_objects node) = gcs_objects
server_of (heartbeats_worker node) = working node
server_of (heartbeats_store node) = object_storing node
server_of global_objects = gcs_objects
server_of (global_worker node) = working node
server_of objects_global = global_scheduling
server_of (store_objects node) = gcs_objects
server_of (store_store node other) = object_storing other
server_of (worker_functions node) = gcs_functions
server_of (worker_store node) = object_storing node

module _ {F : Type 0} (cfg : Config F) where
  -- The dialled address leads to the node on which the service runs, and to the port at which it
  -- listens there.
  abbrev pub Reaches : Connection → Type 0
  Reaches c =
      reach cfg.dns.node_prefix (runs_on cfg (client_of c)) (dial_address cfg c)
      ≡ some (runs_on cfg (server_of c), listen_address cfg (server_of c))

  -- What is asked of the configuration: the port that the worker's address of the store has in it.
  abbrev pub IsFixed : Connection → Type 0
  IsFixed (worker_store node) = cfg.ports.local_object_store ≡ pos 50000
  IsFixed c = Unit

  worker_store-Reaches :
      (node : ℕ) → Reaches (worker_store node) ↔ (cfg.ports.local_object_store ≡ pos 50000)
  unfolding dial_address listen_address format_int format_uint digits_of
  worker_store-Reaches node =
      let led : reach cfg.dns.node_prefix (pos node) (ascii "localhost:50000")
          ≡ some (pos node, listen_on (pos 50000)) =
        reach-localhost cfg.dns.node_prefix (pos node) (ascii "50000") in
      (
        λ h.
            format_int_injective cfg.ports.local_object_store (pos 50000)
              (ap digits_of (sym h ∙ led)),
        λ h. led ∙ ap (λ p. some (pos node, listen_on p)) (sym h),
      )

  -- Where no colon stands in the prefix of the nodes' names, the address that a client dials leads to
  -- the service that the client is for, on its node and at its port; for the worker's client of the
  -- object store that is so exactly if the store's port is 50000.
  pub dial_address-Reaches :
      All IsHostChar cfg.dns.node_prefix → (c : Connection) → Reaches c ↔ IsFixed c
  unfolding dial_address listen_address
  dial_address-Reaches h (scheduler_worker node) = (λ e. tt, λ u. reach-localhost _ _ _)
  dial_address-Reaches h (scheduler_global node) = (λ e. tt, λ u. reach-at_node _ _ _ _ h)
  dial_address-Reaches h (scheduler_objects node) = (λ e. tt, λ u. reach-at_node _ _ _ _ h)
  dial_address-Reaches h (heartbeats_worker node) = (λ e. tt, λ u. reach-localhost _ _ _)
  dial_address-Reaches h (heartbeats_store node) = (λ e. tt, λ u. reach-localhost _ _ _)
  dial_address-Reaches h global_objects = (λ e. tt, λ u. reach-at_node _ _ _ _ h)
  dial_address-Reaches h (global_worker node) = (λ e. tt, λ u. reach-at_node _ _ _ _ h)
  dial_address-Reaches h objects_global = (λ e. tt, λ u. reach-at_node _ _ _ _ h)
  dial_address-Reaches h (store_objects node) = (λ e. tt, λ u. reach-at_node _ _ _ _ h)
  dial_address-Reaches h (store_store node other) = (λ e. tt, λ u. reach-at_node _ _ _ _ h)
  dial_address-Reaches h (worker_functions node) = (λ e. tt, λ u. reach-at_node _ _ _ _ h)
  dial_address-Reaches h (worker_store node) = worker_store-Reaches node
