-- ===== src/Mains/Boots.antt =====
-- The processes under go/cmd as one system: where each listens, and where what it dials leads to.
use babyray.Common.{ℕ, ◌<◌, ◌^◌, ◌≡◌, inl, inr, refl, true, [], ◌∷◌, All, Outcome}
use babyray.Common.Text.{format_uint}
use babyray.Common.Float.{Float32}
use babyray.Common.Integers.{pos, atoi-format_uint}
use babyray.Config.{Config}
use babyray.Config.Wiring.{
  gcs_functions, gcs_objects, global_scheduling, local_scheduling, object_storing, working,
  Connection, scheduler_worker, scheduler_global, scheduler_objects, global_objects, objects_global,
  store_objects, worker_functions, worker_store, listen_address, dial_address, local_node_id,
}
use babyray.Config.Address.{IsHostChar}
use babyray.Config.Reach.{IsFixed, Reaches, dial_address-Reaches}
use babyray.GlobalScheduler.{Server}
use babyray.FuncTable.{GcsFuncServer, new_gcs_func_server}
use babyray.Worker.{Shared}
use babyray.ObjTable.Server.{GcsObjServer}
use babyray.LocalScheduler.{LocalServer}
use babyray.LocalObjStore.{ObjStore}
use babyray.ObjTable.Startup.{Setup, Timer, Started, running, fatal, panicked, start_gcs_obj_server}
use babyray.ObjTable.Startup.Durable.{StartFault, start_gcs_obj_server-StartFault}
use babyray.Mains.{
  serving, Network, function_table_main, object_table_started, object_table_main,
  global_scheduler_main, local_scheduler_main, start_server, object_store_main, create_grpc_client,
  worker_main,
}
use babyray.Mains.Serving.{
  IsServing, listening-IsServing, create_grpc_client-IsServing, NetFault, TableFault,
}

-- The six processes serve as the services that they are; the scheduler and the store of node `n`
-- announce themselves under its number, and its worker is alive.
abbrev pub AllServe :
    {F E D St M : Type 0}
    → Config F
    → Network E
    → ℕ
    → Setup D St E
    → Outcome E D
    → Float32 F
    → M
    → Type 0
AllServe cfg net n setup database f memory =
    IsServing cfg (NetFault net) gcs_functions [] (λ s. Unit) (function_table_main cfg net)
    × IsServing cfg (TableFault cfg net database) gcs_objects (global_scheduling ∷ []) (λ s. Unit)
        (object_table_main cfg net setup database)
    × IsServing cfg (NetFault net) global_scheduling (gcs_objects ∷ []) (λ s. Unit)
        (global_scheduler_main cfg net)
    × IsServing cfg (NetFault net) (local_scheduling n)
        (working n ∷ global_scheduling ∷ gcs_objects ∷ []) (λ s. s.local_node_id ≡ n)
        (local_scheduler_main cfg net (format_uint n))
    × IsServing cfg (NetFault net) (object_storing n) (gcs_objects ∷ []) (λ s. s.local_node_id ≡ n)
        (object_store_main cfg net f memory (format_uint n))
    × IsServing cfg (NetFault net) (working n) (gcs_functions ∷ object_storing n ∷ [])
        (λ s. s.alive ≡ true) (worker_main cfg net f n)

module _ {F E : Type 0} (cfg : Config F) (net : Network E)
    (names : All IsHostChar cfg.dns.node_prefix) where
  leads : (c : Connection) → IsFixed cfg c → Reaches cfg c
  leads c fixed = (dial_address-Reaches cfg names c).1 fixed

  object_table_started-IsServing :
      {D : Type 0} (database : Outcome E D) (o : Started D)
      → StartFault cfg.gcs.flush_interval_sec database o
      → IsServing cfg
          (TableFault cfg net database)
          gcs_objects
          (global_scheduling ∷ [])
          (λ (s : GcsObjServer D × Timer). Unit)
          (object_table_started cfg (listen_address cfg gcs_objects) o)
  unfolding object_table_started
  object_table_started-IsServing database (running s timer) fault =
      (refl, (leads objects_global tt, tt), tt)
  object_table_started-IsServing database fatal fault = inr (inl fault)
  object_table_started-IsServing database panicked fault = inr (inr fault)

  object_table_main-IsServing :
      {D St : Type 0} (setup : Setup D St E) (database : Outcome E D)
      → IsServing cfg
          (TableFault cfg net database)
          gcs_objects
          (global_scheduling ∷ [])
          (λ s. Unit)
          (object_table_main cfg net setup database)
  unfolding object_table_main
  object_table_main-IsServing {D} setup database =
      let started = start_gcs_obj_server setup cfg.gcs.flush_interval_sec database in
      listening-IsServing cfg (TableFault cfg net database) gcs_objects (global_scheduling ∷ [])
        (λ (s : GcsObjServer D × Timer). Unit) (net.listen (listen_address cfg gcs_objects))
        (object_table_started cfg (listen_address cfg gcs_objects) started)
        (λ e eq. inl (_, e, inl eq))
        (object_table_started-IsServing database started
          (start_gcs_obj_server-StartFault setup cfg.gcs.flush_interval_sec database))

  global_scheduler_main-IsServing :
      IsServing cfg
        (NetFault net)
        global_scheduling
        (gcs_objects ∷ [])
        (λ s. Unit)
        (global_scheduler_main cfg net)
  unfolding global_scheduler_main
  global_scheduler_main-IsServing =
      listening-IsServing cfg (NetFault net) global_scheduling (gcs_objects ∷ [])
        (λ (s : Server F). Unit) (net.listen (listen_address cfg global_scheduling))
        (serving (listen_address cfg global_scheduling) (dial_address cfg global_objects ∷ [])
          (record { status = [] }))
        (λ e eq. (_, e, inl eq)) (refl, (leads global_objects tt, tt), tt)

  function_table_main-IsServing :
      IsServing cfg (NetFault net) gcs_functions [] (λ s. Unit) (function_table_main cfg net)
  unfolding function_table_main
  function_table_main-IsServing =
      listening-IsServing cfg (NetFault net) gcs_functions [] (λ (s : GcsFuncServer). Unit)
        (net.listen (listen_address cfg gcs_functions))
        (serving (listen_address cfg gcs_functions) [] new_gcs_func_server) (λ e eq. (_, e, inl eq))
        (refl, tt, tt)

  module _ (n : ℕ) (small : n < 2 ^ 63) where
    own_number : local_node_id (format_uint n) ≡ n
    unfolding local_node_id
    own_number = atoi-format_uint n small

    local_scheduler_main-IsServing :
        IsServing cfg
          (NetFault net)
          (local_scheduling n)
          (working n ∷ global_scheduling ∷ gcs_objects ∷ [])
          (λ s. s.local_node_id ≡ n)
          (local_scheduler_main cfg net (format_uint n))
    unfolding local_scheduler_main listen_address dial_address
    local_scheduler_main-IsServing =
        let node = local_node_id (format_uint n) in
        listening-IsServing cfg (NetFault net) (local_scheduling n)
          (working n ∷ global_scheduling ∷ gcs_objects ∷ [])
          (λ (s : LocalServer). s.local_node_id ≡ n)
          (net.listen (listen_address cfg (local_scheduling node)))
          (serving (listen_address cfg (local_scheduling node))
            (dial_address cfg (scheduler_worker node)
              ∷ dial_address cfg (scheduler_global node)
              ∷ dial_address cfg (scheduler_objects node)
              ∷ [])
            (record { local_node_id = node; alive = true }))
          (λ e eq. (_, e, inl eq))
          (
            refl,
            (
              leads (scheduler_worker n) tt,
              (leads (scheduler_global n) tt, (leads (scheduler_objects n) tt, tt)),
            ),
            own_number,
          )

    object_store_main-IsServing :
        {M : Type 0} (f : Float32 F) (memory : M)
        → IsServing cfg
            (NetFault net)
            (object_storing n)
            (gcs_objects ∷ [])
            (λ s. s.local_node_id ≡ n)
            (object_store_main cfg net f memory (format_uint n))
    unfolding object_store_main start_server listen_address dial_address
    object_store_main-IsServing {M} f memory =
        let node = local_node_id (format_uint n) in
        listening-IsServing cfg (NetFault net) (object_storing n) (gcs_objects ∷ [])
          (λ (s : ObjStore M F). s.local_node_id ≡ n)
          (net.listen (listen_address cfg (object_storing node)))
          (serving (listen_address cfg (object_storing node))
            (dial_address cfg (store_objects node) ∷ [])
            (record {
              memory = memory;
              object_sizes = [];
              local_node_id = node;
              avg_bandwidth = f.div (f.of_uint 1) (f.of_uint 10);
            }))
          (λ e eq. (_, e, inl eq)) (refl, (leads (store_objects n) tt, tt), own_number)

    worker_main-IsServing :
        (f : Float32 F)
        → cfg.ports.local_object_store ≡ pos 50000
        → IsServing cfg
            (NetFault net)
            (working n)
            (gcs_functions ∷ object_storing n ∷ [])
            (λ s. s.alive ≡ true)
            (worker_main cfg net f n)
    unfolding worker_main
    worker_main-IsServing f fixed =
        let functions = dial_address cfg (worker_functions n) in
        let store = dial_address cfg (worker_store n) in
        let served = serving (listen_address cfg (working n)) (functions ∷ store ∷ []) (record {
          slots = 0;
          num_running_tasks = 0;
          num_queued_tasks = 0;
          average_running_time = f.div (f.of_uint 1) (f.of_uint 10);
          alive = true;
        }) in
        let P = λ (s : Shared F). s.alive ≡ true in
        let servers = gcs_functions ∷ object_storing n ∷ [] in
        listening-IsServing cfg (NetFault net) (working n) servers P
          (net.listen (listen_address cfg (working n)))
          (create_grpc_client (net.dial functions) (create_grpc_client (net.dial store) served))
          (λ e eq. (_, e, inl eq))
          (create_grpc_client-IsServing cfg (NetFault net) (working n) servers P
            (net.dial functions) (create_grpc_client (net.dial store) served)
            (λ e eq. (functions, e, inr eq))
            (create_grpc_client-IsServing cfg (NetFault net) (working n) servers P (net.dial store)
              served (λ e eq. (store, e, inr eq))
              (refl, (leads (worker_functions n) tt, (leads (worker_store n) fixed, tt)), refl)))

    -- Where no colon stands in the prefix of the nodes' names, the object store's port is 50000, and
    -- NODE_ID is the decimal number of a node, below 2 ^ 63: each of the six processes that comes to
    -- serve listens at its service's address, and what it has dialled by then leads, one by one, to the
    -- services that it is a client of; the local scheduler and the object store of the node announce
    -- themselves under its number, and the worker is alive. One that does not serve could not listen or
    -- dial somewhere, or, for the object table, not open its database or not take its flush interval.
    pub mains-IsServing :
        {D St M : Type 0} (setup : Setup D St E) (database : Outcome E D) (f : Float32 F)
        (memory : M)
        → cfg.ports.local_object_store ≡ pos 50000
        → AllServe cfg net n setup database f memory
    mains-IsServing setup database f memory fixed = (
      function_table_main-IsServing,
      object_table_main-IsServing setup database,
      global_scheduler_main-IsServing,
      local_scheduler_main-IsServing,
      object_store_main-IsServing f memory,
      worker_main-IsServing f fixed,
    )
