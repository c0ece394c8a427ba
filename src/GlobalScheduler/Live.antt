-- ===== src/GlobalScheduler/Live.antt =====
-- Which nodes the global scheduler (go/cmd/globalscheduler/main.go) reports as live.
use babyray.Common.{
  ℕ, ◌-◌, ◌≡◌, refl, ap, ◌∙◌, Bool, Option, none, some, List, [], ◌∷◌, ◌++◌, arith, ltb, ◌==◌,
  if◌then◌else◌,
}
use babyray.Common.Dict.{Dict, lookup, lookup-insert}
use babyray.Wire.{HeartbeatRequest}
use babyray.GlobalScheduler.{
  HeartbeatEntry, Server, heartbeat, queued_tasks, live_map, send_live_nodes, live_node_timeout,
  Event, arrival, round, live_nodes_heartbeat,
}

-- Whether a node is live at a time, if its last heartbeat is known.
abbrev pub recent : ℕ → Option ℕ → Option Bool
recent now none = none
recent now (some t) = some (ltb (now - t) live_node_timeout)

module _ {F : Type 0} where
  -- Heartbeats in their order, with the time at which each arrives.
  pub receive_all : List (ℕ × HeartbeatRequest F) → Server F → Server F
  receive_all [] s = s
  receive_all ((now, req) ∷ beats) s = receive_all beats (heartbeat now s req)

  -- When the last heartbeat of a node arrived, if one did.
  abbrev pub last_heard : ℕ → List (ℕ × HeartbeatRequest F) → Option ℕ → Option ℕ
  last_heard node [] before = before
  last_heard node ((now, req) ∷ beats) before =
      last_heard node beats (if req.node_id == node then some now else before)

  abbrev heard : Option (HeartbeatEntry F) → Option ℕ
  heard none = none
  heard (some e) = some e.time_received

  lookup-live_map :
      (now node : ℕ) (m : Dict (HeartbeatEntry F))
      → lookup node (live_map now m) ≡ recent now (heard (lookup node m))
  unfolding live_map lookup
  lookup-live_map now node [] = refl
  lookup-live_map now node ((j, e) ∷ m) = ground (arith, lookup-live_map now node m)

  heard-heartbeat :
      (now node : ℕ) (req : HeartbeatRequest F) (s : Server F)
      → heard (lookup node (heartbeat now s req).status)
        ≡ (if req.node_id == node then some now else heard (lookup node s.status))
  unfolding heartbeat
  heard-heartbeat now node req s = ground (
    arith,
    lookup-insert req.node_id node
        (record {
          time_received = now;
          num_running_tasks = req.running_tasks;
          num_queued_tasks = queued_tasks req;
          avg_running_time = req.avg_running_time;
          avg_bandwidth = req.avg_bandwidth;
        })
        s.status,
  )

  heard-receive_all :
      (node : ℕ) (beats : List (ℕ × HeartbeatRequest F)) (s : Server F)
      → heard (lookup node (receive_all beats s).status)
        ≡ last_heard node beats (heard (lookup node s.status))
  unfolding receive_all
  heard-receive_all node [] s = refl
  heard-receive_all node ((now, req) ∷ beats) s =
      heard-receive_all node beats (heartbeat now s req)
      ∙ ap (last_heard node beats) (heard-heartbeat now node req s)

  -- After any heartbeats, the report holds exactly the nodes that were heard of, each as live if its
  -- last heartbeat arrived less than 400 ms ago.
  pub send_live_nodes-last_heard :
      (now node : ℕ) (beats : List (ℕ × HeartbeatRequest F))
      → lookup node (send_live_nodes now (receive_all beats (record { status = [] }))).live_nodes
        ≡ recent now (last_heard node beats none)
  unfolding send_live_nodes
  send_live_nodes-last_heard now node beats =
      lookup-live_map now node (receive_all beats (record { status = [] })).status
      ∙ ap (recent now) (unfold lookup in heard-receive_all node beats (record { status = [] }))

module _ {F : Type 0} where
  -- The heartbeats among some events.
  abbrev pub beats_of : List (Event F) → List (ℕ × HeartbeatRequest F)
  beats_of [] = []
  beats_of (arrival now req ∷ events) = (now, req) ∷ beats_of events
  beats_of (round now ∷ events) = beats_of events

  live_nodes_heartbeat_split :
      (before : List (Event F)) (now : ℕ) (after : List (Event F)) (s : Server F)
      → let s' = receive_all (beats_of before) s in
        live_nodes_heartbeat (before ++ round now ∷ after) s
        ≡ live_nodes_heartbeat before s ++ send_live_nodes now s' ∷ live_nodes_heartbeat after s'
  unfolding live_nodes_heartbeat receive_all
  live_nodes_heartbeat_split [] now after s = refl
  live_nodes_heartbeat_split (arrival t req ∷ before) now after s =
      live_nodes_heartbeat_split before now after (heartbeat t s req)
  live_nodes_heartbeat_split (round t ∷ before) now after s =
      ap (λ rs. send_live_nodes t s ∷ rs) (live_nodes_heartbeat_split before now after s)

  abbrev pub unheard : Server F
  unheard = record { status = [] }

  -- However heartbeats and the rounds of LiveNodesHeartbeat follow each other, from a scheduler that
  -- has heard of nobody: the request of a round comes after those of the rounds before it and before
  -- those of the later ones, and it holds exactly the nodes that were heard of up to then, each as
  -- live if its last heartbeat arrived less than 400 ms before the round.
  pub live_nodes_heartbeat-last_heard :
      (before : List (Event F)) (now : ℕ) (after : List (Event F)) (node : ℕ)
      → let s = receive_all (beats_of before) unheard in
        (live_nodes_heartbeat (before ++ round now ∷ after) unheard
          ≡ live_nodes_heartbeat before unheard
            ++ send_live_nodes now s ∷ live_nodes_heartbeat after s)
        × (lookup node (send_live_nodes now s).live_nodes
            ≡ recent now (last_heard node (beats_of before) none))
  live_nodes_heartbeat-last_heard before now after node = (
    live_nodes_heartbeat_split before now after unheard,
    send_live_nodes-last_heard now node (beats_of before),
  )
