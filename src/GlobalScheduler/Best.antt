-- ===== src/GlobalScheduler/Best.antt =====
-- `getBestWorker` of go/cmd/globalscheduler/main.go. The node ids come in the order in which
-- `rand.Shuffle` left them; `none` is the call of `log.Fatalf`.
pub mod Scan
pub mod Bytes
pub mod Minimal
use babyray.Common.{
  ℕ, ◌+◌, ◌-◌, ◌%◌, ◌^◌, ltb, length, Bool, true, false, ◌&&◌, Option, none, some, List, [], ◌∷◌,
  if◌then◌else◌, Outcome, ok, err,
}
use babyray.Common.Dict.{Dict, lookup, insert, keys, or_else}
use babyray.Common.Float.{Float32}
use babyray.Wire.{LocationByteTuple, ObjectLocationsRequest, ObjectLocationsResponse}
use babyray.GlobalScheduler.{HeartbeatEntry, Server, is_recent}

-- The loop variables minId, minTime and foundBest.
pub record Choice (F : Type 0) : Type 0 where
  pub min_id : ℕ
  pub min_time : F
  pub found_best : Bool

-- `locationToBytes` and `total`, both of `uint64`.
pub record ByteCounts : Type 0 where
  pub location_to_bytes : Dict ℕ
  pub total : ℕ

abbrev pub u64_add : ℕ → ℕ → ℕ
u64_add a b = (a + b) % 2 ^ 64

abbrev pub u64_sub : ℕ → ℕ → ℕ
u64_sub a b = (a + 2 ^ 64 - b) % 2 ^ 64

init_counts : List ℕ → Dict ℕ → Dict ℕ
init_counts [] m = m
init_counts (id ∷ ids) m = init_counts ids (insert id 0 m)

count_bytes : ℕ → List ℕ → ByteCounts → ByteCounts
count_bytes bytes [] c = c
count_bytes bytes (loc ∷ locs) c = count_bytes bytes locs (record {
  location_to_bytes =
      insert loc (u64_add (or_else 0 (lookup loc c.location_to_bytes)) bytes) c.location_to_bytes;
  total = u64_add c.total bytes;
})

count_all : Dict LocationByteTuple → ByteCounts → ByteCounts
unfolding count_bytes
count_all [] c = c
count_all ((uid, val) ∷ m) c = count_all m (count_bytes val.bytes val.locations c)

-- The counts over the response, from 0 at every node with a heartbeat.
pub byte_counts : List ℕ → ObjectLocationsResponse → ByteCounts
unfolding init_counts count_all
byte_counts ids r =
    count_all r.locations (record { location_to_bytes = init_counts ids []; total = 0 })

module _ {F : Type 0} (f : Float32 F) where
  -- float32(numQueuedTasks) * avgRunningTime
  pub queueing_time : ℕ → HeartbeatEntry F → F
  queueing_time id e = f.mul (f.of_uint e.num_queued_tasks) e.avg_running_time

  -- queueingTime + float32(total - bytes) / avgBandwidth
  pub waiting_time : ByteCounts → ℕ → HeartbeatEntry F → F
  unfolding queueing_time
  waiting_time c id e =
      let bytes = or_else 0 (lookup id c.location_to_bytes) in
      f.add (queueing_time id e) (f.div (f.of_uint (u64_sub c.total bytes)) e.avg_bandwidth)

  better : Choice F → ℕ → F → Choice F
  better best id time =
      if f.lt time best.min_time
      then record { min_id = id; min_time = time; found_best = true }
      else best

  -- One round of either loop: a node that is not live is skipped.
  consider : ℕ → (ℕ → HeartbeatEntry F → F) → Choice F → ℕ → Option (HeartbeatEntry F) → Choice F
  unfolding better
  consider now cost best id none = best
  consider now cost best id (some e) = if is_recent now e then better best id (cost id e) else best

  pub scan : ℕ → (ℕ → HeartbeatEntry F → F) → Dict (HeartbeatEntry F) → List ℕ → Choice F → Choice F
  unfolding consider
  scan now cost status [] best = best
  scan now cost status (id ∷ ids) best =
      scan now cost status ids (consider now cost best id (lookup id status))

  chosen : Choice F → Option ℕ
  chosen best = if best.found_best then some best.min_id else none

  -- The scan of all nodes, from minId = 0 and minTime = math.MaxFloat32.
  unfoldable pub best_by : (List ℕ → List ℕ) → ℕ → (ℕ → HeartbeatEntry F → F) → Server F → Option ℕ
  unfolding scan chosen
  best_by shuffle now cost s = chosen (
      scan now cost s.status (shuffle (keys s.status))
        (record { min_id = 0; min_time = f.max_float; found_best = false }))

  by_locality :
      {E : Type 0} → (List ℕ → List ℕ) → ℕ → Server F → Outcome E ObjectLocationsResponse → Option ℕ
  unfolding best_by waiting_time byte_counts
  by_locality shuffle now s (err e) = none
  by_locality shuffle now s (ok r) =
      best_by shuffle now (waiting_time (byte_counts (keys s.status) r)) s

  -- `locations` is the object table's answer to GetObjectLocations.
  unfoldable pub get_best_worker :
      {E : Type 0}
      → (List ℕ → List ℕ)
      → ℕ
      → Server F
      → (ObjectLocationsRequest → Outcome E ObjectLocationsResponse)
      → Bool
      → List ℕ
      → Option ℕ
  unfolding by_locality
  get_best_worker shuffle now s locations locality_flag uids =
      if locality_flag && ltb 0 (length uids)
      then by_locality shuffle now s (locations (record { args = uids }))
      else best_by shuffle now queueing_time s
