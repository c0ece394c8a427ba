-- ===== src/LocalScheduler/Heartbeats.antt =====
-- `SendHeartbeats` of go/cmd/localscheduler/main.go: one round of its loop, with the retries and the
-- waits between them. The answers of the worker and of the object store come as sequences, an answer
-- for each attempt; fuel bounds the attempts, and the proofs say how much is enough.
pub mod Backoff
use babyray.Common.{
  ℕ, zero, suc, ◌+◌, ◌*◌, Bool, true, false, Option, none, some, List, [], ◌∷◌, ◌++◌, ltb,
  if◌then◌else◌, Outcome, ok, err,
}
use babyray.Wire.{HeartbeatRequest, WorkerStatusResponse, BandwidthResponse}
use babyray.LocalScheduler.{LocalServer}

-- The doubling of `backoff`, an `int`; capped at 32, it does not overflow.
next_backoff : ℕ → ℕ
next_backoff backoff = if ltb 32 (backoff * 2) then 32 else backoff * 2

-- A loop of retries: the value of the first answer that is no error, and the seconds slept after each
-- error; `none` is fuel that ran out.
wait_first : {A : Type 0} → ℕ → Option (A × List ℕ) → Option (A × List ℕ)
wait_first seconds none = none
wait_first seconds (some (a, waits)) = some (a, seconds ∷ waits)

after_attempt : {E A : Type 0} → ℕ → Option (A × List ℕ) → Outcome E A → Option (A × List ℕ)
unfolding wait_first
after_attempt backoff again (ok a) = some (a, [])
after_attempt backoff again (err e) = wait_first backoff again

pub retry : {E A : Type 0} → ℕ → (ℕ → Outcome E A) → ℕ → ℕ → Option (A × List ℕ)
unfolding after_attempt next_backoff
retry zero answers attempt backoff = none
retry (suc fuel) answers attempt backoff =
    after_attempt backoff (retry fuel answers (suc attempt) (next_backoff backoff))
      (answers attempt)

module _ {F : Type 0} where
  heartbeat_of :
      LocalServer
      → Option (WorkerStatusResponse F × List ℕ)
      → Option (BandwidthResponse F × List ℕ)
      → Option (Option (HeartbeatRequest F) × List ℕ)
  heartbeat_of s none bandwidth = none
  heartbeat_of s (some status) none = none
  heartbeat_of s (some (w, waits)) (some (b, more)) = some (
    some (record {
      running_tasks = w.num_running_tasks;
      queued_tasks = w.num_queued_tasks;
      avg_running_time = w.average_running_time;
      avg_bandwidth = b.avg_bandwidth;
      node_id = s.local_node_id;
    }),
    waits ++ more,
  )

  -- One round: the heartbeat that is sent, if one is, and the waits of the retries before it.
  unfoldable pub heartbeat_round :
      {E : Type 0}
      → ℕ
      → LocalServer
      → (ℕ → Outcome E (WorkerStatusResponse F))
      → (ℕ → Outcome E (BandwidthResponse F))
      → Option (Option (HeartbeatRequest F) × List ℕ)
  unfolding heartbeat_of retry
  heartbeat_round fuel s statuses bandwidths =
      if s.alive
      then heartbeat_of s (retry fuel statuses 0 1) (retry fuel bandwidths 0 1)
      else some (none, [])
