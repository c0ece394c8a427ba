-- ===== src/LocalScheduler/Tests.antt =====
-- Runs of go/cmd/localscheduler/main.go on small inputs, and its theorems at concrete inputs.
use babyray.Common.{
  ℕ, zero, suc, ◌<◌, ◌≤◌, ◌+◌, ◌*◌, ◌≡◌, refl, true, false, some, [], ◌∷◌, Outcome, ok, err, arith,
}
use babyray.Wire.{ScheduleRequest, WorkerStatusResponse, BandwidthResponse}
use babyray.LocalScheduler.{
  LocalServer, Surroundings, schedule, kill_server, revive_server, truncate_high_bit,
}
use babyray.LocalScheduler.Routing.{IsRouted, schedule-IsRouted}
use babyray.LocalScheduler.Heartbeats.{heartbeat_round}
use babyray.LocalScheduler.Heartbeats.Backoff.{IsFirst, heartbeat_round-sends}

abbrev node_two : LocalServer
node_two = record { local_node_id = 2; alive = true }

-- The floats of the messages are not looked at, and numbers stand for them.
abbrev running : ℕ → WorkerStatusResponse ℕ
running n = record { num_running_tasks = n; num_queued_tasks = 1; average_running_time = 5 }

abbrev busy : Surroundings ℕ Unit
busy = record { random = 9223372036854775817; worker_status = ok (running 10); canceled = false }

abbrev anywhere : ScheduleRequest
anywhere = record {
  name = 4;
  args = 1 ∷ [];
  kwargs = [];
  uids = 7 ∷ [];
  node_id = 0;
  locality_flag = true;
}

schedule-IsRouted_example : IsRouted busy anywhere (schedule node_two busy anywhere)
schedule-IsRouted_example = schedule-IsRouted node_two anywhere busy

high_bit : truncate_high_bit 9223372036854775817 ≡ 9
unfolding truncate_high_bit
high_bit = refl

revived : (revive_server (kill_server node_two).0).0 ≡ node_two
unfolding revive_server kill_server
revived = refl

-- The worker fails twice and then answers.
abbrev third_time : ℕ → Outcome ℕ (WorkerStatusResponse ℕ)
third_time zero = err 14
third_time (suc zero) = err 14
third_time (suc (suc n)) = ok (running 3)

abbrev at_once : ℕ → Outcome ℕ (BandwidthResponse ℕ)
at_once n = ok (record { avg_bandwidth = 6 })

third_time-fails : (k : ℕ) → k < 2 → (e : ℕ) × (third_time (0 + k) ≡ err e)
third_time-fails zero lt = (14, refl)
third_time-fails (suc zero) lt = (14, refl)
third_time-fails (suc (suc k)) lt = absurd (omega arith)

third_time-IsFirst : IsFirst third_time 0 2 (running 3)
third_time-IsFirst = record { answered = refl; failed = λ k lt. third_time-fails k lt }

at_once-IsFirst : IsFirst at_once 0 0 (record { avg_bandwidth = 6 })
at_once-IsFirst = record { answered = refl; failed = λ k lt. absurd (omega arith) }

heartbeat_round-sends_example :
    (heartbeat_round 5 node_two third_time at_once
      ≡ some (
        some (record {
          running_tasks = 3;
          queued_tasks = 1;
          avg_running_time = 5;
          avg_bandwidth = 6;
          node_id = 2;
        }),
        1 ∷ 2 ∷ [],
      ))
    × (3 ≤ 32 * (2 + 0))
heartbeat_round-sends_example =
    heartbeat_round-sends 5 2 0 node_two third_time at_once (running 3)
      (record { avg_bandwidth = 6 }) refl third_time-IsFirst at_once-IsFirst (omega arith)
      (omega arith)
