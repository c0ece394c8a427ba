-- ===== src/LocalScheduler/Heartbeats/Backoff.antt =====
-- The retries of `SendHeartbeats` (go/cmd/localscheduler/main.go): what a round sends, and how long it
-- waits.
use babyray.Common.{
  ℕ, zero, suc, ◌+◌, ◌*◌, ◌<◌, ◌≤◌, ◌≡◌, refl, true, some, List, [], ◌∷◌, ◌++◌, Outcome, ok, err,
  arith, min, subst,
}
use babyray.Wire.{WorkerStatusResponse, BandwidthResponse}
use babyray.LocalScheduler.{LocalServer}
use babyray.LocalScheduler.Heartbeats.{
  next_backoff, wait_first, after_attempt, retry, heartbeat_of, heartbeat_round,
}

abbrev pub pow2 : ℕ → ℕ
pow2 zero = 1
pow2 (suc i) = 2 * pow2 i

-- The waits before `n` attempts from the one numbered `i` on: wait `i` is 2 to the `i` seconds, at most
-- 32.
abbrev pub waits : ℕ → ℕ → List ℕ
waits i zero = []
waits i (suc n) = min (pow2 i) 32 ∷ waits (suc i) n

-- The first answer that is no error is the one numbered `n`.
pub record IsFirst {E A : Type 0} (answers : ℕ → Outcome E A) (i n : ℕ) (a : A) : Type 0 where
  pub answered : answers (i + n) ≡ ok a
  pub failed : (k : ℕ) → k < n → (e : E) × (answers (i + k) ≡ err e)

next_backoff-pow2 : (i : ℕ) → next_backoff (min (pow2 i) 32) ≡ min (pow2 (suc i)) 32
unfolding next_backoff
next_backoff-pow2 i = ground arith

module _ {E A : Type 0} (answers : ℕ → Outcome E A) (a : A) where
  IsFirst-tail : (i n : ℕ) → IsFirst answers i (suc n) a → IsFirst answers (suc i) n a
  IsFirst-tail i n h = record {
    answered = subst (λ j. answers j ≡ ok a) (omega arith) h.answered;
    failed = λ k lt. (
      (h.failed (suc k) (omega arith)).0,
      subst (λ j. answers j ≡ err (h.failed (suc k) (omega arith)).0) (omega arith)
          (h.failed (suc k) (omega arith)).1,
    );
  }

  retry-IsFirst :
      (i n fuel : ℕ)
      → IsFirst answers i n a
      → n < fuel
      → retry fuel answers i (min (pow2 i) 32) ≡ some (a, waits i n)
  unfolding retry after_attempt wait_first
  retry-IsFirst i n zero h lt = absurd (omega arith)
  retry-IsFirst i zero (suc fuel) h lt =
      let now : answers i ≡ ok a = subst (λ j. answers j ≡ ok a) (omega arith) h.answered in
      rw now refl
  retry-IsFirst i (suc n) (suc fuel) h lt =
      let rest = retry-IsFirst (suc i) n fuel (IsFirst-tail i n h) (omega arith) in
      let fail = h.failed 0 (omega arith) in
      let now : answers i ≡ err fail.0 = subst (λ j. answers j ≡ err fail.0) (omega arith) fail.1 in
      rw now (rw (next_backoff-pow2 i) (rw rest refl))

-- The seconds that `n` waits take together.
abbrev pub total : List ℕ → ℕ
total [] = 0
total (x ∷ xs) = x + total xs

total-waits : (i n : ℕ) → total (waits i n) ≤ 32 * n
total-waits i zero = omega arith
total-waits i (suc n) = omega (arith, total-waits (suc i) n)

total-append : (xs ys : List ℕ) → total (xs ++ ys) ≡ total xs + total ys
total-append [] ys = omega arith
total-append (x ∷ xs) ys = omega (arith, total-append xs ys)

-- While the scheduler is alive, a round in which the worker answers at attempt `n` and the object
-- store at attempt `m`, after errors alone, ends, if fuel for both is given, with one heartbeat that
-- carries those two answers and the node's id. It has waited 1, 2, 4, ... and at most 32 seconds
-- between the attempts of each, together at most 32 seconds for each error.
pub heartbeat_round-sends :
    {F E : Type 0} (fuel n m : ℕ) (s : LocalServer)
    (statuses : ℕ → Outcome E (WorkerStatusResponse F))
    (bandwidths : ℕ → Outcome E (BandwidthResponse F)) (w : WorkerStatusResponse F)
    (b : BandwidthResponse F)
    → s.alive ≡ true
    → IsFirst statuses 0 n w
    → IsFirst bandwidths 0 m b
    → n < fuel
    → m < fuel
    → (heartbeat_round fuel s statuses bandwidths
        ≡ some (
          some (record {
            running_tasks = w.num_running_tasks;
            queued_tasks = w.num_queued_tasks;
            avg_running_time = w.average_running_time;
            avg_bandwidth = b.avg_bandwidth;
            node_id = s.local_node_id;
          }),
          waits 0 n ++ waits 0 m,
        ))
      × (total (waits 0 n ++ waits 0 m) ≤ 32 * (n + m))
unfolding heartbeat_round heartbeat_of
heartbeat_round-sends fuel n m s statuses bandwidths w b alive first_status first_bandwidth n_lt
      m_lt =
    let one = retry-IsFirst statuses w 0 n fuel first_status n_lt in
    let two = retry-IsFirst bandwidths b 0 m fuel first_bandwidth m_lt in
    (
      rw alive (rw one (rw two refl)),
      omega (arith, total-append (waits 0 n) (waits 0 m), total-waits 0 n, total-waits 0 m),
    )
